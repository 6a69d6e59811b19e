-- ===== src/Masking/Convertor/Bounds.antt =====
-- The range of the numbers that `Int64ToFloatConvertor` makes.
use private_billings.Number.{Number}
