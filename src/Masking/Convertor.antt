-- ===== src/Masking/Convertor.antt =====
-- `Int64ToFloatConvertor`: an integer of 64 bits as a number with a fixed count of digits before and
-- behind the point.
pub mod Bounds
use private_billings.Prelude.{ℕ, ◌+◌, ◌^◌, leb}
use private_billings.Python.Raises.{Result, ok, err, ◌>>=◌, ◌>>◌, assert, not_implemented}
use private_billings.Number.{Number}
use private_billings.Masking.{Int64Convertor}

-- The method of the abstract base class.
unfoldable pub abstract_convertor : {N : Type 0} → Int64Convertor N
abstract_convertor val = err not_implemented

pub record Int64ToFloatConvertor : Type 0 where
  pub integer_size : ℕ
  pub fractional_size : ℕ

-- The assertion compares a whole number with `64 * math.log10(2)`, which is to say the power of ten
-- with the power of two.
unfoldable pub new_convertor : ℕ → ℕ → Result Int64ToFloatConvertor
new_convertor integer_size fractional_size = do
  assert (leb (10 ^ (integer_size + fractional_size)) (2 ^ 64))
  ok (record { integer_size = integer_size; fractional_size = fractional_size })

unfoldable pub modulus : Int64ToFloatConvertor → ℕ
modulus c = 10 ^ c.integer_size

unfoldable pub divisor : Int64ToFloatConvertor → ℕ
divisor c = 10 ^ c.fractional_size

module _ {N : Type 0} ⦃n : Number N⦄ where
  unfoldable pub convert_from_int64 : Int64ToFloatConvertor → Int64Convertor N
  unfolding modulus divisor
  convert_from_int64 c val = do
    shifted ← n.div (n.of_int val) (n.of_int (divisor c))
    n.fmod shifted (n.of_int (modulus c))
