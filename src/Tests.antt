-- ===== src/Tests.antt =====
-- Concrete runs of the program, and for each property a case in which its conditions hold.
pub mod Clear
pub mod Sample
pub mod Billings
pub mod Parts
pub mod Columns
pub mod Seeds
pub mod Edge
pub mod Forged
pub mod Core
pub mod Connect
pub mod Context
pub mod Exchange
pub mod Serialization
pub mod Transport
