-- ===== src/Number.antt =====
-- Python's numbers (int and float, which the program mixes freely) as far as the program uses them.
-- `Number` has the operations; `IsFinite` and `IsExact` state what is relied on of them.
pub mod Laws
pub mod Int
pub mod Sums
use private_billings.Prelude.{ℕ, Bool}
use private_billings.Python.Raises.{Result}

pub record Number (N : Type 0) : Type 0 where
  -- the literals 0, 1 and -1
  pub nought : N
  pub one : N
  pub minus_one : N
  -- an int that is not negative
  pub of_int : ℕ → N
  pub add : N → N → N
  pub sub : N → N → N
  pub mul : N → N → N
  -- these raise for some operands: a zero divisor, or a float where an int is wanted
  pub div : N → N → Result N
  pub rem : N → N → Result N
  pub bit_xor : N → N → Result N
  pub bit_or : N → N → Result N
  -- `math.fmod`
  pub fmod : N → N → Result N
  -- `a < b` and `a == b`
  pub lt : N → N → Bool
  pub eq : N → N → Bool
  -- `round(a, digits)`
  pub round : N → ℕ → N
