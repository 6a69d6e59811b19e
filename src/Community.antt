-- ===== src/Community.antt =====
-- The participants of a billing cycle together: what their hidden data adds up to, and their bills.
pub mod Totals
pub mod Side
pub mod Bills
pub mod Checks
use private_billings.Prelude.{ℕ, List, map}
use private_billings.Masking.Cancel.{Parties}
use private_billings.Cycle.{ClientId}
use private_billings.Hiding.Openfhe.{Fhe}
use private_billings.Hiding.{HidingContext}

-- A client with its secrets, its promises and what it used, slot by slot.
pub record Member {N : Type 0} (F : Fhe N) : Type 0 where
  pub client : ClientId
  pub hc : HidingContext F
  pub promise : ℕ → N
  pub used : ℕ → N

abbrev pub generators : {N : Type 0} {F : Fhe N} → List (Member F) → Parties N
generators = map (λ m. (m.client, m.hc.mask_generator))
