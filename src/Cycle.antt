-- ===== src/Cycle.antt =====
-- src/private_billing/core/cycle.py and bill.py: the context of a billing cycle, the totals that all
-- participants share, and the plain bill.
pub mod Flags
use private_billings.Prelude.{ℕ, Bool, List, [], ◌∷◌, ◌++◌, ◌==◌, length}
use private_billings.Python.Raises.{Result, ok, ◌>>=◌, ◌>>◌, assert}
use private_billings.Number.{Number}
use private_billings.Vector.{flag}
use mathlib.Core.List.{foldl}

abbrev pub CycleId : Type 0
CycleId = ℕ

abbrev pub ClientId : Type 0
ClientId = ℕ

pub record CycleContext (N : Type 0) : Type 0 where
  pub cycle_id : CycleId
  pub cycle_length : ℕ
  pub retail_prices : List N
  pub feed_in_tarifs : List N
  pub trading_prices : List N

pub record SharedCycleData (N : Type 0) : Type 0 where
  pub total_deviations : List N
  pub total_p2p_consumers : List N
  pub total_p2p_producers : List N

-- `class Bill`
pub record Bill (N : Type 0) : Type 0 where
  pub cycle_id : CycleId
  pub bill : List N
  pub reward : List N

module _ {N : Type 0} where
  -- `CycleContext.check_validity`
  unfoldable pub check_context : CycleContext N → Result (Unit {0})
  check_context cyc = do
    assert (length cyc.retail_prices == cyc.cycle_length)
    assert (length cyc.feed_in_tarifs == cyc.cycle_length)
    assert (length cyc.trading_prices == cyc.cycle_length)

  -- The constructor of the dataclass with its `__post_init__`.
  unfoldable pub new_context : CycleId → ℕ → List N → List N → List N → Result (CycleContext N)
  unfolding check_context
  new_context id len retail feed_in trading = do
    let cyc : CycleContext N = record {
      cycle_id = id;
      cycle_length = len;
      retail_prices = retail;
      feed_in_tarifs = feed_in;
      trading_prices = trading;
    }
    check_context cyc
    ok cyc

  -- `SharedCycleData.check_validity`
  unfoldable pub check_shared : SharedCycleData N → CycleContext N → Result (Unit {0})
  check_shared scd cyc = do
    assert (length scd.total_deviations == cyc.cycle_length)
    assert (length scd.total_p2p_consumers == cyc.cycle_length)
    assert (length scd.total_p2p_producers == cyc.cycle_length)

  -- `Bill.check_validity`
  unfoldable pub check_bill : Bill N → CycleContext N → Result (Unit {0})
  check_bill b cyc = do
    assert (length b.bill == cyc.cycle_length)
    assert (length b.reward == cyc.cycle_length)

module _ {N : Type 0} ⦃n : Number N⦄ where
  -- The loop of the two flag properties: one flag is appended for each deviation.
  abbrev pub append_flags : (N → Bool) → List N → List N → List N
  append_flags test deviation_flags [] = deviation_flags
  append_flags test deviation_flags (dev ∷ devs) =
      append_flags test (deviation_flags ++ flag (test dev) ∷ []) devs

  unfoldable pub positive_total_deviation_flags : SharedCycleData N → List N
  positive_total_deviation_flags scd =
      append_flags (λ dev. n.lt n.nought dev) [] scd.total_deviations

  unfoldable pub negative_total_deviation_flags : SharedCycleData N → List N
  negative_total_deviation_flags scd =
      append_flags (λ dev. n.lt dev n.nought) [] scd.total_deviations

  -- Python's `sum` adds to 0 from the left.
  unfoldable pub sum : List N → N
  sum = foldl n.add n.nought

  unfoldable pub total : Bill N → N
  unfolding sum
  total b = n.sub (sum b.bill) (sum b.reward)
