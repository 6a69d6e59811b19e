-- ===== src/HiddenData.antt =====
-- src/private_billing/core/hidden_data.py: the hidden data of a client, the totals that the masks
-- leave, and the plain vectors that enter the bill. `Compute` has the computation on ciphertexts.
pub mod Compute
pub mod Split
pub mod Unmask
pub mod Circuit
pub mod Correct
use private_billings.Prelude.{ℕ, Bool, List, [], ◌∷◌, length, ◌==◌}
use private_billings.Python.Raises.{Result, ok, err, value_error, assert, ◌>>=◌, ◌>>◌}
use private_billings.Number.{Number}
use private_billings.Vector.{vec, new, add, sub, mul, truediv, max_vector}
use private_billings.Cycle.{
  CycleId, ClientId, CycleContext, SharedCycleData, positive_total_deviation_flags,
  negative_total_deviation_flags,
}
use private_billings.Hiding.Openfhe.{Fhe}
use private_billings.Hiding.{PublicHidingContext}

pub record HiddenData {N : Type 0} (F : Fhe N) : Type 0 where
  pub client : ClientId
  pub cycle_id : CycleId
  pub consumptions : F.Ciphertext
  pub supplies : F.Ciphertext
  pub accepted_consumer_flags : F.Ciphertext
  pub accepted_producer_flags : F.Ciphertext
  pub positive_deviation_flags : F.Ciphertext
  pub masked_individual_deviations : List N
  pub masked_p2p_consumer_flags : List N
  pub masked_p2p_producer_flags : List N
  pub phc : PublicHidingContext F

module _ {N : Type 0} ⦃n : Number N⦄ {F : Fhe N} where
  -- `HiddenData.check_validity`; what its `isinstance` tests ask is a type here.
  unfoldable pub check_hidden : HiddenData F → CycleContext N → Result (Unit {0})
  check_hidden hd cyc = do
    assert (length hd.masked_individual_deviations == cyc.cycle_length)
    assert (length hd.masked_p2p_consumer_flags == cyc.cycle_length)
    assert (length hd.masked_p2p_producer_flags == cyc.cycle_length)

  -- One round of the loop adds the three masked vectors of a client.
  abbrev add_datum : HiddenData F → SharedCycleData N → Result (SharedCycleData N)
  add_datum datum scd = do
    total_deviations ← add scd.total_deviations (vec datum.masked_individual_deviations)
    consumer_counts ← add scd.total_p2p_consumers (vec datum.masked_p2p_consumer_flags)
    producer_counts ← add scd.total_p2p_producers (vec datum.masked_p2p_producer_flags)
    ok (record {
      total_deviations = total_deviations;
      total_p2p_consumers = consumer_counts;
      total_p2p_producers = producer_counts;
    })

  pub add_data : List (HiddenData F) → SharedCycleData N → Result (SharedCycleData N)
  add_data [] scd = ok scd
  add_data (datum ∷ cycle_data) scd = add_datum datum scd >>= λ scd'. add_data cycle_data scd'

  unfoldable pub unmask_data : List (HiddenData F) → Result (SharedCycleData N)
  unfolding new add_data
  unmask_data [] = err value_error
  unmask_data (datum ∷ rest) =
      let vec_len = length datum.masked_individual_deviations in
      add_data (datum ∷ rest) (record {
        total_deviations = new vec_len n.nought;
        total_p2p_consumers = new vec_len n.nought;
        total_p2p_producers = new vec_len n.nought;
      })

module _ {N : Type 0} ⦃n : Number N⦄ where
  -- `bill_supplement` of `compute_hidden_bill`
  unfoldable pub bill_supplement : SharedCycleData N → CycleContext N → Result (List N)
  bill_supplement scd cyc = do
    let total_p2p_consumers = max_vector scd.total_p2p_consumers n.one
    prices ← sub cyc.trading_prices (vec cyc.retail_prices)
    product ← mul prices (vec scd.total_deviations)
    share ← truediv product (vec total_p2p_consumers)
    mul share (vec (negative_total_deviation_flags scd))

  -- `reward_penalty` of `compute_hidden_bill`
  unfoldable pub reward_penalty : SharedCycleData N → CycleContext N → Result (List N)
  reward_penalty scd cyc = do
    let total_p2p_producers = max_vector scd.total_p2p_producers n.one
    prices ← sub cyc.feed_in_tarifs (vec cyc.trading_prices)
    product ← mul prices (vec scd.total_deviations)
    share ← truediv product (vec total_p2p_producers)
    mul share (vec (positive_total_deviation_flags scd))
