-- ===== src/Data.antt =====
-- src/private_billing/core/data.py: the plain data of a client in a cycle, and how it is hidden.
pub mod Slots
pub mod Laws
pub mod Balance
pub mod Hide
use Prim.Native.String.{String}
use private_billings.Prelude.{ℕ, List, length, ◌==◌}
use private_billings.Python.Raises.{Result, ok, assert, ◌>>=◌, ◌>>◌}
use private_billings.Number.{Number}
use private_billings.Vector.{vec, num, sub, mul, or, get_positive_flags}
use private_billings.Cycle.{CycleId, ClientId, CycleContext}
use private_billings.Masking.{Pcg64}
use private_billings.Hiding.Openfhe.{Fhe}
use private_billings.Hiding.{
  Hashing, HidingContext, encrypt, mask, get_masking_iv, get_public_hiding_context,
}
use private_billings.HiddenData.{HiddenData}

pub record Data (N : Type 0) : Type 0 where
  pub client : ClientId
  pub cycle_id : CycleId
  pub utilization_promises : List N
  pub utilizations : List N

module _ {N : Type 0} ⦃n : Number N⦄ where
  unfoldable pub consumption_promises : Data N → Result (List N)
  consumption_promises d =
      mul d.utilization_promises (vec (get_positive_flags d.utilization_promises))

  unfoldable pub supply_promises : Data N → Result (List N)
  supply_promises d = do
    inverted ← mul d.utilization_promises (num n.minus_one)
    mul inverted (vec (get_positive_flags inverted))

  unfoldable pub consumptions : Data N → Result (List N)
  consumptions d = mul d.utilizations (vec (get_positive_flags d.utilizations))

  unfoldable pub supplies : Data N → Result (List N)
  supplies d = do
    inverted ← mul d.utilizations (num n.minus_one)
    mul inverted (vec (get_positive_flags inverted))

  unfoldable pub accepted_consumer_flags : Data N → Result (List N)
  accepted_consumer_flags d = ok (get_positive_flags d.utilization_promises)

  unfoldable pub accepted_producer_flags : Data N → Result (List N)
  accepted_producer_flags d = do
    inverted ← mul d.utilization_promises (num n.minus_one)
    ok (get_positive_flags inverted)

  unfoldable pub supply_deviations : Data N → Result (List N)
  supply_deviations d = do
    supplied ← supplies d
    promised ← supply_promises d
    difference ← sub supplied (vec promised)
    flags ← accepted_producer_flags d
    mul difference (vec flags)

  unfoldable pub consumption_deviations : Data N → Result (List N)
  consumption_deviations d = do
    consumed ← consumptions d
    promised ← consumption_promises d
    difference ← sub consumed (vec promised)
    flags ← accepted_consumer_flags d
    mul difference (vec flags)

  unfoldable pub individual_deviations : Data N → Result (List N)
  individual_deviations d = do
    supply ← supply_deviations d
    consumption ← consumption_deviations d
    sub supply (vec consumption)

  unfoldable pub positive_consumption_deviation_flags : Data N → Result (List N)
  positive_consumption_deviation_flags d = do
    deviations ← consumption_deviations d
    ok (get_positive_flags deviations)

  unfoldable pub positive_supply_deviation_flags : Data N → Result (List N)
  positive_supply_deviation_flags d = do
    deviations ← supply_deviations d
    ok (get_positive_flags deviations)

  unfoldable pub positive_deviation_flags : Data N → Result (List N)
  positive_deviation_flags d = do
    consumption ← positive_consumption_deviation_flags d
    supply ← positive_supply_deviation_flags d
    or consumption (vec supply)

  unfoldable pub p2p_consumer_flags : Data N → Result (List N)
  p2p_consumer_flags d = do promises ← consumption_promises d; ok (get_positive_flags promises)

  unfoldable pub p2p_producer_flags : Data N → Result (List N)
  p2p_producer_flags d = do promises ← supply_promises d; ok (get_positive_flags promises)

  -- `assert cyc.cycle_id == self.cycle_id`, then the lengths
  unfoldable pub check_data : Data N → CycleContext N → Result (Unit {0})
  check_data d cyc = do
    assert (cyc.cycle_id == d.cycle_id)
    assert (length d.utilization_promises == cyc.cycle_length)
    assert (length d.utilizations == cyc.cycle_length)

module _ {N : Type 0} ⦃n : Number N⦄ (pcg64 : Pcg64) (hashing : Hashing) {F : Fhe N} where
  -- The arguments of the constructor, from the left.
  unfoldable pub hide : Data N → HidingContext F → Result (HiddenData F)
  hide d hc = do
    consumed ← consumptions d
    encrypted_consumed ← encrypt hc consumed
    supplied ← supplies d
    encrypted_supplied ← encrypt hc supplied
    consumer ← accepted_consumer_flags d
    encrypted_consumer ← encrypt hc consumer
    producer ← accepted_producer_flags d
    encrypted_producer ← encrypt hc producer
    deviates ← positive_deviation_flags d
    encrypted_deviates ← encrypt hc deviates
    deviations ← individual_deviations d
    masked_deviations ←
        mask pcg64 hc deviations (get_masking_iv hashing d.cycle_id "individual_deviations")
    p2p_consumer ← p2p_consumer_flags d
    masked_consumer ←
        mask pcg64 hc p2p_consumer (get_masking_iv hashing d.cycle_id "p2p_consumer_flags")
    p2p_producer ← p2p_producer_flags d
    masked_producer ←
        mask pcg64 hc p2p_producer (get_masking_iv hashing d.cycle_id "p2p_producer_flags")
    ok (record {
      client = d.client;
      cycle_id = d.cycle_id;
      consumptions = encrypted_consumed;
      supplies = encrypted_supplied;
      accepted_consumer_flags = encrypted_consumer;
      accepted_producer_flags = encrypted_producer;
      positive_deviation_flags = encrypted_deviates;
      masked_individual_deviations = masked_deviations;
      masked_p2p_consumer_flags = masked_consumer;
      masked_p2p_producer_flags = masked_producer;
      phc = get_public_hiding_context hc;
    })
