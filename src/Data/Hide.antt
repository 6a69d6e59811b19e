-- ===== src/Data/Hide.antt =====
-- What `Data.hide` of src/private_billing/core/data.py returns.
use Prim.Native.String.{String}
use private_billings.Prelude.{ℕ, ◌≤◌, ◌≡◌, List, map, length-map}
use private_billings.Python.Raises.{ok}
use private_billings.Number.{Number}
use private_billings.Number.Laws.{IsFinite}
use private_billings.Vector.{flag}
use private_billings.Vector.Columns.{add-map}
use private_billings.Cycle.{CycleId, ClientId}
use private_billings.Masking.{Pcg64, range_from}
use private_billings.Masking.Draws.{length-range_from, mask_value, generate_masks-map}
use private_billings.Hiding.Openfhe.{Fhe}
use private_billings.Hiding.{
  Hashing, HidingContext, encrypt, mask, get_masking_iv, get_public_hiding_context,
}
use private_billings.Hiding.Packing.{encrypted, encrypt-ok}
use private_billings.HiddenData.{HiddenData}
use private_billings.Data.{hide}
use private_billings.Data.Slots.{gain, neg, slot_deviation, slot_deviates, data_of}
use private_billings.Data.Laws.{
  consumptions-map, supplies-map, accepted_consumer_flags-map, accepted_producer_flags-map,
  individual_deviations-map, positive_deviation_flags-map, p2p_consumer_flags-map,
  p2p_producer_flags-map,
}

module _ {N : Type 0} ⦃n : Number N⦄ (pcg64 : Pcg64) (hashing : Hashing) {F : Fhe N}
    (hc : HidingContext F) (conv : ℕ → N) (size : ℕ) where
  -- A masked column of a client.
  abbrev pub masked : CycleId → String → (ℕ → N) → List N
  masked id name f =
      map
        (λ k.
          n.add (f k) (mask_value pcg64 conv (get_masking_iv hashing id name) hc.mask_generator k))
        (range_from 0 size)

  abbrev pub hidden_of : ClientId → CycleId → (ℕ → N) → (ℕ → N) → HiddenData F
  hidden_of c id promise used = record {
    client = c;
    cycle_id = id;
    consumptions = encrypted hc (map (λ k. gain (used k)) (range_from 0 size));
    supplies = encrypted hc (map (λ k. gain (neg (used k))) (range_from 0 size));
    accepted_consumer_flags =
        encrypted hc (map (λ k. flag (n.lt n.nought (promise k))) (range_from 0 size));
    accepted_producer_flags =
        encrypted hc (map (λ k. flag (n.lt (promise k) n.nought)) (range_from 0 size));
    positive_deviation_flags =
        encrypted hc (map (λ k. flag (slot_deviates (promise k) (used k))) (range_from 0 size));
    masked_individual_deviations =
        masked id "individual_deviations" (λ k. slot_deviation (promise k) (used k));
    masked_p2p_consumer_flags =
        masked id "p2p_consumer_flags" (λ k. flag (n.lt n.nought (promise k)));
    masked_p2p_producer_flags =
        masked id "p2p_producer_flags" (λ k. flag (n.lt (promise k) n.nought));
    phc = get_public_hiding_context hc;
  }

  module _ (total : (v : ℕ) → hc.mask_generator.convertor v ≡ ok (conv v)) where
    mask-map :
        (f : ℕ → N) (iv : ℕ)
        → mask pcg64 hc (map f (range_from 0 size)) iv
          ≡ ok (
              map
                (λ k. n.add (f k) (mask_value pcg64 conv iv hc.mask_generator k))
                (range_from 0 size))
    unfolding mask
    mask-map f iv =
        rw
          (
            length-map f (range_from 0 size),
            length-range_from 0 size,
            generate_masks-map pcg64 hc.mask_generator conv total iv size,
          )
          (add-map f (mask_value pcg64 conv iv hc.mask_generator) (range_from 0 size))

    encrypt-map :
        (f : ℕ → N)
        → hc.cycle_length ≤ F.batch_size hc.cc
        → size ≤ F.batch_size hc.cc
        → encrypt hc (map f (range_from 0 size)) ≡ ok (encrypted hc (map f (range_from 0 size)))
    encrypt-map f fits room =
        encrypt-ok hc (map f (range_from 0 size)) fits
          (rw (length-map f (range_from 0 size), length-range_from 0 size) room)

    -- On finite numbers, with a convertor that turns each draw into a number, for data with one promise
    -- and one utilization for each slot, and if a plaintext of the client's context has room for the
    -- slots and for the cycle of its hiding context, hiding the data raises nothing: it encrypts what was
    -- consumed and supplied, the accepted flags and the deviation flags of each slot, and masks the
    -- individual deviations and the peer-to-peer flags, each with a vector of its own.
    pub hide-eq-hidden_of :
        IsFinite N
        → hc.cycle_length ≤ F.batch_size hc.cc
        → size ≤ F.batch_size hc.cc
        → (c : ClientId) (id : CycleId) (promise used : ℕ → N)
        → hide pcg64 hashing (data_of c id promise used (range_from 0 size)) hc
          ≡ ok (hidden_of c id promise used)
    unfolding hide
    hide-eq-hidden_of finite fits room c id promise used = rw (
      consumptions-map finite c id promise used (range_from 0 size),
      encrypt-map (λ k. gain (used k)) fits room,
      supplies-map finite c id promise used (range_from 0 size),
      encrypt-map (λ k. gain (neg (used k))) fits room,
      accepted_consumer_flags-map finite c id promise used (range_from 0 size),
      encrypt-map (λ k. flag (n.lt n.nought (promise k))) fits room,
      accepted_producer_flags-map finite c id promise used (range_from 0 size),
      encrypt-map (λ k. flag (n.lt (promise k) n.nought)) fits room,
      positive_deviation_flags-map finite c id promise used (range_from 0 size),
      encrypt-map (λ k. flag (slot_deviates (promise k) (used k))) fits room,
      individual_deviations-map finite c id promise used (range_from 0 size),
      mask-map (λ k. slot_deviation (promise k) (used k)) _,
      p2p_consumer_flags-map finite c id promise used (range_from 0 size),
      mask-map (λ k. flag (n.lt n.nought (promise k))) _,
      p2p_producer_flags-map finite c id promise used (range_from 0 size),
      mask-map (λ k. flag (n.lt (promise k) n.nought)) _,
    )
