-- ===== src/HiddenData/Correct.antt =====
-- The bill of `compute_hidden_bill` beside the cost split of HiddenData.Split.
use private_billings.Prelude.{
  ℕ, ◌≤◌, ◌≡◌, refl, sym, ap, ◌∙◌, List, map, length, length-map, map-map,
}
use mathlib.Core.Path.{subst, subst₂, fun_ext}
use private_billings.Python.Raises.{ok}
use private_billings.Number.{Number}
use private_billings.Number.Laws.{IsFinite}
use private_billings.Vector.{flag}
use private_billings.Cycle.{SharedCycleData, CycleContext, Bill}
use private_billings.Hiding.Openfhe.{Fhe}
use private_billings.Hiding.Laws.{IsHomomorphic}
use private_billings.Hiding.{HidingContext, decrypt}
use private_billings.Hiding.Keys.{IsReceived, activate_keys-HasKey}
use private_billings.Hiding.Packing.{invert_flags-ok, scale-ok}
use private_billings.HiddenBill.{HiddenBill, remove_noise, reveal}
use private_billings.HiddenData.{HiddenData}
use private_billings.HiddenData.Compute.{compute_hidden_bill}
use private_billings.HiddenData.Split.{
  Slot, split_bill, split_reward, slot_supplement, slot_penalty, slot_bill-eq-split_bill,
  slot_reward-eq-split_reward,
}
use private_billings.HiddenData.Circuit.{
  IsContextOf, IsSharedBy, bill_supplement-map, reward_penalty-map, CarriesColumn, eval_add-carries,
  invert_flags-carries, priced-carries, corrected-carries,
}

module _ {N : Type 0} ⦃n : Number N⦄ {F : Fhe N} (laws : IsHomomorphic F) where
  open laws use {Carries, depth, IsKeyPair, decrypt_rounded}

  -- The ciphertexts of a client carry its side of the slots, freshly encrypted.
  pub record IsHidden (rows : List (Slot N)) (hd : HiddenData F) : Type 0 where
    pub received : IsReceived laws hd.phc
    pub room : length rows ≤ F.batch_size hd.phc.cc
    pub cycle_length : hd.phc.cycle_length ≡ length rows
    pub consumptions : CarriesColumn laws hd.phc rows 0 hd.consumptions (λ s. s.consumption)
    pub supplies : CarriesColumn laws hd.phc rows 0 hd.supplies (λ s. s.supply)
    pub accepted_consumer_flags :
        CarriesColumn laws hd.phc rows 0 hd.accepted_consumer_flags (λ s. flag s.consumer)
    pub accepted_producer_flags :
        CarriesColumn laws hd.phc rows 0 hd.accepted_producer_flags (λ s. flag s.producer)
    pub positive_deviation_flags :
        CarriesColumn laws hd.phc rows 0 hd.positive_deviation_flags (λ s. flag s.deviates)

  -- A bill whose ciphertexts carry the cost split after two multiplications.
  pub record IsSplitBill (rows : List (Slot N)) (hd : HiddenData F) (hb : HiddenBill F)
      : Type 0 where
    pub cycle_id : hb.cycle_id ≡ hd.cycle_id
    pub hidden_bill : CarriesColumn laws hd.phc rows 2 hb.hidden_bill split_bill
    pub hidden_reward : CarriesColumn laws hd.phc rows 2 hb.hidden_reward split_reward

  module _ (finite : IsFinite N) (rows : List (Slot N)) (hd : HiddenData F) {cyc : CycleContext N}
      {scd : SharedCycleData N} (deep : 2 ≤ depth hd.phc.cc) (hidden : IsHidden rows hd)
      (context : IsContextOf rows cyc) (shared : IsSharedBy rows scd) where
    pub compute_hidden_bill-IsSplitBill :
        (store : F.KeyStore)
        → (hb : HiddenBill F) × (store' : F.KeyStore) × (compute_hidden_bill hd scd cyc store
            ≡ (ok hb, store'))
          × IsSplitBill rows hd hb
    unfolding compute_hidden_bill
    compute_hidden_bill-IsSplitBill store =
        let phc = hd.phc in
        let (store', active, key) = activate_keys-HasKey laws phc store hidden.received in
        let flipped =
          λ (ct : F.Ciphertext). invert_flags-ok phc ct (rw hidden.cycle_length hidden.room) in
        let priced = λ (ct : F.Ciphertext) (f : Slot N → N).
          scale-ok phc ct (map f rows) (rw (length-map f rows) hidden.room) in
        let rejected = λ (ct : F.Ciphertext) (f : Slot N → N).
          invert_flags-carries laws phc rows 0 ct f hidden.cycle_length in
        let (no_bill, e1, c1) =
          priced-carries laws phc rows store' deep key _ _ _ (λ s. s.retail_price) _
            hidden.consumptions (rejected _ _ hidden.accepted_consumer_flags) in
        let (no_reward, e2, c2) =
          priced-carries laws phc rows store' deep key _ _ _ (λ s. s.feed_in_tarif) _
            hidden.supplies (rejected _ _ hidden.accepted_producer_flags) in
        let (p2p_bill, e3, c3) =
          corrected-carries laws phc rows store' deep key _ _ _ (λ s. s.trading_price) _
            hidden.consumptions hidden.accepted_consumer_flags _ _ slot_supplement
            hidden.positive_deviation_flags in
        let (p2p_reward, e4, c4) =
          corrected-carries laws phc rows store' deep key _ _ _ (λ s. s.trading_price) _
            hidden.supplies hidden.accepted_producer_flags _ _ slot_penalty
            hidden.positive_deviation_flags in
        (
          record {
            cycle_id = hd.cycle_id;
            hidden_bill = F.eval_add p2p_bill no_bill;
            hidden_reward = F.eval_add p2p_reward no_reward;
          },
          store',
          rw (
            bill_supplement-map finite rows context shared,
            reward_penalty-map finite rows context shared,
            active,
            context.retail_prices,
            context.feed_in_tarifs,
            context.trading_prices,
            flipped hd.accepted_consumer_flags,
            flipped hd.accepted_producer_flags,
            priced hd.consumptions (λ s. s.retail_price),
            e1,
            priced hd.supplies (λ s. s.feed_in_tarif),
            e2,
            priced hd.consumptions (λ s. s.trading_price),
            priced hd.supplies (λ s. s.trading_price),
            priced hd.positive_deviation_flags slot_supplement,
            priced hd.positive_deviation_flags slot_penalty,
            e3,
            e4,
          ),
          record {
            cycle_id = refl;
            hidden_bill =
                subst (CarriesColumn laws phc rows 2 (F.eval_add p2p_bill no_bill))
                  (fun_ext (slot_bill-eq-split_bill finite))
                  (eval_add-carries laws phc rows 2 2 _ _ _ _ c3 c1);
            hidden_reward =
                subst (CarriesColumn laws phc rows 2 (F.eval_add p2p_reward no_reward))
                  (fun_ext (slot_reward-eq-split_reward finite))
                  (eval_add-carries laws phc rows 2 2 _ _ _ _ c4 c2);
          },
        )

  -- The context of the client to whom some hidden data belongs.
  pub record IsOwner (rows : List (Slot N)) (hc : HidingContext F) (hd : HiddenData F)
      : Type 0 where
    pub cc : hd.phc.cc ≡ hc.cc
    pub public_key : hd.phc.public_key ≡ hc.public_key
    pub key_pair : IsKeyPair hc.cc hc.public_key hc.secret_key
    pub cycle_length : hc.cycle_length ≡ length rows

  decrypt-column :
      (rows : List (Slot N)) (hc : HidingContext F) (hd : HiddenData F) (owner : IsOwner rows hc hd)
      → (ct : F.Ciphertext) (f : Slot N → N) → CarriesColumn laws hd.phc rows 2 ct f
      → remove_noise (decrypt hc ct) ≡ map (λ s. n.round (f s) 5) rows
  unfolding remove_noise decrypt
  decrypt-column rows hc hd owner ct f c =
      ap
        (λ (k : ℕ).
          map (λ x. n.round x 5)
            (F.real_packed_value (F.set_length (F.decrypt hc.cc ct hc.secret_key) k)))
        (owner.cycle_length ∙ sym (length-map f rows))
      ∙ (decrypt_rounded hc.cc hc.public_key hc.secret_key 2 ct (map f rows) owner.key_pair
            (subst₂ (λ cc pk. Carries cc pk 2 ct (map f rows)) owner.cc owner.public_key c)
          ∙ map-map (λ x. n.round x 5) f rows)

  abbrev pub plain_bill : ℕ → List (Slot N) → Bill N
  plain_bill id rows = record {
    cycle_id = id;
    bill = map (λ s. n.round (split_bill s) 5) rows;
    reward = map (λ s. n.round (split_reward s) 5) rows;
  }

  -- The owner reveals from such a bill the cost split, rounded to five digits.
  pub reveal-IsSplitBill :
      (rows : List (Slot N)) (hc : HidingContext F) (hd : HiddenData F) (hb : HiddenBill F)
      → IsOwner rows hc hd
      → IsSplitBill rows hd hb
      → reveal hc hb ≡ plain_bill hd.cycle_id rows
  unfolding reveal
  reveal-IsSplitBill rows hc hd hb owner shares = λ i. record {
    cycle_id = shares.cycle_id i;
    bill = decrypt-column rows hc hd owner hb.hidden_bill split_bill shares.hidden_bill i;
    reward = decrypt-column rows hc hd owner hb.hidden_reward split_reward shares.hidden_reward i;
  }

  pub reveal-compute_hidden_bill :
      (finite : IsFinite N) (rows : List (Slot N)) (hc : HidingContext F) (hd : HiddenData F)
      → {cyc : CycleContext N} {scd : SharedCycleData N} → 2 ≤ depth hd.phc.cc
      → IsHidden rows hd
      → IsContextOf rows cyc
      → IsSharedBy rows scd
      → IsOwner rows hc hd
      → (store : F.KeyStore)
      → (hb : HiddenBill F) × (store' : F.KeyStore) × (compute_hidden_bill hd scd cyc store
          ≡ (ok hb, store'))
        × (reveal hc hb ≡ plain_bill hd.cycle_id rows)
  reveal-compute_hidden_bill finite rows hc hd deep hidden context shared owner store =
      let (hb, store', e, shares) =
        compute_hidden_bill-IsSplitBill finite rows hd deep hidden context shared store in
      (hb, store', e, reveal-IsSplitBill rows hc hd hb owner shares)
