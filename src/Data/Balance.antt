-- ===== src/Data/Balance.antt =====
-- What the properties of `Data` say together.
use private_billings.Prelude.{◌≡◌, ◌∙◌, List, map, Bool-cases, inl, inr}
use private_billings.Python.Raises.{ok}
use private_billings.Number.{Number}
use private_billings.Number.Laws.{IsFinite}
use private_billings.Vector.{vec, mul, sub, flag}
use private_billings.Vector.Columns.{mul-map, sub-map}
use private_billings.Cycle.{CycleId, ClientId}
use private_billings.Data.{
  consumptions, supplies, accepted_consumer_flags, accepted_producer_flags, individual_deviations,
  positive_deviation_flags, p2p_consumer_flags, p2p_producer_flags,
}
use private_billings.Data.Slots.{gain, neg, slot_deviation, slot_deviates, data_of}
use private_billings.Data.Laws.{
  same_items, consumptions-map, supplies-map, accepted_consumer_flags-map,
  accepted_producer_flags-map, individual_deviations-map, positive_deviation_flags-map,
  p2p_consumer_flags-map, p2p_producer_flags-map,
}

module _ {N : Type 0} ⦃n : Number N⦄ (finite : IsFinite N) where
  open finite use {
    sub_nought, sub_self, sub_swap, neg_neg, lt_neg, lt_asymm, lt_total, lt_irrefl, mul_one,
    mul_nought, nought_mul,
  }

  gain-sub-gain : (x : N) → n.sub (gain x) (gain (neg x)) ≡ x
  gain-sub-gain x = elim (Bool-cases (n.lt n.nought x)) [
    | inl up ↦ rw (up, lt_neg x, lt_asymm n.nought x up) (sub_nought x)
    | inr no_up ↦ elim (Bool-cases (n.lt x n.nought)) [
      | inl down ↦
          rw (no_up, lt_neg x, down, ← sub_swap (neg x) n.nought, sub_nought (neg x)) (neg_neg x)
      | inr no_down ↦
          rw (no_up, lt_neg x, no_down, lt_total x n.nought no_down no_up) (sub_self n.nought)
    ]
  ]

  never_both : (x : N) → n.mul (flag (n.lt n.nought x)) (flag (n.lt x n.nought)) ≡ n.nought
  never_both x = elim (Bool-cases (n.lt n.nought x)) [
    | inl up ↦ rw (lt_asymm n.nought x up) (mul_nought _)
    | inr no_up ↦ rw no_up (nought_mul _)
  ]

  module _ {R : Type 0} (c : ClientId) (id : CycleId) (promise used : R → N) (slots : List R) where
    -- Of data with a promise and a utilization for each slot, the consumptions less the supplies are
    -- the utilizations.
    pub consumptions-sub-supplies :
        (consumed supplied : List N) × (consumptions (data_of c id promise used slots)
          ≡ ok consumed)
        × (supplies (data_of c id promise used slots) ≡ ok supplied)
        × (sub consumed (vec supplied) ≡ ok (map used slots))
    consumptions-sub-supplies = (
      map (λ r. gain (used r)) slots,
      map (λ r. gain (neg (used r))) slots,
      consumptions-map finite c id promise used slots,
      supplies-map finite c id promise used slots,
      sub-map (λ r. gain (used r)) (λ r. gain (neg (used r))) slots
          ∙ same_items finite slots _ _ (λ r. gain-sub-gain (used r)),
    )

    -- The flags for peer-to-peer trading are the accepted flags, and in no slot is a client accepted both
    -- as a consumer and as a producer.
    pub accepted_flags_exclusive :
        (consumer producer : List N) × (accepted_consumer_flags (data_of c id promise used slots)
          ≡ ok consumer)
        × (accepted_producer_flags (data_of c id promise used slots) ≡ ok producer)
        × (p2p_consumer_flags (data_of c id promise used slots) ≡ ok consumer)
        × (p2p_producer_flags (data_of c id promise used slots) ≡ ok producer)
        × (mul consumer (vec producer) ≡ ok (map (λ _. n.nought) slots))
    accepted_flags_exclusive = (
      map (λ r. flag (n.lt n.nought (promise r))) slots,
      map (λ r. flag (n.lt (promise r) n.nought)) slots,
      accepted_consumer_flags-map finite c id promise used slots,
      accepted_producer_flags-map finite c id promise used slots,
      p2p_consumer_flags-map finite c id promise used slots,
      p2p_producer_flags-map finite c id promise used slots,
      mul-map (λ r. flag (n.lt n.nought (promise r))) (λ r. flag (n.lt (promise r) n.nought)) slots
          ∙ same_items finite slots _ _ (λ r. never_both (promise r)),
    )

    -- The vectors of the individual deviations and of the positive deviation flags hold, in each slot, the
    -- deviation of the supply from a promise to supply less that of the consumption from a promise to
    -- consume, and whether one of the two is positive; without such a promise the deviation is 0.
    pub deviations_by_slot :
        (individual_deviations (data_of c id promise used slots)
          ≡ ok (map (λ r. slot_deviation (promise r) (used r)) slots))
        × (positive_deviation_flags (data_of c id promise used slots)
            ≡ ok (map (λ r. flag (slot_deviates (promise r) (used r))) slots))
    deviations_by_slot = (
      individual_deviations-map finite c id promise used slots,
      positive_deviation_flags-map finite c id promise used slots,
    )
