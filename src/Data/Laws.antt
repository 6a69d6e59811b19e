-- ===== src/Data/Laws.antt =====
-- The properties of `Data`, slot by slot.
use private_billings.Prelude.{
  ◌≡◌, refl, ap, ◌∙◌, Bool, true, false, ◌||◌, List, map, if◌then◌else◌, arith,
}
use mathlib.Core.Path.{fun_ext}
use private_billings.Python.Raises.{ok, ◌>>=◌, traverse-ok}
use private_billings.Number.{Number}
use private_billings.Number.Laws.{IsFinite}
use private_billings.Vector.{vec, num, mul, get_positive_flags, flag}
use private_billings.Vector.Columns.{mul-map, sub-map, or-map, mul-num-map, get_positive_flags-map}
use private_billings.Cycle.{CycleId, ClientId}
use private_billings.Data.{
  Data, consumption_promises, supply_promises, consumptions, supplies, accepted_consumer_flags,
  accepted_producer_flags, supply_deviations, consumption_deviations, individual_deviations,
  positive_consumption_deviation_flags, positive_supply_deviation_flags, positive_deviation_flags,
  p2p_consumer_flags, p2p_producer_flags,
}
use private_billings.Data.Slots.{
  gain, neg, slot_supply_deviation, slot_consumption_deviation, slot_deviation, slot_deviates,
  data_of,
}

module _ {N : Type 0} ⦃n : Number N⦄ (finite : IsFinite N) where
  open finite use {
    mul_one, mul_nought, lt_neg, lt_irrefl, or_nought, or_one, one_or_nought, one_or_one,
  }

  mul-flag : (b : Bool) (x : N) → n.mul x (flag b) ≡ (if b then x else n.nought)
  mul-flag true x = mul_one x
  mul-flag false x = mul_nought x

  or-flag : (a b : Bool) → n.bit_or (flag a) (flag b) ≡ ok (flag (a || b))
  or-flag true true = one_or_one
  or-flag true false = one_or_nought
  or-flag false true = or_one
  or-flag false false = or_nought

  -- Where the flag is set the number is its own positive part.
  gain_flagged :
      (b : Bool) (x y : N)
      → n.lt n.nought x ≡ b
      → (if b then n.sub y (gain x) else n.nought) ≡ (if b then n.sub y x else n.nought)
  gain_flagged true x y h = rw h
  gain_flagged false x y h = refl

  lt-gain : (x : N) → n.lt n.nought (gain x) ≡ n.lt n.nought x
  lt-gain x = ground (arith, lt_irrefl n.nought)

  module _ {R : Type 0} (rows : List R) where
    -- Two vectors with the same items.
    pub same_items : (f g : R → N) → ((r : R) → f r ≡ g r) → ok (map f rows) ≡ ok (map g rows)
    same_items f g h = ap (λ (k : R → N). ok (map k rows)) (fun_ext h)

    positives-map :
        (f : R → N)
        → mul (map f rows) (vec (get_positive_flags (map f rows))) ≡ ok (map (λ r. gain (f r)) rows)
    positives-map f = rw get_positive_flags-map (
        mul-map f (λ r. flag (n.lt n.nought (f r))) rows
        ∙ same_items _ _ (λ r. mul-flag (n.lt n.nought (f r)) (f r)))

    negatives-map :
        (f : R → N)
        → (mul (map f rows) (num n.minus_one) >>= λ inverted.
            mul inverted (vec (get_positive_flags inverted)))
          ≡ ok (map (λ r. gain (neg (f r))) rows)
    negatives-map f = rw (mul-num-map f rows n.minus_one) (positives-map (λ r. neg (f r)))

    flagged-map :
        (f : R → N) (test : R → Bool)
        → mul (map f rows) (vec (map (λ r. flag (test r)) rows))
          ≡ ok (map (λ r. if test r then f r else n.nought) rows)
    flagged-map f test =
        mul-map f (λ r. flag (test r)) rows ∙ same_items _ _ (λ r. mul-flag (test r) (f r))

  module _ {R : Type 0} (c : ClientId) (id : CycleId) (promise used : R → N) (rows : List R) where
    abbrev d : Data N
    d = data_of c id promise used rows

    pub consumptions-map : consumptions d ≡ ok (map (λ r. gain (used r)) rows)
    unfolding consumptions
    consumptions-map = positives-map rows used

    pub supplies-map : supplies d ≡ ok (map (λ r. gain (neg (used r))) rows)
    unfolding supplies
    supplies-map = negatives-map rows used

    consumption_promises-map : consumption_promises d ≡ ok (map (λ r. gain (promise r)) rows)
    unfolding consumption_promises
    consumption_promises-map = positives-map rows promise

    supply_promises-map : supply_promises d ≡ ok (map (λ r. gain (neg (promise r))) rows)
    unfolding supply_promises
    supply_promises-map = negatives-map rows promise

    pub accepted_consumer_flags-map :
        accepted_consumer_flags d ≡ ok (map (λ r. flag (n.lt n.nought (promise r))) rows)
    unfolding accepted_consumer_flags
    accepted_consumer_flags-map = rw get_positive_flags-map

    pub accepted_producer_flags-map :
        accepted_producer_flags d ≡ ok (map (λ r. flag (n.lt (promise r) n.nought)) rows)
    unfolding accepted_producer_flags
    accepted_producer_flags-map =
        rw (mul-num-map promise rows n.minus_one, get_positive_flags-map)
          (same_items rows _ _ (λ r. ap flag (lt_neg (promise r))))

    pub supply_deviations-map :
        supply_deviations d ≡ ok (map (λ r. slot_supply_deviation (promise r) (used r)) rows)
    unfolding supply_deviations
    supply_deviations-map =
        rw
          (
            supplies-map,
            supply_promises-map,
            sub-map (λ r. gain (neg (used r))) (λ r. gain (neg (promise r))) rows,
            accepted_producer_flags-map,
          )
          (flagged-map rows (λ r. n.sub (gain (neg (used r))) (gain (neg (promise r))))
              (λ r. n.lt (promise r) n.nought)
            ∙ same_items rows _ _ λ r.
              gain_flagged (n.lt (promise r) n.nought) (neg (promise r)) (gain (neg (used r)))
                (lt_neg (promise r)))

    pub consumption_deviations-map :
        consumption_deviations d
        ≡ ok (map (λ r. slot_consumption_deviation (promise r) (used r)) rows)
    unfolding consumption_deviations
    consumption_deviations-map =
        rw
          (
            consumptions-map,
            consumption_promises-map,
            sub-map (λ r. gain (used r)) (λ r. gain (promise r)) rows,
            accepted_consumer_flags-map,
          )
          (flagged-map rows (λ r. n.sub (gain (used r)) (gain (promise r)))
              (λ r. n.lt n.nought (promise r))
            ∙ same_items rows _ _
                λ r. gain_flagged (n.lt n.nought (promise r)) (promise r) (gain (used r)) refl)

    pub individual_deviations-map :
        individual_deviations d ≡ ok (map (λ r. slot_deviation (promise r) (used r)) rows)
    unfolding individual_deviations
    individual_deviations-map =
        rw (supply_deviations-map, consumption_deviations-map)
          (sub-map (λ r. slot_supply_deviation (promise r) (used r))
            (λ r. slot_consumption_deviation (promise r) (used r)) rows)

    pub positive_deviation_flags-map :
        positive_deviation_flags d ≡ ok (map (λ r. flag (slot_deviates (promise r) (used r))) rows)
    unfolding positive_deviation_flags positive_consumption_deviation_flags
        positive_supply_deviation_flags
    positive_deviation_flags-map =
        let over = λ (r : R). n.lt n.nought (slot_consumption_deviation (promise r) (used r)) in
        let above = λ (r : R). n.lt n.nought (slot_supply_deviation (promise r) (used r)) in
        rw
          (
            consumption_deviations-map,
            supply_deviations-map,
            get_positive_flags-map (λ r. slot_consumption_deviation (promise r) (used r)) rows,
            get_positive_flags-map (λ r. slot_supply_deviation (promise r) (used r)) rows,
            or-map (λ r. flag (over r)) (λ r. flag (above r)) rows,
            fun_ext (λ r. or-flag (over r) (above r)),
          )
          (traverse-ok (λ r. flag (over r || above r)) rows)

    pub p2p_consumer_flags-map :
        p2p_consumer_flags d ≡ ok (map (λ r. flag (n.lt n.nought (promise r))) rows)
    unfolding p2p_consumer_flags
    p2p_consumer_flags-map =
        rw (consumption_promises-map, get_positive_flags-map (λ r. gain (promise r)) rows)
          (same_items rows _ _ λ r. ap flag (lt-gain (promise r)))

    pub p2p_producer_flags-map :
        p2p_producer_flags d ≡ ok (map (λ r. flag (n.lt (promise r) n.nought)) rows)
    unfolding p2p_producer_flags
    p2p_producer_flags-map =
        rw (supply_promises-map, get_positive_flags-map (λ r. gain (neg (promise r))) rows)
          (same_items rows _ _ λ r. ap flag (lt-gain (neg (promise r)) ∙ lt_neg (promise r)))
