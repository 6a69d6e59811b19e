-- ===== src/HiddenData/Split.antt =====
-- What a client pays and gets in one slot by the cases that `compute_hidden_bill` names in its comments,
-- beside the arithmetic that it does in that slot. It is a cost split like the one of
-- docs/universal_cost_split.md, but the deviation of the slot is shared among all peer-to-peer consumers
-- or producers, while the document shares it among the accepted ones whose own deviation is positive.
use private_billings.Prelude.{◌≡◌, ◌≢◌, sym, ap, ◌∙◌, Bool, true, false, ◌&&◌, arith, if◌then◌else◌}
use private_billings.Number.{Number}
use private_billings.Number.Laws.{IsFinite}
use private_billings.Vector.{flag, max_of}
use private_billings.Vector.Columns.{quotient, div-quotient}

pub record Slot (N : Type 0) : Type 0 where
  pub consumption : N
  pub supply : N
  -- whether the client was accepted as a consumer, as a producer, and deviated upwards
  pub consumer : Bool
  pub producer : Bool
  pub deviates : Bool
  pub retail_price : N
  pub feed_in_tarif : N
  pub trading_price : N
  pub total_deviation : N
  pub total_consumers : N
  pub total_producers : N

module _ {N : Type 0} ⦃n : Number N⦄ where
  -- At least one sharer, so that the division is defined.
  abbrev pub sharers : N → N
  sharers count = if n.lt count n.one then n.one else count

  -- A consumer that was accepted pays the trading price, and in a slot with a shortage, if it deviates
  -- itself, its part of the shortage at the difference to the retail price.
  unfoldable pub split_bill : Slot N → N
  split_bill s =
      let base = n.mul s.consumption s.trading_price in
      let shortage = n.mul s.total_deviation n.minus_one in
      if s.consumer
      then (if n.lt s.total_deviation n.nought && s.deviates
          then n.add base (
              quotient (n.mul (n.sub s.retail_price s.trading_price) shortage)
                (sharers s.total_consumers))
          else base)
      else n.mul s.consumption s.retail_price

  -- A producer that was accepted gets the trading price, and in a slot with an excess, if it deviates
  -- itself, loses its part of the excess at the difference to the feed-in tarif.
  unfoldable pub split_reward : Slot N → N
  split_reward s =
      let base = n.mul s.supply s.trading_price in
      if s.producer
      then (if n.lt n.nought s.total_deviation && s.deviates
          then n.sub base (
              quotient (n.mul (n.sub s.trading_price s.feed_in_tarif) s.total_deviation)
                (sharers s.total_producers))
          else base)
      else n.mul s.supply s.feed_in_tarif

  -- What the code computes in one slot.
  abbrev pub slot_supplement : Slot N → N
  slot_supplement s =
      n.mul
        (quotient (n.mul (n.sub s.trading_price s.retail_price) s.total_deviation)
          (max_of s.total_consumers n.one))
        (flag (n.lt s.total_deviation n.nought))

  abbrev pub slot_penalty : Slot N → N
  slot_penalty s =
      n.mul
        (quotient (n.mul (n.sub s.feed_in_tarif s.trading_price) s.total_deviation)
          (max_of s.total_producers n.one))
        (flag (n.lt n.nought s.total_deviation))

  abbrev pub slot_bill : Slot N → N
  slot_bill s =
      n.add
        (n.mul
          (n.add (n.mul s.consumption s.trading_price)
            (n.mul (flag s.deviates) (slot_supplement s)))
          (flag s.consumer))
        (n.mul (n.mul s.consumption s.retail_price) (n.sub n.one (flag s.consumer)))

  abbrev pub slot_reward : Slot N → N
  slot_reward s =
      n.add
        (n.mul (n.add (n.mul s.supply s.trading_price) (n.mul (flag s.deviates) (slot_penalty s)))
          (flag s.producer))
        (n.mul (n.mul s.supply s.feed_in_tarif) (n.sub n.one (flag s.producer)))

module _ {N : Type 0} ⦃n : Number N⦄ (finite : IsFinite N) where
  open finite use {
    add_nought, nought_add, sub_nought, sub_self, mul_one, one_mul, mul_nought, nought_mul, mul_neg,
    neg_mul, sub_swap, add_neg, neg_div, lt_irrefl, nought_lt_one,
  }

  -- The bumped count is no zero divisor.
  pub max_of-ne : (v : N) → max_of v n.one ≢ n.nought
  unfolding max_of
  max_of-ne v e = ground (arith, lt_irrefl n.nought, nought_lt_one)

  -- Of two terms a flag and its dual choose one.
  choose :
      (b : Bool) (x y : N)
      → n.add (n.mul x (flag b)) (n.mul y (n.sub n.one (flag b))) ≡ (if b then x else y)
  choose true x y = rw (mul_one x, sub_self n.one, mul_nought y) (add_nought x)
  choose false x y = rw (mul_nought x, sub_nought n.one, mul_one y) (nought_add y)

  -- A term that two flags switch on.
  switch :
      (d b : Bool) (x q : N)
      → n.add x (n.mul (flag d) (n.mul q (flag b))) ≡ (if b && d then n.add x q else x)
  switch true true x q = rw (mul_one q, one_mul q)
  switch true false x q = rw (mul_nought q, one_mul n.nought) (add_nought x)
  switch false true x q = rw (nought_mul (n.mul q n.one)) (add_nought x)
  switch false false x q = rw (nought_mul (n.mul q n.nought)) (add_nought x)

  neg-quotient :
      (x y : N) → y ≢ n.nought → quotient (n.mul x n.minus_one) y ≡ n.mul (quotient x y) n.minus_one
  neg-quotient x y h = rw (neg_div x y (quotient x y) (div-quotient finite x y h), quotient)

  difference-mul-neg : (a b x : N) → n.mul (n.sub a b) (n.mul x n.minus_one) ≡ n.mul (n.sub b a) x
  difference-mul-neg a b x = rw (mul_neg (n.sub a b) x, ← neg_mul (n.sub a b) x, sub_swap a b)

  penalty-eq :
      (base a b x m : N)
      → m ≢ n.nought
      → n.add base (quotient (n.mul (n.sub a b) x) m)
        ≡ n.sub base (quotient (n.mul (n.sub b a) x) m)
  penalty-eq base a b x m h =
      let numerator : n.mul (n.sub a b) x ≡ n.mul (n.mul (n.sub b a) x) n.minus_one =
        rw (← sub_swap b a) (neg_mul (n.sub b a) x) in
      ap (λ (t : N). n.add base (quotient t m)) numerator
      ∙ (ap (n.add base) (neg-quotient (n.mul (n.sub b a) x) m h)
          ∙ add_neg base (quotient (n.mul (n.sub b a) x) m))

  -- The bill that the code computes in a slot is the one that the cases give.
  pub slot_bill-eq-split_bill : (s : Slot N) → slot_bill s ≡ split_bill s
  unfolding split_bill max_of
  slot_bill-eq-split_bill s =
      let base = n.mul s.consumption s.trading_price in
      let shared = λ (t : N). quotient t (sharers s.total_consumers) in
      let short = n.lt s.total_deviation n.nought in
      let code = n.mul (n.sub s.trading_price s.retail_price) s.total_deviation in
      choose s.consumer _ (n.mul s.consumption s.retail_price)
      ∙ ap (λ (x : N). if s.consumer then x else n.mul s.consumption s.retail_price)
          (switch s.deviates short base (shared code)
            ∙ ap (λ (t : N). if short && s.deviates then n.add base (shared t) else base)
                (sym (difference-mul-neg s.retail_price s.trading_price s.total_deviation)))

  pub slot_reward-eq-split_reward : (s : Slot N) → slot_reward s ≡ split_reward s
  unfolding split_reward max_of
  slot_reward-eq-split_reward s =
      let base = n.mul s.supply s.trading_price in
      let shared = λ (t : N). quotient t (sharers s.total_producers) in
      let excess = n.lt n.nought s.total_deviation in
      let code = n.mul (n.sub s.feed_in_tarif s.trading_price) s.total_deviation in
      choose s.producer _ (n.mul s.supply s.feed_in_tarif)
      ∙ ap (λ (x : N). if s.producer then x else n.mul s.supply s.feed_in_tarif)
          (switch s.deviates excess base (shared code)
            ∙ ap (λ (t : N). if excess && s.deviates then t else base)
                (penalty-eq base s.feed_in_tarif s.trading_price s.total_deviation
                  (sharers s.total_producers) (max_of-ne s.total_producers)))
