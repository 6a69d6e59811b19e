-- ===== src/HiddenData/Circuit.antt =====
-- The plain vectors and the ciphertexts of `compute_hidden_bill`, as columns of a table with a row for
-- each slot.
use private_billings.Prelude.{
  ℕ, suc, max, ◌<◌, ◌≤◌, ◌≡◌, ◌≢◌, sym, ap, ◌∙◌, List, [], ◌∷◌, map, length, length-map,
  zip_with-map, replicate, replicate-eq-map, All, arith,
}
use mathlib.Core.Path.{subst}
use private_billings.Python.Raises.{ok}
use private_billings.Number.{Number}
use private_billings.Number.Laws.{IsFinite}
use private_billings.Vector.{flag, max_of}
use private_billings.Vector.Columns.{sub-map, mul-map, truediv-map, max_vector-map, quotient}
use private_billings.Cycle.{SharedCycleData, CycleContext}
use private_billings.Cycle.Flags.{positive_flags-map, negative_flags-map}
use private_billings.Hiding.Openfhe.{Fhe}
use private_billings.Hiding.Laws.{IsHomomorphic}
use private_billings.Hiding.{PublicHidingContext, multiply}
use private_billings.Hiding.Packing.{inverted, scaled}
use private_billings.HiddenData.{bill_supplement, reward_penalty}
use private_billings.HiddenData.Split.{Slot, slot_supplement, slot_penalty, max_of-ne}

module _ {N : Type 0} ⦃n : Number N⦄ where
  -- The context and the shared data of a cycle, slot by slot.
  pub record IsContextOf (rows : List (Slot N)) (cyc : CycleContext N) : Type 0 where
    pub retail_prices : cyc.retail_prices ≡ map (λ s. s.retail_price) rows
    pub feed_in_tarifs : cyc.feed_in_tarifs ≡ map (λ s. s.feed_in_tarif) rows
    pub trading_prices : cyc.trading_prices ≡ map (λ s. s.trading_price) rows

  pub record IsSharedBy (rows : List (Slot N)) (scd : SharedCycleData N) : Type 0 where
    pub total_deviations : scd.total_deviations ≡ map (λ s. s.total_deviation) rows
    pub total_p2p_consumers : scd.total_p2p_consumers ≡ map (λ s. s.total_consumers) rows
    pub total_p2p_producers : scd.total_p2p_producers ≡ map (λ s. s.total_producers) rows

module _ {N : Type 0} ⦃n : Number N⦄ (finite : IsFinite N) (rows : List (Slot N))
    {cyc : CycleContext N} {scd : SharedCycleData N} (context : IsContextOf rows cyc)
    (shared : IsSharedBy rows scd) where
  All-ne :
      (count : Slot N → N) (rs : List (Slot N)) → All (λ s. max_of (count s) n.one ≢ n.nought) rs
  All-ne count [] = tt
  All-ne count (s ∷ rs) = (max_of-ne finite (count s), All-ne count rs)

  pub bill_supplement-map : bill_supplement scd cyc ≡ ok (map slot_supplement rows)
  unfolding bill_supplement
  bill_supplement-map =
      rw
        (
          negative_flags-map (λ s. s.total_deviation) rows scd shared.total_deviations,
          context.trading_prices,
          context.retail_prices,
          sub-map (λ s. s.trading_price) (λ s. s.retail_price) rows,
          shared.total_deviations,
          mul-map (λ s. n.sub s.trading_price s.retail_price) (λ s. s.total_deviation) rows,
          shared.total_p2p_consumers,
          max_vector-map (λ s. s.total_consumers) rows n.one,
          truediv-map (λ s. n.mul (n.sub s.trading_price s.retail_price) s.total_deviation)
              (λ s. max_of s.total_consumers n.one) rows finite
              (All-ne (λ s. s.total_consumers) rows),
        )
        (mul-map
          (λ s.
            quotient (n.mul (n.sub s.trading_price s.retail_price) s.total_deviation)
              (max_of s.total_consumers n.one))
          (λ s. flag (n.lt s.total_deviation n.nought)) rows)

  pub reward_penalty-map : reward_penalty scd cyc ≡ ok (map slot_penalty rows)
  unfolding reward_penalty
  reward_penalty-map =
      rw
        (
          positive_flags-map (λ s. s.total_deviation) rows scd shared.total_deviations,
          context.feed_in_tarifs,
          context.trading_prices,
          sub-map (λ s. s.feed_in_tarif) (λ s. s.trading_price) rows,
          shared.total_deviations,
          mul-map (λ s. n.sub s.feed_in_tarif s.trading_price) (λ s. s.total_deviation) rows,
          shared.total_p2p_producers,
          max_vector-map (λ s. s.total_producers) rows n.one,
          truediv-map (λ s. n.mul (n.sub s.feed_in_tarif s.trading_price) s.total_deviation)
              (λ s. max_of s.total_producers n.one) rows finite
              (All-ne (λ s. s.total_producers) rows),
        )
        (mul-map
          (λ s.
            quotient (n.mul (n.sub s.feed_in_tarif s.trading_price) s.total_deviation)
              (max_of s.total_producers n.one))
          (λ s. flag (n.lt n.nought s.total_deviation)) rows)

-- Each operation on ciphertexts that carry columns.
module _ {N : Type 0} ⦃n : Number N⦄ {F : Fhe N} (laws : IsHomomorphic F)
    (phc : PublicHidingContext F) {R : Type 0} (rows : List R) where
  open laws use {
    Carries, depth, HasKey, eval_add_carries, eval_sub_carries, eval_mult_plain_carries,
    eval_mult_carries,
  }

  abbrev pub CarriesColumn : ℕ → F.Ciphertext → (R → N) → Type 0
  CarriesColumn i ct f = Carries phc.cc phc.public_key i ct (map f rows)

  same_length : (f g : R → N) → length (map f rows) ≡ length (map g rows)
  same_length f g = length-map f rows ∙ sym (length-map g rows)

  pub scale-carries :
      (i : ℕ) (ct : F.Ciphertext) (f g : R → N)
      → i < depth phc.cc
      → CarriesColumn i ct f
      → CarriesColumn (suc i) (scaled phc ct (map g rows)) (λ r. n.mul (f r) (g r))
  scale-carries i ct f g h c =
      subst (Carries phc.cc phc.public_key (suc i) (scaled phc ct (map g rows)))
        (zip_with-map n.mul f g rows)
        (eval_mult_plain_carries phc.cc phc.public_key i ct (map f rows) (map g rows)
          (same_length f g) h c)

  pub eval_add-carries :
      (i j : ℕ) (a b : F.Ciphertext) (f g : R → N)
      → CarriesColumn i a f
      → CarriesColumn j b g
      → CarriesColumn (max i j) (F.eval_add a b) (λ r. n.add (f r) (g r))
  eval_add-carries i j a b f g c d =
      subst (Carries phc.cc phc.public_key (max i j) (F.eval_add a b)) (zip_with-map n.add f g rows)
        (eval_add_carries phc.cc phc.public_key i j a b (map f rows) (map g rows) (same_length f g)
          c d)

  pub invert_flags-carries :
      (j : ℕ) (ct : F.Ciphertext) (f : R → N)
      → phc.cycle_length ≡ length rows
      → CarriesColumn j ct f
      → CarriesColumn j (inverted phc ct) (λ r. n.sub n.one (f r))
  invert_flags-carries j ct f e c =
      let ones = λ (k : ℕ). replicate k n.one in
      let difference = map (λ r. n.sub n.one (f r)) rows in
      subst
        (λ (v : List N).
          Carries phc.cc phc.public_key j (F.eval_sub phc.cc (F.make_packed_plaintext phc.cc v) ct)
            difference)
        (sym (ap ones e ∙ replicate-eq-map n.one rows))
        (subst (Carries phc.cc phc.public_key j _) (zip_with-map n.sub (λ _. n.one) f rows) (
          eval_sub_carries phc.cc phc.public_key j ct (map (λ _. n.one) rows) (map f rows)
            (same_length (λ _. n.one) f) c))

  pub multiply-carries :
      (store : F.KeyStore) (i j : ℕ) (a b : F.Ciphertext) (f g : R → N)
      → max i j < depth phc.cc
      → HasKey store phc.public_key
      → CarriesColumn i a f
      → CarriesColumn j b g
      → (c : F.Ciphertext) × (multiply phc a b store ≡ (ok c, store))
        × CarriesColumn (suc (max i j)) c (λ r. n.mul (f r) (g r))
  unfolding multiply
  multiply-carries store i j a b f g h key c d =
      let (ct, e, carries) =
        eval_mult_carries phc.cc phc.public_key store i j a b (map f rows) (map g rows)
          (same_length f g) h key c d in
      (
        ct,
        rw e,
        subst (Carries phc.cc phc.public_key (suc (max i j)) ct) (zip_with-map n.mul f g rows)
            carries,
      )

  module _ (store : F.KeyStore) (deep : 2 ≤ depth phc.cc) (key : HasKey store phc.public_key)
      (ct flags : F.Ciphertext) (f price flag_of : R → N) (c : CarriesColumn 0 ct f)
      (d : CarriesColumn 0 flags flag_of) where
    -- What a client pays or gets for all it used, switched on by a flag.
    pub priced-carries :
        (e : F.Ciphertext) × (multiply phc (scaled phc ct (map price rows)) flags store
          ≡ (ok e, store))
        × CarriesColumn 2 e (λ r. n.mul (n.mul (f r) (price r)) (flag_of r))
    priced-carries =
        multiply-carries store 1 0 _ _ _ _ (omega arith) key
          (scale-carries 0 ct f price (omega arith) c) d

    -- The same with a correction.
    pub corrected-carries :
        (extra : F.Ciphertext) (g correction : R → N)
        → CarriesColumn 0 extra g
        → (e : F.Ciphertext) × (multiply phc
              (F.eval_add (scaled phc ct (map price rows)) (scaled phc extra (map correction rows)))
              flags
              store
            ≡ (ok e, store))
          × CarriesColumn 2 e
              (λ r. n.mul (n.add (n.mul (f r) (price r)) (n.mul (g r) (correction r))) (flag_of r))
    corrected-carries extra g correction h =
        multiply-carries store 1 0 _ _ _ _ (omega arith) key
          (eval_add-carries 1 1 _ _ _ _ (scale-carries 0 ct f price (omega arith) c)
            (scale-carries 0 extra g correction (omega arith) h))
          d
