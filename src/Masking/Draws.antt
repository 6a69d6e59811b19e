-- ===== src/Masking/Draws.antt =====
-- The masks as numbers: what `generate_masks` and `generate_mask` return when the convertor does not
-- raise.
use private_billings.Prelude.{
  ◌⊎◌, inl, inr, ℕ, zero, suc, ◌+◌, ◌≡◌, ◌≢◌, refl, List, [], ◌∷◌, map, ◌∙◌, ap, sym, false, ◌++◌,
  replicate, length, replicate-eq-map, true, ◌||◌, not,
}
use mathlib.Core.List.{foldl}
use private_billings.Python.Raises.{ok, err, assertion_error}
use private_billings.Python.Dict.{Dict, values}
use private_billings.Number.{Number}
use private_billings.Vector.{new}
use private_billings.Vector.Columns.{add-map, sub-map}
use private_billings.Masking.{
  Seed, Int64Convertor, SharedMaskGenerator, Pcg64, is_empty, range_from, convert_vector, add_draws,
  sub_draws, generate_mask, shares, add_shares, sub_shares, generate_masks,
}

pub length-range_from : (i count : ℕ) → length (range_from i count) ≡ count
length-range_from i zero = refl
length-range_from i (suc count) = ap suc (length-range_from (i + 1) count)

module _ {N : Type 0} ⦃n : Number N⦄ (pcg64 : Pcg64) (c : ℕ → N) (iv : ℕ) where
  -- The draw with number `k` of the generator of a seed, as a number.
  abbrev pub draw : ℕ → Seed → N
  draw k s = c (pcg64 (s + iv) k)

  abbrev pub add_all : ℕ → List Seed → N → N
  add_all k seeds acc = foldl (λ mask s. n.add mask (draw k s)) acc seeds

  abbrev pub sub_all : ℕ → List Seed → N → N
  sub_all k seeds acc = foldl (λ mask s. n.sub mask (draw k s)) acc seeds

  -- The sum of the draws of the owned seeds, less those of the foreign seeds.
  abbrev pub mask_value : SharedMaskGenerator N → ℕ → N
  mask_value g k = sub_all k (values g.foreign_seeds) (add_all k (values g.owned_seeds) n.nought)

module _ {N : Type 0} ⦃n : Number N⦄ where
  pub new-map : (size : ℕ) (a : N) → new size a ≡ map (λ _. a) (range_from 0 size)
  unfolding new
  new-map size a =
      ap (λ (k : ℕ). replicate k a) (sym (length-range_from 0 size))
      ∙ replicate-eq-map a (range_from 0 size)

module _ {N : Type 0} ⦃n : Number N⦄ (pcg64 : Pcg64) (convertor : Int64Convertor N) (c : ℕ → N)
    (total : (v : ℕ) → convertor v ≡ ok (c v)) where
  convert_vector-map :
      (f : ℕ → ℕ) (rows : List ℕ)
      → convert_vector convertor (map f rows) ≡ ok (map (λ k. c (f k)) rows)
  unfolding convert_vector
  convert_vector-map f [] = refl
  convert_vector-map f (k ∷ rows) = rw (total (f k), convert_vector-map f rows)

  add_shares-map :
      (iv size : ℕ) (seeds : List Seed) (f : ℕ → N)
      → add_shares pcg64 convertor iv size seeds (map f (range_from 0 size))
        ≡ ok (map (λ k. add_all pcg64 c iv k seeds (f k)) (range_from 0 size))
  unfolding add_shares shares
  add_shares-map iv size [] f = refl
  add_shares-map iv size (s ∷ seeds) f =
      rw
        (
          convert_vector-map (pcg64 (s + iv)) (range_from 0 size),
          add-map f (λ k. c (pcg64 (s + iv) k)) (range_from 0 size),
        )
        (add_shares-map iv size seeds (λ k. n.add (f k) (c (pcg64 (s + iv) k))))

  sub_shares-map :
      (iv size : ℕ) (seeds : List Seed) (f : ℕ → N)
      → sub_shares pcg64 convertor iv size seeds (map f (range_from 0 size))
        ≡ ok (map (λ k. sub_all pcg64 c iv k seeds (f k)) (range_from 0 size))
  unfolding sub_shares shares
  sub_shares-map iv size [] f = refl
  sub_shares-map iv size (s ∷ seeds) f =
      rw
        (
          convert_vector-map (pcg64 (s + iv)) (range_from 0 size),
          sub-map f (λ k. c (pcg64 (s + iv) k)) (range_from 0 size),
        )
        (sub_shares-map iv size seeds (λ k. n.sub (f k) (c (pcg64 (s + iv) k))))

  add_draws-ok :
      (iv : ℕ) (seeds : List Seed) (acc : N)
      → add_draws pcg64 convertor iv seeds acc ≡ ok (add_all pcg64 c iv 0 seeds acc)
  unfolding add_draws
  add_draws-ok iv [] acc = refl
  add_draws-ok iv (s ∷ seeds) acc = rw (total (pcg64 (s + iv) 0)) (add_draws-ok iv seeds _)

  sub_draws-ok :
      (iv : ℕ) (seeds : List Seed) (acc : N)
      → sub_draws pcg64 convertor iv seeds acc ≡ ok (sub_all pcg64 c iv 0 seeds acc)
  unfolding sub_draws
  sub_draws-ok iv [] acc = refl
  sub_draws-ok iv (s ∷ seeds) acc = rw (total (pcg64 (s + iv) 0)) (sub_draws-ok iv seeds _)

nil_or_not : (d : Dict Seed) → (d ≡ []) ⊎ (d ≢ [])
nil_or_not [] = inl refl
nil_or_not (e ∷ d) = inr (λ h. cc)

seeds_present : (d e : Dict Seed) → d ++ e ≢ [] → (not (is_empty d) || not (is_empty e)) ≡ true
unfolding is_empty
seeds_present [] [] h = absurd (h refl)
seeds_present [] (x ∷ e) h = refl
seeds_present (x ∷ d) e h = refl

seeds_absent : (d e : Dict Seed) → d ++ e ≡ [] → (not (is_empty d) || not (is_empty e)) ≡ false
unfolding is_empty
seeds_absent [] [] h = refl
seeds_absent [] (x ∷ e) h = cc
seeds_absent (x ∷ d) e h = cc

module _ {N : Type 0} ⦃n : Number N⦄ (pcg64 : Pcg64) (g : SharedMaskGenerator N) (c : ℕ → N)
    (total : (v : ℕ) → g.convertor v ≡ ok (c v)) (iv : ℕ) where
  -- `generate_masks` returns one mask for each slot, the sum of the draws of the owned seeds less those
  -- of the foreign seeds.
  pub generate_masks-map :
      (size : ℕ)
      → generate_masks pcg64 g iv size ≡ ok (map (mask_value pcg64 c iv g) (range_from 0 size))
  unfolding generate_masks
  generate_masks-map size =
      let conv = g.convertor in
      rw
        (
          new-map size n.nought,
          add_shares-map pcg64 conv c total iv size (values g.owned_seeds) (λ k. n.nought),
        )
        (sub_shares-map pcg64 conv c total iv size (values g.foreign_seeds)
          (λ k. add_all pcg64 c iv k (values g.owned_seeds) n.nought))

  generate_mask-ok :
      g.owned_seeds ++ g.foreign_seeds ≢ []
      → generate_mask pcg64 g iv ≡ ok (mask_value pcg64 c iv g 0)
  unfolding generate_mask
  generate_mask-ok h =
      let conv = g.convertor in
      rw
        (
          seeds_present g.owned_seeds g.foreign_seeds h,
          add_draws-ok pcg64 conv c total iv (values g.owned_seeds) n.nought,
        )
        (sub_draws-ok pcg64 conv c total iv (values g.foreign_seeds)
          (add_all pcg64 c iv 0 (values g.owned_seeds) n.nought))

  -- If the convertor turns each draw into a number, then with at least one seed, owned or foreign,
  -- `generate_mask` returns the mask that `generate_masks` puts first, whatever the number of masks; with no
  -- seed it raises the assertion error.
  pub generate_mask-generate_masks :
      (size : ℕ)
      → ((g.owned_seeds ++ g.foreign_seeds ≢ [])
          × (m : N) × (rest : List N) × (generate_mask pcg64 g iv ≡ ok m)
          × (generate_masks pcg64 g iv (suc size) ≡ ok (m ∷ rest)))
        ⊎ ((g.owned_seeds ++ g.foreign_seeds ≡ [])
            × (generate_mask pcg64 g iv ≡ err assertion_error))
  unfolding generate_mask
  generate_mask-generate_masks size = elim (nil_or_not (g.owned_seeds ++ g.foreign_seeds)) [
    | inr h ↦ inl (
      h,
      mask_value pcg64 c iv g 0,
      map (mask_value pcg64 c iv g) (range_from (0 + 1) size),
      generate_mask-ok h,
      generate_masks-map (suc size),
    )
    | inl h ↦ inr (h, rw (seeds_absent g.owned_seeds g.foreign_seeds h))
  ]
