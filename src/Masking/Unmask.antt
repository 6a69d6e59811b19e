-- ===== src/Masking/Unmask.antt =====
-- `SharedMaskGenerator.generate_masks` of all participants, unmasked together.
use private_billings.Prelude.{ℕ, ◌≡◌, ◌≢◌, refl, ap, ◌∙◌, List, [], ◌∷◌, map, All, All-map, sym}
use mathlib.Core.List.{foldl}
use mathlib.Core.Path.{fun_ext}
use private_billings.Python.Raises.{ok, traverse, traverse-All}
use private_billings.Number.{Number}
use private_billings.Number.Laws.{IsExact}
use private_billings.Number.Sums.{sum_over, foldl-add}
use private_billings.Vector.{new}
use private_billings.Vector.Columns.{add-map}
use private_billings.Masking.{
  SharedMaskGenerator, Pcg64, range_from, sum_vectors, unmask, generate_masks,
}
use private_billings.Masking.Draws.{mask_value, generate_masks-map, new-map}
use private_billings.Masking.Cancel.{Parties, IsAgreed, masks_cancel}

module _ {N : Type 0} ⦃n : Number N⦄ {M : Type 0} (value : M → ℕ → N) (slots : List ℕ) where
  abbrev column : M → List N
  column m = map (value m) slots

  sum_vectors-columns :
      (ms : List M) (f : ℕ → N)
      → sum_vectors (map column ms) (map f slots)
        ≡ ok (map (λ k. foldl (λ s m. n.add s (value m k)) (f k) ms) slots)
  unfolding sum_vectors
  sum_vectors-columns [] f = refl
  sum_vectors-columns (m ∷ ms) f =
      rw (add-map f (value m) slots) (sum_vectors-columns ms (λ k. n.add (f k) (value m k)))

  -- Unmasking columns sums them, slot by slot.
  pub unmask-columns :
      IsExact N
      → (ms : List M) → ms ≢ []
      → unmask (map column ms) ≡ ok (map (λ k. sum_over (λ m. value m k) ms) slots)
  unfolding unmask
  unmask-columns exact [] h = absurd (h refl)
  unmask-columns exact (m ∷ ms) h =
      sum_vectors-columns ms (value m)
      ∙ ap (λ (f : ℕ → N). ok (map f slots))
          (fun_ext λ k. foldl-add exact (λ m. value m k) ms (value m k))

module _ {N : Type 0} ⦃n : Number N⦄ (pcg64 : Pcg64) (conv : ℕ → N) where
  -- In exact arithmetic, if the participants have agreed on their seeds, there is at least one, and their
  -- convertors turn each draw into a number in the same way, then `generate_masks` raises for none of
  -- them, for any initialisation vector and any size, and unmasking the masks of all yields a vector of
  -- that size that is 0 in every slot.
  pub unmask-generate_masks :
      (ps : Parties N) (iv size : ℕ)
      → IsExact N
      → ps ≢ []
      → IsAgreed ps
      → All (λ p. (v : ℕ) → p.1.convertor v ≡ ok (conv v)) ps
      → (masks : List (List N)) × (traverse (λ p. generate_masks pcg64 p.1 iv size) ps ≡ ok masks)
        × (unmask masks ≡ ok (new size n.nought))
  unmask-generate_masks ps iv size exact some_party agreed converts =
      let value = λ (p : ℕ × SharedMaskGenerator N). mask_value pcg64 conv iv p.1 in
      (
        map (λ p. map (value p) (range_from 0 size)) ps,
        traverse-All _ (λ p. map (value p) (range_from 0 size)) ps
            (All-map (λ p total. generate_masks-map pcg64 p.1 conv total iv size) ps converts),
        unmask-columns value (range_from 0 size) exact ps some_party
            ∙ (ap (λ (f : ℕ → N). ok (map f (range_from 0 size)))
                  (fun_ext λ k. masks_cancel exact pcg64 conv iv k ps agreed)
                ∙ ap ok (sym (new-map size n.nought))),
      )
