-- ===== src/HiddenData/Unmask.antt =====
-- `unmask_data` on vectors that are columns: the sums over the clients, slot by slot.
use private_billings.Prelude.{
  ℕ, ◌≡◌, ◌≢◌, refl, ap, ◌∙◌, List, [], ◌∷◌, map, length, length-map, All, replicate-eq-map,
  replicate,
}
use mathlib.Core.List.{foldl}
use mathlib.Core.Path.{fun_ext}
use private_billings.Python.Raises.{ok}
use private_billings.Number.{Number}
use private_billings.Number.Laws.{IsExact}
use private_billings.Number.Sums.{sum_over, foldl-add, nought_add}
use private_billings.Vector.Columns.{add-map}
use private_billings.Cycle.{SharedCycleData}
use private_billings.Hiding.Openfhe.{Fhe}
use private_billings.HiddenData.{HiddenData, add_data, unmask_data}

module _ {N : Type 0} ⦃n : Number N⦄ {K : Type 0} (rows : List K) where
  abbrev pub totals_of : (K → N) → (K → N) → (K → N) → SharedCycleData N
  totals_of a b c = record {
    total_deviations = map a rows;
    total_p2p_consumers = map b rows;
    total_p2p_producers = map c rows;
  }

module _ {N : Type 0} ⦃n : Number N⦄ (exact : IsExact N) {F : Fhe N} {K M : Type 0} (rows : List K)
    (hidden : M → HiddenData F) (a b c : M → K → N) where
  -- The masked vectors of a client are columns.
  pub record IsMasked (m : M) : Type 0 where
    pub deviations : (hidden m).masked_individual_deviations ≡ map (a m) rows
    pub consumers : (hidden m).masked_p2p_consumer_flags ≡ map (b m) rows
    pub producers : (hidden m).masked_p2p_producer_flags ≡ map (c m) rows

  abbrev running : (M → K → N) → List M → (K → N) → K → N
  running f ms start k = foldl (λ s m. n.add s (f m k)) (start k) ms

  add_data-columns :
      (ms : List M) (f g h : K → N)
      → All IsMasked ms
      → add_data (map hidden ms) (totals_of rows f g h)
        ≡ ok (totals_of rows (running a ms f) (running b ms g) (running c ms h))
  unfolding add_data
  add_data-columns [] f g h masked = refl
  add_data-columns (m ∷ ms) f g h masked =
      rw
        (
          masked.0.deviations,
          masked.0.consumers,
          masked.0.producers,
          add-map f (a m) rows,
          add-map g (b m) rows,
          add-map h (c m) rows,
        )
        (add_data-columns ms (λ k. n.add (f k) (a m k)) (λ k. n.add (g k) (b m k))
          (λ k. n.add (h k) (c m k)) masked.1)

  running-sum :
      (f : M → K → N) (ms : List M) (k : K)
      → running f ms (λ _. n.nought) k ≡ sum_over (λ m. f m k) ms
  running-sum f ms k =
      foldl-add exact (λ m. f m k) ms n.nought ∙ nought_add exact (sum_over (λ m. f m k) ms)

  pub unmask_data-columns :
      (ms : List M)
      → ms ≢ []
      → All IsMasked ms
      → unmask_data (map hidden ms)
        ≡ ok (
            totals_of rows
              (λ k. sum_over (λ m. a m k) ms)
              (λ k. sum_over (λ m. b m k) ms)
              (λ k. sum_over (λ m. c m k) ms))
  unfolding unmask_data
  unmask_data-columns [] h masked = absurd (h refl)
  unmask_data-columns (m ∷ ms) h masked =
      let len = ap length masked.0.deviations ∙ length-map (a m) rows in
      let zeros = ap (λ (k : ℕ). replicate k n.nought) len ∙ replicate-eq-map n.nought rows in
      ap
        (λ (z : List N).
          add_data (map hidden (m ∷ ms))
            (record { total_deviations = z; total_p2p_consumers = z; total_p2p_producers = z }))
        zeros
      ∙ (add_data-columns (m ∷ ms) (λ _. n.nought) (λ _. n.nought) (λ _. n.nought) masked
          ∙ ap (λ (t : (K → N) × (K → N) × (K → N)). ok (totals_of rows t.0 t.1 t.2))
              (λ i. (
                fun_ext (running-sum a (m ∷ ms)) i,
                fun_ext (running-sum b (m ∷ ms)) i,
                fun_ext (running-sum c (m ∷ ms)) i,
              )))
