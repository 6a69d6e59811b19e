-- ===== src/Cycle/Flags.antt =====
-- The deviation flags of the shared data, row by row.
use private_billings.Prelude.{◌≡◌, Bool, List, [], ◌∷◌, ◌++◌, map, ◌∙◌}
use mathlib.Core.List.{append_assoc, append-nil}
use private_billings.Number.{Number}
use private_billings.Vector.{flag}
use private_billings.Cycle.{
  SharedCycleData, append_flags, positive_total_deviation_flags, negative_total_deviation_flags,
}

module _ {ℓ} {N : Type 0} ⦃n : Number N⦄ {R : Type ℓ} (f : R → N) where
  append_flags-map :
      (test : N → Bool) (acc : List N) (rows : List R)
      → append_flags test acc (map f rows) ≡ acc ++ map (λ r. flag (test (f r))) rows
  append_flags-map test acc [] = simp append-nil
  append_flags-map test acc (r ∷ rows) =
      append_flags-map test (acc ++ flag (test (f r)) ∷ []) rows
      ∙ append_assoc acc (flag (test (f r)) ∷ []) _

  pub positive_flags-map :
      (rows : List R) (scd : SharedCycleData N)
      → scd.total_deviations ≡ map f rows
      → positive_total_deviation_flags scd ≡ map (λ r. flag (n.lt n.nought (f r))) rows
  unfolding positive_total_deviation_flags
  positive_flags-map rows scd e = rw e (append_flags-map (λ dev. n.lt n.nought dev) [] rows)

  pub negative_flags-map :
      (rows : List R) (scd : SharedCycleData N)
      → scd.total_deviations ≡ map f rows
      → negative_total_deviation_flags scd ≡ map (λ r. flag (n.lt (f r) n.nought)) rows
  unfolding negative_total_deviation_flags
  negative_flags-map rows scd e = rw e (append_flags-map (λ dev. n.lt dev n.nought) [] rows)
