-- ===== src/Masking/Cancel.antt =====
-- The sum of the masks of participants that have agreed on their seeds.
use private_billings.Prelude.{
  ℕ, ◌≡◌, refl, sym, ap, ◌∙◌, true, Option, none, some, [], ◌∷◌, arith, All, All-map, All-map₂,
  ◌==◌, Bool-cases, inl, inr,
}
use mathlib.Core.Path.{fun_ext}
use private_billings.Python.Dict.{Dict, lookup, contains, values, IsDict}
use private_billings.Number.{Number}
use private_billings.Number.Laws.{IsExact}
use private_billings.Number.Sums.{
  sum_over, sum_over-nought, sum_over-add, sum_over-All, sum_over-exchange, foldl-add, foldl-sub,
  nought_add, add_left_comm, add_cancel,
}
use private_billings.Masking.{Seed, SharedMaskGenerator, Pcg64}
use private_billings.Masking.Draws.{draw, add_all, mask_value}

-- The participants of the billing, by their ids.
abbrev pub Parties : Type 0 → Type 0
Parties N = Dict (SharedMaskGenerator N)

-- Each two participants hold one seed for each direction or none, and nobody else has given a seed.
pub record IsAgreed {N : Type 0} (ps : Parties N) : Type 0 where
  pub ids : IsDict ps
  pub owned_IsDict : All (λ p. IsDict p.1.owned_seeds) ps
  pub foreign_IsDict : All (λ p. IsDict p.1.foreign_seeds) ps
  pub owned_known : All (λ p. All (λ e. contains e.0 ps ≡ true) p.1.owned_seeds) ps
  pub foreign_known : All (λ p. All (λ e. contains e.0 ps ≡ true) p.1.foreign_seeds) ps
  pub agreed : All (λ p. All (λ q. lookup q.0 p.1.owned_seeds ≡ lookup p.0 q.1.foreign_seeds) ps) ps

module _ {N : Type 0} ⦃n : Number N⦄ (w : Seed → N) where
  -- What an entry that may be missing adds to a sum.
  abbrev part : Option Seed → N
  part none = n.nought
  part (some s) = w s

module _ {N : Type 0} ⦃n : Number N⦄ (exact : IsExact N) (w : Seed → N) {V : Type 0} where
  -- The sum over all known keys of what a dict has there.
  abbrev by_key : Dict Seed → Dict V → N
  by_key d ps = sum_over (λ p. part w (lookup p.0 d)) ps

  sum_keys-miss :
      (j : ℕ) (s : Seed) (d : Dict Seed) (ps : Dict V)
      → lookup j ps ≡ none
      → by_key ((j, s) ∷ d) ps ≡ by_key d ps
  sum_keys-miss j s d [] h = refl
  sum_keys-miss j s d ((k, v) ∷ ps) h = ground (arith, sum_keys-miss j s d ps)

  sum_keys-hit :
      (j : ℕ) (s : Seed) (d : Dict Seed) (ps : Dict V)
      → IsDict ps
      → contains j ps ≡ true
      → lookup j d ≡ none
      → by_key ((j, s) ∷ d) ps ≡ n.add (w s) (by_key d ps)
  sum_keys-hit j s d [] i h e = cc
  sum_keys-hit j s d ((k, v) ∷ ps) i h e = elim (Bool-cases (j == k)) [
    | inl same ↦ ground (arith, sum_keys-miss j s d ps, nought_add exact (by_key d ps))
    | inr other ↦ ground (
      arith,
      sum_keys-hit j s d ps i.1,
      add_left_comm exact (part w (lookup k d)) (w s) (by_key d ps),
    )
  ]

  -- The values of a dict whose keys are all known, summed key by key.
  sum_values :
      (d : Dict Seed) (ps : Dict V)
      → IsDict ps
      → IsDict d
      → All (λ e. contains e.0 ps ≡ true) d
      → sum_over w (values d) ≡ by_key d ps
  sum_values [] ps i id h = sym (sum_over-nought exact ps)
  sum_values ((j, s) ∷ d) ps i id h =
      ap (n.add (w s)) (sum_values d ps i id.1 h.1) ∙ sym (sum_keys-hit j s d ps i h.0 id.0)

module _ {N : Type 0} ⦃n : Number N⦄ (exact : IsExact N) (pcg64 : Pcg64) (c : ℕ → N)
    (iv k : ℕ) where
  abbrev owned_sum : SharedMaskGenerator N → N
  owned_sum g = sum_over (draw pcg64 c iv k) (values g.owned_seeds)

  abbrev foreign_sum : SharedMaskGenerator N → N
  foreign_sum g = sum_over (draw pcg64 c iv k) (values g.foreign_seeds)

  mask-add-foreign :
      (g : SharedMaskGenerator N) → n.add (mask_value pcg64 c iv g k) (foreign_sum g) ≡ owned_sum g
  mask-add-foreign g =
      foldl-sub exact (draw pcg64 c iv k) (values g.foreign_seeds)
        (add_all pcg64 c iv k (values g.owned_seeds) n.nought)
      ∙ (foldl-add exact (draw pcg64 c iv k) (values g.owned_seeds) n.nought
          ∙ nought_add exact (owned_sum g))

  masks-add-foreign :
      (ps : Parties N)
      → n.add (sum_over (λ p. mask_value pcg64 c iv p.1 k) ps) (sum_over (λ p. foreign_sum p.1) ps)
        ≡ sum_over (λ p. owned_sum p.1) ps
  masks-add-foreign ps =
      sym (sum_over-add exact (λ p. mask_value pcg64 c iv p.1 k) (λ p. foreign_sum p.1) ps)
      ∙ ap (λ (f : ℕ × SharedMaskGenerator N → N). sum_over f ps)
          (fun_ext λ p. mask-add-foreign p.1)

  abbrev given : Option Seed → N
  given = part (draw pcg64 c iv k)

  owned-by_key :
      (ps : Parties N)
      → IsAgreed ps
      → sum_over (λ p. owned_sum p.1) ps
        ≡ sum_over (λ p. sum_over (λ q. given (lookup q.0 p.1.owned_seeds)) ps) ps
  owned-by_key ps a =
      sum_over-All exact (λ p. owned_sum p.1)
        (λ p. sum_over (λ q. given (lookup q.0 p.1.owned_seeds)) ps) ps
        (All-map₂ (λ p i h. sum_values exact (draw pcg64 c iv k) p.1.owned_seeds ps a.ids i h) ps
          a.owned_IsDict a.owned_known)

  foreign-by_key :
      (ps : Parties N)
      → IsAgreed ps
      → sum_over (λ p. foreign_sum p.1) ps
        ≡ sum_over (λ p. sum_over (λ q. given (lookup q.0 p.1.foreign_seeds)) ps) ps
  foreign-by_key ps a =
      sum_over-All exact (λ p. foreign_sum p.1)
        (λ p. sum_over (λ q. given (lookup q.0 p.1.foreign_seeds)) ps) ps
        (All-map₂ (λ p i h. sum_values exact (draw pcg64 c iv k) p.1.foreign_seeds ps a.ids i h) ps
          a.foreign_IsDict a.foreign_known)

  owned-eq-foreign :
      (ps : Parties N)
      → IsAgreed ps
      → sum_over (λ p. owned_sum p.1) ps ≡ sum_over (λ p. foreign_sum p.1) ps
  owned-eq-foreign ps a =
      owned-by_key ps a
      ∙ (sum_over-All exact _ (λ p. sum_over (λ q. given (lookup p.0 q.1.foreign_seeds)) ps) ps
            (All-map
              (λ p h.
                sum_over-All exact _ (λ q. given (lookup p.0 q.1.foreign_seeds)) ps
                  (All-map (λ q e. ap given e) ps h))
              ps a.agreed)
          ∙ (sum_over-exchange exact (λ p q. given (lookup p.0 q.1.foreign_seeds)) ps ps
              ∙ sym (foreign-by_key ps a)))

  -- In exact arithmetic the masks of all participants that have agreed on their seeds sum to 0, in every
  -- slot and for every initialisation vector.
  pub masks_cancel :
      (ps : Parties N) → IsAgreed ps → sum_over (λ p. mask_value pcg64 c iv p.1 k) ps ≡ n.nought
  masks_cancel ps a =
      add_cancel exact _ (sum_over (λ p. foreign_sum p.1) ps)
        (masks-add-foreign ps ∙ owned-eq-foreign ps a)
