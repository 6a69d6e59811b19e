-- ===== src/Masking/Exchange.antt =====
-- The exchange of seeds: participants join, and one gives another the seed that it owns for it.
pub mod Gift
pub mod Agreement
use private_billings.Prelude.{
  ℕ, ◌≡◌, ◌≢◌, refl, sym, ap, ◌∙◌, Bool, true, false, Option, none, some, List, [], ◌∷◌, map, arith,
  All, All-map, All-of, ◌==◌, if◌then◌else◌, Bool-cases, inl, inr,
}
use private_billings.Python.Dict.{
  Dict, lookup, contains, insert, set_default, get_or, IsDict, lookup-insert, lookup-set_default,
  insert-IsDict, set_default-IsDict,
}
use private_billings.Cycle.{ClientId}
use private_billings.Masking.{
  Seed, Int64Convertor, SharedMaskGenerator, new_generator, get_seed_for_peer, consume_foreign_seed,
}
use private_billings.Masking.Cancel.{Parties, IsAgreed}

module _ {N : Type 0} where
  -- The generator of participant `k` after `owner` has called `get_seed_for_peer` for `peer`, and `peer` has
  -- consumed the seed.
  unfoldable pub after_gift :
      Seed → Seed → ClientId → ClientId → ClientId → SharedMaskGenerator N → SharedMaskGenerator N
  after_gift fresh seed owner peer k g =
      if k == owner
      then (get_seed_for_peer fresh peer g).1
      else if k == peer
      then consume_foreign_seed seed owner g
      else g

  -- What is given is the seed that the generator of the owner returns.
  unfoldable pub give : Seed → ClientId → ClientId → Parties N → Parties N
  unfolding after_gift
  give fresh owner peer ps = elim (lookup owner ps) [
    | none ↦ ps
    | some g ↦
        map (λ e. (e.0, after_gift fresh ((get_seed_for_peer fresh peer g).0) owner peer e.0 e.1))
          ps
  ]

  -- One step of the participants, with any fresh seed.
  pub data Step : Parties N → Parties N → Type 0 where
    joined :
        (c : ClientId) (convertor : Int64Convertor N) (ps : Parties N)
        → contains c ps ≡ false
        → Step ps ((c, new_generator convertor) ∷ ps)
    gave :
        (fresh : Seed) (owner peer : ClientId) (ps : Parties N)
        → owner ≢ peer
        → contains owner ps ≡ true
        → contains peer ps ≡ true
        → Step ps (give fresh owner peer ps)

  -- What any number of steps leads to from no participants.
  pub data Reached : Parties N → Type 0 where
    nobody : Reached []
    step : {ps qs : Parties N} → Reached ps → Step ps qs → Reached qs

module _ {ℓ} {V : Type ℓ} (f : ℕ → V → V) where
  -- Changing the values of a dict keeps its keys.
  pub contains-map :
      (k : ℕ) (d : Dict V) → contains k (map (λ e. (e.0, f e.0 e.1)) d) ≡ contains k d
  contains-map k [] = refl
  contains-map k (e ∷ d) = ground (arith, contains-map k d)

  pub map-IsDict : (d : Dict V) → IsDict d → IsDict (map (λ e. (e.0, f e.0 e.1)) d)
  map-IsDict [] h = tt
  map-IsDict (e ∷ d) h = (ground (arith, contains-map e.0 d), map-IsDict d h.1)

module _ {ℓ κ μ} {A : Type ℓ} {B : Type κ} (P : B → Type μ) (f : A → B) where
  pub All-over : (xs : List A) → All (λ x. P (f x)) xs → All P (map f xs)
  All-over [] h = tt
  All-over (x ∷ xs) h = (h.0, All-over xs h.1)

module _ {ℓ} {V : Type ℓ} where
  -- An entry of a dict is what its key leads to.
  pub lookup-entries : (d : Dict V) → IsDict d → All (λ p. lookup p.0 d ≡ some p.1) d
  lookup-entries [] h = tt
  lookup-entries ((k, v) ∷ d) h =
      (ground arith, All-map (λ p e. past k v d h.0 p.0 p.1 e) d (lookup-entries d h.1))
    where
      past :
          (k : ℕ) (v : V) (d : Dict V)
          → lookup k d ≡ none
          → (j : ℕ) (w : V) → lookup j d ≡ some w
          → lookup j ((k, v) ∷ d) ≡ some w
      past k v d missing j w e = ground arith

  pub insert-known :
      (Q : ℕ → Type 0) (k : ℕ) (v : V) (d : Dict V)
      → Q k
      → All (λ e. Q e.0) d
      → All (λ e. Q e.0) (insert k v d)
  insert-known Q k v [] q h = (q, tt)
  insert-known Q k v (e ∷ d) q h = elim (Bool-cases (k == e.0)) [
    | inl same ↦ rw same (q, h.1)
    | inr other ↦ rw other (h.0, insert-known Q k v d q h.1)
  ]

  pub unknown :
      {W : Type 0} (ps : Dict W) (c : ℕ) (d : Dict V)
      → contains c ps ≡ false
      → All (λ e. contains e.0 ps ≡ true) d
      → lookup c d ≡ none
  unknown ps c [] new h = refl
  unknown ps c (e ∷ d) new h = ground (arith, unknown ps c d new h.1)
