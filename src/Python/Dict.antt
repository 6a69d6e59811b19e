-- ===== src/Python/Dict.antt =====
-- A Python dict keyed by integers, in insertion order, and a set of integers.
use private_billings.Prelude.{
  ℕ, ◌≡◌, refl, Bool, true, false, Option, none, some, List, [], ◌∷◌, map, arith, ◌==◌,
  if◌then◌else◌, Bool-cases, Option-cases, inl, inr, ==_iff,
}
use mathlib.Core.Option.{some-injective}

abbrev pub Dict {ℓ} : Type ℓ → Type ℓ
Dict V = List (ℕ × V)

module _ {ℓ} {V : Type ℓ} where
  abbrev pub keys : Dict V → List ℕ
  keys = map (λ e. e.0)

  abbrev pub values : Dict V → List V
  values = map (λ e. e.1)

  -- `d.get(key)`
  abbrev pub lookup : (key : ℕ) → (d : Dict V) → Option V
  lookup key [] = none
  lookup key (e ∷ rest) = if key == e.0 then some e.1 else lookup key rest

  -- `key in d`
  abbrev pub contains : (key : ℕ) → (d : Dict V) → Bool
  contains key d = elim (lookup key d) [ some found ↦ true | none ↦ false ]

  -- `d[k] = v`, which keeps the place of a key that is there
  abbrev pub insert : ℕ → V → Dict V → Dict V
  insert k v [] = (k, v) ∷ []
  insert k v (e ∷ d) = if k == e.0 then (k, v) ∷ d else e ∷ insert k v d

  -- `d.setdefault(k, v)`, as the new dict
  abbrev pub set_default : ℕ → V → Dict V → Dict V
  set_default k v d = elim (lookup k d) [ none ↦ insert k v d | some _ ↦ d ]

  -- `d.get(k, v)`
  abbrev pub get_or : ℕ → V → Dict V → V
  get_or k v d = elim (lookup k d) [ none ↦ v | some w ↦ w ]

  -- No key stands twice.
  abbrev pub IsDict : Dict V → Type ℓ
  IsDict [] = Unit
  IsDict ((k, v) ∷ d) = (lookup k d ≡ none) × IsDict d

  pub lookup-insert :
      (j k : ℕ) (v : V) (d : Dict V)
      → lookup j (insert k v d) ≡ (if j == k then some v else lookup j d)
  lookup-insert j k v [] = refl
  lookup-insert j k v (e ∷ d) = ground (arith, lookup-insert j k v d)

  pub insert-IsDict : (k : ℕ) (v : V) (d : Dict V) → IsDict d → IsDict (insert k v d)
  insert-IsDict k v [] h = (refl, tt)
  insert-IsDict k v (e ∷ d) h = ground (arith, insert-IsDict k v d h.1, lookup-insert e.0 k v d)

  pub lookup-set_default :
      (j k : ℕ) (v : V) (d : Dict V)
      → lookup j (set_default k v d) ≡ (if j == k then some (get_or k v d) else lookup j d)
  lookup-set_default j k v d = ground (arith, lookup-insert j k v d)

  pub set_default-IsDict : (k : ℕ) (v : V) (d : Dict V) → IsDict d → IsDict (set_default k v d)
  set_default-IsDict k v d h = ground (arith, insert-IsDict k v d)

  pub lookup-get_or : (k : ℕ) (v w : V) (d : Dict V) → lookup k d ≡ some w → get_or k v d ≡ w
  lookup-get_or k v w d h = rw (h, get_or)

  pub contains-lookup : (k : ℕ) (d : Dict V) → contains k d ≡ true → (v : V) × (lookup k d ≡ some v)
  contains-lookup k d h = ground arith

  pub lookup-contains : (k : ℕ) (d : Dict V) (v : V) → lookup k d ≡ some v → contains k d ≡ true
  lookup-contains k d v h = rw (h, contains)

module _ {ℓ κ} {V : Type ℓ} (P : ℕ → V → Type κ) where
  -- Every entry meets a condition on its key and its value.
  abbrev pub AllEntries : Dict V → Type κ
  AllEntries [] = Unit
  AllEntries ((k, v) ∷ d) = P k v × AllEntries d

  pub insert-AllEntries :
      (k : ℕ) (v : V) (d : Dict V) → P k v → AllEntries d → AllEntries (insert k v d)
  insert-AllEntries k v [] p h = (p, tt)
  insert-AllEntries k v ((j, w) ∷ d) p h = elim (Bool-cases (k == j)) [
    | inl same ↦ rw same (p, h.1)
    | inr other ↦ rw other (h.0, insert-AllEntries k v d p h.1)
  ]

  pub set_default-AllEntries :
      (k : ℕ) (v : V) (d : Dict V) → P k v → AllEntries d → AllEntries (set_default k v d)
  set_default-AllEntries k v d p h = elim (Option-cases (lookup k d)) [
    | inl new ↦ rw (new, set_default) (insert-AllEntries k v d p h)
    | inr (w, old) ↦ rw (old, set_default) h
  ]

  pub lookup-AllEntries : (k : ℕ) (v : V) (d : Dict V) → AllEntries d → lookup k d ≡ some v → P k v
  lookup-AllEntries k v [] h e = cc
  lookup-AllEntries k v ((j, w) ∷ d) h e = elim (Bool-cases (k == j)) [
    | inl same ↦
        let here : some w ≡ some v = rw same at e in
        rw ((==_iff k j).0 same, ← some-injective w v here) h.0
    | inr other ↦ lookup-AllEntries k v d h.1 (rw other at e)
  ]

module _ {ℓ κ μ} {V : Type ℓ} (P : ℕ → V → Type κ) (Q : ℕ → V → Type μ) where
  pub map-AllEntries :
      (d : Dict V) → ((k : ℕ) (v : V) → P k v → Q k v) → AllEntries P d → AllEntries Q d
  map-AllEntries [] f h = tt
  map-AllEntries ((k, v) ∷ d) f h = (f k v h.0, map-AllEntries d f h.1)
