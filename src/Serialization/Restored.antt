-- ===== src/Serialization/Restored.antt =====
-- The round trip of an object through its state.
use private_billings.Prelude.{
  ◌≡◌, refl, sym, ap, ◌∙◌, ◌⊎◌, All, inl, inr, true, false, none, some, [], ◌∷◌, ◌++◌, Bool-cases,
}
use mathlib.Core.List.{append-nil}
use private_billings.Python.Raises.{Result, ok}
use private_billings.Hiding.Openfhe.{Fhe}
use private_billings.Serialization.Names.{
  Name, same_name, same_name_eq, Attributes, has, get_attribute, get_attribute-append,
}
use private_billings.Serialization.{
  ciphertext_value, public_key_value, context_value, bytes_value, context_bytes, other_value, Files,
  Value, serialize, rebuild, get_state, set_state,
}
use private_billings.Serialization.State.{
  IsObject, plain, objects, serials, serialize_cases, get_state_lem,
}
use private_billings.Serialization.RoundTrip.{
  IsFaithful, not_among, plain_other, rebuild-plain, rebuild-serials,
}

module _ {N : Type 0} {F : Fhe N} {Other : Type 0} (files : Files F) (faithful : IsFaithful files)
    (store : F.KeyStore) where
  plain-IsObject : (d : Attributes (Value F Other)) → IsObject d → IsObject (plain files store d)
  plain-IsObject [] h = tt
  plain-IsObject ((n, v) ∷ d) (new, plain_name, rest) = elim (serialize_cases files store v) [
    | inl p ↦
        rw (p, plain)
          ((not_among files faithful store n d new).1, plain_name, plain-IsObject d rest)
    | inr (k, s, p) ↦ rw (p, plain) (plain-IsObject d rest)
  ]

  -- Together the two kinds of attributes are all of them.
  get_attribute-parts :
      (m : Name) (d : Attributes (Value F Other))
      → IsObject d
      → get_attribute m (plain files store d ++ objects files store d) ≡ get_attribute m d
  get_attribute-parts m [] h = refl
  get_attribute-parts m ((n, v) ∷ d) (new, plain_name, rest) =
      let tail = get_attribute-parts m d rest in
      elim (serialize_cases files store v) [
        | inl p ↦
            rw (p, plain, objects)
              (elim (Bool-cases (same_name m n)) [
                | inl same ↦ rw same refl
                | inr other ↦ rw other tail
              ])
        | inr (k, s, p) ↦
            rw (p, plain, objects)
              (elim (Bool-cases (same_name m n)) [
                | inl same ↦
                    let absent : has m (plain files store d) ≡ false =
                      (not_among files faithful store m d
                        (ap (λ (x : Name). has x d) (same_name_eq m n same) ∙ new)).1 in
                    get_attribute-append m (plain files store d) _ ∙ rw (absent, same) refl
                | inr other ↦
                    get_attribute-append m (plain files store d) _
                    ∙ rw other (
                        sym (get_attribute-append m (plain files store d) (objects files store d))
                        ∙ tail)
              ])
      ]

  -- If what OpenFHE reads is what it wrote, and the names of an object are different and start with none of
  -- the prefixes, then to pickle the object raises nothing, and neither does to unpickle its state, whatever
  -- keys are loaded at either time. The object that comes back has each attribute with its value, OpenFHE
  -- objects among them, and no other attribute.
  pub set_state-get_state :
      (d : Attributes (Value F Other)) (st : F.KeyStore) (n : Name)
      → IsObject d
      → (state : Attributes (Value F Other)) × (d' : Attributes (Value F Other))
        × (st' : F.KeyStore) × ((get_state files store d).0 ≡ ok state)
        × (set_state files state st ≡ (ok d', st'))
        × (get_attribute n d' ≡ get_attribute n d)
  unfolding set_state
  set_state-get_state d st n h =
      let P = plain files store d in
      let S = serials files store d in
      let (st', run) =
        rebuild-serials files faithful store d P [] h (plain-IsObject d h)
          (λ m there. plain_other files faithful store m d h there) (λ m there. refl) st in
      (
        P ++ S,
        P ++ objects files store d,
        st',
        ap (λ (r : Result (Attributes (Value F Other)) × Attributes (Value F Other)). r.0)
            (get_state_lem files store d h),
        rebuild-plain files faithful store d S (P ++ S) h st
            ∙ ap (λ (x : Attributes (Value F Other)). rebuild files S (P ++ x) st)
                (sym (append-nil S))
            ∙ run,
        get_attribute-parts n d h,
      )

module _ {N : Type 0} {F : Fhe N} {Other : Type 0} (files : Files F) (store : F.KeyStore) where
  -- A value that is no OpenFHE object.
  abbrev pub IsPickleable : Value F Other → Type 0
  IsPickleable v = serialize files store v ≡ none

  pickle_cases :
      (v : Value F Other)
      → IsPickleable v
        ⊎ ((prefix : Name) × (s : Value F Other) × (serialize files store v ≡ some (prefix, s))
            × IsPickleable s)
  unfolding serialize
  pickle_cases (ciphertext_value c) = inr (_, _, refl, refl)
  pickle_cases (public_key_value c) = inr (_, _, refl, refl)
  pickle_cases (context_value c) = inr (_, _, refl, refl)
  pickle_cases (bytes_value b) = inl refl
  pickle_cases (context_bytes a b c) = inl refl
  pickle_cases (other_value o) = inl refl

  plain-IsPickleable :
      (d e : Attributes (Value F Other))
      → All (λ x. IsPickleable x.1) e
      → All (λ x. IsPickleable x.1) (plain files store d ++ e)
  plain-IsPickleable [] e h = h
  plain-IsPickleable ((n, v) ∷ d) e h = elim (pickle_cases v) [
    | inl p ↦ rw (p, plain) (p, plain-IsPickleable d e h)
    | inr (prefix, s, p, q) ↦ rw (p, plain) (plain-IsPickleable d e h)
  ]

  serials-IsPickleable :
      (d : Attributes (Value F Other)) → All (λ x. IsPickleable x.1) (serials files store d)
  serials-IsPickleable [] = tt
  serials-IsPickleable ((n, v) ∷ d) = elim (pickle_cases v) [
    | inl p ↦ rw (p, serials) (serials-IsPickleable d)
    | inr (prefix, s, p, q) ↦ rw (p, serials) (q, serials-IsPickleable d)
  ]

  -- If the names of an object are different and start with none of the prefixes, then to pickle it raises
  -- nothing, no value of its state is an OpenFHE object any more, and the object itself still has each of its
  -- attributes with its value.
  pub get_state-IsPickleable :
      (d : Attributes (Value F Other)) (n : Name)
      → IsObject d
      → has n d ≡ true
      → (state : Attributes (Value F Other)) × ((get_state files store d).0 ≡ ok state)
        × All (λ x. IsPickleable x.1) state
        × (get_attribute n ((get_state files store d).1) ≡ get_attribute n d)
  get_state-IsPickleable d n h there =
      let made = get_state_lem files store d h in
      (
        plain files store d ++ serials files store d,
        ap (λ (r : Result (Attributes (Value F Other)) × Attributes (Value F Other)). r.0) made,
        plain-IsPickleable d (serials files store d) (serials-IsPickleable d),
        ap
              (λ (r : Result (Attributes (Value F Other)) × Attributes (Value F Other)).
                get_attribute n (r.1))
              made
            ∙ get_attribute-append n d (serials files store d)
            ∙ rw there refl,
      )
