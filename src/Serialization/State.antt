-- ===== src/Serialization/State.antt =====
-- What `__getstate__` makes of the attributes of an object.
use private_billings.Prelude.{
  ◌≡◌, refl, sym, ap, ◌∙◌, ◌⊎◌, inl, inr, true, false, none, some, List, [], ◌∷◌, ◌++◌, Bool-cases,
  arith, All,
}
use mathlib.Core.List.{append-nil, append_assoc}
use private_billings.Python.Raises.{Result, ok, err, result_cases}
use private_billings.Hiding.Openfhe.{Fhe}
use private_billings.Serialization.Names.{
  Name, same_name, same_name_refl, same_name_eq, Attributes, has, delete_attribute, has-append,
  set_new, delete_there,
}
use private_billings.Serialization.{
  DeserializationOption, ciphertext, public_key, crypto_context, Files, Value, ciphertext_value,
  public_key_value, context_value, bytes_value, context_bytes, other_value, prefix_of, type_of,
  without_prefix, serialize, store_serialized, remove_names, get_state,
}

pub type_of-prefixed : (k : DeserializationOption) (n : Name) → type_of (prefix_of k ++ n) ≡ some k
unfolding type_of
type_of-prefixed ciphertext n = refl
type_of-prefixed public_key n = refl
type_of-prefixed crypto_context n = refl

pub without_prefixed :
    (k : DeserializationOption) (n : Name) → without_prefix (prefix_of k ++ n) ≡ n
without_prefixed ciphertext n = refl
without_prefixed public_key n = refl
without_prefixed crypto_context n = refl

-- Different names stay different with their prefixes.
pub prefixed_other :
    (k l : DeserializationOption) (m n : Name)
    → same_name m n ≡ false
    → same_name (prefix_of k ++ m) (prefix_of l ++ n) ≡ false
prefixed_other k l m n other = elim (Bool-cases (same_name (prefix_of k ++ m) (prefix_of l ++ n))) [
  | inr h ↦ h
  | inl h ↦
      let same : m ≡ n =
        sym (without_prefixed k m)
        ∙ ap without_prefix (same_name_eq (prefix_of k ++ m) (prefix_of l ++ n) h)
        ∙ without_prefixed l n in
      let there : same_name m n ≡ true =
        ap (λ (x : Name). same_name m x) (sym same) ∙ same_name_refl m in
      absurd (ground (arith, there, other))
]

module _ {V : Type 0} where
  -- Each name stands once, and none starts with one of the prefixes.
  abbrev pub IsObject : Attributes V → Type 0
  IsObject [] = Unit
  IsObject ((n, v) ∷ d) = (has n d ≡ false) × (type_of n ≡ none) × IsObject d

  -- A name that is there is none that is not.
  pub other_name :
      (m n : Name) (d : Attributes V) → has m d ≡ true → has n d ≡ false → same_name m n ≡ false
  other_name m n d there new = elim (Bool-cases (same_name m n)) [
    | inr h ↦ h
    | inl h ↦
        let e = ap (λ (x : Name). has x d) (same_name_eq m n h) in
        absurd (ground (arith, e, there, new))
  ]

  -- A name with a prefix is none of an object.
  pub no_prefixed :
      (k : DeserializationOption) (m : Name) (d : Attributes V)
      → type_of m ≡ some k
      → IsObject d
      → has m d ≡ false
  no_prefixed k m [] t h = refl
  no_prefixed k m ((n, v) ∷ d) t (new, plain_name, rest) = elim (Bool-cases (same_name m n)) [
    | inr other ↦ rw other (no_prefixed k m d t rest)
    | inl same ↦
        let e : none ≡ some k = sym plain_name ∙ ap type_of (sym (same_name_eq m n same)) ∙ t in
        absurd (ground (arith, e))
  ]

module _ {N : Type 0} {F : Fhe N} {Other : Type 0} (files : Files F) (store : F.KeyStore) where
  -- The attributes that are not OpenFHE objects, those that are, and their serializations.
  abbrev pub plain : Attributes (Value F Other) → Attributes (Value F Other)
  plain [] = []
  plain ((n, v) ∷ d) = elim (serialize files store v) [ none ↦ (n, v) ∷ plain d | some s ↦ plain d ]

  abbrev pub objects : Attributes (Value F Other) → Attributes (Value F Other)
  objects [] = []
  objects ((n, v) ∷ d) = elim (serialize files store v) [
    | none ↦ objects d
    | some s ↦ (n, v) ∷ objects d
  ]

  abbrev pub serials : Attributes (Value F Other) → Attributes (Value F Other)
  serials [] = []
  serials ((n, v) ∷ d) = elim (serialize files store v) [
    | none ↦ serials d
    | some s ↦ (s.0 ++ n, s.1) ∷ serials d
  ]

  abbrev pub names_of : Attributes (Value F Other) → List Name
  names_of [] = []
  names_of (e ∷ d) = e.0 ∷ names_of d

  -- A value is not serialized, or it is, with the prefix of its type.
  pub serialize_cases :
      (v : Value F Other)
      → (serialize files store v ≡ none)
        ⊎ ((k : DeserializationOption) × (s : Value F Other) × (serialize files store v
              ≡ some (prefix_of k, s)))
  unfolding serialize
  serialize_cases (ciphertext_value c) = inr (ciphertext, _, refl)
  serialize_cases (public_key_value c) = inr (public_key, _, refl)
  serialize_cases (context_value c) = inr (crypto_context, _, refl)
  serialize_cases (bytes_value b) = inl refl
  serialize_cases (context_bytes a b c) = inl refl
  serialize_cases (other_value o) = inl refl

  -- The loop of `__getstate__` appends the serializations.
  store_serialized_lem :
      (items acc : Attributes (Value F Other))
      → IsObject items
      → ((k : DeserializationOption) (n : Name)
          → has n items ≡ true
          → has (prefix_of k ++ n) acc ≡ false)
      → store_serialized files store items acc ≡ (acc ++ serials items, names_of (objects items))
  unfolding store_serialized
  store_serialized_lem [] acc h fresh = rw (append-nil acc) refl
  store_serialized_lem ((n, v) ∷ items) acc (new, plain_name, rest) fresh =
      elim (serialize_cases v) [
        | inl e ↦
            rw (e, store_serialized, serials, objects)
              (store_serialized_lem items acc rest (λ k m there. fresh k m (ground (arith, there))))
        | inr (k, s, e) ↦
            let here : has n ((n, v) ∷ items) ≡ true = ground (arith, same_name_refl n) in
            let appended = set_new (prefix_of k ++ n) s acc (fresh k n here) in
            let later : (l : DeserializationOption) (m : Name)
                → has m items ≡ true
                → has (prefix_of l ++ m) (acc ++ (prefix_of k ++ n, s) ∷ []) ≡ false =
              λ l m there.
                let before = fresh l m (ground (arith, there)) in
                let different = prefixed_other l k m n (other_name m n items there new) in
                has-append (prefix_of l ++ m) acc _ ∙ ground (arith, before, different) in
            rw (e, store_serialized, serials, objects, appended)
              (ap (λ (r : Attributes (Value F Other) × List Name). (r.0, n ∷ r.1))
                  (store_serialized_lem items (acc ++ (prefix_of k ++ n, s) ∷ []) rest later)
                ∙ ap (λ (d : Attributes (Value F Other)). (d, n ∷ names_of (objects items)))
                    (append_assoc acc ((prefix_of k ++ n, s) ∷ []) (serials items)))
      ]

  remove_names-skip :
      (names : List Name) (x : Name × Value F Other) (d r : Attributes (Value F Other))
      → All (λ m. same_name m x.0 ≡ false) names
      → remove_names files names d ≡ ok r
      → remove_names files names (x ∷ d) ≡ ok (x ∷ r)
  unfolding remove_names
  remove_names-skip [] x d r others h =
      ap (λ (q : Result (Attributes (Value F Other))). elim q [ ok a ↦ ok (x ∷ a) | err y ↦ err y ])
        h
  remove_names-skip (m ∷ names) x d r (other, others) h =
      elim (result_cases (delete_attribute m d)) [
        | inl (d', e) ↦
            rw (other, e, remove_names)
              (remove_names-skip names x d' r others (rw (remove_names, e) at h))
        | inr (y, e) ↦
            let raised : err y ≡ ok r = rw (remove_names, e) at h in absurd (ground (arith, raised))
      ]

  different_names :
      (n : Name) (d : Attributes (Value F Other))
      → has n d ≡ false
      → All (λ m. same_name m n ≡ false) (names_of (objects d))
  different_names n [] new = tt
  different_names n ((m, v) ∷ d) new =
      let rest = different_names n d (ground (arith, new)) in
      elim (serialize_cases v) [
        | inl e ↦ rw (e, objects) rest
        | inr (k, s, e) ↦
            rw (e, objects)
              (other_name m n ((m, v) ∷ d) (ground (arith, same_name_refl m)) new, rest)
      ]

  removed :
      (d e : Attributes (Value F Other))
      → IsObject d
      → remove_names files (names_of (objects d)) (d ++ e) ≡ ok (plain d ++ e)
  unfolding remove_names
  removed [] e h = refl
  removed ((n, v) ∷ d) e (new, plain_name, rest) = elim (serialize_cases v) [
    | inl p ↦
        rw (p, plain, objects)
          (remove_names-skip (names_of (objects d)) (n, v) (d ++ e) (plain d ++ e)
            (different_names n d new) (removed d e rest))
    | inr (k, s, p) ↦
        rw (p, plain, objects, remove_names, delete_there n v [] (d ++ e) refl) (removed d e rest)
  ]

  -- The state has the attributes that are no OpenFHE objects as they are, and then the serializations.
  pub get_state_lem :
      (d : Attributes (Value F Other))
      → IsObject d
      → get_state files store d ≡ (ok (plain d ++ serials d), d ++ serials d)
  unfolding get_state
  get_state_lem d h =
      let loop =
        store_serialized_lem d d h
          (λ k n there. no_prefixed k (prefix_of k ++ n) d (type_of-prefixed k n) h) in
      rw (get_state, loop)
        (ap (λ (r : Result (Attributes (Value F Other))). (r, d ++ serials d))
          (removed d (serials d) h))
