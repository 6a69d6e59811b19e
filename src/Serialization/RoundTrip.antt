-- ===== src/Serialization/RoundTrip.antt =====
-- What `__setstate__` makes of the state that `__getstate__` has made.
use private_billings.Prelude.{
  ◌≡◌, refl, sym, ap, ◌∙◌, ◌⊎◌, inl, inr, true, false, none, some, [], ◌∷◌, ◌++◌, Bool-cases, arith,
}
use mathlib.Core.List.{append-nil, append_assoc}
use private_billings.Python.Raises.{ok}
use private_billings.Hiding.Openfhe.{Fhe}
use private_billings.Serialization.Names.{
  Name, same_name, same_name_refl, same_name_eq, Attributes, has, set_attribute, has-append,
  set_new, delete_there,
}
use private_billings.Serialization.{
  DeserializationOption, ciphertext, public_key, crypto_context, Files, Value, ciphertext_value,
  public_key_value, context_value, bytes_value, context_bytes, other_value, prefix_of, type_of,
  serialize, deserialize, rebuild,
}
use private_billings.Serialization.State.{
  type_of-prefixed, without_prefixed, IsObject, other_name, no_prefixed, plain, objects, serials,
  serialize_cases,
}

module _ {N : Type 0} {F : Fhe N} (files : Files F) where
  -- What is read is what was written.
  pub record IsFaithful : Type 0 where
    pub read_ciphertext_written :
        (c : F.Ciphertext) → files.read_ciphertext (files.write_ciphertext c) ≡ c
    pub read_public_key_written :
        (pk : F.PublicKey) → files.read_public_key (files.write_public_key pk) ≡ pk
    pub read_context_written :
        (cc : F.CryptoContext) → files.read_context (files.write_context cc) ≡ cc

module _ {N : Type 0} {F : Fhe N} {Other : Type 0} (files : Files F) (faithful : IsFaithful files)
    (store : F.KeyStore) where
  -- A value is not serialized, or its serialization is read as the value.
  restore_cases :
      (v : Value F Other)
      → (serialize files store v ≡ none)
        ⊎ ((k : DeserializationOption) × (s : Value F Other) × (serialize files store v
              ≡ some (prefix_of k, s))
            × ((st : F.KeyStore) → (st' : F.KeyStore) × (deserialize files k s st ≡ (ok v, st'))))
  unfolding serialize deserialize
  restore_cases (ciphertext_value c) =
      inr (ciphertext, _, refl, λ st. (st, rw (faithful.read_ciphertext_written c) refl))
  restore_cases (public_key_value pk) =
      inr (public_key, _, refl, λ st. (st, rw (faithful.read_public_key_written pk) refl))
  restore_cases (context_value c) = inr (
    crypto_context,
    _,
    refl,
    λ st. (
      files.read_rotation_keys c (files.write_rotation_keys c store)
          (files.read_relinearization_keys c (files.write_relinearization_keys c store) st),
      rw (faithful.read_context_written c) refl,
    ),
  )
  restore_cases (bytes_value b) = inl refl
  restore_cases (context_bytes a b c) = inl refl
  restore_cases (other_value o) = inl refl

  -- An attribute that is no OpenFHE object is left alone.
  pub rebuild-plain :
      (d items current : Attributes (Value F Other))
      → IsObject d
      → (st : F.KeyStore)
      → rebuild files (plain files store d ++ items) current st ≡ rebuild files items current st
  unfolding rebuild
  rebuild-plain [] items current h st = refl
  rebuild-plain ((n, v) ∷ d) items current (new, plain_name, rest) st =
      elim (serialize_cases files store v) [
        | inl p ↦ rw (p, plain, plain_name, rebuild) (rebuild-plain d items current rest st)
        | inr (k, s, p) ↦ rw (p, plain) (rebuild-plain d items current rest st)
      ]

  -- Attributes with a prefix have none of the names of an object.
  no_serial :
      (n : Name) (d : Attributes (Value F Other))
      → type_of n ≡ none
      → has n (serials files store d) ≡ false
  no_serial n [] t = refl
  no_serial n ((m, v) ∷ d) t = elim (serialize_cases files store v) [
    | inl p ↦ rw (p, serials) (no_serial n d t)
    | inr (k, s, p) ↦ elim (Bool-cases (same_name n (prefix_of k ++ m))) [
      | inr other ↦ rw (p, serials, other) (no_serial n d t)
      | inl same ↦ absurd (clash n (prefix_of k ++ m) k same t (type_of-prefixed k m))
    ]
  ]
    where
      clash :
          (n m : Name) (k : DeserializationOption)
          → same_name n m ≡ true
          → type_of n ≡ none
          → type_of m ≡ some k
          → ⊥
      clash n m k same t u =
          let e : none ≡ some k = sym t ∙ ap type_of (same_name_eq n m same) ∙ u in
          ground (arith, e)

  -- One serialization is rebuilt.
  rebuild-one :
      (k : DeserializationOption) (n : Name) (v s : Value F Other) (st st' : F.KeyStore)
      → (items before rest done : Attributes (Value F Other))
      → deserialize files k s st ≡ (ok v, st')
      → has n (before ++ (prefix_of k ++ n, s) ∷ (rest ++ done)) ≡ false
      → has (prefix_of k ++ n) before ≡ false
      → rebuild files
          ((prefix_of k ++ n, s) ∷ items)
          (before ++ (prefix_of k ++ n, s) ∷ (rest ++ done))
          st
        ≡ rebuild files items (before ++ (rest ++ (done ++ (n, v) ∷ []))) st'
  unfolding rebuild
  rebuild-one k n v s st st' items before rest done read new fresh =
      let current = before ++ (prefix_of k ++ n, s) ∷ (rest ++ done) in
      let written : set_attribute n v current
          ≡ before ++ (prefix_of k ++ n, s) ∷ (rest ++ (done ++ (n, v) ∷ [])) =
        set_new n v current new
        ∙ append_assoc before _ _
        ∙ ap (λ (d : Attributes (Value F Other)). before ++ (prefix_of k ++ n, s) ∷ d)
            (append_assoc rest done ((n, v) ∷ [])) in
      let deleted =
        delete_there (prefix_of k ++ n) s before (rest ++ (done ++ (n, v) ∷ [])) fresh in
      rw (rebuild, type_of-prefixed k n, without_prefixed k n, read, written, deleted) refl

  -- A name that is not there is not among some of the attributes.
  pub not_among :
      (m : Name) (d : Attributes (Value F Other))
      → has m d ≡ false
      → (has m (objects files store d) ≡ false) × (has m (plain files store d) ≡ false)
  not_among m [] new = (refl, refl)
  not_among m ((n, v) ∷ d) new =
      let (in_objects, in_plain) = not_among m d (ground (arith, new)) in
      let other : same_name m n ≡ false = ground (arith, new) in
      elim (serialize_cases files store v) [
        | inl p ↦ rw (p, objects, plain) (in_objects, rw other in_plain)
        | inr (k, s, p) ↦ rw (p, objects, plain) (rw other in_objects, in_plain)
      ]

  object_there :
      (m : Name) (d : Attributes (Value F Other))
      → has m (objects files store d) ≡ true
      → has m d ≡ true
  object_there m d there = elim (Bool-cases (has m d)) [
    | inl h ↦ h
    | inr h ↦ absurd (ground (arith, there, (not_among m d h).0))
  ]

  -- A name of one of the OpenFHE objects is none of the other attributes.
  pub plain_other :
      (m : Name) (d : Attributes (Value F Other))
      → IsObject d
      → has m (objects files store d) ≡ true
      → has m (plain files store d) ≡ false
  plain_other m [] h there = refl
  plain_other m ((n, v) ∷ d) (new, plain_name, rest) there = elim (serialize_cases files store v) [
    | inl p ↦
        let inside : has m (objects files store d) ≡ true = rw (p, objects) at there in
        let other = other_name m n d (object_there m d inside) new in
        rw (p, plain, other) (plain_other m d rest inside)
    | inr (k, s, p) ↦
        rw (p, plain)
          (elim (Bool-cases (same_name m n)) [
            | inr other ↦ plain_other m d rest (rw (p, objects, other) at there)
            | inl same ↦
                (not_among m d (ap (λ (x : Name). has x d) (same_name_eq m n same) ∙ new)).1
          ])
  ]

  -- The loop of `__setstate__`, once it comes to the serializations.
  pub rebuild-serials :
      (d before done : Attributes (Value F Other))
      → IsObject d
      → IsObject before
      → ((n : Name) → has n (objects files store d) ≡ true → has n before ≡ false)
      → ((n : Name) → has n (objects files store d) ≡ true → has n done ≡ false)
      → (st : F.KeyStore)
      → (st' : F.KeyStore) × (rebuild files
            (serials files store d)
            (before ++ (serials files store d ++ done))
            st
          ≡ (ok (before ++ (done ++ objects files store d)), st'))
  unfolding rebuild
  rebuild-serials [] before done h b other_before other_done st =
      (st, ap (λ (x : Attributes (Value F Other)). (ok (before ++ x), st)) (sym (append-nil done)))
  rebuild-serials ((n, v) ∷ d) before done (new, plain_name, rest) b other_before other_done st =
      elim (restore_cases v) [
        | inl p ↦
            rw (p, serials, objects)
              (rebuild-serials d before done rest b
                (λ m there. other_before m (rw (p, objects) there))
                (λ m there. other_done m (rw (p, objects) there)) st)
        | inr (k, s, p, read) ↦
            let (st₁, e) = read st in
            let Entries : Type 0 = Attributes (Value F Other) in
            let pn = prefix_of k ++ n in
            let later : (m : Name)
                → has m (objects files store d) ≡ true
                → has m (objects files store ((n, v) ∷ d)) ≡ true =
              λ m there. rw (p, objects) (ground (arith, there)) in
            let here : has n (objects files store ((n, v) ∷ d)) ≡ true =
              rw (p, objects, same_name_refl n) refl in
            let serial : has n ((pn, s) ∷ serials files store d) ≡ false =
              rw (p, serials) at (no_serial n ((n, v) ∷ d) plain_name) in
            let free : has n (before ++ (pn, s) ∷ (serials files store d ++ done)) ≡ false =
              has-append n before _
              ∙ ground (
                arith,
                other_before n here,
                serial,
                other_done n here,
                has-append n (serials files store d) done,
              ) in
            let (st₂, run) =
              rebuild-serials d before (done ++ (n, v) ∷ []) rest b
                (λ m there. other_before m (later m there))
                (λ m there.
                  has-append m done _
                  ∙ ground (
                    arith,
                    other_done m (later m there),
                    other_name m n d (object_there m d there) new,
                  ))
                st₁ in
            (
              st₂,
              rw (p, serials, objects)
                  (rebuild-one k n v s st st₁ (serials files store d) before (serials files store d)
                      done e free (no_prefixed k pn before (type_of-prefixed k n) b)
                    ∙ run
                    ∙ ap (λ (x : Entries). (ok (before ++ x), st₂)) (append_assoc done _ _)),
            )
      ]
