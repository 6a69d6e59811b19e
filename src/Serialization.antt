-- ===== src/Serialization.antt =====
-- src/private_billing/core/serialize.py: the state of an object that holds OpenFHE objects, for pickle.
pub mod Names
pub mod State
pub mod RoundTrip
pub mod Restored
use private_billings.Prelude.{
  ℕ, Option, none, some, List, [], ◌∷◌, ◌++◌, take, length, ◌==◌, if◌then◌else◌,
}
use private_billings.Python.Raises.{Result, ok, err, type_error, value_error}
use private_billings.Python.Action.{Action, lift, pure, ◌>>=◌}
use private_billings.Hiding.Openfhe.{Fhe}
use Names.{Name, same_name, Attributes, set_attribute, delete_attribute}

abbrev pub Bytes : Type 0
Bytes = List ℕ

-- `DeserializationOption`
pub data DeserializationOption : Type 0 where
  ciphertext public_key crypto_context : DeserializationOption

-- What OpenFHE writes to a file and reads from one. The keys of a context are those of the process. The
-- result of a deserialization that says whether it went well is ignored.
pub record Files {N : Type 0} (F : Fhe N) : Type 0 where
  pub write_ciphertext : F.Ciphertext → Bytes
  pub write_public_key : F.PublicKey → Bytes
  pub write_context : F.CryptoContext → Bytes
  pub write_relinearization_keys : F.CryptoContext → F.KeyStore → Bytes
  pub write_rotation_keys : F.CryptoContext → F.KeyStore → Bytes
  pub read_ciphertext : Bytes → F.Ciphertext
  pub read_public_key : Bytes → F.PublicKey
  pub read_context : Bytes → F.CryptoContext
  pub read_relinearization_keys : F.CryptoContext → Bytes → F.KeyStore → F.KeyStore
  pub read_rotation_keys : F.CryptoContext → Bytes → F.KeyStore → F.KeyStore

-- The value of an attribute: an OpenFHE object, what `serialize` makes of one, or anything else.
pub data Value {N : Type 0} (F : Fhe N) (Other : Type 0) : Type 0 where
  ciphertext_value : F.Ciphertext → Value F Other
  public_key_value : F.PublicKey → Value F Other
  context_value : F.CryptoContext → Value F Other
  bytes_value : Bytes → Value F Other
  context_bytes : Bytes → Bytes → Bytes → Value F Other
  other_value : Other → Value F Other

-- `TYPE_TO_PREFIX`: "__ct__", "__pk__" and "__cc__"
abbrev pub prefix_of : DeserializationOption → Name
prefix_of ciphertext = 95 ∷ 95 ∷ 99 ∷ 116 ∷ 95 ∷ 95 ∷ []
prefix_of public_key = 95 ∷ 95 ∷ 112 ∷ 107 ∷ 95 ∷ 95 ∷ []
prefix_of crypto_context = 95 ∷ 95 ∷ 99 ∷ 99 ∷ 95 ∷ 95 ∷ []

-- `PREFIX_TO_TYPE`, on the first six characters of a name
unfoldable pub type_of : Name → Option DeserializationOption
type_of name =
    let prefix = take 6 name in
    if same_name prefix (prefix_of ciphertext)
    then some ciphertext
    else if same_name prefix (prefix_of public_key)
    then some public_key
    else if same_name prefix (prefix_of crypto_context)
    then some crypto_context
    else none

-- `prefixed_name[6:]`
abbrev pub without_prefix : Name → Name
without_prefix (a ∷ b ∷ c ∷ d ∷ e ∷ f ∷ name) = name
without_prefix name = []

module _ {N : Type 0} {F : Fhe N} {Other : Type 0} (files : Files F) where
  -- `OpenFHESerializer.serialize`, for the values that it is called on, with the prefix of their type
  unfoldable pub serialize : F.KeyStore → Value F Other → Option (Name × Value F Other)
  serialize store (ciphertext_value c) =
      some (prefix_of ciphertext, bytes_value (files.write_ciphertext c))
  serialize store (public_key_value pk) =
      some (prefix_of public_key, bytes_value (files.write_public_key pk))
  serialize store (context_value cc) = some (
    prefix_of crypto_context,
    context_bytes (files.write_context cc) (files.write_relinearization_keys cc store)
        (files.write_rotation_keys cc store),
  )
  serialize store (bytes_value b) = none
  serialize store (context_bytes a b c) = none
  serialize store (other_value o) = none

  -- The loop of `__getstate__`: the attributes with the serializations, and the names to remove.
  unfoldable pub store_serialized :
      F.KeyStore
      → Attributes (Value F Other)
      → Attributes (Value F Other)
      → Attributes (Value F Other) × List Name
  store_serialized store [] d = (d, [])
  store_serialized store ((name, val) ∷ items) d = elim (serialize store val) [
    | none ↦ store_serialized store items d
    | some (prefix, serialized) ↦
        let (d', to_remove) =
          store_serialized store items (set_attribute (prefix ++ name) serialized d) in
        (d', name ∷ to_remove)
  ]

  unfoldable pub remove_names :
      List Name → Attributes (Value F Other) → Result (Attributes (Value F Other))
  remove_names [] d = ok d
  remove_names (name ∷ names) d = elim (delete_attribute name d) [
    | err x ↦ err x
    | ok d' ↦ remove_names names d'
  ]

  -- `__getstate__`: the state, and the attributes of the object, which keeps the serializations.
  unfoldable pub get_state :
      F.KeyStore
      → Attributes (Value F Other)
      → Result (Attributes (Value F Other)) × Attributes (Value F Other)
  get_state store d =
      let (d', to_remove) = store_serialized store d d in (remove_names to_remove d', d')

  -- `OpenFHEDeserializer.deserialize`; to read a context also loads its keys. What is not bytes cannot be
  -- written to a file, and bytes are no three values unless there are three of them.
  unfoldable pub deserialize :
      DeserializationOption → Value F Other → Action F.KeyStore (Value F Other)
  deserialize ciphertext (bytes_value b) store =
      (ok (ciphertext_value (files.read_ciphertext b)), store)
  deserialize public_key (bytes_value b) store =
      (ok (public_key_value (files.read_public_key b)), store)
  deserialize crypto_context (context_bytes a b c) store =
      let cc = files.read_context a in
      (
        ok (context_value cc),
        files.read_rotation_keys cc c (files.read_relinearization_keys cc b store),
      )
  deserialize crypto_context (bytes_value b) store =
      (err (if length b == 3 then type_error else value_error), store)
  deserialize type val store = (err type_error, store)

  -- The loop of `__setstate__`.
  unfoldable pub rebuild :
      Attributes (Value F Other)
      → Attributes (Value F Other)
      → Action F.KeyStore (Attributes (Value F Other))
  rebuild [] d = pure d
  rebuild ((name, val) ∷ items) d = elim (type_of name) [
    | none ↦ rebuild items d
    | some type ↦ deserialize type val >>= λ rebuilt.
        lift (delete_attribute name (set_attribute (without_prefix name) rebuilt d)) >>= λ d'.
        rebuild items d'
  ]

  -- `__setstate__`
  unfoldable pub set_state :
      Attributes (Value F Other) → Action F.KeyStore (Attributes (Value F Other))
  unfolding rebuild
  set_state state = rebuild state state
