-- ===== src/Hiding/Keys.antt =====
-- `activate_keys`, the work-around for keys that replace one another.
use private_billings.Prelude.{ℕ, ◌≡◌, inl, inr, some, List, length, ltb, arith, Bool-cases}
use private_billings.Python.Raises.{ok}
use private_billings.Number.{Number}
use private_billings.Hiding.Openfhe.{Fhe}
use private_billings.Hiding.Laws.{IsHomomorphic}
use private_billings.Hiding.{PublicHidingContext, activate_keys}

module _ {N : Type 0} ⦃n : Number N⦄ {F : Fhe N} (laws : IsHomomorphic F) where
  open laws use {HasKey, IsKeyOf, serialized_key, deserialized_key}

  -- A context as it is after it was received: it holds the bytes of its relinearization key.
  abbrev pub IsReceived : PublicHidingContext F → Type 0
  IsReceived phc =
      (bytes : List ℕ) × (phc.relinearization_key_bytes ≡ some bytes)
      × IsKeyOf bytes phc.cc phc.public_key

  -- On a context that was received `activate_keys` raises nothing, and after it the store has the key of
  -- the context, whatever keys the store had before.
  pub activate_keys-HasKey :
      (phc : PublicHidingContext F) (store : F.KeyStore)
      → IsReceived phc
      → (store' : F.KeyStore) × (activate_keys phc store ≡ (ok tt, store'))
        × HasKey store' phc.public_key
  unfolding activate_keys
  activate_keys-HasKey phc store (bytes, e, key) =
      elim (Bool-cases
        (ltb (length (F.serialize_eval_mult_key phc.cc store (F.key_tag phc.public_key))) 1000)) [
          | inl short ↦ (
            F.deserialize_eval_mult_key phc.cc bytes store,
            rw (short, e),
            deserialized_key phc.cc store phc.public_key bytes key,
          )
          | inr long ↦ (store, rw long, serialized_key phc.cc store phc.public_key (ground arith))
        ]
