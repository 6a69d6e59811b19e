-- ===== src/Hiding/Laws.antt =====
-- What is relied on of OpenFHE: CKKS is homomorphic up to a multiplicative depth, and its noise does
-- not reach the fifth digit, to which the program rounds.
use private_billings.Prelude.{ℕ, suc, max, ◌<◌, ◌≤◌, ◌≡◌, List, map, length, zip_with}
use private_billings.Python.Raises.{ok}
use private_billings.Number.{Number}
use private_billings.Hiding.Openfhe.{Fhe}

pub record IsHomomorphic {N : Type 0} ⦃n : Number N⦄ (F : Fhe N) : Type 1 where
  -- The keys belong together.
  pub IsKeyPair : F.CryptoContext → F.PublicKey → F.SecretKey → Type 0
  -- `Carries cc pk level ct v`: under the keys of `pk` the ciphertext carries the values `v`, after
  -- `level` multiplications one after the other.
  pub Carries : F.CryptoContext → F.PublicKey → ℕ → F.Ciphertext → List N → Type 0
  -- The multiplicative depth of the parameters of the context.
  pub depth : F.CryptoContext → ℕ
  -- The store has the relinearization key of a public key; some bytes are that key.
  pub HasKey : F.KeyStore → F.PublicKey → Type 0
  pub IsKeyOf : List ℕ → F.CryptoContext → F.PublicKey → Type 0
  pub encrypt_carries :
      (cc : F.CryptoContext) (pk : F.PublicKey) (v : List N)
      → length v ≤ F.batch_size cc
      → Carries cc pk 0 (F.encrypt cc pk (F.make_packed_plaintext cc v)) v
  pub eval_add_carries :
      (cc : F.CryptoContext) (pk : F.PublicKey) (i j : ℕ) (a b : F.Ciphertext) (u v : List N)
      → length u ≡ length v
      → Carries cc pk i a u
      → Carries cc pk j b v
      → Carries cc pk (max i j) (F.eval_add a b) (zip_with n.add u v)
  pub eval_sub_carries :
      (cc : F.CryptoContext) (pk : F.PublicKey) (j : ℕ) (b : F.Ciphertext) (u v : List N)
      → length u ≡ length v
      → Carries cc pk j b v
      → Carries cc pk j (F.eval_sub cc (F.make_packed_plaintext cc u) b) (zip_with n.sub u v)
  pub eval_mult_plain_carries :
      (cc : F.CryptoContext) (pk : F.PublicKey) (i : ℕ) (a : F.Ciphertext) (u v : List N)
      → length u ≡ length v
      → i < depth cc
      → Carries cc pk i a u
      → Carries cc pk
          (suc i)
          (F.eval_mult_plain cc a (F.make_packed_plaintext cc v))
          (zip_with n.mul u v)
  pub eval_mult_carries :
      (cc : F.CryptoContext) (pk : F.PublicKey) (store : F.KeyStore) (i j : ℕ)
      → (a b : F.Ciphertext) (u v : List N) → length u ≡ length v
      → max i j < depth cc
      → HasKey store pk
      → Carries cc pk i a u
      → Carries cc pk j b v
      → (c : F.Ciphertext) × (F.eval_mult cc store a b ≡ ok c)
        × Carries cc pk (suc (max i j)) c (zip_with n.mul u v)
  pub decrypt_rounded :
      (cc : F.CryptoContext) (pk : F.PublicKey) (sk : F.SecretKey) (i : ℕ) (ct : F.Ciphertext)
      → (v : List N) → IsKeyPair cc pk sk
      → Carries cc pk i ct v
      → map (λ x. n.round x 5) (F.real_packed_value (F.set_length (F.decrypt cc ct sk) (length v)))
        ≡ map (λ x. n.round x 5) v
  -- A serialized key takes at least 1000 bytes, and without the key there are fewer.
  pub serialized_key :
      (cc : F.CryptoContext) (store : F.KeyStore) (pk : F.PublicKey)
      → 1000 ≤ length (F.serialize_eval_mult_key cc store (F.key_tag pk))
      → HasKey store pk
  pub deserialized_key :
      (cc : F.CryptoContext) (store : F.KeyStore) (pk : F.PublicKey) (bytes : List ℕ)
      → IsKeyOf bytes cc pk
      → HasKey (F.deserialize_eval_mult_key cc bytes store) pk
