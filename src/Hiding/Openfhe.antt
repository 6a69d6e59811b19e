-- ===== src/Hiding/Openfhe.antt =====
-- The part of OpenFHE that src/private_billing/core calls, as a parameter.
use private_billings.Prelude.{ℕ, List}
use private_billings.Python.Raises.{Result}

pub record Fhe (N : Type 0) : Type 1 where
  pub CryptoContext : Type 0
  pub PublicKey : Type 0
  pub SecretKey : Type 0
  pub Plaintext : Type 0
  pub Ciphertext : Type 0
  -- The relinearization keys that the process has loaded.
  pub KeyStore : Type 0
  -- How many values a plaintext of the context has room for; more cannot be packed.
  pub batch_size : CryptoContext → ℕ
  pub make_packed_plaintext : CryptoContext → List N → Plaintext
  pub encrypt : CryptoContext → PublicKey → Plaintext → Ciphertext
  pub decrypt : CryptoContext → Ciphertext → SecretKey → Plaintext
  pub set_length : Plaintext → ℕ → Plaintext
  pub real_packed_value : Plaintext → List N
  pub eval_sub : CryptoContext → Plaintext → Ciphertext → Ciphertext
  pub eval_mult_plain : CryptoContext → Ciphertext → Plaintext → Ciphertext
  pub eval_mult : CryptoContext → KeyStore → Ciphertext → Ciphertext → Result Ciphertext
  -- `+` on ciphertexts
  pub eval_add : Ciphertext → Ciphertext → Ciphertext
  pub key_tag : PublicKey → ℕ
  pub serialize_eval_mult_key : CryptoContext → KeyStore → ℕ → List ℕ
  pub deserialize_eval_mult_key : CryptoContext → List ℕ → KeyStore → KeyStore
