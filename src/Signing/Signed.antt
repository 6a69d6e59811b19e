-- ===== src/Signing/Signed.antt =====
-- Which signatures are valid.
use private_billings.Prelude.{ℕ, ◌≡◌, refl, sym, ap, ◌∙◌, Bool, true, false, inl, inr, arith}
use private_billings.Python.Raises.{Result, ok, err, result_cases}
use private_billings.Signing.{
  Bytes, Encoding, pem, open_ssh, der, other_encoding, PublicFormat, Crypto, TransferablePublicKey,
  Signable, Signer, get_transferable_public_key, new_transferable, load, sign, verify,
  verify_signature,
}

-- What is relied on of cryptography: a key is loaded from its bytes, in each of the three encodings, and a
-- signature of a digest is valid for it under the public key of the signer.
pub record IsCrypto (c : Crypto) : Type 0 where
  pub load_pem_bytes :
      (k : c.PublicKey) (format : PublicFormat) (b : Bytes)
      → c.public_bytes k pem format ≡ ok b
      → c.load_pem_public_key b ≡ ok k
  pub load_ssh_bytes :
      (k : c.PublicKey) (format : PublicFormat) (b : Bytes)
      → c.public_bytes k open_ssh format ≡ ok b
      → c.load_ssh_public_key b ≡ ok k
  pub load_der_bytes :
      (k : c.PublicKey) (format : PublicFormat) (b : Bytes)
      → c.public_bytes k der format ≡ ok b
      → c.load_der_public_key b ≡ ok k
  pub verify_signed :
      (k : c.PrivateKey) (random : ℕ) (digest : Bytes) (hash_alg : c.HashAlgorithm)
      → c.verify (c.public_key k) (c.sign k random digest hash_alg) digest hash_alg ≡ ok tt

-- The encodings from which a key can be loaded.
abbrev pub is_loadable : Encoding → Bool
is_loadable pem = true
is_loadable open_ssh = true
is_loadable der = true
is_loadable other_encoding = false

module _ (c : Crypto) (laws : IsCrypto c) where
  pub verify_bytes-sign :
      (k : c.PrivateKey) (encoding : Encoding) (format : PublicFormat) (b : Bytes) (random : ℕ)
      → (obj : Signable c) (hash_alg : c.HashAlgorithm)
      → c.public_bytes (c.public_key k) encoding format ≡ ok b
      → verify_signature c
          (record { public_key_bytes = b; encoding = encoding; format = format })
          obj
          (sign c k random obj hash_alg)
        ≡ is_loadable encoding
  unfolding verify_signature verify load sign
  verify_bytes-sign k pem format b random obj hash_alg e =
      rw (laws.load_pem_bytes (c.public_key k) format b e, laws.verify_signed k random _ hash_alg)
        refl
  verify_bytes-sign k open_ssh format b random obj hash_alg e =
      rw (laws.load_ssh_bytes (c.public_key k) format b e, laws.verify_signed k random _ hash_alg)
        refl
  verify_bytes-sign k der format b random obj hash_alg e =
      rw (laws.load_der_bytes (c.public_key k) format b e, laws.verify_signed k random _ hash_alg)
        refl
  verify_bytes-sign k other_encoding format b random obj hash_alg e = refl

  -- If the public key of a signer can be made transferable, then what the signer signs, bytes or an object,
  -- with any hash algorithm, has a valid signature under that key exactly if its encoding is one of those
  -- from which a key can be loaded; for the others, the check fails and raises nothing.
  pub verify_signature-sign :
      (signer : Signer c) (encoding : Encoding) (format : PublicFormat) (pk : TransferablePublicKey)
      → (random : ℕ) (obj : Signable c) (hash_alg : c.HashAlgorithm)
      → get_transferable_public_key c signer encoding format ≡ ok pk
      → verify_signature c pk obj (sign c signer.private_key random obj hash_alg)
        ≡ is_loadable encoding
  unfolding get_transferable_public_key new_transferable
  verify_signature-sign signer encoding format pk random obj hash_alg made =
      elim (result_cases (c.public_bytes (c.public_key signer.private_key) encoding format)) [
        | inr (x, raised) ↦
            let failed : err x ≡ ok pk =
              rw (get_transferable_public_key, new_transferable, raised) at made in
            absurd (ground (arith, failed))
        | inl (b, e) ↦
            let same : ok (record { public_key_bytes = b; encoding = encoding; format = format })
                ≡ ok pk =
              rw (get_transferable_public_key, new_transferable, e) at made in
            ap
              (λ (r : Result TransferablePublicKey).
                verify_signature c (elim r [ ok p ↦ p | err x ↦ pk ]) obj
                  (sign c signer.private_key random obj hash_alg))
              (sym same)
            ∙ verify_bytes-sign signer.private_key encoding format b random obj hash_alg e
      ]
