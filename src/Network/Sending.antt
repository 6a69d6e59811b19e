-- ===== src/Network/Sending.antt =====
-- `send`, `sign_msg` and `broadcast` of src/private_billing/network.py: what is put on the connection to a
-- target. The encoder is a parameter, and the connection itself does not fail.
pub mod Delivered
use private_billings.Prelude.{ℕ, Bool, List, [], ◌∷◌, ◌++◌, map, if◌then◌else◌}
use private_billings.Signing.{pem, subject_public_key_info, Crypto, bytes, sign, verify_signature}
use private_billings.Network.{Address, NodeInfo}
use private_billings.Network.Dispatch.{Bytes, Message, Incoming, signed, unsigned}

module _ {Content : Type 0} (c : Crypto) (encode : Message Content → Bytes) where
  -- With SHA-256, the default; `random` is the number that ECDSA draws.
  unfoldable pub sign_msg : c.PrivateKey → ℕ → Message Content → Incoming Content
  sign_msg private_key random msg =
      let encoded = encode msg in
      let sig = sign c private_key random (bytes encoded) c.sha256 in signed encoded sig.signature

  unfoldable pub send :
      c.PrivateKey
      → ℕ
      → Bool
      → Message Content
      → Address
      → List (Address × Incoming Content)
      → List (Address × Incoming Content)
  unfolding sign_msg
  send private_key random must_sign msg target sent =
      sent ++ (target, if must_sign then sign_msg private_key random msg else unsigned msg) ∷ []

  -- Each of the targets is sent the message, signed anew.
  unfoldable pub broadcast :
      c.PrivateKey
      → (Address → ℕ)
      → Message Content
      → List NodeInfo
      → List (Address × Incoming Content)
      → List (Address × Incoming Content)
  unfolding sign_msg
  broadcast private_key random msg [] sent = sent
  broadcast private_key random msg (x ∷ targets) sent =
      broadcast private_key random msg targets
        (sent ++ (x.address, sign_msg private_key (random x.address) msg) ∷ [])

-- A signature under a key that came with a connect message, in the encoding that every server uses.
unfoldable pub has_valid_signature : Crypto → Bytes → Bytes → Bytes → Bool
has_valid_signature c public_key_bytes message signature =
    verify_signature c
      (record {
        public_key_bytes = public_key_bytes;
        encoding = pem;
        format = subject_public_key_info;
      })
      (bytes message) (record { signature = signature; hash_alg = c.sha256 })
