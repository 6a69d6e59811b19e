-- ===== src/Network/Sending/Delivered.antt =====
-- A signed message from one server to another.
use private_billings.Prelude.{ℕ, ◌≡◌, refl, true, some, [], ◌∷◌, Bool-cases, inl, inr}
use private_billings.Python.Raises.{Result, ok}
use private_billings.Python.Dict.{Dict}
use private_billings.Signing.{pem, subject_public_key_info, Crypto, bytes, sign}
use private_billings.Signing.Signed.{IsCrypto, verify_bytes-sign}
use private_billings.Network.{NodeInfo, get_node_info}
use private_billings.Network.Dispatch.{
  Bytes, Message, Handler, Handlers, handler_of, is_signed_by, verify_signature, dispatch,
  handle_message,
}
use private_billings.Network.Verified.{started}
use private_billings.Network.Sending.{sign_msg, has_valid_signature}

module _ {Content : Type 0} (c : Crypto) (laws : IsCrypto c) (encode : Message Content → Bytes)
    (decode : Bytes → Result (Message Content)) (members : Dict NodeInfo) where
  -- A message that is signed starts its handler.
  dispatch-signed :
      (h : Handler) (msg : Message Content)
      → (started ((dispatch decode (has_valid_signature c) members h msg true).0)
          ≡ (h, msg, get_node_info msg.reply_address members) ∷ [])
        × ((dispatch decode (has_valid_signature c) members h msg true).1 ≡ ok tt)
  unfolding dispatch
  dispatch-signed h msg = elim (Bool-cases h.require_verification) [
    | inl e ↦ elim (Bool-cases h.replies) [
      | inl r ↦ rw (dispatch, e, r) (refl, refl)
      | inr r ↦ rw (dispatch, e, r) (refl, refl)
    ]
    | inr e ↦ elim (Bool-cases h.replies) [
      | inl r ↦ rw (dispatch, e, r) (refl, refl)
      | inr r ↦ rw (dispatch, e, r) (refl, refl)
    ]
  ]

  -- If the encoder decodes the message that it has encoded, and the receiver knows the node at the reply
  -- address with the public key of the sender, then a message that the sender has signed passes the check of
  -- signatures: nothing is raised, and exactly one handler is started, the one for the type of the message,
  -- with the message and that node, whether the handler needs verification or not.
  pub handle_message-sign_msg :
      (handlers : Handlers) (k : c.PrivateKey) (random : ℕ) (msg : Message Content) (b : Bytes)
      → decode (encode msg) ≡ ok msg
      → c.public_bytes (c.public_key k) pem subject_public_key_info ≡ ok b
      → (get_node_info msg.reply_address members).pk ≡ some b
      → (started (
            (handle_message decode
              (has_valid_signature c)
              members
              handlers
              (sign_msg c encode k random msg)).0)
          ≡ (handler_of handlers msg.type, msg, get_node_info msg.reply_address members) ∷ [])
        × ((handle_message decode
              (has_valid_signature c)
              members
              handlers
              (sign_msg c encode k random msg)).1
            ≡ ok tt)
  unfolding handle_message verify_signature sign_msg has_valid_signature sign
  handle_message-sign_msg handlers k random msg b decoded made known =
      let valid : is_signed_by decode (has_valid_signature c) members
            (get_node_info msg.reply_address members) (encode msg)
            (sign c k random (bytes (encode msg)) c.sha256).signature
          ≡ true =
        rw (is_signed_by, known)
          (verify_bytes-sign c laws k pem subject_public_key_info b random (bytes (encode msg))
            c.sha256 made) in
      rw (handle_message, decoded, valid) (dispatch-signed (handler_of handlers msg.type) msg)
