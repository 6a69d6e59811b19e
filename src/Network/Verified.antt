-- ===== src/Network/Verified.antt =====
-- Which messages reach a handler.
use private_billings.Prelude.{
  ◌≡◌, refl, sym, Bool, true, false, not, ◌&&◌, some, Option-cases, List, [], ◌∷◌, All, ◌⊎◌, inl,
  inr, Bool-cases, arith, if◌then◌else◌,
}
use mathlib.Core.Path.{subst}
use private_billings.Python.Raises.{Exc, Result, ok, err, result_cases}
use private_billings.Python.Dict.{Dict}
use private_billings.Network.{NodeInfo, get_node_info}
use private_billings.Network.Dispatch.{
  Bytes, Message, Incoming, signed, unsigned, Handler, Handlers, Effect, empty_reply, executed,
  scheduled, handler_of, is_signed_by, verify_signature, dispatch, handle_message,
}

-- The handlers that some effects start, each with its message and the node that it is told sent it.
abbrev pub started :
    {Content : Type 0} → List (Effect Content) → List (Handler × Message Content × NodeInfo)
started [] = []
started (empty_reply ∷ effects) = started effects
started (executed h msg origin ∷ effects) = (h, msg, origin) ∷ started effects
started (scheduled h msg origin ∷ effects) = (h, msg, origin) ∷ started effects

either :
    {Content : Type 0} (P : Handler × Message Content × NodeInfo → Type 0) (b : Bool)
    (x y : List (Effect Content) × Result (Unit {0}))
    → All P (started (x.0))
    → All P (started (y.0))
    → All P (started ((if b then x else y).0))
either P true x y p q = p
either P false x y p q = q

module _ {Content : Type 0} (decode : Bytes → Result (Message Content))
    (has_signed : Bytes → Bytes → Bytes → Bool) (network_members : Dict NodeInfo) where
  -- The message is what the bytes that arrived stand for, and the node has signed the bytes.
  abbrev pub IsVerified : Incoming Content → Message Content → NodeInfo → Type 0
  IsVerified (unsigned m) msg origin = ⊥
  IsVerified (signed message signature) msg origin =
      (pk : Bytes) × (decode message ≡ ok msg)
      × (origin.pk ≡ some pk)
      × (has_signed pk message signature ≡ true)

  -- A handler that was started is the one for the type of the message, it is told the node at the reply
  -- address, and it needs no verification or the node has signed the message.
  abbrev pub IsDue : Handlers → Incoming Content → Handler × Message Content × NodeInfo → Type 0
  IsDue handlers incoming (h, msg, origin) =
      (h ≡ handler_of handlers msg.type)
      × (origin ≡ get_node_info msg.reply_address network_members)
      × ((h.require_verification ≡ false) ⊎ IsVerified incoming msg origin)

  dispatch-IsDue :
      (handlers : Handlers) (incoming : Incoming Content) (msg : Message Content) (valid : Bool)
      (h : Handler)
      → h ≡ handler_of handlers msg.type
      → ((valid ≡ false)
          ⊎ IsVerified incoming msg (get_node_info msg.reply_address network_members))
      → All
          (IsDue handlers incoming)
          (started ((dispatch decode has_signed network_members h msg valid).0))
  unfolding dispatch
  dispatch-IsDue handlers incoming msg valid h same v =
      elim (Bool-cases (h.require_verification && not valid)) [
        | inl refused ↦ rw refused tt
        | inr due ↦
            let why : (h.require_verification ≡ false)
                ⊎ IsVerified incoming msg (get_node_info msg.reply_address network_members) =
              reason h.require_verification valid due v in
            rw due (
              either (IsDue handlers incoming) h.replies _ _ ((same, refl, why), tt)
                ((same, refl, why), tt))
      ]
    where
      reason :
          {V : Type 0} (r valid : Bool)
          → (r && not valid) ≡ false
          → ((valid ≡ false) ⊎ V)
          → (r ≡ false) ⊎ V
      reason false valid due v = inl refl
      reason true true due (inl e) = absurd (ground arith)
      reason true true due (inr v) = inr v
      reason true false due v = absurd (ground arith)

  signer :
      (origin : NodeInfo) (message signature : Bytes)
      → (is_signed_by decode has_signed network_members origin message signature ≡ false)
        ⊎ ((pk : Bytes) × (origin.pk ≡ some pk) × (has_signed pk message signature ≡ true))
  signer origin message signature = elim (Option-cases origin.pk) [
    | inl none_known ↦ inl (rw none_known)
    | inr (pk, known) ↦ elim (Bool-cases (has_signed pk message signature)) [
      | inl good ↦ inr (pk, known, good)
      | inr bad ↦ inl (rw (known, bad))
    ]
  ]

  verified :
      (message signature : Bytes) (msg : Message Content)
      → decode message ≡ ok msg
      → verify_signature decode has_signed network_members (signed message signature)
        ≡ ok (
          msg,
          is_signed_by decode has_signed network_members
              (get_node_info msg.reply_address network_members)
              message
              signature,
        )
  unfolding verify_signature
  verified message signature msg decoded = rw (verify_signature, decoded)

  undecoded :
      (message signature : Bytes) (x : Exc)
      → decode message ≡ err x
      → verify_signature decode has_signed network_members (signed message signature) ≡ err x
  unfolding verify_signature
  undecoded message signature x raised = rw (verify_signature, raised)

  handled :
      (handlers : Handlers) (incoming : Incoming Content) (msg : Message Content) (valid : Bool)
      → verify_signature decode has_signed network_members incoming ≡ ok (msg, valid)
      → handle_message decode has_signed network_members handlers incoming
        ≡ dispatch decode has_signed network_members (handler_of handlers msg.type) msg valid
  unfolding handle_message
  handled handlers incoming msg valid e = rw (handle_message, e)

  unhandled :
      (handlers : Handlers) (incoming : Incoming Content) (x : Exc)
      → verify_signature decode has_signed network_members incoming ≡ err x
      → handle_message decode has_signed network_members handlers incoming ≡ ([], err x)
  unfolding handle_message
  unhandled handlers incoming x e = rw (handle_message, e)

  -- Whatever arrives, signed or not, each handler that is started is the one for the type of the message,
  -- it is told the node that is known at the reply address, and if it needs verification then the message
  -- came signed, and its bytes have a valid signature under the key that is known of that node.
  pub handle_message-IsDue :
      (handlers : Handlers) (incoming : Incoming Content)
      → All
          (IsDue handlers incoming)
          (started ((handle_message decode has_signed network_members handlers incoming).0))
  unfolding handle_message verify_signature
  handle_message-IsDue handlers (unsigned msg) =
      dispatch-IsDue handlers (unsigned msg) msg false (handler_of handlers msg.type) refl
        (inl refl)
  handle_message-IsDue handlers (signed message signature) =
      let AllDue : List (Effect Content) × Result (Unit {0}) → Type 0 =
        λ r. All (IsDue handlers (signed message signature)) (started (r.0)) in
      elim (result_cases (decode message)) [
        | inr (x, raised) ↦
            subst AllDue
              (sym (
                unhandled handlers (signed message signature) x
                  (undecoded message signature x raised)))
              tt
        | inl (msg, decoded) ↦
            let origin = get_node_info msg.reply_address network_members in
            let valid = is_signed_by decode has_signed network_members origin message signature in
            subst AllDue
              (sym (
                handled handlers (signed message signature) msg valid
                  (verified message signature msg decoded)))
              (dispatch-IsDue handlers (signed message signature) msg valid
                (handler_of handlers msg.type) refl
                (with_bytes msg origin (signer origin message signature) decoded))
      ]
    where
      with_bytes :
          (msg : Message Content) (origin : NodeInfo) {b : Bool}
          → ((b ≡ false)
              ⊎ ((pk : Bytes) × (origin.pk ≡ some pk) × (has_signed pk message signature ≡ true)))
          → decode message ≡ ok msg
          → (b ≡ false) ⊎ IsVerified (signed message signature) msg origin
      with_bytes msg origin (inl e) decoded = inl e
      with_bytes msg origin (inr (pk, known, good)) decoded = inr (pk, decoded, known, good)
