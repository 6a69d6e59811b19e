-- ===== src/Network/Dispatch.antt =====
-- `_handle` of src/private_billing/network.py: how a message that arrives is checked and given to its
-- handler. The encoder and the check of signatures are parameters; a handler is known by the marks that
-- its decorators leave.
use private_billings.Prelude.{
  ℕ, Bool, true, false, not, ◌&&◌, Option, none, some, List, [], ◌∷◌, if◌then◌else◌,
}
use private_billings.Python.Raises.{Result, ok, err, no_valid_signature}
use private_billings.Python.Dict.{Dict}
use private_billings.Network.{Address, NodeInfo, get_node_info}

abbrev pub Bytes : Type 0
Bytes = List ℕ

-- `BillingMessageType`
pub data MessageType : Type 0 where
  connect seed data_type hidden_data get_bill bill hidden_bill cycle_context get_cycle_context :
      MessageType

-- What dispatch reads of a message.
pub record Message (Content : Type 0) : Type 0 where
  pub reply_address : Address
  pub type : MessageType
  pub content : Content

-- What arrives: a `SignedMessage`, with its message still encoded, or any other.
pub data Incoming (Content : Type 0) : Type 0 where
  signed : Bytes → Bytes → Incoming Content
  unsigned : Message Content → Incoming Content

-- `no_verification_required` and `replies` mark a handler.
pub record Handler : Type 0 where
  pub require_verification : Bool
  pub replies : Bool

module _ (Content : Type 0) where
  -- What `_handle` does: an empty reply, a handler that runs at once, or one that is given to the pool.
  pub data Effect : Type 0 where
    empty_reply : Effect
    executed scheduled : Handler → Message Content → NodeInfo → Effect

-- The handlers of a kind of server by the type of the message.
abbrev pub Handlers : Type 0
Handlers = MessageType → Option Handler

-- `_fallback_handler`
unfoldable pub fallback_handler : Handler
fallback_handler = record { require_verification = false; replies = false }

-- `self.handlers.get(msg.type, self._fallback_handler)`
unfoldable pub handler_of : Handlers → MessageType → Handler
handler_of handlers t = elim (handlers t) [ none ↦ fallback_handler | some h ↦ h ]

module _ {Content : Type 0} (decode : Bytes → Result (Message Content))
    (has_signed : Bytes → Bytes → Bytes → Bool) (network_members : Dict NodeInfo) where
  -- `origin.pk and origin.pk.verify_signature(...)`
  abbrev pub is_signed_by : NodeInfo → Bytes → Bytes → Bool
  is_signed_by origin message signature = elim origin.pk [
    | none ↦ false
    | some pk ↦ has_signed pk message signature
  ]

  unfoldable pub verify_signature : Incoming Content → Result (Message Content × Bool)
  verify_signature (unsigned msg) = ok (msg, false)
  verify_signature (signed message signature) = elim (decode message) [
    | err x ↦ err x
    | ok msg ↦
        ok (msg, is_signed_by (get_node_info msg.reply_address network_members) message signature)
  ]

  -- With an error, the effects are those before it.
  unfoldable pub dispatch :
      Handler → Message Content → Bool → List (Effect Content) × Result (Unit {0})
  dispatch h msg has_valid_signature =
      let origin = get_node_info msg.reply_address network_members in
      if h.require_verification && not has_valid_signature
      then (empty_reply ∷ [], err no_valid_signature)
      else if h.replies
      then (executed h msg origin ∷ [], ok tt)
      else (empty_reply ∷ scheduled h msg origin ∷ [], ok tt)

  -- `_handle`
  unfoldable pub handle_message :
      Handlers → Incoming Content → List (Effect Content) × Result (Unit {0})
  unfolding dispatch
  handle_message handlers incoming = elim (verify_signature incoming) [
    | err x ↦ ([], err x)
    | ok checked ↦ dispatch (handler_of handlers checked.0.type) checked.0 checked.1
  ]

-- The marks that a handler has without decorators, and with one of them.
abbrev pub checked : Option Handler
checked = some (record { require_verification = true; replies = false })

abbrev pub unchecked : Option Handler
unchecked = some (record { require_verification = false; replies = false })

abbrev pub answering : Option Handler
answering = some (record { require_verification = false; replies = true })

-- The handlers of a core server, `CoreServer.handlers`, and of an edge server, `EdgeServer.handlers`.
abbrev pub core_handlers : Handlers
core_handlers connect = unchecked
core_handlers get_bill = answering
core_handlers seed = checked
core_handlers data_type = unchecked
core_handlers hidden_bill = checked
core_handlers cycle_context = unchecked
core_handlers t = none

abbrev pub edge_handlers : Handlers
edge_handlers connect = unchecked
edge_handlers hidden_data = checked
edge_handlers cycle_context = unchecked
edge_handlers t = none
