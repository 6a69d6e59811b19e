-- ===== src/EdgeServer/Process.antt =====
-- An edge server from the message that arrives to the handler that it starts: `_handle` and `execute` of
-- src/private_billing/network.py with the handlers of src/private_billing/edge_server.py. A handler that is
-- given to the pool is run here before the next message arrives.
pub mod Unsigned
use private_billings.Prelude.{ℕ, Bool, List, [], ◌∷◌}
use private_billings.Python.Raises.{Result, ok}
use private_billings.Python.Dict.{Dict, contains}
use private_billings.Number.{Number}
use private_billings.Hiding.Openfhe.{Fhe}
use private_billings.Network.{NodeInfo}
use private_billings.Network.Dispatch.{
  Bytes, Message, Incoming, Effect, empty_reply, executed, scheduled, edge_handlers, handle_message,
}
use private_billings.Messages.{
  Content, connect_content, context_content, get_bill_content, data_content, hidden_data_content,
  seed_content, bill_content, hidden_bill_content,
}
use private_billings.EdgeServer.{EdgeServer, handle_context_data, handle_hidden_data}
use private_billings.EdgeServer.Connect.{handle_connect}

module _ {N : Type 0} ⦃n : Number N⦄ {F : Fhe N} (sha256 : List ℕ → ℕ) (pk : List ℕ) where
  -- The handler that `handlers` has for the type of the message, and `_fallback_handler` otherwise. What
  -- the handler raises, `execute` catches.
  -- The registry is the one at the time when the message arrived, when its origin was looked up.
  abbrev pub execute : Dict NodeInfo → Message (Content F) → NodeInfo → EdgeServer F → EdgeServer F
  execute members msg origin e = elim msg.content [
    | connect_content m ↦
        (handle_connect sha256 pk m origin (contains msg.reply_address members) e).1
    | context_content context ↦ handle_context_data sha256 context e
    | get_bill_content cycle_id ↦ e
    | data_content d ↦ e
    | hidden_data_content d ↦ handle_hidden_data sha256 d e
    | seed_content seed ↦ e
    | bill_content b ↦ e
    | hidden_bill_content b ↦ e
  ]

  abbrev pub run_effects : Dict NodeInfo → List (Effect (Content F)) → EdgeServer F → EdgeServer F
  run_effects members [] e = e
  run_effects members (empty_reply ∷ effects) e = run_effects members effects e
  run_effects members (executed h msg origin ∷ effects) e =
      run_effects members effects (execute members msg origin e)
  run_effects members (scheduled h msg origin ∷ effects) e =
      run_effects members effects (execute members msg origin e)

  -- What a message does to the server.
  unfoldable pub receive :
      (Bytes → Result (Message (Content F)))
      → (Bytes → Bytes → Bytes → Bool)
      → Incoming (Content F)
      → EdgeServer F
      → EdgeServer F
  receive decode has_signed incoming e =
      run_effects e.network_members
        ((handle_message decode has_signed e.network_members edge_handlers incoming).0) e
