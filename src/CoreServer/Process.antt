-- ===== src/CoreServer/Process.antt =====
-- A core server from the message that arrives to the handler that it starts: `_handle` and `execute` of
-- src/private_billing/network.py with the handlers of src/private_billing/core_server.py. A handler that is
-- given to the pool is run here before the next message arrives.
pub mod Unsigned
use private_billings.Prelude.{ℕ, Bool, List, [], ◌∷◌}
use private_billings.Python.Raises.{Result, ok}
use private_billings.Python.Action.{Action}
use private_billings.Python.Dict.{Dict, contains}
use private_billings.Number.{Number}
use private_billings.Masking.{Seed, Pcg64}
use private_billings.Hiding.Openfhe.{Fhe}
use private_billings.Hiding.Parameters.{Generation}
use private_billings.Hiding.{Hashing}
use private_billings.Network.{NodeInfo}
use private_billings.Network.Dispatch.{
  Bytes, Message, Incoming, Effect, empty_reply, executed, scheduled, core_handlers, handle_message,
}
use private_billings.Messages.{
  Content, connect_content, context_content, get_bill_content, data_content, hidden_data_content,
  seed_content, bill_content, hidden_bill_content,
}
use private_billings.CoreServer.{
  CoreServer, handle_seed, handle_get_bill, handle_data, handle_hidden_bill,
}
use private_billings.CoreServer.Connect.{handle_connect}

module _ {N : Type 0} ⦃n : Number N⦄ (pcg64 : Pcg64) (hashing : Hashing) {F : Fhe N}
    (g : Generation F) (sha256 : List ℕ → ℕ) (pk : List ℕ) where
  -- The handler that `handlers` has for the type of the message; `_fallback_handler` and
  -- `handle_cycle_context` change nothing. The last argument says whether the origin is registered.
  abbrev pub run_handler : ℕ → Seed → Content F → NodeInfo → Bool → Action (CoreServer F) (Unit {0})
  run_handler random fresh (connect_content msg) origin is_registered =
      handle_connect g sha256 pk random fresh msg origin is_registered
  run_handler random fresh (context_content context) origin is_registered = λ e. (ok tt, e)
  run_handler random fresh (get_bill_content cycle_id) origin is_registered =
      handle_get_bill cycle_id origin
  run_handler random fresh (data_content d) origin is_registered =
      handle_data pcg64 hashing sha256 d
  run_handler random fresh (hidden_data_content d) origin is_registered = λ e. (ok tt, e)
  run_handler random fresh (seed_content seed) origin is_registered =
      handle_seed sha256 fresh seed origin
  run_handler random fresh (bill_content b) origin is_registered = λ e. (ok tt, e)
  run_handler random fresh (hidden_bill_content b) origin is_registered = handle_hidden_bill b

  -- `execute`, which catches whatever the handler raises. The registry is the one at the time when the
  -- message arrived, when its origin was looked up.
  abbrev pub execute :
      ℕ → Seed → Dict NodeInfo → Message (Content F) → NodeInfo → CoreServer F → CoreServer F
  execute random fresh members msg origin e =
      (run_handler random fresh msg.content origin (contains msg.reply_address members) e).1

  abbrev pub run_effects :
      ℕ → Seed → Dict NodeInfo → List (Effect (Content F)) → CoreServer F → CoreServer F
  run_effects random fresh members [] e = e
  run_effects random fresh members (empty_reply ∷ effects) e =
      run_effects random fresh members effects e
  run_effects random fresh members (executed h msg origin ∷ effects) e =
      run_effects random fresh members effects (execute random fresh members msg origin e)
  run_effects random fresh members (scheduled h msg origin ∷ effects) e =
      run_effects random fresh members effects (execute random fresh members msg origin e)

  -- What a message does to the server.
  unfoldable pub receive :
      (Bytes → Result (Message (Content F)))
      → (Bytes → Bytes → Bytes → Bool)
      → ℕ
      → Seed
      → Incoming (Content F)
      → CoreServer F
      → CoreServer F
  receive decode has_signed random fresh incoming e =
      run_effects random fresh e.network_members
        ((handle_message decode has_signed e.network_members core_handlers incoming).0) e
