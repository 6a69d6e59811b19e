-- ===== src/EdgeServer/Process/Unsigned.antt =====
-- What a message without a valid signature can change on an edge server.
use private_billings.Prelude.{ℕ, ◌≡◌, refl, Bool, false, List, Bool-cases, inl, inr}
use private_billings.Python.Raises.{Result, ok, result_cases}
use private_billings.Python.Dict.{Dict}
use private_billings.Number.{Number}
use private_billings.Cycle.{CycleId}
use private_billings.Hiding.Openfhe.{Fhe}
use private_billings.HiddenData.{HiddenData}
use private_billings.Billing.{is_ready, record_contexts, include_client, has_client}
use private_billings.Network.{Address, NodeInfo, node_id}
use private_billings.Network.Connect.Keeps.{IsKept, handle_connect-keeps}
use private_billings.Network.Dispatch.{
  Bytes, Message, Incoming, handler_of, edge_handlers, verify_signature, dispatch, handle_message,
  fallback_handler,
}
use private_billings.Messages.{
  Content, connect_content, context_content, get_bill_content, data_content, hidden_data_content,
  seed_content, bill_content, hidden_bill_content, message_of,
}
use private_billings.EdgeServer.{
  EdgeServer, register_client, try_run_billing, handle_context_data, broadcast_context_data,
}
use private_billings.EdgeServer.Connect.{discovery, send_connect, handle_connect}
use private_billings.EdgeServer.Process.{run_effects, receive}

module _ {N : Type 0} {F : Fhe N} (held : Dict (Dict (HiddenData F))) where
  -- The hidden data that the server bills by is this.
  abbrev pub HasData : EdgeServer F → Type 0
  HasData e = e.shared_biller.client_data ≡ held

module _ {N : Type 0} {F : Fhe N} (sha256 : List ℕ → ℕ) (pk : List ℕ)
    (held : Dict (Dict (HiddenData F))) where
  register_client-HasData :
      (node : NodeInfo) (e : EdgeServer F)
      → HasData held e
      → HasData held ((register_client sha256 node e).1)
  unfolding register_client include_client
  register_client-HasData node e h = elim (result_cases (node_id sha256 node)) [
    | inr (x, raised) ↦ rw (register_client, raised) h
    | inl (id, known) ↦ elim (Bool-cases (has_client id e.shared_biller.clients)) [
      | inl old ↦ rw (register_client, known, include_client, old) h
      | inr new ↦ rw (register_client, known, include_client, new) h
    ]
  ]

  HasData-IsKept : IsKept (discovery {F = F} sha256 pk) (HasData held)
  unfolding discovery send_connect
  HasData-IsKept = record {
    nodes = λ node ms e h. h;
    register = register_client-HasData;
    connect = λ node e h. h;
  }

module _ {N : Type 0} ⦃n : Number N⦄ {F : Fhe N} (sha256 : List ℕ → ℕ) (pk : List ℕ)
    (held : Dict (Dict (HiddenData F))) where
  try_run_billing-HasData :
      (cid : CycleId) (e : EdgeServer F)
      → HasData held e
      → HasData held (try_run_billing sha256 cid e)
  unfolding try_run_billing
  try_run_billing-HasData cid e h = elim (Bool-cases (is_ready cid e.shared_biller)) [
    | inl ready ↦ rw ready h
    | inr waits ↦ rw waits h
  ]

  dispatched-HasData :
      (decode : Bytes → Result (Message (Content F))) (has_signed : Bytes → Bytes → Bytes → Bool)
      → (reply : Address) (content : Content F) (e : EdgeServer F) → HasData held e
      → HasData held (
          run_effects sha256 pk e.network_members
            ((dispatch decode has_signed e.network_members
              (handler_of edge_handlers (message_of reply content).type)
              (message_of reply content)
              false).0)
            e)
  unfolding dispatch handler_of fallback_handler handle_connect handle_context_data
      broadcast_context_data record_contexts
  dispatched-HasData decode has_signed reply (connect_content msg) e h =
      handle_connect-keeps (discovery sha256 pk) (HasData held) (HasData-IsKept sha256 pk held) msg
        _ _ e h
  dispatched-HasData decode has_signed reply (context_content context) e h =
      try_run_billing-HasData context.cycle_id
        (record e { shared_biller = record_contexts context e.shared_biller }) h
  dispatched-HasData decode has_signed reply (get_bill_content cycle_id) e h = h
  dispatched-HasData decode has_signed reply (data_content d) e h = h
  dispatched-HasData decode has_signed reply (hidden_data_content d) e h = h
  dispatched-HasData decode has_signed reply (seed_content seed) e h = h
  dispatched-HasData decode has_signed reply (bill_content b) e h = h
  dispatched-HasData decode has_signed reply (hidden_bill_content b) e h = h

module _ {N : Type 0} ⦃n : Number N⦄ {F : Fhe N} (sha256 : List ℕ → ℕ) (pk : List ℕ)
    (decode : Bytes → Result (Message (Content F)))
    (has_signed : Bytes → Bytes → Bytes → Bool) where
  -- A message that the check of signatures passes on as not signed by its origin, whatever its class,
  -- leaves the hidden data of the clients that an edge server has recorded as it was.
  pub client_data-receive :
      (incoming : Incoming (Content F)) (reply : Address) (content : Content F) (e : EdgeServer F)
      → verify_signature decode has_signed e.network_members incoming
        ≡ ok (message_of reply content, false)
      → (receive sha256 pk decode has_signed incoming e).shared_biller.client_data
        ≡ e.shared_biller.client_data
  unfolding receive handle_message
  client_data-receive incoming reply content e is_unsigned =
      rw (handle_message, is_unsigned)
        (dispatched-HasData sha256 pk e.shared_biller.client_data decode has_signed reply content e
          refl)
