-- ===== src/EdgeServer/Connect/Greeted.antt =====
-- The registry of an edge server through its connect messages, and whom it greets.
use private_billings.Prelude.{ℕ, ◌≡◌, refl, ap, some, List, [], ◌∷◌, ◌++◌, inl, inr}
use private_billings.Python.Raises.{ok, result_cases}
use private_billings.Python.Dict.{insert}
use private_billings.Hiding.Openfhe.{Fhe}
use private_billings.Network.{Address, NodeInfo, node_id, register_node}
use private_billings.Network.Connect.{ConnectMessage}
use private_billings.Network.Connect.Discovered.{IsDiscovery}
use private_billings.EdgeServer.{
  EdgeServer, Outgoing, hidden_bill_message, context_message, connect_message, register_client,
}
use private_billings.EdgeServer.Connect.{discovery, send_connect}

module _ {N : Type 0} {F : Fhe N} where
  -- The addresses that connect messages were sent to.
  abbrev pub greeted_by : List (Address × Outgoing F) → List Address
  greeted_by [] = []
  greeted_by ((a, hidden_bill_message bill) ∷ sent) = greeted_by sent
  greeted_by ((a, context_message context) ∷ sent) = greeted_by sent
  greeted_by ((a, connect_message msg) ∷ sent) = a ∷ greeted_by sent

  abbrev pub greeted : EdgeServer F → List Address
  greeted e = greeted_by e.sent

  greeted_by-append :
      (s : List (Address × Outgoing F)) (a : Address) (msg : ConnectMessage)
      → greeted_by (s ++ (a, connect_message msg) ∷ []) ≡ greeted_by s ++ a ∷ []
  greeted_by-append [] a msg = refl
  greeted_by-append ((b, hidden_bill_message bill) ∷ s) a msg = greeted_by-append s a msg
  greeted_by-append ((b, context_message context) ∷ s) a msg = greeted_by-append s a msg
  greeted_by-append ((b, connect_message other) ∷ s) a msg =
      ap (λ (l : List Address). b ∷ l) (greeted_by-append s a msg)

module _ {N : Type 0} {F : Fhe N} (sha256 : List ℕ → ℕ) where
  -- Registering a node, also one without a key, changes the registry and sends nothing.
  register_client-nodes :
      (node : NodeInfo) (e : EdgeServer F)
      → ((register_client sha256 node e).1.network_members
          ≡ insert node.address node e.network_members)
        × (greeted ((register_client sha256 node e).1) ≡ greeted e)
  unfolding register_client register_node
  register_client-nodes node e = elim (result_cases (node_id sha256 node)) [
    | inr (x, raised) ↦ rw (register_client, raised) (refl, refl)
    | inl (id, known) ↦ rw (register_client, known) (refl, refl)
  ]

  register_client-ok :
      (node : NodeInfo) (bytes : List ℕ) (e : EdgeServer F)
      → node.pk ≡ some bytes
      → (register_client sha256 node e).0 ≡ ok tt
  unfolding register_client node_id
  register_client-ok node bytes e key = rw (register_client, node_id, key)

  pub discovery-IsDiscovery : (pk : List ℕ) → IsDiscovery (discovery {F = F} sha256 pk) greeted
  unfolding discovery send_connect
  discovery-IsDiscovery pk = record {
    members_with_nodes = λ node ms e. refl;
    greeted_with_nodes = λ node ms e. refl;
    registers = λ node e. (register_client-nodes node e).0;
    greeted_register = λ node e. (register_client-nodes node e).1;
    accepts = register_client-ok;
    members_send = λ node e. refl;
    greets = λ node e. greeted_by-append e.sent node.address _;
  }
