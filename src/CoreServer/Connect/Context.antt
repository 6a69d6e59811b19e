-- ===== src/CoreServer/Connect/Context.antt =====
-- The registry and the hiding context of a core server through its connect messages.
use private_billings.Prelude.{ℕ, ◌≡◌, refl, ap, List, [], ◌∷◌, ◌++◌}
use private_billings.Hiding.Openfhe.{Fhe}
use private_billings.Network.{Address, NodeInfo, register_node}
use private_billings.Network.Connect.{ConnectMessage}
use private_billings.Network.Connect.Discovered.{IsDiscovery}
use private_billings.CoreServer.{
  CoreServer, Outgoing, seed_message, hidden_data_message, connect_message,
}
use private_billings.CoreServer.Connect.{discovery, send_connect}

module _ {N : Type 0} {F : Fhe N} where
  -- The addresses that connect messages were sent to.
  abbrev pub greeted_by : List (NodeInfo × Outgoing F) → List Address
  greeted_by [] = []
  greeted_by ((node, seed_message seed) ∷ sent) = greeted_by sent
  greeted_by ((node, hidden_data_message hidden) ∷ sent) = greeted_by sent
  greeted_by ((node, connect_message msg) ∷ sent) = node.address ∷ greeted_by sent

  abbrev pub greeted : CoreServer F → List Address
  greeted e = greeted_by e.sent

  greeted_by-append :
      (s : List (NodeInfo × Outgoing F)) (node : NodeInfo) (msg : ConnectMessage)
      → greeted_by (s ++ (node, connect_message msg) ∷ []) ≡ greeted_by s ++ node.address ∷ []
  greeted_by-append [] node msg = refl
  greeted_by-append ((m, seed_message seed) ∷ s) node msg = greeted_by-append s node msg
  greeted_by-append ((m, hidden_data_message hidden) ∷ s) node msg = greeted_by-append s node msg
  greeted_by-append ((m, connect_message other) ∷ s) node msg =
      ap (λ (l : List Address). m.address ∷ l) (greeted_by-append s node msg)

  pub discovery-IsDiscovery : (pk : List ℕ) → IsDiscovery (discovery {F = F} pk) greeted
  unfolding discovery send_connect register_node
  discovery-IsDiscovery pk = record {
    members_with_nodes = λ node ms e. refl;
    greeted_with_nodes = λ node ms e. refl;
    registers = λ node e. refl;
    greeted_register = λ node e. refl;
    accepts = λ node bytes e key. refl;
    members_send = λ node e. refl;
    greets = λ node e. greeted_by-append e.sent node _;
  }
