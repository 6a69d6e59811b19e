-- ===== src/EdgeServer/Connect.antt =====
-- How an edge server of src/private_billing/edge_server.py handles a connect message: the handler of every
-- server, with its own registration of nodes.
pub mod Greeted
use private_billings.Prelude.{ℕ, Bool, List, [], ◌∷◌, ◌++◌}
use private_billings.Python.Action.{Action}
use private_billings.Hiding.Openfhe.{Fhe}
use private_billings.Network.{NodeInfo, edge}
use private_billings.Network.Connect.{ConnectMessage, Discovery}
use private_billings.Network.Connect
use private_billings.EdgeServer.{EdgeServer, connect_message, register_client}

module _ {N : Type 0} {F : Fhe N} where
  -- An edge server tells the others the length of a cycle.
  unfoldable pub send_connect : List ℕ → NodeInfo → EdgeServer F → EdgeServer F
  send_connect pk target e =
      let msg : ConnectMessage = record {
        reply_address = e.node_info.address;
        pk = pk;
        role = edge;
        network_state = e.network_members;
        billing_state = e.billing_state;
      } in
      record e { sent = e.sent ++ (target.address, connect_message msg) ∷ [] }

module _ {N : Type 0} {F : Fhe N} (sha256 : List ℕ → ℕ) (pk : List ℕ) where
  unfoldable pub discovery : Discovery (EdgeServer F)
  unfolding send_connect register_client
  discovery = record {
    own = λ e. e.node_info;
    members = λ e. e.network_members;
    with_nodes = λ node members e. record e { node_info = node; network_members = members };
    register_node = register_client sha256;
    send_connect = send_connect pk;
  }

  unfoldable pub handle_connect :
      ConnectMessage → NodeInfo → Bool → Action (EdgeServer F) (Unit {0})
  unfolding discovery
  handle_connect = Connect.handle_connect discovery
