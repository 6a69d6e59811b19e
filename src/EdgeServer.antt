-- ===== src/EdgeServer.antt =====
-- src/private_billing/edge_server.py: the server that records what the clients send, and bills them when
-- a cycle is ready. What it sends is kept in a list; sending does not fail here.
pub mod Connect
pub mod Served
pub mod Requests
pub mod Joined
pub mod Registered
pub mod Process
use private_billings.Prelude.{
  Option, some, ℕ, Bool, true, false, List, [], ◌∷◌, ◌++◌, map, not, ◌==◌, if◌then◌else◌,
}
use private_billings.Python.Raises.{Result, ok, err, or_raise, key_error}
use private_billings.Python.Action.{Action, lift, pure, ◌>>=◌, ◌>>◌}
use private_billings.Python.Dict.{Dict, lookup, values}
use private_billings.Number.{Number}
use private_billings.Cycle.{CycleId, ClientId, CycleContext}
use private_billings.Hiding.Openfhe.{Fhe}
use private_billings.HiddenBill.{HiddenBill}
use private_billings.HiddenData.{HiddenData}
use private_billings.Billing.{
  SharedBilling, new_billing, record_data, record_contexts, include_client, is_ready, compute_bills,
}
use private_billings.Network.{
  Address, NodeInfo, edge, node_id, network_cores, network_peers, register_node,
}
use private_billings.Network.Connect.{ConnectMessage}

module _ {N : Type 0} (F : Fhe N) where
  -- The messages that an edge server sends.
  pub data Outgoing : Type 0 where
    hidden_bill_message : HiddenBill F → Outgoing
    context_message : CycleContext N → Outgoing
    connect_message : ConnectMessage → Outgoing

  -- Of the billing state only the length of a cycle is written. The relinearization keys that OpenFHE has
  -- loaded belong to the process of the server.
  pub record EdgeServer : Type 0 where
    pub node_info : NodeInfo
    pub network_members : Dict NodeInfo
    pub billing_state : Option ℕ
    pub shared_biller : SharedBilling F
    pub loaded_keys : F.KeyStore
    pub sent : List (Address × Outgoing)

module _ {N : Type 0} {F : Fhe N} where
  -- The constructor, which makes the server a member of its own network.
  unfoldable pub new_server : Address → List ℕ → ℕ → F.KeyStore → EdgeServer F
  unfolding new_billing register_node
  new_server address pk cycle_length store =
      let node : NodeInfo = record { address = address; pk = some pk; role = some edge } in
      record {
        node_info = node;
        network_members = register_node node [];
        billing_state = some cycle_length;
        shared_biller = new_billing;
        loaded_keys = store;
        sent = [];
      }

  -- `EdgeServer.register_node`: a node is a member before its id is asked for, which may raise.
  unfoldable pub register_client :
      (List ℕ → ℕ) → NodeInfo → EdgeServer F → Result (Unit {0}) × EdgeServer F
  register_client sha256 node e =
      let members = register_node node e.network_members in
      elim (node_id sha256 node) [
        | err x ↦ (err x, record e { network_members = members })
        | ok id ↦ (
          ok tt,
          record e { network_members = members; shared_biller = include_client id e.shared_biller },
        )
      ]

  unfoldable pub broadcast_context_data : CycleContext N → EdgeServer F → EdgeServer F
  broadcast_context_data cyc e = record e {
    sent =
        e.sent
        ++ map (λ x. (x.address, context_message cyc))
            (network_peers e.node_info e.network_members);
  }

  abbrev pub send_hidden_bill :
      HiddenBill F → NodeInfo → Action (List (Address × Outgoing F)) (Unit {0})
  send_hidden_bill bill target sent =
      (ok tt, sent ++ (target.address, hidden_bill_message bill) ∷ [])

  -- The loop of `send_hidden_bills`: what was sent before an error stays sent.
  unfoldable pub send_hidden_bills :
      (List ℕ → ℕ)
      → Dict (HiddenBill F)
      → List NodeInfo
      → Action (List (Address × Outgoing F)) (Unit {0})
  send_hidden_bills sha256 bills [] = pure tt
  send_hidden_bills sha256 bills (member ∷ members) = do
    id ← lift (node_id sha256 member)
    bill ← lift (or_raise (lookup id bills) key_error)
    send_hidden_bill bill member
    send_hidden_bills sha256 bills members

module _ {N : Type 0} ⦃n : Number N⦄ {F : Fhe N} (sha256 : List ℕ → ℕ) where
  -- The `try` of `try_run_billing` catches whatever is raised.
  abbrev pub deliver :
      Result (Dict (HiddenBill F))
      → List NodeInfo
      → List (Address × Outgoing F)
      → List (Address × Outgoing F)
  deliver (err x) cores sent = sent
  deliver (ok bills) cores sent = (send_hidden_bills sha256 bills cores sent).1

  unfoldable pub try_run_billing : CycleId → EdgeServer F → EdgeServer F
  unfolding network_cores
  try_run_billing cycle_id e =
      if is_ready cycle_id e.shared_biller
      then (let outcome = compute_bills e.shared_biller cycle_id e.loaded_keys in
          record e {
            loaded_keys = outcome.1;
            sent = deliver outcome.0 (network_cores e.network_members) e.sent;
          })
      else e

  unfoldable pub handle_context_data : CycleContext N → EdgeServer F → EdgeServer F
  handle_context_data cyc e = broadcast_context_data cyc (
      try_run_billing cyc.cycle_id
        (record e { shared_biller = record_contexts cyc e.shared_biller }))

  unfoldable pub handle_hidden_data : HiddenData F → EdgeServer F → EdgeServer F
  handle_hidden_data datum e =
      try_run_billing datum.cycle_id
        (record e { shared_biller = record_data datum e.shared_biller })
