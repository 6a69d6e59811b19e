-- ===== src/EdgeServer/Joined.antt =====
-- What an edge server knows and bills after the messages that it receives, connect messages among them.
use private_billings.Prelude.{
  ℕ, ◌≡◌, refl, sym, ap, ◌∙◌, List, [], ◌∷◌, some, Bool-cases, inl, inr, All,
}
use mathlib.Core.Path.{subst}
use private_billings.Python.Raises.{result_cases}
use private_billings.Python.Dict.{
  contains, AllEntries, insert-AllEntries, lookup-AllEntries, contains-lookup,
}
use private_billings.Number.{Number}
use private_billings.Cycle.{CycleId}
use private_billings.Hiding.Openfhe.{Fhe}
use private_billings.Billing.{is_ready, record_contexts, record_data}
use private_billings.Network.{
  Address, UserType, edge, NodeInfo, get_node_info, node_id, register_node,
}
use private_billings.Network.Connect.{ConnectMessage, updated_origin, write_origin}
use private_billings.Network.Connect
use private_billings.Network.Connect.Keeps.{IsKeptFor, connect_unknown-keeps}
use private_billings.EdgeServer.{
  EdgeServer, new_server, register_client, broadcast_context_data, try_run_billing,
  handle_context_data, handle_hidden_data,
}
use private_billings.EdgeServer.Connect.{discovery, send_connect, handle_connect}
use private_billings.EdgeServer.Served.{ServedAs, IsServed}
use private_billings.EdgeServer.Requests.{
  Request, connect_request, context_request, data_request, handle, handle_all, IsTrue,
}
use private_billings.Network.Connect.Constant.{unchanged, IsNode, own_address}
use private_billings.EdgeServer.Registered.{new_server-IsServed, register_client-IsServed}

module _ {N : Type 0} {F : Fhe N} (sha256 : List ℕ → ℕ) (key_of : Address → List ℕ)
    (role_of : Address → UserType) where
  -- Each core server that is a member is a client, and each member has its key and its role.
  pub record HasJoined (e : EdgeServer F) : Type 0 where
    pub served : IsServed sha256 e
    pub known : AllEntries (IsNode key_of role_of) e.network_members

  register_client-members :
      (node : NodeInfo) (e : EdgeServer F)
      → (register_client sha256 node e).1.network_members ≡ register_node node e.network_members
  unfolding register_client
  register_client-members node e = elim (result_cases (node_id sha256 node)) [
    | inr (x, raised) ↦ rw (register_client, raised) refl
    | inl (id, known) ↦ rw (register_client, known) refl
  ]

  register_client-HasJoined :
      (node : NodeInfo) (e : EdgeServer F)
      → IsNode key_of role_of node.address node
      → HasJoined e
      → HasJoined ((register_client sha256 node e).1)
  unfolding register_node
  register_client-HasJoined node e good h = record {
    served = register_client-IsServed sha256 node (key_of node.address) e (good.1) h.served;
    known = subst (AllEntries (IsNode key_of role_of)) (sym (register_client-members node e)) (
        insert-AllEntries (IsNode key_of role_of) node.address node e.network_members good h.known);
  }

  joined-IsKeptFor :
      (pk : List ℕ)
      → IsKeptFor
          (discovery {F = F} sha256 pk)
          HasJoined
          (λ node. IsNode key_of role_of node.address node)
  unfolding discovery send_connect
  joined-IsKeptFor pk = record {
    register = λ node e good h. register_client-HasJoined node e good h;
    connect = λ node e h. record { served = h.served; known = h.known };
  }

  -- A registered node that says what the registry has of it leaves the registry as it is.
  write_origin-HasJoined :
      (pk : List ℕ) (msg : ConnectMessage) (e : EdgeServer F)
      → msg.pk ≡ key_of msg.reply_address
      → msg.role ≡ role_of msg.reply_address
      → HasJoined e
      → HasJoined (
          write_origin
            (discovery sha256 pk)
            (updated_origin msg (get_node_info msg.reply_address e.network_members))
            (contains msg.reply_address e.network_members)
            e)
  unfolding write_origin updated_origin discovery
  write_origin-HasJoined pk msg e key role h =
      let a = msg.reply_address in
      elim (Bool-cases (contains a e.network_members)) [
        | inr new ↦ rw new h
        | inl old ↦
            let (node, found) = contains-lookup a e.network_members old in
            let (at_a, has_key, has_role) =
              lookup-AllEntries (IsNode key_of role_of) a node e.network_members h.known found in
            let ms = e.network_members in
            let same =
              unchanged msg ms node found at_a (has_key ∙ ap some (sym key))
                (has_role ∙ ap some (sym role)) in
            let Served : ℕ → NodeInfo → Type 0 =
              λ b m. ServedAs sha256 e.shared_biller.clients m.role m in
            rw old (record {
              served = subst (AllEntries Served) (sym same) (
                  insert-AllEntries Served a node ms
                    (lookup-AllEntries Served a node ms h.served found) h.served);
              known = subst (AllEntries (IsNode key_of role_of)) (sym same) (
                  insert-AllEntries (IsNode key_of role_of) a node ms (at_a, has_key, has_role)
                    h.known);
            })
      ]

module _ {N : Type 0} ⦃n : Number N⦄ {F : Fhe N} (sha256 : List ℕ → ℕ) (pk : List ℕ)
    (key_of : Address → List ℕ) (role_of : Address → UserType) where
  try_run_billing-HasJoined :
      (cid : CycleId) (e : EdgeServer F)
      → HasJoined sha256 key_of role_of e
      → HasJoined sha256 key_of role_of (try_run_billing sha256 cid e)
  unfolding try_run_billing
  try_run_billing-HasJoined cid e h = elim (Bool-cases (is_ready cid e.shared_biller)) [
    | inl ready ↦ rw ready (record { served = h.served; known = h.known })
    | inr waits ↦ rw waits h
  ]

  handle-HasJoined :
      (x : Request F) (e : EdgeServer F)
      → IsTrue key_of role_of x
      → HasJoined sha256 key_of role_of e
      → HasJoined sha256 key_of role_of (handle sha256 pk x e)
  unfolding handle_connect Connect.handle_connect handle_context_data handle_hidden_data
      broadcast_context_data record_contexts record_data
  handle-HasJoined (connect_request msg) e (key, role, nodes) h =
      connect_unknown-keeps (discovery sha256 pk) (HasJoined sha256 key_of role_of)
        (λ node. IsNode key_of role_of node.address node) msg.network_state _ _
        (joined-IsKeptFor sha256 key_of role_of pk) (own_address key_of role_of _ nodes)
        (write_origin-HasJoined sha256 key_of role_of pk msg e key role h)
  handle-HasJoined (context_request cyc) e t h =
      let after =
        try_run_billing-HasJoined cyc.cycle_id
          (record e { shared_biller = record_contexts cyc e.shared_biller })
          (record { served = h.served; known = h.known }) in
      record { served = after.served; known = after.known }
  handle-HasJoined (data_request datum) e t h =
      try_run_billing-HasJoined datum.cycle_id
        (record e { shared_biller = record_data datum e.shared_biller })
        (record { served = h.served; known = h.known })

  keeps-HasJoined :
      (xs : List (Request F)) (e : EdgeServer F)
      → All (IsTrue key_of role_of) xs
      → HasJoined sha256 key_of role_of e
      → HasJoined sha256 key_of role_of (handle_all sha256 pk xs e)
  keeps-HasJoined [] e t h = h
  keeps-HasJoined (x ∷ xs) e t h =
      keeps-HasJoined xs (handle sha256 pk x e) t.1 (handle-HasJoined x e t.0 h)

  -- If each address keeps its key and its role, the server's own role is that of an edge server and its key
  -- the one of its address, and the connect messages are true of their senders and of the nodes they list,
  -- then whatever an edge server receives from its start, and in whatever order, every core server that is a
  -- member is a client of its billing, and every member has the key and the role of its address.
  pub handle_all-HasJoined :
      (address : Address) (size : ℕ) (store : F.KeyStore) (xs : List (Request F))
      → pk ≡ key_of address
      → role_of address ≡ edge
      → All (IsTrue key_of role_of) xs
      → HasJoined sha256 key_of role_of (handle_all sha256 pk xs (new_server address pk size store))
  unfolding new_server register_node
  handle_all-HasJoined address size store xs key role t =
      keeps-HasJoined xs (new_server address pk size store) t (record {
        served = new_server-IsServed F sha256 address pk size store;
        known = ((refl, ap some key, ap some (sym role)), tt);
      })
