-- ===== src/EdgeServer/Registered.antt =====
-- How the registration of a node on an edge server includes it in the billing.
use private_billings.Prelude.{ℕ, ◌≡◌, List, none, some, Option, arith, ◌%◌, ◌^◌}
use private_billings.Python.Raises.{ok}
use private_billings.Python.Dict.{insert-AllEntries, map-AllEntries}
use private_billings.Cycle.{ClientId}
use private_billings.Hiding.Openfhe.{Fhe}
use private_billings.Billing.{SharedBilling, include_client}
use private_billings.Billing.Clients.{has_client-include_client}
use private_billings.Network.{Address, UserType, edge, core, NodeInfo, node_id, register_node}
use private_billings.EdgeServer.{EdgeServer, new_server, register_client}
use private_billings.EdgeServer.Served.{ServedAs, IsServed}

module _ (sha256 : List ℕ → ℕ) where
  pub node_id-ok :
      (node : NodeInfo) (bytes : List ℕ)
      → node.pk ≡ some bytes
      → node_id sha256 node ≡ ok (sha256 bytes % 2 ^ 64)
  unfolding node_id
  node_id-ok node bytes e = rw e

module _ {N : Type 0} (F : Fhe N) (sha256 : List ℕ → ℕ) where
  pub new_server-IsServed :
      (address : Address) (pk : List ℕ) (size : ℕ) (store : F.KeyStore)
      → IsServed sha256 (new_server {F = F} address pk size store)
  unfolding new_server register_node
  new_server-IsServed address pk size store = (tt, tt)

module _ {N : Type 0} {F : Fhe N} (sha256 : List ℕ → ℕ) where
  served_more :
      (id : ClientId) (b : SharedBilling F) (r : Option UserType) (m : NodeInfo)
      → ServedAs sha256 b.clients r m
      → ServedAs sha256 (include_client id b).clients r m
  served_more id b none m s = tt
  served_more id b (some edge) m s = tt
  served_more id b (some core) m (c, known, client) =
      (c, known, ground (arith, has_client-include_client id b c))

  served_new :
      (id : ClientId) (b : SharedBilling F) (r : Option UserType) (m : NodeInfo)
      → node_id sha256 m ≡ ok id
      → ServedAs sha256 (include_client id b).clients r m
  served_new id b none m known = tt
  served_new id b (some edge) m known = tt
  served_new id b (some core) m known =
      (id, known, ground (arith, has_client-include_client id b id))

  pub register_client-IsServed :
      (node : NodeInfo) (bytes : List ℕ) (e : EdgeServer F)
      → node.pk ≡ some bytes
      → IsServed sha256 e
      → IsServed sha256 ((register_client sha256 node e).1)
  unfolding register_client register_node
  register_client-IsServed node bytes e key served =
      let id = sha256 bytes % 2 ^ 64 in
      let known = node_id-ok sha256 node bytes key in
      let after = include_client id e.shared_biller in
      rw (register_client, known)
        (insert-AllEntries (λ a m. ServedAs sha256 after.clients m.role m) node.address node
          e.network_members (served_new id e.shared_biller node.role node known)
          (map-AllEntries (λ a m. ServedAs sha256 e.shared_biller.clients m.role m)
            (λ a m. ServedAs sha256 after.clients m.role m) e.network_members
            (λ a m s. served_more id e.shared_biller m.role m s) served))
