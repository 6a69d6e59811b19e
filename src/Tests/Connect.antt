-- ===== src/Tests/Connect.antt =====
-- The properties of connect messages on small networks.
use private_billings.Prelude.{
  ℕ, ◌&&◌, not, if◌then◌else◌, ◌==◌, ◌≡◌, refl, false, List, [], ◌∷◌, ◌++◌, none, All,
}
use private_billings.Python.Raises.{ok}
use private_billings.Python.Dict.{lookup, contains}
use private_billings.Network.{Address, NodeInfo, UserType, edge, core}
use private_billings.Network.Connect.{Discovery, handle_connect}
use private_billings.Network.Connect.Discovered.{first, noted, times, handle_connect_lem}
use private_billings.CoreServer.{CoreServer}
use private_billings.CoreServer.Connect.{discovery}
use private_billings.CoreServer.Connect.Context.{greeted, discovery-IsDiscovery}
use private_billings.EdgeServer.{new_server}
use private_billings.EdgeServer.Requests.{
  Request, connect_request, context_request, handle_all, IsTrue,
}
use private_billings.EdgeServer.Joined.{HasJoined, handle_all-HasJoined}
use private_billings.Number.Int.{int_number}
use private_billings.Tests.Clear.{clear}
use private_billings.Tests.Sample.{sample_context}
use private_billings.Tests.Edge.{first_byte}
use private_billings.Tests.Core.{edge_hello, core_hello, core_start}

abbrev core_discovery : Discovery (CoreServer clear)
core_discovery = discovery (3 ∷ [])

abbrev unknown_node : NodeInfo
unknown_node = record { address = 50; pk = none; role = none }

handle_connect_lem_example :
    ((handle_connect core_discovery edge_hello unknown_node false core_start).0 ≡ ok tt)
    × (lookup 51 (
          core_discovery.members
            ((handle_connect core_discovery edge_hello unknown_node false core_start).1))
        ≡ first
            (lookup 51 (
              core_discovery.members (
                noted core_discovery greeted
                  (discovery-IsDiscovery (3 ∷ []))
                  edge_hello
                  unknown_node
                  false
                  core_start)))
            (lookup 51 edge_hello.network_state))
    × (new : List Address) × (greeted
          ((handle_connect core_discovery edge_hello unknown_node false core_start).1)
        ≡ greeted core_start ++ new)
    × ((b : Address)
        → times b new ≡ (
            if contains b edge_hello.network_state
              && not (
                  contains b (
                    core_discovery.members (
                      noted core_discovery greeted
                        (discovery-IsDiscovery (3 ∷ []))
                        edge_hello
                        unknown_node
                        false
                        core_start)))
            then 1
            else 0))
handle_connect_lem_example =
    handle_connect_lem core_discovery greeted (discovery-IsDiscovery (3 ∷ [])) edge_hello
      unknown_node false core_start 51 ((refl, 9 ∷ [], refl), ((refl, 1 ∷ [], refl), tt))
      (refl, (refl, tt))

abbrev key_of : Address → List ℕ
key_of a = if a == 50 then 9 ∷ [] else if a == 51 then 1 ∷ [] else 2 ∷ []

abbrev role_of : Address → UserType
role_of a = if a == 50 then edge else core

abbrev core_connects : Request clear
core_connects = connect_request core_hello

abbrev requests : List (Request clear)
requests =
    connect_request core_hello ∷ context_request sample_context ∷ connect_request core_hello ∷ []

requests-IsTrue : All (IsTrue key_of role_of) requests
requests-IsTrue =
    let hello : IsTrue key_of role_of core_connects =
      (refl, refl, ((refl, refl, refl), ((refl, refl, refl), tt))) in
    (hello, (tt, (hello, tt)))

handle_all-HasJoined_example :
    HasJoined first_byte key_of role_of
      (handle_all first_byte (9 ∷ []) requests (new_server 50 (9 ∷ []) 4 0))
handle_all-HasJoined_example =
    handle_all-HasJoined first_byte (9 ∷ []) key_of role_of 50 4 0 requests refl refl
      requests-IsTrue
