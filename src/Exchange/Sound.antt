-- ===== src/Exchange/Sound.antt =====
-- What each core server has of itself: true nodes in its registry, and seeds that it owns for the core
-- servers that it has sent them to.
use private_billings.Prelude.{
  ℕ, ◌%◌, ◌^◌, ◌≡◌, refl, sym, ap, ◌∙◌, true, false, List, [], ◌∷◌, ◌++◌, some, arith, All, All-map,
}
use mathlib.Core.Path.{subst}
use private_billings.Python.Raises.{Result, ok, err}
use private_billings.Python.Dict.{
  Dict, lookup, contains, set_default, IsDict, AllEntries, set_default-IsDict,
  set_default-AllEntries, insert-AllEntries, lookup-set_default,
}
use private_billings.Cycle.{ClientId}
use private_billings.Masking.{Seed, get_seed_for_peer, has_owned_seed_for_peer}
use private_billings.Hiding.Openfhe.{Fhe}
use private_billings.Network.{
  Address, UserType, edge, core, is_core, NodeInfo, node_id, register_node,
}
use private_billings.Network.Connect.Constant.{IsNode}
use private_billings.Network.Connect.Keeps.{IsKeptFor}
use private_billings.EdgeServer.Registered.{node_id-ok}
use private_billings.CoreServer.{
  CoreServer, Outgoing, seed_message, hidden_data_message, connect_message, send_seed,
}
use private_billings.CoreServer.Connect.{discovery, send_connect}
use private_billings.CoreServer.Connect.Keeps.{IsSteady}

ok-injective : {a b : ℕ} → ok a ≡ ok b → a ≡ b
ok-injective e = ap (λ (r : Result ℕ). elim r [ ok n ↦ n | err x ↦ 0 ]) e

core_of : (r : UserType) → is_core (some r) ≡ true → r ≡ core
core_of edge h = absurd (ground arith)
core_of core h = refl

module _ (sha256 : List ℕ → ℕ) (key_of : Address → List ℕ) (role_of : Address → UserType) where
  -- The id of the node at an address.
  abbrev pub id_of : Address → ClientId
  id_of a = sha256 (key_of a) % 2 ^ 64

  -- The id of a core server.
  abbrev pub IsPeer : ClientId → Type 0
  IsPeer c = (a : Address) × (role_of a ≡ core) × (id_of a ≡ c)

  -- A seed that is sent is the one that is owned for its target.
  abbrev pub IsOwned : {N : Type 0} {F : Fhe N} → Dict Seed → NodeInfo × Outgoing F → Type 0
  IsOwned owned (node, seed_message seed) = lookup (id_of node.address) owned ≡ some seed
  IsOwned owned (node, hidden_data_message hidden) = Unit
  IsOwned owned (node, connect_message msg) = Unit

module _ {N : Type 0} {F : Fhe N} (sha256 : List ℕ → ℕ) (key_of : Address → List ℕ)
    (role_of : Address → UserType) where
  pub record IsSound (e : CoreServer F) : Type 0 where
    pub known : AllEntries (IsNode key_of role_of) e.network_members
    pub owned_IsDict : IsDict e.mg.owned_seeds
    pub owned_peers : AllEntries (λ c seed. IsPeer sha256 key_of role_of c) e.mg.owned_seeds
    pub sent_owned : All (IsOwned sha256 key_of role_of e.mg.owned_seeds) e.sent

  All-append :
      (P : NodeInfo × Outgoing F → Type 0) (xs : List (NodeInfo × Outgoing F))
      → (x : NodeInfo × Outgoing F) → All P xs
      → P x
      → All P (xs ++ x ∷ [])
  All-append P [] x h p = (p, tt)
  All-append P (y ∷ xs) x h p = (h.0, All-append P xs x h.1 p)

  -- The invariant is about the registry, the seeds that are owned and what was sent.
  pub same_registry :
      (e e' : CoreServer F)
      → e.network_members ≡ e'.network_members
      → e.mg.owned_seeds ≡ e'.mg.owned_seeds
      → e.sent ≡ e'.sent
      → IsSound e
      → IsSound e'
  same_registry e e' members owned sent h = record {
    known = subst (AllEntries (IsNode key_of role_of)) members h.known;
    owned_IsDict = subst (IsDict {V = Seed}) owned h.owned_IsDict;
    owned_peers =
        subst (AllEntries (λ c (seed : Seed). IsPeer sha256 key_of role_of c)) owned h.owned_peers;
    sent_owned = subst (All (IsOwned sha256 key_of role_of e'.mg.owned_seeds)) sent (
        subst (λ (d : Dict Seed). All (IsOwned sha256 key_of role_of d) e.sent) owned h.sent_owned);
  }

  -- A connect message says nothing of seeds.
  pub send_connect-IsSound :
      (pk : List ℕ) (node : NodeInfo) (e : CoreServer F)
      → IsSound e
      → IsSound (send_connect pk node e)
  unfolding send_connect
  send_connect-IsSound pk node e h = record {
    known = h.known;
    owned_IsDict = h.owned_IsDict;
    owned_peers = h.owned_peers;
    sent_owned =
        All-append (IsOwned sha256 key_of role_of e.mg.owned_seeds) e.sent _ h.sent_owned tt;
  }

  pub IsSound-IsKeptFor :
      (pk : List ℕ)
      → IsKeptFor (discovery {F = F} pk) IsSound (λ node. IsNode key_of role_of node.address node)
  unfolding discovery register_node
  IsSound-IsKeptFor pk = record {
    register = λ node e good h. record {
      known =
          insert-AllEntries (IsNode key_of role_of) node.address node e.network_members good
            h.known;
      owned_IsDict = h.owned_IsDict;
      owned_peers = h.owned_peers;
      sent_owned = h.sent_owned;
    };
    connect = λ node e h. send_connect-IsSound pk node e h;
  }

  -- What was owned is owned after `setdefault`.
  still-IsOwned :
      (id : ClientId) (fresh : Seed) (owned : Dict Seed) (x : NodeInfo × Outgoing F)
      → contains id owned ≡ false
      → IsOwned sha256 key_of role_of owned x
      → IsOwned sha256 key_of role_of (set_default id fresh owned) x
  still-IsOwned id fresh owned (node, seed_message seed) new h =
      ground (
        arith,
        h,
        new,
        lookup-set_default (id_of sha256 key_of role_of node.address) id fresh owned,
      )
  still-IsOwned id fresh owned (node, hidden_data_message hidden) new h = tt
  still-IsOwned id fresh owned (node, connect_message msg) new h = tt

  send_seed-IsSound :
      (fresh : Seed) (member : NodeInfo) (id : ClientId) (e : CoreServer F)
      → IsNode key_of role_of member.address member
      → is_core member.role ≡ true
      → node_id sha256 member ≡ ok id
      → has_owned_seed_for_peer id e.mg ≡ false
      → IsSound e
      → IsSound (send_seed fresh member id e)
  unfolding send_seed get_seed_for_peer has_owned_seed_for_peer
  send_seed-IsSound fresh member id e good peer known new h =
      let a = member.address in
      let (at_a, key, role) = good in
      let id_is : id ≡ id_of sha256 key_of role_of a =
        sym (ok-injective (sym (node_id-ok sha256 member (key_of a) key) ∙ known)) in
      let is_peer : role_of a ≡ core = core_of (role_of a) (rw role at peer) in
      record {
        known = h.known;
        owned_IsDict = set_default-IsDict id fresh e.mg.owned_seeds h.owned_IsDict;
        owned_peers =
            set_default-AllEntries (λ c seed. IsPeer sha256 key_of role_of c) id fresh
              e.mg.owned_seeds (a, is_peer, sym id_is) h.owned_peers;
        sent_owned =
            All-append (IsOwned sha256 key_of role_of (set_default id fresh e.mg.owned_seeds))
              e.sent _
              (All-map (λ x o. still-IsOwned id fresh e.mg.owned_seeds x new o) e.sent h.sent_owned)
              (ground (arith, id_is, lookup-set_default id id fresh e.mg.owned_seeds));
      }

  pub IsSound-IsSteady :
      (pk : List ℕ) → IsSteady sha256 pk IsSound (λ node. IsNode key_of role_of node.address node)
  IsSound-IsSteady pk = record {
    loads = λ store e h. same_registry e _ refl refl refl h;
    makes = λ keys store e new h. same_registry e _ refl refl refl h;
    gives = λ fresh member id e good peer known new h.
        send_seed-IsSound fresh member id e good peer known new h;
  }
