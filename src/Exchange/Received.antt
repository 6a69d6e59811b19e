-- ===== src/Exchange/Received.antt =====
-- What the messages that a core server receives do to its registry and its seeds.
use private_billings.Prelude.{ℕ, ◌≡◌, refl, sym, ap, ◌∙◌, false, List, some, Bool-cases, inl, inr}
use mathlib.Core.Path.{subst}
use private_billings.Python.Dict.{
  lookup, contains, AllEntries, insert-AllEntries, lookup-AllEntries, contains-lookup,
  lookup-contains, lookup-get_or,
}
use private_billings.Cycle.{ClientId}
use private_billings.Masking.{
  Seed, SharedMaskGenerator, get_seed_for_peer, has_owned_seed_for_peer, consume_foreign_seed,
}
use private_billings.Hiding.Openfhe.{Fhe}
use private_billings.Hiding.Parameters.{Generation}
use private_billings.Network.{Address, UserType, NodeInfo, get_node_info}
use private_billings.Network.Connect.{ConnectMessage, updated_origin, write_origin}
use private_billings.Network.Connect
use private_billings.Network.Connect.Constant.{
  IsNode, IsTrueOf, unchanged, own_address, updated_origin-IsNode,
}
use private_billings.Network.Connect.Keeps.{IsKept, connect_unknown-keeps}
use private_billings.Network.Connect.Keeps
use private_billings.EdgeServer.Registered.{node_id-ok}
use private_billings.CoreServer.{CoreServer, with_id, send_seed, try_send_seed, handle_seed}
use private_billings.CoreServer.Connect.{discovery, send_connect}
use private_billings.CoreServer.Connect.Keeps.{IsSteady, try_send_seed-keeps, connected-keeps}
use private_billings.Exchange.{receive_connect, receive_seed}
use private_billings.Exchange.Sound.{
  id_of, IsSound, same_registry, IsSound-IsKeptFor, IsSound-IsSteady,
}

module _ {N : Type 0} (Q : SharedMaskGenerator N → Type 0) where
  -- A condition on the generator that the first seed for a peer keeps.
  abbrev pub IsLasting : Type 0
  IsLasting =
      (fresh : Seed) (id : ClientId) (mg : SharedMaskGenerator N)
      → has_owned_seed_for_peer id mg ≡ false
      → Q mg
      → Q ((get_seed_for_peer fresh id mg).1)

module _ {N : Type 0} {F : Fhe N} (sha256 : List ℕ → ℕ) (pk : List ℕ)
    (Q : SharedMaskGenerator N → Type 0) where
  generator-IsKept : IsKept (discovery {F = F} pk) (λ e. Q e.mg)
  unfolding discovery send_connect
  generator-IsKept = record {
    nodes = λ node ms e q. q;
    register = λ node e q. q;
    connect = λ node e q. q;
  }

  generator-IsSteady :
      IsLasting Q → IsSteady sha256 pk (λ (e : CoreServer F). Q e.mg) (λ node. Unit)
  unfolding send_seed
  generator-IsSteady lasting = record {
    loads = λ store e q. q;
    makes = λ keys store e new q. q;
    gives = λ fresh member id e good peer known new q. lasting fresh id e.mg new q;
  }

  pub receive_connect-keeps :
      (g : Generation F) (random : ℕ) (fresh : Seed) (msg : ConnectMessage) (e : CoreServer F)
      → IsLasting Q
      → Q e.mg
      → Q (receive_connect g sha256 pk random fresh msg e).mg
  receive_connect-keeps g random fresh msg e lasting q =
      connected-keeps sha256 pk (λ e. Q e.mg) (λ node. Unit) (generator-IsSteady lasting) g random
        fresh msg _ _ e tt
        (Keeps.handle_connect-keeps (discovery pk) (λ e. Q e.mg) generator-IsKept msg _ _ e q)

module _ {N : Type 0} {F : Fhe N} (sha256 : List ℕ → ℕ) (key_of : Address → List ℕ)
    (role_of : Address → UserType) (pk : List ℕ) where
  -- A registered node that says what the registry has of it leaves the registry as it is.
  write_origin-IsSound :
      (msg : ConnectMessage) (e : CoreServer F)
      → IsTrueOf key_of role_of msg
      → IsSound sha256 key_of role_of e
      → IsSound sha256 key_of role_of (
          write_origin
            (discovery pk)
            (updated_origin msg (get_node_info msg.reply_address e.network_members))
            (contains msg.reply_address e.network_members)
            e)
  unfolding write_origin discovery updated_origin get_node_info
  write_origin-IsSound msg e (key, role, nodes) h =
      let a = msg.reply_address in
      let ms = e.network_members in
      elim (Bool-cases (contains a ms)) [
        | inr new ↦ rw new h
        | inl old ↦
            let (node, found) = contains-lookup a ms old in
            let (at_a, has_key, has_role) =
              lookup-AllEntries (IsNode key_of role_of) a node ms h.known found in
            let same =
              unchanged msg ms node found at_a (has_key ∙ ap some (sym key))
                (has_role ∙ ap some (sym role)) in
            rw old (record {
              known = subst (AllEntries (IsNode key_of role_of)) (sym same) (
                  insert-AllEntries (IsNode key_of role_of) a node ms (at_a, has_key, has_role)
                    h.known);
              owned_IsDict = h.owned_IsDict;
              owned_peers = h.owned_peers;
              sent_owned = h.sent_owned;
            })
      ]

  pub receive_connect-IsSound :
      (g : Generation F) (random : ℕ) (fresh : Seed) (msg : ConnectMessage) (e : CoreServer F)
      → IsTrueOf key_of role_of msg
      → IsSound sha256 key_of role_of e
      → IsSound sha256 key_of role_of (receive_connect g sha256 pk random fresh msg e)
  unfolding Connect.handle_connect
  receive_connect-IsSound g random fresh msg e t h =
      let Good : NodeInfo → Type 0 = λ node. IsNode key_of role_of node.address node in
      connected-keeps sha256 pk (IsSound sha256 key_of role_of) Good
        (IsSound-IsSteady sha256 key_of role_of pk) g random fresh msg _ _ e
        (updated_origin-IsNode key_of role_of e.network_members msg h.known t)
        (connect_unknown-keeps (discovery pk) (IsSound sha256 key_of role_of) Good msg.network_state
          _ _ (IsSound-IsKeptFor sha256 key_of role_of pk) (own_address key_of role_of _ (t.2))
          (write_origin-IsSound msg e t h))

module _ {N : Type 0} {F : Fhe N} (sha256 : List ℕ → ℕ) (key_of : Address → List ℕ)
    (role_of : Address → UserType) (pk : List ℕ) where
  -- A known core server's seed is stored under its id, and then a seed may be sent back.
  received :
      (fresh seed : Seed) (i : Address) (e : CoreServer F) (node : NodeInfo)
      → lookup i e.network_members ≡ some node
      → node.pk ≡ some (key_of i)
      → receive_seed sha256 fresh seed i e
        ≡ (try_send_seed sha256 fresh node
            (record e { mg = consume_foreign_seed seed (id_of sha256 key_of role_of i) e.mg })).1
  unfolding handle_seed get_node_info
  received fresh seed i e node found key =
      let known = node_id-ok sha256 node (key_of i) key in
      let there = lookup-contains i e.network_members node found in
      rw (there, lookup-get_or i _ node e.network_members found, with_id, known) refl

  -- What holds if the sender is unknown, and if it is known and its seed stored, holds afterwards.
  received_either :
      (P : CoreServer F → Type 0) (fresh seed : Seed) (i : Address) (e : CoreServer F)
      → AllEntries (IsNode key_of role_of) e.network_members
      → P e
      → ((node : NodeInfo)
          → IsNode key_of role_of node.address node
          → P (
              (try_send_seed sha256 fresh node (record e {
                mg = consume_foreign_seed seed (id_of sha256 key_of role_of i) e.mg;
              })).1))
      → P (receive_seed sha256 fresh seed i e)
  received_either P fresh seed i e known p stored =
      let ms = e.network_members in
      elim (Bool-cases (contains i ms)) [
        | inr new ↦ rw new p
        | inl old ↦
            let (node, found) = contains-lookup i ms old in
            let (at_i, key, role) =
              lookup-AllEntries (IsNode key_of role_of) i node ms known found in
            let good =
              lookup-AllEntries (λ a node. IsNode key_of role_of node.address node) i node ms
                (own_address key_of role_of ms known) found in
            subst P (sym (received fresh seed i e node found key)) (stored node good)
      ]

  pub receive_seed-keeps :
      (Q : SharedMaskGenerator N → Type 0) (fresh seed : Seed) (i : Address) (e : CoreServer F)
      → IsLasting Q
      → AllEntries (IsNode key_of role_of) e.network_members
      → Q e.mg
      → Q (consume_foreign_seed seed (id_of sha256 key_of role_of i) e.mg)
      → Q (receive_seed sha256 fresh seed i e).mg
  receive_seed-keeps Q fresh seed i e lasting known q q' =
      received_either (λ e. Q e.mg) fresh seed i e known q
        (λ node good.
          try_send_seed-keeps sha256 pk (λ (e : CoreServer F). Q e.mg) (λ node. Unit)
            (generator-IsSteady sha256 pk Q lasting) fresh node _ tt q')

  pub receive_seed-IsSound :
      (fresh seed : Seed) (i : Address) (e : CoreServer F)
      → IsSound sha256 key_of role_of e
      → IsSound sha256 key_of role_of (receive_seed sha256 fresh seed i e)
  unfolding consume_foreign_seed
  receive_seed-IsSound fresh seed i e h =
      received_either (IsSound sha256 key_of role_of) fresh seed i e h.known h (λ node good.
        try_send_seed-keeps sha256 pk (IsSound sha256 key_of role_of)
          (λ node. IsNode key_of role_of node.address node)
          (IsSound-IsSteady sha256 key_of role_of pk) fresh node _ good
          (same_registry sha256 key_of role_of e _ refl refl refl h))
