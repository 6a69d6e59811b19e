-- ===== src/Exchange/Given.antt =====
-- The seeds that the core servers have of each other, through any steps of the exchange.
use private_billings.Prelude.{
  ℕ, ◌≡◌, refl, sym, ap, List, [], ◌∷◌, some, Bool-cases, inl, inr, arith, ◌==◌, ==_iff, All,
}
use mathlib.Core.Path.{subst}
use private_billings.Python.Dict.{
  Dict, IsDict, lookup, AllEntries, insert-IsDict, insert-AllEntries, map-AllEntries,
  lookup-set_default,
}
use private_billings.Cycle.{ClientId}
use private_billings.Masking.{
  Seed, Int64Convertor, SharedMaskGenerator, new_generator, get_seed_for_peer, consume_foreign_seed,
  has_owned_seed_for_peer,
}
use private_billings.Hiding.Openfhe.{Fhe}
use private_billings.Hiding.Parameters.{Generation}
use private_billings.Network.{Address, UserType, core, NodeInfo, register_node}
use private_billings.CoreServer.{CoreServer, Outgoing, new_core_server}
use private_billings.CoreServer.Connect.{start, send_connect}
use private_billings.Exchange.{
  IsSent, update, receive_connect, receive_seed, Step, began, connected, seeded, Reached,
  new_servers, later,
}
use private_billings.Exchange.Sound.{id_of, IsOwned, IsSound, send_connect-IsSound}
use private_billings.Exchange.Received.{
  IsLasting, receive_connect-keeps, receive_connect-IsSound, receive_seed-keeps,
  receive_seed-IsSound,
}

module _ {N : Type 0} {F : Fhe N} where
  -- What holds of the changed server, and of every server as it was, holds of each one afterwards.
  pub updated :
      (R : Address → CoreServer F → Type 0) (j : Address) (e : CoreServer F)
      → (servers : Address → CoreServer F) → R j e
      → ((k : Address) → R k (servers k))
      → (k : Address) → R k (update j e servers k)
  updated R j e servers new old k = elim (Bool-cases (k == j)) [
    | inl same ↦ rw same (subst (λ (a : Address). R a e) (sym ((==_iff k j).0 same)) new)
    | inr other ↦ rw other (old k)
  ]

module _ {N : Type 0} where
  -- A seed that is owned stays the one that is owned.
  owned_lasts :
      (c : ClientId) (s : Seed)
      → IsLasting (λ (mg : SharedMaskGenerator N). lookup c mg.owned_seeds ≡ some s)
  unfolding get_seed_for_peer has_owned_seed_for_peer
  owned_lasts c s fresh id mg new h =
      ground (arith, h, lookup-set_default c id fresh mg.owned_seeds)

  foreign_lasts :
      (P : Dict Seed → Type 0) → IsLasting (λ (mg : SharedMaskGenerator N). P mg.foreign_seeds)
  unfolding get_seed_for_peer
  foreign_lasts P fresh id mg new h = h

module _ {N : Type 0} {F : Fhe N} (sha256 : List ℕ → ℕ) (key_of : Address → List ℕ)
    (role_of : Address → UserType) where
  -- The seed is the one that a core server with this id owns for the server at `j`.
  abbrev pub FromOwner : (Address → CoreServer F) → Address → ClientId → Seed → Type 0
  FromOwner servers j c seed =
      (i : Address) × (role_of i ≡ core)
      × (id_of sha256 key_of role_of i ≡ c)
      × (lookup (id_of sha256 key_of role_of j) (servers i).mg.owned_seeds ≡ some seed)

  -- Each key stands once, and each seed is from its owner.
  abbrev pub AreGiven : (Address → CoreServer F) → Address → Dict Seed → Type 0
  AreGiven servers j seeds = IsDict seeds × AllEntries (FromOwner servers j) seeds

  -- Each seed that a core server has received is the one that its owner has for it.
  pub record IsSafe (servers : Address → CoreServer F) : Type 0 where
    pub sound : (j : Address) → role_of j ≡ core → IsSound sha256 key_of role_of (servers j)
    pub given : (j : Address) → role_of j ≡ core → AreGiven servers j (servers j).mg.foreign_seeds

  -- A seed that is sent to an address is the one owned for it.
  sent_lem :
      (owned : Dict Seed) (node : NodeInfo) (seed : Seed) (sent : List (NodeInfo × Outgoing F))
      → All (IsOwned sha256 key_of role_of owned) sent
      → IsSent node seed sent
      → lookup (id_of sha256 key_of role_of node.address) owned ≡ some seed
  sent_lem owned node seed [] h s = absurd s
  sent_lem owned node seed (x ∷ sent) h (inl same) =
      subst (IsOwned sha256 key_of role_of owned) same h.0
  sent_lem owned node seed (x ∷ sent) h (inr s) = sent_lem owned node seed sent h.1 s

  module _ (j : Address) (e : CoreServer F) (servers : Address → CoreServer F)
      (safe : IsSafe servers) where
    -- A change of one server that keeps the seeds that it owns, and receives only seeds from their owners.
    update-IsSafe :
        (role_of j ≡ core → IsSound sha256 key_of role_of e)
        → ((c : ClientId) (s : Seed)
            → lookup c (servers j).mg.owned_seeds ≡ some s
            → lookup c e.mg.owned_seeds ≡ some s)
        → (((c : ClientId) (s : Seed)
              → FromOwner servers j c s
              → FromOwner (update j e servers) j c s)
            → AreGiven (update j e servers) j (servers j).mg.foreign_seeds
            → AreGiven (update j e servers) j e.mg.foreign_seeds)
        → IsSafe (update j e servers)
    update-IsSafe sound keeps receives =
        let after = update j e servers in
        let owned : (k : Address) (c : ClientId) (s : Seed)
            → lookup c (servers k).mg.owned_seeds ≡ some s
            → lookup c (after k).mg.owned_seeds ≡ some s =
          updated
            (λ k x.
              (c : ClientId) (s : Seed)
              → lookup c (servers k).mg.owned_seeds ≡ some s
              → lookup c x.mg.owned_seeds ≡ some s)
            j e servers keeps (λ k c s h. h) in
        let from : (k : Address) (c : ClientId) (s : Seed)
            → FromOwner servers k c s
            → FromOwner after k c s =
          λ k c s h. (h.0, h.1, h.2, owned h.0 (id_of sha256 key_of role_of k) s h.3) in
        let as_before : (k : Address)
            → role_of k ≡ core
            → AreGiven after k (servers k).mg.foreign_seeds =
          λ k peer. (
            (safe.given k peer).0,
            map-AllEntries (FromOwner servers k) (FromOwner after k) _ (from k)
                ((safe.given k peer).1),
          ) in
        record {
          sound =
              updated (λ k x. role_of k ≡ core → IsSound sha256 key_of role_of x) j e servers sound
                safe.sound;
          given =
              updated (λ k x. role_of k ≡ core → AreGiven after k x.mg.foreign_seeds) j e servers
                (λ peer. receives (from j) (as_before j peer)) as_before;
        }

  module _ (g : Generation F) where
    Step-IsSafe :
        (servers servers' : Address → CoreServer F)
        → Step g sha256 key_of role_of servers servers'
        → IsSafe servers
        → IsSafe servers'
    unfolding start send_connect consume_foreign_seed
    Step-IsSafe servers _ (began j edge _ peer) safe =
        update-IsSafe j _ servers safe
          (λ p.
            send_connect-IsSound sha256 key_of role_of (key_of j) _ (servers j) (safe.sound j peer))
          (λ c s h. h) (λ from old. old)
    Step-IsSafe servers _ (connected j random fresh msg _ peer t) safe =
        let e = servers j in
        let e' = receive_connect g sha256 (key_of j) random fresh msg e in
        let Given : Dict Seed → Type 0 = AreGiven (update j e' servers) j in
        update-IsSafe j e' servers safe
          (λ p.
            receive_connect-IsSound sha256 key_of role_of (key_of j) g random fresh msg e t
              (safe.sound j peer))
          (λ c s h.
            receive_connect-keeps sha256 (key_of j) (λ mg. lookup c mg.owned_seeds ≡ some s) g
              random fresh msg e (owned_lasts c s) h)
          (λ from old.
            receive_connect-keeps sha256 (key_of j) (λ mg. Given mg.foreign_seeds) g random fresh
              msg e (foreign_lasts Given) old)
    Step-IsSafe servers _ (seeded i j fresh seed node _ sender peer sent at_j) safe =
        let e = servers j in
        let e' = receive_seed sha256 fresh seed i e in
        let Given : Dict Seed → Type 0 = AreGiven (update j e' servers) j in
        let known = (safe.sound j peer).known in
        let owned =
          subst
            (λ (a : Address).
              lookup (id_of sha256 key_of role_of a) (servers i).mg.owned_seeds ≡ some seed)
            at_j
            (sent_lem (servers i).mg.owned_seeds node seed (servers i).sent
              (safe.sound i sender).sent_owned sent) in
        update-IsSafe j e' servers safe
          (λ p.
            receive_seed-IsSound sha256 key_of role_of (key_of j) fresh seed i e
              (safe.sound j peer))
          (λ c s h.
            receive_seed-keeps sha256 key_of role_of (key_of j)
              (λ mg. lookup c mg.owned_seeds ≡ some s) fresh seed i e (owned_lasts c s) known h h)
          (λ from old.
            receive_seed-keeps sha256 key_of role_of (key_of j) (λ mg. Given mg.foreign_seeds) fresh
              seed i e (foreign_lasts Given) known old
              (
                insert-IsDict (id_of sha256 key_of role_of i) seed e.mg.foreign_seeds old.0,
                insert-AllEntries (FromOwner (update j e' servers) j)
                    (id_of sha256 key_of role_of i) seed e.mg.foreign_seeds
                    (from _ _ (i, sender, refl, owned)) old.1,
              ))

    new_servers-IsSafe :
        (convertor : Int64Convertor N) (store : F.KeyStore)
        → IsSafe (λ a. new_core_server a (key_of a) convertor store)
    unfolding new_core_server new_generator register_node
    new_servers-IsSafe convertor store = record {
      sound = λ j peer. record {
        known = ((refl, refl, ap some (sym peer)), tt);
        owned_IsDict = tt;
        owned_peers = tt;
        sent_owned = tt;
      };
      given = λ j peer. (tt, tt);
    }

    pub Reached-IsSafe :
        {convertor : Int64Convertor N} {store : F.KeyStore} {servers : Address → CoreServer F}
        → Reached g sha256 key_of role_of convertor store servers
        → IsSafe servers
    Reached-IsSafe {convertor} {store} new_servers = new_servers-IsSafe convertor store
    Reached-IsSafe (later r s) = Step-IsSafe _ _ s (Reached-IsSafe r)
