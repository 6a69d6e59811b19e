-- ===== src/Exchange/Agreed.antt =====
-- The generators of core servers that have exchanged their seeds.
use private_billings.Prelude.{
  ℕ, ◌≡◌, refl, sym, ap, ◌∙◌, true, false, Option-cases, List, [], ◌∷◌, map, none, some, Bool-cases,
  inl, inr, arith, ◌==◌, ==_iff, All, All-map, All-map₂,
}
use mathlib.Core.Path.{subst}
use private_billings.Python.Dict.{
  Dict, lookup, contains, IsDict, AllEntries, lookup-AllEntries, contains-lookup, lookup-contains,
}
use private_billings.Cycle.{ClientId}
use private_billings.Masking.{
  Seed, Int64Convertor, SharedMaskGenerator, is_stable, has_owned_seed_for_peer,
  has_foreign_seed_from_peer,
}
use private_billings.Masking.Seeds.{is_stable_iff}
use private_billings.Masking.Cancel.{Parties, IsAgreed}
use private_billings.Masking.Exchange.{All-over}
use private_billings.Hiding.Openfhe.{Fhe}
use private_billings.Hiding.Parameters.{Generation}
use private_billings.Network.{Address, UserType, core}
use private_billings.Network.Connect.Discovered.{listed}
use private_billings.CoreServer.{CoreServer}
use private_billings.Exchange.{Reached}
use private_billings.Exchange.Sound.{id_of, IsPeer}
use private_billings.Exchange.Given.{FromOwner, IsSafe, Reached-IsSafe}

module _ (sha256 : List ℕ → ℕ) (key_of : Address → List ℕ) (role_of : Address → UserType) where
  -- The id of the server at an address.
  abbrev pub server_id : Address → ClientId
  server_id = id_of sha256 key_of role_of

module _ (role_of : Address → UserType) where
  -- These are all the core servers, each once.
  pub record AreCores (cores : List Address) : Type 0 where
    pub all_cores : All (λ a. role_of a ≡ core) cores
    pub no_others : (a : Address) → role_of a ≡ core → listed a cores ≡ true
    pub once : IsDict (map (λ a. (a, a)) cores)

module _ {N : Type 0} {F : Fhe N} (sha256 : List ℕ → ℕ) (key_of : Address → List ℕ)
    (role_of : Address → UserType) where
  -- The generators of the servers at some addresses, by their ids.
  abbrev pub parties : (Address → CoreServer F) → List Address → Parties N
  parties servers cores = map (λ a. (server_id sha256 key_of role_of a, (servers a).mg)) cores

  module _
      (ids : (a b : Address)
        → role_of a ≡ core
        → role_of b ≡ core
        → server_id sha256 key_of role_of a ≡ server_id sha256 key_of role_of b
        → a ≡ b)
      (servers : Address → CoreServer F) (safe : IsSafe sha256 key_of role_of servers) where
    abbrev id : Address → ClientId
    id = server_id sha256 key_of role_of

    -- A seed that one has received from another is the one that the other owns for it.
    received_owned :
        (a b : Address) (s : Seed)
        → role_of a ≡ core
        → role_of b ≡ core
        → lookup (id a) (servers b).mg.foreign_seeds ≡ some s
        → lookup (id b) (servers a).mg.owned_seeds ≡ some s
    received_owned a b s a_core b_core found =
        let (i, i_core, same, owned) =
          lookup-AllEntries (FromOwner sha256 key_of role_of servers b) (id a) s
            (servers b).mg.foreign_seeds ((safe.given b b_core).1) found in
        subst (λ (x : Address). lookup (id b) (servers x).mg.owned_seeds ≡ some s)
          (ids i a i_core a_core same) owned

    -- Of two stable servers, one has received what the other owns for it.
    owned_received :
        (a b : Address)
        → role_of a ≡ core
        → role_of b ≡ core
        → is_stable (servers a).mg ≡ true
        → is_stable (servers b).mg ≡ true
        → lookup (id b) (servers a).mg.owned_seeds ≡ lookup (id a) (servers b).mg.foreign_seeds
    unfolding has_owned_seed_for_peer has_foreign_seed_from_peer
    owned_received a b a_core b_core a_stable b_stable =
        elim (Option-cases (lookup (id a) (servers b).mg.foreign_seeds)) [
          | inr (s, found) ↦ received_owned a b s a_core b_core found ∙ sym found
          | inl missing ↦ elim (Option-cases (lookup (id b) (servers a).mg.owned_seeds)) [
            | inl none_owned ↦ none_owned ∙ sym missing
            | inr (s, owned) ↦
                let back : contains (id b) (servers a).mg.foreign_seeds ≡ true =
                  sym ((is_stable_iff (servers a).mg).0 a_stable (id b))
                  ∙ lookup-contains (id b) (servers a).mg.owned_seeds s owned in
                let (t, found) = contains-lookup (id b) (servers a).mg.foreign_seeds back in
                let given = received_owned b a t b_core a_core found in
                let there : contains (id a) (servers b).mg.foreign_seeds ≡ true =
                  sym ((is_stable_iff (servers b).mg).0 b_stable (id a))
                  ∙ lookup-contains (id a) (servers b).mg.owned_seeds t given in
                absurd (ground (arith, there, missing))
          ]
        ]

    -- Another core server has another id.
    parties-other :
        (a : Address) (cores : List Address)
        → role_of a ≡ core
        → All (λ b. role_of b ≡ core) cores
        → lookup a (map (λ b. (b, b)) cores) ≡ none
        → lookup (id a) (parties servers cores) ≡ none
    parties-other a [] a_core h new = refl
    parties-other a (b ∷ cores) a_core h new =
        let different : (a == b) ≡ false = ground (arith, new) in
        elim (Bool-cases (id a == id b)) [
          | inl same ↦
              let a_is_b = ids a b a_core h.0 ((==_iff (id a) (id b)).0 same) in
              absurd (ground (arith, different, a_is_b))
          | inr other ↦ rw other (parties-other a cores a_core h.1 (ground (arith, different, new)))
        ]

    parties-IsDict :
        (cores : List Address)
        → All (λ b. role_of b ≡ core) cores
        → IsDict (map (λ b. (b, b)) cores)
        → IsDict (parties servers cores)
    parties-IsDict [] h once = tt
    parties-IsDict (a ∷ cores) h once =
        (parties-other a cores h.0 h.1 once.0, parties-IsDict cores h.1 once.1)

    parties-listed :
        (a : Address) (cores : List Address)
        → listed a cores ≡ true
        → contains (id a) (parties servers cores) ≡ true
    parties-listed a [] h = absurd (ground (arith, h))
    parties-listed a (b ∷ cores) h = elim (Bool-cases (a == b)) [
      | inl same ↦
          let here : (id a == id b) ≡ true =
            (==_iff (id a) (id b)).1 (ap id ((==_iff a b).0 same)) in
          rw (contains, here) refl
      | inr other ↦ ground (arith, h, other, parties-listed a cores)
    ]

    entries-All :
        (P : ClientId → Seed → Type 0) (d : Dict Seed) → AllEntries P d → All (λ e. P e.0 e.1) d
    entries-All P [] h = tt
    entries-All P ((c, seed) ∷ d) h = (h.0, entries-All P d h.1)

    parties-IsAgreed :
        (cores : List Address)
        → AreCores role_of cores
        → All (λ a. is_stable (servers a).mg ≡ true) cores
        → IsAgreed (parties servers cores)
    parties-IsAgreed cores are stable =
        let party : Address → ClientId × SharedMaskGenerator N = λ a. (id a, (servers a).mg) in
        let known : (c : ClientId)
            → IsPeer sha256 key_of role_of c
            → contains c (parties servers cores) ≡ true =
          λ c (a, a_core, same).
            subst (λ (c : ClientId). contains c (parties servers cores) ≡ true) same
              (parties-listed a cores (are.no_others a a_core)) in
        record {
          ids = parties-IsDict cores are.all_cores are.once;
          owned_IsDict =
              All-over (λ p. IsDict p.1.owned_seeds) party cores
                (All-map (λ a a_core. (safe.sound a a_core).owned_IsDict) cores are.all_cores);
          foreign_IsDict =
              All-over (λ p. IsDict p.1.foreign_seeds) party cores
                (All-map (λ a a_core. (safe.given a a_core).0) cores are.all_cores);
          owned_known =
              All-over (λ p. All (λ e. contains e.0 (parties servers cores) ≡ true) p.1.owned_seeds)
                party cores
                (All-map
                  (λ a a_core.
                    All-map (λ e peer. known e.0 peer) (servers a).mg.owned_seeds
                      (entries-All (λ c s. IsPeer sha256 key_of role_of c) _
                        (safe.sound a a_core).owned_peers))
                  cores are.all_cores);
          foreign_known =
              All-over
                (λ p. All (λ e. contains e.0 (parties servers cores) ≡ true) p.1.foreign_seeds)
                party cores
                (All-map
                  (λ a a_core.
                    All-map (λ e from. known e.0 (from.0, from.1, from.2))
                      (servers a).mg.foreign_seeds
                      (entries-All (FromOwner sha256 key_of role_of servers a) _
                        ((safe.given a a_core).1)))
                  cores are.all_cores);
          agreed =
              All-over
                (λ p.
                  All (λ q. lookup q.0 p.1.owned_seeds ≡ lookup p.0 q.1.foreign_seeds)
                    (parties servers cores))
                party cores
                (All-map₂
                  (λ a a_core a_stable.
                    All-over
                      (λ q. lookup q.0 (servers a).mg.owned_seeds ≡ lookup (id a) q.1.foreign_seeds)
                      party cores
                      (All-map₂
                        (λ b b_core b_stable. owned_received a b a_core b_core a_stable b_stable)
                        cores are.all_cores stable))
                  cores are.all_cores stable);
        }

module _ {N : Type 0} {F : Fhe N} (g : Generation F) (sha256 : List ℕ → ℕ)
    (key_of : Address → List ℕ) (role_of : Address → UserType) where
  -- Core servers start and exchange connect messages and seeds, where a message that was sent may arrive late,
  -- more than once or never, connect messages are true of their senders and of the nodes they list, and the
  -- keys of the core servers have different ids. Then whenever the generators of all core servers are stable,
  -- each two of them agree on the seeds that they hold of each other, and nobody holds a seed of or for anyone
  -- else.
  pub parties_of_reached-IsAgreed :
      (convertor : Int64Convertor N) (store : F.KeyStore) (servers : Address → CoreServer F)
      → (cores : List Address)
      → ((a b : Address)
          → role_of a ≡ core
          → role_of b ≡ core
          → server_id sha256 key_of role_of a ≡ server_id sha256 key_of role_of b
          → a ≡ b)
      → AreCores role_of cores
      → Reached g sha256 key_of role_of convertor store servers
      → All (λ a. is_stable (servers a).mg ≡ true) cores
      → IsAgreed (parties sha256 key_of role_of servers cores)
  parties_of_reached-IsAgreed convertor store servers cores ids are reached stable =
      parties-IsAgreed sha256 key_of role_of ids servers
        (Reached-IsSafe sha256 key_of role_of g reached) cores are stable
