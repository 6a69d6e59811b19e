-- ===== src/CoreServer/Connect/Entered.antt =====
-- What a core server has after a connect message.
use private_billings.Prelude.{
  ℕ, zero, suc, ◌<◌, ◌≤◌, ◌%◌, ◌^◌, ◌≡◌, refl, sym, ap, ◌∙◌, Bool, true, Option, none, some, List,
  Bool-cases, ◌⊎◌, inl, inr, arith, ==_refl,
}
use mathlib.Core.Path.{subst}
use private_billings.Python.Raises.{Result, ok}
use private_billings.Python.Action.{Action, then-ok, ◌>>◌}
use private_billings.Python.Dict.{
  Dict, get_or, contains, set_default, lookup-set_default, lookup-contains,
}
use private_billings.Number.{Number}
use private_billings.Masking.{Seed, has_owned_seed_for_peer, get_seed_for_peer}
use private_billings.Hiding.Openfhe.{Fhe}
use private_billings.Hiding.Laws.{IsHomomorphic}
use private_billings.Hiding.Parameters.{Generation}
use private_billings.Hiding.Parameters.Room.{IsGeneration, new_hiding_context_lem}
use private_billings.Network.{UserType, edge, core, NodeInfo, node_id}
use private_billings.Network.Connect.{ConnectMessage, updated_origin}
use private_billings.Network.Connect
use private_billings.Network.Connect.Discovered.{IsNetwork, handle_connect-discovers}
use private_billings.Network.Connect.Keeps.{IsKept}
use private_billings.Network.Connect.Keeps
use private_billings.CoreServer.{Keys, CoreServer, with_id, send_seed, try_send_seed}
use private_billings.CoreServer.Connect.{
  discovery, send_connect, keys_of, make_context, init_context, handle_connect,
}
use private_billings.CoreServer.Connect.Context.{greeted, discovery-IsDiscovery}

now_there : (id : ℕ) (fresh : Seed) (d : Dict Seed) → contains id (set_default id fresh d) ≡ true
now_there id fresh d =
    lookup-contains id (set_default id fresh d) (get_or id fresh d)
      (rw (lookup-set_default id id fresh d, ==_refl id) refl)

role_cases : (r : UserType) → (r ≡ edge) ⊎ (r ≡ core)
role_cases edge = inl refl
role_cases core = inr refl

module _ {N : Type 0} {F : Fhe N} (sha256 : List ℕ → ℕ) where
  -- Afterwards a core server that a seed is due to has one, nothing is raised and the context is kept.
  pub record HasGiven (role : UserType) (pk : List ℕ) (e : CoreServer F)
      (r : Result (Unit {0}) × CoreServer F) : Type 0 where
    pub fine : r.0 ≡ ok tt
    pub seed : (role ≡ edge) ⊎ (has_owned_seed_for_peer (sha256 pk % 2 ^ 64) r.1.mg ≡ true)
    pub context : r.1.hc ≡ e.hc
    pub loaded : r.1.loaded_keys ≡ e.loaded_keys

  try_send_seed-HasGiven :
      (fresh : Seed) (msg : ConnectMessage) (origin : NodeInfo) (e : CoreServer F)
      → HasGiven msg.role msg.pk e (try_send_seed sha256 fresh (updated_origin msg origin) e)
  unfolding try_send_seed updated_origin node_id send_seed get_seed_for_peer has_owned_seed_for_peer
  try_send_seed-HasGiven fresh msg origin e = elim (role_cases msg.role) [
    | inl e₁ ↦ rw e₁ (record { fine = refl; seed = inl refl; context = refl; loaded = refl })
    | inr e₁ ↦
        let id = sha256 msg.pk % 2 ^ 64 in
        rw e₁ (elim (Bool-cases (contains id e.mg.owned_seeds)) [
          | inl old ↦
              rw (with_id, old)
                (record { fine = refl; seed = inr old; context = refl; loaded = refl })
          | inr new ↦
              rw (with_id, new)
                (record {
                  fine = refl;
                  seed = inr (now_there id fresh e.mg.owned_seeds);
                  context = refl;
                  loaded = refl;
                })
        ])
  ]

module _ {N : Type 0} ⦃n : Number N⦄ {F : Fhe N} (laws : IsHomomorphic F) (g : Generation F)
    (generation : IsGeneration laws g) where
  open laws use {IsKeyPair, HasKey, depth}

  -- The server has this context, and its relinearization key is loaded.
  pub record HasContext (size : ℕ) (keys : Keys F) (e : CoreServer F) : Type 0 where
    pub there : e.hc ≡ some keys
    pub length : keys.cycle_length ≡ size
    pub room : size ≤ F.batch_size keys.cc
    pub deep : 2 ≤ depth keys.cc
    pub pair : IsKeyPair keys.cc keys.public_key keys.secret_key
    pub loaded : HasKey e.loaded_keys keys.public_key

  init_context-HasContext :
      (random size : ℕ) (e : CoreServer F)
      → 0 < size
      → size ≤ 8192
      → (keys : Keys F) × ((init_context g random (some size) none e).0 ≡ ok tt)
        × HasContext size keys ((init_context g random (some size) none e).1)
  unfolding init_context make_context keys_of
  init_context-HasContext random zero e pos small = absurd (omega arith)
  init_context-HasContext random (suc k) e pos small =
      let (hc, store, made, same, mg, room, deep, pair, key) =
        new_hiding_context_lem laws g generation random (suc k) e.mg e.loaded_keys pos small in
      (
        keys_of hc,
        rw (make_context, made) refl,
        rw (make_context, made)
            (record {
              there = refl;
              length = same;
              room = room;
              deep = deep;
              pair = pair;
              loaded = key;
            }),
      )

  no_context-IsKept : (pk : List ℕ) → IsKept (discovery {F = F} pk) (λ e. e.hc ≡ none)
  unfolding discovery send_connect
  no_context-IsKept pk = record {
    nodes = λ node ms e new. new;
    register = λ node e new. new;
    connect = λ node e new. new;
  }

  module _ (sha256 : List ℕ → ℕ) where
    -- The connection is complete: a context of this length, and a seed for the origin if it is a core server.
    pub record HasEntered (size : ℕ) (role : UserType) (pk : List ℕ)
        (r : Result (Unit {0}) × CoreServer F) : Type 0 where
      pub fine : r.0 ≡ ok tt
      pub keys : Keys F
      pub context : HasContext size keys r.1
      pub seed : (role ≡ edge) ⊎ (has_owned_seed_for_peer (sha256 pk % 2 ^ 64) r.1.mg ≡ true)

    gives-HasEntered :
        (size : ℕ) (keys : Keys F) (role : UserType) (pk : List ℕ) (e : CoreServer F)
        → (r : Result (Unit {0}) × CoreServer F) → HasContext size keys e
        → HasGiven sha256 role pk e r
        → HasEntered size role pk r
    gives-HasEntered size keys role pk e r c h = record {
      fine = h.fine;
      keys = keys;
      context = record {
        there = h.context ∙ c.there;
        length = c.length;
        room = c.room;
        deep = c.deep;
        pair = c.pair;
        loaded =
            subst (λ (store : F.KeyStore). HasKey store keys.public_key) (sym h.loaded) c.loaded;
      };
      seed = h.seed;
    }

    -- On the connect message of an edge server or of a core server that gives a cycle length of 1 to 8192 and
    -- whose network has each node under its own address and with its key, a core server without a hiding
    -- context raises nothing. It then has a context for cycles of that length: a ciphertext has room for all
    -- slots, there is depth for two multiplications, the keys belong together and the relinearization key is
    -- loaded. If the origin is a core server, it has a seed for it.
    pub handle_connect-HasEntered :
        (pk : List ℕ) (random size : ℕ) (fresh : Seed) (msg : ConnectMessage) (origin : NodeInfo)
        → (is_registered : Bool) (e : CoreServer F) → IsNetwork msg.network_state
        → e.hc ≡ none
        → msg.billing_state ≡ some size
        → 0 < size
        → size ≤ 8192
        → HasEntered size msg.role msg.pk
            (handle_connect g sha256 pk random fresh msg origin is_registered e)
    unfolding handle_connect
    handle_connect-HasEntered pk random size fresh msg origin is_registered e net new billed pos
          small =
        let connect : Action (CoreServer F) (Unit {0}) =
          Connect.handle_connect (discovery pk) msg origin is_registered in
        let init : Action (CoreServer F) (Unit {0}) =
          λ e. init_context g random msg.billing_state e.hc e in
        let give : Action (CoreServer F) (Unit {0}) =
          try_send_seed sha256 fresh (updated_origin msg origin) in
        let e₁ = (connect e).1 in
        let (connected, seen, greets) =
          handle_connect-discovers (discovery {F = F} pk) greeted (discovery-IsDiscovery pk) msg
            origin is_registered e 0 net in
        let new₁ : e₁.hc ≡ none =
          Keeps.handle_connect-keeps (discovery pk) (λ e. e.hc ≡ none) (no_context-IsKept pk) msg
            origin is_registered e new in
        let (keys, made, context) = init_context-HasContext random size e₁ pos small in
        let inits : init e₁ ≡ init_context g random (some size) none e₁ =
          ap (λ (b : Option ℕ). init_context g random b e₁.hc e₁) billed
          ∙ ap (λ (h : Option (Keys F)). init_context g random (some size) h e₁) new₁ in
        let run : (connect >> (init >> give)) e
            ≡ give ((init_context g random (some size) none e₁).1) =
          then-ok connect (init >> give) e connected
          ∙ then-ok init give e₁ (ap (λ (r : Result (Unit {0}) × CoreServer F). r.0) inits ∙ made)
          ∙ ap (λ (r : Result (Unit {0}) × CoreServer F). give r.1) inits in
        subst (HasEntered size msg.role msg.pk) (sym run) (
          gives-HasEntered size keys msg.role msg.pk _ _ context
            (try_send_seed-HasGiven sha256 fresh msg origin _))
