-- ===== src/CoreServer/Connect/Keeps.antt =====
-- Conditions that a core server keeps while it handles a connect message or sends a seed.
use private_billings.Prelude.{
  ℕ, zero, suc, ◌≡◌, refl, Bool, true, false, Option, none, some, List, Bool-cases, inl, inr,
}
use private_billings.Python.Raises.{Result, ok, err, result_cases}
use private_billings.Python.Action.{then-keeps}
use private_billings.Cycle.{ClientId}
use private_billings.Masking.{Seed, has_owned_seed_for_peer}
use private_billings.Hiding.Openfhe.{Fhe}
use private_billings.Hiding.{HidingContext}
use private_billings.Hiding.Parameters.{Generation, new_hiding_context}
use private_billings.Network.{NodeInfo, is_core, node_id}
use private_billings.Network.Connect.{ConnectMessage, updated_origin}
use private_billings.Network.Connect
use private_billings.Network.Connect.Keeps
use private_billings.Network.Connect.Keeps.{IsKept}
use private_billings.CoreServer.{Keys, CoreServer, with_id, send_seed, try_send_seed}
use private_billings.CoreServer.Connect.{
  discovery, keys_of, with_context, make_context, init_context, handle_connect,
}

module _ {N : Type 0} {F : Fhe N} (sha256 : List ℕ → ℕ) (pk : List ℕ) (P : CoreServer F → Type 0)
    (Good : NodeInfo → Type 0) where
  -- It is kept when keys are loaded, when the first context is made, and when the first seed is sent to a
  -- good node that is a core server.
  pub record IsSteady : Type 0 where
    pub loads : (store : F.KeyStore) (e : CoreServer F) → P e → P (record e { loaded_keys = store })
    pub makes :
        (keys : Keys F) (store : F.KeyStore) (e : CoreServer F)
        → e.hc ≡ none
        → P e
        → P (record e { hc = some keys; loaded_keys = store })
    pub gives :
        (fresh : Seed) (member : NodeInfo) (id : ClientId) (e : CoreServer F)
        → Good member
        → is_core member.role ≡ true
        → node_id sha256 member ≡ ok id
        → has_owned_seed_for_peer id e.mg ≡ false
        → P e
        → P (send_seed fresh member id e)

  module _ (steady : IsSteady) where
    pub try_send_seed-keeps :
        (fresh : Seed) (member : NodeInfo) (e : CoreServer F)
        → Good member
        → P e
        → P ((try_send_seed sha256 fresh member e).1)
    unfolding try_send_seed
    try_send_seed-keeps fresh member e good h = elim (Bool-cases (is_core member.role)) [
      | inr other ↦ rw other h
      | inl peer ↦ elim (result_cases (node_id sha256 member)) [
        | inr (x, raised) ↦ rw (peer, with_id, raised) h
        | inl (id, known) ↦ elim (Bool-cases (has_owned_seed_for_peer id e.mg)) [
          | inl old ↦ rw (peer, with_id, known, old) h
          | inr new ↦
              rw (peer, with_id, known, new) (steady.gives fresh member id e good peer known new h)
        ]
      ]
    ]

    module _ (g : Generation F) where
      with_context-keeps :
          (made : Result (HidingContext F)) (store : F.KeyStore) (e : CoreServer F)
          → e.hc ≡ none
          → P e
          → P ((with_context g made store e).1)
      with_context-keeps (ok hc) store e new h = steady.makes (keys_of hc) store e new h
      with_context-keeps (err x) store e new h = steady.loads store e h

      init_context-keeps :
          (random : ℕ) (size : Option ℕ) (hc : Option (Keys F)) (e : CoreServer F)
          → e.hc ≡ hc
          → P e
          → P ((init_context g random size hc e).1)
      unfolding init_context make_context
      init_context-keeps random none hc e same h = h
      init_context-keeps random (some zero) hc e same h = h
      init_context-keeps random (some (suc k)) (some keys) e same h = h
      init_context-keeps random (some (suc k)) none e same h =
          with_context-keeps ((new_hiding_context g random (suc k) e.mg e.loaded_keys).0)
            ((new_hiding_context g random (suc k) e.mg e.loaded_keys).1) e same h

      -- After what every server does on a connect message.
      pub connected-keeps :
          (random : ℕ) (fresh : Seed) (msg : ConnectMessage) (origin : NodeInfo) (known : Bool)
          → (e : CoreServer F) → Good (updated_origin msg origin)
          → P ((Connect.handle_connect (discovery pk) msg origin known e).1)
          → P ((handle_connect g sha256 pk random fresh msg origin known e).1)
      unfolding handle_connect
      connected-keeps random fresh msg origin known e good h =
          then-keeps P (Connect.handle_connect (discovery pk) msg origin known) _ e h (λ e' h'.
            then-keeps P (λ e. init_context g random msg.billing_state e.hc e)
              (try_send_seed sha256 fresh (updated_origin msg origin)) e'
              (init_context-keeps random msg.billing_state e'.hc e' refl h')
              (λ e'' h''. try_send_seed-keeps fresh (updated_origin msg origin) e'' good h''))

module _ {N : Type 0} {F : Fhe N} (sha256 : List ℕ → ℕ) (pk : List ℕ) (P : CoreServer F → Type 0)
    (kept : IsKept (discovery pk) P) (steady : IsSteady sha256 pk P (λ node. Unit))
    (g : Generation F) where
  pub handle_connect-keeps :
      (random : ℕ) (fresh : Seed) (msg : ConnectMessage) (origin : NodeInfo) (known : Bool)
      → (e : CoreServer F) → P e
      → P ((handle_connect g sha256 pk random fresh msg origin known e).1)
  handle_connect-keeps random fresh msg origin known e h =
      connected-keeps sha256 pk P (λ node. Unit) steady g random fresh msg origin known e tt
        (Keeps.handle_connect-keeps (discovery pk) P kept msg origin known e h)
