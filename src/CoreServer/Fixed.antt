-- ===== src/CoreServer/Fixed.antt =====
-- What a core server never changes once it has it.
use private_billings.Prelude.{ℕ, ◌≡◌, ◌≢◌, sym, ◌∙◌, List, [], ◌∷◌, none, some, arith, inl, inr}
use private_billings.Python.Raises.{result_cases}
use private_billings.Python.Dict.{lookup, lookup-set_default}
use private_billings.Number.{Number}
use private_billings.Cycle.{ClientId}
use private_billings.Masking.{Seed, Pcg64, get_seed_for_peer, consume_foreign_seed}
use private_billings.Hiding.Openfhe.{Fhe}
use private_billings.Hiding.Parameters.{Generation}
use private_billings.Hiding.{Hashing}
use private_billings.Network.{NodeInfo, node_id}
use private_billings.Network.Connect.Keeps.{IsKept}
use private_billings.CoreServer.{
  Keys, CoreServer, hiding_context, with_id, send_seed, handle_seed, handle_get_bill, hide_data,
  handle_data, handle_hidden_bill,
}
use private_billings.CoreServer.Connect.{start, discovery, send_connect}
use private_billings.CoreServer.Connect.Keeps.{IsSteady, try_send_seed-keeps, handle_connect-keeps}
use private_billings.CoreServer.Events.{
  Event, started, connected, seed_received, data_received, bill_received, bill_requested, handle,
  handle_all,
}

module _ {N : Type 0} {F : Fhe N} (keys : Keys F) (c : ClientId) (seed : Seed) where
  -- The server has these keys, and this seed for this peer.
  pub record Has (e : CoreServer F) : Type 0 where
    pub context : e.hc ≡ some keys
    pub given : lookup c e.mg.owned_seeds ≡ some seed

module _ {N : Type 0} {F : Fhe N} (sha256 : List ℕ → ℕ) (pk : List ℕ) (keys : Keys F) (c : ClientId)
    (seed : Seed) where
  Has-IsKept : IsKept (discovery {F = F} pk) (Has keys c seed)
  unfolding discovery send_connect
  Has-IsKept = record {
    nodes = λ node ms e h. record { context = h.context; given = h.given };
    register = λ node e h. record { context = h.context; given = h.given };
    connect = λ node e h. record { context = h.context; given = h.given };
  }

  send_seed-Has :
      (fresh : Seed) (member : NodeInfo) (id : ClientId) (e : CoreServer F)
      → Has keys c seed e
      → Has keys c seed (send_seed fresh member id e)
  unfolding send_seed get_seed_for_peer
  send_seed-Has fresh member id e h = record {
    context = h.context;
    given = ground (arith, h.given, lookup-set_default c id fresh e.mg.owned_seeds);
  }

  Has-IsSteady : IsSteady sha256 pk (Has keys c seed) (λ node. Unit)
  Has-IsSteady = record {
    loads = λ store e h. record { context = h.context; given = h.given };
    makes = λ new store e no_context h. absurd (some_none (sym h.context ∙ no_context));
    gives = λ fresh member id e good peer known new h. send_seed-Has fresh member id e h;
  }
    where
      some_none : some keys ≢ none
      some_none e = ground arith

  handle_seed-Has :
      (fresh received : Seed) (origin : NodeInfo) (e : CoreServer F)
      → Has keys c seed e
      → Has keys c seed ((handle_seed sha256 fresh received origin e).1)
  unfolding handle_seed consume_foreign_seed
  handle_seed-Has fresh received origin e h = elim (result_cases (node_id sha256 origin)) [
    | inr (x, raised) ↦ rw (with_id, raised) h
    | inl (id, known) ↦
        rw (with_id, known)
          (try_send_seed-keeps sha256 pk (Has keys c seed) (λ node. Unit) Has-IsSteady fresh origin
            (record e { mg = consume_foreign_seed received id e.mg }) tt
            (record { context = h.context; given = h.given }))
  ]

module _ {N : Type 0} ⦃n : Number N⦄ (pcg64 : Pcg64) (hashing : Hashing) {F : Fhe N}
    (g : Generation F) (sha256 : List ℕ → ℕ) (pk : List ℕ) where
  handle-Has :
      (keys : Keys F) (c : ClientId) (seed : Seed) (x : Event F) (e : CoreServer F)
      → Has keys c seed e
      → Has keys c seed (handle pcg64 hashing g sha256 pk x e)
  unfolding start send_connect handle_data handle_hidden_bill handle_get_bill
  handle-Has keys c seed (started edge) e h = record { context = h.context; given = h.given }
  handle-Has keys c seed (connected random fresh msg origin known) e h =
      handle_connect-keeps sha256 pk (Has keys c seed) (Has-IsKept sha256 pk keys c seed)
        (Has-IsSteady sha256 pk keys c seed) g random fresh msg origin known e h
  handle-Has keys c seed (seed_received fresh received origin) e h =
      handle_seed-Has sha256 pk keys c seed fresh received origin e h
  handle-Has keys c seed (data_received d) e h =
      elim (result_cases (hide_data pcg64 hashing sha256 d e)) [
        | inr (x, raised) ↦ rw (handle, raised) h
        | inl (hidden, hid) ↦ rw (handle, hid) (record { context = h.context; given = h.given })
      ]
  handle-Has keys c seed (bill_received hidden_bill) e h = elim (result_cases (hiding_context e)) [
    | inr (x, raised) ↦ rw (handle, raised) h
    | inl (hc, there) ↦ rw (handle, there) (record { context = h.context; given = h.given })
  ]
  handle-Has keys c seed (bill_requested cycle_id origin) e h = h

  keeps-Has :
      (keys : Keys F) (c : ClientId) (seed : Seed) (xs : List (Event F)) (e : CoreServer F)
      → Has keys c seed e
      → Has keys c seed (handle_all pcg64 hashing g sha256 pk xs e)
  keeps-Has keys c seed [] e h = h
  keeps-Has keys c seed (x ∷ xs) e h =
      keeps-Has keys c seed xs (handle pcg64 hashing g sha256 pk x e) (handle-Has keys c seed x e h)

  -- Once a core server has a hiding context and a seed for a peer, it keeps both, whatever it is told
  -- afterwards, and in whatever order: the cycle length and the keys of its context are never replaced, and
  -- neither is the seed.
  pub handle_all-Has :
      (keys : Keys F) (c : ClientId) (seed : Seed) (xs : List (Event F)) (e : CoreServer F)
      → e.hc ≡ some keys
      → lookup c e.mg.owned_seeds ≡ some seed
      → Has keys c seed (handle_all pcg64 hashing g sha256 pk xs e)
  handle_all-Has keys c seed xs e context given =
      keeps-Has keys c seed xs e (record { context = context; given = given })
