-- ===== src/CoreServer/Seeds.antt =====
-- The seeds that a core server owns, beside those that it has sent.
use private_billings.Prelude.{
  ℕ, map, ◌≡◌, refl, sym, ap, ◌∙◌, false, List, [], ◌∷◌, ◌++◌, none, some, Bool-cases, inl, inr,
  arith, ◌==◌,
}
use mathlib.Core.List.{append-nil, append_assoc}
use private_billings.Python.Raises.{result_cases, Result, ok, err}
use private_billings.Python.Dict.{
  IsDict, set_default-IsDict, Dict, lookup, contains, insert, set_default, get_or,
}
use private_billings.Number.{Number}
use private_billings.Cycle.{ClientId}
use private_billings.Masking.{
  Seed, Pcg64, Int64Convertor, new_generator, get_seed_for_peer, has_owned_seed_for_peer,
  consume_foreign_seed,
}
use private_billings.Hiding.Openfhe.{Fhe}
use private_billings.Hiding.{Hashing}
use private_billings.HiddenData.{HiddenData}
use private_billings.Network.{Address, NodeInfo, network_edges, node_id}
use private_billings.CoreServer.{
  hiding_context, new_core_server, with_id, send_seed, handle_seed, handle_get_bill, hide_data,
  handle_data, handle_hidden_bill, CoreServer, Outgoing, seed_message, hidden_data_message,
  connect_message,
}
use private_billings.CoreServer.Connect.{start, discovery, send_connect}
use private_billings.CoreServer.Events.{
  Event, started, connected, seed_received, data_received, bill_received, bill_requested, handle,
  handle_all,
}
use private_billings.Network.Connect.Keeps.{IsKept}
use private_billings.CoreServer.Connect.Keeps.{IsSteady, try_send_seed-keeps, handle_connect-keeps}
use private_billings.Hiding.Parameters.{Generation}

-- What the id of a node, if it has one, makes of a seed that the node was sent.
abbrev entry_of : Result ClientId → Seed → Dict Seed
entry_of (ok id) seed = (id, seed) ∷ []
entry_of (err x) seed = []

module _ {N : Type 0} {F : Fhe N} (sha256 : List ℕ → ℕ) where
  abbrev of_message : NodeInfo → Outgoing F → Dict Seed
  of_message node (seed_message seed) = entry_of (node_id sha256 node) seed
  of_message node (hidden_data_message hidden) = []
  of_message node (connect_message msg) = []

  -- The seeds that were sent, each with the id of the node that it went to, in order.
  abbrev pub sent_seeds : List (NodeInfo × Outgoing F) → Dict Seed
  sent_seeds [] = []
  sent_seeds ((node, m) ∷ sent) = of_message node m ++ sent_seeds sent

  sent_seeds-append :
      (s t : List (NodeInfo × Outgoing F)) → sent_seeds (s ++ t) ≡ sent_seeds s ++ sent_seeds t
  sent_seeds-append [] t = refl
  sent_seeds-append ((node, m) ∷ s) t =
      ap (λ (d : Dict Seed). of_message node m ++ d) (sent_seeds-append s t)
      ∙ sym (append_assoc (of_message node m) (sent_seeds s) (sent_seeds t))

  sent_seeds-data :
      (hidden : HiddenData F) (nodes : List NodeInfo)
      → sent_seeds (map (λ x. (x, hidden_data_message hidden)) nodes) ≡ []
  sent_seeds-data hidden [] = refl
  sent_seeds-data hidden (x ∷ nodes) = sent_seeds-data hidden nodes

  -- The seeds that the server owns are those that it has sent, each to its peer and to no peer twice.
  pub record IsHonest (e : CoreServer F) : Type 0 where
    pub owned : sent_seeds e.sent ≡ e.mg.owned_seeds
    pub once : IsDict e.mg.owned_seeds

insert-end :
    (k : ℕ) (v : Seed) (d : Dict Seed) → lookup k d ≡ none → insert k v d ≡ d ++ (k, v) ∷ []
insert-end k v [] h = refl
insert-end k v (e ∷ d) h = elim (Bool-cases (k == e.0)) [
  | inl same ↦ let found : some e.1 ≡ none = rw same at h in absurd (ground arith)
  | inr other ↦ rw other (ap (λ (r : Dict Seed). e ∷ r) (insert-end k v d (rw other at h)))
]

missing : (k : ℕ) (d : Dict Seed) → contains k d ≡ false → lookup k d ≡ none
missing k d h = ground arith

module _ {N : Type 0} {F : Fhe N} (sha256 : List ℕ → ℕ) where
  send_seed-IsHonest :
      (fresh : Seed) (member : NodeInfo) (id : ClientId) (e : CoreServer F)
      → node_id sha256 member ≡ ok id
      → has_owned_seed_for_peer id e.mg ≡ false
      → IsHonest sha256 e
      → IsHonest sha256 (send_seed fresh member id e)
  unfolding send_seed get_seed_for_peer has_owned_seed_for_peer
  send_seed-IsHonest fresh member id e known new h =
      let none_yet = missing id e.mg.owned_seeds new in
      record {
        owned =
            sent_seeds-append sha256 e.sent _
            ∙ rw (known, none_yet, get_or, set_default)
                (rw h.owned (sym (insert-end id fresh e.mg.owned_seeds none_yet)));
        once = set_default-IsDict id fresh e.mg.owned_seeds h.once;
      }

module _ {N : Type 0} {F : Fhe N} (sha256 : List ℕ → ℕ) (pk : List ℕ) where
  -- A connect message is no seed.
  send_connect-IsHonest :
      (node : NodeInfo) (e : CoreServer F)
      → IsHonest sha256 e
      → IsHonest sha256 (send_connect pk node e)
  unfolding send_connect
  send_connect-IsHonest node e h = record {
    owned = sent_seeds-append sha256 e.sent _ ∙ append-nil (sent_seeds sha256 e.sent) ∙ h.owned;
    once = h.once;
  }

  IsHonest-IsKept : IsKept (discovery {F = F} pk) (IsHonest sha256)
  unfolding discovery
  IsHonest-IsKept = record {
    nodes = λ node ms e h. record { owned = h.owned; once = h.once };
    register = λ node e h. record { owned = h.owned; once = h.once };
    connect = λ node e h. send_connect-IsHonest node e h;
  }

  IsHonest-IsSteady : IsSteady sha256 pk (IsHonest {F = F} sha256) (λ node. Unit)
  IsHonest-IsSteady = record {
    loads = λ store e h. record { owned = h.owned; once = h.once };
    makes = λ keys store e new h. record { owned = h.owned; once = h.once };
    gives = λ fresh member id e good peer known new h.
        send_seed-IsHonest sha256 fresh member id e known new h;
  }

  handle_seed-IsHonest :
      (fresh seed : Seed) (origin : NodeInfo) (e : CoreServer F)
      → IsHonest sha256 e
      → IsHonest sha256 ((handle_seed sha256 fresh seed origin e).1)
  unfolding handle_seed consume_foreign_seed
  handle_seed-IsHonest fresh seed origin e h = elim (result_cases (node_id sha256 origin)) [
    | inr (x, raised) ↦ rw (with_id, raised) h
    | inl (id, known) ↦
        rw (with_id, known)
          (try_send_seed-keeps sha256 pk (IsHonest sha256) (λ node. Unit) IsHonest-IsSteady fresh
            origin (record e { mg = consume_foreign_seed seed id e.mg }) tt
            (record { owned = h.owned; once = h.once }))
  ]

module _ {N : Type 0} ⦃n : Number N⦄ (pcg64 : Pcg64) (hashing : Hashing) {F : Fhe N}
    (g : Generation F) (sha256 : List ℕ → ℕ) (pk : List ℕ) where
  handle-IsHonest :
      (x : Event F) (e : CoreServer F)
      → IsHonest sha256 e
      → IsHonest sha256 (handle pcg64 hashing g sha256 pk x e)
  unfolding handle_data handle_hidden_bill handle_get_bill start
  handle-IsHonest (seed_received fresh seed origin) e h =
      handle_seed-IsHonest sha256 pk fresh seed origin e h
  handle-IsHonest (started edge) e h = send_connect-IsHonest sha256 pk _ e h
  handle-IsHonest (connected random fresh msg origin known) e h =
      handle_connect-keeps sha256 pk (IsHonest sha256) (IsHonest-IsKept sha256 pk)
        (IsHonest-IsSteady sha256 pk) g random fresh msg origin known e h
  handle-IsHonest (data_received d) e h = elim (result_cases (hide_data pcg64 hashing sha256 d e)) [
    | inr (x, raised) ↦ rw (handle, raised) h
    | inl (hidden, hid) ↦
        rw (handle, hid)
          (record {
            owned =
                sent_seeds-append sha256 e.sent _
                ∙ rw (sent_seeds-data sha256 hidden (network_edges e.network_members))
                    (append-nil (sent_seeds sha256 e.sent) ∙ h.owned);
            once = h.once;
          })
  ]
  handle-IsHonest (bill_received hidden_bill) e h = elim (result_cases (hiding_context e)) [
    | inr (x, raised) ↦ rw (handle, raised) h
    | inl (hc, there) ↦ rw (handle, there) (record { owned = h.owned; once = h.once })
  ]
  handle-IsHonest (bill_requested cycle_id origin) e h = h

  keeps-IsHonest :
      (xs : List (Event F)) (e : CoreServer F)
      → IsHonest sha256 e
      → IsHonest sha256 (handle_all pcg64 hashing g sha256 pk xs e)
  keeps-IsHonest [] e h = h
  keeps-IsHonest (x ∷ xs) e h =
      keeps-IsHonest xs (handle pcg64 hashing g sha256 pk x e) (handle-IsHonest x e h)

  -- Whatever a core server is told from its start, and in whatever order, the seeds that it owns are those
  -- that it has sent, each to the peer for whom it owns the seed, and no peer is sent a second one.
  pub handle_all-IsHonest :
      (address : Address) (convertor : Int64Convertor N) (store : F.KeyStore) (xs : List (Event F))
      → IsHonest sha256
          (handle_all pcg64 hashing g sha256 pk xs (new_core_server address pk convertor store))
  unfolding new_core_server new_generator
  handle_all-IsHonest address convertor store xs =
      keeps-IsHonest xs (new_core_server address pk convertor store)
        (record { owned = refl; once = tt })
