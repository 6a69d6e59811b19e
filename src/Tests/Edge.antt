-- ===== src/Tests/Edge.antt =====
-- The properties of the edge server on a server that knows two core servers.
use private_billings.Prelude.{
  All, Bool, ◌==◌, ℕ, ◌≡◌, ◌⊎◌, refl, true, false, List, [], ◌∷◌, ◌++◌, some,
}
use private_billings.Python.Raises.{Result, foreign_error, Exc, ok, err, traverse}
use private_billings.Python.Dict.{Dict}
use private_billings.Number.Int.{int_number}
use private_billings.HiddenBill.{HiddenBill}
use private_billings.Billing.{is_ready, compute_bills}
use private_billings.Network.{NodeInfo, edge, core, node_id, network_cores}
use private_billings.Network.Dispatch.{
  Message, Incoming, signed, seed, handle_message, core_handlers,
}
use private_billings.Network.Verified.{started, IsDue, handle_message-IsDue}
use private_billings.EdgeServer.{EdgeServer, try_run_billing}
use private_billings.EdgeServer.Served.{IsServed, bill_for, letters, try_run_billing_cases}
use private_billings.Tests.Clear.{clear}
use private_billings.Tests.Sample.{sample_billing}

-- A digest of one byte.
abbrev pub first_byte : List ℕ → ℕ
first_byte [] = 0
first_byte (x ∷ xs) = x

abbrev pub edge_node : NodeInfo
edge_node = record { address = 50; pk = some (9 ∷ []); role = some edge }

abbrev pub core_1 : NodeInfo
core_1 = record { address = 51; pk = some (1 ∷ []); role = some core }

abbrev pub core_2 : NodeInfo
core_2 = record { address = 52; pk = some (2 ∷ []); role = some core }

abbrev pub sample_server : EdgeServer clear
sample_server = record {
  node_info = edge_node;
  billing_state = some 4;
  network_members = (50, edge_node) ∷ (51, core_1) ∷ (52, core_2) ∷ [];
  shared_biller = sample_billing;
  loaded_keys = 0;
  sent = [];
}

sample-IsServed : IsServed first_byte sample_server
unfolding node_id
sample-IsServed = (tt, ((1, refl, refl), ((2, refl, refl), tt)))

try_run_billing_cases_example :
    (((try_run_billing first_byte 9 sample_server).sent ≡ sample_server.sent)
      × ((is_ready 9 sample_server.shared_biller ≡ false)
          ⊎ ((x : Exc) × ((compute_bills sample_server.shared_biller 9 sample_server.loaded_keys).0
                ≡ err x))))
    ⊎ ((is_ready 9 sample_server.shared_biller ≡ true)
        × (bills : Dict (HiddenBill clear)) × (hbs : List (HiddenBill clear)) × ((compute_bills
              sample_server.shared_biller 9 sample_server.loaded_keys).0
            ≡ ok bills)
        × (traverse (bill_for first_byte bills) (network_cores sample_server.network_members)
            ≡ ok hbs)
        × ((try_run_billing first_byte 9 sample_server).sent
            ≡ sample_server.sent ++ letters (network_cores sample_server.network_members) hbs))
try_run_billing_cases_example = try_run_billing_cases first_byte sample_server 9 sample-IsServed

-- An encoding of messages that carry a number, and signatures that repeat the key.
abbrev pub decode_number : List ℕ → Result (Message ℕ)
decode_number [] = err foreign_error
decode_number (x ∷ xs) = ok (record { reply_address = 51; type = seed; content = x })

abbrev pub repeats_key : List ℕ → List ℕ → List ℕ → Bool
repeats_key pk message signature = first_byte pk == first_byte signature

abbrev pub seed_arrives : Incoming ℕ
seed_arrives = signed (77 ∷ []) (1 ∷ [])

handle_message-IsDue_example :
    All (IsDue decode_number repeats_key sample_server.network_members core_handlers seed_arrives) (
      started (
        (handle_message decode_number repeats_key sample_server.network_members core_handlers
          seed_arrives).0))
handle_message-IsDue_example =
    handle_message-IsDue decode_number repeats_key sample_server.network_members core_handlers
      seed_arrives
