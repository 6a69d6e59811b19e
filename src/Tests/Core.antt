-- ===== src/Tests/Core.antt =====
-- The properties of the core server on a few events.
use private_billings.Prelude.{ℕ, refl, arith, true, false, List, [], ◌∷◌, none, some}
use private_billings.Python.Raises.{Result, ok, err, foreign_error}
use private_billings.Number.Int.{int_number}
use private_billings.Network.{NodeInfo, edge, core, get_node_info}
use private_billings.Network.Connect.{ConnectMessage}
use private_billings.CoreServer.{Keys, CoreServer, new_core_server}
use private_billings.CoreServer.Seeds.{IsHonest, handle_all-IsHonest}
use private_billings.CoreServer.Fixed.{Has, handle_all-Has}
use private_billings.CoreServer.Connect.Entered.{HasEntered, handle_connect-HasEntered}
use private_billings.CoreServer.Connect.{handle_connect}
use private_billings.Network.Dispatch.{Message, Incoming, signed, verify_signature}
use private_billings.Messages.{Content, seed_content, message_of}
use private_billings.CoreServer.Process.{receive}
use private_billings.CoreServer.Process.Unsigned.{Holds, receive-Holds}
use private_billings.CoreServer.Events.{
  Event, started, connected, seed_received, data_received, bill_requested, handle_all,
}
use private_billings.Data.Slots.{data_of}
use private_billings.Masking.{range_from}
use private_billings.Tests.Clear.{
  clear, clear_context, clear_laws, clear_generation, clear-IsGeneration,
}
use private_billings.Tests.Sample.{sample_pcg64, sample_hashing, member_1}
use private_billings.Tests.Seeds.{as_it_is}
use private_billings.Tests.Edge.{first_byte, repeats_key, edge_node, core_1, core_2}

-- What the edge server and a core server say of themselves.
abbrev pub edge_hello : ConnectMessage
edge_hello = record {
  reply_address = 50;
  pk = 9 ∷ [];
  role = edge;
  network_state = (50, edge_node) ∷ (51, core_1) ∷ [];
  billing_state = some 3;
}

abbrev pub core_hello : ConnectMessage
core_hello = record {
  reply_address = 52;
  pk = 2 ∷ [];
  role = core;
  network_state = (52, core_2) ∷ (51, core_1) ∷ [];
  billing_state = some 3;
}

abbrev nobody : NodeInfo
nobody = record { address = 52; pk = none; role = none }

abbrev core_events : List (Event clear)
core_events =
    started 50
    ∷ connected 7 31 core_hello nobody false
    ∷ connected 8 34 edge_hello edge_node true
    ∷ seed_received 32 90 core_2
    ∷ seed_received 33 91 core_1
    ∷ data_received (data_of 5 9 member_1.promise member_1.used (range_from 0 2))
    ∷ bill_requested 9 core_1
    ∷ []

abbrev pub core_start : CoreServer clear
core_start = new_core_server 53 (3 ∷ []) as_it_is 0

handle_all-IsHonest_example : IsHonest first_byte (
    handle_all sample_pcg64 sample_hashing clear_generation first_byte
      (3 ∷ [])
      core_events
      core_start)
handle_all-IsHonest_example =
    handle_all-IsHonest sample_pcg64 sample_hashing clear_generation first_byte (3 ∷ []) 53 as_it_is
      0 core_events

abbrev some_keys : Keys clear
some_keys = record { cycle_length = 3; cc = clear_context; public_key = 7; secret_key = 7 }

-- A server that has exchanged a seed and has a context.
abbrev busy_core : CoreServer clear
busy_core = record {
  node_info = record { address = 53; pk = some (3 ∷ []); role = some core };
  network_members = (51, core_1) ∷ [];
  mg = record { convertor = as_it_is; owned_seeds = (1, 31) ∷ []; foreign_seeds = [] };
  hc = some some_keys;
  bills = [];
  loaded_keys = 7;
  sent = [];
}

handle_all-Has_example : Has some_keys 1 31 (
    handle_all sample_pcg64 sample_hashing clear_generation first_byte
      (3 ∷ [])
      core_events
      busy_core)
handle_all-Has_example =
    handle_all-Has sample_pcg64 sample_hashing clear_generation first_byte (3 ∷ []) some_keys 1 31
      core_events busy_core refl refl

handle_connect-HasEntered_example :
    HasEntered clear_laws clear_generation clear-IsGeneration first_byte 3 core
      (2 ∷ [])
      (handle_connect clear_generation first_byte (3 ∷ []) 7 31 core_hello nobody false core_start)
unfolding new_core_server
handle_connect-HasEntered_example =
    handle_connect-HasEntered clear_laws clear_generation clear-IsGeneration first_byte (3 ∷ []) 7 3
      31 core_hello nobody false core_start ((refl, 2 ∷ [], refl), ((refl, 1 ∷ [], refl), tt)) refl
      refl (omega arith) (omega arith)

-- One byte is a seed that says that it comes from the first core server.
abbrev decode_seed : List ℕ → Result (Message (Content clear))
decode_seed [] = err foreign_error
decode_seed (seed ∷ bytes) = ok (message_of 51 (seed_content seed))

abbrev forged_seed : Incoming (Content clear)
forged_seed = signed (90 ∷ []) (4 ∷ [])

receive-Holds_example : Holds busy_core.mg.foreign_seeds busy_core.bills (
    receive sample_pcg64 sample_hashing clear_generation first_byte
      (3 ∷ [])
      decode_seed
      repeats_key
      7
      31
      forged_seed
      busy_core)
unfolding verify_signature get_node_info
receive-Holds_example =
    receive-Holds sample_pcg64 sample_hashing clear_generation first_byte (3 ∷ []) decode_seed
      repeats_key 7 31 forged_seed 51 (seed_content 90) busy_core refl
