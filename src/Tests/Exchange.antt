-- ===== src/Tests/Exchange.antt =====
-- The exchange of seeds between two core servers, step by step.
use private_billings.Prelude.{
  ℕ, if◌then◌else◌, ◌==◌, ◌≡◌, ◌≢◌, refl, true, List, [], ◌∷◌, none, inl, inr, arith, All,
}
use private_billings.Masking.{
  is_stable, new_generator, get_seed_for_peer, has_owned_seed_for_peer, consume_foreign_seed,
  generate_masks, unmask,
}
use private_billings.Masking.Cancel.{IsAgreed}
use private_billings.Network.{Address, UserType, edge, core, get_node_info, node_id, register_node}
use private_billings.Network.Connect.{
  ConnectMessage, updated_origin, write_origin, connect_unknown, connect_with,
}
use private_billings.Network.Connect
use private_billings.CoreServer.{CoreServer, new_core_server, send_seed, try_send_seed, handle_seed}
use private_billings.CoreServer.Connect.{
  discovery, send_connect, connect_message_of, init_context, handle_connect,
}
use private_billings.Exchange.{
  update, receive_connect, receive_seed, Reached, new_servers, later, connected, seeded, IsSent,
}
use private_billings.Network.Connect.Discovered.{listed}
use private_billings.Exchange.Agreed.{server_id, AreCores, parties, parties_of_reached-IsAgreed}
use private_billings.Number.Int.{ℤ, pos, int_number, int-IsExact}
use private_billings.Python.Raises.{ok, traverse}
use private_billings.Vector.{new}
use private_billings.Exchange.Masks.{unmask-masks_of_reached}
use private_billings.Tests.Sample.{sample_pcg64}
use private_billings.Tests.Clear.{clear, clear_generation}
use private_billings.Tests.Seeds.{as_it_is}
use private_billings.Tests.Edge.{first_byte, core_1, core_2}

abbrev key_of : Address → List ℕ
key_of a = if a == 51 then 1 ∷ [] else 2 ∷ []

abbrev role_of : Address → UserType
role_of a = if a == 51 then core else if a == 52 then core else edge

abbrev cores : List Address
cores = 51 ∷ 52 ∷ []

abbrev hello_1 : ConnectMessage
hello_1 = record {
  reply_address = 51;
  pk = 1 ∷ [];
  role = core;
  network_state = (51, core_1) ∷ [];
  billing_state = none;
}

abbrev hello_2 : ConnectMessage
hello_2 = record {
  reply_address = 52;
  pk = 2 ∷ [];
  role = core;
  network_state = (52, core_2) ∷ [];
  billing_state = none;
}

abbrev Servers : Type 0
Servers = Address → CoreServer clear

abbrev start_of_all : Servers
start_of_all a = new_core_server a (key_of a) as_it_is 0

abbrev first_knows : Servers
first_knows =
    update 51
      (receive_connect clear_generation first_byte (key_of 51) 7 31 hello_2 (start_of_all 51))
      start_of_all

abbrev both_know : Servers
both_know =
    update 52
      (receive_connect clear_generation first_byte (key_of 52) 7 32 hello_1 (first_knows 52))
      first_knows

abbrev second_has : Servers
second_has = update 52 (receive_seed first_byte 33 31 51 (both_know 52)) both_know

abbrev both_have : Servers
both_have = update 51 (receive_seed first_byte 34 32 52 (second_has 51)) second_has

abbrev IsReached : Servers → Type 0
IsReached = Reached clear_generation first_byte key_of role_of as_it_is 0

both_know-IsReached : IsReached both_know
both_know-IsReached =
    later
      (later new_servers
        (connected 51 7 31 hello_2 start_of_all refl (refl, refl, ((refl, refl, refl), tt))))
      (connected 52 7 32 hello_1 first_knows refl (refl, refl, ((refl, refl, refl), tt)))

first_sent : IsSent core_2 31 (both_know 51).sent
unfolding new_core_server handle_connect Connect.handle_connect updated_origin write_origin
    connect_unknown connect_with get_node_info register_node discovery send_connect
    connect_message_of init_context try_send_seed send_seed get_seed_for_peer
    has_owned_seed_for_peer node_id new_generator
first_sent = inr (inl refl)

second_sent : IsSent core_1 32 (second_has 52).sent
unfolding new_core_server handle_connect Connect.handle_connect updated_origin write_origin
    connect_unknown connect_with get_node_info register_node discovery send_connect
    connect_message_of init_context try_send_seed send_seed get_seed_for_peer
    has_owned_seed_for_peer node_id new_generator handle_seed consume_foreign_seed
second_sent = inr (inl refl)

both_have-IsReached : IsReached both_have
both_have-IsReached =
    later
      (later both_know-IsReached (seeded 51 52 33 31 core_2 both_know refl refl first_sent refl))
      (seeded 52 51 34 32 core_1 second_has refl refl second_sent refl)

stable : All (λ a. is_stable (both_have a).mg ≡ true) cores
unfolding new_core_server handle_connect Connect.handle_connect updated_origin write_origin
    connect_unknown connect_with get_node_info register_node discovery send_connect
    connect_message_of init_context try_send_seed send_seed get_seed_for_peer
    has_owned_seed_for_peer node_id new_generator handle_seed consume_foreign_seed is_stable
stable = (refl, (refl, tt))

only_cores : (a : Address) → role_of a ≡ core → listed a cores ≡ true
only_cores a h = ground (arith, h)

cores-AreCores : AreCores role_of cores
cores-AreCores = record {
  all_cores = (refl, (refl, tt));
  no_others = only_cores;
  once = (refl, (refl, tt));
}

different_ids :
    (a b : Address)
    → role_of a ≡ core
    → role_of b ≡ core
    → server_id first_byte key_of role_of a ≡ server_id first_byte key_of role_of b
    → a ≡ b
different_ids a b a_core b_core same = ground (arith, a_core, b_core, same)

parties_of_reached-IsAgreed_example : IsAgreed (parties first_byte key_of role_of both_have cores)
parties_of_reached-IsAgreed_example =
    parties_of_reached-IsAgreed clear_generation first_byte key_of role_of as_it_is 0 both_have
      cores different_ids cores-AreCores both_have-IsReached stable

some_core : cores ≢ []
some_core h = ground arith

unmask-masks_of_reached_example :
    (masks : List (List ℤ)) × (traverse
        (λ p. generate_masks sample_pcg64 p.1 4 3)
        (parties first_byte key_of role_of both_have cores)
      ≡ ok masks)
    × (unmask masks ≡ ok (new 3 (pos 0)))
unmask-masks_of_reached_example =
    unmask-masks_of_reached clear_generation sample_pcg64 first_byte key_of role_of pos as_it_is 0
      both_have cores 4 3 int-IsExact some_core (λ v. refl) different_ids cores-AreCores
      both_have-IsReached stable
