-- ===== src/Tests/Forged.antt =====
-- The property of hidden data that arrives at an edge server with a signature that is not of its sender.
use private_billings.Prelude.{ℕ, ◌≡◌, refl, List, [], ◌∷◌}
use private_billings.Python.Raises.{Result, ok, err, foreign_error}
use private_billings.Number.Int.{int_number}
use private_billings.Network.{get_node_info}
use private_billings.Network.Dispatch.{Message, Incoming, signed, verify_signature}
use private_billings.Messages.{Content, hidden_data_content, message_of}
use private_billings.EdgeServer.Process.{receive}
use private_billings.EdgeServer.Process.Unsigned.{client_data-receive}
use private_billings.Tests.Clear.{clear}
use private_billings.Tests.Parts.{datum_1}
use private_billings.Tests.Edge.{first_byte, repeats_key, sample_server}

-- Any bytes are the hidden data of the first core server.
abbrev decode_datum : List ℕ → Result (Message (Content clear))
decode_datum [] = err foreign_error
decode_datum (x ∷ bytes) = ok (message_of 51 (hidden_data_content datum_1))

abbrev forged : Incoming (Content clear)
forged = signed (5 ∷ []) (4 ∷ [])

client_data-receive_example :
    (receive first_byte
      (9 ∷ [])
      decode_datum
      repeats_key
      forged
      sample_server).shared_biller.client_data
    ≡ sample_server.shared_biller.client_data
unfolding verify_signature get_node_info
client_data-receive_example =
    client_data-receive first_byte (9 ∷ []) decode_datum repeats_key forged 51
      (hidden_data_content datum_1) sample_server refl
