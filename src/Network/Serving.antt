-- ===== src/Network/Serving.antt =====
-- The loop of `start` of src/private_billing/server/request_reply.py, with the `_handle` of
-- src/private_billing/network.py. An arrival is what the socket has before the timeout, if anything, beside
-- the registry at that time; the loop ends with the last arrival before the server is told to terminate.
pub mod Answers
use private_billings.Prelude.{ℕ, Bool, Option, none, some, List, [], ◌∷◌, ◌++◌}
use private_billings.Python.Raises.{Result, ok, err}
use private_billings.Python.Dict.{Dict}
use private_billings.Network.{NodeInfo}
use private_billings.Network.Dispatch.{Bytes, Message, Incoming, Handlers, Effect, handle_message}

abbrev pub Arrival : Type 0
Arrival = Option Bytes × Dict NodeInfo

module _ {Content : Type 0} (decode_incoming : Bytes → Result (Option (Incoming Content)))
    (decode : Bytes → Result (Message Content)) (has_signed : Bytes → Bytes → Bytes → Bool)
    (handlers : Handlers) where
  -- `recv`: nothing if the socket has nothing before the timeout; to decode the bytes may raise. Nothing
  -- also stands for an object that is false as a condition, as the empty string that other nodes reply.
  unfoldable pub recv : Option Bytes → Result (Option (Incoming Content))
  recv none = ok none
  recv (some enc) = decode_incoming enc

  -- One turn of the loop: `if msg:` passes over nothing.
  unfoldable pub serve_one : Arrival → List (Effect Content) × Result (Unit {0})
  unfolding recv
  serve_one (wire, network_members) = elim (recv wire) [
    | err x ↦ ([], err x)
    | ok none ↦ ([], ok tt)
    | ok (some incoming) ↦ handle_message decode has_signed network_members handlers incoming
  ]

  abbrev after :
      List (Effect Content) × Result (Unit {0})
      → List (Effect Content) × Result (Unit {0})
      → List (Effect Content) × Result (Unit {0})
  after (effects, ok done) (later, r) = (effects ++ later, r)
  after (effects, err x) rest = (effects, err x)

  -- What a turn raises ends the loop.
  unfoldable pub serve : List Arrival → List (Effect Content) × Result (Unit {0})
  unfolding serve_one
  serve [] = ([], ok tt)
  serve (arrival ∷ arrivals) = after (serve_one arrival) (serve arrivals)
