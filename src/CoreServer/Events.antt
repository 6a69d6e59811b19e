-- ===== src/CoreServer/Events.antt =====
-- What a core server of src/private_billing/core_server.py does on the messages that it receives, one after
-- the other.
use private_billings.Prelude.{ℕ, Bool, List, [], ◌∷◌}
use private_billings.Number.{Number}
use private_billings.Cycle.{CycleId}
use private_billings.Masking.{Seed, Pcg64}
use private_billings.Hiding.Openfhe.{Fhe}
use private_billings.Hiding.Parameters.{Generation}
use private_billings.Hiding.{Hashing}
use private_billings.HiddenBill.{HiddenBill}
use private_billings.Data.{Data}
use private_billings.Network.{Address, NodeInfo}
use private_billings.Network.Connect.{ConnectMessage}
use private_billings.CoreServer.{
  CoreServer, handle_seed, handle_get_bill, handle_data, handle_hidden_bill,
}
use private_billings.CoreServer.Connect.{start, handle_connect}

-- What happens on a core server; each fresh seed is one that may be drawn then, and so is the randomness of
-- the keys. With a connect message comes whether its origin is the object in the registry.
pub data Event {N : Type 0} (F : Fhe N) : Type 0 where
  started : Address → Event F
  connected : (random : ℕ) (fresh : Seed) → ConnectMessage → NodeInfo → Bool → Event F
  seed_received : (fresh seed : Seed) → NodeInfo → Event F
  data_received : Data N → Event F
  bill_received : HiddenBill F → Event F
  bill_requested : CycleId → NodeInfo → Event F

module _ {N : Type 0} ⦃n : Number N⦄ (pcg64 : Pcg64) (hashing : Hashing) {F : Fhe N}
    (g : Generation F) (sha256 : List ℕ → ℕ) (pk : List ℕ) where
  abbrev pub handle : Event F → CoreServer F → CoreServer F
  handle (started edge) e = start pk edge e
  handle (connected random fresh msg origin is_registered) e =
      (handle_connect g sha256 pk random fresh msg origin is_registered e).1
  handle (seed_received fresh seed origin) e = (handle_seed sha256 fresh seed origin e).1
  handle (data_received d) e = (handle_data pcg64 hashing sha256 d e).1
  handle (bill_received hidden_bill) e = (handle_hidden_bill hidden_bill e).1
  handle (bill_requested cycle_id origin) e = (handle_get_bill cycle_id origin e).1

  abbrev pub handle_all : List (Event F) → CoreServer F → CoreServer F
  handle_all [] e = e
  handle_all (x ∷ xs) e = handle_all xs (handle x e)
