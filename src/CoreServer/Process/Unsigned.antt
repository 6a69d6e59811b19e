-- ===== src/CoreServer/Process/Unsigned.antt =====
-- What a message without a valid signature can change on a core server.
use private_billings.Prelude.{ℕ, ◌≡◌, refl, Bool, false, List, inl, inr}
use private_billings.Python.Raises.{Result, ok, result_cases}
use private_billings.Python.Dict.{Dict}
use private_billings.Number.{Number}
use private_billings.Cycle.{Bill}
use private_billings.Masking.{Seed, Pcg64, get_seed_for_peer}
use private_billings.Hiding.Openfhe.{Fhe}
use private_billings.Hiding.Parameters.{Generation}
use private_billings.Hiding.{Hashing}
use private_billings.Data.{Data}
use private_billings.Network.{Address}
use private_billings.Network.Connect.Keeps.{IsKept}
use private_billings.Network.Dispatch.{
  Bytes, Message, Incoming, handler_of, core_handlers, verify_signature, dispatch, handle_message,
  fallback_handler,
}
use private_billings.Messages.{
  Content, connect_content, context_content, get_bill_content, data_content, hidden_data_content,
  seed_content, bill_content, hidden_bill_content, message_of,
}
use private_billings.CoreServer.{CoreServer, send_seed, handle_data, hide_data, handle_get_bill}
use private_billings.CoreServer.Connect.{discovery, send_connect}
use private_billings.CoreServer.Connect.Keeps.{IsSteady, handle_connect-keeps}
use private_billings.CoreServer.Process.{run_effects, receive}

module _ {N : Type 0} {F : Fhe N} (seeds : Dict Seed) (bills : Dict (Bill N)) where
  -- The seeds that the server has received and its bills are these.
  pub record Holds (e : CoreServer F) : Type 0 where
    pub same_seeds : e.mg.foreign_seeds ≡ seeds
    pub same_bills : e.bills ≡ bills

module _ {N : Type 0} {F : Fhe N} (sha256 : List ℕ → ℕ) (pk : List ℕ) (seeds : Dict Seed)
    (bills : Dict (Bill N)) where
  Holds-IsKept : IsKept (discovery {F = F} pk) (Holds seeds bills)
  unfolding discovery send_connect
  Holds-IsKept = record {
    nodes = λ node ms e h. record { same_seeds = h.same_seeds; same_bills = h.same_bills };
    register = λ node e h. record { same_seeds = h.same_seeds; same_bills = h.same_bills };
    connect = λ node e h. record { same_seeds = h.same_seeds; same_bills = h.same_bills };
  }

  Holds-IsSteady : IsSteady sha256 pk (Holds {F = F} seeds bills) (λ node. Unit)
  unfolding send_seed get_seed_for_peer
  Holds-IsSteady = record {
    loads = λ store e h. record { same_seeds = h.same_seeds; same_bills = h.same_bills };
    makes = λ keys store e new h. record { same_seeds = h.same_seeds; same_bills = h.same_bills };
    gives = λ fresh member id e good peer known new h. record {
      same_seeds = h.same_seeds;
      same_bills = h.same_bills;
    };
  }

module _ {N : Type 0} ⦃n : Number N⦄ (pcg64 : Pcg64) (hashing : Hashing) {F : Fhe N}
    (g : Generation F) (sha256 : List ℕ → ℕ) (pk : List ℕ) (seeds : Dict Seed)
    (bills : Dict (Bill N)) where
  handle_data-Holds :
      (d : Data N) (e : CoreServer F)
      → Holds seeds bills e
      → Holds seeds bills ((handle_data pcg64 hashing sha256 d e).1)
  unfolding handle_data
  handle_data-Holds d e h = elim (result_cases (hide_data pcg64 hashing sha256 d e)) [
    | inr (x, raised) ↦ rw (handle_data, raised) h
    | inl (hidden, hid) ↦
        rw (handle_data, hid) (record { same_seeds = h.same_seeds; same_bills = h.same_bills })
  ]

  module _ (decode : Bytes → Result (Message (Content F)))
      (has_signed : Bytes → Bytes → Bytes → Bool) (random : ℕ) (fresh : Seed) where
    dispatched-Holds :
        (reply : Address) (content : Content F) (e : CoreServer F)
        → Holds seeds bills e
        → Holds seeds bills (
            run_effects pcg64 hashing g sha256 pk random fresh e.network_members
              ((dispatch decode has_signed e.network_members
                (handler_of core_handlers (message_of reply content).type)
                (message_of reply content)
                false).0)
              e)
    unfolding dispatch handler_of fallback_handler handle_get_bill
    dispatched-Holds reply (connect_content msg) e h =
        handle_connect-keeps sha256 pk (Holds seeds bills) (Holds-IsKept sha256 pk seeds bills)
          (Holds-IsSteady sha256 pk seeds bills) g random fresh msg _ _ e h
    dispatched-Holds reply (context_content context) e h = h
    dispatched-Holds reply (get_bill_content cycle_id) e h = h
    dispatched-Holds reply (data_content d) e h = handle_data-Holds d e h
    dispatched-Holds reply (hidden_data_content d) e h = h
    dispatched-Holds reply (seed_content seed) e h = h
    dispatched-Holds reply (bill_content b) e h = h
    dispatched-Holds reply (hidden_bill_content b) e h = h

module _ {N : Type 0} ⦃n : Number N⦄ (pcg64 : Pcg64) (hashing : Hashing) {F : Fhe N}
    (g : Generation F) (sha256 : List ℕ → ℕ) (pk : List ℕ)
    (decode : Bytes → Result (Message (Content F))) (has_signed : Bytes → Bytes → Bytes → Bool)
    (random : ℕ) (fresh : Seed) where
  -- A message that the check of signatures passes on as not signed by its origin, whatever its class,
  -- leaves the seeds that a core server has received and its bills as they were.
  pub receive-Holds :
      (incoming : Incoming (Content F)) (reply : Address) (content : Content F) (e : CoreServer F)
      → verify_signature decode has_signed e.network_members incoming
        ≡ ok (message_of reply content, false)
      → Holds e.mg.foreign_seeds e.bills
          (receive pcg64 hashing g sha256 pk decode has_signed random fresh incoming e)
  unfolding receive handle_message
  receive-Holds incoming reply content e is_unsigned =
      rw (handle_message, is_unsigned)
        (dispatched-Holds pcg64 hashing g sha256 pk e.mg.foreign_seeds e.bills decode has_signed
          random fresh reply content e (record { same_seeds = refl; same_bills = refl }))
