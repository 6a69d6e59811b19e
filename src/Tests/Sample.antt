-- ===== src/Tests/Sample.antt =====
-- Two members, one cycle of two slots, and its prices.
use private_billings.Prelude.{ℕ, ◌+◌, ◌*◌, List, [], ◌∷◌, map, ◌==◌, if◌then◌else◌}
use private_billings.Python.Raises.{ok}
use private_billings.Number.Int.{ℤ, pos, negsuc, int_number}
use private_billings.Cycle.{CycleContext}
use private_billings.Masking.{Pcg64, SharedMaskGenerator}
use private_billings.Hiding.{Hashing, HidingContext}
use private_billings.Billing.{SharedBilling}
use private_billings.Community.{Member}
use private_billings.Community.Side.{Prices, received_context}
use private_billings.Community.Totals.{hidden_with}
use private_billings.Tests.Clear.{clear_context, clear}

abbrev pub sample_pcg64 : Pcg64
sample_pcg64 seed k = seed * 7 + k

abbrev pub sample_hashing : Hashing
sample_hashing = record { sha256 = λ text. 11; repr = λ k. "0" }

-- Client 1 has given client 2 the seed 5 and received the seed 8.
abbrev pub generator_1 : SharedMaskGenerator ℤ
generator_1 = record {
  convertor = λ v. ok (pos v);
  owned_seeds = (2, 5) ∷ [];
  foreign_seeds = (2, 8) ∷ [];
}

abbrev pub generator_2 : SharedMaskGenerator ℤ
generator_2 = record {
  convertor = λ v. ok (pos v);
  owned_seeds = (1, 8) ∷ [];
  foreign_seeds = (1, 5) ∷ [];
}

abbrev pub context_of : ℕ → SharedMaskGenerator ℤ → HidingContext clear
context_of key g = record {
  cycle_length = 2;
  cc = clear_context;
  public_key = key;
  secret_key = key;
  mask_generator = g;
}

-- Client 1 promises to use 3 and then to supply 2, and uses 5 and supplies 4; client 2 promises to supply
-- 3 and then to use 2, and supplies 4 and uses 1.
abbrev pub member_1 : Member clear
member_1 = record {
  client = 1;
  hc = context_of 101 generator_1;
  promise = λ k. if k == 0 then pos 3 else negsuc 1;
  used = λ k. if k == 0 then pos 5 else negsuc 3;
}

abbrev pub member_2 : Member clear
member_2 = record {
  client = 2;
  hc = context_of 102 generator_2;
  promise = λ k. if k == 0 then negsuc 2 else pos 2;
  used = λ k. if k == 0 then negsuc 3 else pos 1;
}

abbrev pub sample_members : List (Member clear)
sample_members = member_1 ∷ member_2 ∷ []

abbrev pub sample_prices : Prices ℤ
sample_prices = record { retail = λ k. pos 30; feed_in = λ k. pos 10; trading = λ k. pos 20 }

abbrev pub sample_context : CycleContext ℤ
sample_context = record {
  cycle_id = 9;
  cycle_length = 2;
  retail_prices = pos 30 ∷ pos 30 ∷ [];
  feed_in_tarifs = pos 10 ∷ pos 10 ∷ [];
  trading_prices = pos 20 ∷ pos 20 ∷ [];
}

abbrev pub key_bytes : Member clear → List ℕ
key_bytes m = m.hc.public_key ∷ []

abbrev pub sample_billing : SharedBilling clear
sample_billing = record {
  client_data =
      (
        9,
        map
            (λ (m : Member clear). (
              m.client,
              hidden_with sample_pcg64 pos sample_hashing 9 2 (received_context key_bytes) m,
            ))
            sample_members,
      )
      ∷ [];
  cycle_contexts = (9, sample_context) ∷ [];
  clients = 1 ∷ 2 ∷ [];
}
