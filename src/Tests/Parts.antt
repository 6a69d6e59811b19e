-- ===== src/Tests/Parts.antt =====
-- The properties of the single parts on the sample.
use private_billings.Prelude.{
  ℕ, ◌≡◌, ◌≢◌, ◌⊎◌, ◌↔◌, refl, true, false, ◌&&◌, List, [], ◌∷◌, ◌==◌, if◌then◌else◌, some,
}
use private_billings.Python.Raises.{Exc, ok, err, value_error}
use private_billings.Python.Dict.{Dict, lookup, contains}
use private_billings.Number.Int.{ℤ, pos, int_number}
use private_billings.Cycle.{CycleContext}
use private_billings.HiddenBill.{HiddenBill}
use private_billings.HiddenData.{HiddenData}
use private_billings.Billing.{
  has_client, data_of_cycle, new_billing, record_data, include_client, exclude_clients, is_ready,
  included_data, compute_bills,
}
use private_billings.Billing.Clients.{membership}
use private_billings.Billing.Records.{
  IsValid, Call, data_recorded, context_recorded, client_included, client_excluded, calls,
  lookup-record_data, calls-IsValid,
}
use private_billings.Billing.Ready.{HaveData, is_ready_iff}
use private_billings.Billing.Outcome.{IsRaised, compute_bills_outcome}
use private_billings.Community.Bills.{received_data}
use private_billings.Tests.Clear.{clear}
use private_billings.Tests.Sample.{
  sample_pcg64, sample_hashing, member_1, sample_context, key_bytes, sample_billing,
}

abbrev pub datum_1 : HiddenData clear
datum_1 = received_data sample_pcg64 pos sample_hashing 9 2 key_bytes member_1

compute_bills_outcome_example :
    ((is_ready 9 sample_billing ≡ false)
      × (compute_bills sample_billing 9 0 ≡ (err value_error, 0)))
    ⊎ ((is_ready 9 sample_billing ≡ true)
        × (((bills : Dict (HiddenBill clear)) × ((compute_bills sample_billing 9 0).0 ≡ ok bills)
              × ((c : ℕ) → contains c bills ≡ contains c (data_of_cycle 9 sample_billing))
              × ((c : ℕ) → has_client c sample_billing.clients ≡ true → contains c bills ≡ true))
            ⊎ ((cyc : CycleContext ℤ) × (included : List (HiddenData clear)) × (x : Exc) × (lookup 9
                    sample_billing.cycle_contexts
                  ≡ some cyc)
                × (included_data (data_of_cycle 9 sample_billing) sample_billing.clients
                    ≡ ok included)
                × ((compute_bills sample_billing 9 0).0 ≡ err x)
                × IsRaised 9 sample_billing cyc included x)))
compute_bills_outcome_example = compute_bills_outcome 9 sample_billing 0

is_ready_iff_example : (is_ready 9 sample_billing ≡ true) ↔ (
    (sample_billing.clients ≢ [])
    × HaveData (data_of_cycle 9 sample_billing) sample_billing.clients
    × ((cyc : CycleContext ℤ) × (lookup 9 sample_billing.cycle_contexts ≡ some cyc)))
is_ready_iff_example = is_ready_iff 9 sample_billing

abbrev some_calls : List (Call clear)
some_calls =
    client_included 1
    ∷ data_recorded datum_1
    ∷ context_recorded sample_context
    ∷ client_included 2
    ∷ client_included 1
    ∷ client_excluded 2
    ∷ []

new_billing-IsValid : IsValid (new_billing {F = clear})
unfolding new_billing
new_billing-IsValid = record {
  cycles = tt;
  filed = tt;
  contexts = tt;
  contexts_filed = tt;
  clients = tt;
}

calls-IsValid_example : IsValid (calls some_calls new_billing)
calls-IsValid_example = calls-IsValid some_calls new_billing new_billing-IsValid

lookup-record_data_example : lookup 1 (data_of_cycle 9 (record_data datum_1 sample_billing)) ≡ (
    if 9 == datum_1.cycle_id && 1 == datum_1.client
    then some datum_1
    else lookup 1 (data_of_cycle 9 sample_billing))
lookup-record_data_example = lookup-record_data 9 1 datum_1 sample_billing

membership_example :
    (has_client 2 (include_client 3 sample_billing).clients
      ≡ (if 2 == 3 then true else has_client 2 sample_billing.clients))
    × (has_client 2 (exclude_clients 3 sample_billing).clients
        ≡ (if 2 == 3 then false else has_client 2 sample_billing.clients))
    × ((include_client 3 sample_billing).client_data ≡ sample_billing.client_data)
    × ((exclude_clients 3 sample_billing).client_data ≡ sample_billing.client_data)
    × ((include_client 3 sample_billing).cycle_contexts ≡ sample_billing.cycle_contexts)
    × ((exclude_clients 3 sample_billing).cycle_contexts ≡ sample_billing.cycle_contexts)
membership_example = membership 3 sample_billing 2 (refl, (refl, tt))
