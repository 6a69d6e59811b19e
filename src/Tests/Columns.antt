-- ===== src/Tests/Columns.antt =====
-- The properties of vectors, masks, keys and client data on the sample.
use private_billings.Prelude.{
  ℕ, ◌≡◌, ◌≢◌, ◌⊎◌, refl, arith, List, [], ◌∷◌, ◌++◌, map, length, zip_with, some,
}
use private_billings.Python.Raises.{ok, err, assertion_error}
use private_billings.Number.Int.{ℤ, pos, negsuc, int_number, int-IsFinite}
use private_billings.Vector.{vec, flag, add, sub, mul, truediv, modulo, xor, or}
use private_billings.Vector.Ops.{operators_by_length}
use private_billings.Masking.{range_from, generate_mask, generate_masks}
use private_billings.Masking.Draws.{generate_mask-generate_masks}
use private_billings.Hiding.{PublicHidingContext, activate_keys}
use private_billings.Hiding.Keys.{activate_keys-HasKey}
use private_billings.Data.{
  check_data, consumptions, supplies, accepted_consumer_flags, accepted_producer_flags,
  individual_deviations, positive_deviation_flags, p2p_consumer_flags, p2p_producer_flags, hide,
}
use private_billings.HiddenData.{HiddenData, check_hidden}
use private_billings.Community.Totals.{data_of_member}
use private_billings.Community.Checks.{check_hidden-hide}
use private_billings.Data.Slots.{slot_deviation, slot_deviates, data_of}
use private_billings.Data.Balance.{
  deviations_by_slot, consumptions-sub-supplies, accepted_flags_exclusive,
}
use private_billings.Data.Hide.{hidden_of, hide-eq-hidden_of}
use private_billings.Tests.Clear.{clear_context, clear, clear_laws}
use private_billings.Tests.Sample.{
  sample_pcg64, sample_hashing, member_1, generator_1, sample_context,
}

abbrev three : List ℤ
three = pos 1 ∷ negsuc 4 ∷ pos 0 ∷ []

abbrev other_three : List ℤ
other_three = pos 7 ∷ pos 2 ∷ negsuc 0 ∷ []

abbrev two : List ℤ
two = pos 1 ∷ pos 0 ∷ []

operators_by_length_example :
    ((length three ≡ length two)
      × (add three (vec two) ≡ ok (zip_with int_number.add three two))
      × (sub three (vec two) ≡ ok (zip_with int_number.sub three two))
      × (mul three (vec two) ≡ ok (zip_with int_number.mul three two))
      × (length (zip_with int_number.add three two) ≡ length three)
      × (length (zip_with int_number.sub three two) ≡ length three)
      × (length (zip_with int_number.mul three two) ≡ length three))
    ⊎ ((length three ≢ length two)
        × (add three (vec two) ≡ err assertion_error)
        × (sub three (vec two) ≡ err assertion_error)
        × (mul three (vec two) ≡ err assertion_error)
        × (truediv three (vec two) ≡ err assertion_error)
        × (modulo three (vec two) ≡ err assertion_error)
        × (xor three (vec two) ≡ err assertion_error)
        × (or three (vec two) ≡ err assertion_error))
operators_by_length_example = operators_by_length three two

generate_mask-generate_masks_example :
    ((generator_1.owned_seeds ++ generator_1.foreign_seeds ≢ [])
      × (m : ℤ) × (rest : List ℤ) × (generate_mask sample_pcg64 generator_1 6 ≡ ok m)
      × (generate_masks sample_pcg64 generator_1 6 3 ≡ ok (m ∷ rest)))
    ⊎ ((generator_1.owned_seeds ++ generator_1.foreign_seeds ≡ [])
        × (generate_mask sample_pcg64 generator_1 6 ≡ err assertion_error))
generate_mask-generate_masks_example =
    generate_mask-generate_masks sample_pcg64 generator_1 pos (λ v. refl) 6 2

abbrev received_phc : PublicHidingContext clear
received_phc = record {
  cycle_length = 2;
  cc = clear_context;
  public_key = 101;
  relinearization_key_bytes = some (101 ∷ []);
}

activate_keys-HasKey_example :
    (store' : ℕ) × (activate_keys received_phc 55 ≡ (ok tt, store')) × clear_laws.HasKey store' 101
unfolding clear_laws
activate_keys-HasKey_example =
    activate_keys-HasKey clear_laws received_phc 55 (101 ∷ [], refl, refl)

consumptions-sub-supplies_example :
    (consumed supplied : List ℤ) × (consumptions
        (data_of 1 9 member_1.promise member_1.used (range_from 0 2))
      ≡ ok consumed)
    × (supplies (data_of 1 9 member_1.promise member_1.used (range_from 0 2)) ≡ ok supplied)
    × (sub consumed (vec supplied) ≡ ok (map member_1.used (range_from 0 2)))
consumptions-sub-supplies_example =
    consumptions-sub-supplies int-IsFinite 1 9 member_1.promise member_1.used (range_from 0 2)

accepted_flags_exclusive_example :
    (consumer producer : List ℤ) × (accepted_consumer_flags
        (data_of 1 9 member_1.promise member_1.used (range_from 0 2))
      ≡ ok consumer)
    × (accepted_producer_flags (data_of 1 9 member_1.promise member_1.used (range_from 0 2))
        ≡ ok producer)
    × (p2p_consumer_flags (data_of 1 9 member_1.promise member_1.used (range_from 0 2))
        ≡ ok consumer)
    × (p2p_producer_flags (data_of 1 9 member_1.promise member_1.used (range_from 0 2))
        ≡ ok producer)
    × (mul consumer (vec producer) ≡ ok (map (λ _. pos 0) (range_from 0 2)))
accepted_flags_exclusive_example =
    accepted_flags_exclusive int-IsFinite 1 9 member_1.promise member_1.used (range_from 0 2)

deviations_by_slot_example :
    (individual_deviations (data_of 1 9 member_1.promise member_1.used (range_from 0 2))
      ≡ ok (map (λ r. slot_deviation (member_1.promise r) (member_1.used r)) (range_from 0 2)))
    × (positive_deviation_flags (data_of 1 9 member_1.promise member_1.used (range_from 0 2))
        ≡ ok (
            map
              (λ r. flag (slot_deviates (member_1.promise r) (member_1.used r)))
              (range_from 0 2)))
deviations_by_slot_example =
    deviations_by_slot int-IsFinite 1 9 member_1.promise member_1.used (range_from 0 2)

hide-eq-hidden_of_example :
    hide sample_pcg64 sample_hashing
      (data_of 1 9 member_1.promise member_1.used (range_from 0 2))
      member_1.hc
    ≡ ok
        (hidden_of sample_pcg64 sample_hashing member_1.hc pos 2 1 9 member_1.promise member_1.used)
hide-eq-hidden_of_example =
    hide-eq-hidden_of sample_pcg64 sample_hashing member_1.hc pos 2 (λ v. refl) int-IsFinite
      (omega arith) (omega arith) 1 9 member_1.promise member_1.used

check_hidden-hide_example :
    (check_data (data_of_member 9 (range_from 0 2) member_1) sample_context ≡ ok tt)
    × (hd : HiddenData clear) × (hide sample_pcg64 sample_hashing
          (data_of_member 9 (range_from 0 2) member_1)
          member_1.hc
        ≡ ok hd)
    × (check_hidden hd sample_context ≡ ok tt)
check_hidden-hide_example =
    check_hidden-hide int-IsFinite sample_pcg64 pos sample_hashing 9 2 member_1 sample_context
      (λ v. refl) (omega arith, omega arith) refl refl
