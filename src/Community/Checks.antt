-- ===== src/Community/Checks.antt =====
-- The validity checks of the plain data, the hidden data and the bill of a member.
use private_billings.Prelude.{ℕ, ◌≡◌, true, map, length, length-map, ==_refl, ◌==◌}
use private_billings.Python.Raises.{ok}
use private_billings.Number.{Number}
use private_billings.Number.Laws.{IsFinite}
use private_billings.Cycle.{CycleId, CycleContext}
use private_billings.Masking.{Pcg64, range_from}
use private_billings.Masking.Draws.{length-range_from}
use private_billings.Hiding.Openfhe.{Fhe}
use private_billings.Hiding.{Hashing}
use private_billings.HiddenData.{HiddenData, check_hidden}
use private_billings.Data.{hide, check_data}
use private_billings.Data.Hide.{hide-eq-hidden_of}
use private_billings.Community.{Member}
use private_billings.Community.Totals.{Converts, HasRoom, data_of_member, hidden_of_member}

fits :
    {A : Type 0} (size k : ℕ) (f : ℕ → A)
    → k ≡ size
    → (length (map f (range_from 0 size)) == k) ≡ true
fits size k f e = rw (length-map f (range_from 0 size), length-range_from 0 size, e) (==_refl size)

module _ {N : Type 0} ⦃n : Number N⦄ (finite : IsFinite N) (pcg64 : Pcg64) (conv : ℕ → N)
    (hashing : Hashing) {F : Fhe N} (id : CycleId) (size : ℕ) where
  -- On finite numbers, for a member whose convertor turns each draw into a number and whose plaintexts have
  -- room for the slots and for the cycle of its hiding context, and for a context of its cycle and of that
  -- length, the plain data passes `Data.check_validity`, hiding it raises nothing, and the hidden data passes
  -- `HiddenData.check_validity`.
  pub check_hidden-hide :
      (m : Member F) (cyc : CycleContext N)
      → Converts conv m
      → HasRoom size m
      → cyc.cycle_id ≡ id
      → cyc.cycle_length ≡ size
      → (check_data (data_of_member id (range_from 0 size) m) cyc ≡ ok tt)
        × (hd : HiddenData F) × (hide pcg64 hashing (data_of_member id (range_from 0 size) m) m.hc
            ≡ ok hd)
        × (check_hidden hd cyc ≡ ok tt)
  unfolding check_data check_hidden
  check_hidden-hide m cyc total (fits_cycle, room) same_id same_length =
      let k = cyc.cycle_length in
      (
        rw (same_id, ==_refl id, fits size k m.promise same_length, fits size k m.used same_length),
        hidden_of_member pcg64 conv hashing id size m,
        hide-eq-hidden_of pcg64 hashing m.hc conv size total finite fits_cycle room m.client id
            m.promise m.used,
        rw (fits size k _ same_length, fits size k _ same_length, fits size k _ same_length),
      )
