-- ===== src/Tests/Billings.antt =====
-- The properties of whole cycles on the sample.
use private_billings.Prelude.{◌≡◌, ◌≢◌, refl, arith, List, []}
use private_billings.Python.Raises.{ok, traverse}
use private_billings.Python.Dict.{Dict}
use private_billings.Number.Int.{ℤ, pos, int_number, int-IsFinite, int-IsExact}
use private_billings.Masking.{range_from, generate_masks, unmask}
use private_billings.Masking.Cancel.{IsAgreed}
use private_billings.Vector.{new}
use private_billings.HiddenBill.{HiddenBill}
use private_billings.HiddenData.{HiddenData, unmask_data}
use private_billings.Data.{hide}
use private_billings.Community.{generators}
use private_billings.Community.Totals.{true_totals, data_of_member, unmask_data-hide}
use private_billings.Community.Side.{HasPrices, IsEquipped}
use private_billings.Masking.Unmask.{unmask-generate_masks}
use private_billings.Tests.Clear.{clear, clear_laws}
use private_billings.Tests.Sample.{
  sample_pcg64, sample_hashing, sample_members, member_1, sample_prices, sample_context, key_bytes,
}

sample-IsAgreed : IsAgreed (generators sample_members)
sample-IsAgreed = record {
  ids = (refl, (refl, tt));
  owned_IsDict = ((refl, tt), ((refl, tt), tt));
  foreign_IsDict = ((refl, tt), ((refl, tt), tt));
  owned_known = ((refl, tt), ((refl, tt), tt));
  foreign_known = ((refl, tt), ((refl, tt), tt));
  agreed = ((refl, (refl, tt)), ((refl, (refl, tt)), tt));
}

some_member : sample_members ≢ []
some_member h = ground arith

unmask_data-hide_example :
    (hidden : List (HiddenData clear)) × (traverse
        (λ m. hide sample_pcg64 sample_hashing (data_of_member 9 (range_from 0 2) m) m.hc)
        sample_members
      ≡ ok hidden)
    × (unmask_data hidden ≡ ok (true_totals (range_from 0 2) sample_members))
unmask_data-hide_example =
    unmask_data-hide int-IsExact sample_pcg64 pos sample_members sample-IsAgreed sample_hashing 9 2
      int-IsFinite some_member
      ((λ v. refl, (omega arith, omega arith)), ((λ v. refl, (omega arith, omega arith)), tt))

some_party : generators sample_members ≢ []
some_party h = ground arith

unmask-generate_masks_example :
    (masks : List (List ℤ)) × (traverse
        (λ p. generate_masks sample_pcg64 p.1 4 3)
        (generators sample_members)
      ≡ ok masks)
    × (unmask masks ≡ ok (new 3 (pos 0)))
unmask-generate_masks_example =
    unmask-generate_masks sample_pcg64 pos (generators sample_members) 4 3 int-IsExact some_party
      sample-IsAgreed (λ v. refl, (λ v. refl, tt))

pub sample-HasPrices : HasPrices 2 sample_prices sample_context
sample-HasPrices = record {
  cycle_length = refl;
  retail_prices = refl;
  feed_in_tarifs = refl;
  trading_prices = refl;
}

pub member_1-IsEquipped : IsEquipped clear_laws 2 key_bytes member_1
unfolding clear_laws
member_1-IsEquipped = record {
  cycle_length = refl;
  room = omega arith;
  deep = omega arith;
  key_pair = refl;
  key_bytes = refl;
}
