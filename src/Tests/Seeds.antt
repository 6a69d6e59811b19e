-- ===== src/Tests/Seeds.antt =====
-- The properties of the seeds and of the convertor at concrete inputs.
use private_billings.Prelude.{ℕ, sym, ◌≡◌, ◌≢◌, ◌↔◌, refl, arith, true, [], ◌∷◌}
use private_billings.Python.Raises.{ok}
use private_billings.Number.Int.{ℤ, pos}
use private_billings.Cycle.{ClientId}
use private_billings.Masking.{
  Int64Convertor, new_generator, is_stable, has_owned_seed_for_peer, has_foreign_seed_from_peer,
}
use private_billings.Masking.Seeds.{is_stable_iff}
use private_billings.Masking.Cancel.{Parties, IsAgreed}
use private_billings.Masking.Exchange.{give, joined, gave, Reached, nobody, step}
use private_billings.Masking.Exchange.Agreement.{Reached-IsAgreed}
use private_billings.Tests.Sample.{generator_1}

abbrev pub as_it_is : Int64Convertor ℤ
as_it_is v = ok (pos v)

abbrev two_parties : Parties ℤ
two_parties = (4, new_generator as_it_is) ∷ (3, new_generator as_it_is) ∷ []

three_ne_four : ◌≢◌ {A = ℕ} 3 4
three_ne_four = omega arith

-- Client 3 gives client 4 a seed, and the other way round.
both_gave : Reached (give 71 4 3 (give 70 3 4 two_parties))
unfolding give
both_gave =
    step
      (step (step (step nobody (joined 3 as_it_is [] refl)) (joined 4 as_it_is _ refl))
        (gave 70 3 4 two_parties three_ne_four refl refl))
      (gave 71 4 3 _ (λ h. three_ne_four (sym h)) refl refl)

Reached-IsAgreed_example : IsAgreed (give 71 4 3 (give 70 3 4 two_parties))
Reached-IsAgreed_example = Reached-IsAgreed both_gave

is_stable_iff_example : (is_stable generator_1 ≡ true) ↔ (
    (c : ClientId)
    → has_owned_seed_for_peer c generator_1 ≡ has_foreign_seed_from_peer c generator_1)
is_stable_iff_example = is_stable_iff generator_1
