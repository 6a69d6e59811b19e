-- ===== src/Tests/Context.antt =====
-- The properties of the parameters of a crypto context for a small cycle.
use private_billings.Prelude.{arith, ℕ, ◌*◌, ◌^◌, ◌≤◌, ◌<◌, ◌≡◌, ◌⊎◌}
use private_billings.Python.Raises.{ok, err, value_error}
use mathlib.Core.List.{[]}
use private_billings.Masking.{SharedMaskGenerator}
use private_billings.Number.Int.{ℤ, int_number}
use private_billings.Hiding.{HidingContext}
use private_billings.Hiding.Parameters.{
  ContextParameters, generate_context_parameters, new_hiding_context,
}
use private_billings.Hiding.Parameters.Room.{
  generate_context_parameters_lem, new_hiding_context_lem,
}
use private_billings.Tests.Clear.{clear, clear_laws, clear_generation, clear-IsGeneration}
use private_billings.Tests.Seeds.{as_it_is}

abbrev week : ℕ
week = 672

generate_context_parameters_lem_example :
    ((week ≡ 0) × (generate_context_parameters (λ n. 49) week ≡ err value_error))
    ⊎ ((p : ContextParameters) × (k : ℕ) × (generate_context_parameters (λ n. 49) week ≡ ok p)
        × (p.batch_size ≡ 2 ^ k)
        × (week ≤ p.batch_size)
        × (p.batch_size < 2 * week)
        × (2 * p.batch_size ≤ p.ring_dim)
        × (2 ≤ p.multiplicative_depth))
generate_context_parameters_lem_example =
    generate_context_parameters_lem (λ n. 49) week (omega arith)

abbrev some_generator : SharedMaskGenerator ℤ
some_generator = record { convertor = as_it_is; owned_seeds = []; foreign_seeds = [] }

new_hiding_context_lem_example :
    (hc : HidingContext clear) × (store : ℕ) × (new_hiding_context clear_generation 7 week
        some_generator 0
      ≡ (ok hc, store))
    × (hc.cycle_length ≡ week)
    × (hc.mask_generator ≡ some_generator)
    × (week ≤ clear.batch_size hc.cc)
    × (2 ≤ clear_laws.depth hc.cc)
    × clear_laws.IsKeyPair hc.cc hc.public_key hc.secret_key
    × clear_laws.HasKey store hc.public_key
new_hiding_context_lem_example =
    new_hiding_context_lem clear_laws clear_generation clear-IsGeneration 7 week some_generator 0
      (omega arith) (omega arith)
