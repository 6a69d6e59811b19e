-- ===== src/Hiding/Parameters.antt =====
-- `HidingContext.__init__` of src/private_billing/core/hiding.py: the parameters of the crypto context, the
-- context and its keys. What OpenFHE generates from them is a parameter.
pub mod Room
use private_billings.Prelude.{ℕ, zero, suc, ◌+◌, ◌/◌, ◌^◌, Bool, true, false, leb, if◌then◌else◌}
use private_billings.Python.Raises.{Result, ok, err, value_error}
use private_billings.Python.Action.{Action, lift, pure, ◌>>=◌, ◌>>◌}
use private_billings.Number.{Number}
use private_billings.Masking.{SharedMaskGenerator}
use private_billings.Hiding.Openfhe.{Fhe}
use private_billings.Hiding.{HidingContext}

-- How often `n` is halved, rounded up, until 1 is left. The fuel counts the halvings.
halvings : ℕ → ℕ → ℕ
halvings zero n = 0
halvings (suc fuel) n = let rest = halvings fuel ((n + 1) / 2) in if leb n 1 then 0 else suc rest

-- `math.ceil(math.log2(n))`. `math.log2` of 0 raises. Up to 2 ^ 48 the float is exact enough to be rounded up
-- to the number of halvings; above, as for 2 ^ 49 + 1, the float itself may be rounded down, and what comes
-- out is left to the first argument.
unfoldable pub ceil_log2 : (ℕ → ℕ) → ℕ → Result ℕ
unfolding halvings
ceil_log2 large zero = err value_error
ceil_log2 large (suc n) = ok (if leb (suc n) (2 ^ 48) then halvings n (suc n) else large (suc n))

-- `CCParamsCKKSRNS`, as far as numbers are set.
pub record ContextParameters : Type 0 where
  pub scaling_mod_size : ℕ
  pub first_mod_size : ℕ
  pub ring_dim : ℕ
  pub batch_size : ℕ
  pub num_large_digits : ℕ
  pub multiplicative_depth : ℕ

-- With the default arguments, the only ones that the program uses.
unfoldable pub generate_context_parameters : (ℕ → ℕ) → ℕ → Result ContextParameters
generate_context_parameters large cycle_length = elim (ceil_log2 large cycle_length) [
  | err x ↦ err x
  | ok k ↦ ok (record {
    scaling_mod_size = 55;
    first_mod_size = 59;
    ring_dim = 2 ^ 14;
    batch_size = 2 ^ k;
    num_large_digits = 4;
    multiplicative_depth = 3;
  })
]

-- What OpenFHE generates: a context with all features enabled, a random key pair, and the
-- relinearization key, which is added to the store.
pub record Generation {N : Type 0} (F : Fhe N) : Type 0 where
  -- `math.ceil(math.log2(n))` for `n` above 2 ^ 48
  pub large_log2 : ℕ → ℕ
  pub gen_crypto_context : ContextParameters → F.CryptoContext
  pub key_gen : F.CryptoContext → ℕ → F.PublicKey × F.SecretKey
  pub eval_mult_key_gen : F.CryptoContext → F.SecretKey → F.KeyStore → F.KeyStore

module _ {N : Type 0} {F : Fhe N} (g : Generation F) where
  unfoldable pub generate_crypto_context : ℕ → Result F.CryptoContext
  generate_crypto_context cycle_length =
      elim (generate_context_parameters g.large_log2 cycle_length) [
        | err x ↦ err x
        | ok parameters ↦ ok (g.gen_crypto_context parameters)
      ]

  -- `random` stands for the randomness of the key.
  unfoldable pub generate_key_pair :
      ℕ → F.CryptoContext → F.KeyStore → (F.PublicKey × F.SecretKey) × F.KeyStore
  generate_key_pair random cc store =
      let keys = g.key_gen cc random in (keys, g.eval_mult_key_gen cc keys.1 store)

  unfoldable pub new_hiding_context :
      ℕ → ℕ → SharedMaskGenerator N → Action F.KeyStore (HidingContext F)
  unfolding generate_crypto_context generate_key_pair
  new_hiding_context random cycle_length mask_generator store =
      elim (generate_crypto_context cycle_length) [
        | err x ↦ (err x, store)
        | ok cc ↦
            let (keys, store') = generate_key_pair random cc store in
            (
              ok (record {
                cycle_length = cycle_length;
                cc = cc;
                public_key = keys.0;
                secret_key = keys.1;
                mask_generator = mask_generator;
              }),
              store',
            )
      ]
