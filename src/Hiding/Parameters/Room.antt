-- ===== src/Hiding/Parameters/Room.antt =====
-- The size of a ciphertext beside the length of a cycle, and what a new context can do.
use private_billings.Prelude.{
  ℕ, ◌∙◌, zero, suc, ◌+◌, ◌*◌, ◌/◌, ◌^◌, ◌≤◌, ◌<◌, ◌≡◌, ◌⊎◌, inl, inr, refl, leb, true, arith,
  Bool-cases,
}
use native.Mathlib.Nat.{pow-suc, pow-le-pow_right}
use private_billings.Python.Raises.{ok, err, value_error}
use private_billings.Number.{Number}
use private_billings.Masking.{SharedMaskGenerator}
use private_billings.Hiding.Openfhe.{Fhe}
use private_billings.Hiding.Laws.{IsHomomorphic}
use private_billings.Hiding.{HidingContext}
use private_billings.Hiding.Parameters.{
  halvings, ceil_log2, ContextParameters, generate_context_parameters, Generation,
  new_hiding_context,
}

even_power : (k : ℕ) → (2 ^ k ≡ 1) ⊎ ((j : ℕ) × (2 ^ k ≡ 2 * j))
even_power zero = inl refl
even_power (suc k) = inr (2 ^ k, pow-suc 2 k ∙ omega arith)

-- With fuel for every halving, the power of two is the least that is not less than the number.
halvings_lem :
    (fuel n : ℕ) → 0 < n → n ≤ suc fuel → (n ≤ 2 ^ halvings fuel n) × (2 ^ halvings fuel n < 2 * n)
unfolding halvings
halvings_lem zero n pos fits = (omega arith, omega arith)
halvings_lem (suc fuel) n pos fits = elim (Bool-cases (leb n 1)) [
  | inl one ↦ rw one (ground arith, ground arith)
  | inr more ↦
      let big : 1 < n = ground arith in
      let half = (n + 1) / 2 in
      let (up, low) = halvings_lem fuel half (omega arith) (omega arith) in
      let below : 2 ^ halvings fuel half * 2 < 2 * n = elim (even_power (halvings fuel half)) [
        | inl one ↦ omega arith
        | inr (j, even) ↦ omega arith
      ] in
      rw (more, pow-suc 2 (halvings fuel half)) (omega arith, below)
]

-- A power of two below 2 ^ 14 is at most 2 ^ 13.
small_power : (k : ℕ) → 2 ^ k < 16384 → 2 ^ k ≤ 8192
small_power k h = elim (Bool-cases (leb k 13)) [
  | inl low ↦ pow-le-pow_right {n = 2} (omega arith) {i = k} {j = 13} (ground arith)
  | inr high ↦
      let big : 2 ^ 14 ≤ 2 ^ k =
        pow-le-pow_right {n = 2} (omega arith) {i = 14} {j = k} (ground arith) in
      absurd (omega arith)
]

-- For a cycle without slots the parameters raise the value error. For a cycle of 1 to 8192 slots the batch
-- size is a power of two that has room for the slots and is less than twice as large, it fits into the ring,
-- and there is depth for the two multiplications of a bill.
pub generate_context_parameters_lem :
    (large : ℕ → ℕ) (n : ℕ)
    → n ≤ 8192
    → ((n ≡ 0) × (generate_context_parameters large n ≡ err value_error))
      ⊎ ((p : ContextParameters) × (k : ℕ) × (generate_context_parameters large n ≡ ok p)
          × (p.batch_size ≡ 2 ^ k)
          × (n ≤ p.batch_size)
          × (p.batch_size < 2 * n)
          × (2 * p.batch_size ≤ p.ring_dim)
          × (2 ≤ p.multiplicative_depth))
unfolding generate_context_parameters ceil_log2
generate_context_parameters_lem large zero small = inl (refl, refl)
generate_context_parameters_lem large (suc n) small =
    let k = halvings n (suc n) in
    let (up, low) = halvings_lem n (suc n) (omega arith) (omega arith) in
    let exact : leb (suc n) (2 ^ 48) ≡ true = ground arith in
    inr (
      record {
        scaling_mod_size = 55;
        first_mod_size = 59;
        ring_dim = 2 ^ 14;
        batch_size = 2 ^ k;
        num_large_digits = 4;
        multiplicative_depth = 3;
      },
      k,
      rw (generate_context_parameters, ceil_log2, exact) refl,
      refl,
      up,
      low,
      omega (arith, small_power k (omega arith)),
      omega arith,
    )

module _ {N : Type 0} ⦃n : Number N⦄ {F : Fhe N} (laws : IsHomomorphic F) (g : Generation F) where
  open laws use {IsKeyPair, HasKey, depth}

  -- What is relied on of the generation: parameters that the ring has room for are those of the context,
  -- the keys belong together, and the relinearization key of a new pair is in the store.
  pub record IsGeneration : Type 0 where
    pub batch_size_of :
        (p : ContextParameters)
        → 2 * p.batch_size ≤ p.ring_dim
        → F.batch_size (g.gen_crypto_context p) ≡ p.batch_size
    pub depth_of : (p : ContextParameters) → depth (g.gen_crypto_context p) ≡ p.multiplicative_depth
    pub key_pair :
        (cc : F.CryptoContext) (random : ℕ)
        → IsKeyPair cc ((g.key_gen cc random).0) ((g.key_gen cc random).1)
    pub relinearization_key :
        (cc : F.CryptoContext) (random : ℕ) (store : F.KeyStore)
        → HasKey (g.eval_mult_key_gen cc ((g.key_gen cc random).1) store) ((g.key_gen cc random).0)

  -- For a cycle of 1 to 8192 slots a new hiding context raises nothing. It keeps the length and the mask
  -- generator that it was given, a ciphertext has room for all slots, there is depth for the two
  -- multiplications of a bill, its keys belong together, and its relinearization key is loaded.
  pub new_hiding_context_lem :
      IsGeneration
      → (random size : ℕ) (mg : SharedMaskGenerator N) (store : F.KeyStore) → 0 < size
      → size ≤ 8192
      → (hc : HidingContext F) × (store' : F.KeyStore) × (new_hiding_context g random size mg store
          ≡ (ok hc, store'))
        × (hc.cycle_length ≡ size)
        × (hc.mask_generator ≡ mg)
        × (size ≤ F.batch_size hc.cc)
        × (2 ≤ depth hc.cc)
        × IsKeyPair hc.cc hc.public_key hc.secret_key
        × HasKey store' hc.public_key
  unfolding new_hiding_context
  new_hiding_context_lem i random size mg store pos small =
      elim (generate_context_parameters_lem g.large_log2 size small) [
        | inl (empty, raised) ↦ absurd (omega arith)
        | inr (p, k, made, power, room, tight, ring, deep) ↦
            let cc = g.gen_crypto_context p in
            let keys = g.key_gen cc random in
            let store' = g.eval_mult_key_gen cc keys.1 store in
            (
              record {
                cycle_length = size;
                cc = cc;
                public_key = keys.0;
                secret_key = keys.1;
                mask_generator = mg;
              },
              store',
              rw (new_hiding_context, made),
              refl,
              refl,
              rw (i.batch_size_of p ring) room,
              rw (i.depth_of p) deep,
              i.key_pair cc random,
              i.relinearization_key cc random store,
            )
      ]
