-- ===== src/Tests/Clear.antt =====
-- A scheme that encrypts nothing and yet asks for the right keys, as a concrete OpenFHE.
use private_billings.Prelude.{
  ℕ, ◌≤◌, ◌≡◌, refl, ap, List, [], ◌∷◌, map, length, replicate, zip_with, take, arith,
  if◌then◌else◌, ◌==◌, ==_refl,
}
use private_billings.Python.Raises.{ok, err, value_error}
use private_billings.Number.Int.{ℤ, int_number}
use private_billings.Hiding.Openfhe.{Fhe}
use private_billings.Hiding.Parameters.{ContextParameters, Generation}
use private_billings.Hiding.Parameters.Room.{IsGeneration}
use private_billings.Hiding.Laws.{IsHomomorphic}

-- A ciphertext knows its key and shows its values.
pub record ClearText : Type 0 where
  pub key : ℕ
  pub values : List ℤ

abbrev pub clear_context : ContextParameters
clear_context = record {
  scaling_mod_size = 55;
  first_mod_size = 59;
  ring_dim = 16;
  batch_size = 4;
  num_large_digits = 4;
  multiplicative_depth = 2;
}

-- A context is its parameters, a key is its tag, and the store holds the tag of the last key loaded.
abbrev pub clear : Fhe ℤ
clear = record {
  CryptoContext = ContextParameters;
  PublicKey = ℕ;
  SecretKey = ℕ;
  Plaintext = List ℤ;
  Ciphertext = ClearText;
  KeyStore = ℕ;
  batch_size = λ cc. cc.batch_size;
  make_packed_plaintext = λ cc v. v;
  encrypt = λ cc pk v. record { key = pk; values = v };
  decrypt = λ cc ct sk. if ct.key == sk then ct.values else [];
  set_length = λ v k. take k v;
  real_packed_value = λ v. v;
  eval_sub = λ cc v ct. record { key = ct.key; values = zip_with int_number.sub v ct.values };
  eval_mult_plain =
      λ cc ct v. record { key = ct.key; values = zip_with int_number.mul ct.values v };
  eval_mult = λ cc store a b.
      if store == a.key
      then ok (record { key = a.key; values = zip_with int_number.mul a.values b.values })
      else err value_error;
  eval_add = λ a b. record { key = a.key; values = zip_with int_number.add a.values b.values };
  key_tag = λ pk. pk;
  serialize_eval_mult_key = λ cc store tag. if store == tag then replicate 1000 tag else [];
  deserialize_eval_mult_key = λ cc bytes store. elim bytes [ [] ↦ store | k ∷ ks ↦ k ];
}

abbrev pub IsClear : ℕ → ClearText → List ℤ → Type 0
IsClear pk ct v = (ct.key ≡ pk) × (ct.values ≡ v)

take-all : (v : List ℤ) → take (length v) v ≡ v
take-all [] = refl
take-all (x ∷ v) = ap (λ (w : List ℤ). x ∷ w) (take-all v)

pub IsClear-mult :
    (pk store : ℕ) (a b : ClearText) (u v : List ℤ)
    → store ≡ pk
    → IsClear pk a u
    → IsClear pk b v
    → (c : ClearText) × (clear.eval_mult clear_context store a b ≡ ok c)
      × IsClear pk c (zip_with int_number.mul u v)
IsClear-mult pk store a b u v e (ka, va) (kb, vb) = (
  record { key = a.key; values = zip_with int_number.mul a.values b.values },
  rw (e, ka, ==_refl pk),
  (ka, rw (va, vb)),
)

pub IsClear-decrypt :
    (pk sk : ℕ) (ct : ClearText) (v : List ℤ)
    → sk ≡ pk
    → IsClear pk ct v
    → map
        (λ x. int_number.round x 5)
        (clear.real_packed_value (clear.set_length (clear.decrypt clear_context ct sk) (length v)))
      ≡ map (λ x. int_number.round x 5) v
IsClear-decrypt pk sk ct v e (k, w) = rw (e, k, ==_refl pk, w, take-all v)

pub clear-serialized :
    (store pk : ℕ)
    → 1000 ≤ length (clear.serialize_eval_mult_key clear_context store pk)
    → store ≡ pk
clear-serialized store pk h = ground arith

unfoldable pub clear_laws : IsHomomorphic clear
clear_laws = record {
  IsKeyPair = λ cc pk sk. sk ≡ pk;
  Carries = λ cc pk level ct v. IsClear pk ct v;
  depth = λ cc. cc.multiplicative_depth;
  HasKey = λ store pk. store ≡ pk;
  IsKeyOf = λ bytes cc pk. bytes ≡ pk ∷ [];
  encrypt_carries = λ cc pk v room. (refl, refl);
  eval_add_carries = λ cc pk i j a b u v len x y. (x.0, rw (x.1, y.1));
  eval_sub_carries = λ cc pk j b u v len y. (y.0, rw (y.1));
  eval_mult_plain_carries = λ cc pk i a u v len room x. (x.0, rw (x.1));
  eval_mult_carries =
      λ cc pk store i j a b u v len room key x y. IsClear-mult pk store a b u v key x y;
  decrypt_rounded = λ cc pk sk i ct v pair x. IsClear-decrypt pk sk ct v pair x;
  serialized_key = λ cc store pk long. clear-serialized store pk long;
  deserialized_key = λ cc store pk bytes e. rw e;
}

-- A pair of keys is a random number twice.
abbrev pub clear_generation : Generation clear
clear_generation = record {
  large_log2 = λ n. 49;
  gen_crypto_context = λ p. p;
  key_gen = λ cc random. (random, random);
  eval_mult_key_gen = λ cc sk store. sk;
}

pub clear-IsGeneration : IsGeneration clear_laws clear_generation
unfolding clear_laws
clear-IsGeneration = record {
  batch_size_of = λ p room. refl;
  depth_of = λ p. refl;
  key_pair = λ cc random. refl;
  relinearization_key = λ cc random store. refl;
}
