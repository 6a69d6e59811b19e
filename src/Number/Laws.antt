-- ===== src/Number/Laws.antt =====
-- What the theorems rely on of Python's numbers.
use private_billings.Prelude.{ℕ, suc, ◌≡◌, ◌≢◌, true, false}
use private_billings.Python.Raises.{ok, err, zero_division}
use private_billings.Number.{Number}

-- Laws that hold exactly of ints and of finite floats, the two floats 0.0 and -0.0 counted as one.
-- None of them regroups a sum or a product.
pub record IsFinite (N : Type 0) ⦃n : Number N⦄ : Type 0 where
  pub add_nought : (x : N) → n.add x n.nought ≡ x
  pub nought_add : (x : N) → n.add n.nought x ≡ x
  pub sub_nought : (x : N) → n.sub x n.nought ≡ x
  pub sub_self : (x : N) → n.sub x x ≡ n.nought
  pub mul_one : (x : N) → n.mul x n.one ≡ x
  pub one_mul : (x : N) → n.mul n.one x ≡ x
  pub mul_nought : (x : N) → n.mul x n.nought ≡ n.nought
  -- multiplying by -1 changes the sign
  pub add_neg : (x y : N) → n.add x (n.mul y n.minus_one) ≡ n.sub x y
  pub sub_swap : (x y : N) → n.mul (n.sub x y) n.minus_one ≡ n.sub y x
  pub neg_neg : (x : N) → n.mul (n.mul x n.minus_one) n.minus_one ≡ x
  pub neg_mul : (x y : N) → n.mul (n.mul x n.minus_one) y ≡ n.mul (n.mul x y) n.minus_one
  pub mul_neg : (x y : N) → n.mul x (n.mul y n.minus_one) ≡ n.mul (n.mul x y) n.minus_one
  pub nought_mul : (x : N) → n.mul n.nought x ≡ n.nought
  pub div_zero : (x : N) → n.div x n.nought ≡ err zero_division
  pub div_ok : (x y : N) → y ≢ n.nought → (q : N) × (n.div x y ≡ ok q)
  pub neg_div :
      (x y q : N) → n.div x y ≡ ok q → n.div (n.mul x n.minus_one) y ≡ ok (n.mul q n.minus_one)
  -- the order
  pub lt_irrefl : (x : N) → n.lt x x ≡ false
  pub lt_asymm : (x y : N) → n.lt x y ≡ true → n.lt y x ≡ false
  pub lt_trans : (x y z : N) → n.lt x y ≡ true → n.lt y z ≡ true → n.lt x z ≡ true
  pub lt_total : (x y : N) → n.lt x y ≡ false → n.lt y x ≡ false → x ≡ y
  pub nought_lt_one : n.lt n.nought n.one ≡ true
  pub lt_neg : (x : N) → n.lt n.nought (n.mul x n.minus_one) ≡ n.lt x n.nought
  -- `|` on the ints 0 and 1
  pub or_nought : n.bit_or n.nought n.nought ≡ ok n.nought
  pub or_one : n.bit_or n.nought n.one ≡ ok n.one
  pub one_or_nought : n.bit_or n.one n.nought ≡ ok n.one
  pub one_or_one : n.bit_or n.one n.one ≡ ok n.one

-- Sums may be regrouped: exact arithmetic, which floats follow up to rounding.
pub record IsExact (N : Type 0) ⦃n : Number N⦄ : Type 0 where
  pub add_comm : (x y : N) → n.add x y ≡ n.add y x
  pub add_assoc : (x y z : N) → n.add (n.add x y) z ≡ n.add x (n.add y z)
  pub add_nought : (x : N) → n.add x n.nought ≡ x
  pub sub_add : (x y : N) → n.add (n.sub x y) y ≡ x

-- What `/` and `math.fmod` do with operands that are not negative, as in `convert_from_int64`.
pub record IsModular (N : Type 0) ⦃n : Number N⦄ : Type 0 where
  pub of_int_positive : (k : ℕ) → n.lt n.nought (n.of_int (suc k)) ≡ true
  pub of_int_not_negative : (k : ℕ) → n.lt (n.of_int k) n.nought ≡ false
  pub div_not_negative :
      (x y : N)
      → n.lt x n.nought ≡ false
      → n.lt n.nought y ≡ true
      → (q : N) × (n.div x y ≡ ok q) × (n.lt q n.nought ≡ false)
  pub fmod_range :
      (x y : N)
      → n.lt x n.nought ≡ false
      → n.lt n.nought y ≡ true
      → (r : N) × (n.fmod x y ≡ ok r) × (n.lt r n.nought ≡ false) × (n.lt r y ≡ true)
