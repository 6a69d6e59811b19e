-- ===== src/Number/Int.antt =====
-- Exact numbers that meet the laws: the integers, for amounts counted in a fixed smallest unit.
use private_billings.Prelude.{
  true, false, ℕ, zero, suc, ◌+◌, ◌-◌, ◌*◌, ◌/◌, ◌%◌, ◌≡◌, ◌≢◌, refl, Bool, arith, ltb, leb, ◌==◌,
  ◌&&◌, if◌then◌else◌, ap, sym, ◌∙◌,
}
use private_billings.Python.Raises.{Result, ok, err, zero_division, type_error, value_error}
use private_billings.Number.{Number}
use private_billings.Number.Laws.{IsModular, IsFinite, IsExact}

-- `negsuc n` is -(n + 1).
pub data ℤ : Type 0 where
  pos : ℕ → ℤ
  negsuc : ℕ → ℤ

abbrev pub pos_part : ℤ → ℕ
pos_part (pos n) = n
pos_part (negsuc n) = 0

abbrev pub neg_part : ℤ → ℕ
neg_part (pos n) = 0
neg_part (negsuc n) = suc n

abbrev pub sub_ℕ : ℕ → ℕ → ℤ
sub_ℕ a b = if leb b a then pos (a - b) else negsuc (b - a - 1)

infixl 65 ◌+ℤ◌ ◌-ℤ◌
infixl 70 ◌*ℤ◌
abbrev pub ◌+ℤ◌ : ℤ → ℤ → ℤ
a +ℤ b = sub_ℕ (pos_part a + pos_part b) (neg_part a + neg_part b)

abbrev pub ◌-ℤ◌ : ℤ → ℤ → ℤ
a -ℤ b = sub_ℕ (pos_part a + neg_part b) (neg_part a + pos_part b)

abbrev pub ◌*ℤ◌ : ℤ → ℤ → ℤ
a *ℤ b =
    sub_ℕ (pos_part a * pos_part b + neg_part a * neg_part b)
      (pos_part a * neg_part b + neg_part a * pos_part b)

-- Division with the quotient cut towards zero.
abbrev pub quot : ℤ → ℤ → Result ℤ
quot a (pos zero) = err zero_division
quot a (pos (suc b)) = ok (sub_ℕ (pos_part a / suc b) (neg_part a / suc b))
quot a (negsuc b) = ok (sub_ℕ (neg_part a / suc b) (pos_part a / suc b))

-- The remainder has the sign of the dividend.
abbrev fmod_ℤ : ℤ → ℤ → Result ℤ
fmod_ℤ a b =
    let size = pos_part b + neg_part b in
    if size == 0 then err value_error else ok (sub_ℕ (pos_part a % size) (neg_part a % size))

abbrev pub lt_ℤ : ℤ → ℤ → Bool
lt_ℤ a b = ltb (pos_part a + neg_part b) (pos_part b + neg_part a)

-- `|` as far as flags need it
abbrev or_flag : ℤ → ℤ → Result ℤ
or_flag (pos zero) b = ok b
or_flag a (pos zero) = ok a
or_flag (pos (suc zero)) (pos (suc zero)) = ok (pos 1)
or_flag a b = err type_error

instance abbrev pub int_number : Number ℤ
int_number = record {
  nought = pos 0;
  one = pos 1;
  minus_one = negsuc 0;
  of_int = pos;
  add = ◌+ℤ◌;
  sub = ◌-ℤ◌;
  mul = ◌*ℤ◌;
  div = quot;
  rem = λ a b. err type_error;
  bit_xor = λ a b. err type_error;
  bit_or = or_flag;
  fmod = fmod_ℤ;
  lt = lt_ℤ;
  eq = λ a b. (pos_part a == pos_part b) && (neg_part a == neg_part b);
  round = λ a digits. a;
}

pos_part-neg : (a : ℤ) → pos_part (a *ℤ negsuc 0) ≡ neg_part a
pos_part-neg a = ground arith

neg_part-neg : (a : ℤ) → neg_part (a *ℤ negsuc 0) ≡ pos_part a
neg_part-neg a = ground arith

neg-sub_ℕ : (a b : ℕ) → sub_ℕ a b *ℤ negsuc 0 ≡ sub_ℕ b a
neg-sub_ℕ a b = ground arith

int-div_ok : (x y : ℤ) → y ≢ pos 0 → (q : ℤ) × (quot x y ≡ ok q)
int-div_ok x (pos zero) h = absurd (h refl)
int-div_ok x (pos (suc b)) h = (sub_ℕ (pos_part x / suc b) (neg_part x / suc b), refl)
int-div_ok x (negsuc b) h = (sub_ℕ (neg_part x / suc b) (pos_part x / suc b), refl)

neg-eq_ok : {p q : ℤ} → ok p ≡ ok q → ok (p *ℤ negsuc 0) ≡ ok (q *ℤ negsuc 0)
neg-eq_ok h = cc

int-neg_div : (x y q : ℤ) → quot x y ≡ ok q → quot (x *ℤ negsuc 0) y ≡ ok (q *ℤ negsuc 0)
int-neg_div x (pos zero) q h = cc
int-neg_div x (pos (suc b)) q h =
    rw (pos_part-neg x, neg_part-neg x)
      (ap ok (sym (neg-sub_ℕ (pos_part x / suc b) (neg_part x / suc b))) ∙ neg-eq_ok h)
int-neg_div x (negsuc b) q h =
    rw (pos_part-neg x, neg_part-neg x)
      (ap ok (sym (neg-sub_ℕ (neg_part x / suc b) (pos_part x / suc b))) ∙ neg-eq_ok h)

pub int-IsFinite : IsFinite ℤ
int-IsFinite = record {
  add_nought = λ x. ground arith;
  nought_add = λ x. ground arith;
  sub_nought = λ x. ground arith;
  sub_self = λ x. ground arith;
  mul_one = λ x. ground arith;
  one_mul = λ x. ground arith;
  mul_nought = λ x. ground arith;
  add_neg = λ x y. ground arith;
  sub_swap = λ x y. ground arith;
  neg_neg = λ x. ground arith;
  neg_mul = λ x y. ground arith;
  mul_neg = λ x y. ground arith;
  nought_mul = λ x. ground arith;
  div_zero = λ x. refl;
  div_ok = int-div_ok;
  neg_div = int-neg_div;
  lt_irrefl = λ x. ground arith;
  lt_asymm = λ x y. ground arith;
  lt_trans = λ x y z. ground arith;
  lt_total = λ x y. ground arith;
  nought_lt_one = refl;
  lt_neg = λ x. ground arith;
  or_nought = refl;
  or_one = refl;
  one_or_nought = refl;
  one_or_one = refl;
}

pub int-IsExact : IsExact ℤ
int-IsExact = record {
  add_comm = λ x y. ground arith;
  add_assoc = λ x y z. ground arith;
  add_nought = λ x. ground arith;
  sub_add = λ x y. ground arith;
}

int-div_not_negative :
    (x y : ℤ)
    → lt_ℤ x (pos 0) ≡ false
    → lt_ℤ (pos 0) y ≡ true
    → (q : ℤ) × (quot x y ≡ ok q) × (lt_ℤ q (pos 0) ≡ false)
int-div_not_negative x (pos zero) h k = absurd (ground arith)
int-div_not_negative (pos a) (pos (suc b)) h k = (pos (a / suc b), ground arith, ground arith)
int-div_not_negative (negsuc a) (pos (suc b)) h k = absurd (ground arith)
int-div_not_negative x (negsuc b) h k = absurd (ground arith)

int-fmod_range :
    (x y : ℤ)
    → lt_ℤ x (pos 0) ≡ false
    → lt_ℤ (pos 0) y ≡ true
    → (r : ℤ) × (fmod_ℤ x y ≡ ok r) × (lt_ℤ r (pos 0) ≡ false) × (lt_ℤ r y ≡ true)
int-fmod_range x (pos zero) h k = absurd (ground arith)
int-fmod_range (pos a) (pos (suc b)) h k =
    (pos (a % suc b), ground arith, ground arith, ground arith)
int-fmod_range (negsuc a) (pos (suc b)) h k = absurd (ground arith)
int-fmod_range x (negsuc b) h k = absurd (ground arith)

pub int-IsModular : IsModular ℤ
int-IsModular = record {
  of_int_positive = λ k. ground arith;
  of_int_not_negative = λ k. ground arith;
  div_not_negative = int-div_not_negative;
  fmod_range = int-fmod_range;
}
