-- ===== src/Vector/Ops.antt =====
-- What the operators of `vector` return and when they raise, whatever their operands.
use private_billings.Prelude.{
  ℕ, ◌≤◌, ◌≡◌, ◌≢◌, ◌⊎◌, inl, inr, refl, List, [], ◌∷◌, length, ==_refl, arith, max, ◌-◌, zip_with,
  length-zip_with, take, take-append, length-append, length-replicate,
}
use private_billings.Python.Raises.{Result, ok, err, assertion_error}
use mathlib.Core.List.{append-nil}
use private_billings.Number.{Number}
use private_billings.Vector.{
  vec, zip_traverse, elementwise, add, sub, mul, truediv, modulo, xor, or, pad_to,
}

zip_traverse-ok {ℓ} :
    {A : Type ℓ} (f : A → A → A) (u v : List A)
    → zip_traverse (λ a b. ok (f a b)) u v ≡ ok (zip_with f u v)
zip_traverse-ok f [] v = refl
zip_traverse-ok f (a ∷ u) [] = refl
zip_traverse-ok f (a ∷ u) (b ∷ v) = rw (zip_traverse-ok f u v)

elementwise-ok {ℓ} :
    {A : Type ℓ} (f : A → A → A) (u v : List A)
    → length u ≡ length v
    → elementwise (λ a b. ok (f a b)) u v ≡ ok (zip_with f u v)
elementwise-ok f u v h = rw (h, ==_refl (length v)) (zip_traverse-ok f u v)

elementwise-err {ℓ} :
    {A : Type ℓ} (op : A → A → Result A) (u v : List A)
    → length u ≢ length v
    → elementwise op u v ≡ err assertion_error
elementwise-err op u v h = ground arith

equal_or_not : (a b : ℕ) → (a ≡ b) ⊎ (a ≢ b)
equal_or_not a b = omega arith

module _ {N : Type 0} ⦃n : Number N⦄ (u v : List N) where
  -- On vectors of one length `+`, `-` and `*` return the vector of the sums, differences and products
  -- of the items at each place, of the same length. On vectors of two lengths each of the seven operators
  -- raises the assertion error, even where an item before the end of the shorter one would raise another.
  pub operators_by_length :
      ((length u ≡ length v)
        × (add u (vec v) ≡ ok (zip_with n.add u v))
        × (sub u (vec v) ≡ ok (zip_with n.sub u v))
        × (mul u (vec v) ≡ ok (zip_with n.mul u v))
        × (length (zip_with n.add u v) ≡ length u)
        × (length (zip_with n.sub u v) ≡ length u)
        × (length (zip_with n.mul u v) ≡ length u))
      ⊎ ((length u ≢ length v)
          × (add u (vec v) ≡ err assertion_error)
          × (sub u (vec v) ≡ err assertion_error)
          × (mul u (vec v) ≡ err assertion_error)
          × (truediv u (vec v) ≡ err assertion_error)
          × (modulo u (vec v) ≡ err assertion_error)
          × (xor u (vec v) ≡ err assertion_error)
          × (or u (vec v) ≡ err assertion_error))
  unfolding add sub mul truediv modulo xor or
  operators_by_length = elim (equal_or_not (length u) (length v)) [
    | inl same ↦ inl (
      same,
      elementwise-ok n.add u v same,
      elementwise-ok n.sub u v same,
      elementwise-ok n.mul u v same,
      length-zip_with n.add u v same,
      length-zip_with n.sub u v same,
      length-zip_with n.mul u v same,
    )
    | inr other ↦ inr (
      other,
      elementwise-err (λ a b. ok (n.add a b)) u v other,
      elementwise-err (λ a b. ok (n.sub a b)) u v other,
      elementwise-err (λ a b. ok (n.mul a b)) u v other,
      elementwise-err n.div u v other,
      elementwise-err n.rem u v other,
      elementwise-err n.bit_xor u v other,
      elementwise-err n.bit_or u v other,
    )
  ]

module _ {N : Type 0} ⦃n : Number N⦄ (u : List N) where
  -- `pad_to` makes a vector as long as asked, or leaves a longer one as it is, and what the vector
  -- held stays in front.
  pub pad_to_lem :
      (k : ℕ) (p : N)
      → (length (pad_to u k p) ≡ max (length u) k) × (take (length u) (pad_to u k p) ≡ u)
  unfolding pad_to
  pad_to_lem k p = (omega (arith, length-append {0}, length-replicate {0}), take-append u _)

module _ {N : Type 0} ⦃n : Number N⦄ where
  -- A vector that is long enough is not padded.
  pub pad_to_long : (u : List N) (k : ℕ) (p : N) → k ≤ length u → pad_to u k p ≡ u
  unfolding pad_to
  pad_to_long u k p h = let nothing : k - length u ≡ 0 = omega arith in rw nothing (append-nil u)
