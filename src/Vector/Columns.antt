-- ===== src/Vector/Columns.antt =====
-- The operators on vectors that are columns of one table: each acts row by row.
use private_billings.Prelude.{
  ◌≡◌, ◌≢◌, refl, List, [], ◌∷◌, map, length, length-map, ==_refl, All, map-map, ◌∙◌,
}
use private_billings.Python.Raises.{Result, ok, err, traverse, traverse-ok}
use private_billings.Number.{Number}
use private_billings.Number.Laws.{IsFinite}
use private_billings.Vector.{
  vec, num, zip_traverse, elementwise, add, sub, mul, truediv, or, max_vector, max_of,
  get_positive_flags, flag,
}

module _ {ℓ κ} {R : Type ℓ} {A : Type κ} where
  zip_traverse-map :
      (op : A → A → Result A) (f g : R → A) (rows : List R)
      → zip_traverse op (map f rows) (map g rows) ≡ traverse (λ r. op (f r) (g r)) rows
  zip_traverse-map op f g [] = refl
  zip_traverse-map op f g (r ∷ rows) = rw (zip_traverse-map op f g rows)

  elementwise-map :
      (op : A → A → Result A) (f g : R → A) (rows : List R)
      → elementwise op (map f rows) (map g rows) ≡ traverse (λ r. op (f r) (g r)) rows
  elementwise-map op f g rows =
      rw (length-map f rows, length-map g rows, ==_refl (length rows))
        (zip_traverse-map op f g rows)

-- The quotient where there is one, else 0.
module _ {N : Type 0} ⦃n : Number N⦄ where
  abbrev pub quotient : N → N → N
  quotient a b = elim (n.div a b) [ ok q ↦ q | err _ ↦ n.nought ]

  pub div-quotient : IsFinite N → (a b : N) → b ≢ n.nought → n.div a b ≡ ok (quotient a b)
  div-quotient finite a b h = let (q, e) = finite.div_ok a b h in rw (e, quotient)

module _ {ℓ} {N : Type 0} ⦃n : Number N⦄ {R : Type ℓ} (f g : R → N) (rows : List R) where
  pub add-map : add (map f rows) (vec (map g rows)) ≡ ok (map (λ r. n.add (f r) (g r)) rows)
  unfolding add
  add-map =
      elementwise-map (λ a b. ok (n.add a b)) f g rows ∙ traverse-ok (λ r. n.add (f r) (g r)) rows

  pub sub-map : sub (map f rows) (vec (map g rows)) ≡ ok (map (λ r. n.sub (f r) (g r)) rows)
  unfolding sub
  sub-map =
      elementwise-map (λ a b. ok (n.sub a b)) f g rows ∙ traverse-ok (λ r. n.sub (f r) (g r)) rows

  pub mul-map : mul (map f rows) (vec (map g rows)) ≡ ok (map (λ r. n.mul (f r) (g r)) rows)
  unfolding mul
  mul-map =
      elementwise-map (λ a b. ok (n.mul a b)) f g rows ∙ traverse-ok (λ r. n.mul (f r) (g r)) rows

  pub or-map : or (map f rows) (vec (map g rows)) ≡ traverse (λ r. n.bit_or (f r) (g r)) rows
  unfolding or
  or-map = elementwise-map n.bit_or f g rows

  traverse-div :
      (finite : IsFinite N) (rows : List R)
      → All (λ r. g r ≢ n.nought) rows
      → traverse (λ r. n.div (f r) (g r)) rows ≡ ok (map (λ r. quotient (f r) (g r)) rows)
  traverse-div finite [] h = refl
  traverse-div finite (r ∷ rows) h =
      rw (div-quotient finite (f r) (g r) h.0, traverse-div finite rows h.1)

  -- With no zero among the divisors the division raises nothing.
  pub truediv-map :
      (finite : IsFinite N)
      → All (λ r. g r ≢ n.nought) rows
      → truediv (map f rows) (vec (map g rows)) ≡ ok (map (λ r. quotient (f r) (g r)) rows)
  unfolding truediv
  truediv-map finite h = elementwise-map n.div f g rows ∙ traverse-div finite rows h

module _ {ℓ} {N : Type 0} ⦃n : Number N⦄ {R : Type ℓ} (f : R → N) (rows : List R) where
  pub mul-num-map : (o : N) → mul (map f rows) (num o) ≡ ok (map (λ r. n.mul (f r) o) rows)
  unfolding mul
  mul-num-map o = rw map-map

  pub get_positive_flags-map :
      get_positive_flags (map f rows) ≡ map (λ r. flag (n.lt n.nought (f r))) rows
  unfolding get_positive_flags
  get_positive_flags-map = map-map _ f rows

  pub max_vector-map : (o : N) → max_vector (map f rows) o ≡ map (λ r. max_of (f r) o) rows
  unfolding max_vector
  max_vector-map o = map-map _ f rows
