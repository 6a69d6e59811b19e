-- ===== src/Python/Raises.antt =====
-- A computation that returns a value or raises an exception.
use private_billings.Prelude.{
  ◌⊎◌, inl, inr, ◌≡◌, refl, Bool, true, false, Option, none, some, List, [], ◌∷◌, map, All,
}

-- The exceptions that the program raises itself or that Python raises for it.
pub data Exc : Type 0 where
  assertion_error value_error key_error type_error zero_division attribute_error : Exc
  not_implemented index_error no_valid_signature : Exc
  -- raised inside a third-party library
  foreign_error : Exc

pub data Result {ℓ} (A : Type ℓ) : Type ℓ where
  ok : A → Result A
  err : Exc → Result A

infixl 5 ◌>>=◌ ◌>>◌
abbrev pub ◌>>=◌ {ℓ κ} : {A : Type ℓ} {B : Type κ} → Result A → (A → Result B) → Result B
ok a >>= f = f a
err e >>= f = err e

abbrev pub ◌>>◌ {ℓ κ} : {A : Type κ} {B : Type ℓ} → Result A → Result B → Result B
m >> k = m >>= λ _. k

-- `assert b`
abbrev pub assert : Bool → Result (Unit {0})
assert true = ok tt
assert false = err assertion_error

-- A lookup that raises where nothing is found.
abbrev pub or_raise {ℓ} : {A : Type ℓ} → Option A → Exc → Result A
or_raise none e = err e
or_raise (some a) e = ok a

-- `[f(x) for x in xs]`, where `f` may raise.
module _ {ℓ κ} {A : Type ℓ} {B : Type κ} where
  abbrev pub traverse : (A → Result B) → List A → Result (List B)
  traverse f [] = ok []
  traverse f (x ∷ xs) = f x >>= λ y. traverse f xs >>= λ ys. ok (y ∷ ys)

  pub traverse-ok : (f : A → B) (xs : List A) → traverse (λ x. ok (f x)) xs ≡ ok (map f xs)
  traverse-ok f [] = refl
  traverse-ok f (x ∷ xs) = rw (traverse-ok f xs)

  pub traverse-All :
      (f : A → Result B) (g : A → B) (xs : List A)
      → All (λ x. f x ≡ ok (g x)) xs
      → traverse f xs ≡ ok (map g xs)
  traverse-All f g [] h = refl
  traverse-All f g (x ∷ xs) h = rw (h.0, traverse-All f g xs h.1)

-- A result is a value or an error.
pub result_cases {ℓ} :
    {A : Type ℓ} (r : Result A) → ((a : A) × (r ≡ ok a)) ⊎ ((x : Exc) × (r ≡ err x))
result_cases (ok a) = inl (a, refl)
result_cases (err x) = inr (x, refl)
