-- ===== src/Number/Sums.antt =====
-- Sums over lists in exact arithmetic: they may be split, exchanged and cancelled.
use private_billings.Prelude.{◌≡◌, refl, sym, ap, ◌∙◌, List, [], ◌∷◌, map, All}
use mathlib.Core.List.{foldl}
use mathlib.Core.Path.{ap₂, ◌≡⟨◌⟩◌, ◌∎}
use private_billings.Number.{Number}
use private_billings.Number.Laws.{IsExact}

module _ {ℓ} {N : Type 0} ⦃n : Number N⦄ {A : Type ℓ} where
  abbrev pub sum_over : (A → N) → List A → N
  sum_over f [] = n.nought
  sum_over f (x ∷ xs) = n.add (f x) (sum_over f xs)

module _ {N : Type 0} ⦃n : Number N⦄ (exact : IsExact N) where
  open exact use {add_comm, add_assoc, add_nought, sub_add}

  pub nought_add : (x : N) → n.add n.nought x ≡ x
  nought_add x = add_comm n.nought x ∙ add_nought x

  pub add_left_comm : (x y z : N) → n.add x (n.add y z) ≡ n.add y (n.add x z)
  add_left_comm x y z = rw (← add_assoc x y z, add_comm x y) (add_assoc y x z)

  pub add_exchange : (a b c d : N) → n.add (n.add a b) (n.add c d) ≡ n.add (n.add a c) (n.add b d)
  add_exchange a b c d =
      rw (add_assoc a b (n.add c d), add_assoc a c (n.add b d)) (ap (n.add a) (add_left_comm b c d))

  add-inverse : (y : N) → n.add y (n.sub n.nought y) ≡ n.nought
  add-inverse y = add_comm y (n.sub n.nought y) ∙ sub_add n.nought y

  -- What leaves a number as it is, added to it, is 0.
  pub add_cancel : (x y : N) → n.add x y ≡ y → x ≡ n.nought
  add_cancel x y h =
      x
      ≡⟨ sym (add_nought x) ⟩ n.add x n.nought
      ≡⟨ ap (n.add x) (sym (add-inverse y)) ⟩ n.add x (n.add y (n.sub n.nought y))
      ≡⟨ sym (add_assoc x y (n.sub n.nought y)) ⟩ n.add (n.add x y) (n.sub n.nought y)
      ≡⟨ ap (λ (t : N). n.add t (n.sub n.nought y)) h ⟩ n.add y (n.sub n.nought y)
      ≡⟨ add-inverse y ⟩ n.nought ∎

module _ {ℓ} {N : Type 0} ⦃n : Number N⦄ (exact : IsExact N) {A : Type ℓ} where
  pub sum_over-nought : (xs : List A) → sum_over (λ _. n.nought) xs ≡ n.nought
  sum_over-nought [] = refl
  sum_over-nought (x ∷ xs) = ap (n.add n.nought) (sum_over-nought xs) ∙ exact.add_nought n.nought

  pub sum_over-add :
      (f g : A → N) (xs : List A)
      → sum_over (λ x. n.add (f x) (g x)) xs ≡ n.add (sum_over f xs) (sum_over g xs)
  sum_over-add f g [] = sym (exact.add_nought n.nought)
  sum_over-add f g (x ∷ xs) =
      ap (n.add (n.add (f x) (g x))) (sum_over-add f g xs)
      ∙ (add_exchange exact (f x) (g x) (sum_over f xs) (sum_over g xs))

  pub sum_over-All :
      (f g : A → N) (xs : List A) → All (λ x. f x ≡ g x) xs → sum_over f xs ≡ sum_over g xs
  sum_over-All f g [] h = refl
  sum_over-All f g (x ∷ xs) h = ap₂ n.add h.0 (sum_over-All f g xs h.1)

  pub foldl-add :
      (f : A → N) (xs : List A) (acc : N)
      → foldl (λ s x. n.add s (f x)) acc xs ≡ n.add acc (sum_over f xs)
  foldl-add f [] acc = sym (exact.add_nought acc)
  foldl-add f (x ∷ xs) acc =
      rw (foldl-add f xs (n.add acc (f x))) (exact.add_assoc acc (f x) (sum_over f xs))

  pub foldl-sub :
      (f : A → N) (xs : List A) (acc : N)
      → n.add (foldl (λ s x. n.sub s (f x)) acc xs) (sum_over f xs) ≡ acc
  foldl-sub f [] acc = exact.add_nought acc
  foldl-sub f (x ∷ xs) acc =
      rw
        (
          add_left_comm exact (foldl (λ s y. n.sub s (f y)) (n.sub acc (f x)) xs) (f x)
              (sum_over f xs),
          foldl-sub f xs (n.sub acc (f x)),
          exact.add_comm (f x) (n.sub acc (f x)),
        )
        (exact.sub_add acc (f x))

pub sum_over-map {ℓ κ} :
    {N : Type 0} ⦃n : Number N⦄ {A : Type ℓ} {B : Type κ} (f : B → N) (g : A → B) (xs : List A)
    → sum_over f (map g xs) ≡ sum_over (λ x. f (g x)) xs
sum_over-map f g [] = refl
sum_over-map {N = N} ⦃n⦄ f g (x ∷ xs) = ap (n.add (f (g x))) (sum_over-map f g xs)

-- Sums over the rows and over the columns of a table agree.
pub sum_over-exchange {ℓ κ} :
    {N : Type 0} ⦃n : Number N⦄ {A : Type ℓ} {B : Type κ}
    → IsExact N
    → (f : A → B → N) (xs : List A) (ys : List B)
    → sum_over (λ x. sum_over (f x) ys) xs ≡ sum_over (λ y. sum_over (λ x. f x y) xs) ys
sum_over-exchange {N = N} ⦃n⦄ {A = A} {B = B} exact f [] ys = sym (sum_over-nought exact ys)
sum_over-exchange {N = N} ⦃n⦄ {A = A} {B = B} exact f (x ∷ xs) ys =
    ap (n.add (sum_over (f x) ys)) (sum_over-exchange exact f xs ys)
    ∙ (sym (sum_over-add exact (f x) (λ y. sum_over (λ x'. f x' y) xs) ys))
