-- ===== src/Python/Action.antt =====
-- A method that mutates a state and may raise. What was written before a raise stays written.
use private_billings.Prelude.{◌≡◌, ap}
use private_billings.Python.Raises.{Result, ok, err}

abbrev pub Action {ℓ κ} : Type ℓ → Type κ → Type (ℓ ⊔ κ)
Action S A = S → Result A × S

module _ {ℓ κ} {S : Type ℓ} {A : Type κ} where
  abbrev pub pure : A → Action S A
  pure a s = (ok a, s)

  abbrev pub lift : Result A → Action S A
  lift r s = (r, s)

  abbrev pub gets : (S → A) → Action S A
  gets f s = (ok (f s), s)

module _ {ℓ κ μ} {S : Type ℓ} {A : Type κ} {B : Type μ} where
  abbrev continue : Result A → (A → Action S B) → Action S B
  continue (ok a) f s = f a s
  continue (err e) f s = (err e, s)

  infixl 5 ◌>>=◌ ◌>>◌
  abbrev pub ◌>>=◌ : Action S A → (A → Action S B) → Action S B
  ◌>>=◌ m f s = let (r, s') = m s in continue r f s'

  abbrev pub ◌>>◌ : Action S A → Action S B → Action S B
  m >> k = m >>= λ _. k

module _ {ℓ κ μ ν} {S : Type ℓ} {A : Type κ} {B : Type μ} (P : S → Type ν) where
  continue-keeps :
      (r : Result A) (f : A → Action S B) (s : S)
      → P s
      → ((a : A) → P s → P ((f a s).1))
      → P ((continue r f s).1)
  continue-keeps (ok a) f s p k = k a p
  continue-keeps (err e) f s p k = p

  -- A condition that both of two methods keep, also if the first one raises.
  pub then-keeps :
      (m : Action S A) (k : Action S B) (s : S)
      → P ((m s).1)
      → ((s' : S) → P s' → P ((k s').1))
      → P (((m >> k) s).1)
  then-keeps m k s p keeps =
      continue-keeps ((m s).0) (λ _. k) ((m s).1) p (λ a q. keeps ((m s).1) q)

module _ {ℓ κ} {S : Type ℓ} {B : Type κ} where
  -- After a method that raises nothing comes the next.
  pub then-ok :
      (m : Action S (Unit {0})) (k : Action S B) (s : S)
      → (m s).0 ≡ ok tt
      → (m >> k) s ≡ k ((m s).1)
  then-ok m k s fine = ap (λ (r : Result (Unit {0})). continue r (λ _. k) ((m s).1)) fine
