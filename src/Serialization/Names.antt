-- ===== src/Serialization/Names.antt =====
-- Attributes by their names: the `__dict__` of an object, in the order of insertion. A name is the list of
-- its character codes.
use private_billings.Prelude.{
  ℕ, ◌≡◌, refl, ap, ◌∙◌, Option, none, some, Bool, true, false, ◌&&◌, ◌||◌, List, [], ◌∷◌, ◌++◌,
  ◌==◌, ==_iff, ==_refl, if◌then◌else◌, arith,
}
use private_billings.Python.Raises.{Result, ok, err, attribute_error}

abbrev pub Name : Type 0
Name = List ℕ

abbrev pub same_name : Name → Name → Bool
same_name [] [] = true
same_name [] (y ∷ ys) = false
same_name (x ∷ xs) [] = false
same_name (x ∷ xs) (y ∷ ys) = x == y && same_name xs ys

pub same_name_refl : (n : Name) → same_name n n ≡ true
same_name_refl [] = refl
same_name_refl (x ∷ n) = rw (==_refl x) (same_name_refl n)

pub same_name_eq : (m n : Name) → same_name m n ≡ true → m ≡ n
same_name_eq [] [] h = refl
same_name_eq [] (y ∷ n) h = absurd (ground (arith, h))
same_name_eq (x ∷ m) [] h = absurd (ground (arith, h))
same_name_eq (x ∷ m) (y ∷ n) h =
    let here : (x == y) ≡ true = ground (arith, h) in
    let rest : same_name m n ≡ true = ground (arith, h) in
    ap (λ (a : ℕ). a ∷ m) ((==_iff x y).0 here) ∙ ap (λ (l : Name). y ∷ l) (same_name_eq m n rest)

abbrev pub Attributes : Type 0 → Type 0
Attributes V = List (Name × V)

module _ {V : Type 0} where
  -- `hasattr`
  abbrev pub has : Name → Attributes V → Bool
  has n [] = false
  has n (e ∷ d) = same_name n e.0 || has n d

  -- `getattr`, where it finds something
  abbrev pub get_attribute : Name → Attributes V → Option V
  get_attribute n [] = none
  get_attribute n (e ∷ d) = if same_name n e.0 then some e.1 else get_attribute n d

  -- `setattr`
  abbrev pub set_attribute : Name → V → Attributes V → Attributes V
  set_attribute n v [] = (n, v) ∷ []
  set_attribute n v (e ∷ d) = if same_name n e.0 then (n, v) ∷ d else e ∷ set_attribute n v d

  abbrev under : Name × V → Result (Attributes V) → Result (Attributes V)
  under e (ok d) = ok (e ∷ d)
  under e (err x) = err x

  -- `delattr`, and `del` on a copy
  abbrev pub delete_attribute : Name → Attributes V → Result (Attributes V)
  delete_attribute n [] = err attribute_error
  delete_attribute n (e ∷ d) =
      let rest = delete_attribute n d in if same_name n e.0 then ok d else under e rest

  pub has-append : (n : Name) (d e : Attributes V) → has n (d ++ e) ≡ (has n d || has n e)
  has-append n [] e = refl
  has-append n (x ∷ d) e = ground (arith, has-append n d e)

  pub get_attribute-append :
      (n : Name) (d e : Attributes V)
      → get_attribute n (d ++ e) ≡ (if has n d then get_attribute n d else get_attribute n e)
  get_attribute-append n [] e = refl
  get_attribute-append n (x ∷ d) e = ground (arith, get_attribute-append n d e)

  pub set_new :
      (n : Name) (v : V) (d : Attributes V)
      → has n d ≡ false
      → set_attribute n v d ≡ d ++ (n, v) ∷ []
  set_new n v [] h = refl
  set_new n v (e ∷ d) h =
      let other : same_name n e.0 ≡ false = ground (arith, h) in
      rw other (ap (λ (r : Attributes V). e ∷ r) (set_new n v d (ground (arith, h))))

  pub delete_there :
      (n : Name) (v : V) (d e : Attributes V)
      → has n d ≡ false
      → delete_attribute n (d ++ (n, v) ∷ e) ≡ ok (d ++ e)
  delete_there n v [] e h = rw (same_name_refl n) refl
  delete_there n v (x ∷ d) e h =
      let other : same_name n x.0 ≡ false = ground (arith, h) in
      rw (other, delete_there n v d e (ground (arith, h))) refl
