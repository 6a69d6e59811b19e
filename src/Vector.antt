-- ===== src/Vector.antt =====
-- `class vector` and the flag functions of src/private_billing/core/utils.py. A vector is a list; an
-- in-place operator (`+=` and the like) rebinds its left side to the value of the plain operator.
pub mod Ops
pub mod Columns
use private_billings.Prelude.{
  ℕ, ◌-◌, Bool, true, List, [], ◌∷◌, ◌++◌, map, ◌==◌, if◌then◌else◌, not, length, replicate,
}
use private_billings.Python.Raises.{
  Result, ok, err, type_error, attribute_error, ◌>>=◌, ◌>>◌, assert,
}
use private_billings.Number.{Number}

-- The right operand of a vector's operator: a vector, an int or a float, or a list that is no vector.
pub data Operand (N : Type 0) : Type 0 where
  vec : List N → Operand N
  num : N → Operand N
  seq : List N → Operand N

-- `[f(a, b) for a, b in zip(u, v)]`, where `f` may raise
abbrev pub zip_traverse {ℓ} : {A : Type ℓ} → (A → A → Result A) → List A → List A → Result (List A)
zip_traverse f [] v = ok []
zip_traverse f (a ∷ u) [] = ok []
zip_traverse f (a ∷ u) (b ∷ v) = f a b >>= λ c. zip_traverse f u v >>= λ w. ok (c ∷ w)

abbrev pub elementwise {ℓ} : {A : Type ℓ} → (A → A → Result A) → List A → List A → Result (List A)
elementwise f u v = assert (length u == length v) >> zip_traverse f u v

-- `[f(a, o) for a in u]`, where `f` may raise
abbrev pub scalarwise {ℓ} : {A : Type ℓ} → (A → A → Result A) → List A → A → Result (List A)
scalarwise f [] o = ok []
scalarwise f (a ∷ u) o = f a o >>= λ c. scalarwise f u o >>= λ w. ok (c ∷ w)

module _ {N : Type 0} ⦃n : Number N⦄ where
  unfoldable pub new : ℕ → N → List N
  new len default = replicate len default

  -- `list.__add__` joins two lists
  unfoldable pub add : List N → Operand N → Result (List N)
  add u (vec v) = elementwise (λ a b. ok (n.add a b)) u v
  add u (num o) = err type_error
  add u (seq v) = ok (u ++ v)

  -- `list` has no `__sub__`
  unfoldable pub sub : List N → Operand N → Result (List N)
  sub u (vec v) = elementwise (λ a b. ok (n.sub a b)) u v
  sub u (num o) = err attribute_error
  sub u (seq v) = err attribute_error

  unfoldable pub mul : List N → Operand N → Result (List N)
  mul u (vec v) = elementwise (λ a b. ok (n.mul a b)) u v
  mul u (num o) = ok (map (λ a. n.mul a o) u)
  mul u (seq v) = err type_error

  unfoldable pub truediv : List N → Operand N → Result (List N)
  truediv u (vec v) = elementwise n.div u v
  truediv u (num o) = scalarwise n.div u o
  truediv u (seq v) = err attribute_error

  unfoldable pub modulo : List N → Operand N → Result (List N)
  modulo u (vec v) = elementwise n.rem u v
  modulo u (num o) = scalarwise n.rem u o
  modulo u (seq v) = err attribute_error

  unfoldable pub xor : List N → Operand N → Result (List N)
  xor u (vec v) = elementwise n.bit_xor u v
  xor u (num o) = scalarwise n.bit_xor u o
  xor u (seq v) = err attribute_error

  unfoldable pub or : List N → Operand N → Result (List N)
  or u (vec v) = elementwise n.bit_or u v
  or u (num o) = scalarwise n.bit_or u o
  or u (seq v) = err attribute_error

  -- `[padding] * k` is empty for a negative `k`, as `-` on ℕ stops at 0.
  unfoldable pub pad_to : List N → ℕ → N → List N
  pad_to u new_len padding = u ++ replicate (new_len - length u) padding

  -- The assignment in `truncate` binds the local name `self`, so the vector is left as it was.
  unfoldable pub truncate : List N → ℕ → List N
  truncate u new_len = u

  -- Python's `max(v, o)`: the second only if it is greater
  unfoldable pub max_of : N → N → N
  max_of v o = if n.lt v o then o else v

  unfoldable pub max_vector : List N → N → List N
  unfolding max_of
  max_vector vals o = map (λ v. max_of v o) vals

  -- `int(b)`
  abbrev pub flag : Bool → N
  flag b = if b then n.one else n.nought

  unfoldable pub get_positive_flags : List N → List N
  get_positive_flags vals = map (λ val. flag (n.lt n.nought val)) vals

  unfoldable pub get_non_zero_flags : List N → List N
  get_non_zero_flags vals = map (λ val. flag (not (n.eq val n.nought))) vals
