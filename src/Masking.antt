-- ===== src/Masking.antt =====
-- src/private_billing/core/masking.py: masks that sum to zero over all participants, made from seeds
-- that each two of them have exchanged. `numpy`'s generator and the random seeds are parameters.
pub mod Convertor
pub mod Seeds
pub mod Draws
pub mod Cancel
pub mod Unmask
pub mod Exchange
use private_billings.Prelude.{
  ℕ, zero, suc, ◌+◌, ◌≤◌, Bool, true, false, ◌&&◌, ◌||◌, not, Option, some, none, List, [], ◌∷◌,
  ◌++◌, map, ◌==◌, if◌then◌else◌,
}
use mathlib.Core.List.{foldl}
use private_billings.Python.Raises.{Result, ok, err, ◌>>=◌, ◌>>◌, assert, traverse, index_error}
use private_billings.Python.Dict.{Dict, get_or, contains, insert, set_default, keys, values}
use private_billings.Number.{Number}
use private_billings.Vector.{vec, new, add, sub}
use private_billings.Cycle.{ClientId}

abbrev pub Seed : Type 0
Seed = ℕ

-- An `Int64Convertor` is known by its one method.
abbrev pub Int64Convertor : Type 0 → Type 0
Int64Convertor N = ℕ → Result N

pub record SharedMaskGenerator (N : Type 0) : Type 0 where
  pub convertor : Int64Convertor N
  pub owned_seeds : Dict Seed
  pub foreign_seeds : Dict Seed

-- `PCG64(seed).random_raw()`, called again and again: the draws of one generator in order.
abbrev pub Pcg64 : Type 0
Pcg64 = Seed → ℕ → ℕ

-- Whether every item of the first list is in the second.
pub is_member : ℕ → List ℕ → Bool
is_member k [] = false
is_member k (j ∷ js) = k == j || is_member k js

pub is_subset : List ℕ → List ℕ → Bool
is_subset [] js = true
is_subset (k ∷ ks) js = is_member k js && is_subset ks js

-- `range(i, i + count)`
abbrev pub range_from : ℕ → ℕ → List ℕ
range_from i zero = []
range_from i (suc count) = i ∷ range_from (i + 1) count

is_empty : Dict Seed → Bool
is_empty [] = true
is_empty (e ∷ d) = false

-- `vector([pcg.random_raw() for _ in range(size)])`
shares : Pcg64 → Seed → ℕ → List ℕ
shares pcg64 seed size = map (pcg64 seed) (range_from 0 size)

module _ {N : Type 0} where
  unfoldable pub new_generator : Int64Convertor N → SharedMaskGenerator N
  new_generator convertor = record { convertor = convertor; owned_seeds = []; foreign_seeds = [] }

  -- `set(owned.keys()) == set(foreign.keys())`
  unfoldable pub is_stable : SharedMaskGenerator N → Bool
  unfolding is_subset is_member
  is_stable g =
      is_subset (keys g.owned_seeds) (keys g.foreign_seeds)
      && is_subset (keys g.foreign_seeds) (keys g.owned_seeds)

  -- `setdefault` draws the fresh seed also where it keeps the old one.
  unfoldable pub get_seed_for_peer :
      Seed → ClientId → SharedMaskGenerator N → Seed × SharedMaskGenerator N
  get_seed_for_peer fresh c g =
      (get_or c fresh g.owned_seeds, record g { owned_seeds = set_default c fresh g.owned_seeds })

  unfoldable pub has_owned_seed_for_peer : ClientId → SharedMaskGenerator N → Bool
  has_owned_seed_for_peer c g = contains c g.owned_seeds

  unfoldable pub has_foreign_seed_from_peer : ClientId → SharedMaskGenerator N → Bool
  has_foreign_seed_from_peer c g = contains c g.foreign_seeds

  unfoldable pub consume_foreign_seed :
      Seed → ClientId → SharedMaskGenerator N → SharedMaskGenerator N
  consume_foreign_seed seed c g = record g { foreign_seeds = insert c seed g.foreign_seeds }

module _ {N : Type 0} ⦃n : Number N⦄ where
  convert_vector : Int64Convertor N → List ℕ → Result (List N)
  convert_vector convertor vals = traverse convertor vals

  -- `sum(vals[1:], vals[0])`
  sum_vectors : List (List N) → List N → Result (List N)
  sum_vectors [] acc = ok acc
  sum_vectors (v ∷ vals) acc = add acc (vec v) >>= λ acc'. sum_vectors vals acc'

  unfoldable pub unmask : List (List N) → Result (List N)
  unfolding sum_vectors
  unmask [] = err index_error
  unmask (v ∷ vals) = sum_vectors vals v

module _ {N : Type 0} ⦃n : Number N⦄ (pcg64 : Pcg64) where
  -- The two loops of `generate_mask`: the first draw for each seed is added, or subtracted.
  add_draws : Int64Convertor N → ℕ → List Seed → N → Result N
  add_draws convertor iv [] mask = ok mask
  add_draws convertor iv (s ∷ seeds) mask =
      convertor (pcg64 (s + iv) 0) >>= λ val. add_draws convertor iv seeds (n.add mask val)

  sub_draws : Int64Convertor N → ℕ → List Seed → N → Result N
  sub_draws convertor iv [] mask = ok mask
  sub_draws convertor iv (s ∷ seeds) mask =
      convertor (pcg64 (s + iv) 0) >>= λ val. sub_draws convertor iv seeds (n.sub mask val)

  unfoldable pub generate_mask : SharedMaskGenerator N → ℕ → Result N
  unfolding add_draws sub_draws is_empty
  generate_mask g iv = do
    -- `assert self.owned_seeds or self.foreign_seeds`
    assert (not (is_empty g.owned_seeds) || not (is_empty g.foreign_seeds))
    mask ← add_draws g.convertor iv (values g.owned_seeds) n.nought
    sub_draws g.convertor iv (values g.foreign_seeds) mask

  -- The two loops of `generate_masks`.
  add_shares : Int64Convertor N → ℕ → ℕ → List Seed → List N → Result (List N)
  add_shares convertor iv size [] masks = ok masks
  add_shares convertor iv size (s ∷ seeds) masks =
      convert_vector convertor (shares pcg64 (s + iv) size) >>= λ share.
      add masks (vec share) >>= λ masks'. add_shares convertor iv size seeds masks'

  sub_shares : Int64Convertor N → ℕ → ℕ → List Seed → List N → Result (List N)
  sub_shares convertor iv size [] masks = ok masks
  sub_shares convertor iv size (s ∷ seeds) masks =
      convert_vector convertor (shares pcg64 (s + iv) size) >>= λ share.
      sub masks (vec share) >>= λ masks'. sub_shares convertor iv size seeds masks'

  unfoldable pub generate_masks : SharedMaskGenerator N → ℕ → ℕ → Result (List N)
  unfolding add_shares sub_shares shares convert_vector new
  generate_masks g iv size = do
    masks ← add_shares g.convertor iv size (values g.owned_seeds) (new size n.nought)
    sub_shares g.convertor iv size (values g.foreign_seeds) masks
