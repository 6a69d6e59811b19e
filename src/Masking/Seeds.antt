-- ===== src/Masking/Seeds.antt =====
-- The seeds of one generator: when it is stable, and what giving and receiving a seed changes.
use private_billings.Prelude.{
  ℕ, ==_refl, sym, ◌∙◌, ◌≡◌, ◌↔◌, refl, Bool, true, false, ◌&&◌, some, List, [], ◌∷◌, arith, ◌==◌,
  if◌then◌else◌,
}
use private_billings.Python.Dict.{
  lookup-get_or, Dict, lookup, contains, set_default, get_or, keys, lookup-insert,
  lookup-set_default,
}
use private_billings.Cycle.{ClientId}
use private_billings.Masking.{
  Seed, SharedMaskGenerator, is_member, is_subset, is_stable, get_seed_for_peer,
  has_owned_seed_for_peer, has_foreign_seed_from_peer, consume_foreign_seed,
}

is_member-keys : (k : ℕ) (d : Dict Seed) → is_member k (keys d) ≡ contains k d
unfolding is_member
is_member-keys k [] = refl
is_member-keys k (e ∷ d) = ground (arith, is_member-keys k d)

is_subset-contains :
    (d e : Dict Seed) (c : ℕ)
    → is_subset (keys d) (keys e) ≡ true
    → contains c d ≡ true
    → contains c e ≡ true
unfolding is_subset
is_subset-contains [] e c sub there = absurd (ground arith)
is_subset-contains (x ∷ d) e c sub there =
    ground (arith, is_subset-contains d e c, is_member-keys x.0 e)

contains-is_subset :
    (ks : List ℕ) (e : Dict Seed)
    → ((c : ℕ) → is_member c ks ≡ true → contains c e ≡ true)
    → is_subset ks (keys e) ≡ true
unfolding is_subset is_member
contains-is_subset [] e h = refl
contains-is_subset (k ∷ ks) e h =
    let first : contains k e ≡ true = h k (ground arith) in
    let rest : is_subset ks (keys e) ≡ true =
      contains-is_subset ks e (λ c there. h c (ground arith)) in
    ground (arith, is_member-keys k e)

same_truth : (x y : Bool) → (x ≡ true → y ≡ true) → (y ≡ true → x ≡ true) → x ≡ y
same_truth true y f g = sym (f refl)
same_truth false true f g = g refl
same_truth false false f g = refl

both : (x y : Bool) → (x && y) ≡ true → (x ≡ true) × (y ≡ true)
both x y h = ground arith

-- After `setdefault` a later one finds the value and changes nothing.
set_again :
    (k : ℕ) (v w : Seed) (d : Dict Seed)
    → (get_or k w (set_default k v d) ≡ get_or k v d)
      × (set_default k w (set_default k v d) ≡ set_default k v d)
set_again k v w d =
    let there : lookup k (set_default k v d) ≡ some (get_or k v d) =
      lookup-set_default k k v d ∙ rw (==_refl k) in
    (lookup-get_or k w (get_or k v d) (set_default k v d) there, keep w (set_default k v d) _ there)
  where
    keep : (w : Seed) (e : Dict Seed) (u : Seed) → lookup k e ≡ some u → set_default k w e ≡ e
    keep w e u h = rw (h, set_default)

module _ {N : Type 0} (g : SharedMaskGenerator N) where
  -- A generator is stable exactly when it owns a seed for the same peers as those from which it has
  -- received one.
  pub is_stable_iff :
      (is_stable g ≡ true)
      ↔ ((c : ClientId) → has_owned_seed_for_peer c g ≡ has_foreign_seed_from_peer c g)
  unfolding is_stable has_owned_seed_for_peer has_foreign_seed_from_peer
  is_stable_iff = (
    λ h c.
        let (there, back) =
          both (is_subset (keys g.owned_seeds) (keys g.foreign_seeds))
            (is_subset (keys g.foreign_seeds) (keys g.owned_seeds)) h in
        same_truth (contains c g.owned_seeds) (contains c g.foreign_seeds)
          (is_subset-contains g.owned_seeds g.foreign_seeds c there)
          (is_subset-contains g.foreign_seeds g.owned_seeds c back),
    λ h. rw (
      contains-is_subset (keys g.owned_seeds) g.foreign_seeds
          (λ c m. sym (h c) ∙ (sym (is_member-keys c g.owned_seeds) ∙ m)),
      contains-is_subset (keys g.foreign_seeds) g.owned_seeds
          (λ c m. h c ∙ (sym (is_member-keys c g.foreign_seeds) ∙ m)),
    ),
  )

  -- The seed for a peer is drawn once: a later call returns the seed of the first, whatever is drawn then,
  -- and changes nothing. After a call there is a seed for that peer, and who else has one is as before.
  -- Receiving a seed does the same for the foreign seeds, where the new seed takes the place of an old one.
  seeds_lem :
      (fresh later received : Seed) (peer c : ClientId)
      → (get_seed_for_peer later peer ((get_seed_for_peer fresh peer g).1)
          ≡ get_seed_for_peer fresh peer g)
        × (has_owned_seed_for_peer c ((get_seed_for_peer fresh peer g).1)
            ≡ (if c == peer then true else has_owned_seed_for_peer c g))
        × (has_foreign_seed_from_peer c ((get_seed_for_peer fresh peer g).1)
            ≡ has_foreign_seed_from_peer c g)
        × (has_foreign_seed_from_peer c (consume_foreign_seed received peer g)
            ≡ (if c == peer then true else has_foreign_seed_from_peer c g))
        × (lookup c (consume_foreign_seed received peer g).foreign_seeds
            ≡ (if c == peer then some received else lookup c g.foreign_seeds))
        × (has_owned_seed_for_peer c (consume_foreign_seed received peer g)
            ≡ has_owned_seed_for_peer c g)
  unfolding get_seed_for_peer has_owned_seed_for_peer has_foreign_seed_from_peer
      consume_foreign_seed
  seeds_lem fresh later received peer c = (
    λ i.
        let (value, same) = set_again peer fresh later g.owned_seeds in
        (value i, record g { owned_seeds = same i }),
    ground (arith, lookup-set_default c peer fresh g.owned_seeds),
    refl,
    ground (arith, lookup-insert c peer received g.foreign_seeds),
    lookup-insert c peer received g.foreign_seeds,
    refl,
  )
