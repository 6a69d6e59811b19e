-- ===== src/Masking/Exchange/Gift.antt =====
-- What one gift of a seed changes in the generators of the owner, of the peer and of others.
use private_billings.Prelude.{
  ◌≡◌, ◌≢◌, true, false, arith, ◌==◌, if◌then◌else◌, Bool-cases, inl, inr,
}
use private_billings.Python.Dict.{
  lookup, insert, set_default, get_or, lookup-insert, lookup-set_default,
}
use private_billings.Cycle.{ClientId}
use private_billings.Masking.{Seed, SharedMaskGenerator, get_seed_for_peer, consume_foreign_seed}
use private_billings.Masking.Exchange.{after_gift}

module _ {N : Type 0} (fresh : Seed) (owner peer : ClientId) (distinct : owner ≢ peer) where
  abbrev pub after : Seed → ClientId → SharedMaskGenerator N → SharedMaskGenerator N
  after seed = after_gift fresh seed owner peer

  pub after_owned :
      (seed : Seed) (k : ClientId) (g : SharedMaskGenerator N)
      → (after seed k g).owned_seeds
        ≡ (if k == owner then set_default peer fresh g.owned_seeds else g.owned_seeds)
  unfolding after_gift get_seed_for_peer consume_foreign_seed
  after_owned seed k g = elim (Bool-cases (k == owner)) [
    | inl e ↦ rw e
    | inr e ↦ elim (Bool-cases (k == peer)) [ inl e' ↦ rw (e, e') | inr e' ↦ rw (e, e') ]
  ]

  pub after_foreign :
      (seed : Seed) (k : ClientId) (g : SharedMaskGenerator N)
      → (after seed k g).foreign_seeds
        ≡ (if k == peer then insert owner seed g.foreign_seeds else g.foreign_seeds)
  unfolding after_gift get_seed_for_peer consume_foreign_seed
  after_foreign seed k g = elim (Bool-cases (k == owner)) [
    | inl e ↦ let other : (k == peer) ≡ false = ground arith in rw (e, other)
    | inr e ↦ elim (Bool-cases (k == peer)) [ inl e' ↦ rw (e, e') | inr e' ↦ rw (e, e') ]
  ]

  -- The seed that the owner gives is the one that the peer receives; other pairs are left alone.
  pub after_agreed :
      (seed : Seed) (k l : ClientId) (g h : SharedMaskGenerator N)
      → ((k == owner) ≡ true → get_or peer fresh g.owned_seeds ≡ seed)
      → lookup l g.owned_seeds ≡ lookup k h.foreign_seeds
      → lookup l (after seed k g).owned_seeds ≡ lookup k (after seed l h).foreign_seeds
  after_agreed seed k l g h given e = elim (Bool-cases (k == owner)) [
    | inl same ↦
        let s = given same in
        rw (after_owned seed k g, after_foreign seed l h, same)
          (ground (
            arith,
            lookup-set_default l peer fresh g.owned_seeds,
            lookup-insert k owner seed h.foreign_seeds,
          ))
    | inr other ↦
        rw (after_owned seed k g, after_foreign seed l h, other)
          (ground (arith, lookup-insert k owner seed h.foreign_seeds))
  ]
