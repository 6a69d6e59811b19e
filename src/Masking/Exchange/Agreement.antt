-- ===== src/Masking/Exchange/Agreement.antt =====
-- The agreement on seeds through the steps of an exchange.
use mathlib.Core.Path.{subst}
use mathlib.Core.Option.{some-injective}
use private_billings.Prelude.{
  Option-cases, ==_iff, ℕ, ◌≡◌, ◌≢◌, refl, sym, ap, ◌∙◌, true, false, some, ◌∷◌, map, arith, All,
  All-map, All-map₂, ◌==◌, Bool-cases, inl, inr,
}
use private_billings.Python.Dict.{
  Dict, lookup, contains, insert, set_default, get_or, IsDict, insert-IsDict, set_default-IsDict,
  contains-lookup,
}
use private_billings.Cycle.{ClientId}
use private_billings.Masking.{
  Seed, Int64Convertor, SharedMaskGenerator, new_generator, get_seed_for_peer,
}
use private_billings.Masking.Cancel.{Parties, IsAgreed}
use private_billings.Masking.Exchange.{
  give, joined, gave, Reached, nobody, step, contains-map, map-IsDict, All-over, lookup-entries,
  insert-known, unknown,
}
use private_billings.Masking.Exchange.Gift.{after, after_owned, after_foreign, after_agreed}

module _ {N : Type 0} (c : ClientId) (convertor : Int64Convertor N) (ps : Parties N) where
  joined-IsAgreed :
      contains c ps ≡ false → IsAgreed ps → IsAgreed ((c, new_generator convertor) ∷ ps)
  unfolding new_generator
  joined-IsAgreed new a = record {
    ids = (ground arith, a.ids);
    owned_IsDict = (tt, a.owned_IsDict);
    foreign_IsDict = (tt, a.foreign_IsDict);
    owned_known =
        (tt, All-map (λ p h. All-map (λ e known. ground arith) p.1.owned_seeds h) ps a.owned_known);
    foreign_known = (
      tt,
      All-map (λ p h. All-map (λ e known. ground arith) p.1.foreign_seeds h) ps a.foreign_known,
    );
    agreed = (
      (refl, All-map (λ p h. sym (unknown ps c p.1.foreign_seeds new h)) ps a.foreign_known),
      All-map₂ (λ p known h. (unknown ps c p.1.owned_seeds new known, h)) ps a.owned_known a.agreed,
    );
  }

module _ {N : Type 0} (fresh : Seed) (owner peer : ClientId) (distinct : owner ≢ peer)
    (ps : Parties N) (g : SharedMaskGenerator N) (found : lookup owner ps ≡ some g)
    (owner_known : contains owner ps ≡ true) (peer_known : contains peer ps ≡ true)
    (a : IsAgreed ps) where
  abbrev seed : Seed
  seed = get_or peer fresh g.owned_seeds

  abbrev changed : ℕ × SharedMaskGenerator N → ℕ × SharedMaskGenerator N
  changed e = (e.0, after fresh owner peer distinct seed e.0 e.1)

  abbrev given : Parties N
  given = map changed ps

  contains-given : (k : ℕ) → contains k given ≡ contains k ps
  contains-given k = contains-map (after fresh owner peer distinct seed) k ps

  abbrev Known : ℕ → Type 0
  Known k = contains k ps ≡ true

  abbrev NowKnown : ℕ → Type 0
  NowKnown k = contains k given ≡ true

  now_known : (d : Dict Seed) → All (λ e. Known e.0) d → All (λ e. NowKnown e.0) d
  now_known d h = All-map (λ e known. contains-given e.0 ∙ known) d h

  owned_lem :
      (P : Dict Seed → Type 0) (k : ℕ) (h : SharedMaskGenerator N)
      → P h.owned_seeds
      → P (set_default peer fresh h.owned_seeds)
      → P (after fresh owner peer distinct seed k h).owned_seeds
  owned_lem P k h old new =
      subst P (sym (after_owned fresh owner peer distinct seed k h))
        (elim (Bool-cases (k == owner)) [ inl e ↦ rw e new | inr e ↦ rw e old ])

  foreign_lem :
      (P : Dict Seed → Type 0) (k : ℕ) (h : SharedMaskGenerator N)
      → P h.foreign_seeds
      → P (insert owner seed h.foreign_seeds)
      → P (after fresh owner peer distinct seed k h).foreign_seeds
  foreign_lem P k h old new =
      subst P (sym (after_foreign fresh owner peer distinct seed k h))
        (elim (Bool-cases (k == peer)) [ inl e ↦ rw e new | inr e ↦ rw e old ])

  default-Known :
      (d : Dict Seed) → All (λ e. Known e.0) d → All (λ e. Known e.0) (set_default peer fresh d)
  default-Known d h = elim (Option-cases (lookup peer d)) [
    | inl e ↦ rw (e, set_default) (insert-known Known peer fresh d peer_known h)
    | inr (s, e) ↦ rw (e, set_default) h
  ]

  same_seed :
      (p : ℕ × SharedMaskGenerator N)
      → lookup p.0 ps ≡ some p.1
      → (p.0 == owner) ≡ true
      → get_or peer fresh p.1.owned_seeds ≡ seed
  same_seed p e same =
      let here : some p.1 ≡ some g =
        sym e ∙ (ap (λ (k : ℕ). lookup k ps) ((==_iff p.0 owner).0 same) ∙ found) in
      ap (λ (h : SharedMaskGenerator N). get_or peer fresh h.owned_seeds)
        (some-injective p.1 g here)

  given-IsAgreed : IsAgreed given
  given-IsAgreed = record {
    ids = map-IsDict (after fresh owner peer distinct seed) ps a.ids;
    owned_IsDict =
        All-over (λ p. IsDict p.1.owned_seeds) changed ps
          (All-map
            (λ p h. owned_lem IsDict p.0 p.1 h (set_default-IsDict peer fresh p.1.owned_seeds h)) ps
            a.owned_IsDict);
    foreign_IsDict =
        All-over (λ p. IsDict p.1.foreign_seeds) changed ps
          (All-map
            (λ p h. foreign_lem IsDict p.0 p.1 h (insert-IsDict owner seed p.1.foreign_seeds h)) ps
            a.foreign_IsDict);
    owned_known =
        All-over (λ p. All (λ e. NowKnown e.0) p.1.owned_seeds) changed ps
          (All-map
            (λ p h.
              now_known _
                (owned_lem (All (λ e. Known e.0)) p.0 p.1 h (default-Known p.1.owned_seeds h)))
            ps a.owned_known);
    foreign_known =
        All-over (λ p. All (λ e. NowKnown e.0) p.1.foreign_seeds) changed ps
          (All-map
            (λ p h. now_known _ (
              foreign_lem (All (λ e. Known e.0)) p.0 p.1 h
                (insert-known Known owner seed p.1.foreign_seeds owner_known h)))
            ps a.foreign_known);
    agreed =
        All-over (λ p. All (λ q. lookup q.0 p.1.owned_seeds ≡ lookup p.0 q.1.foreign_seeds) given)
          changed ps
          (All-map₂
            (λ p here h.
              All-over (λ q. lookup q.0 (changed p).1.owned_seeds ≡ lookup p.0 q.1.foreign_seeds)
                changed ps
                (All-map
                  (λ q e.
                    after_agreed fresh owner peer distinct seed p.0 q.0 p.1 q.1 (same_seed p here)
                      e)
                  ps h))
            ps (lookup-entries ps a.ids) a.agreed);
  }

module _ {N : Type 0} where
  gave-IsAgreed :
      (fresh : Seed) (owner peer : ClientId) (ps : Parties N)
      → owner ≢ peer
      → contains owner ps ≡ true
      → contains peer ps ≡ true
      → IsAgreed ps
      → IsAgreed (give fresh owner peer ps)
  unfolding give get_seed_for_peer
  gave-IsAgreed fresh owner peer ps distinct owner_known peer_known a =
      let (g, found) = contains-lookup owner ps owner_known in
      rw (give, found)
        (given-IsAgreed fresh owner peer distinct ps g found owner_known peer_known a)

  -- However participants join, each with no seeds, and give each other seeds, in whatever order and however
  -- often, at the end each two of them agree on the seeds that they hold of each other, and nobody holds a
  -- seed of or for anyone else.
  pub Reached-IsAgreed : {ps : Parties N} → Reached ps → IsAgreed ps
  Reached-IsAgreed nobody = record {
    ids = tt;
    owned_IsDict = tt;
    foreign_IsDict = tt;
    owned_known = tt;
    foreign_known = tt;
    agreed = tt;
  }
  Reached-IsAgreed (step r (joined c convertor ps new)) =
      joined-IsAgreed c convertor ps new (Reached-IsAgreed r)
  Reached-IsAgreed (step r (gave fresh owner peer ps distinct owner_known peer_known)) =
      gave-IsAgreed fresh owner peer ps distinct owner_known peer_known (Reached-IsAgreed r)
