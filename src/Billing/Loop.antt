-- ===== src/Billing/Loop.antt =====
-- The loop of `compute_bills`: one bill for each client with data.
use private_billings.Prelude.{
  sym, ◌⊎◌, ◌||◌, true, Option-cases, ap, ℕ, ◌≡◌, refl, ◌∙◌, List, [], ◌∷◌, map, arith, All, none,
  some, ◌==◌, Bool-cases, inl, inr,
}
use private_billings.Python.Raises.{Exc, Result, err, ok}
use private_billings.Python.Dict.{
  contains, lookup-contains, Dict, lookup, insert, lookup-insert, IsDict,
}
use private_billings.Number.{Number}
use private_billings.Cycle.{ClientId, CycleContext, SharedCycleData}
use private_billings.Hiding.Openfhe.{Fhe}
use private_billings.HiddenBill.{HiddenBill}
use private_billings.HiddenData.{HiddenData}
use private_billings.HiddenData.Compute.{compute_hidden_bill}
use private_billings.Billing.{add_bills}

lookup-insert_self {ℓ} :
    {V : Type ℓ} (k : ℕ) (v : V) (d : Dict V) → lookup k (insert k v d) ≡ some v
lookup-insert_self k v d = ground (arith, lookup-insert k k v d)

eq_of_test : (c d : ℕ) → (c == d) ≡ true → c ≡ d
eq_of_test c d h = ground arith

-- A key that is not in a dict is neither its first key nor in the rest.
lookup-past {ℓ κ} :
    {V : Type ℓ} {W : Type κ} (c k : ℕ) (v : V) (w : W) (before : Dict W) (d : Dict V)
    → lookup c ((k, v) ∷ d) ≡ none
    → (lookup c d ≡ none) × (lookup c (insert k w before) ≡ lookup c before)
lookup-past c k v w before d h = elim (Bool-cases (c == k)) [
  | inl same ↦ absurd (absent (rw same at h))
  | inr other ↦ (rw other at h, lookup-insert c k w before ∙ rw other)
]
  where
    absent : some v ≡ none → ⊥
    absent e = cc

module _ {N : Type 0} ⦃n : Number N⦄ {F : Fhe N} (scd : SharedCycleData N) (cyc : CycleContext N)
    {M : Type 0} (client : M → ClientId) (datum : M → HiddenData F)
    (Good : M → HiddenBill F → Type 0) where
  abbrev pub entries : List M → Dict (HiddenData F)
  entries = map (λ m. (client m, datum m))

  -- For this member the computation returns a good bill, whatever keys are loaded.
  abbrev pub Computes : M → Type 0
  Computes m =
      (store : F.KeyStore)
      → (hb : HiddenBill F) × (store' : F.KeyStore) × (compute_hidden_bill (datum m) scd cyc store
          ≡ (ok hb, store'))
        × Good m hb

  abbrev pub HasGoodBill : Dict (HiddenBill F) → M → Type 0
  HasGoodBill bills m = (hb : HiddenBill F) × (lookup (client m) bills ≡ some hb) × Good m hb

  -- What the loop adds to the bills that it began with.
  pub record Added (ms : List M) (before after : Dict (HiddenBill F)) : Type 0 where
    pub good : All (HasGoodBill after) ms
    pub others : (c : ClientId) → lookup c (entries ms) ≡ none → lookup c after ≡ lookup c before

  pub add_bills-Added :
      (ms : List M) (before : Dict (HiddenBill F)) (store : F.KeyStore)
      → IsDict (entries ms)
      → All Computes ms
      → (after : Dict (HiddenBill F)) × (store' : F.KeyStore) × (add_bills scd cyc
            (entries ms)
            before
            store
          ≡ (ok after, store'))
        × Added ms before after
  unfolding add_bills
  add_bills-Added [] before store d h =
      (before, store, refl, record { good = tt; others = λ c e. refl })
  add_bills-Added (m ∷ ms) before store d h =
      let (hb, store₁, e₁, good) = h.0 store in
      let (after, store₂, e₂, added) =
        add_bills-Added ms (insert (client m) hb before) store₁ d.1 h.1 in
      (
        after,
        store₂,
        rw e₁ e₂,
        record {
          good = (
            (hb, added.others (client m) d.0 ∙ lookup-insert_self (client m) hb before, good),
            added.good,
          );
          others = λ c e.
              let (missing, same) = lookup-past c (client m) (datum m) hb before (entries ms) e in
              added.others c missing ∙ same;
        },
      )

  -- The bills of the loop alone are for exactly those with data.
  pub contains-Added :
      (ms : List M) (bills : Dict (HiddenBill F)) (c : ClientId)
      → Added ms [] bills
      → contains c bills ≡ contains c (entries ms)
  contains-Added ms bills c added = elim (Option-cases (lookup c (entries ms))) [
    | inl e ↦ rw (e, added.others c e, contains)
    | inr (d, e) ↦
        let (hb, there) = billed ms added.good d e in
        rw (lookup-contains c bills hb there, lookup-contains c (entries ms) d e)
  ]
    where
      billed :
          (rest : List M)
          → All (HasGoodBill bills) rest
          → (d : HiddenData F) → lookup c (entries rest) ≡ some d
          → (hb : HiddenBill F) × (lookup c bills ≡ some hb)
      billed [] good d e = absurd (ground arith)
      billed (m ∷ rest) good d e = elim (Bool-cases (c == client m)) [
        | inl same ↦
            (good.0.0, ap (λ (k : ℕ). lookup k bills) (eq_of_test c (client m) same) ∙ good.0.1)
        | inr other ↦ billed rest good.1 d (rw other at e)
      ]

pub outcome_cases {ℓ κ} :
    {A : Type ℓ} {S : Type κ} (r : Result A × S)
    → ((a : A) × (s : S) × (r ≡ (ok a, s))) ⊎ ((x : Exc) × (s : S) × (r ≡ (err x, s)))
outcome_cases (ok a, s) = inl (a, s, refl)
outcome_cases (err x, s) = inr (x, s, refl)

ok-injective : {A : Type 0} {a b : A} → ok a ≡ ok b → a ≡ b
ok-injective h = cc

-- Whatever the computations return, if the loop ends without an error then there is a bill for exactly
-- those with data and those with a bill before.
pub add_bills-contains :
    {N : Type 0} ⦃n : Number N⦄ {F : Fhe N} (scd : SharedCycleData N) (cyc : CycleContext N)
    (d : Dict (HiddenData F)) (before after : Dict (HiddenBill F)) (store : F.KeyStore)
    (k : ClientId)
    → (add_bills scd cyc d before store).0 ≡ ok after
    → contains k after ≡ (contains k d || contains k before)
unfolding add_bills
add_bills-contains scd cyc [] before after store k e =
    ap (λ (d : Dict _). contains k d) (sym (ok-injective e))
add_bills-contains scd cyc ((c, datum) ∷ d) before after store k e =
    elim (outcome_cases (compute_hidden_bill datum scd cyc store)) [
      | inr (x, store', eq) ↦ let raised : err x ≡ ok after = rw eq at e in absurd (ground arith)
      | inl (hb, store', eq) ↦
          let rest =
            add_bills-contains scd cyc d (insert c hb before) after store' k (rw eq at e) in
          ground (arith, lookup-insert k c hb before, rest)
    ]
