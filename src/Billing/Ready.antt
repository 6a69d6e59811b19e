-- ===== src/Billing/Ready.antt =====
-- When a cycle is ready for billing, and what `compute_bills` does then and otherwise.
use private_billings.Prelude.{
  ℕ, ◌==◌, sym, ap, ◌∙◌, ==_iff, ◌⊎◌, ◌≡◌, ◌≢◌, ◌↔◌, refl, Bool, true, false, ◌&&◌, List, [], ◌∷◌,
  length, ltb, arith, All, some, none, Bool-cases, Option-cases, inl, inr,
}
use private_billings.Python.Raises.{Result, ok, err, or_raise, traverse, value_error, key_error}
use private_billings.Python.Action.{Action, lift, ◌>>=◌, ◌>>◌}
use private_billings.Python.Dict.{Dict, lookup, contains, get_or, contains-lookup, lookup-contains}
use private_billings.Number.{Number}
use private_billings.Cycle.{CycleId, ClientId, CycleContext, SharedCycleData, check_shared}
use private_billings.Hiding.Openfhe.{Fhe}
use private_billings.HiddenData.{HiddenData, unmask_data}
use private_billings.Billing.Loop.{add_bills-contains}
use private_billings.HiddenBill.{HiddenBill}
use private_billings.Billing.{
  has_client, SharedBilling, all_present, data_of_cycle, is_ready, included_data, add_bills,
  bills_of_cycle, compute_bills,
}

-- Each of some clients has an entry.
abbrev pub HaveData {ℓ} : {V : Type ℓ} → Dict V → List ClientId → Type ℓ
HaveData {V = V} d cs = All (λ c. (v : V) × (lookup c d ≡ some v)) cs

module _ {ℓ} {V : Type ℓ} (d : Dict V) where
  all_present-HaveData : (cs : List ClientId) → all_present d cs ≡ true → HaveData d cs
  all_present-HaveData [] h = tt
  all_present-HaveData (c ∷ cs) h = elim (Bool-cases (contains c d)) [
    | inl here ↦ (contains-lookup c d here, all_present-HaveData cs (rw here at h))
    | inr missing ↦ absurd (ground arith)
  ]

  HaveData-all_present : (cs : List ClientId) → HaveData d cs → all_present d cs ≡ true
  HaveData-all_present [] h = refl
  HaveData-all_present (c ∷ cs) h =
      rw (lookup-contains c d h.0.0 h.0.1) (HaveData-all_present cs h.1)

  fetch_all :
      (cs : List ClientId) (h : HaveData d cs)
      → (found : List V) × (traverse (λ c. or_raise (lookup c d) key_error) cs ≡ ok found)
        × (length found ≡ length cs)
  fetch_all [] h = ([], refl, refl)
  fetch_all (c ∷ cs) h =
      let (found, e, len) = fetch_all cs h.1 in (h.0.0 ∷ found, rw (h.0.1, e), omega arith)

three_tests : (x y z : Bool) → (x && y && z) ≡ true → (x ≡ true) × (y ≡ true) × (z ≡ true)
three_tests x y z h = ground arith

some_client : (cs : List ClientId) → cs ≢ [] → ltb 0 (length cs) ≡ true
some_client [] h = absurd (h refl)
some_client (c ∷ cs) h = ground arith

-- A cycle in which some client has data is recorded.
recorded_cycle {ℓ} :
    {V : Type ℓ} (cid : CycleId) (d : Dict (Dict V)) (cs : List ClientId)
    → cs ≢ []
    → HaveData (get_or cid [] d) cs
    → lookup cid d ≡ some (get_or cid [] d)
recorded_cycle cid d [] h data_there = absurd (h refl)
recorded_cycle cid d (c ∷ cs) h data_there = elim (Option-cases (lookup cid d)) [
  | inl e ↦ let nothing : none ≡ some data_there.0.0 = rw (e, get_or) at data_there.0.1 in cc
  | inr (v, e) ↦ rw (e, get_or)
]

module _ {N : Type 0} {F : Fhe N} (cid : CycleId) (b : SharedBilling F) where
  -- A cycle is ready for billing exactly when there is a client, each client has data in the cycle, and
  -- the context of the cycle is there.
  pub is_ready_iff : (is_ready cid b ≡ true) ↔ (
      (b.clients ≢ [])
      × HaveData (data_of_cycle cid b) b.clients
      × ((cyc : CycleContext N) × (lookup cid b.cycle_contexts ≡ some cyc)))
  unfolding is_ready
  is_ready_iff = (
    λ h.
        let tests =
          three_tests (ltb 0 (length b.clients)) (all_present (data_of_cycle cid b) b.clients)
            (contains cid b.cycle_contexts) h in
        (
          λ e. ground arith,
          all_present-HaveData (data_of_cycle cid b) b.clients tests.1,
          contains-lookup cid b.cycle_contexts tests.2,
        ),
    λ h. rw (
      some_client b.clients h.0,
      HaveData-all_present (data_of_cycle cid b) b.clients h.1,
      lookup-contains cid b.cycle_contexts h.2.0 h.2.1,
    ),
  )

-- What comes after two steps that do not change the state, where the whole returns a value.
after_checks :
    {S B Keys : Type 0} (u : Result S) (check : S → Result (Unit {0})) (k : S → Action Keys B)
    (store : Keys) (bills : B)
    → ((lift u >>= λ s. lift (check s) >> k s) store).0 ≡ ok bills
    → (s : S) × ((k s store).0 ≡ ok bills)
after_checks (err x) check k store bills e = absurd (ground arith)
after_checks (ok s) check k store bills e = (s, checked (check s) e)
  where
    checked :
        (c : Result (Unit {0})) → ((lift c >> k s) store).0 ≡ ok bills → (k s store).0 ≡ ok bills
    checked (err x) e' = absurd (ground arith)
    checked (ok u') e' = e'

present {ℓ} :
    {V : Type ℓ} (c : ClientId) (cs : List ClientId) (d : Dict V)
    → HaveData d cs
    → has_client c cs ≡ true
    → contains c d ≡ true
present c [] d h client = absurd (ground arith)
present c (c' ∷ cs) d h client = elim (Bool-cases (c == c')) [
  | inl same ↦
      ap (λ (k : ℕ). contains k d) ((==_iff c c').0 same) ∙ lookup-contains c' d h.0.0 h.0.1
  | inr other ↦ present c cs d h.1 (rw other at client)
]

module _ {N : Type 0} ⦃n : Number N⦄ {F : Fhe N} (cid : CycleId) (b : SharedBilling F) where
  -- The two branches of `compute_bills`, with what is looked up.
  pub compute_bills_cases :
      (store : F.KeyStore)
      → ((is_ready cid b ≡ false) × (compute_bills b cid store ≡ (err value_error, store)))
        ⊎ ((is_ready cid b ≡ true)
            × (cyc : CycleContext N) × (included : List (HiddenData F)) × (lookup cid
                  b.cycle_contexts
                ≡ some cyc)
            × (included_data (data_of_cycle cid b) b.clients ≡ ok included)
            × (length included ≡ length b.clients)
            × (compute_bills b cid store
                ≡ (lift (unmask_data included) >>= λ scd.
                      lift (check_shared scd cyc) >> add_bills scd cyc (data_of_cycle cid b) [])
                    store))
  unfolding compute_bills bills_of_cycle included_data data_of_cycle
  compute_bills_cases store = elim (Bool-cases (is_ready cid b)) [
    | inr waits ↦ inl (waits, rw waits)
    | inl h ↦
        let (some_one, data_there, (cyc, context_there)) = (is_ready_iff cid b).0 h in
        let (included, fetched, len) = fetch_all (data_of_cycle cid b) b.clients data_there in
        inr (
          h,
          cyc,
          included,
          context_there,
          fetched,
          len,
          rw (
            h,
            recorded_cycle cid b.client_data b.clients some_one data_there,
            context_there,
            fetched,
          ),
        )
  ]

  -- Once the parts of the computation are known, what is left is the loop over the data of the cycle.
  pub compute_bills-run :
      (d : Dict (HiddenData F)) (cyc : CycleContext N) (included : List (HiddenData F))
      (scd : SharedCycleData N) (store : F.KeyStore)
      → is_ready cid b ≡ true
      → lookup cid b.client_data ≡ some d
      → lookup cid b.cycle_contexts ≡ some cyc
      → included_data d b.clients ≡ ok included
      → unmask_data included ≡ ok scd
      → check_shared scd cyc ≡ ok tt
      → compute_bills b cid store ≡ add_bills scd cyc d [] store
  unfolding compute_bills bills_of_cycle
  compute_bills-run d cyc included scd store ready data_there context_there fetched totals checked =
      rw (ready, data_there, context_there, fetched, totals, checked)

  -- If `compute_bills` returns bills, there is one for every client.
  pub compute_bills-clients :
      (store : F.KeyStore) (bills : Dict (HiddenBill F)) (c : ClientId)
      → (compute_bills b cid store).0 ≡ ok bills
      → has_client c b.clients ≡ true
      → contains c bills ≡ true
  compute_bills-clients store bills c e client = elim (compute_bills_cases store) [
    | inl (waits, raised) ↦
        let no_bills : err value_error ≡ ok bills =
          ap (λ (r : Result (Dict (HiddenBill F)) × F.KeyStore). r.0) (sym raised) ∙ e in
        absurd (ground arith)
    | inr (ready, cyc, included, context_there, fetched, len, run) ↦
        let (scd, looped) =
          after_checks (unmask_data included) (λ scd. check_shared scd cyc)
            (λ scd. add_bills scd cyc (data_of_cycle cid b) []) store bills
            (ap (λ (r : Result (Dict (HiddenBill F)) × F.KeyStore). r.0) (sym run) ∙ e) in
        add_bills-contains scd cyc (data_of_cycle cid b) [] bills store c looped
        ∙ rw (present c b.clients (data_of_cycle cid b) ((is_ready_iff cid b).0 ready).1 client)
  ]
