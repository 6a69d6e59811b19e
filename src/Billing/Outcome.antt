-- ===== src/Billing/Outcome.antt =====
-- How `SharedBilling.compute_bills` ends: with bills, or with an exception and what raised it.
use private_billings.Prelude.{
  ◌≡◌, refl, ap, ◌∙◌, ◌⊎◌, inl, inr, true, false, List, [], ◌∷◌, some, arith,
}
use private_billings.Python.Raises.{Exc, Result, ok, err, value_error, result_cases}
use private_billings.Python.Action.{Action, lift, ◌>>=◌, ◌>>◌}
use private_billings.Python.Dict.{Dict, lookup, contains}
use private_billings.Number.{Number}
use private_billings.Cycle.{CycleId, ClientId, CycleContext, SharedCycleData, check_shared}
use private_billings.Hiding.Openfhe.{Fhe}
use private_billings.HiddenBill.{HiddenBill}
use private_billings.HiddenData.{HiddenData, unmask_data}
use private_billings.HiddenData.Compute.{compute_hidden_bill}
use private_billings.Billing.Loop.{add_bills-contains, outcome_cases}
use private_billings.Billing.Ready.{compute_bills_cases, compute_bills-clients}
use private_billings.Billing.{
  SharedBilling, has_client, data_of_cycle, is_ready, included_data, add_bills, compute_bills,
}

-- Where an exception comes from in two steps that do not change the state and a third.
steps_cases :
    {S B Keys : Type 0} (u : Result S) (check : S → Result (Unit {0})) (k : S → Action Keys B)
    (store : Keys)
    → ((x : Exc) × (((lift u >>= λ s. lift (check s) >> k s) store).0 ≡ err x) × (u ≡ err x))
      ⊎ ((s : S) × (u ≡ ok s)
          × (((x : Exc) × (((lift u >>= λ s. lift (check s) >> k s) store).0 ≡ err x)
                × (check s ≡ err x))
              ⊎ (((lift u >>= λ s. lift (check s) >> k s) store).0 ≡ (k s store).0)))
steps_cases (err x) check k store = inl (x, refl, refl)
steps_cases (ok s) check k store = inr (
  s,
  refl,
  elim (result_cases (check s)) [
    | inr (x, raised) ↦ inl (x, rw raised, raised)
    | inl (done, fine) ↦ inr (rw fine)
  ],
)

module _ {N : Type 0} ⦃n : Number N⦄ {F : Fhe N} (scd : SharedCycleData N)
    (cyc : CycleContext N) where
  -- The computation of a bill raises for one of the data, with some keys loaded.
  abbrev pub SomeRaises : Exc → Dict (HiddenData F) → Type 0
  SomeRaises x [] = ⊥
  SomeRaises x ((c, datum) ∷ d) =
      ((store : F.KeyStore) × ((compute_hidden_bill datum scd cyc store).0 ≡ err x))
      ⊎ SomeRaises x d

  add_bills-SomeRaises :
      (x : Exc) (d : Dict (HiddenData F)) (bills : Dict (HiddenBill F)) (store : F.KeyStore)
      → (add_bills scd cyc d bills store).0 ≡ err x
      → SomeRaises x d
  unfolding add_bills
  add_bills-SomeRaises x [] bills store e = absurd (ground (arith, e))
  add_bills-SomeRaises x ((c, datum) ∷ d) bills store e =
      elim (outcome_cases (compute_hidden_bill datum scd cyc store)) [
        | inr (y, store', eq) ↦
            let same : err y ≡ err x = rw eq at e in
            inl (
              store,
              ap (λ (r : Result (HiddenBill F) × F.KeyStore). r.0) eq
                  ∙ ap
                      (λ (r : Result (Dict (HiddenBill F))). elim r [
                        | err z ↦ err z
                        | ok a ↦ err y
                      ])
                      same,
            )
        | inl (hb, store', eq) ↦ inr (add_bills-SomeRaises x d _ store' (rw eq at e))
      ]

module _ {N : Type 0} ⦃n : Number N⦄ {F : Fhe N} (cid : CycleId) (b : SharedBilling F) where
  -- What `compute_bills` raises for a cycle that is ready comes from the arithmetic on what is recorded,
  -- never from something that is missing.
  pub record IsRaised (cyc : CycleContext N) (included : List (HiddenData F)) (x : Exc)
      : Type 0 where
    pub source :
        (unmask_data included ≡ err x)
        ⊎ ((scd : SharedCycleData N) × (unmask_data included ≡ ok scd)
            × ((check_shared scd cyc ≡ err x) ⊎ SomeRaises scd cyc x (data_of_cycle cid b)))

  -- For a cycle that is not ready `compute_bills` raises the value error and loads no key. For one that is
  -- ready there are two cases. Either it returns bills, for exactly those who have data in the cycle, so for
  -- every client; or all that it looks up is there, the context of the cycle and the data of each client, and
  -- what it raises was raised by unmasking the data of the clients, by the check of the totals against the
  -- context, or by the computation of a bill for one of the data of the cycle.
  pub compute_bills_outcome :
      (store : F.KeyStore)
      → ((is_ready cid b ≡ false) × (compute_bills b cid store ≡ (err value_error, store)))
        ⊎ ((is_ready cid b ≡ true)
            × (((bills : Dict (HiddenBill F)) × ((compute_bills b cid store).0 ≡ ok bills)
                  × ((c : ClientId) → contains c bills ≡ contains c (data_of_cycle cid b))
                  × ((c : ClientId) → has_client c b.clients ≡ true → contains c bills ≡ true))
                ⊎ ((cyc : CycleContext N) × (included : List (HiddenData F)) × (x : Exc) × (lookup
                        cid b.cycle_contexts
                      ≡ some cyc)
                    × (included_data (data_of_cycle cid b) b.clients ≡ ok included)
                    × ((compute_bills b cid store).0 ≡ err x)
                    × IsRaised cyc included x)))
  compute_bills_outcome store = elim (compute_bills_cases cid b store) [
    | inl waits ↦ inl waits
    | inr (ready, cyc, included, context_there, fetched, len, run) ↦
        let d = data_of_cycle cid b in
        let result = ap (λ (r : Result (Dict (HiddenBill F)) × F.KeyStore). r.0) run in
        elim (steps_cases (unmask_data included) (λ scd. check_shared scd cyc)
          (λ scd. add_bills scd cyc d []) store) [
            | inl (x, raised, masked) ↦ inr (
              ready,
              inr (
                cyc,
                included,
                x,
                context_there,
                fetched,
                result ∙ raised,
                record { source = inl masked },
              ),
            )
            | inr (scd, totals, inl (x, raised, failed)) ↦ inr (
              ready,
              inr (
                cyc,
                included,
                x,
                context_there,
                fetched,
                result ∙ raised,
                record { source = inr (scd, totals, inl failed) },
              ),
            )
            | inr (scd, totals, inr loops) ↦
                elim (result_cases ((add_bills scd cyc d [] store).0)) [
                  | inr (x, raised) ↦ inr (
                    ready,
                    inr (
                      cyc,
                      included,
                      x,
                      context_there,
                      fetched,
                      result ∙ loops ∙ raised,
                      record {
                        source =
                            inr
                              (scd, totals, inr (add_bills-SomeRaises scd cyc x d [] store raised));
                      },
                    ),
                  )
                  | inl (bills, done) ↦ inr (
                    ready,
                    inl (
                      bills,
                      result ∙ loops ∙ done,
                      λ c. ground (arith, add_bills-contains scd cyc d [] bills store c done),
                      λ c. compute_bills-clients cid b store bills c (result ∙ loops ∙ done),
                    ),
                  )
                ]
          ]
  ]
