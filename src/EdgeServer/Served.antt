-- ===== src/EdgeServer/Served.antt =====
-- Which core servers an edge server sends a bill.
use private_billings.Prelude.{
  ℕ, ◌≡◌, refl, sym, ap, ◌∙◌, true, false, ◌⊎◌, inl, inr, List, [], ◌∷◌, ◌++◌, none, some, Option,
  Bool-cases, if◌then◌else◌, All,
}
use mathlib.Core.List.{append-nil, append_assoc}
use private_billings.Python.Raises.{
  result_cases, Exc, Result, ok, err, or_raise, traverse, key_error, ◌>>=◌,
}
use private_billings.Python.Dict.{Dict, lookup, contains, values, AllEntries, contains-lookup}
use private_billings.Number.{Number}
use private_billings.Cycle.{CycleId, ClientId}
use private_billings.Hiding.Openfhe.{Fhe}
use private_billings.HiddenBill.{HiddenBill}
use private_billings.Billing.{has_client, is_ready, compute_bills}
use private_billings.Billing.Ready.{compute_bills-clients}
use private_billings.Network.{
  Address, UserType, edge, core, NodeInfo, is_core, node_id, filter_cores, network_cores,
}
use private_billings.EdgeServer.{
  EdgeServer, Outgoing, hidden_bill_message, send_hidden_bills, try_run_billing,
}

module _ (sha256 : List ℕ → ℕ) (clients : List ClientId) where
  -- A core server has an id, and with it is a client of the billing.
  abbrev pub ServedAs : Option UserType → NodeInfo → Type 0
  ServedAs none m = Unit
  ServedAs (some edge) m = Unit
  ServedAs (some core) m =
      (id : ClientId) × (node_id sha256 m ≡ ok id) × (has_client id clients ≡ true)

  abbrev pub IsClientNode : NodeInfo → Type 0
  IsClientNode m = (id : ClientId) × (node_id sha256 m ≡ ok id) × (has_client id clients ≡ true)

  with_core :
      (r : Option UserType) (m : NodeInfo) (ms : List NodeInfo)
      → ServedAs r m
      → All IsClientNode ms
      → All IsClientNode (if is_core r then m ∷ ms else ms)
  with_core none m ms s h = h
  with_core (some edge) m ms s h = h
  with_core (some core) m ms s h = (s, h)

  pub served_cores :
      (members : Dict NodeInfo)
      → AllEntries (λ a m. ServedAs m.role m) members
      → All IsClientNode (filter_cores (values members))
  served_cores [] h = tt
  served_cores ((a, m) ∷ members) h =
      with_core m.role m (filter_cores (values members)) h.0 (served_cores members h.1)

module _ {N : Type 0} {F : Fhe N} where
  -- Each of some bills, addressed to its node.
  abbrev pub letters : List NodeInfo → List (HiddenBill F) → List (Address × Outgoing F)
  letters [] hbs = []
  letters (m ∷ ms) [] = []
  letters (m ∷ ms) (hb ∷ hbs) = (m.address, hidden_bill_message hb) ∷ letters ms hbs

module _ {N : Type 0} {F : Fhe N} (sha256 : List ℕ → ℕ) where
  -- Every core server that is a member is a client of the billing.
  abbrev pub IsServed : EdgeServer F → Type 0
  IsServed e =
      AllEntries (λ a m. ServedAs sha256 e.shared_biller.clients m.role m) e.network_members

  -- `bills[member.id]`
  abbrev pub bill_for : Dict (HiddenBill F) → NodeInfo → Result (HiddenBill F)
  bill_for bills m = node_id sha256 m >>= λ id. or_raise (lookup id bills) key_error

  send_each :
      (bills : Dict (HiddenBill F)) (clients : List ClientId)
      → ((c : ClientId) → has_client c clients ≡ true → contains c bills ≡ true)
      → (members : List NodeInfo) (sent : List (Address × Outgoing F))
      → All (IsClientNode sha256 clients) members
      → (hbs : List (HiddenBill F)) × (traverse (bill_for bills) members ≡ ok hbs)
        × (send_hidden_bills sha256 bills members sent ≡ (ok tt, sent ++ letters members hbs))
  unfolding send_hidden_bills
  send_each bills clients billed [] sent h =
      ([], refl, ap (λ (l : List (Address × Outgoing F)). (ok tt, l)) (sym (append-nil sent)))
  send_each bills clients billed (m ∷ ms) sent h =
      let (id, known, client) = h.0 in
      let (hb, there) = contains-lookup id bills (billed id client) in
      let (hbs, fetched, run) =
        send_each bills clients billed ms (sent ++ (m.address, hidden_bill_message hb) ∷ []) h.1 in
      (
        hb ∷ hbs,
        rw (known, there, fetched),
        rw (known, there)
            (run ∙ ap (λ (l : List (Address × Outgoing F)). (ok tt, l)) (append_assoc sent _ _)),
      )

module _ {N : Type 0} ⦃n : Number N⦄ {F : Fhe N} (sha256 : List ℕ → ℕ) where
  -- On a server all of whose core servers are clients, an attempt to bill a cycle sends nothing, if the
  -- cycle is not ready or `compute_bills` raises, or sends each core server that is a member the bill for
  -- its id, and nothing else; an error never leaves some of them without their bill.
  pub try_run_billing_cases :
      (e : EdgeServer F) (cid : CycleId)
      → IsServed sha256 e
      → (((try_run_billing sha256 cid e).sent ≡ e.sent)
          × ((is_ready cid e.shared_biller ≡ false)
              ⊎ ((x : Exc) × ((compute_bills e.shared_biller cid e.loaded_keys).0 ≡ err x))))
        ⊎ ((is_ready cid e.shared_biller ≡ true)
            × (bills : Dict (HiddenBill F)) × (hbs : List (HiddenBill F)) × ((compute_bills
                  e.shared_biller cid e.loaded_keys).0
                ≡ ok bills)
            × (traverse (bill_for sha256 bills) (network_cores e.network_members) ≡ ok hbs)
            × ((try_run_billing sha256 cid e).sent
                ≡ e.sent ++ letters (network_cores e.network_members) hbs))
  unfolding try_run_billing network_cores
  try_run_billing_cases e cid served = elim (Bool-cases (is_ready cid e.shared_biller)) [
    | inr waits ↦ inl (rw waits, inl waits)
    | inl ready ↦ elim (result_cases ((compute_bills e.shared_biller cid e.loaded_keys).0)) [
      | inr (x, raised) ↦ inl (rw (ready, raised), inr (x, raised))
      | inl (bills, computed) ↦
          let (hbs, fetched, run) =
            send_each sha256 bills e.shared_biller.clients
              (λ c client.
                compute_bills-clients cid e.shared_biller e.loaded_keys bills c computed client)
              (network_cores e.network_members) e.sent
              (served_cores sha256 e.shared_biller.clients e.network_members served) in
          inr (
            ready,
            bills,
            hbs,
            computed,
            fetched,
            rw (ready, computed)
                (ap (λ (r : Result (Unit {0}) × List (Address × Outgoing F)). r.1) run),
          )
    ]
  ]
