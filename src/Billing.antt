-- ===== src/Billing.antt =====
-- src/private_billing/core/billing.py: the component of the edge that records data and contexts, and
-- computes the bills of a cycle.
pub mod Clients
pub mod Records
pub mod Ready
pub mod Outcome
pub mod Loop
use private_billings.Prelude.{
  ℕ, Bool, true, false, not, ◌&&◌, List, [], ◌∷◌, ◌++◌, length, ltb, ◌==◌, if◌then◌else◌,
}
use private_billings.Python.Raises
use private_billings.Python.Raises.{Result, ok, err, or_raise, traverse, value_error, key_error}
use private_billings.Python.Action.{Action, lift, pure, ◌>>=◌, ◌>>◌}
use private_billings.Python.Dict.{Dict, lookup, contains, insert, set_default, get_or}
use private_billings.Number.{Number}
use private_billings.Cycle.{CycleId, ClientId, CycleContext, SharedCycleData, check_shared}
use private_billings.Hiding.Openfhe.{Fhe}
use private_billings.HiddenBill.{HiddenBill}
use private_billings.HiddenData.{HiddenData, unmask_data}
use private_billings.HiddenData.Compute.{compute_hidden_bill}

-- The set of clients is the list of its items, in the order in which Python goes through them.
pub record SharedBilling {N : Type 0} (F : Fhe N) : Type 0 where
  pub client_data : Dict (Dict (HiddenData F))
  pub cycle_contexts : Dict (CycleContext N)
  pub clients : List ClientId

-- `c in clients`
abbrev pub has_client : ClientId → List ClientId → Bool
has_client c [] = false
has_client c (d ∷ ds) = if c == d then true else has_client c ds

abbrev pub remove_client : ClientId → List ClientId → List ClientId
remove_client c [] = []
remove_client c (d ∷ ds) = if c == d then ds else d ∷ remove_client c ds

-- `all(map(lambda c: c in cycle_data, clients))`
abbrev pub all_present {ℓ} : {V : Type ℓ} → Dict V → List ClientId → Bool
all_present cycle_data [] = true
all_present cycle_data (c ∷ cs) = contains c cycle_data && all_present cycle_data cs

module _ {N : Type 0} {F : Fhe N} where
  unfoldable pub new_billing : SharedBilling F
  new_billing = record { client_data = []; cycle_contexts = []; clients = [] }

  -- The data of one cycle, empty if there is none.
  unfoldable pub data_of_cycle : CycleId → SharedBilling F → Dict (HiddenData F)
  data_of_cycle cid b = get_or cid [] b.client_data

  unfoldable pub record_data : HiddenData F → SharedBilling F → SharedBilling F
  record_data datum b =
      let client_data = set_default datum.cycle_id [] b.client_data in
      let cycle_data = get_or datum.cycle_id [] client_data in
      record b {
        client_data = insert datum.cycle_id (insert datum.client datum cycle_data) client_data;
      }

  unfoldable pub record_contexts : CycleContext N → SharedBilling F → SharedBilling F
  record_contexts cyc b = record b { cycle_contexts = insert cyc.cycle_id cyc b.cycle_contexts }

  unfoldable pub include_client : ClientId → SharedBilling F → SharedBilling F
  include_client c b =
      if has_client c b.clients then b else record b { clients = b.clients ++ c ∷ [] }

  unfoldable pub exclude_clients : ClientId → SharedBilling F → SharedBilling F
  exclude_clients c b =
      if has_client c b.clients then record b { clients = remove_client c b.clients } else b

  unfoldable pub is_ready : CycleId → SharedBilling F → Bool
  unfolding data_of_cycle
  is_ready cid b =
      let cycle_data = data_of_cycle cid b in
      let at_least_one = ltb 0 (length b.clients) in
      let all_data_present = all_present cycle_data b.clients in
      let context_present = contains cid b.cycle_contexts in
      at_least_one && all_data_present && context_present

  -- `[cycle_data[c] for c in self.clients]`
  unfoldable pub included_data : Dict (HiddenData F) → List ClientId → Result (List (HiddenData F))
  included_data cycle_data clients =
      traverse (λ c. or_raise (lookup c cycle_data) key_error) clients

module _ {N : Type 0} ⦃n : Number N⦄ {F : Fhe N} where
  -- The loop over `cycle_data.items()`.
  unfoldable pub add_bills :
      SharedCycleData N
      → CycleContext N
      → Dict (HiddenData F)
      → Dict (HiddenBill F)
      → Action F.KeyStore (Dict (HiddenBill F))
  add_bills scd cyc [] bills = pure bills
  add_bills scd cyc ((c, datum) ∷ rest) bills = do
    bill ← compute_hidden_bill datum scd cyc
    add_bills scd cyc rest (insert c bill bills)

  -- What follows the test of readiness.
  unfoldable pub bills_of_cycle :
      SharedBilling F → CycleId → Action F.KeyStore (Dict (HiddenBill F))
  bills_of_cycle b cid = do
    cycle_data ← lift (or_raise (lookup cid b.client_data) key_error)
    cyc ← lift (or_raise (lookup cid b.cycle_contexts) key_error)
    included_cycle_data ← lift (included_data cycle_data b.clients)
    scd ← lift (unmask_data included_cycle_data)
    lift (check_shared scd cyc)
    add_bills scd cyc cycle_data []

  unfoldable pub compute_bills : SharedBilling F → CycleId → Action F.KeyStore (Dict (HiddenBill F))
  compute_bills b cid =
      if not (is_ready cid b) then lift (err value_error) else bills_of_cycle b cid
