-- ===== src/Billing/Records.antt =====
-- What `record_data` and `record_contexts` leave in the component, and its well-formedness.
use private_billings.Prelude.{
  ◌≡◌, refl, some, List, [], ◌∷◌, arith, ◌==◌, ◌&&◌, if◌then◌else◌, Option-cases, Bool-cases, inl,
  inr,
}
use private_billings.Python.Dict.{
  Dict, lookup, insert, set_default, get_or, lookup-insert, lookup-set_default, set_default-IsDict,
  insert-AllEntries, lookup-AllEntries, AllEntries, insert-IsDict, IsDict,
}
use private_billings.Cycle.{CycleId, ClientId, CycleContext}
use private_billings.Hiding.Openfhe.{Fhe}
use private_billings.HiddenData.{HiddenData}
use private_billings.Billing.{
  SharedBilling, data_of_cycle, record_data, record_contexts, has_client, include_client,
  exclude_clients,
}
use private_billings.Billing.Clients.{
  IsClientSet, include_client-IsClientSet, exclude_clients-IsClientSet,
}

module _ {N : Type 0} {F : Fhe N} (cid : CycleId) (c : ClientId) (datum : HiddenData F)
    (b : SharedBilling F) where
  -- After `record_data` the data of a client in a cycle is the new data if it is of that client and
  -- that cycle, and else what it was.
  pub lookup-record_data : lookup c (data_of_cycle cid (record_data datum b)) ≡ (
      if cid == datum.cycle_id && c == datum.client
      then some datum
      else lookup c (data_of_cycle cid b))
  unfolding record_data data_of_cycle
  lookup-record_data =
      let key = datum.cycle_id in
      let cycles = set_default key [] b.client_data in
      ground (
        arith,
        lookup-insert cid key (insert datum.client datum (get_or key [] cycles)) cycles,
        lookup-set_default cid key [] b.client_data,
        lookup-set_default key key [] b.client_data,
        lookup-insert c datum.client datum (get_or key [] cycles),
      )

-- Every datum stands under its own cycle and its own client, every context under its own cycle, and no
-- cycle, client of a cycle, or included client stands twice.
pub record IsValid {N : Type 0} {F : Fhe N} (b : SharedBilling F) : Type 0 where
  pub cycles : IsDict b.client_data
  pub filed :
      AllEntries
        (λ cid (d : Dict (HiddenData F)).
          IsDict d × AllEntries (λ c datum. (datum.client ≡ c) × (datum.cycle_id ≡ cid)) d)
        b.client_data
  pub contexts : IsDict b.cycle_contexts
  pub contexts_filed : AllEntries (λ cid cyc. cyc.cycle_id ≡ cid) b.cycle_contexts
  pub clients : IsClientSet b.clients

-- A call of one of the methods that change the component.
pub data Call {N : Type 0} (F : Fhe N) : Type 0 where
  data_recorded : HiddenData F → Call F
  context_recorded : CycleContext N → Call F
  client_included client_excluded : ClientId → Call F

module _ {N : Type 0} {F : Fhe N} where
  abbrev pub call : Call F → SharedBilling F → SharedBilling F
  call (data_recorded datum) b = record_data datum b
  call (context_recorded cyc) b = record_contexts cyc b
  call (client_included c) b = include_client c b
  call (client_excluded c) b = exclude_clients c b

  abbrev pub calls : List (Call F) → SharedBilling F → SharedBilling F
  calls [] b = b
  calls (m ∷ ms) b = calls ms (call m b)

  -- What holds of the data of one cycle.
  abbrev IsFiled : CycleId → Dict (HiddenData F) → Type 0
  IsFiled cid d = IsDict d × AllEntries (λ c datum. (datum.client ≡ c) × (datum.cycle_id ≡ cid)) d

  set_default-IsFiled :
      (k : CycleId) (d : Dict (Dict (HiddenData F)))
      → AllEntries IsFiled d
      → AllEntries IsFiled (set_default k [] d)
  set_default-IsFiled k d h = ground (arith, insert-AllEntries IsFiled k [] d (tt, tt) h)

  get_or-IsFiled :
      (k : CycleId) (d : Dict (Dict (HiddenData F)))
      → AllEntries IsFiled d
      → IsFiled k (get_or k [] d)
  get_or-IsFiled k d h = elim (Option-cases (lookup k d)) [
    | inl e ↦ rw (e, get_or) (tt, tt)
    | inr (v, e) ↦ rw (e, get_or) (lookup-AllEntries IsFiled k v d h e)
  ]

  record_data-IsValid :
      (datum : HiddenData F) (b : SharedBilling F) → IsValid b → IsValid (record_data datum b)
  unfolding record_data
  record_data-IsValid datum b v =
      let key = datum.cycle_id in
      let cycles = set_default key [] b.client_data in
      let filed = set_default-IsFiled key b.client_data v.filed in
      let cycle_data = get_or key [] cycles in
      let old = get_or-IsFiled key cycles filed in
      record {
        cycles = insert-IsDict key _ cycles (set_default-IsDict key [] b.client_data v.cycles);
        filed =
            insert-AllEntries IsFiled key _ cycles
              (
                insert-IsDict datum.client datum cycle_data old.0,
                insert-AllEntries (λ c d. (d.client ≡ c) × (d.cycle_id ≡ key)) datum.client datum
                    cycle_data (refl, refl) old.1,
              )
              filed;
        contexts = v.contexts;
        contexts_filed = v.contexts_filed;
        clients = v.clients;
      }

  record_contexts-IsValid :
      (cyc : CycleContext N) (b : SharedBilling F) → IsValid b → IsValid (record_contexts cyc b)
  unfolding record_contexts
  record_contexts-IsValid cyc b v = record {
    cycles = v.cycles;
    filed = v.filed;
    contexts = insert-IsDict cyc.cycle_id cyc b.cycle_contexts v.contexts;
    contexts_filed =
        insert-AllEntries (λ cid c. c.cycle_id ≡ cid) cyc.cycle_id cyc b.cycle_contexts refl
          v.contexts_filed;
    clients = v.clients;
  }

  include_client-IsValid :
      (c : ClientId) (b : SharedBilling F) → IsValid b → IsValid (include_client c b)
  unfolding include_client
  include_client-IsValid c b v = elim (Bool-cases (has_client c b.clients)) [
    | inl old ↦ rw old v
    | inr new ↦ rw new (record {
      cycles = v.cycles;
      filed = v.filed;
      contexts = v.contexts;
      contexts_filed = v.contexts_filed;
      clients = rw new at (include_client-IsClientSet c b v.clients);
    })
  ]

  exclude_clients-IsValid :
      (c : ClientId) (b : SharedBilling F) → IsValid b → IsValid (exclude_clients c b)
  unfolding exclude_clients
  exclude_clients-IsValid c b v = elim (Bool-cases (has_client c b.clients)) [
    | inl old ↦ rw old (record {
      cycles = v.cycles;
      filed = v.filed;
      contexts = v.contexts;
      contexts_filed = v.contexts_filed;
      clients = rw old at (exclude_clients-IsClientSet c b v.clients);
    })
    | inr new ↦ rw new v
  ]

  -- Whatever calls are made in whatever order from a component in a valid state, the state after them is
  -- valid.
  pub calls-IsValid : (ms : List (Call F)) (b : SharedBilling F) → IsValid b → IsValid (calls ms b)
  calls-IsValid [] b v = v
  calls-IsValid (data_recorded datum ∷ ms) b v = calls-IsValid ms _ (record_data-IsValid datum b v)
  calls-IsValid (context_recorded cyc ∷ ms) b v =
      calls-IsValid ms _ (record_contexts-IsValid cyc b v)
  calls-IsValid (client_included c ∷ ms) b v = calls-IsValid ms _ (include_client-IsValid c b v)
  calls-IsValid (client_excluded c ∷ ms) b v = calls-IsValid ms _ (exclude_clients-IsValid c b v)
