-- ===== src/Community/Bills.antt =====
-- The whole of a billing cycle: from the data of the members to the bills that they reveal.
use private_billings.Prelude.{ℕ, ◌≡◌, ◌≢◌, List, [], map, All, some}
use private_billings.Python.Dict.{Dict, lookup}
use private_billings.Number.{Number}
use private_billings.Number.Laws.{IsFinite, IsExact}
use private_billings.Cycle.{CycleId, CycleContext}
use private_billings.Masking.{Pcg64}
use private_billings.Masking.Cancel.{IsAgreed}
use private_billings.Hiding.Openfhe.{Fhe}
use private_billings.Hiding.Laws.{IsHomomorphic}
use private_billings.Hiding.{Hashing}
use private_billings.HiddenBill.{HiddenBill}
use private_billings.HiddenData.{HiddenData}
use private_billings.Billing.{SharedBilling}
use private_billings.Community.{Member, generators}
use private_billings.Community.Totals.{hidden_with}
use private_billings.Community.Side.{Prices, HasPrices, received_context}

module _ {N : Type 0} ⦃n : Number N⦄ (pcg64 : Pcg64) (conv : ℕ → N) (hashing : Hashing) {F : Fhe N}
    (id : CycleId) (size : ℕ) (bytes : Member F → List ℕ) where
  abbrev pub received_data : Member F → HiddenData F
  received_data = hidden_with pcg64 conv hashing id size (received_context bytes)

  -- The edge has the context of the cycle, the hidden data of `senders`, and the members for clients.
  pub record IsRecorded (ms senders : List (Member F)) (cyc : CycleContext N) (b : SharedBilling F)
      : Type 0 where
    pub clients : b.clients ≡ map (λ m. m.client) ms
    pub context : lookup id b.cycle_contexts ≡ some cyc
    pub cycle_data : lookup id b.client_data ≡ some (map (λ m. (m.client, received_data m)) senders)
    pub from_members :
        All
          (λ m.
            lookup m.client (map (λ s. (s.client, received_data s)) senders)
            ≡ some (received_data m))
          ms

module _ {N : Type 0} ⦃n : Number N⦄ (finite : IsFinite N) (exact : IsExact N) (pcg64 : Pcg64)
    (conv : ℕ → N) (hashing : Hashing) {F : Fhe N} (laws : IsHomomorphic F) (id : CycleId)
    (size : ℕ) (bytes : Member F → List ℕ) (prices : Prices N) where
  abbrev received : Member F → HiddenData F
  received = received_data pcg64 conv hashing id size bytes

  module _ (ms senders : List (Member F)) (cyc : CycleContext N) (b : SharedBilling F)
      (agreed : IsAgreed (generators ms)) (some_member : ms ≢ [])
      (recorded : IsRecorded pcg64 conv hashing id size bytes ms senders cyc b)
      (priced : HasPrices size prices cyc) where
    abbrev sent : Dict (HiddenData F)
    sent = map (λ m. (m.client, received m)) senders
