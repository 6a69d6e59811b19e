-- ===== src/Community/Totals.antt =====
-- The totals of a cycle, from the plain data of the members and from what they have hidden.
use private_billings.Prelude.{
  ℕ, ◌≤◌, ◌≡◌, ◌≢◌, refl, sym, ap, ◌∙◌, List, [], map, All, All-map, All-of,
}
use Prim.Native.String.{String}
use mathlib.Core.Path.{fun_ext}
use private_billings.Python.Raises.{ok, traverse, traverse-All}
use private_billings.Number.{Number}
use private_billings.Number.Laws.{IsFinite, IsExact}
use private_billings.Number.Sums.{sum_over, sum_over-add, sum_over-map}
use private_billings.Vector.{flag}
use private_billings.Cycle.{CycleId, SharedCycleData}
use private_billings.Masking.{Pcg64, range_from}
use private_billings.Masking.Draws.{mask_value}
use private_billings.Masking.Cancel.{IsAgreed, masks_cancel}
use private_billings.Hiding.Openfhe.{Fhe}
use private_billings.Hiding.{
  Hashing, PublicHidingContext, get_masking_iv, get_public_hiding_context,
}
use private_billings.HiddenData.{HiddenData, unmask_data}
use private_billings.HiddenData.Unmask.{totals_of, unmask_data-columns}
use private_billings.Data.{Data, hide}
use private_billings.Data.Slots.{slot_deviation, data_of}
use private_billings.Data.Hide.{hidden_of, hide-eq-hidden_of}
use private_billings.Community.{Member, generators}

-- Every member turns each draw into a number, and all in the same way.
abbrev pub Converts : {N : Type 0} {F : Fhe N} → (ℕ → N) → Member F → Type 0
Converts conv m = (v : ℕ) → m.hc.mask_generator.convertor v ≡ ok (conv v)

-- A plaintext of the member's context has room for the slots and for the cycle of the context.
abbrev pub HasRoom : {N : Type 0} {F : Fhe N} → ℕ → Member F → Type 0
HasRoom {F = F} size m = (m.hc.cycle_length ≤ F.batch_size m.hc.cc) × (size ≤ F.batch_size m.hc.cc)

module _ {N : Type 0} ⦃n : Number N⦄ {F : Fhe N} where
  abbrev pub data_of_member : CycleId → List ℕ → Member F → Data N
  data_of_member id slots m = data_of m.client id m.promise m.used slots

  -- The sums over all members of the deviations, and of the flags of the consumers and the producers.
  abbrev pub true_totals : List ℕ → List (Member F) → SharedCycleData N
  true_totals slots ms =
      totals_of slots (λ k. sum_over (λ m. slot_deviation (m.promise k) (m.used k)) ms)
        (λ k. sum_over (λ m. flag (n.lt n.nought (m.promise k))) ms)
        (λ k. sum_over (λ m. flag (n.lt (m.promise k) n.nought)) ms)

module _ {N : Type 0} ⦃n : Number N⦄ (pcg64 : Pcg64) (conv : ℕ → N) {F : Fhe N} (hashing : Hashing)
    (id : CycleId) (size : ℕ) where
  -- What a member has hidden, with the public context that goes with it.
  abbrev pub hidden_with : (Member F → PublicHidingContext F) → Member F → HiddenData F
  hidden_with phc_of m =
      record (hidden_of pcg64 hashing m.hc conv size m.client id m.promise m.used) {
        phc = phc_of m;
      }

  abbrev pub hidden_of_member : Member F → HiddenData F
  hidden_of_member = hidden_with (λ m. get_public_hiding_context m.hc)

module _ {N : Type 0} ⦃n : Number N⦄ (exact : IsExact N) (pcg64 : Pcg64) (conv : ℕ → N) {F : Fhe N}
    (ms : List (Member F)) (agreed : IsAgreed (generators ms)) where
  -- The masks of one column add nothing to the sum over the members.
  unmasked :
      (iv : ℕ) (f : Member F → ℕ → N) (k : ℕ)
      → sum_over (λ m. n.add (f m k) (mask_value pcg64 conv iv m.hc.mask_generator k)) ms
        ≡ sum_over (λ m. f m k) ms
  unmasked iv f k =
      sum_over-add exact (λ m. f m k) (λ m. mask_value pcg64 conv iv m.hc.mask_generator k) ms
      ∙ (ap (n.add (sum_over (λ m. f m k) ms)) (
            sym (
              sum_over-map (λ p. mask_value pcg64 conv iv p.1 k)
                (λ m. (m.client, m.hc.mask_generator)) ms)
            ∙ masks_cancel exact pcg64 conv iv k (generators ms) agreed)
          ∙ exact.add_nought _)

  module _ (hashing : Hashing) (id : CycleId) (size : ℕ) where
    pub unmask_data-hidden :
        (phc_of : Member F → PublicHidingContext F)
        → ms ≢ []
        → unmask_data (map (hidden_with pcg64 conv hashing id size phc_of) ms)
          ≡ ok (true_totals (range_from 0 size) ms)
    unmask_data-hidden phc_of some_member =
        let slots = range_from 0 size in
        let deviation = λ (m : Member F) (k : ℕ). slot_deviation (m.promise k) (m.used k) in
        let consumer = λ (m : Member F) (k : ℕ). flag (n.lt n.nought (m.promise k)) in
        let producer = λ (m : Member F) (k : ℕ). flag (n.lt (m.promise k) n.nought) in
        let iv = get_masking_iv hashing id in
        let masked = λ (name : String) (f : Member F → ℕ → N) (m : Member F) (k : ℕ).
          n.add (f m k) (mask_value pcg64 conv (iv name) m.hc.mask_generator k) in
        unmask_data-columns exact slots (hidden_with pcg64 conv hashing id size phc_of)
          (masked "individual_deviations" deviation) (masked "p2p_consumer_flags" consumer)
          (masked "p2p_producer_flags" producer) ms some_member
          (All-of (λ m. record { deviations = refl; consumers = refl; producers = refl }) ms)
        ∙ ap (λ (t : (ℕ → N) × (ℕ → N) × (ℕ → N)). ok (totals_of slots t.0 t.1 t.2))
            λ i. (
              fun_ext (unmasked (iv "individual_deviations") deviation) i,
              fun_ext (unmasked (iv "p2p_consumer_flags") consumer) i,
              fun_ext (unmasked (iv "p2p_producer_flags") producer) i,
            )

  -- In exact arithmetic, if the members have agreed on their seeds and there is at least one, their
  -- convertors turn each draw into a number and all in the same way, and a plaintext of each member's context
  -- has room for the slots and for the cycle of the context, then hiding the data of all for one cycle
  -- raises nothing, and unmasking the hidden data yields the sums of the individual deviations, of the
  -- consumer flags and of the producer flags, slot by slot.
  pub unmask_data-hide :
      (hashing : Hashing) (id : CycleId) (size : ℕ)
      → IsFinite N
      → ms ≢ []
      → All (λ m. Converts conv m × HasRoom size m) ms
      → (hidden : List (HiddenData F)) × (traverse
            (λ m. hide pcg64 hashing (data_of_member id (range_from 0 size) m) m.hc)
            ms
          ≡ ok hidden)
        × (unmask_data hidden ≡ ok (true_totals (range_from 0 size) ms))
  unmask_data-hide hashing id size finite some_member converts = (
    map (hidden_of_member pcg64 conv hashing id size) ms,
    traverse-All _ (hidden_of_member pcg64 conv hashing id size) ms (
        All-map
          (λ m good.
            hide-eq-hidden_of pcg64 hashing m.hc conv size good.0 finite (good.1.0) (good.1.1)
              m.client id m.promise m.used)
          ms converts),
    unmask_data-hidden hashing id size (λ m. get_public_hiding_context m.hc) some_member,
  )
