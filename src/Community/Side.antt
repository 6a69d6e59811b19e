-- ===== src/Community/Side.antt =====
-- One member's side of a billing cycle: its slots, its ciphertexts and its bill.
use private_billings.Prelude.{
  ℕ, ◌≤◌, ◌≡◌, refl, sym, ◌∙◌, List, map, map-map, length, length-map, arith,
}
use mathlib.Core.Path.{subst}
use private_billings.Python.Raises.{ok}
use private_billings.Number.{Number}
use private_billings.Number.Laws.{IsFinite}
use private_billings.Number.Sums.{sum_over}
use private_billings.Vector.{flag}
use private_billings.Vector.Ops.{pad_to_long}
use private_billings.Cycle.{CycleId, CycleContext}
use private_billings.Masking.{Pcg64, range_from}
use private_billings.Masking.Draws.{length-range_from}
use private_billings.Hiding.Openfhe.{Fhe}
use private_billings.Hiding.Laws.{IsHomomorphic}
use private_billings.Hiding.{
  Hashing, HidingContext, PublicHidingContext, get_public_hiding_context, set_state,
}
use private_billings.Hiding.Packing.{encrypted}
use private_billings.HiddenBill.{HiddenBill, reveal}
use private_billings.HiddenData.{HiddenData}
use private_billings.HiddenData.Split.{Slot}
use private_billings.HiddenData.Circuit.{IsContextOf, IsSharedBy}
use private_billings.HiddenData.Compute.{compute_hidden_bill}
use private_billings.HiddenData.Correct.{IsHidden, IsOwner, plain_bill, reveal-compute_hidden_bill}
use private_billings.Data.Slots.{gain, neg, slot_deviation, slot_deviates}
use private_billings.Community.{Member}
use private_billings.Community.Totals.{true_totals, hidden_with}

-- The prices of a cycle, slot by slot.
pub record Prices (N : Type 0) : Type 0 where
  pub retail : ℕ → N
  pub feed_in : ℕ → N
  pub trading : ℕ → N

-- The context of a cycle has these prices.
pub record HasPrices {N : Type 0} (size : ℕ) (prices : Prices N) (cyc : CycleContext N)
    : Type 0 where
  pub cycle_length : cyc.cycle_length ≡ size
  pub retail_prices : cyc.retail_prices ≡ map prices.retail (range_from 0 size)
  pub feed_in_tarifs : cyc.feed_in_tarifs ≡ map prices.feed_in (range_from 0 size)
  pub trading_prices : cyc.trading_prices ≡ map prices.trading (range_from 0 size)

module _ {N : Type 0} ⦃n : Number N⦄ {F : Fhe N} where
  -- What the cost split reads in a slot: the member's use and promise, the prices, and the
  -- totals over all members.
  abbrev pub slot_of : Prices N → List (Member F) → Member F → ℕ → Slot N
  slot_of prices ms m k = record {
    consumption = gain (m.used k);
    supply = gain (neg (m.used k));
    consumer = n.lt n.nought (m.promise k);
    producer = n.lt (m.promise k) n.nought;
    deviates = slot_deviates (m.promise k) (m.used k);
    retail_price = prices.retail k;
    feed_in_tarif = prices.feed_in k;
    trading_price = prices.trading k;
    total_deviation = sum_over (λ m'. slot_deviation (m'.promise k) (m'.used k)) ms;
    total_consumers = sum_over (λ m'. flag (n.lt n.nought (m'.promise k))) ms;
    total_producers = sum_over (λ m'. flag (n.lt (m'.promise k) n.nought)) ms;
  }

  abbrev pub slots_of : Prices N → List (Member F) → ℕ → Member F → List (Slot N)
  slots_of prices ms size m = map (slot_of prices ms m) (range_from 0 size)

  -- The public context of a member as the edge has it, with the bytes of its key.
  abbrev pub received_context : (Member F → List ℕ) → Member F → PublicHidingContext F
  received_context bytes m = set_state (bytes m) (get_public_hiding_context m.hc)

module _ {N : Type 0} ⦃n : Number N⦄ {F : Fhe N} (laws : IsHomomorphic F) where
  open laws use {Carries, IsKeyPair, IsKeyOf, depth, encrypt_carries}

  -- What a member's context must allow for cycles of this length.
  pub record IsEquipped (size : ℕ) (bytes : Member F → List ℕ) (m : Member F) : Type 0 where
    pub cycle_length : m.hc.cycle_length ≡ size
    pub room : size ≤ F.batch_size m.hc.cc
    pub deep : 2 ≤ depth m.hc.cc
    pub key_pair : IsKeyPair m.hc.cc m.hc.public_key m.hc.secret_key
    pub key_bytes : IsKeyOf (bytes m) m.hc.cc m.hc.public_key

  encrypt-carries :
      (hc : HidingContext F) (size : ℕ) (f : ℕ → N)
      → hc.cycle_length ≡ size
      → size ≤ F.batch_size hc.cc
      → Carries hc.cc hc.public_key 0
          (encrypted hc (map f (range_from 0 size)))
          (map f (range_from 0 size))
  encrypt-carries hc size f e room =
      let len = length-map f (range_from 0 size) ∙ length-range_from 0 size in
      subst
        (λ (v : List N).
          Carries hc.cc hc.public_key 0
            (F.encrypt hc.cc hc.public_key (F.make_packed_plaintext hc.cc v))
            (map f (range_from 0 size)))
        (sym (pad_to_long (map f (range_from 0 size)) hc.cycle_length n.nought (omega arith)))
        (encrypt_carries hc.cc hc.public_key (map f (range_from 0 size)) (omega arith))

  module _ (pcg64 : Pcg64) (conv : ℕ → N) (hashing : Hashing) (id : CycleId) (size : ℕ)
      (bytes : Member F → List ℕ) (prices : Prices N) (ms : List (Member F)) (m : Member F)
      (equipped : IsEquipped size bytes m) where
    abbrev pub received : HiddenData F
    received = hidden_with pcg64 conv hashing id size (received_context bytes) m

    column :
        (f : Slot N → N)
        → map (λ k. f (slot_of prices ms m k)) (range_from 0 size)
          ≡ map f (slots_of prices ms size m)
    column f = sym (map-map f (slot_of prices ms m) (range_from 0 size))

    carried :
        (f : Slot N → N)
        → Carries m.hc.cc m.hc.public_key 0
            (encrypted m.hc (map (λ k. f (slot_of prices ms m k)) (range_from 0 size)))
            (map f (slots_of prices ms size m))
    carried f = subst (Carries m.hc.cc m.hc.public_key 0 _) (column f) (
        encrypt-carries m.hc size (λ k. f (slot_of prices ms m k)) equipped.cycle_length
          equipped.room)

    size-eq-length : size ≡ length (slots_of prices ms size m)
    size-eq-length =
        sym (length-map (slot_of prices ms m) (range_from 0 size) ∙ length-range_from 0 size)

    pub received-IsHidden : IsHidden laws (slots_of prices ms size m) received
    unfolding set_state get_public_hiding_context
    received-IsHidden = record {
      received = (bytes m, refl, equipped.key_bytes);
      room = rw (← size-eq-length) equipped.room;
      cycle_length = equipped.cycle_length ∙ size-eq-length;
      consumptions = carried (λ s. s.consumption);
      supplies = carried (λ s. s.supply);
      accepted_consumer_flags = carried (λ s. flag s.consumer);
      accepted_producer_flags = carried (λ s. flag s.producer);
      positive_deviation_flags = carried (λ s. flag s.deviates);
    }

    pub received-IsOwner : IsOwner laws (slots_of prices ms size m) m.hc received
    unfolding set_state get_public_hiding_context
    received-IsOwner = record {
      cc = refl;
      public_key = refl;
      key_pair = equipped.key_pair;
      cycle_length = equipped.cycle_length ∙ size-eq-length;
    }

    pub context-IsContextOf :
        {cyc : CycleContext N}
        → HasPrices size prices cyc
        → IsContextOf (slots_of prices ms size m) cyc
    context-IsContextOf h = record {
      retail_prices = h.retail_prices ∙ column (λ s. s.retail_price);
      feed_in_tarifs = h.feed_in_tarifs ∙ column (λ s. s.feed_in_tarif);
      trading_prices = h.trading_prices ∙ column (λ s. s.trading_price);
    }

    pub totals-IsSharedBy :
        IsSharedBy (slots_of prices ms size m) (true_totals (range_from 0 size) ms)
    totals-IsSharedBy = record {
      total_deviations = column (λ s. s.total_deviation);
      total_p2p_consumers = column (λ s. s.total_consumers);
      total_p2p_producers = column (λ s. s.total_producers);
    }

    -- With the true totals the computation returns a bill from which the member reveals its cost
    -- split.
    pub member_bill :
        {cyc : CycleContext N}
        → IsFinite N
        → HasPrices size prices cyc
        → (store : F.KeyStore)
        → (hb : HiddenBill F) × (store' : F.KeyStore) × (compute_hidden_bill received
              (true_totals (range_from 0 size) ms)
              cyc
              store
            ≡ (ok hb, store'))
          × (reveal m.hc hb ≡ plain_bill laws id (slots_of prices ms size m))
    unfolding set_state get_public_hiding_context
    member_bill finite h store =
        reveal-compute_hidden_bill laws finite (slots_of prices ms size m) m.hc received
          equipped.deep received-IsHidden (context-IsContextOf h) totals-IsSharedBy received-IsOwner
          store
