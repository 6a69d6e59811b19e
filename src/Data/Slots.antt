-- ===== src/Data/Slots.antt =====
-- What each property of `Data` means in one slot, from the promise and the utilization there.
use private_billings.Prelude.{Bool, ◌||◌, List, map, if◌then◌else◌}
use private_billings.Number.{Number}
use private_billings.Cycle.{CycleId, ClientId}
use private_billings.Data.{Data}

module _ {N : Type 0} ⦃n : Number N⦄ where
  -- The number if it is positive, else 0.
  abbrev pub gain : N → N
  gain x = if n.lt n.nought x then x else n.nought

  abbrev pub neg : N → N
  neg x = n.mul x n.minus_one

  abbrev pub slot_supply_deviation : N → N → N
  slot_supply_deviation promise used =
      if n.lt promise n.nought then n.sub (gain (neg used)) (neg promise) else n.nought

  abbrev pub slot_consumption_deviation : N → N → N
  slot_consumption_deviation promise used =
      if n.lt n.nought promise then n.sub (gain used) promise else n.nought

  abbrev pub slot_deviation : N → N → N
  slot_deviation promise used =
      n.sub (slot_supply_deviation promise used) (slot_consumption_deviation promise used)

  abbrev pub slot_deviates : N → N → Bool
  slot_deviates promise used =
      n.lt n.nought (slot_consumption_deviation promise used)
      || n.lt n.nought (slot_supply_deviation promise used)

-- The data with a promise and a utilization for each of some slots.
abbrev pub data_of : {N R : Type 0} → ClientId → CycleId → (R → N) → (R → N) → List R → Data N
data_of c id promise utilization slots = record {
  client = c;
  cycle_id = id;
  utilization_promises = map promise slots;
  utilizations = map utilization slots;
}
