-- ===== src/HiddenBill.antt =====
-- src/private_billing/core/hidden_bill.py
use private_billings.Prelude.{List, map}
use private_billings.Number.{Number}
use private_billings.Vector.{truncate}
use private_billings.Cycle.{CycleId, Bill}
use private_billings.Hiding.Openfhe.{Fhe}
use private_billings.Hiding.{HidingContext, decrypt}

pub record HiddenBill {N : Type 0} (F : Fhe N) : Type 0 where
  pub cycle_id : CycleId
  pub hidden_bill : F.Ciphertext
  pub hidden_reward : F.Ciphertext

module _ {N : Type 0} ⦃n : Number N⦄ where
  -- `vector([round(b, 5) for b in bill])`
  unfoldable pub remove_noise : List N → List N
  remove_noise = map (λ b. n.round b 5)

module _ {N : Type 0} ⦃n : Number N⦄ {F : Fhe N} where
  unfoldable pub reveal : HidingContext F → HiddenBill F → Bill N
  unfolding remove_noise truncate
  reveal hc hb =
      let bill = remove_noise (decrypt hc hb.hidden_bill) in
      let reward = remove_noise (decrypt hc hb.hidden_reward) in
      record {
        cycle_id = hb.cycle_id;
        bill = truncate bill hc.cycle_length;
        reward = truncate reward hc.cycle_length;
      }
