-- ===== src/HiddenData/Compute.antt =====
-- `HiddenData.compute_hidden_bill`, with the keys that OpenFHE has loaded as its state.
use private_billings.Python.Action.{Action, lift, pure, ◌>>=◌, ◌>>◌}
use private_billings.Number.{Number}
use private_billings.Cycle.{CycleContext, SharedCycleData}
use private_billings.Hiding.Openfhe.{Fhe}
use private_billings.Hiding.{activate_keys, invert_flags, scale, multiply}
use private_billings.HiddenBill.{HiddenBill}
use private_billings.HiddenData.{HiddenData, bill_supplement, reward_penalty}

module _ {N : Type 0} ⦃n : Number N⦄ {F : Fhe N} where
  unfoldable pub compute_hidden_bill :
      HiddenData F → SharedCycleData N → CycleContext N → Action F.KeyStore (HiddenBill F)
  compute_hidden_bill hd scd cyc = do
    activate_keys hd.phc
    -- the dual of the accepted flags
    rejected_consumer_flags ← lift (invert_flags hd.phc hd.accepted_consumer_flags)
    rejected_producer_flags ← lift (invert_flags hd.phc hd.accepted_producer_flags)
    -- a client that was not accepted for peer-to-peer trading
    retail_bill ← lift (scale hd.phc hd.consumptions cyc.retail_prices)
    bill_no_p2p ← multiply hd.phc retail_bill rejected_consumer_flags
    feed_in_reward ← lift (scale hd.phc hd.supplies cyc.feed_in_tarifs)
    reward_no_p2p ← multiply hd.phc feed_in_reward rejected_producer_flags
    -- a client that was accepted
    base_bill ← lift (scale hd.phc hd.consumptions cyc.trading_prices)
    base_reward ← lift (scale hd.phc hd.supplies cyc.trading_prices)
    supplement ← lift (bill_supplement scd cyc)
    bill_supplement_ct ← lift (scale hd.phc hd.positive_deviation_flags supplement)
    penalty ← lift (reward_penalty scd cyc)
    reward_penalty_ct ← lift (scale hd.phc hd.positive_deviation_flags penalty)
    bill_p2p ← multiply hd.phc (F.eval_add base_bill bill_supplement_ct) hd.accepted_consumer_flags
    reward_p2p ←
        multiply hd.phc (F.eval_add base_reward reward_penalty_ct) hd.accepted_producer_flags
    pure (record {
      cycle_id = hd.cycle_id;
      hidden_bill = F.eval_add bill_p2p bill_no_p2p;
      hidden_reward = F.eval_add reward_p2p reward_no_p2p;
    })
