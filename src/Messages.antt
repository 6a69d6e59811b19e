-- ===== src/Messages.antt =====
-- src/private_billing/messages.py: the messages of the network by their classes. A `SignedMessage` is an
-- `Incoming` of Network.Dispatch.
use private_billings.Cycle.{CycleId, Bill, CycleContext}
use private_billings.Masking.{Seed}
use private_billings.Hiding.Openfhe.{Fhe}
use private_billings.HiddenBill.{HiddenBill}
use private_billings.HiddenData.{HiddenData}
use private_billings.Data.{Data}
use private_billings.Network.{Address}
use private_billings.Network.Connect.{ConnectMessage}
use private_billings.Network.Dispatch.{
  MessageType, connect, seed, data_type, hidden_data, get_bill, bill, hidden_bill, cycle_context,
  Message,
}

module _ {N : Type 0} (F : Fhe N) where
  pub data Content : Type 0 where
    connect_content : ConnectMessage → Content
    context_content : CycleContext N → Content
    get_bill_content : CycleId → Content
    data_content : Data N → Content
    hidden_data_content : HiddenData F → Content
    seed_content : Seed → Content
    bill_content : Bill N → Content
    hidden_bill_content : HiddenBill F → Content

module _ {N : Type 0} {F : Fhe N} where
  -- The property `type` of each class.
  abbrev pub type_of : Content F → MessageType
  type_of (connect_content msg) = connect
  type_of (context_content context) = cycle_context
  type_of (get_bill_content cycle_id) = get_bill
  type_of (data_content d) = data_type
  type_of (hidden_data_content d) = hidden_data
  type_of (seed_content s) = seed
  type_of (bill_content b) = bill
  type_of (hidden_bill_content b) = hidden_bill

  abbrev pub message_of : Address → Content F → Message (Content F)
  message_of reply_address content = record {
    reply_address = reply_address;
    type = type_of content;
    content = content;
  }
