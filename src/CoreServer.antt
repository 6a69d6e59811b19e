-- ===== src/CoreServer.antt =====
-- src/private_billing/core_server.py: the server of a client, which exchanges seeds, hides data and reveals
-- bills. What it sends is kept in a list, each message with the node that it goes to; sending does not
-- fail here. The relinearization keys that OpenFHE has loaded belong to the process of the server.
pub mod Connect
pub mod Events
pub mod Seeds
pub mod Fixed
pub mod Process
use private_billings.Prelude.{
  ℕ, Bool, true, false, not, Option, none, some, List, [], ◌∷◌, ◌++◌, map, if◌then◌else◌,
}
use private_billings.Python.Raises.{Result, ok, err, attribute_error, type_error}
use private_billings.Python.Action.{Action, lift, pure, ◌>>=◌, ◌>>◌}
use private_billings.Python.Dict.{Dict, insert, values}
use private_billings.Number.{Number}
use private_billings.Cycle.{CycleId, ClientId, Bill}
use private_billings.Masking.{
  Seed, Pcg64, Int64Convertor, SharedMaskGenerator, new_generator, get_seed_for_peer,
  has_owned_seed_for_peer, consume_foreign_seed,
}
use private_billings.Hiding.Openfhe.{Fhe}
use private_billings.Hiding.{Hashing, HidingContext}
use private_billings.HiddenBill.{HiddenBill, reveal}
use private_billings.HiddenData.{HiddenData}
use private_billings.Data.{Data, hide}
use private_billings.Network.{
  Address, NodeInfo, core, is_core, node_id, network_edges, register_node,
}
use private_billings.Network.Connect.{ConnectMessage}

-- The length and the keys of a hiding context; the mask generator is the one of the server itself.
pub record Keys {N : Type 0} (F : Fhe N) : Type 0 where
  pub cycle_length : ℕ
  pub cc : F.CryptoContext
  pub public_key : F.PublicKey
  pub secret_key : F.SecretKey

module _ {N : Type 0} (F : Fhe N) where
  pub data Outgoing : Type 0 where
    seed_message : Seed → Outgoing
    hidden_data_message : HiddenData F → Outgoing
    connect_message : ConnectMessage → Outgoing

  pub record CoreServer : Type 0 where
    pub node_info : NodeInfo
    pub network_members : Dict NodeInfo
    pub mg : SharedMaskGenerator N
    pub hc : Option (Keys F)
    pub bills : Dict (Bill N)
    pub loaded_keys : F.KeyStore
    pub sent : List (NodeInfo × Outgoing)

module _ {N : Type 0} {F : Fhe N} where
  -- `__post_init__`; the convertor is `Int64ToFloatConvertor(6, 4)`.
  unfoldable pub new_core_server : Address → List ℕ → Int64Convertor N → F.KeyStore → CoreServer F
  unfolding register_node new_generator
  new_core_server address pk convertor store =
      let node : NodeInfo = record { address = address; pk = some pk; role = some core } in
      record {
        node_info = node;
        network_members = register_node node [];
        mg = new_generator convertor;
        hc = none;
        bills = [];
        loaded_keys = store;
        sent = [];
      }

  -- The context as it is now: it refers to the generator of the server, so it sees every new seed.
  -- Without a context the first use of one of its methods raises.
  abbrev pub hiding_context : CoreServer F → Result (HidingContext F)
  hiding_context e = elim e.hc [
    | none ↦ err attribute_error
    | some k ↦ ok (record {
      cycle_length = k.cycle_length;
      cc = k.cc;
      public_key = k.public_key;
      secret_key = k.secret_key;
      mask_generator = e.mg;
    })
  ]

  -- The rest of these methods runs with the id of a node, which may raise.
  abbrev pub with_id :
      (List ℕ → ℕ)
      → NodeInfo
      → (ClientId → CoreServer F → CoreServer F)
      → Action (CoreServer F) (Unit {0})
  with_id sha256 node f e = elim (node_id sha256 node) [
    | err x ↦ (err x, e)
    | ok id ↦ (ok tt, f id e)
  ]

  -- `fresh` is the random seed that is drawn if there is none for the peer.
  unfoldable pub send_seed : Seed → NodeInfo → ClientId → CoreServer F → CoreServer F
  send_seed fresh member id e =
      let (seed, mg) = get_seed_for_peer fresh id e.mg in
      record e { mg = mg; sent = e.sent ++ (member, seed_message seed) ∷ [] }

  unfoldable pub try_send_seed : (List ℕ → ℕ) → Seed → NodeInfo → Action (CoreServer F) (Unit {0})
  try_send_seed sha256 fresh member e =
      if not (is_core member.role)
      then (ok tt, e)
      else with_id sha256 member
          (λ id e. if not (has_owned_seed_for_peer id e.mg) then send_seed fresh member id e else e)
          e

  unfoldable pub handle_seed :
      (List ℕ → ℕ) → Seed → Seed → NodeInfo → Action (CoreServer F) (Unit {0})
  handle_seed sha256 fresh seed origin = do
    with_id sha256 origin (λ id e. record e { mg = consume_foreign_seed seed id e.mg })
    try_send_seed sha256 fresh origin

  -- `handle_get_bill` calls `BillMessage` without its reply address.
  unfoldable pub handle_get_bill : CycleId → NodeInfo → Action (CoreServer F) (Unit {0})
  handle_get_bill cycle_id origin = lift (err type_error)

module _ {N : Type 0} ⦃n : Number N⦄ (pcg64 : Pcg64) (hashing : Hashing) {F : Fhe N}
    (sha256 : List ℕ → ℕ) where
  -- `hide_data` sets the client of the hidden data to the id of the server.
  unfoldable pub hide_data : Data N → CoreServer F → Result (HiddenData F)
  hide_data d e = elim (hiding_context e) [
    | err x ↦ err x
    | ok hc ↦ elim (hide pcg64 hashing d hc) [
      | err x ↦ err x
      | ok hidden ↦ elim (node_id sha256 e.node_info) [
        | err x ↦ err x
        | ok id ↦ ok (record hidden { client = id })
      ]
    ]
  ]

  unfoldable pub handle_data : Data N → Action (CoreServer F) (Unit {0})
  handle_data d e = elim (hide_data d e) [
    | err x ↦ (err x, e)
    | ok hidden ↦ (
      ok tt,
      record e {
        sent =
            e.sent ++ map (λ x. (x, hidden_data_message hidden)) (network_edges e.network_members);
      },
    )
  ]

module _ {N : Type 0} ⦃n : Number N⦄ {F : Fhe N} where
  unfoldable pub handle_hidden_bill : HiddenBill F → Action (CoreServer F) (Unit {0})
  handle_hidden_bill hidden_bill e = elim (hiding_context e) [
    | err x ↦ (err x, e)
    | ok hc ↦
        let bill = reveal hc hidden_bill in
        (ok tt, record e { bills = insert bill.cycle_id bill e.bills })
  ]
