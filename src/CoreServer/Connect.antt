-- ===== src/CoreServer/Connect.antt =====
-- How a core server of src/private_billing/core_server.py enters the network: its start and what it does on
-- a connect message.
pub mod Keeps
pub mod Context
pub mod Entered
use private_billings.Prelude.{ℕ, zero, suc, Bool, Option, none, some, List, [], ◌∷◌, ◌++◌}
use private_billings.Python.Raises.{Result, ok, err}
use private_billings.Python.Action.{Action, lift, pure, ◌>>=◌, ◌>>◌}
use private_billings.Python.Dict.{Dict}
use private_billings.Masking.{Seed}
use private_billings.Hiding.Openfhe.{Fhe}
use private_billings.Hiding.{HidingContext}
use private_billings.Hiding.Parameters.{Generation, new_hiding_context}
use private_billings.Network.{Address, NodeInfo, core, register_node}
use private_billings.Network.Connect.{ConnectMessage, Discovery, updated_origin}
use private_billings.Network.Connect
use private_billings.CoreServer.{Keys, CoreServer, Outgoing, connect_message, try_send_seed}

module _ {N : Type 0} {F : Fhe N} where
  -- The message that a core server connects with. Its key and role are those that it was made with, and
  -- nothing writes to its billing state.
  unfoldable pub connect_message_of : List ℕ → CoreServer F → ConnectMessage
  connect_message_of pk e = record {
    reply_address = e.node_info.address;
    pk = pk;
    role = core;
    network_state = e.network_members;
    billing_state = none;
  }

  unfoldable pub send_connect : List ℕ → NodeInfo → CoreServer F → CoreServer F
  send_connect pk target e = record e {
    sent = e.sent ++ (target, connect_message (connect_message_of pk e)) ∷ [];
  }

  -- Of the edge server only the address is known at the start.
  unfoldable pub start : List ℕ → Address → CoreServer F → CoreServer F
  unfolding send_connect
  start pk edge e = send_connect pk (record { address = edge; pk = none; role = none }) e

  -- A core server registers nodes as every server does.
  unfoldable pub discovery : List ℕ → Discovery (CoreServer F)
  unfolding send_connect register_node
  discovery pk = record {
    own = λ e. e.node_info;
    members = λ e. e.network_members;
    with_nodes = λ node members e. record e { node_info = node; network_members = members };
    register_node =
        λ node e. (ok tt, record e { network_members = register_node node e.network_members });
    send_connect = send_connect pk;
  }

  pub keys_of : HidingContext F → Keys F
  keys_of hc = record {
    cycle_length = hc.cycle_length;
    cc = hc.cc;
    public_key = hc.public_key;
    secret_key = hc.secret_key;
  }

module _ {N : Type 0} {F : Fhe N} (g : Generation F) where
  -- A new hiding context is kept, with the keys that it has loaded.
  abbrev pub with_context : Result (HidingContext F) → F.KeyStore → Action (CoreServer F) (Unit {0})
  with_context (err x) store e = (err x, record e { loaded_keys = store })
  with_context (ok hc) store e = (ok tt, record e { hc = some (keys_of hc); loaded_keys = store })

  unfoldable pub make_context : ℕ → ℕ → Action (CoreServer F) (Unit {0})
  make_context random cycle_length e =
      let (made, store) = new_hiding_context g random cycle_length e.mg e.loaded_keys in
      with_context made store e

  -- `if cycle_length and not self.hc`
  unfoldable pub init_context : ℕ → Option ℕ → Option (Keys F) → Action (CoreServer F) (Unit {0})
  init_context random none hc e = (ok tt, e)
  init_context random (some zero) hc e = (ok tt, e)
  init_context random (some (suc n)) (some keys) e = (ok tt, e)
  init_context random (some (suc n)) none e = make_context random (suc n) e

  -- `random` is the randomness of the keys and `fresh` the random seed, if they are drawn; `is_registered`
  -- says whether the origin is the object in the registry.
  unfoldable pub handle_connect :
      (List ℕ → ℕ)
      → List ℕ
      → ℕ
      → Seed
      → ConnectMessage
      → NodeInfo
      → Bool
      → Action (CoreServer F) (Unit {0})
  handle_connect sha256 pk random fresh msg origin is_registered = do
    Connect.handle_connect (discovery pk) msg origin is_registered
    λ e. init_context random msg.billing_state e.hc e
    try_send_seed sha256 fresh (updated_origin msg origin)
