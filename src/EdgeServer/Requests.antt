-- ===== src/EdgeServer/Requests.antt =====
-- The messages that an edge server of src/private_billing/edge_server.py receives.
use private_billings.Prelude.{ℕ, List, [], ◌∷◌}
use private_billings.Python.Dict.{contains}
use private_billings.Number.{Number}
use private_billings.Cycle.{CycleContext}
use private_billings.Hiding.Openfhe.{Fhe}
use private_billings.HiddenData.{HiddenData}
use private_billings.Network.{Address, UserType, get_node_info}
use private_billings.Network.Connect.{ConnectMessage}
use private_billings.Network.Connect.Constant.{IsTrueOf}
use private_billings.EdgeServer.{EdgeServer, handle_context_data, handle_hidden_data}
use private_billings.EdgeServer.Connect.{handle_connect}

-- A message that arrives on an edge server, for one of its three handlers.
pub data Request {N : Type 0} (F : Fhe N) : Type 0 where
  connect_request : ConnectMessage → Request F
  context_request : CycleContext N → Request F
  data_request : HiddenData F → Request F

module _ {N : Type 0} ⦃n : Number N⦄ {F : Fhe N} (sha256 : List ℕ → ℕ) (pk : List ℕ) where
  -- The origin of a connect message is what the registry has at its reply address.
  abbrev pub handle : Request F → EdgeServer F → EdgeServer F
  handle (connect_request msg) e =
      (handle_connect sha256 pk msg (get_node_info msg.reply_address e.network_members)
        (contains msg.reply_address e.network_members) e).1
  handle (context_request cyc) e = handle_context_data sha256 cyc e
  handle (data_request datum) e = handle_hidden_data sha256 datum e

  abbrev pub handle_all : List (Request F) → EdgeServer F → EdgeServer F
  handle_all [] e = e
  handle_all (x ∷ xs) e = handle_all xs (handle x e)

module _ (key_of : Address → List ℕ) (role_of : Address → UserType) where
  -- A connect message that is true of its sender and its nodes.
  abbrev pub IsTrue : {N : Type 0} {F : Fhe N} → Request F → Type 0
  IsTrue (connect_request msg) = IsTrueOf key_of role_of msg
  IsTrue (context_request cyc) = Unit
  IsTrue (data_request datum) = Unit
