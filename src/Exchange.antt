-- ===== src/Exchange.antt =====
-- Several core servers of src/private_billing/core_server.py together: the messages that the seeds of each
-- depend on, with what the others have sent. A message that was sent may arrive at any time, more than once
-- or never.
pub mod Sound
pub mod Received
pub mod Given
pub mod Agreed
pub mod Masks
use private_billings.Prelude.{ℕ, ◌≡◌, ◌⊎◌, ◌==◌, Bool, List, [], ◌∷◌, if◌then◌else◌}
use private_billings.Python.Dict.{contains}
use private_billings.Masking.{Seed, Int64Convertor}
use private_billings.Hiding.Openfhe.{Fhe}
use private_billings.Hiding.Parameters.{Generation}
use private_billings.Network.{Address, UserType, core, NodeInfo, get_node_info}
use private_billings.Network.Connect.{ConnectMessage}
use private_billings.Network.Connect.Constant.{IsTrueOf}
use private_billings.CoreServer.{CoreServer, Outgoing, seed_message, new_core_server, handle_seed}
use private_billings.CoreServer.Connect.{start, handle_connect}

module _ {N : Type 0} {F : Fhe N} where
  -- The message is among those that were sent.
  abbrev pub IsSent : NodeInfo → Seed → List (NodeInfo × Outgoing F) → Type 0
  IsSent node seed [] = ⊥
  IsSent node seed (x ∷ sent) = (x ≡ (node, seed_message seed)) ⊎ IsSent node seed sent

  -- The servers once the one at an address has changed.
  abbrev pub update : Address → CoreServer F → (Address → CoreServer F) → Address → CoreServer F
  update a e servers b = if b == a then e else servers b

module _ {N : Type 0} {F : Fhe N} (g : Generation F) (sha256 : List ℕ → ℕ) where
  -- `_handle` gives the handler what the registry has at the reply address. The connect message needs no
  -- signature.
  abbrev pub receive_connect : List ℕ → ℕ → Seed → ConnectMessage → CoreServer F → CoreServer F
  receive_connect pk random fresh msg e =
      (handle_connect g sha256 pk random fresh msg
        (get_node_info msg.reply_address e.network_members)
        (contains msg.reply_address e.network_members) e).1

module _ {N : Type 0} {F : Fhe N} (sha256 : List ℕ → ℕ) where
  -- A seed message has a valid signature where the key of its sender is known, and is refused elsewhere.
  abbrev pub receive_seed : Seed → Seed → Address → CoreServer F → CoreServer F
  receive_seed fresh seed sender e =
      if contains sender e.network_members
      then (handle_seed sha256 fresh seed (get_node_info sender e.network_members) e).1
      else e

module _ {N : Type 0} {F : Fhe N} (g : Generation F) (sha256 : List ℕ → ℕ)
    (key_of : Address → List ℕ) (role_of : Address → UserType) where
  -- One core server starts, handles a connect message, of whoever it is, or a seed message that another
  -- core server has sent to it.
  pub data Step : (Address → CoreServer F) → (Address → CoreServer F) → Type 0 where
    began :
        (j edge : Address) (servers : Address → CoreServer F)
        → role_of j ≡ core
        → Step servers (update j (start (key_of j) edge (servers j)) servers)
    connected :
        (j : Address) (random : ℕ) (fresh : Seed) (msg : ConnectMessage)
        → (servers : Address → CoreServer F) → role_of j ≡ core
        → IsTrueOf key_of role_of msg
        → Step servers
            (update j (receive_connect g sha256 (key_of j) random fresh msg (servers j)) servers)
    seeded :
        (i j : Address) (fresh seed : Seed) (node : NodeInfo) (servers : Address → CoreServer F)
        → role_of i ≡ core
        → role_of j ≡ core
        → IsSent node seed (servers i).sent
        → node.address ≡ j
        → Step servers (update j (receive_seed sha256 fresh seed i (servers j)) servers)

  -- What any number of steps leads to from new servers.
  pub data Reached (convertor : Int64Convertor N) (store : F.KeyStore)
      : (Address → CoreServer F) → Type 0 where
    new_servers : Reached convertor store (λ a. new_core_server a (key_of a) convertor store)
    later :
        {servers servers' : Address → CoreServer F}
        → Reached convertor store servers
        → Step servers servers'
        → Reached convertor store servers'
