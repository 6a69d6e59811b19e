-- ===== src/Network/Connect.antt =====
-- `handle_connect` of src/private_billing/network.py, over the methods that the two kinds of server
-- override or inherit.
pub mod Discovered
pub mod Keeps
pub mod Constant
use private_billings.Prelude.{
  ℕ, ◌==◌, Bool, true, false, Option, none, some, List, [], ◌∷◌, if◌then◌else◌,
}
use private_billings.Python.Raises.{ok, or_raise, key_error}
use private_billings.Python.Action.{Action, lift, pure, ◌>>=◌, ◌>>◌}
use private_billings.Python.Dict.{Dict, lookup, contains, insert}
use private_billings.Network.{Address, UserType, NodeInfo, get_node_info}

-- A `ConnectMessage`. Of the billing state only the length of a cycle is ever written or read.
pub record ConnectMessage : Type 0 where
  pub reply_address : Address
  pub pk : List ℕ
  pub role : UserType
  pub network_state : Dict NodeInfo
  pub billing_state : Option ℕ

-- The node of a server and its registry, and the methods that `handle_connect` calls.
pub record Discovery (S : Type 0) : Type 0 where
  pub own : S → NodeInfo
  pub members : S → Dict NodeInfo
  pub with_nodes : NodeInfo → Dict NodeInfo → S → S
  pub register_node : NodeInfo → Action S (Unit {0})
  pub send_connect : NodeInfo → S → S

-- `origin.pk = msg.pk` and `origin.role = msg.role`
unfoldable pub updated_origin : ConnectMessage → NodeInfo → NodeInfo
updated_origin msg origin = record origin { pk = some msg.pk; role = some msg.role }

-- `other_address_set.difference(known_address_set)`. Python goes through a set in an order of its own; the
-- entries of a `network_state` stand here in that order, which may be any, and the code reads them by their
-- addresses otherwise.
abbrev pub unknown_addresses : Dict NodeInfo → Dict NodeInfo → List Address
unknown_addresses [] known = []
unknown_addresses ((address, node) ∷ other) known =
    if contains address known
    then unknown_addresses other known
    else address ∷ unknown_addresses other known

module _ {S : Type 0} (d : Discovery S) where
  -- The origin may be the object in the registry, and then also the one that the server has of itself;
  -- the registry and the server then see what is written to it.
  unfoldable pub write_origin : NodeInfo → Bool → S → S
  write_origin node false s = s
  write_origin node true s =
      d.with_nodes (if node.address == (d.own s).address then node else d.own s)
        (insert node.address node (d.members s)) s

  -- `self.send_connect(self.get_node_info(address))`
  unfoldable pub connect_with : Address → Action S (Unit {0})
  connect_with address s = (ok tt, d.send_connect (get_node_info address (d.members s)) s)

  -- The loop of `handle_connect`.
  unfoldable pub connect_unknown : Dict NodeInfo → List Address → Action S (Unit {0})
  unfolding connect_with
  connect_unknown other [] = pure tt
  connect_unknown other (address ∷ addresses) = do
    node ← lift (or_raise (lookup address other) key_error)
    d.register_node node
    connect_with address
    connect_unknown other addresses

  -- `is_registered`: the origin is the object that the registry has at its address.
  unfoldable pub handle_connect : ConnectMessage → NodeInfo → Bool → Action S (Unit {0})
  unfolding updated_origin write_origin connect_unknown
  handle_connect msg origin is_registered s =
      let s' = write_origin (updated_origin msg origin) is_registered s in
      let unknown = unknown_addresses msg.network_state (d.members s') in
      connect_unknown msg.network_state unknown s'
