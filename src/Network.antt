-- ===== src/Network.antt =====
-- src/private_billing/network.py: the nodes that a server knows. An address is a number here, since it
-- only serves as a key; SHA-256 is a parameter.
pub mod Connect
pub mod Dispatch
pub mod Verified
pub mod Sending
pub mod Serving
use private_billings.Prelude.{
  ℕ, ◌==◌, ◌&&◌, ◌%◌, ◌^◌, Bool, true, false, Option, none, some, List, [], ◌∷◌, if◌then◌else◌,
}
use private_billings.Python.Raises.{Result, ok, err, attribute_error}
use private_billings.Python.Dict.{Dict, insert, get_or, values}

abbrev pub Address : Type 0
Address = ℕ

pub data UserType : Type 0 where
  edge core : UserType

-- A node that is not known has neither a key nor a role. A `TransferablePublicKey` is its bytes.
pub record NodeInfo : Type 0 where
  pub address : Address
  pub pk : Option (List ℕ)
  pub role : Option UserType

-- `x.role == UserType.CORE`
abbrev pub is_core : Option UserType → Bool
is_core none = false
is_core (some edge) = false
is_core (some core) = true

-- `NodeInfo.id`, from the SHA-256 digest of the bytes of the key as a little-endian integer
unfoldable pub node_id : (List ℕ → ℕ) → NodeInfo → Result ℕ
node_id sha256 node = elim node.pk [
  | none ↦ err attribute_error
  | some public_key_bytes ↦ ok (sha256 public_key_bytes % 2 ^ 64)
]

-- `filter(lambda x: x.role == UserType.CORE, ...)`
abbrev pub filter_cores : List NodeInfo → List NodeInfo
filter_cores [] = []
filter_cores (x ∷ nodes) = if is_core x.role then x ∷ filter_cores nodes else filter_cores nodes

unfoldable pub network_cores : Dict NodeInfo → List NodeInfo
network_cores network_members = filter_cores (values network_members)

-- `x.role == UserType.EDGE`
abbrev pub is_edge : Option UserType → Bool
is_edge none = false
is_edge (some edge) = true
is_edge (some core) = false

abbrev pub filter_edges : List NodeInfo → List NodeInfo
filter_edges [] = []
filter_edges (x ∷ nodes) = if is_edge x.role then x ∷ filter_edges nodes else filter_edges nodes

unfoldable pub network_edges : Dict NodeInfo → List NodeInfo
network_edges network_members = filter_edges (values network_members)

unfoldable pub register_node : NodeInfo → Dict NodeInfo → Dict NodeInfo
register_node node network_members = insert node.address node network_members

unfoldable pub get_node_info : Address → Dict NodeInfo → NodeInfo
get_node_info address network_members =
    get_or address (record { address = address; pk = none; role = none }) network_members

-- Two nodes are equal if their addresses, keys and roles are.
same_bytes : List ℕ → List ℕ → Bool
same_bytes [] [] = true
same_bytes (x ∷ xs) (y ∷ ys) = x == y && same_bytes xs ys
same_bytes xs ys = false

same_pk : Option (List ℕ) → Option (List ℕ) → Bool
same_pk none none = true
same_pk (some xs) (some ys) = same_bytes xs ys
same_pk x y = false

same_role : Option UserType → Option UserType → Bool
same_role none none = true
same_role (some edge) (some edge) = true
same_role (some core) (some core) = true
same_role x y = false

same_node : NodeInfo → NodeInfo → Bool
same_node x y = x.address == y.address && same_pk x.pk y.pk && same_role x.role y.role

-- The nodes other than the server, in the order in which the set is gone through.
other_nodes : NodeInfo → List NodeInfo → List NodeInfo
other_nodes self [] = []
other_nodes self (x ∷ nodes) =
    if same_node x self then other_nodes self nodes else x ∷ other_nodes self nodes

unfoldable pub network_peers : NodeInfo → Dict NodeInfo → List NodeInfo
unfolding other_nodes same_node same_pk same_bytes same_role
network_peers self network_members = other_nodes self (values network_members)
