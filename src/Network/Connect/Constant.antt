-- ===== src/Network/Connect/Constant.antt =====
-- Networks in which each address keeps its key and its role.
use private_billings.Prelude.{
  ℕ, ◌≡◌, refl, sym, ap, ◌∙◌, List, [], ◌∷◌, Option, some, Option-cases, inl, inr,
}
use private_billings.Python.Dict.{
  Dict, lookup, insert, AllEntries, get_or, lookup-get_or, lookup-AllEntries,
}
use private_billings.Network.{Address, UserType, NodeInfo, get_node_info}
use private_billings.Network.Connect.{ConnectMessage, updated_origin}

-- A node that is what it is said to be.
same_node :
    (n : NodeInfo) (p : Option (List ℕ)) (r : Option UserType)
    → n.pk ≡ p
    → n.role ≡ r
    → record n { pk = p; role = r } ≡ n
same_node n p r e₁ e₂ =
    ap (λ (p : Option (List ℕ)). record n { pk = p; role = r }) (sym e₁)
    ∙ ap (λ (r : Option UserType). record n { role = r }) (sym e₂)

-- What the registry has at an address, with the key and the role that it has already, is what it was.
pub unchanged :
    (msg : ConnectMessage) (ms : Dict NodeInfo) (node : NodeInfo)
    → lookup msg.reply_address ms ≡ some node
    → node.address ≡ msg.reply_address
    → node.pk ≡ some msg.pk
    → node.role ≡ some msg.role
    → (let origin = get_node_info msg.reply_address ms in
        insert origin.address (updated_origin msg origin) ms ≡ insert msg.reply_address node ms)
unfolding get_node_info updated_origin
unchanged msg ms node found at_a has_key has_role =
    let origin_is : get_node_info msg.reply_address ms ≡ node =
      lookup-get_or msg.reply_address _ node ms found in
    ap (λ (o : NodeInfo). insert o.address (record o { pk = some msg.pk; role = some msg.role }) ms)
      origin_is
    ∙ ap (λ (m : NodeInfo). insert node.address m ms)
        (same_node node (some msg.pk) (some msg.role) has_key has_role)
    ∙ ap (λ (a : ℕ). insert a node ms) at_a

module _ (key_of : Address → List ℕ) (role_of : Address → UserType) where
  -- A node with the key and the role that its address has throughout.
  abbrev pub IsNode : Address → NodeInfo → Type 0
  IsNode a node = (node.address ≡ a) × (node.pk ≡ some (key_of a)) × (node.role ≡ some (role_of a))

  -- A connect message that is true of its sender and of the nodes that it knows.
  abbrev pub IsTrueOf : ConnectMessage → Type 0
  IsTrueOf msg =
      (msg.pk ≡ key_of msg.reply_address)
      × (msg.role ≡ role_of msg.reply_address)
      × AllEntries IsNode msg.network_state

pub own_address :
    (key_of : Address → List ℕ) (role_of : Address → UserType) (ms : Dict NodeInfo)
    → AllEntries (IsNode key_of role_of) ms
    → AllEntries (λ a node. IsNode key_of role_of node.address node) ms
own_address key_of role_of [] h = tt
own_address key_of role_of ((a, node) ∷ ms) ((at_a, key, role), h) =
    ((refl, rw at_a key, rw at_a role), own_address key_of role_of ms h)

-- The origin of a true connect message is a node of its address.
pub updated_origin-IsNode :
    (key_of : Address → List ℕ) (role_of : Address → UserType) (ms : Dict NodeInfo)
    → (msg : ConnectMessage) → AllEntries (IsNode key_of role_of) ms
    → IsTrueOf key_of role_of msg
    → (let node = updated_origin msg (get_node_info msg.reply_address ms) in
        IsNode key_of role_of node.address node)
unfolding updated_origin get_node_info
updated_origin-IsNode key_of role_of ms msg h (key, role, nodes) =
    let a = msg.reply_address in
    let at_a : (get_node_info a ms).address ≡ a = elim (Option-cases (lookup a ms)) [
      | inl unknown ↦ rw (get_or, unknown) refl
      | inr (node, found) ↦
          ap (λ (n : NodeInfo). n.address) (lookup-get_or a _ node ms found)
          ∙ (lookup-AllEntries (IsNode key_of role_of) a node ms h found).0
    ] in
    (refl, ap some (key ∙ ap key_of (sym at_a)), ap some (role ∙ ap role_of (sym at_a)))
