-- ===== src/Network/Connect/Keeps.antt =====
-- What the handling of a connect message leaves as it was.
use private_billings.Prelude.{Bool, true, false, Option-cases, List, [], ◌∷◌, inl, inr}
use private_billings.Python.Raises.{result_cases}
use private_billings.Python.Dict.{Dict, lookup, AllEntries, lookup-AllEntries}
use private_billings.Network.{Address, NodeInfo}
use private_billings.Network.Connect.{
  ConnectMessage, Discovery, updated_origin, write_origin, connect_with, connect_unknown,
  handle_connect,
}

module _ {ℓ} {S : Type 0} (d : Discovery S) (P : S → Type ℓ) (Good : NodeInfo → Type 0) where
  -- A condition that a kind of server keeps when it registers a good node and when it greets a node.
  pub record IsKeptFor : Type ℓ where
    pub register : (node : NodeInfo) (s : S) → Good node → P s → P ((d.register_node node s).1)
    pub connect : (node : NodeInfo) (s : S) → P s → P (d.send_connect node s)

  -- Also if a method raises.
  pub connect_unknown-keeps :
      (other : Dict NodeInfo) (addresses : List Address) (s : S)
      → IsKeptFor
      → AllEntries (λ a node. Good node) other
      → P s
      → P ((connect_unknown d other addresses s).1)
  unfolding connect_unknown connect_with
  connect_unknown-keeps other [] s kept good p = p
  connect_unknown-keeps other (x ∷ rest) s kept good p = elim (Option-cases (lookup x other)) [
    | inl missing ↦ rw missing p
    | inr (node, found) ↦
        let q =
          kept.register node s (lookup-AllEntries (λ a node. Good node) x node other good found)
            p in
        elim (result_cases ((d.register_node node s).0)) [
          | inr (e, raised) ↦ rw (found, raised) q
          | inl (done, fine) ↦
              rw (found, fine) (connect_unknown-keeps other rest _ kept good (kept.connect _ _ q))
        ]
  ]

all_good : (other : Dict NodeInfo) → AllEntries (λ a node. Unit {0}) other
all_good [] = tt
all_good ((a, node) ∷ other) = (tt, all_good other)

module _ {ℓ} {S : Type 0} (d : Discovery S) (P : S → Type ℓ) where
  -- A condition that each method of a kind of server keeps.
  pub record IsKept : Type ℓ where
    pub nodes : (node : NodeInfo) (ms : Dict NodeInfo) (s : S) → P s → P (d.with_nodes node ms s)
    pub register : (node : NodeInfo) (s : S) → P s → P ((d.register_node node s).1)
    pub connect : (node : NodeInfo) (s : S) → P s → P (d.send_connect node s)

  module _ (kept : IsKept) where
    write_origin-keeps :
        (node : NodeInfo) (is_registered : Bool) (s : S)
        → P s
        → P (write_origin d node is_registered s)
    unfolding write_origin
    write_origin-keeps node false s p = p
    write_origin-keeps node true s p = kept.nodes _ _ s p

    pub handle_connect-keeps :
        (msg : ConnectMessage) (origin : NodeInfo) (is_registered : Bool) (s : S)
        → P s
        → P ((handle_connect d msg origin is_registered s).1)
    unfolding handle_connect
    handle_connect-keeps msg origin is_registered s p =
        connect_unknown-keeps d P (λ node. Unit {0}) msg.network_state _ _
          (record { register = λ node s good p. kept.register node s p; connect = kept.connect })
          (all_good msg.network_state)
          (write_origin-keeps (updated_origin msg origin) is_registered s p)
