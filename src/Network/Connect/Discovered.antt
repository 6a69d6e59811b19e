-- ===== src/Network/Connect/Discovered.antt =====
-- Which nodes a server knows after a connect message, and whom it greets.
use private_billings.Prelude.{
  ℕ, suc, ◌≡◌, refl, sym, ap, ◌∙◌, Bool, true, false, not, ◌&&◌, ◌==◌, Option, none, some, List, [],
  ◌∷◌, ◌++◌, if◌then◌else◌, ◌||◌, arith,
}
use mathlib.Core.List.{append-nil, append_assoc}
use private_billings.Python.Raises.{Result, ok}
use private_billings.Python.Dict.{
  Dict, lookup, contains, insert, AllEntries, IsDict, contains-lookup, lookup-insert,
  lookup-AllEntries,
}
use private_billings.Network.{Address, NodeInfo, get_node_info}
use private_billings.Network.Connect.{
  ConnectMessage, Discovery, updated_origin, unknown_addresses, write_origin, connect_with,
  connect_unknown, handle_connect,
}

-- A node stands in a network under its own address, with its key.
abbrev pub IsNetwork : Dict NodeInfo → Type 0
IsNetwork state =
    AllEntries (λ a node. (node.address ≡ a) × (bytes : List ℕ) × (node.pk ≡ some bytes)) state

-- The node that is there already, or the other.
abbrev pub first : Option NodeInfo → Option NodeInfo → Option NodeInfo
first none other = other
first (some node) other = some node

module _ {S : Type 0} (d : Discovery S) (greeted : S → List Address) where
  -- What the methods of a kind of server keep to: `greeted` are the addresses that it has sent a connect
  -- message to.
  pub record IsDiscovery : Type 0 where
    pub members_with_nodes :
        (node : NodeInfo) (ms : Dict NodeInfo) (s : S) → d.members (d.with_nodes node ms s) ≡ ms
    pub greeted_with_nodes :
        (node : NodeInfo) (ms : Dict NodeInfo) (s : S)
        → greeted (d.with_nodes node ms s) ≡ greeted s
    pub registers :
        (node : NodeInfo) (s : S)
        → d.members ((d.register_node node s).1) ≡ insert node.address node (d.members s)
    pub greeted_register :
        (node : NodeInfo) (s : S) → greeted ((d.register_node node s).1) ≡ greeted s
    pub accepts :
        (node : NodeInfo) (bytes : List ℕ) (s : S)
        → node.pk ≡ some bytes
        → (d.register_node node s).0 ≡ ok tt
    pub members_send : (node : NodeInfo) (s : S) → d.members (d.send_connect node s) ≡ d.members s
    pub greets :
        (node : NodeInfo) (s : S) → greeted (d.send_connect node s) ≡ greeted s ++ node.address ∷ []

-- Whether a number is in a list.
abbrev pub listed : ℕ → List ℕ → Bool
listed a [] = false
listed a (b ∷ bs) = a == b || listed a bs

listed-unknown :
    (a : ℕ) (other known : Dict NodeInfo)
    → listed a (unknown_addresses other known) ≡ (contains a other && not (contains a known))
listed-unknown a [] known = refl
listed-unknown a ((b, node) ∷ other) known = ground (arith, listed-unknown a other known)

-- How often a number is in a list.
abbrev pub times : ℕ → List ℕ → ℕ
times a [] = 0
times a (b ∷ bs) = if a == b then suc (times a bs) else times a bs

times-unknown :
    (a : ℕ) (other known : Dict NodeInfo)
    → IsDict other
    → times a (unknown_addresses other known)
      ≡ (if contains a other && not (contains a known) then 1 else 0)
times-unknown a [] known once = refl
times-unknown a ((b, node) ∷ other) known once =
    ground (arith, times-unknown a other known (once.1), once.0)

module _ {S : Type 0} (d : Discovery S) (greeted : S → List Address) (laws : IsDiscovery d greeted)
    (other : Dict NodeInfo) (net : IsNetwork other) where
  -- A node of the network that has been registered is greeted at the address it stands under.
  address_of :
      (x : Address) (node : NodeInfo) (ms : Dict NodeInfo)
      → node.address ≡ x
      → (get_node_info x (insert node.address node ms)).address ≡ x
  unfolding get_node_info
  address_of x node ms e = ground (arith, lookup-insert x node.address node ms)

  -- One turn of the loop.
  turn :
      (x : Address) (rest : List Address) (s : S)
      → contains x other ≡ true
      → (node : NodeInfo) × (s' : S) × (lookup x other ≡ some node)
        × (connect_unknown d other (x ∷ rest) s ≡ connect_unknown d other rest s')
        × (d.members s' ≡ insert x node (d.members s))
        × (greeted s' ≡ greeted s ++ x ∷ [])
  unfolding connect_unknown connect_with
  turn x rest s there =
      let (node, found) = contains-lookup x other there in
      let (at_x, bytes, key) =
        lookup-AllEntries (λ a n. (n.address ≡ a) × (bytes : List ℕ) × (n.pk ≡ some bytes)) x node
          other net found in
      let s₁ = (d.register_node node s).1 in
      let target = get_node_info x (d.members s₁) in
      (
        node,
        d.send_connect target s₁,
        found,
        rw (found, laws.accepts node bytes s key),
        laws.members_send target s₁
            ∙ laws.registers node s
            ∙ ap (λ (k : ℕ). insert k node (d.members s)) at_x,
        laws.greets target s₁
            ∙ rw
                (
                  laws.greeted_register node s,
                  laws.registers node s,
                  address_of x node (d.members s) at_x,
                )
                refl,
      )

  later :
      (a x : Address) (rest : List Address) (node : NodeInfo) (ms : Dict NodeInfo)
      → lookup x other ≡ some node
      → (if listed a rest then lookup a other else lookup a (insert x node ms))
        ≡ (if listed a (x ∷ rest) then lookup a other else lookup a ms)
  later a x rest node ms found = ground (arith, lookup-insert a x node ms)

  discovers :
      (addresses : List Address) (s : S)
      → ((a : Address) → listed a addresses ≡ true → contains a other ≡ true)
      → (a : Address)
      → ((connect_unknown d other addresses s).0 ≡ ok tt)
        × (lookup a (d.members ((connect_unknown d other addresses s).1))
            ≡ (if listed a addresses then lookup a other else lookup a (d.members s)))
        × (greeted ((connect_unknown d other addresses s).1) ≡ greeted s ++ addresses)
  unfolding connect_unknown
  discovers [] s there a = (refl, refl, sym (append-nil (greeted s)))
  discovers (x ∷ rest) s there a =
      let (node, s', found, run, now, sent) = turn x rest s (there x (ground arith)) in
      let (fine, seen, all_sent) = discovers rest s' (λ b l. there b (ground (arith, l))) a in
      (
        ap (λ (r : Result (Unit {0}) × S). r.0) run ∙ fine,
        ap (λ (r : Result (Unit {0}) × S). lookup a (d.members r.1)) run
            ∙ seen
            ∙ rw now (later a x rest node (d.members s) found),
        ap (λ (r : Result (Unit {0}) × S). greeted r.1) run
            ∙ all_sent
            ∙ rw sent (append_assoc (greeted s) _ _),
      )

module _ {S : Type 0} (d : Discovery S) (greeted : S → List Address)
    (laws : IsDiscovery d greeted) where
  -- The server once the key and the role of the origin are written.
  abbrev pub noted : ConnectMessage → NodeInfo → Bool → S → S
  noted msg origin is_registered s = write_origin d (updated_origin msg origin) is_registered s

  noted-greeted :
      (node : NodeInfo) (is_registered : Bool) (s : S)
      → greeted (write_origin d node is_registered s) ≡ greeted s
  unfolding write_origin
  noted-greeted node false s = refl
  noted-greeted node true s = laws.greeted_with_nodes _ _ s

  pub handle_connect-discovers :
      (msg : ConnectMessage) (origin : NodeInfo) (is_registered : Bool) (s : S) (a : Address)
      → IsNetwork msg.network_state
      → ((handle_connect d msg origin is_registered s).0 ≡ ok tt)
        × (lookup a (d.members ((handle_connect d msg origin is_registered s).1))
            ≡ first
                (lookup a (d.members (noted msg origin is_registered s)))
                (lookup a msg.network_state))
        × (greeted ((handle_connect d msg origin is_registered s).1)
            ≡ greeted s
              ++ unknown_addresses msg.network_state (d.members (noted msg origin is_registered s)))
  unfolding handle_connect
  handle_connect-discovers msg origin is_registered s a net =
      let s₁ = noted msg origin is_registered s in
      let other = msg.network_state in
      let known = d.members s₁ in
      let (fine, seen, all_sent) =
        discovers d greeted laws other net (unknown_addresses other known) s₁
          (λ b l. ground (arith, l, listed-unknown b other known)) a in
      (
        fine,
        seen ∙ ground (arith, listed-unknown a other known),
        all_sent ∙ rw (noted-greeted (updated_origin msg origin) is_registered s),
      )

  -- On a connect message whose network has each node under its own address, once, and with its key, a server
  -- raises nothing. It then knows at each address the node that it knew there (the origin with the key and
  -- the role of the message, if it is a registered one), or else the node of the message; and it has sent
  -- exactly one more connect message to each address of the message that was unknown to it, and none to any
  -- other, whatever the order in which it goes through the addresses. This is shown for the methods of any
  -- kind of server that keep to `IsDiscovery`, as those of the core servers and of the edge servers do.
  pub handle_connect_lem :
      (msg : ConnectMessage) (origin : NodeInfo) (is_registered : Bool) (s : S) (a : Address)
      → IsNetwork msg.network_state
      → IsDict msg.network_state
      → ((handle_connect d msg origin is_registered s).0 ≡ ok tt)
        × (lookup a (d.members ((handle_connect d msg origin is_registered s).1))
            ≡ first
                (lookup a (d.members (noted msg origin is_registered s)))
                (lookup a msg.network_state))
        × (new : List Address) × (greeted ((handle_connect d msg origin is_registered s).1)
            ≡ greeted s ++ new)
        × ((b : Address)
            → times b new ≡ (
                if contains b msg.network_state
                  && not (contains b (d.members (noted msg origin is_registered s)))
                then 1
                else 0))
  handle_connect_lem msg origin is_registered s a net once =
      let known = d.members (noted msg origin is_registered s) in
      let (fine, seen, sent) = handle_connect-discovers msg origin is_registered s a net in
      (
        fine,
        seen,
        unknown_addresses msg.network_state known,
        sent,
        λ b. times-unknown b msg.network_state known once,
      )
