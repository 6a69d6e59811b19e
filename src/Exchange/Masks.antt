-- ===== src/Exchange/Masks.antt =====
-- The masks of core servers that have exchanged their seeds.
use private_billings.Prelude.{ℕ, ◌≡◌, ◌≢◌, refl, sym, true, List, [], ◌∷◌, map, All, All-of, arith}
use mathlib.Core.Path.{subst}
use private_billings.Python.Raises.{ok, traverse}
use private_billings.Number.{Number}
use private_billings.Number.Laws.{IsExact}
use private_billings.Vector.{new}
use private_billings.Masking.{
  Pcg64, Int64Convertor, SharedMaskGenerator, new_generator, is_stable, get_seed_for_peer,
  consume_foreign_seed, generate_masks, unmask,
}
use private_billings.Masking.Exchange.{All-over}
use private_billings.Masking.Unmask.{unmask-generate_masks}
use private_billings.Hiding.Openfhe.{Fhe}
use private_billings.Hiding.Parameters.{Generation}
use private_billings.Network.{Address, UserType, core}
use private_billings.CoreServer.{CoreServer, new_core_server}
use private_billings.CoreServer.Connect.{start, send_connect}
use private_billings.Exchange.{Step, began, connected, seeded, Reached, new_servers, later}
use private_billings.Exchange.Received.{IsLasting, receive_connect-keeps, receive_seed-keeps}
use private_billings.Exchange.Given.{updated, IsSafe, Reached-IsSafe}
use private_billings.Exchange.Agreed.{server_id, AreCores, parties, parties_of_reached-IsAgreed}

module _ {N : Type 0} (convertor : Int64Convertor N) where
  -- The generator has this convertor.
  abbrev Converts : SharedMaskGenerator N → Type 0
  Converts mg = mg.convertor ≡ convertor

  convertor_lasts : IsLasting Converts
  unfolding get_seed_for_peer
  convertor_lasts fresh id mg new h = h

module _ {N : Type 0} {F : Fhe N} (g : Generation F) (sha256 : List ℕ → ℕ)
    (key_of : Address → List ℕ) (role_of : Address → UserType) (convertor : Int64Convertor N) where
  Step-Converts :
      (servers servers' : Address → CoreServer F)
      → Step g sha256 key_of role_of servers servers'
      → IsSafe sha256 key_of role_of servers
      → ((k : Address) → Converts convertor (servers k).mg)
      → (k : Address) → Converts convertor (servers' k).mg
  unfolding start send_connect consume_foreign_seed
  Step-Converts servers _ (began j edge _ peer) safe h =
      updated (λ k x. Converts convertor x.mg) j _ servers (h j) h
  Step-Converts servers _ (connected j random fresh msg _ peer t) safe h =
      updated (λ k x. Converts convertor x.mg) j _ servers
        (receive_connect-keeps sha256 (key_of j) (Converts convertor) g random fresh msg (servers j)
          (convertor_lasts convertor) (h j))
        h
  Step-Converts servers _ (seeded i j fresh seed node _ sender peer sent at_j) safe h =
      updated (λ k x. Converts convertor x.mg) j _ servers
        (receive_seed-keeps sha256 key_of role_of (key_of j) (Converts convertor) fresh seed i
          (servers j) (convertor_lasts convertor) (safe.sound j peer).known (h j) (h j))
        h

  Reached-Converts :
      {store : F.KeyStore} {servers : Address → CoreServer F}
      → Reached g sha256 key_of role_of convertor store servers
      → (k : Address) → Converts convertor (servers k).mg
  unfolding new_core_server new_generator
  Reached-Converts new_servers k = refl
  Reached-Converts (later r s) k =
      Step-Converts _ _ s (Reached-IsSafe sha256 key_of role_of g r) (λ k. Reached-Converts r k) k

some_party : {A B : Type 0} (f : A → B) (xs : List A) → xs ≢ [] → map f xs ≢ []
some_party f [] h e = h refl
some_party f (x ∷ xs) h e = absurd (ground (arith, e))

module _ {N : Type 0} ⦃n : Number N⦄ {F : Fhe N} (g : Generation F) (pcg64 : Pcg64)
    (sha256 : List ℕ → ℕ) (key_of : Address → List ℕ) (role_of : Address → UserType) where
  -- Core servers start and exchange connect messages and seeds, where a message that was sent may arrive late,
  -- more than once or never, connect messages are true of their senders and of the nodes they list, and the
  -- keys of the core servers have different ids. In exact arithmetic, if there is a core server and the
  -- convertor that all start with turns each draw into a number, then whenever the generators of all core
  -- servers are stable, `generate_masks` raises for none of them, for any initialisation vector and any size,
  -- and unmasking the masks of all yields a vector of that size that is 0 in every slot.
  pub unmask-masks_of_reached :
      (conv : ℕ → N) (convertor : Int64Convertor N) (store : F.KeyStore)
      → (servers : Address → CoreServer F) (cores : List Address) (iv size : ℕ) → IsExact N
      → cores ≢ []
      → ((v : ℕ) → convertor v ≡ ok (conv v))
      → ((a b : Address)
          → role_of a ≡ core
          → role_of b ≡ core
          → server_id sha256 key_of role_of a ≡ server_id sha256 key_of role_of b
          → a ≡ b)
      → AreCores role_of cores
      → Reached g sha256 key_of role_of convertor store servers
      → All (λ a. is_stable (servers a).mg ≡ true) cores
      → (masks : List (List N)) × (traverse
            (λ p. generate_masks pcg64 p.1 iv size)
            (parties sha256 key_of role_of servers cores)
          ≡ ok masks)
        × (unmask masks ≡ ok (new size n.nought))
  unmask-masks_of_reached conv convertor store servers cores iv size exact some_core converts ids
        are reached stable =
      let party : Address → ℕ × SharedMaskGenerator N =
        λ a. (server_id sha256 key_of role_of a, (servers a).mg) in
      unmask-generate_masks pcg64 conv (parties sha256 key_of role_of servers cores) iv size exact
        (some_party party cores some_core)
        (parties_of_reached-IsAgreed g sha256 key_of role_of convertor store servers cores ids are
          reached stable)
        (All-over (λ p. (v : ℕ) → p.1.convertor v ≡ ok (conv v)) party cores
          (All-of
            (λ a.
              subst (λ (c : Int64Convertor N). (v : ℕ) → c v ≡ ok (conv v))
                (sym (Reached-Converts g sha256 key_of role_of convertor reached a)) converts)
            cores))
