-- ===== src/Billing/Clients.antt =====
-- The set of clients of `SharedBilling`, as clients are included and excluded.
use private_billings.Prelude.{
  ◌≡◌, ◌≢◌, refl, true, false, List, [], ◌∷◌, ◌++◌, arith, ◌==◌, if◌then◌else◌, Bool-cases, inl,
  inr,
}
use private_billings.Cycle.{ClientId}
use private_billings.Hiding.Openfhe.{Fhe}
use private_billings.Billing.{
  SharedBilling, has_client, remove_client, include_client, exclude_clients,
}

abbrev pub IsClientSet : List ClientId → Type 0
IsClientSet [] = Unit
IsClientSet (c ∷ cs) = (has_client c cs ≡ false) × IsClientSet cs

has_client-append :
    (c d : ClientId) (cs : List ClientId)
    → has_client c (cs ++ d ∷ []) ≡ (if c == d then true else has_client c cs)
has_client-append c d [] = refl
has_client-append c d (e ∷ cs) = ground (arith, has_client-append c d cs)

append-IsClientSet :
    (c : ClientId) (cs : List ClientId)
    → has_client c cs ≡ false
    → IsClientSet cs
    → IsClientSet (cs ++ c ∷ [])
append-IsClientSet c [] h s = (refl, tt)
append-IsClientSet c (d ∷ cs) h s =
    ground (arith, has_client-append d c cs, append-IsClientSet c cs)

has_client-remove_ne :
    (c d : ClientId) (cs : List ClientId)
    → c ≢ d
    → has_client c (remove_client d cs) ≡ has_client c cs
has_client-remove_ne c d [] h = refl
has_client-remove_ne c d (e ∷ cs) h = ground (arith, has_client-remove_ne c d cs h)

has_client-remove_self :
    (c : ClientId) (cs : List ClientId) → IsClientSet cs → has_client c (remove_client c cs) ≡ false
has_client-remove_self c [] s = refl
has_client-remove_self c (e ∷ cs) s = ground (arith, has_client-remove_self c cs)

pub remove-IsClientSet :
    (c : ClientId) (cs : List ClientId) → IsClientSet cs → IsClientSet (remove_client c cs)
remove-IsClientSet c [] s = tt
remove-IsClientSet c (e ∷ cs) s =
    ground (arith, remove-IsClientSet c cs, has_client-remove_ne e c cs)

module _ {N : Type 0} {F : Fhe N} (c : ClientId) (b : SharedBilling F) where
  pub include_client-IsClientSet : IsClientSet b.clients → IsClientSet (include_client c b).clients
  unfolding include_client
  include_client-IsClientSet s = elim (Bool-cases (has_client c b.clients)) [
    | inl old ↦ rw old s
    | inr new ↦ rw new (append-IsClientSet c b.clients new s)
  ]

  pub exclude_clients-IsClientSet :
      IsClientSet b.clients → IsClientSet (exclude_clients c b).clients
  unfolding exclude_clients
  exclude_clients-IsClientSet s = elim (Bool-cases (has_client c b.clients)) [
    | inl old ↦ rw old (remove-IsClientSet c b.clients s)
    | inr new ↦ rw new s
  ]

  pub has_client-include_client :
      (d : ClientId)
      → has_client d (include_client c b).clients
        ≡ (if d == c then true else has_client d b.clients)
  unfolding include_client
  has_client-include_client d = ground (arith, has_client-append d c b.clients)

  -- Including a client adds it and no other, excluding one takes it out and no other, in a set in which no
  -- client stands twice; what is recorded stays.
  pub membership :
      (d : ClientId)
      → IsClientSet b.clients
      → (has_client d (include_client c b).clients
          ≡ (if d == c then true else has_client d b.clients))
        × (has_client d (exclude_clients c b).clients
            ≡ (if d == c then false else has_client d b.clients))
        × ((include_client c b).client_data ≡ b.client_data)
        × ((exclude_clients c b).client_data ≡ b.client_data)
        × ((include_client c b).cycle_contexts ≡ b.cycle_contexts)
        × ((exclude_clients c b).cycle_contexts ≡ b.cycle_contexts)
  unfolding include_client exclude_clients
  membership d s = ground (
    arith,
    has_client-append d c b.clients,
    has_client-remove_ne d c b.clients,
    has_client-remove_self c b.clients,
  )
