-- ===== src/Client/Bounds.antt =====
-- The number and the keys of the tracked orders under the operations of client/stores/orders.ts.
use kryon_v.Base.{
  ℕ, zero, suc, ◌≤◌, ◌≡◌, Bool, true, false, not, Option, List, [], ◌∷◌, map, filterb, take, length,
  length-take, length-map, Text, All, All-map, All-filterb, All-filterb_self, Bool-cases, inl, inr,
  arith,
}
use kryon_v.Signing.{OrderIntent}
use kryon_v.Client.{
  TrackedStatus, TrackedOrder, same_order, add_order, set_status, cancel_order, mark_filled,
}

-- No order of the list has the key of another one.
abbrev pub Differs : TrackedOrder → TrackedOrder → Type 0
Differs o p = same_order o.intent.owner o.intent.nonce p ≡ false

abbrev pub Distinct : List TrackedOrder → Type 0
Distinct [] = Unit
Distinct (o ∷ os) = All (Differs o) os × Distinct os

abbrev pub IsTracked : List TrackedOrder → Type 0
IsTracked orders = (length orders ≤ 100) × Distinct orders

All-take :
    (P : TrackedOrder → Type 0) (n : ℕ) (os : List TrackedOrder) → All P os → All P (take n os)
All-take P zero os h = tt
All-take P (suc n) [] h = tt
All-take P (suc n) (o ∷ os) (h, hs) = (h, All-take P n os hs)

Distinct-take : (n : ℕ) (os : List TrackedOrder) → Distinct os → Distinct (take n os)
Distinct-take zero os h = tt
Distinct-take (suc n) [] h = tt
Distinct-take (suc n) (o ∷ os) (h, hs) = (All-take (Differs o) n os h, Distinct-take n os hs)

pub Distinct-filterb :
    (p : TrackedOrder → Bool) (os : List TrackedOrder) → Distinct os → Distinct (filterb p os)
Distinct-filterb p [] h = tt
Distinct-filterb p (o ∷ os) (h, hs) = elim (Bool-cases (p o)) [
  | inl e ↦ rw e (All-filterb (Differs o) p os h, Distinct-filterb p os hs)
  | inr e ↦ rw e (Distinct-filterb p os hs)
]

not-true : (b : Bool) → not b ≡ true → b ≡ false
not-true b h = ground arith

pub add_order-IsTracked :
    (now_ms : ℕ) (intent : OrderIntent) (os : List TrackedOrder)
    → IsTracked os
    → IsTracked (add_order now_ms intent os)
unfolding add_order
add_order-IsTracked now_ms intent os (few, apart) =
    let others = filterb (λ o. not (same_order intent.owner intent.nonce o)) os in
    let fresh =
      All-map (λ o. not (same_order intent.owner intent.nonce o) ≡ true)
        (λ o. same_order intent.owner intent.nonce o ≡ false)
        (λ o. not-true (same_order intent.owner intent.nonce o)) others (All-filterb_self _ os) in
    (
      omega (arith, length-take 99 others),
      (All-take _ 99 others fresh, Distinct-take 99 others (Distinct-filterb _ os apart)),
    )

-- A change of status keeps the keys.
set_status_intent :
    (status : TrackedStatus) (nonce : ℕ) (owner : Option Text) (o : TrackedOrder)
    → (set_status status nonce owner o).intent ≡ o.intent
unfolding set_status
set_status_intent status nonce owner o = ground arith

module _ (f : TrackedOrder → TrackedOrder)
    (same : (o : TrackedOrder) → (f o).intent ≡ o.intent) where
  Differs-map :
      (o : TrackedOrder) (os : List TrackedOrder)
      → All (Differs o) os
      → All (Differs (f o)) (map f os)
  Differs-map o [] h = tt
  Differs-map o (p ∷ os) (h, hs) = (rw (same o, same p) h, Differs-map o os hs)

  map-IsTracked : (os : List TrackedOrder) → Distinct os → Distinct (map f os)
  map-IsTracked [] h = tt
  map-IsTracked (o ∷ os) (h, hs) = (Differs-map o os h, map-IsTracked os hs)

  mapped : (os : List TrackedOrder) → IsTracked os → IsTracked (map f os)
  mapped os (few, apart) = (rw (length-map f os) few, map-IsTracked os apart)

pub cancel_order-IsTracked :
    (nonce : ℕ) (owner : Option Text) (os : List TrackedOrder)
    → IsTracked os
    → IsTracked (cancel_order nonce owner os)
unfolding cancel_order
cancel_order-IsTracked nonce owner os h = mapped _ (set_status_intent _ nonce owner) os h

pub mark_filled-IsTracked :
    (nonce : ℕ) (owner : Option Text) (os : List TrackedOrder)
    → IsTracked os
    → IsTracked (mark_filled nonce owner os)
unfolding mark_filled
mark_filled-IsTracked nonce owner os h = mapped _ (set_status_intent _ nonce owner) os h
