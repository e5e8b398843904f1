-- ===== src/Matcher/Walk.antt =====
-- One inner loop of `matchAll` (client/scripts/matcher-service.ts): an induction rule, and the sizes
-- that it takes from an order.
use kryon_v.Base.{
  ℕ, ◌+◌, ◌-◌, ◌≤◌, ◌<◌, ◌≡◌, ◌≢◌, sym, ap, ◌∙◌, Bool, true, false, ◌||◌, none, some, List, [], ◌∷◌,
  ◌++◌, arith, ◌==◌, if◌then◌else◌, Text, text_eq, text_eq_iff, All, Bool-cases, Option-cases, inl,
  inr,
}
use kryon_v.Store.{Order}
use kryon_v.Matcher.{MatchResult, Pending, remaining, add, trade, walk}

-- The size that a list of fills takes from the order with this id.
abbrev pub part : Text → Text → ℕ → ℕ
part k id n = if text_eq k id then n else 0

abbrev pub taken : Text → List MatchResult → ℕ
taken k [] = 0
taken k (m ∷ ms) = part k m.maker.id m.fill_size + part k m.taker.id m.fill_size + taken k ms

pub taken-append :
    (k : Text) (xs ys : List MatchResult) → taken k (xs ++ ys) ≡ taken k xs + taken k ys
taken-append k [] ys = omega arith
taken-append k (x ∷ xs) ys = omega (arith, taken-append k xs ys)

-- What the trade of two orders leaves.
pub trade_lem :
    (p : Pending) (o r : Order) (n : ℕ)
    → trade p o r ≡ some n
    → (0 < n) × (n ≤ remaining p o) × (n ≤ remaining p r)
unfolding trade
trade_lem p o r n h = ground arith

pub trade-none :
    (p : Pending) (o r : Order)
    → trade p o r ≡ none
    → (remaining p o == 0 || remaining p r == 0) ≡ true
unfolding trade
trade-none p o r h = ground arith

pub add_lem : (k id : Text) (n : ℕ) (p : Pending) → add id n p k ≡ p k + part k id n
unfolding add
add_lem k id n p = ground arith

-- An id is the key of an order: `table` gives the row of each id.
abbrev pub Keyed : (Text → Order) → List Order → Type 0
Keyed table os = All (λ o. table o.id ≡ o) os

-- No id has more pending than its order has left to fill.
abbrev pub Within : (Text → Order) → Pending → Type 0
Within table p = (k : Text) → p k ≤ (table k).size - (table k).filled_size

false-ne-true : false ≡ true → ⊥
false-ne-true h = cc

-- Two orders of different owners have different ids, so one trade adds to each once.
pub trade-Within :
    (table : Text → Order) (p : Pending) (o r : Order) (n : ℕ)
    → table o.id ≡ o
    → table r.id ≡ r
    → text_eq r.owner o.owner ≡ false
    → trade p o r ≡ some n
    → Within table p
    → Within table (add o.id n (add r.id n p))
unfolding remaining
trade-Within table p o r n to tr apart e w k =
    let (_, lo, lr) = trade_lem p o r n e in
    let ne : o.id ≢ r.id = λ same.
      false-ne-true
        (sym apart ∙ (text_eq_iff _ _).1 (ap (λ x. x.owner) (sym tr ∙ ap table (sym same) ∙ to))) in
    let in_o = text_eq_iff k o.id in
    let in_r = text_eq_iff k r.id in
    let sum_o = add_lem k o.id n (add r.id n p) in
    let sum_r = add_lem k r.id n p in
    elim (Bool-cases (text_eq k o.id)) [
      | inl ko ↦
          let e_k = in_o.0 ko in
          ground (arith, in_r, sum_o, sum_r, ap table e_k ∙ to, ap p e_k, w k)
      | inr nko ↦ elim (Bool-cases (text_eq k r.id)) [
        | inl kr ↦
            let e_k = in_r.0 kr in ground (arith, sum_o, sum_r, ap table e_k ∙ tr, ap p e_k, w k)
        | inr nkr ↦ ground (arith, sum_o, sum_r, w k)
      ]
    ]

-- The six ways in which a round goes, as a rule of induction on the inner loop.
module _ {κ} (stop : Order → Order → Bool) (result : Order → Order → ℕ → MatchResult) (o : Order)
    (M : Pending → List Order → Pending × List MatchResult → Type κ)
    (empty : (p : Pending) → M p [] (p, []))
    (own : (p : Pending) (r : Order) (rs : List Order) (out : Pending × List MatchResult)
      → text_eq r.owner o.owner ≡ true
      → M p rs out
      → M p (r ∷ rs) out)
    (stopped : (p : Pending) (r : Order) (rs : List Order)
      → text_eq r.owner o.owner ≡ false
      → stop o r ≡ true
      → M p (r ∷ rs) (p, []))
    (dry : (p : Pending) (r : Order) (rs : List Order) (out : Pending × List MatchResult)
      → text_eq r.owner o.owner ≡ false
      → stop o r ≡ false
      → trade p o r ≡ none
      → M p rs out
      → M p (r ∷ rs) out)
    (last : (p : Pending) (r : Order) (rs : List Order) (n : ℕ)
      → text_eq r.owner o.owner ≡ false
      → stop o r ≡ false
      → trade p o r ≡ some n
      → (remaining (add o.id n (add r.id n p)) o == 0) ≡ true
      → M p (r ∷ rs) (add o.id n (add r.id n p), result o r n ∷ []))
    (hit : (p : Pending) (r : Order) (rs : List Order) (n : ℕ) (out : Pending × List MatchResult)
      → text_eq r.owner o.owner ≡ false
      → stop o r ≡ false
      → trade p o r ≡ some n
      → M (add o.id n (add r.id n p)) rs out
      → M p (r ∷ rs) (out.0, result o r n ∷ out.1)) where
  pub walk_ind : (p : Pending) (rs : List Order) → M p rs (walk stop result p o rs)
  unfolding walk
  walk_ind p [] = empty p
  walk_ind p (r ∷ rs) = elim (Bool-cases (text_eq r.owner o.owner)) [
    | inl same ↦ rw (same, walk) (own p r rs (walk stop result p o rs) same (walk_ind p rs))
    | inr apart ↦ elim (Bool-cases (stop o r)) [
      | inl halt ↦ rw (apart, walk, halt) (stopped p r rs apart halt)
      | inr go ↦ elim (Option-cases (trade p o r)) [
        | inl nothing ↦
            rw (apart, walk, go, nothing)
              (dry p r rs (walk stop result p o rs) apart go nothing (walk_ind p rs))
        | inr (n, e) ↦
            let p' = add o.id n (add r.id n p) in
            elim (Bool-cases (remaining p' o == 0)) [
              | inl full ↦ rw (apart, walk, go, e, full) (last p r rs n apart go e full)
              | inr more ↦
                  rw (apart, walk, go, e, more)
                    (hit p r rs n (walk stop result p' o rs) apart go e (walk_ind p' rs))
            ]
      ]
    ]
  ]
