-- ===== src/Matcher/Settle.antt =====
-- The pairs of orders that are left after a pass of `matchAll` (client/scripts/matcher-service.ts).
use kryon_v.Base.{
  ℕ, ◌≡◌, refl, Bool, true, false, ◌||◌, some, List, [], ◌∷◌, arith, ◌==◌, text_eq, text_eq_refl,
  All, All-map,
}
use kryon_v.Store.{Order}
use kryon_v.Matcher.{MatchResult, Pending, remaining, add, trade, walk, walk_all}
use kryon_v.Matcher.Walk.{trade-none, add_lem, walk_ind}
use kryon_v.Matcher.Passes.{Grows, StopClosed, settled, settled-Grows, walk_all-Grows}

-- Of two orders that have traded, one is filled.
trade_fills :
    (p : Pending) (o r : Order) (n : ℕ)
    → trade p o r ≡ some n
    → let p' = add o.id n (add r.id n p) in (remaining p' o == 0 || remaining p' r == 0) ≡ true
unfolding trade remaining
trade_fills p o r n e = ground (
  arith,
  add_lem o.id o.id n (add r.id n p),
  add_lem r.id o.id n (add r.id n p),
  add_lem o.id r.id n p,
  add_lem r.id r.id n p,
  text_eq_refl o.id,
  text_eq_refl r.id,
)

All-of {ℓ κ} : {A : Type ℓ} (P : A → Type κ) → ((a : A) → P a) → (xs : List A) → All P xs
All-of P f [] = tt
All-of P f (x ∷ xs) = (f x, All-of P f xs)

module _ (stop : Order → Order → Bool) (result : Order → Order → ℕ → MatchResult) (o : Order) where
  abbrev Done : Pending → Order → Type 0
  Done q r = settled stop q o r ≡ true

  -- The statement of the induction: what is settled at the end of the loop.
  abbrev Settles : Pending → List Order → Pending × List MatchResult → Type 0
  Settles p rs out = Grows p out.0 × (StopClosed stop o rs → All (Done out.0) rs)

  grown : (n : ℕ) (p : Pending) (r : Order) → Grows p (add o.id n (add r.id n p))
  grown n p r k = omega (arith, add_lem k o.id n (add r.id n p), add_lem k r.id n p)

  Settles-hit :
      (p : Pending) (r : Order) (rs : List Order) (n : ℕ) (out : Pending × List MatchResult)
      → text_eq r.owner o.owner ≡ false
      → stop o r ≡ false
      → trade p o r ≡ some n
      → Settles (add o.id n (add r.id n p)) rs out
      → Settles p (r ∷ rs) (out.0, result o r n ∷ out.1)
  Settles-hit p r rs n out apart go e (g, h) = (
    λ k. omega (arith, g k, grown n p r k),
    λ c. (
      settled-Grows stop (add o.id n (add r.id n p)) out.0 o r g
          (ground (arith, trade_fills p o r n e)),
      h c.1,
    ),
  )

  walk-Settles : (p : Pending) (rs : List Order) → Settles p rs (walk stop result p o rs)
  walk-Settles =
      walk_ind stop result o Settles (λ p. (λ k. omega arith, λ c. tt))
        (λ p r rs out same (g, h). (g, λ c. (rw same refl, h c.1)))
        (λ p r rs apart halt. (
          λ k. omega arith,
          λ c. (
            rw (apart, halt) refl,
            All-map (λ s. stop o s ≡ true) (Done p) (λ s e. ground arith) rs (c.0 halt),
          ),
        ))
        (λ p r rs out apart go dry (g, h). (
          g,
          λ c. (settled-Grows stop p out.0 o r g (ground (arith, trade-none p o r dry)), h c.1),
        ))
        (λ p r rs n apart go e full. (
          grown n p r,
          λ c. All-of (Done (add o.id n (add r.id n p))) (λ s. ground arith) (r ∷ rs),
        ))
        Settles-hit

module _ (stop : Order → Order → Bool) where
  abbrev pub AllSettled : Pending → List Order → List Order → Type 0
  AllSettled q os rs = All (λ o. All (λ r. settled stop q o r ≡ true) rs) os

  pub AllSettled-Grows :
      (p q : Pending) (os rs : List Order) → Grows p q → AllSettled p os rs → AllSettled q os rs
  AllSettled-Grows p q os rs g =
      All-map (λ o. All (λ r. settled stop p o r ≡ true) rs)
        (λ o. All (λ r. settled stop q o r ≡ true) rs)
        (λ o.
          All-map (λ r. settled stop p o r ≡ true) (λ r. settled stop q o r ≡ true)
            (λ r. settled-Grows stop p q o r g) rs)
        os

module _ (stop : Order → Order → Bool) (result : Order → Order → ℕ → MatchResult) where
  -- After a pass every pair of its orders is settled, where the resting orders are so sorted that a
  -- `break` loses nothing.
  pub walk_all-AllSettled :
      (p : Pending) (os rs : List Order)
      → All (λ o. StopClosed stop o rs) os
      → AllSettled stop (walk_all stop result p os rs).0 os rs
  unfolding walk_all
  walk_all-AllSettled p [] rs h = tt
  walk_all-AllSettled p (o ∷ os) rs (h, hs) =
      let q = (walk stop result p o rs).0 in
      let (_, done) = walk-Settles stop result o p rs in
      (
        All-map (λ r. settled stop q o r ≡ true) (λ r. settled stop _ o r ≡ true)
            (λ r. settled-Grows stop q _ o r (walk_all-Grows stop result q os rs)) rs (done h),
        walk_all-AllSettled q os rs hs,
      )
