-- ===== src/Matcher/Passes.antt =====
-- One whole pass of `matchAll` (client/scripts/matcher-service.ts): the sizes taken, the growth of the
-- pending fills, the two orders of a result, and the pairs left over.
use kryon_v.Base.{
  ℕ, ◌+◌, ◌≤◌, ◌<◌, ◌≡◌, Bool, true, false, ◌||◌, List, [], ◌∷◌, arith, ◌==◌, Text, text_eq, All,
  All-append,
}
use kryon_v.Store.{Order}
use kryon_v.Matcher.{MatchResult, Pending, remaining, add, walk, walk_all}
use kryon_v.Matcher.Walk.{
  part, taken, taken-append, trade_lem, add_lem, Keyed, Within, trade-Within, walk_ind,
}

abbrev pub Grows : Pending → Pending → Type 0
Grows p q = (k : Text) → p k ≤ q k

remaining-Grows : (p q : Pending) (o : Order) → Grows p q → remaining q o ≤ remaining p o
unfolding remaining
remaining-Grows p q o g = omega (arith, g o.id)

module _ (stop : Order → Order → Bool) where
  -- No trade is left between two orders: one owner, a `break`, or one of them filled.
  abbrev pub settled : Pending → Order → Order → Bool
  settled p o r = text_eq r.owner o.owner || stop o r || remaining p o == 0 || remaining p r == 0

  pub settled-Grows :
      (p q : Pending) (o r : Order) → Grows p q → settled p o r ≡ true → settled q o r ≡ true
  settled-Grows p q o r g h = ground (arith, remaining-Grows p q o g, remaining-Grows p q r g)

  -- Behind an order that stops the loop stand only orders that stop it too.
  abbrev pub StopClosed : Order → List Order → Type 0
  StopClosed o [] = Unit
  StopClosed o (r ∷ rs) = (stop o r ≡ true → All (λ s. stop o s ≡ true) rs) × StopClosed o rs

module _ (stop : Order → Order → Bool) (result : Order → Order → ℕ → MatchResult) where
  -- The two orders of a result are the two that traded.
  abbrev pub Pairs : Type 0
  Pairs =
      (k : Text) (o r : Order) (n : ℕ)
      → part k (result o r n).maker.id (result o r n).fill_size
          + part k (result o r n).taker.id (result o r n).fill_size
        ≡ part k o.id n + part k r.id n

  walk-taken :
      Pairs
      → (o : Order) (k : Text) (p : Pending) (rs : List Order)
      → (walk stop result p o rs).0 k ≡ p k + taken k (walk stop result p o rs).1
  walk-taken pairs o k =
      walk_ind stop result o (λ p rs out. out.0 k ≡ p k + taken k out.1) (λ p. omega arith)
        (λ p r rs out same h. h) (λ p r rs apart halt. omega arith) (λ p r rs out apart go dry h. h)
        (λ p r rs n apart go e full.
          omega (arith, pairs k o r n, add_lem k o.id n (add r.id n p), add_lem k r.id n p))
        (λ p r rs n out apart go e h.
          omega (arith, pairs k o r n, add_lem k o.id n (add r.id n p), add_lem k r.id n p))

  pub walk-Grows : (o : Order) (p : Pending) (rs : List Order) → Grows p (walk stop result p o rs).0
  walk-Grows o =
      walk_ind stop result o (λ p rs out. Grows p out.0) (λ p k. omega arith)
        (λ p r rs out same h. h) (λ p r rs apart halt k. omega arith)
        (λ p r rs out apart go dry h. h)
        (λ p r rs n apart go e full k.
          omega (arith, add_lem k o.id n (add r.id n p), add_lem k r.id n p))
        (λ p r rs n out apart go e h k.
          omega (arith, h k, add_lem k o.id n (add r.id n p), add_lem k r.id n p))

  walk-Within :
      (table : Text → Order) (o : Order)
      → table o.id ≡ o
      → (p : Pending) (rs : List Order) → Keyed table rs
      → Within table p
      → Within table (walk stop result p o rs).0
  walk-Within table o to =
      walk_ind stop result o (λ p rs out. Keyed table rs → Within table p → Within table out.0)
        (λ p ks w. w) (λ p r rs out same h ks. h ks.1) (λ p r rs apart halt ks w. w)
        (λ p r rs out apart go dry h ks. h ks.1)
        (λ p r rs n apart go e full ks. trade-Within table p o r n to ks.0 apart e)
        (λ p r rs n out apart go e h ks w. h ks.1 (trade-Within table p o r n to ks.0 apart e w))

  -- What holds of each result that two orders of the pass may make.
  abbrev pub Makes : (MatchResult → Type 0) → Order → Order → Type 0
  Makes P o r =
      (n : ℕ) → text_eq r.owner o.owner ≡ false → stop o r ≡ false → 0 < n → P (result o r n)

  walk-All :
      (P : MatchResult → Type 0) (o : Order) (p : Pending) (rs : List Order)
      → All (Makes P o) rs
      → All P (walk stop result p o rs).1
  walk-All P o =
      walk_ind stop result o (λ p rs out. All (Makes P o) rs → All P out.1) (λ p h. tt)
        (λ p r rs out same ih h. ih h.1) (λ p r rs apart halt h. tt)
        (λ p r rs out apart go dry ih h. ih h.1)
        (λ p r rs n apart go e full h. (h.0 n apart go (trade_lem p o r n e).0, tt))
        (λ p r rs n out apart go e ih h. (h.0 n apart go (trade_lem p o r n e).0, ih h.1))

  pub walk_all-taken :
      Pairs
      → (k : Text) (p : Pending) (os rs : List Order)
      → (walk_all stop result p os rs).0 k ≡ p k + taken k (walk_all stop result p os rs).1
  unfolding walk_all
  walk_all-taken pairs k p [] rs = omega arith
  walk_all-taken pairs k p (o ∷ os) rs =
      let (q, out) = walk stop result p o rs in
      omega (
        arith,
        walk-taken pairs o k p rs,
        walk_all-taken pairs k q os rs,
        taken-append k out (walk_all stop result q os rs).1,
      )

  pub walk_all-Grows : (p : Pending) (os rs : List Order) → Grows p (walk_all stop result p os rs).0
  unfolding walk_all
  walk_all-Grows p [] rs k = omega arith
  walk_all-Grows p (o ∷ os) rs k =
      omega (arith, walk-Grows o p rs k, walk_all-Grows (walk stop result p o rs).0 os rs k)

  pub walk_all-Within :
      (table : Text → Order) (p : Pending) (os rs : List Order)
      → Keyed table os
      → Keyed table rs
      → Within table p
      → Within table (walk_all stop result p os rs).0
  unfolding walk_all
  walk_all-Within table p [] rs ko kr w = w
  walk_all-Within table p (o ∷ os) rs (to, ko) kr w =
      walk_all-Within table (walk stop result p o rs).0 os rs ko kr
        (walk-Within table o to p rs kr w)

  pub walk_all-All :
      (P : MatchResult → Type 0) (p : Pending) (os rs : List Order)
      → All (λ o. All (Makes P o) rs) os
      → All P (walk_all stop result p os rs).1
  unfolding walk_all
  walk_all-All P p [] rs h = tt
  walk_all-All P p (o ∷ os) rs (h, hs) =
      let (q, out) = walk stop result p o rs in
      All-append P out (walk_all stop result q os rs).1 (walk-All P o p rs h)
        (walk_all-All P q os rs hs)
