-- ===== src/Matcher/Book.antt =====
-- The list of matches that `matchAll` (client/scripts/matcher-service.ts) returns: sizes and prices.
use kryon_v.Base.{
  ◌+◌, ◌-◌, ◌≤◌, ◌<◌, ◌≡◌, refl, ◌∙◌, Bool, true, false, not, ◌||◌, List, [], ◌∷◌, ◌++◌, arith,
  ◌==◌, leb, if◌then◌else◌, filterb, Text, text_eq, text_eq_iff, All, All-append, All-map,
  All-filterb, All-filterb_self,
}
use kryon_v.Store.{Order}
use kryon_v.Matcher.{
  MatchResult, Pending, walk_all, never, market_result, too_high, limit_result, bid_before,
  ask_before, bids_of, asks_of, no_fills, sell_pass, buy_pass, limit_pass, match_all,
}
use kryon_v.Matcher.Sort.{sort-All}
use kryon_v.Matcher.Walk.{taken, taken-append, Keyed, Within}
use kryon_v.Matcher.Passes.{Pairs, Makes, walk_all-taken, walk_all-Within, walk_all-All}

market_result-Pairs : Pairs never market_result
market_result-Pairs k o r n = omega arith

limit_result-Pairs : Pairs too_high limit_result
limit_result-Pairs k o r n = ground arith

module _ (limits markets : List Order) (k : Text) where
  sell_pass-taken : (sell_pass limits markets).0 k ≡ taken k (sell_pass limits markets).1
  unfolding sell_pass
  sell_pass-taken =
      walk_all-taken never market_result market_result-Pairs k no_fills
        (filterb (λ o. not o.is_long) markets) (bids_of limits)
      ∙ omega arith

  buy_pass-taken :
      (buy_pass limits markets).0 k
      ≡ (sell_pass limits markets).0 k + taken k (buy_pass limits markets).1
  unfolding buy_pass
  buy_pass-taken =
      walk_all-taken never market_result market_result-Pairs k (sell_pass limits markets).0
        (filterb (λ o. o.is_long) markets) (asks_of limits)

  limit_pass_step :
      (limit_pass limits markets).0 k
      ≡ (buy_pass limits markets).0 k + taken k (limit_pass limits markets).1
  unfolding limit_pass
  limit_pass_step =
      walk_all-taken too_high limit_result limit_result-Pairs k (buy_pass limits markets).0
        (bids_of limits) (asks_of limits)

  -- The pending fills at the end are the fills of the matches.
  pub limit_pass-taken : (limit_pass limits markets).0 k ≡ taken k (match_all limits markets)
  unfolding match_all
  limit_pass-taken =
      let r1 = (sell_pass limits markets).1 in
      let r2 = (buy_pass limits markets).1 in
      let r3 = (limit_pass limits markets).1 in
      omega (
        arith,
        taken-append k r1 (r2 ++ r3),
        taken-append k r2 r3,
        sell_pass-taken,
        buy_pass-taken,
        limit_pass_step,
      )

bids_of-All : (P : Order → Type 0) (os : List Order) → All P os → All P (bids_of os)
bids_of-All P os h = sort-All P bid_before _ (All-filterb P (λ o. o.is_long) os h)

asks_of-All : (P : Order → Type 0) (os : List Order) → All P os → All P (asks_of os)
asks_of-All P os h = sort-All P ask_before _ (All-filterb P (λ o. not o.is_long) os h)

limit_pass-Within :
    (table : Text → Order) (limits markets : List Order)
    → Keyed table limits
    → Keyed table markets
    → Within table (limit_pass limits markets).0
unfolding sell_pass buy_pass limit_pass
limit_pass-Within table limits markets kl km =
    let key = λ (o : Order). table o.id ≡ o in
    let bids = bids_of-All key limits kl in
    let asks = asks_of-All key limits kl in
    let w1 =
      walk_all-Within never market_result table no_fills _ _
        (All-filterb key (λ o. not o.is_long) markets km) bids (λ k. omega arith) in
    let w2 =
      walk_all-Within never market_result table (sell_pass limits markets).0 _ _
        (All-filterb key (λ o. o.is_long) markets km) asks w1 in
    walk_all-Within too_high limit_result table (buy_pass limits markets).0 _ _ bids asks w2

-- No order is overfilled: where ids are keys (`table` gives the order of each), the matches of one run
-- take from each order at most what was left of it, market orders and both passes together.
pub match_all_within :
    (table : Text → Order) (limits markets : List Order)
    → Keyed table limits
    → Keyed table markets
    → (k : Text) → taken k (match_all limits markets) ≤ (table k).size - (table k).filled_size
match_all_within table limits markets kl km k =
    omega (arith, limit_pass-taken limits markets k, limit_pass-Within table limits markets kl km k)

-- What a match may be: two owners, two sides, a positive size, the maker's price, and that price
-- within the taker's limit, where 0 marks a market order, which has none.
abbrev pub IsFair : MatchResult → Type 0
IsFair m =
    (text_eq m.maker.owner m.taker.owner ≡ false)
    × (0 < m.fill_size)
    × (m.maker.is_long ≡ not m.taker.is_long)
    × (m.fill_price ≡ m.maker.limit_price)
    × ((m.taker.limit_price == 0
          || (if m.taker.is_long
              then leb m.fill_price m.taker.limit_price
              else leb m.taker.limit_price m.fill_price))
        ≡ true)

text_eq_comm : (s t : Text) → text_eq s t ≡ text_eq t s
text_eq_comm s t = ground (arith, text_eq_iff s t, text_eq_iff t s)

market-IsFair :
    (o r : Order)
    → o.limit_price ≡ 0
    → r.is_long ≡ not o.is_long
    → Makes never market_result IsFair o r
market-IsFair o r z side n apart go n0 = (apart, n0, side, refl, rw z refl)

limit-IsFair :
    (o r : Order) → o.is_long ≡ true → r.is_long ≡ false → Makes too_high limit_result IsFair o r
limit-IsFair o r so sr n apart go n0 = ground (arith, text_eq_comm o.owner r.owner)

All-both {ℓ κ} :
    {A : Type ℓ} (P Q : A → Type κ) (xs : List A) → All P xs → All Q xs → All (λ x. P x × Q x) xs
All-both P Q [] h k = tt
All-both P Q (x ∷ xs) h k = ((h.0, k.0), All-both P Q xs h.1 k.1)

-- All pairs of an order with one property and an order with another.
All-pairs :
    (P Q : Order → Type 0) (R : Order → Order → Type 0) (os rs : List Order)
    → ((o r : Order) → P o → Q r → R o r)
    → All P os
    → All Q rs
    → All (λ o. All (R o) rs) os
All-pairs P Q R os rs f ho hr =
    All-map P (λ o. All (R o) rs) (λ o p. All-map Q (R o) (λ r. f o r p) rs hr) os ho

module _ (limits markets : List Order) (priced : All (λ o. o.limit_price ≡ 0) markets) where
  market_side :
      (p : Pending) (b : Bool) (side : Order → Bool) (rs : List Order)
      → ((o : Order) → side o ≡ true → o.is_long ≡ not b)
      → All (λ r. r.is_long ≡ b) rs
      → All IsFair (walk_all never market_result p (filterb side markets) rs).1
  market_side p b side rs is_side resting =
      walk_all-All never market_result IsFair p (filterb side markets) rs (
        All-pairs (λ o. (o.limit_price ≡ 0) × (side o ≡ true)) (λ r. r.is_long ≡ b)
          (Makes never market_result IsFair) (filterb side markets) rs
          (λ o r (z, s) t. market-IsFair o r z (ground (arith, is_side o s)))
          (All-both (λ o. o.limit_price ≡ 0) (λ o. side o ≡ true) (filterb side markets)
            (All-filterb (λ o. o.limit_price ≡ 0) side markets priced)
            (All-filterb_self side markets))
          resting)

bids_long : (os : List Order) → All (λ o. o.is_long ≡ true) (bids_of os)
bids_long os = sort-All (λ o. o.is_long ≡ true) bid_before _ (All-filterb_self (λ o. o.is_long) os)

asks_short : (os : List Order) → All (λ o. o.is_long ≡ false) (asks_of os)
asks_short os =
    sort-All (λ o. o.is_long ≡ false) ask_before _
      (All-map (λ o. not o.is_long ≡ true) (λ o. o.is_long ≡ false) (λ o h. ground arith) _
        (All-filterb_self (λ o. not o.is_long) os))

-- Every match pairs a buyer with a seller of another owner, for a positive size, at the maker's price,
-- which is no worse than the taker's limit. Market orders carry the price 0.
pub match_all-IsFair :
    (limits markets : List Order)
    → All (λ o. o.limit_price ≡ 0) markets
    → All IsFair (match_all limits markets)
unfolding match_all sell_pass buy_pass limit_pass
match_all-IsFair limits markets priced =
    All-append IsFair _ _
      (market_side limits markets priced no_fills true (λ o. not o.is_long) (bids_of limits)
        (λ o h. ground arith) (bids_long limits))
      (All-append IsFair _ _
        (market_side limits markets priced (sell_pass limits markets).0 false (λ o. o.is_long)
          (asks_of limits) (λ o h. ground arith) (asks_short limits))
        (walk_all-All too_high limit_result IsFair (buy_pass limits markets).0 (bids_of limits)
          (asks_of limits)
          (All-pairs (λ o. o.is_long ≡ true) (λ r. r.is_long ≡ false)
            (Makes too_high limit_result IsFair) (bids_of limits) (asks_of limits) limit-IsFair
            (bids_long limits) (asks_short limits))))
