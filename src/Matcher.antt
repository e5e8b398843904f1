-- ===== src/Matcher.antt =====
-- The off-chain matching engine, client/scripts/matcher-service.ts: `matchAll` over the orders of a
-- market. Sizes and prices are natural numbers; where the source's `remaining` is negative it is 0
-- here, and every reader only asks whether it is positive.
pub mod Sort
pub mod Walk
pub mod Passes
pub mod Settle
pub mod Book
pub mod Exhaust
pub mod Persist
pub mod Rows
pub mod Tick
mod Tests
use kryon_v.Base.{
  ℕ, ◌+◌, ◌-◌, Bool, true, false, not, ◌||◌, Option, none, some, List, [], ◌∷◌, ◌++◌, ◌==◌, ltb,
  leb, if◌then◌else◌, filterb, Text, text_eq,
}
use kryon_v.Store.{Order}
use kryon_v.Matcher.Sort.{sort}

pub record MatchResult : Type 0 where
  pub maker : Order
  pub taker : Order
  pub fill_size : ℕ
  pub fill_price : ℕ

-- `pendingFills`, with 0 for a missing id.
abbrev pub Pending : Type 0
Pending = Text → ℕ

unfoldable pub remaining : Pending → Order → ℕ
remaining pending o = o.size - o.filled_size - pending o.id

unfoldable pub add : Text → ℕ → Pending → Pending
add id delta pending k = if text_eq k id then pending k + delta else pending k

-- What a resting order `r` gives an order `o` in the body of the loop; `none` where it continues.
unfoldable pub trade : Pending → Order → Order → Option ℕ
trade pending o r =
    let r_rem = remaining pending r in
    let o_rem = remaining pending o in
    if r_rem == 0 || o_rem == 0 then none else some (if ltb r_rem o_rem then r_rem else o_rem)

-- The inner loop of the three passes: `stop` is the test before its `break`, `result` the record that
-- it pushes.
module _ (stop : Order → Order → Bool) (result : Order → Order → ℕ → MatchResult) where
  unfoldable pub walk : Pending → Order → List Order → Pending × List MatchResult
  walk pending o [] = (pending, [])
  walk pending o (r ∷ rs) = elim (text_eq r.owner o.owner) [
    | true ↦ walk pending o rs
    | false ↦ elim (stop o r) [
      | true ↦ (pending, [])
      | false ↦ elim (trade pending o r) [
        | none ↦ walk pending o rs
        | some fill_size ↦
            let pending' = add o.id fill_size (add r.id fill_size pending) in
            let hit = result o r fill_size in
            elim (remaining pending' o == 0) [
              | true ↦ (pending', hit ∷ [])
              | false ↦ ((walk pending' o rs).0, hit ∷ (walk pending' o rs).1)
            ]
      ]
    ]
  ]

  -- The outer loop of a pass.
  unfoldable pub walk_all : Pending → List Order → List Order → Pending × List MatchResult
  walk_all pending [] rs = (pending, [])
  walk_all pending (o ∷ os) rs =
      let first = walk pending o rs in
      let rest = walk_all first.0 os rs in (rest.0, first.1 ++ rest.1)

-- A market order takes from the resting order at its price, with no limit of its own.
abbrev pub never : Order → Order → Bool
never o r = false

abbrev pub market_result : Order → Order → ℕ → MatchResult
market_result o r fill_size = record {
  maker = r;
  taker = o;
  fill_size = fill_size;
  fill_price = r.limit_price;
}

-- A bid stops at the first ask above its price.
abbrev pub too_high : Order → Order → Bool
too_high bid ask = ltb bid.limit_price ask.limit_price

-- The older of two limit orders is the maker, and gives the price.
abbrev pub limit_result : Order → Order → ℕ → MatchResult
limit_result bid ask fill_size =
    let maker = if leb bid.created_at ask.created_at then bid else ask in
    let taker = if leb bid.created_at ask.created_at then ask else bid in
    record { maker = maker; taker = taker; fill_size = fill_size; fill_price = maker.limit_price }

-- Highest bid first, lowest ask first, and the older of two at one price.
abbrev pub bid_before : Order → Order → Bool
bid_before a b =
    if a.limit_price == b.limit_price
    then leb a.created_at b.created_at
    else ltb b.limit_price a.limit_price

abbrev pub ask_before : Order → Order → Bool
ask_before a b =
    if a.limit_price == b.limit_price
    then leb a.created_at b.created_at
    else ltb a.limit_price b.limit_price

abbrev pub bids_of : List Order → List Order
bids_of limits = sort bid_before (filterb (λ o. o.is_long) limits)

abbrev pub asks_of : List Order → List Order
asks_of limits = sort ask_before (filterb (λ o. not o.is_long) limits)

abbrev pub no_fills : Pending
no_fills k = 0

-- The passes of `matchAll`, each on what the one before left.
unfoldable pub sell_pass : List Order → List Order → Pending × List MatchResult
sell_pass limits markets =
    walk_all never market_result no_fills (filterb (λ o. not o.is_long) markets) (bids_of limits)

unfoldable pub buy_pass : List Order → List Order → Pending × List MatchResult
buy_pass limits markets =
    walk_all never market_result (sell_pass limits markets).0 (filterb (λ o. o.is_long) markets)
      (asks_of limits)

unfoldable pub limit_pass : List Order → List Order → Pending × List MatchResult
limit_pass limits markets =
    walk_all too_high limit_result (buy_pass limits markets).0 (bids_of limits) (asks_of limits)

unfoldable pub match_all : List Order → List Order → List MatchResult
match_all limits markets =
    (sell_pass limits markets).1 ++ ((buy_pass limits markets).1 ++ (limit_pass limits markets).1)
