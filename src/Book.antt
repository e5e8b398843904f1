-- ===== src/Book.antt =====
-- The order book that is shown: `GET /api/markets/[id]/orderbook`,
-- client/app/api/markets/[id]/orderbook/route.ts, and `fetchOrderBook` of client/scripts/ws-server.ts.
-- Sums are doubles; a price is grouped under its text with four decimals.
pub mod Levels
mod Tests
use kryon_v.Base.{
  ℕ, ◌-◌, Bool, true, false, ◌&&◌, not, Option, none, some, List, [], ◌∷◌, ◌==◌, ltb, leb,
  if◌then◌else◌, map, filterb, Text, text_eq,
}
use kryon_v.Store.{Order}
use kryon_v.Matcher.Sort.{sort}
use kryon_v.Stats.Keyed.{put}

-- What the code does with numbers: `toFixed(4)` of a scaled price, the remaining size as a double with
-- its sum and its `toFixed(4)`, and the comparison of two prices that `parseFloat` reads.
pub record Doubles (D : Type 0) : Type 0 where
  pub price_text : ℕ → Text
  pub nought : D
  pub amount : ℕ → ℕ → D
  pub plus : D → D → D
  pub size_text : D → Text
  pub parsed_le : Text → Text → Bool

pub record Level (D : Type 0) : Type 0 where
  pub price : Text
  pub total : D

pub record Shown : Type 0 where
  pub price : Text
  pub size : Text

pub record Snapshot : Type 0 where
  pub bids : List Shown
  pub asks : List Shown
  pub timestamp : ℕ

-- The orders of the query; it has no test on the expiry.
unfoldable pub is_shown : ℕ → Order → Bool
is_shown market_id o =
    o.market_id == market_id
    && not o.cancelled
    && not (o.limit_price == 0)
    && ltb o.filled_size o.size

unfoldable pub rows_of : ℕ → List Order → List Order
rows_of market_id orders =
    sort (λ a b. leb a.limit_price b.limit_price) (filterb (is_shown market_id) orders)

module _ {D : Type 0} (d : Doubles D) where
  abbrev pub total_of : Option (Level D) → D
  total_of none = d.nought
  total_of (some l) = l.total

  -- `map.set(price, (map.get(price) ?? 0) + remaining)`
  unfoldable pub add_order : Order → List (Level D) → List (Level D)
  add_order o levels =
      put (λ l. l.price) (d.price_text o.limit_price)
        (λ l. record {
          price = d.price_text o.limit_price;
          total = d.plus (total_of l) (d.amount o.size o.filled_size);
        })
        levels

  unfoldable pub add_row : Order → List (Level D) × List (Level D) → List (Level D) × List (Level D)
  add_row o (bids, asks) = if o.is_long then (add_order o bids, asks) else (bids, add_order o asks)

  unfoldable pub add_rows :
      List Order → List (Level D) × List (Level D) → List (Level D) × List (Level D)
  add_rows [] maps = maps
  add_rows (o ∷ os) maps = add_rows os (add_row o maps)

  abbrev pub higher_first : Level D → Level D → Bool
  higher_first a b = d.parsed_le b.price a.price

  abbrev pub lower_first : Level D → Level D → Bool
  lower_first a b = d.parsed_le a.price b.price

  abbrev pub show_level : Level D → Shown
  show_level l = record { price = l.price; size = d.size_text l.total }

  -- Best bid first, best ask first.
  unfoldable pub levels_of : List Order → List (Level D) × List (Level D)
  levels_of rows =
      let (bids, asks) = add_rows rows ([], []) in (sort higher_first bids, sort lower_first asks)

  -- `fetchOrderBook` of the websocket server.
  unfoldable pub fetch_order_book : ℕ → ℕ → List Order → Snapshot
  fetch_order_book now market_id orders =
      let (bids, asks) = levels_of (rows_of market_id orders) in
      record { bids = map show_level bids; asks = map show_level asks; timestamp = now }

pub data BookReply : Type 0 where
  invalid_400 failed_500 : BookReply
  book_200 : Snapshot → BookReply

-- The route, with what `parseInt` makes of the id. Its statements are those of `fetchOrderBook`.
unfoldable pub get_order_book :
    {D : Type 0} (d : Doubles D) → ℕ → Bool → Option ℕ → List Order → BookReply
get_order_book d now reaches_db none orders = invalid_400
get_order_book d now reaches_db (some market_id) orders =
    if market_id == 0
    then invalid_400
    else if reaches_db
    then book_200 (fetch_order_book d now market_id orders)
    else failed_500
