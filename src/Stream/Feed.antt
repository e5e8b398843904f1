-- ===== src/Stream/Feed.antt =====
-- What the server pushes for a market, `fetchRecentTrades` and `broadcastMarket` of
-- client/scripts/ws-server.ts. The order book's snapshot, which Book has, is a parameter, and so are
-- the texts of the numbers.
pub mod Order
use kryon_v.Base.{
  ℕ, Bool, true, false, not, Option, none, some, List, [], ◌∷◌, ◌++◌, map, reverse, ◌==◌, ltb, leb,
  if◌then◌else◌, filterb, take, Text, text_eq,
}
use kryon_v.Config.{price_precision, amount_precision}
use kryon_v.Matcher.Sort.{sort}
use kryon_v.Stream.{
  Subscriptions, Event, handle_all, members, broadcast, order_book_channel, trades_channel,
}

-- A row of the "Fill" table.
pub record TradeRow : Type 0 where
  pub id : ℕ
  pub market_id : ℕ
  pub fill_price : ℕ
  pub fill_size : ℕ
  pub created_at : ℕ
  pub maker_nonce : ℕ

pub data Side : Type 0 where
  buy sell : Side

pub record Trade : Type 0 where
  pub price : Text
  pub size : Text
  pub side : Side
  pub timestamp : ℕ

-- ECMAScript's numbers: `(Number(n) / scale).toFixed(4)` and `Number(n) % 2 === 0`.
pub record Numbers : Type 0 where
  pub ratio_text : ℕ → ℕ → Text
  pub is_even : ℕ → Bool

abbrev pub newest_first : TradeRow → TradeRow → Bool
newest_first a b =
    if a.created_at == b.created_at then leb b.id a.id else ltb b.created_at a.created_at

abbrev pub trade_of : Numbers → TradeRow → Trade
trade_of n r = record {
  price = n.ratio_text r.fill_price price_precision;
  size =
      n.ratio_text r.fill_size
        (if leb 1_000_000_000_000 r.fill_size then price_precision else amount_precision);
  side = if n.is_even r.maker_nonce then buy else sell;
  timestamp = r.created_at;
}

unfoldable pub fetch_recent_trades : Numbers → ℕ → ℕ → List TradeRow → List Trade
fetch_recent_trades n market_id limit rows =
    map (trade_of n) (take limit (sort newest_first (filterb (λ r. r.market_id == market_id) rows)))

abbrev pub or_zero : Option ℕ → ℕ
or_zero none = 0
or_zero (some t) = t

-- The trades to push, the oldest first, and the last timestamp seen.
abbrev pub push : List Trade → Option ℕ → List Trade × Option ℕ
push [] last = ([], last)
push (t ∷ ts) last = (reverse (t ∷ ts), some t.timestamp)

unfoldable pub new_trades : List Trade → Option ℕ → List Trade × Option ℕ
new_trades trades last = push (filterb (λ t. ltb (or_zero last) t.timestamp) trades) last

pub data Payload : Type 0 where
  orderbook : Text → Payload
  trade : Trade → Payload

pub record Delivery : Type 0 where
  pub channel : Text
  pub to : List ℕ
  pub payload : Payload

-- The map of subscriptions and `lastTradeTs`.
pub record Feed : Type 0 where
  pub subs : Subscriptions
  pub last_trade_ts : ℕ → Option ℕ

-- A run of `broadcastMarket`: the events since the one before, the answers of its queries, `none` where one throws, the events while it
-- waits for them, and the sockets that are open then.
pub record Run : Type 0 where
  pub before : List Event
  pub book : Option Text
  pub rows : Option (List TradeRow)
  pub during_book : List Event
  pub during_rows : List Event
  pub open_at_book : ℕ → Bool
  pub open_at_trades : ℕ → Bool

abbrev pub send_to : Text → Payload → (ℕ → Bool) → Feed → List Delivery × Feed
send_to c payload is_open s =
    let sent = broadcast c is_open s.subs in
    ((record { channel = c; to = sent.0; payload = payload }) ∷ [], record s { subs = sent.1 })

abbrev pub send_trades : Text → (ℕ → Bool) → List Trade → Feed → List Delivery × Feed
send_trades c is_open [] s = ([], s)
send_trades c is_open (t ∷ ts) s =
    let first = send_to c (trade t) is_open s in
    let rest = send_trades c is_open ts first.1 in (first.0 ++ rest.0, rest.1)

abbrev pub set_last : ℕ → Option ℕ → Feed → Feed
set_last market_id last s = record s {
  last_trade_ts = λ k. if k == market_id then last else s.last_trade_ts k;
}

abbrev pub awaited : List Event → Feed → Feed
awaited es s = record s { subs = handle_all es s.subs }

abbrev pub nonempty : List ℕ → Bool
nonempty [] = false
nonempty (w ∷ ws) = true

module _ (n : Numbers) (market_id : ℕ) (run : Run) where
  abbrev pub on_rows : Option (List TradeRow) → Feed → List Delivery × Feed
  on_rows none s = ([], s)
  on_rows (some rows) s =
      let new = new_trades (fetch_recent_trades n market_id 10 rows) (s.last_trade_ts market_id) in
      send_trades (trades_channel market_id) run.open_at_trades new.0 (set_last market_id new.1 s)

  abbrev pub on_trades : Bool → Feed → List Delivery × Feed
  on_trades false s = ([], s)
  on_trades true s = on_rows run.rows (awaited run.during_rows s)

  -- A query for the book that throws ends the run.
  abbrev pub on_book : Bool → Bool → Option Text → Feed → List Delivery × Feed
  on_book false has_trades book s = on_trades has_trades s
  on_book true has_trades none s = ([], awaited run.during_book s)
  on_book true has_trades (some book) s =
      let first =
        send_to (order_book_channel market_id) (orderbook book) run.open_at_book
          (awaited run.during_book s) in
      let rest = on_trades has_trades first.1 in (first.0 ++ rest.0, rest.1)

  unfoldable pub broadcast_market : Feed → List Delivery × Feed
  broadcast_market s =
      on_book (nonempty (members (order_book_channel market_id) s.subs))
        (nonempty (members (trades_channel market_id) s.subs)) run.book s

-- The trades among the deliveries of a run, and a sequence of runs of the market.
abbrev pub pushed : List Delivery → List Trade
pushed [] = []
pushed (d ∷ ds) = elim d.payload [ orderbook b ↦ pushed ds | trade t ↦ t ∷ pushed ds ]

unfoldable pub broadcast_runs : Numbers → ℕ → List Run → Feed → List (List Delivery)
broadcast_runs n market_id [] s = []
broadcast_runs n market_id (r ∷ rs) s =
    let step = broadcast_market n market_id r (awaited r.before s) in
    step.0 ∷ broadcast_runs n market_id rs step.1
