-- ===== src/Client/Live.antt =====
-- The order book and the trades of the market that a page shows: the polls and the stream's handlers
-- of client/features/trade/components/MarketDataProvider.tsx over the store of
-- client/stores/market.ts. The answers of the fetches and the calls of the handlers come as events.
pub mod Shown
pub mod Frame
use kryon_v.Base.{
  ℕ, suc, Bool, true, false, ◌||◌, not, Option, none, some, List, [], ◌∷◌, ◌==◌, if◌then◌else◌,
  take, Text,
}
use kryon_v.Stream.Feed.{Trade}

-- A request under way: the effect that sent it, and the market it asks for.
pub record Request : Type 0 where
  pub effect : ℕ
  pub market_id : ℕ

-- The store's fields, the refs, and the current effect with its market.
pub record Page : Type 0 where
  pub order_books : ℕ → Option Text
  pub recent_trades : ℕ → List Trade
  pub ws_connected : Bool
  pub ws_active : Bool
  pub visible : Bool
  pub book_in_flight : Option Request
  pub trades_in_flight : Option Request
  pub effect : ℕ
  pub market_id : ℕ

-- `{ ...s, [marketId]: v }`
abbrev pub put : {A : Type 0} → ℕ → A → (ℕ → A) → ℕ → A
put market_id v f k = if k == market_id then v else f k

unfoldable pub set_order_book : ℕ → Option Text → Page → Page
set_order_book market_id book s = record s { order_books = put market_id book s.order_books }

unfoldable pub set_trades : ℕ → List Trade → Page → Page
set_trades market_id trades s = record s { recent_trades = put market_id trades s.recent_trades }

unfoldable pub prepend_trade : ℕ → Trade → Page → Page
prepend_trade market_id trade s = record s {
  recent_trades = put market_id (trade ∷ take 99 (s.recent_trades market_id)) s.recent_trades;
}

-- `runOnce`: a request that is under way stays the only one, the page's own or one before it.
abbrev pub run_once : Option Request → Page → Option Request
run_once (some r) s = some r
run_once none s = some (record { effect = s.effect; market_id = s.market_id })

abbrev pub is_paused : Page → Bool
is_paused s = s.ws_active || not s.visible

unfoldable pub poll_order_book : Page → Page
poll_order_book s =
    if is_paused s then s else record s { book_in_flight = run_once s.book_in_flight s }

unfoldable pub poll_trades : Page → Page
poll_trades s =
    if is_paused s then s else record s { trades_in_flight = run_once s.trades_in_flight s }

unfoldable pub poll_both : Page → Page
poll_both s = poll_trades (poll_order_book s)

-- What an answer does, unless its effect is `cancelled`.
abbrev pub on_book : Option Text → Request → Page → Page
on_book none r s = s
on_book (some book) r s =
    if r.effect == s.effect then set_order_book r.market_id (some book) s else s

abbrev pub on_trades : List Trade → Request → Page → Page
on_trades [] r s = s
on_trades (t ∷ ts) r s = if r.effect == s.effect then set_trades r.market_id (t ∷ ts) s else s

abbrev pub book_answered : Option Text → Option Request → Page → Page
book_answered book none s = s
book_answered book (some r) s = on_book book r (record s { book_in_flight = none })

abbrev pub trades_answered : List Trade → Option Request → Page → Page
trades_answered trades none s = s
trades_answered trades (some r) s = on_trades trades r (record s { trades_in_flight = none })

unfoldable pub handle_ws_order_book : ℕ → Text → Page → Page
handle_ws_order_book mid book s = if mid == s.market_id then set_order_book mid (some book) s else s

unfoldable pub handle_ws_trade : ℕ → Trade → Page → Page
handle_ws_trade mid trade s = if mid == s.market_id then prepend_trade mid trade s else s

unfoldable pub handle_ws_status : Bool → Page → Page
handle_ws_status connected s =
    let s' = record s { ws_active = connected; ws_connected = connected } in
    if connected then s' else poll_both s'

unfoldable pub on_visibility : Bool → Page → Page
on_visibility visible s =
    let s' = record s { visible = visible } in if visible then poll_both s' else s'

-- The effect's start for a market, the one before it cancelled; the page is visible or not.
unfoldable pub open_market : ℕ → Bool → Page → Page
open_market market_id visible s =
    poll_both (record s { visible = visible; effect = suc s.effect; market_id = market_id })

pub data PageEvent : Type 0 where
  timer : PageEvent
  visibility : Bool → PageEvent
  ws_status : Bool → PageEvent
  ws_order_book : ℕ → Text → PageEvent
  ws_trade : ℕ → Trade → PageEvent
  book_reply : Option Text → PageEvent
  trades_reply : List Trade → PageEvent

unfoldable pub on_event : PageEvent → Page → Page
on_event timer s = poll_both s
on_event (visibility b) s = on_visibility b s
on_event (ws_status b) s = handle_ws_status b s
on_event (ws_order_book mid book) s = handle_ws_order_book mid book s
on_event (ws_trade mid t) s = handle_ws_trade mid t s
on_event (book_reply book) s = book_answered book s.book_in_flight s
on_event (trades_reply ts) s = trades_answered ts s.trades_in_flight s

-- The events on the page of one market.
unfoldable pub on_events : List PageEvent → Page → Page
on_events [] s = s
on_events (e ∷ es) s = on_events es (on_event e s)

-- The markets that the page shows one after another.
pub record Visit : Type 0 where
  pub market_id : ℕ
  pub visible : Bool
  pub events : List PageEvent

unfoldable pub visits : List Visit → Page → Page
visits [] s = s
visits (v ∷ vs) s = visits vs (on_events v.events (open_market v.market_id v.visible s))

unfoldable pub blank : Page
blank = record {
  order_books = λ _. none;
  recent_trades = λ _. [];
  ws_connected = false;
  ws_active = false;
  visible = true;
  book_in_flight = none;
  trades_in_flight = none;
  effect = 0;
  market_id = 0;
}
