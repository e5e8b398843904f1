-- ===== src/Stream/Tests.antt =====
-- A server with two clients, a client that disconnects, and a page that changes its market.
use kryon_v.Base.{
  ℕ, ◌≡◌, refl, true, false, ◌&&◌, none, some, List, [], ◌∷◌, ◌==◌, map, codes, text_eq, arith,
}
use kryon_v.Signing.Decimal.{to_string}
use kryon_v.Stream.{
  Event, received, closed, broadcast, handle, handle_all, on_message, subscribe, unsubscribe_all,
  is_channel,
}
use kryon_v.Stream.Sets.{has, adjoin, without, IsDistinct}
use kryon_v.Stream.Refines.{all_means}
use kryon_v.Stream.Distinct.{broadcast-IsExact}
use kryon_v.Stream.Feed.{Numbers, TradeRow, Run, Feed, broadcast_runs, pushed}
use kryon_v.Stream.Feed.Order.{IsFeed, broadcast_runs-IsFeed}
use kryon_v.Stream.Browser.{
  Browser, closed_state, opened, ended, subscribes, happen, call, ws_disconnect, ws_reset,
  ws_subscribe, connect, on_close, on_open, schedule_reconnect, ws_is_connected, subscribe_message,
}
use kryon_v.Stream.Browser.Delay.{IsPaced}
use kryon_v.Stream.Browser.Talk.{IsInStep, receive}
use kryon_v.Stream.Browser.Session.{opens, calls, IsFresh, Talks-IsInStep}

abbrev events : List Event
events =
    received 1 (some (subscribe_message (codes "trades:1" ∷ codes "x" ∷ [])))
    ∷ received 2 (some (subscribe_message (codes "trades:1" ∷ [])))
    ∷ closed 2
    ∷ []

broadcast-IsExact_example :
    IsDistinct ◌==◌ (broadcast (codes "trades:1") (λ _. true) (handle_all events [])).0
    × ((v : ℕ)
        → has ◌==◌ v (broadcast (codes "trades:1") (λ _. true) (handle_all events [])).0
          ≡ (all_means events (λ _ _. false) v (codes "trades:1") && true))
broadcast-IsExact_example = broadcast-IsExact events (codes "trades:1") (λ _. true)

one_left : (broadcast (codes "trades:1") (λ _. true) (handle_all events [])).0 ≡ 1 ∷ []
unfolding handle_all handle on_message broadcast subscribe text_eq is_channel adjoin without
    unsubscribe_all
one_left = refl

abbrev numbers : Numbers
numbers = record { ratio_text = λ n scale. to_string n; is_even = λ n. n == 2 }

abbrev row : ℕ → TradeRow
row t = record {
  id = t;
  market_id = 1;
  fill_price = 5;
  fill_size = 7;
  created_at = t;
  maker_nonce = 2;
}

abbrev run_of : List TradeRow → Run
run_of rows = record {
  before = [];
  book = none;
  rows = some rows;
  during_book = [];
  during_rows = [];
  open_at_book = λ _. true;
  open_at_trades = λ _. true;
}

abbrev runs : List Run
runs = run_of (row 4 ∷ row 5 ∷ []) ∷ run_of (row 4 ∷ row 5 ∷ row 6 ∷ []) ∷ []

abbrev watched : Feed
watched = record {
  subs = (record { channel = codes "trades:1"; sockets = 1 ∷ [] }) ∷ [];
  last_trade_ts = λ _. none;
}

broadcast_runs-IsFeed_example :
    IsFeed numbers 1 (map pushed (broadcast_runs numbers 1 runs watched))
broadcast_runs-IsFeed_example = broadcast_runs-IsFeed numbers 1 runs watched

abbrev fresh : Browser
fresh = record {
  has_url = true;
  ws = none;
  ready = λ _. closed_state;
  next_socket = 0;
  reconnect_timer = none;
  reconnect_delay = 1000;
  is_destroyed = false;
  ping_timer = false;
  subscribed_channels = [];
  status = none;
}

fresh-IsPaced : IsPaced fresh
fresh-IsPaced = ground arith

abbrev dialled : Browser
dialled = (call (subscribes 1 false) fresh).1

abbrev connected : Browser
connected = (happen (opened 0) dialled).1

dialled-IsFresh : IsFresh 9 0 dialled []
unfolding call ws_subscribe connect ws_is_connected adjoin text_eq is_channel to_string
dialled-IsFresh = record {
  has_url = refl;
  current = refl;
  pending = refl;
  wellformed = (refl, (refl, tt));
  unknown = λ c. refl;
}

Talks-IsInStep_example : IsInStep 9 0 (call (subscribes 2 false) connected).1 (
    receive 9 0
      (call (subscribes 2 false) connected).0
      (receive 9 0 (happen (opened 0) dialled).0 []))
Talks-IsInStep_example = Talks-IsInStep (calls (opens) (subscribes 2 false) tt) dialled-IsFresh

-- The page leaves a market and comes to another one, as the effect of MarketDataProvider does; then the
-- old socket's end takes the new one away and a third is opened later.
abbrev switched : Browser
switched = (ws_subscribe 2 false (ws_reset (ws_disconnect connected))).1

new_socket_lost :
    (switched.ws ≡ some 1)
    × ((happen (ended 0) switched).1.ws ≡ none)
    × ((happen (ended 0) switched).1.reconnect_timer ≡ some 1000)
unfolding happen call ws_subscribe ws_reset ws_disconnect connect on_close on_open
    schedule_reconnect ws_is_connected
new_socket_lost = (refl, refl, refl)
