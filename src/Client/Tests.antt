-- ===== src/Client/Tests.antt =====
-- A browser that tracks one order, which the server has filled, and a page that shows two markets.
use kryon_v.Base.{◌≡◌, refl, true, false, some, List, [], ◌∷◌, map, codes, text_eq, arith, ℕ, take}
use kryon_v.Signing.{OrderIntent}
use kryon_v.Client.{
  TrackedOrder, pending, filled, DbOrder, unreachable, reconcile, sync_rows, sync_row, mark_filled,
  set_status, check_all, check_one,
}
use kryon_v.Stream.Feed.{Trade, buy}
use kryon_v.Client.Live.{
  Page, PageEvent, timer, ws_status, ws_trade, trades_reply, put, Visit, visits, blank, open_market,
  on_event, on_events, handle_ws_status, handle_ws_trade, prepend_trade, set_trades, poll_both,
  poll_order_book, poll_trades,
}
use kryon_v.Client.Live.Shown.{pushed, on_events_shown}
use kryon_v.Client.Live.Frame.{visits_elsewhere}
use kryon_v.Client.Bounds.{IsTracked}
use kryon_v.Client.Sync.{reconcile-IsTracked}

abbrev intent : OrderIntent
intent = record {
  owner = codes "GA";
  market_id = 1;
  is_long = true;
  size = 50;
  limit_price = 7;
  reduce_only = false;
  nonce = 9;
  expiry_ts = 100;
}

abbrev tracked : List TrackedOrder
tracked = (record { intent = intent; status = pending; added_at = 0 }) ∷ []

abbrev rows : List DbOrder
rows = (record { intent = intent; cancelled = false; filled_size = 50 }) ∷ []

marked :
    map (λ o. o.status) (reconcile 5 (codes "GA") (some rows) (λ o. unreachable) tracked)
    ≡ filled ∷ []
unfolding reconcile sync_rows sync_row mark_filled set_status check_all check_one text_eq
marked = refl

reconcile-IsTracked_example :
    IsTracked (reconcile 5 (codes "GA") (some rows) (λ o. unreachable) tracked)
reconcile-IsTracked_example =
    reconcile-IsTracked 5 (codes "GA") (some rows) (λ o. unreachable) tracked
      (omega arith, (tt, tt))

abbrev trade_at : ℕ → Trade
trade_at time = record { price = codes "1"; size = codes "1"; side = buy; timestamp = time }

-- A page of market 1 with the stream up.
abbrev live : Page
live = record blank {
  recent_trades = put 1 (trade_at 5 ∷ []) (λ _. []);
  ws_connected = true;
  ws_active = true;
  market_id = 1;
}

abbrev arrivals : List PageEvent
arrivals = ws_trade 1 (trade_at 6) ∷ timer ∷ ws_trade 2 (trade_at 7) ∷ ws_trade 1 (trade_at 8) ∷ []

on_events_shown_example :
    (on_events arrivals live).recent_trades 1 ≡ take 100 (pushed 1 arrivals (trade_at 5 ∷ []))
unfolding blank
on_events_shown_example =
    on_events_shown arrivals live (tt, (tt, (tt, (tt, tt)))) refl refl (omega arith)

-- The stream comes up and hands over a trade while a poll is under way; the poll's older answer
-- takes the trade away.
abbrev overtaken : List PageEvent
overtaken = ws_status true ∷ ws_trade 1 (trade_at 6) ∷ trades_reply (trade_at 5 ∷ []) ∷ []

abbrev first_visit : Visit
first_visit = record { market_id = 1; visible = true; events = overtaken }

trade_lost : (visits (first_visit ∷ []) blank).recent_trades 1 ≡ trade_at 5 ∷ []
unfolding visits blank on_events on_event open_market poll_both poll_order_book poll_trades
    handle_ws_status handle_ws_trade prepend_trade set_trades
trade_lost = refl

visits_elsewhere_example :
    ((on_events arrivals (open_market 2 true (visits (first_visit ∷ []) blank))).order_books 1
      ≡ (visits (first_visit ∷ []) blank).order_books 1)
    × ((on_events arrivals (open_market 2 true (visits (first_visit ∷ []) blank))).recent_trades 1
        ≡ (visits (first_visit ∷ []) blank).recent_trades 1)
visits_elsewhere_example = visits_elsewhere (first_visit ∷ []) 2 true arrivals 1 (ground arith)
