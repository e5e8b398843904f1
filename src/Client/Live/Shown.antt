-- ===== src/Client/Live/Shown.antt =====
-- The trades that a page shows while the stream is up, client/stores/market.ts.
use kryon_v.Base.{
  ℕ, zero, suc, ◌≡◌, refl, sym, ap, ◌∙◌, true, false, Option, none, some, List, [], ◌∷◌, ◌==◌,
  if◌then◌else◌, take, arith, length, All, ◌≤◌, if_elim, ==_iff, Text,
}
use kryon_v.Stream.Feed.{Trade}
use kryon_v.Client.Live.{
  Request, is_paused, book_answered, Page, PageEvent, timer, visibility, ws_status, ws_order_book,
  ws_trade, book_reply, trades_reply, prepend_trade, set_order_book, poll_order_book, poll_trades,
  poll_both, handle_ws_order_book, handle_ws_trade, handle_ws_status, on_visibility, on_event,
  on_events,
}

-- The trades that the stream hands over for a market, the newest first, before some others.
received : ℕ → PageEvent → List Trade → List Trade
received m (ws_trade mid t) ts = if mid == m then t ∷ ts else ts
received m e ts = ts

pub pushed : ℕ → List PageEvent → List Trade → List Trade
pushed m [] ts = ts
pushed m (e ∷ es) ts = pushed m es (received m e ts)

-- The connection stays up.
abbrev pub IsUp : PageEvent → Type 0
IsUp (ws_status b) = b ≡ true
IsUp e = Unit

-- The stream is up, no poll of the trades is under way, and the list is the first 100 of these.
pub Shows : ℕ → List Trade → Page → Type 0
Shows m ts s =
    (s.ws_active ≡ true)
    × (s.trades_in_flight ≡ none)
    × (s.market_id ≡ m)
    × (s.recent_trades m ≡ take 100 ts)

-- A page with the stream up does not poll.
poll_order_book_up : (s : Page) → s.ws_active ≡ true → poll_order_book s ≡ s
unfolding poll_order_book
poll_order_book_up s h = if_elim (λ x. x ≡ s) (is_paused s) (λ q. refl) (λ q. absurd (ground arith))

poll_trades_up : (s : Page) → s.ws_active ≡ true → poll_trades s ≡ s
unfolding poll_trades
poll_trades_up s h = if_elim (λ x. x ≡ s) (is_paused s) (λ q. refl) (λ q. absurd (ground arith))

poll_both-Shows : (m : ℕ) (ts : List Trade) (s : Page) → Shows m ts s → Shows m ts (poll_both s)
unfolding Shows poll_both
poll_both-Shows m ts s h = rw (poll_order_book_up s h.0, poll_trades_up s h.0) h

take_whole : (n : ℕ) (ts : List Trade) → length ts ≤ n → take n ts ≡ ts
take_whole zero [] h = refl
take_whole zero (t ∷ ts) h = absurd (omega arith)
take_whole (suc n) [] h = refl
take_whole (suc n) (t ∷ ts) h = ap (λ xs. t ∷ xs) (take_whole n ts (omega arith))

take-suc : (n : ℕ) (ts : List Trade) → take n (take (suc n) ts) ≡ take n ts
take-suc zero ts = refl
take-suc (suc n) [] = refl
take-suc (suc n) (t ∷ ts) = ap (λ xs. t ∷ xs) (take-suc n ts)

prepend_trade-Shows :
    (m : ℕ) (t : Trade) (ts : List Trade) (s : Page)
    → Shows m ts s
    → Shows m (t ∷ ts) (prepend_trade m t s)
unfolding Shows prepend_trade
prepend_trade-Shows m t ts s (a, f, i, e) =
    (a, f, i, rw ((==_iff m m).1 refl, e) (ap (λ xs. t ∷ xs) (take-suc 99 ts)))

handle_ws_trade-Shows :
    (m mid : ℕ) (t : Trade) (ts : List Trade) (s : Page)
    → Shows m ts s
    → Shows m (if mid == m then t ∷ ts else ts) (handle_ws_trade mid t s)
unfolding Shows handle_ws_trade
handle_ws_trade-Shows m mid t ts s h =
    if_elim (Shows m (if mid == m then t ∷ ts else ts)) (mid == s.market_id)
      (λ q.
        let q' = sym (ap (λ k. mid == k) h.2) ∙ q in
        rw (q', (==_iff mid m).0 q') (prepend_trade-Shows m t ts s h))
      (λ q. rw (sym (ap (λ k. mid == k) h.2) ∙ q) h)

-- The answer of the book's poll.
book_reply-Shows :
    (m : ℕ) (ts : List Trade) (book : Option Text) (r : Option Request) (s : Page)
    → Shows m ts s
    → Shows m ts (book_answered book r s)
unfolding Shows set_order_book
book_reply-Shows m ts book none s h = h
book_reply-Shows m ts none (some r) s h = h
book_reply-Shows m ts (some b) (some r) s h =
    if_elim (Shows m ts) (r.effect == s.effect) (λ q. h) (λ q. h)

on_event-Shows :
    (m : ℕ) (e : PageEvent) (ts : List Trade) (s : Page)
    → IsUp e
    → Shows m ts s
    → Shows m (received m e ts) (on_event e s)
unfolding on_event received Shows handle_ws_status on_visibility handle_ws_order_book set_order_book
on_event-Shows m timer ts s u h = poll_both-Shows m ts s h
on_event-Shows m (visibility true) ts s u h = poll_both-Shows m ts _ h
on_event-Shows m (visibility false) ts s u h = h
on_event-Shows m (ws_status b) ts s u (a, f, i, e) = rw u (refl, f, i, e)
on_event-Shows m (ws_order_book mid book) ts s u h =
    if_elim (Shows m ts) (mid == s.market_id) (λ q. h) (λ q. h)
on_event-Shows m (ws_trade mid t) ts s u h = handle_ws_trade-Shows m mid t ts s h
on_event-Shows m (book_reply book) ts s u h = book_reply-Shows m ts book _ s h
on_event-Shows m (trades_reply rs) ts s u (a, f, i, e) = rw f (a, refl, i, e)

on_events-Shows :
    (m : ℕ) (es : List PageEvent) (ts : List Trade) (s : Page)
    → All IsUp es
    → Shows m ts s
    → Shows m (pushed m es ts) (on_events es s)
unfolding on_events pushed
on_events-Shows m [] ts s u h = h
on_events-Shows m (e ∷ es) ts s (u, us) h =
    on_events-Shows m es _ _ us (on_event-Shows m e ts s u h)

-- While the connection of a page stays up and no poll of the trades is under way, the trades that
-- the page lists for its market are the ones that the stream has handed over for it, the newest
-- first, and then the ones that it listed before, of these the first 100. Whatever else happens: the
-- timer, the page's visibility, the answer of the book's poll, or messages for other markets.
pub on_events_shown :
    (es : List PageEvent) (s : Page)
    → All IsUp es
    → s.ws_active ≡ true
    → s.trades_in_flight ≡ none
    → length (s.recent_trades s.market_id) ≤ 100
    → (on_events es s).recent_trades s.market_id
      ≡ take 100 (pushed s.market_id es (s.recent_trades s.market_id))
unfolding Shows
on_events_shown es s u a f l =
    (on_events-Shows s.market_id es _ s u (a, f, refl, sym (take_whole 100 _ l))).3
