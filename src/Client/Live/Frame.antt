-- ===== src/Client/Live/Frame.antt =====
-- Which market an answer may change, client/features/trade/components/MarketDataProvider.tsx.
use kryon_v.Base.{
  ℕ, suc, ◌≤◌, ◌≡◌, refl, ap, ◌∙◌, Bool, true, false, Option, none, some, List, [], ◌∷◌, ◌==◌, Text,
  arith, if_elim, ◌≢◌, ==_iff,
}
use kryon_v.Stream.Feed.{Trade}
use kryon_v.Client.Live.{
  put, Request, Page, PageEvent, timer, visibility, ws_status, ws_order_book, ws_trade, book_reply,
  trades_reply, run_once, is_paused, set_order_book, set_trades, prepend_trade, poll_order_book,
  poll_trades, poll_both, book_answered, trades_answered, handle_ws_order_book, handle_ws_trade,
  handle_ws_status, on_visibility, open_market, on_event, on_events, Visit, visits, blank,
}

-- A request of the current effect asks for the current market.
IsOwn : ℕ → ℕ → Option Request → Type 0
IsOwn effect market_id none = Unit
IsOwn effect market_id (some r) =
    (r.effect ≤ effect) × (r.effect ≡ effect → r.market_id ≡ market_id)

OwnRequests : Page → Type 0
OwnRequests s =
    IsOwn s.effect s.market_id s.book_in_flight × IsOwn s.effect s.market_id s.trades_in_flight

-- The same page after something that touched no other market.
SameElsewhere : Page → Page → Type 0
SameElsewhere s s' =
    (k : ℕ)
    → (k == s.market_id) ≡ false
    → (s'.order_books k ≡ s.order_books k) × (s'.recent_trades k ≡ s.recent_trades k)

Follows : Page → Page → Type 0
Follows s s' =
    OwnRequests s' × (s'.effect ≡ s.effect) × (s'.market_id ≡ s.market_id) × SameElsewhere s s'

Follows-trans : (s t u : Page) → Follows s t → Follows t u → Follows s u
unfolding Follows SameElsewhere
Follows-trans s t u (o, e, m, h) (o', e', m', h') = (
  o',
  e' ∙ e,
  m' ∙ m,
  λ k q. let g = h' k (ap (λ n. k == n) m ∙ q) in (g.0 ∙ (h k q).0, g.1 ∙ (h k q).1),
)

-- Where an event leaves the page, or only its flags, as it was.
stays : (s : Page) → OwnRequests s → Follows s s
unfolding Follows SameElsewhere
stays s o = (o, refl, refl, λ k q. (refl, refl))

-- Another market, where only that of the page is written.
elsewhere :
    {A : Type 0} (m m' k : ℕ) (v : A) (f : ℕ → A) → m' ≡ m → (k == m) ≡ false → put m' v f k ≡ f k
elsewhere m m' k v f e q = rw (e, q) refl

run_once-IsOwn :
    (o : Option Request) (s : Page)
    → IsOwn s.effect s.market_id o
    → IsOwn s.effect s.market_id (run_once o s)
unfolding IsOwn
run_once-IsOwn none s h = (omega arith, λ q. refl)
run_once-IsOwn (some r) s h = h

poll_both-Follows : (s : Page) → OwnRequests s → Follows s (poll_both s)
unfolding Follows OwnRequests SameElsewhere poll_both poll_order_book poll_trades
poll_both-Follows s o =
    let book =
      if_elim (Follows s) (is_paused s) (λ q. (o, refl, refl, λ k q. (refl, refl)))
        (λ q. ((run_once-IsOwn s.book_in_flight s o.0, o.1), refl, refl, λ k q. (refl, refl))) in
    let t = poll_order_book s in
    Follows-trans s t (poll_trades t) book (
      if_elim (Follows t) (is_paused t) (λ q. (book.0, refl, refl, λ k q. (refl, refl)))
        (λ q. (
          (book.0.0, run_once-IsOwn t.trades_in_flight t book.0.1),
          refl,
          refl,
          λ k q. (refl, refl),
        )))

set_trades-Follows :
    (m : ℕ) (ts : List Trade) (s : Page)
    → m ≡ s.market_id
    → OwnRequests s
    → Follows s (set_trades m ts s)
unfolding Follows SameElsewhere OwnRequests set_trades
set_trades-Follows m ts s e o =
    (o, refl, refl, λ k q. (refl, elsewhere s.market_id m k ts s.recent_trades e q))

set_order_book-Follows :
    (m : ℕ) (book : Option Text) (s : Page)
    → m ≡ s.market_id
    → OwnRequests s
    → Follows s (set_order_book m book s)
unfolding Follows SameElsewhere OwnRequests set_order_book
set_order_book-Follows m book s e o =
    (o, refl, refl, λ k q. (elsewhere s.market_id m k book s.order_books e q, refl))

trades_answered-Follows :
    (ts : List Trade) (r : Option Request) (s : Page)
    → OwnRequests s
    → IsOwn s.effect s.market_id r
    → Follows s (trades_answered ts r s)
unfolding Follows OwnRequests IsOwn SameElsewhere
trades_answered-Follows ts none s o h = stays s o
trades_answered-Follows [] (some r) s o h = stays (record s { trades_in_flight = none }) (o.0, tt)
trades_answered-Follows (t ∷ ts) (some r) s o h =
    let s' = record s { trades_in_flight = none } in
    if_elim (Follows s) (r.effect == s.effect)
      (λ q.
        set_trades-Follows r.market_id (t ∷ ts) s' (h.1 ((==_iff r.effect s.effect).0 q)) (o.0, tt))
      (λ q. stays s' (o.0, tt))

book_answered-Follows :
    (book : Option Text) (r : Option Request) (s : Page)
    → OwnRequests s
    → IsOwn s.effect s.market_id r
    → Follows s (book_answered book r s)
unfolding Follows OwnRequests IsOwn SameElsewhere
book_answered-Follows book none s o h = stays s o
book_answered-Follows none (some r) s o h = stays (record s { book_in_flight = none }) (tt, o.1)
book_answered-Follows (some b) (some r) s o h =
    let s' = record s { book_in_flight = none } in
    if_elim (Follows s) (r.effect == s.effect)
      (λ q.
        set_order_book-Follows r.market_id (some b) s' (h.1 ((==_iff r.effect s.effect).0 q))
          (tt, o.1))
      (λ q. stays s' (tt, o.1))

on_event-Follows : (e : PageEvent) (s : Page) → OwnRequests s → Follows s (on_event e s)
unfolding on_event on_visibility handle_ws_status handle_ws_order_book handle_ws_trade prepend_trade
    set_trades Follows OwnRequests SameElsewhere
on_event-Follows timer s o = poll_both-Follows s o
on_event-Follows (visibility true) s o = poll_both-Follows (record s { visible = true }) o
on_event-Follows (visibility false) s o = stays s o
on_event-Follows (ws_status true) s o = stays s o
on_event-Follows (ws_status false) s o =
    poll_both-Follows (record s { ws_active = false; ws_connected = false }) o
on_event-Follows (ws_order_book mid book) s o =
    if_elim (Follows s) (mid == s.market_id)
      (λ q. set_order_book-Follows mid (some book) s ((==_iff mid s.market_id).0 q) o)
      (λ q. stays s o)
on_event-Follows (ws_trade mid t) s o =
    if_elim (Follows s) (mid == s.market_id)
      (λ q. set_trades-Follows mid _ s ((==_iff mid s.market_id).0 q) o) (λ q. stays s o)
on_event-Follows (book_reply book) s o = book_answered-Follows book s.book_in_flight s o o.0
on_event-Follows (trades_reply ts) s o = trades_answered-Follows ts s.trades_in_flight s o o.1

on_events-Follows : (es : List PageEvent) (s : Page) → OwnRequests s → Follows s (on_events es s)
unfolding on_events Follows
on_events-Follows [] s o = stays s o
on_events-Follows (e ∷ es) s o =
    let first = on_event-Follows e s o in
    Follows-trans s (on_event e s) (on_events es (on_event e s)) first
      (on_events-Follows es (on_event e s) first.0)

-- The requests of the effects before the next one.
IsOwn-next : (effect m m' : ℕ) (r : Option Request) → IsOwn effect m r → IsOwn (suc effect) m' r
unfolding IsOwn
IsOwn-next effect m m' none h = tt
IsOwn-next effect m m' (some r) h = (omega (arith, h.0), λ q. absurd (omega (arith, h.0, q)))

opened : ℕ → Bool → Page → Page
opened m visible s = record s { visible = visible; effect = suc s.effect; market_id = m }

session-Follows :
    (m : ℕ) (visible : Bool) (es : List PageEvent) (s : Page)
    → OwnRequests s
    → Follows (opened m visible s) (on_events es (open_market m visible s))
unfolding Follows OwnRequests open_market opened
session-Follows m visible es s o =
    let s' = opened m visible s in
    let begun = poll_both-Follows s' (
      IsOwn-next s.effect s.market_id m s.book_in_flight o.0,
      IsOwn-next s.effect s.market_id m s.trades_in_flight o.1,
    ) in
    Follows-trans s' (poll_both s') (on_events es (poll_both s')) begun
      (on_events-Follows es (poll_both s') begun.0)

visits-OwnRequests : (vs : List Visit) (s : Page) → OwnRequests s → OwnRequests (visits vs s)
unfolding visits Follows
visits-OwnRequests [] s o = o
visits-OwnRequests (v ∷ vs) s o =
    visits-OwnRequests vs _ (session-Follows v.market_id v.visible v.events s o).0

-- A page that has shown any markets before, with requests for them still under way, and that opens
-- a market: whatever the answers, the messages and the timer do from then on, the order book and the
-- trades of every other market stay as they are.
pub visits_elsewhere :
    (vs : List Visit) (m : ℕ) (visible : Bool) (es : List PageEvent) (k : ℕ)
    → k ≢ m
    → ((on_events es (open_market m visible (visits vs blank))).order_books k
        ≡ (visits vs blank).order_books k)
      × ((on_events es (open_market m visible (visits vs blank))).recent_trades k
          ≡ (visits vs blank).recent_trades k)
unfolding SameElsewhere Follows opened OwnRequests IsOwn blank
visits_elsewhere vs m visible es k ne =
    (session-Follows m visible es (visits vs blank) (visits-OwnRequests vs blank (tt, tt))).3 k
      (ground arith)
