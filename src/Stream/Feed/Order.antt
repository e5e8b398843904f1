-- ===== src/Stream/Feed/Order.antt =====
-- The order in which the trades of a market are pushed, client/scripts/ws-server.ts.
use kryon_v.Base.{
  ℕ, ◌≤◌, ◌<◌, ◌≡◌, refl, ap, Bool, true, false, Option, none, some, List, [], ◌∷◌, map, ==_iff,
  ltb, leb, All, All-map, All-filterb_self, All-reverse, Text, arith,
}
use kryon_v.Matcher.Sort.{
  IsSorted, sort-IsSorted, IsSorted-filterb, IsSorted-take, IsSorted-map, IsSorted-reverse,
}
use kryon_v.Stream.{trades_channel}
use kryon_v.Stream.Feed.{
  TradeRow, Trade, Numbers, newest_first, trade_of, fetch_recent_trades, or_zero, push, new_trades,
  Feed, Run, send_trades, awaited, on_rows, on_trades, on_book, broadcast_market, pushed,
  broadcast_runs,
}

abbrev newer : Trade → Trade → Bool
newer t u = leb u.timestamp t.timestamp

newest_first_total : (a b : TradeRow) → newest_first a b ≡ false → newest_first b a ≡ true
newest_first_total a b h = ground arith

newest_first_trans :
    (a b c : TradeRow) → newest_first a b ≡ true → newest_first b c ≡ true → newest_first a c ≡ true
newest_first_trans a b c h k = ground arith

trade_of-newer :
    (n : Numbers) (a b : TradeRow)
    → newest_first a b ≡ true
    → newer (trade_of n a) (trade_of n b) ≡ true
trade_of-newer n a b h = ground arith

fetch-IsSorted :
    (n : Numbers) (market_id limit : ℕ) (rows : List TradeRow)
    → IsSorted newer (fetch_recent_trades n market_id limit rows)
unfolding fetch_recent_trades
fetch-IsSorted n market_id limit rows =
    IsSorted-map newest_first newer (trade_of n) (trade_of-newer n) _ (
      IsSorted-take newest_first limit _
        (sort-IsSorted newest_first newest_first_total newest_first_trans _))

-- What one run adds, over the last timestamp before and after: later trades, oldest first.
abbrev Advances : ℕ → List Trade × ℕ → Type 0
Advances last (ts, seen) =
    All (λ t. last < t.timestamp) ts
    × All (λ t. t.timestamp ≤ seen) ts
    × (last ≤ seen)
    × IsSorted (λ t u. newer u t) ts

Advances-none : (last : ℕ) → Advances last ([], last)
Advances-none last = (tt, tt, omega arith, tt)

push-Advances :
    (ts : List Trade) (last : Option ℕ)
    → All (λ t. or_zero last < t.timestamp) ts
    → IsSorted newer ts
    → Advances (or_zero last) ((push ts last).0, or_zero (push ts last).1)
push-Advances [] last h k = Advances-none (or_zero last)
push-Advances (t ∷ ts) last h (k, ks) = (
  All-reverse _ (t ∷ ts) h,
  All-reverse (λ u. u.timestamp ≤ t.timestamp) (t ∷ ts)
      (omega arith, All-map _ _ (λ u e. ground arith) ts k),
  omega (arith, h.0),
  IsSorted-reverse newer (t ∷ ts) (k, ks),
)

new_trades-Advances :
    (ts : List Trade) (last : Option ℕ)
    → IsSorted newer ts
    → Advances (or_zero last) ((new_trades ts last).0, or_zero (new_trades ts last).1)
unfolding new_trades
new_trades-Advances ts last h =
    push-Advances _ last
      (All-map _ _ (λ t e. ground arith) _
        (All-filterb_self (λ t. ltb (or_zero last) t.timestamp) ts))
      (IsSorted-filterb newer _ ts h)

pushed-send_trades :
    (c : Text) (is_open : ℕ → Bool) (ts : List Trade) (s : Feed)
    → pushed (send_trades c is_open ts s).0 ≡ ts
pushed-send_trades c is_open [] s = refl
pushed-send_trades c is_open (t ∷ ts) s = ap (λ us. t ∷ us) (pushed-send_trades c is_open ts _)

last-send_trades :
    (c : Text) (is_open : ℕ → Bool) (ts : List Trade) (s : Feed)
    → (send_trades c is_open ts s).1.last_trade_ts ≡ s.last_trade_ts
last-send_trades c is_open [] s = refl
last-send_trades c is_open (t ∷ ts) s = last-send_trades c is_open ts _

module _ (n : Numbers) (market_id : ℕ) where
  abbrev last_of : Feed → ℕ
  last_of s = or_zero (s.last_trade_ts market_id)

  on_rows-Advances :
      (run : Run) (rows : Option (List TradeRow)) (s : Feed)
      → Advances
          (last_of s)
          (pushed (on_rows n market_id run rows s).0, last_of (on_rows n market_id run rows s).1)
  on_rows-Advances run none s = Advances-none (last_of s)
  on_rows-Advances run (some rows) s =
      let trades = fetch_recent_trades n market_id 10 rows in
      rw
        (
          pushed-send_trades (trades_channel market_id) run.open_at_trades _ _,
          last-send_trades (trades_channel market_id) run.open_at_trades _ _,
          (==_iff market_id market_id).1 refl,
        )
        (new_trades-Advances trades (s.last_trade_ts market_id)
          (fetch-IsSorted n market_id 10 rows))

  on_trades-Advances :
      (run : Run) (has_trades : Bool) (s : Feed)
      → Advances (last_of s) (
        pushed (on_trades n market_id run has_trades s).0,
        last_of (on_trades n market_id run has_trades s).1,
      )
  on_trades-Advances run false s = Advances-none (last_of s)
  on_trades-Advances run true s = on_rows-Advances run run.rows (awaited run.during_rows s)

  on_book-Advances :
      (run : Run) (has_book has_trades : Bool) (book : Option Text) (s : Feed)
      → Advances (last_of s) (
        pushed (on_book n market_id run has_book has_trades book s).0,
        last_of (on_book n market_id run has_book has_trades book s).1,
      )
  on_book-Advances run false has_trades book s = on_trades-Advances run has_trades s
  on_book-Advances run true has_trades none s = Advances-none (last_of s)
  on_book-Advances run true has_trades (some book) s = on_trades-Advances run has_trades _

  -- The trades of each run are sent oldest first, and before those of the runs after it.
  abbrev pub IsFeed : List (List Trade) → Type 0
  IsFeed [] = Unit
  IsFeed (ts ∷ rest) =
      IsSorted (λ t u. newer u t) ts
      × All (λ t. All (λ us. All (λ u. t.timestamp < u.timestamp) us) rest) ts
      × IsFeed rest

  abbrev pub sent : List Run → Feed → List (List Trade)
  sent runs s = map pushed (broadcast_runs n market_id runs s)

  sent_beyond :
      (runs : List Run) (s : Feed) (bound : ℕ)
      → bound ≤ last_of s
      → All (λ us. All (λ u. bound < u.timestamp) us) (sent runs s)
  unfolding broadcast_runs broadcast_market
  sent_beyond [] s bound h = tt
  sent_beyond (r ∷ runs) s bound h =
      let step = on_book-Advances r _ _ r.book (awaited r.before s) in
      (
        All-map _ (λ u. bound < u.timestamp) (λ u e. omega (arith, h, e)) _ step.0,
        sent_beyond runs _ bound (omega (arith, h, step.2)),
      )

  -- The trades that the runs for a market push, whatever the queries answer and whatever happens
  -- between and during them: those of a run in the order of their time, and each with a later time than
  -- all that were pushed in the runs before.
  pub broadcast_runs-IsFeed : (runs : List Run) (s : Feed) → IsFeed (sent runs s)
  unfolding broadcast_runs broadcast_market
  broadcast_runs-IsFeed [] s = tt
  broadcast_runs-IsFeed (r ∷ runs) s =
      let step = on_book-Advances r _ _ r.book (awaited r.before s) in
      (
        step.3,
        All-map _ _ (λ t e. sent_beyond runs _ t.timestamp e) _ step.1,
        broadcast_runs-IsFeed runs _,
      )
