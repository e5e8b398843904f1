-- ===== src/Candles.antt =====
-- `GET /api/markets/[id]/candles`, client/app/api/markets/[id]/candles/route.ts: fills grouped into
-- windows of time. Prices and sizes are scaled to doubles only when they are shown.
pub mod Ohlc
pub mod Exact
pub mod Apart
mod Tests
use kryon_v.Base.{
  ℕ, ◌+◌, ◌*◌, ◌/◌, max, min, Bool, true, false, ◌||◌, not, Option, none, some, List, [], ◌∷◌, ◌==◌,
  ltb, leb, if◌then◌else◌, map, filterb, take, reverse, ℤ, pos, negsuc,
}
use kryon_v.Matcher.Sort.{sort}

-- The columns of "Fill" that the query reads; `created_at` is in milliseconds.
pub record FillRow : Type 0 where
  pub market_id : ℕ
  pub fill_price : ℕ
  pub fill_size : ℕ
  pub created_at : ℕ

pub record Candle : Type 0 where
  pub time : ℕ
  pub open_price : ℕ
  pub high : ℕ
  pub low : ℕ
  pub close_price : ℕ
  pub volume : ℕ

-- The start of a fill's window, in seconds.
abbrev pub window : ℕ → FillRow → ℕ
window tf f = f.created_at / (1000 * tf) * tf

abbrev pub earlier : FillRow → FillRow → Bool
earlier f g = leb f.created_at g.created_at

unfoldable pub bucketed : ℕ → List FillRow → List FillRow
bucketed market_id fills = sort earlier (filterb (λ f. f.market_id == market_id) fills)

-- The keys of `GROUP BY time`.
unfoldable pub distinct_times : List ℕ → List ℕ
distinct_times [] = []
distinct_times (t ∷ ts) = t ∷ filterb (λ u. not (u == t)) (distinct_times ts)

abbrev pub highest : ℕ → List FillRow → ℕ
highest p [] = p
highest p (f ∷ fs) = max f.fill_price (highest p fs)

abbrev pub lowest : ℕ → List FillRow → ℕ
lowest p [] = p
lowest p (f ∷ fs) = min f.fill_price (lowest p fs)

abbrev pub last_price : ℕ → List FillRow → ℕ
last_price p [] = p
last_price p (f ∷ fs) = last_price f.fill_price fs

abbrev pub total : List FillRow → ℕ
total [] = 0
total (f ∷ fs) = f.fill_size + total fs

-- A group's row; a group has a fill.
abbrev pub candle_of : ℕ → List FillRow → List Candle
candle_of time [] = []
candle_of time (f ∷ fs) =
    (record {
      time = time;
      open_price = f.fill_price;
      high = highest f.fill_price fs;
      low = lowest f.fill_price fs;
      close_price = last_price f.fill_price fs;
      volume = f.fill_size + total fs;
    })
    ∷ []

abbrev pub in_window : ℕ → List FillRow → ℕ → List FillRow
in_window tf rows time = filterb (λ f. window tf f == time) rows

-- A group's candle before the others.
abbrev pub append : List Candle → List Candle → List Candle
append [] cs = cs
append (c ∷ ds) cs = c ∷ cs

unfoldable pub candles_at : ℕ → List FillRow → List ℕ → List Candle
candles_at tf rows [] = []
candles_at tf rows (t ∷ ts) = append (candle_of t (in_window tf rows t)) (candles_at tf rows ts)

abbrev pub newest_first : Candle → Candle → Bool
newest_first a b = leb b.time a.time

-- The query and the reversal of its rows.
unfoldable pub candles : ℕ → ℕ → ℕ → List FillRow → List Candle
candles market_id tf limit fills =
    let rows = bucketed market_id fills in
    reverse
      (take limit (sort newest_first (candles_at tf rows (distinct_times (map (window tf) rows)))))

pub data CandleReply : Type 0 where
  invalid_400 failed_500 : CandleReply
  candles_200 : List Candle → CandleReply

-- `Math.max(60, tf)`
abbrev pub at_least_60 : ℤ → ℕ
at_least_60 (pos n) = max 60 n
at_least_60 (negsuc n) = 60

-- The route, with what `parseInt` makes of the id, which is not negative, the window (3600 without one) and the limit (600
-- without one); `none` is NaN, and the database refuses it and a negative limit.
abbrev pub with_limit : ℕ → ℕ → ℤ → List FillRow → CandleReply
with_limit market_id tf (pos n) fills = candles_200 (candles market_id tf (min n 1000) fills)
with_limit market_id tf (negsuc n) fills = failed_500

abbrev pub with_window : Bool → ℕ → Option ℤ → Option ℤ → List FillRow → CandleReply
with_window reaches_db market_id (some tf) (some limit) fills =
    if reaches_db then with_limit market_id (at_least_60 tf) limit fills else failed_500
with_window reaches_db market_id _ _ fills = failed_500

unfoldable pub get_candles : Bool → Option ℕ → Option ℤ → Option ℤ → List FillRow → CandleReply
get_candles reaches_db none tf limit fills = invalid_400
get_candles reaches_db (some market_id) tf limit fills =
    if market_id == 0 then invalid_400 else with_window reaches_db market_id tf limit fills
