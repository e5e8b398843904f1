-- ===== src/Candles/Tests.antt =====
-- Four fills in two windows of an hour.
use kryon_v.Base.{ℕ, ◌≡◌, refl, true, some, List, [], ◌∷◌, ltb, All, pos}
use kryon_v.Matcher.Sort.{sort, insert, IsSorted}
use kryon_v.Candles.{
  FillRow, Candle, bucketed, distinct_times, candles_at, candles, get_candles, candles_200,
}
use kryon_v.Candles.Exact.{IsCandle}
use kryon_v.Candles.Ohlc.{fills_in, HasCandle, candles-IsChart}

abbrev fill_of : ℕ → ℕ → FillRow
fill_of price at = record { market_id = 1; fill_price = price; fill_size = 5; created_at = at }

abbrev fills : List FillRow
fills = fill_of 100 10 ∷ fill_of 140 20 ∷ fill_of 90 30 ∷ fill_of 95 3600001 ∷ []

abbrev chart : List Candle
chart =
    (record { time = 0; open_price = 100; high = 140; low = 90; close_price = 90; volume = 15 })
    ∷ (record { time = 3600; open_price = 95; high = 95; low = 95; close_price = 95; volume = 5 })
    ∷ []

charted : get_candles true (some 1) (some (pos 3600)) (some (pos 600)) fills ≡ candles_200 chart
unfolding get_candles candles bucketed distinct_times candles_at sort insert
charted = refl

candles-IsChart_example :
    All (λ c. IsCandle (fills_in 1 3600 c.time fills) c) (candles 1 3600 600 fills)
    × IsSorted (λ a b. ltb a.time b.time) (candles 1 3600 600 fills)
    × All (λ f. HasCandle 3600 (bucketed 1 fills) f) (bucketed 1 fills)
candles-IsChart_example = candles-IsChart 1 3600 600 fills
