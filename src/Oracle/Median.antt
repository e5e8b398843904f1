-- ===== src/Oracle/Median.antt =====
-- The oracle keeper's prices, client/scripts/oracle-keeper.ts: what each venue's reply is worth, and
-- `aggregatePrice`, the median of the venues that answer. The numbers are doubles other than NaN: the
-- sources are finite and positive, from which the source's operations make no NaN.
pub mod Counts
pub mod Agreed
pub mod Robust
pub mod Published
use kryon_v.Base.{
  ℕ, ◌+◌, ◌-◌, ◌/◌, ◌%◌, ◌≤◌, ◌≡◌, ◌⊎◌, Bool, true, false, ◌&&◌, not, Option, none, some, List, [],
  ◌∷◌, ◌++◌, ◌==◌, ltb, leb, if◌then◌else◌, length, get_elem?, Text, codes, text_eq,
}
use kryon_v.Matcher.Sort.{sort}
use kryon_v.Oracle.{AggregatedPrice}

-- The operations and constants of `number` that the keeper uses. `round` is `BigInt(Math.round(x))`
-- of a number that is not negative; infinity makes it throw.
pub record Double (D : Type 0) : Type 0 where
  pub zero_is : D
  pub two : D
  pub ten_thousand : D
  pub precision : D
  pub le : D → D → Bool
  pub is_finite : D → Bool
  pub plus : D → D → D
  pub minus : D → D → D
  pub times : D → D → D
  pub over : D → D → D
  pub round : D → Option ℕ

infix 4 ◌≼◌
abbrev pub ◌≼◌ : {D : Type 0} ⦃d : Double D⦄ → D → D → Type 0
◌≼◌ ⦃d⦄ x y = d.le x y ≡ true

abbrev pub scaled : {D : Type 0} ⦃d : Double D⦄ → D → Option ℕ
scaled ⦃d⦄ x = d.round (d.times x d.precision)

abbrev pub half_of : {D : Type 0} ⦃d : Double D⦄ → D → D
half_of ⦃d⦄ x = d.over x d.two

-- Away from NaN the order is total; scaling and rounding are monotone, and give a result for finite
-- products only; the mean of two numbers, where their sum is finite, lies between them.
pub record IsDouble (D : Type 0) ⦃d : Double D⦄ : Type 0 where
  pub le_total : (x y : D) → (x ≼ y) ⊎ (y ≼ x)
  pub le_trans : (x y z : D) → x ≼ y → y ≼ z → x ≼ z
  pub scaled_mono : (x y : D) (m n : ℕ) → x ≼ y → scaled x ≡ some m → scaled y ≡ some n → m ≤ n
  pub scaled_finite : (x : D) (n : ℕ) → scaled x ≡ some n → d.is_finite x ≡ true
  pub half_finite : (x : D) → d.is_finite (half_of x) ≡ true → d.is_finite x ≡ true
  pub mean_between :
      (x y : D)
      → x ≼ y
      → d.is_finite (d.plus x y) ≡ true
      → (x ≼ half_of (d.plus x y)) × (half_of (d.plus x y) ≼ y)

-- A venue's reply: `none` is a request that fails or times out, or a reply that is no JSON.
pub record KrakenReply : Type 0 where
  pub errors : List Text
  pub last_trades : List (Option Text)

module _ {D : Type 0} ⦃d : Double D⦄ (parse_float : Text → Option D) where
  -- `Number.isFinite(p) && p > 0`; `parse_float` gives `none` for NaN.
  abbrev usable : Option D → Option D
  usable none = none
  usable (some p) = if d.is_finite p && not (d.le p d.zero_is) then some p else none

  abbrev price_of : Option Text → Option D
  price_of none = none
  price_of (some t) = usable (parse_float t)

  -- The text at `price`, or at `data.amount`; a field that is missing parses to NaN.
  unfoldable pub binance_price : Option (Option Text) → Option D
  binance_price none = none
  binance_price (some field) = price_of field

  unfoldable pub coinbase_price : Option (Option Text) → Option D
  coinbase_price none = none
  coinbase_price (some field) = price_of field

  abbrev first_price : List (Option Text) → Option D
  first_price [] = none
  first_price (t ∷ ts) = price_of t

  abbrev kraken_read : List Text → List (Option Text) → Option D
  kraken_read [] trades = first_price trades
  kraken_read (e ∷ errors) trades = none

  unfoldable pub kraken_price : Option KrakenReply → Option D
  kraken_price none = none
  kraken_price (some reply) = kraken_read reply.errors reply.last_trades

-- Kraken's name of an asset's pair.
unfoldable pub kraken_pair : Text → Text
kraken_pair base_asset =
    (if text_eq base_asset (codes "BTC") then codes "XBT" else base_asset) ++ codes "USD"

-- What `aggregatePrice` comes to; `agreed` has the price and the number of sources.
pub data Aggregation : Type 0 where
  too_few too_far throws : Aggregation
  agreed : AggregatedPrice → ℕ → Aggregation

-- At least 0.1%, widened to half the spread.
unfoldable pub confidence_of : ℕ → ℕ → ℕ
confidence_of price spread = if ltb (price / 1000) spread then spread else price / 1000

abbrev pub agreed_on : ℕ → Option ℕ → Option ℕ → Aggregation
agreed_on sources (some price) (some spread) =
    agreed (record { price = price; confidence = confidence_of price spread }) sources
agreed_on sources _ _ = throws

module _ {D : Type 0} ⦃d : Double D⦄ where
  -- The fulfilled of the settled promises.
  abbrev pub fulfilled : List (Option D) → List D
  fulfilled [] = []
  fulfilled (none ∷ xs) = fulfilled xs
  fulfilled (some p ∷ xs) = p ∷ fulfilled xs

  unfoldable pub sorted_prices : List (Option D) → List D
  sorted_prices answers = sort d.le (fulfilled answers)

  abbrev pub spread_bps : D → D → D
  spread_bps first last = d.times (d.over (d.minus last first) first) d.ten_thousand

  abbrev pub mean : Option D → Option D → Option D
  mean (some x) (some y) = some (half_of (d.plus x y))
  mean _ _ = none

  unfoldable pub median : List D → Option D
  median prices =
      if length prices % 2 == 1
      then get_elem? prices ((length prices - 1) / 2)
      else mean (get_elem? prices (length prices / 2 - 1)) (get_elem? prices (length prices / 2))

  abbrev pub scaled_or_throws : Option D → Option ℕ
  scaled_or_throws none = none
  scaled_or_throws (some x) = scaled x

  abbrev pub aggregate_from : D → List D → Option D → Option D → Aggregation
  aggregate_from limit prices (some first) (some last) =
      if d.le (spread_bps first last) limit
      then agreed_on (length prices) (scaled_or_throws (median prices))
          (scaled (half_of (d.minus last first)))
      else too_far
  aggregate_from limit prices _ _ = throws

  -- Without any source, where none is needed, `BigInt(NaN)` throws.
  unfoldable pub aggregate_price : ℕ → D → List (Option D) → Aggregation
  aggregate_price min_sources limit answers =
      let prices = sorted_prices answers in
      if ltb (length prices) min_sources
      then too_few
      else aggregate_from limit prices (get_elem? prices 0) (get_elem? prices (length prices - 1))

-- What the tick of a market reads: a throw and an absent price both skip the publish.
abbrev pub to_option : Aggregation → Option AggregatedPrice
to_option (agreed a sources) = some a
to_option _ = none
