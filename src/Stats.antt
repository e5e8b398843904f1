-- ===== src/Stats.antt =====
-- The statistics of traders, client/scripts/stats-aggregator.ts: the grouped queries and the upserts of a
-- period. The rows of "TraderStat" are those of the script's network, by period and address.
pub mod Keyed
pub mod Groups
pub mod Period
mod Tests
use kryon_v.Base.{
  ℕ, zero, suc, ◌+◌, Bool, true, false, ◌&&◌, max, Option, none, some, List, [], ◌∷◌, ◌++◌, map,
  ltb, leb, length, if◌then◌else◌, filterb, take, Text, codes, text_eq, ℤ, pos, ◌+ℤ◌, ◌-ℤ◌, ltb_ℤ,
}
use kryon_v.Matcher.Sort.{sort}
use kryon_v.Stream.Sets.{has}
use kryon_v.Stats.Keyed.{lookup, put_all}

pub record FillRow : Type 0 where
  pub network : Text
  pub maker : Text
  pub taker : Text
  pub fill_size : ℕ
  pub fill_price : ℕ
  pub created_at : ℕ

pub data PnlKind : Type 0 where
  realized_trade funding liquidation fee : PnlKind

pub record PnlEventRow : Type 0 where
  pub network : Text
  pub address : Text
  pub kind : PnlKind
  pub amount : ℤ
  pub created_at : ℕ

pub data BalanceKind : Type 0 where
  deposit withdrawal transfer_in transfer_out : BalanceKind

pub record BalanceRow : Type 0 where
  pub network : Text
  pub address : Text
  pub kind : BalanceKind
  pub amount : ℕ

pub record Tables : Type 0 where
  pub fills : List FillRow
  pub events : List PnlEventRow
  pub balances : List BalanceRow

-- What a sum or a count over the rows of a group is.
abbrev pub sum_by : {A : Type 0} → (A → Bool) → (A → ℕ) → List A → ℕ
sum_by p v [] = 0
sum_by p v (x ∷ xs) = (if p x then v x else 0) + sum_by p v xs

abbrev pub sum_ℤ : {A : Type 0} → (A → Bool) → (A → ℤ) → List A → ℤ
sum_ℤ p v [] = pos 0
sum_ℤ p v (x ∷ xs) = (if p x then v x else pos 0) +ℤ sum_ℤ p v xs

abbrev pub count : {A : Type 0} → (A → Bool) → List A → ℕ
count p xs = sum_by p (λ _. 1) xs

abbrev pub latest : {A : Type 0} → (A → Bool) → (A → ℕ) → List A → ℕ
latest p v [] = 0
latest p v (x ∷ xs) = max (if p x then v x else 0) (latest p v xs)

-- The keys of GROUP BY.
unfoldable pub distinct : List Text → List Text
distinct [] = []
distinct (a ∷ rest) = let later = distinct rest in if has text_eq a later then later else a ∷ later

-- Postgres's `size * price / 1e18` on numerics in its smallest unit, ECMAScript's
-- `(Number(a) / b).toFixed(4)`, and the double that `Number` makes of a sum of deposits.
pub record Numbers : Type 0 where
  pub notional : ℕ → ℕ → ℕ
  pub fixed : ℤ → ℕ → Text
  pub double : ℕ → ℕ

-- A side of a fill.
pub record Leg : Type 0 where
  pub addr : Text
  pub size : ℕ
  pub price : ℕ
  pub created_at : ℕ

abbrev pub maker_leg : FillRow → Leg
maker_leg f = record {
  addr = f.maker;
  size = f.fill_size;
  price = f.fill_price;
  created_at = f.created_at;
}

abbrev pub taker_leg : FillRow → Leg
taker_leg f = record {
  addr = f.taker;
  size = f.fill_size;
  price = f.fill_price;
  created_at = f.created_at;
}

pub record VolumeRow : Type 0 where
  pub address : Text
  pub volume : ℕ
  pub trade_count : ℕ
  pub last_trade_at : ℕ

pub record PnlRow : Type 0 where
  pub address : Text
  pub realized_pnl : ℤ
  pub fees_paid : ℤ
  pub funding_paid : ℤ
  pub wins : ℕ
  pub losses : ℕ
  pub liq_count : ℕ

-- What `aggregatePeriod` collects of an address.
pub record Entry : Type 0 where
  pub address : Text
  pub volume : Option VolumeRow
  pub pnl : Option PnlRow

pub record TraderStat : Type 0 where
  pub id : Text
  pub address : Text
  pub period_start : ℕ
  pub realized_pnl : ℤ
  pub volume : ℕ
  pub trade_count : ℕ
  pub winning_trades : ℕ
  pub losing_trades : ℕ
  pub win_rate : Text
  pub roi : Text
  pub fees_paid : ℤ
  pub funding_paid : ℤ
  pub liquidation_count : ℕ
  pub peak_collateral : ℕ
  pub last_trade_at : Option ℕ
  pub updated_at : ℕ

abbrev pub is_realized : PnlKind → Bool
is_realized realized_trade = true
is_realized funding = false
is_realized liquidation = false
is_realized fee = false

abbrev pub is_fee : PnlKind → Bool
is_fee fee = true
is_fee realized_trade = false
is_fee funding = false
is_fee liquidation = false

abbrev pub is_funding : PnlKind → Bool
is_funding funding = true
is_funding realized_trade = false
is_funding liquidation = false
is_funding fee = false

abbrev pub is_liquidation : PnlKind → Bool
is_liquidation liquidation = true
is_liquidation realized_trade = false
is_liquidation funding = false
is_liquidation fee = false

abbrev pub is_deposit : BalanceKind → Bool
is_deposit deposit = true
is_deposit withdrawal = false
is_deposit transfer_in = false
is_deposit transfer_out = false
