-- ===== src/Stats/Period.antt =====
-- `volumeStats`, `pnlStats`, `depositStats` and the upserts of `aggregatePeriod`,
-- client/scripts/stats-aggregator.ts, where all queries get through. The snapshot of the ranking, sorted
-- by doubles, is left out.
pub mod Sums
pub mod Exact
use kryon_v.Base.{
  ℕ, ◌+◌, Bool, true, false, ◌&&◌, max, Option, none, some, List, [], ◌∷◌, ◌++◌, map, ltb, leb,
  if◌then◌else◌, filterb, Text, codes, text_eq, ℤ, pos, ◌-ℤ◌, ltb_ℤ,
}
use kryon_v.Stats.{
  FillRow, PnlEventRow, BalanceRow, Tables, sum_by, sum_ℤ, count, latest, distinct, Numbers, Leg,
  maker_leg, taker_leg, VolumeRow, PnlRow, Entry, TraderStat, is_realized, is_fee, is_funding,
  is_liquidation, is_deposit,
}
use kryon_v.Stats.Keyed.{lookup, put_all}

-- The settings of a pass over a period.
pub record Pass : Type 0 where
  pub network : Text
  pub since : ℕ
  pub now : ℕ
  pub numbers : Numbers
  pub fresh_id : Text → Text

module _ (c : Pass) where
  abbrev pub in_window : FillRow → Bool
  in_window f = text_eq f.network c.network && leb c.since f.created_at

  abbrev pub event_in_window : PnlEventRow → Bool
  event_in_window e = text_eq e.network c.network && leb c.since e.created_at

  abbrev pub value_of : Leg → ℕ
  value_of l = c.numbers.notional l.size l.price

  -- The UNION ALL of makers and takers.
  unfoldable pub legs_of : List FillRow → List Leg
  legs_of fills = let live = filterb in_window fills in map maker_leg live ++ map taker_leg live

  unfoldable pub volume_row : List Leg → Text → VolumeRow
  volume_row legs a = record {
    address = a;
    volume = sum_by (λ l. text_eq a l.addr) value_of legs;
    trade_count = count (λ l. text_eq a l.addr) legs;
    last_trade_at = latest (λ l. text_eq a l.addr) (λ l. l.created_at) legs;
  }

  unfoldable pub volume_stats : List FillRow → List VolumeRow
  volume_stats fills =
      let legs = legs_of fills in
      map (volume_row legs) (distinct (map {A = Leg} (λ l. l.addr) legs))

  unfoldable pub pnl_row : List PnlEventRow → Text → PnlRow
  pnl_row events a = record {
    address = a;
    realized_pnl = sum_ℤ (λ e. text_eq a e.address && is_realized e.kind) (λ e. e.amount) events;
    fees_paid = sum_ℤ (λ e. text_eq a e.address && is_fee e.kind) (λ e. pos 0 -ℤ e.amount) events;
    funding_paid = sum_ℤ (λ e. text_eq a e.address && is_funding e.kind) (λ e. e.amount) events;
    wins =
        count (λ e. text_eq a e.address && (is_realized e.kind && ltb_ℤ (pos 0) e.amount)) events;
    losses =
        count (λ e. text_eq a e.address && (is_realized e.kind && ltb_ℤ e.amount (pos 0))) events;
    liq_count = count (λ e. text_eq a e.address && is_liquidation e.kind) events;
  }

  unfoldable pub pnl_stats : List PnlEventRow → List PnlRow
  pnl_stats events =
      let live = filterb event_in_window events in
      map (pnl_row live) (distinct (map {A = PnlEventRow} (λ e. e.address) live))

  -- The deposits of an address, 0 where it has no balance change.
  unfoldable pub deposited : List BalanceRow → Text → ℕ
  deposited balances a =
      sum_by (λ b. text_eq b.network c.network && (text_eq a b.address && is_deposit b.kind))
        (λ b. b.amount) balances

  abbrev pub pnl_before : Option Entry → Option PnlRow
  pnl_before none = none
  pnl_before (some e) = e.pnl

  abbrev pub volume_before : Option Entry → Option VolumeRow
  volume_before none = none
  volume_before (some e) = e.volume

  abbrev pub assign_volume : VolumeRow → Option Entry → Entry
  assign_volume r o = record { address = r.address; volume = some r; pnl = pnl_before o }

  abbrev pub assign_pnl : PnlRow → Option Entry → Entry
  assign_pnl r o = record { address = r.address; volume = volume_before o; pnl = some r }

  -- The map `byAddr`.
  unfoldable pub by_address : List VolumeRow → List PnlRow → List Entry
  by_address vol pnl =
      put_all (λ e. e.address) (λ r. r.address) assign_pnl pnl
        (put_all (λ e. e.address) (λ r. r.address) assign_volume vol [])

  abbrev pub volume_field : Option VolumeRow → ℕ
  volume_field none = 0
  volume_field (some r) = r.volume

  abbrev pub count_field : Option VolumeRow → ℕ
  count_field none = 0
  count_field (some r) = r.trade_count

  abbrev pub last_field : Option VolumeRow → Option ℕ
  last_field none = none
  last_field (some r) = some r.last_trade_at

  abbrev pub pnl_field : Text → Option PnlRow → PnlRow
  pnl_field a none = record {
    address = a;
    realized_pnl = pos 0;
    fees_paid = pos 0;
    funding_paid = pos 0;
    wins = 0;
    losses = 0;
    liq_count = 0;
  }
  pnl_field a (some r) = r

  abbrev pub kept_id : Text → Option TraderStat → Text
  kept_id a none = c.fresh_id a
  kept_id a (some t) = t.id

  abbrev pub kept_start : Option TraderStat → ℕ
  kept_start none = c.since
  kept_start (some t) = t.period_start

  -- The INSERT with its ON CONFLICT.
  unfoldable pub upsert : List BalanceRow → Entry → Option TraderStat → TraderStat
  upsert balances e old =
      let p = pnl_field e.address e.pnl in
      let in_hand = c.numbers.double (deposited balances e.address) in
      record {
        id = kept_id e.address old;
        address = e.address;
        period_start = kept_start old;
        realized_pnl = p.realized_pnl;
        volume = volume_field e.volume;
        trade_count = count_field e.volume;
        winning_trades = p.wins;
        losing_trades = p.losses;
        win_rate =
            if ltb 0 (p.wins + p.losses)
            then c.numbers.fixed (pos p.wins) (p.wins + p.losses)
            else codes "0.0000";
        roi = c.numbers.fixed p.realized_pnl (max in_hand 1);
        fees_paid = p.fees_paid;
        funding_paid = p.funding_paid;
        liquidation_count = p.liq_count;
        peak_collateral = in_hand;
        last_trade_at = last_field e.volume;
        updated_at = c.now;
      }

  unfoldable pub aggregate_period : Tables → List TraderStat → List TraderStat
  aggregate_period db stats =
      put_all (λ t. t.address) (λ e. e.address) (upsert db.balances)
        (by_address (volume_stats db.fills) (pnl_stats db.events)) stats
