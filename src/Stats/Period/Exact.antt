-- ===== src/Stats/Period/Exact.antt =====
-- The rows that `aggregatePeriod` leaves, client/scripts/stats-aggregator.ts, by address.
use kryon_v.Base.{
  ◌+◌, ◌≡◌, ◌⊎◌, refl, ◌∙◌, Bool, true, false, ◌||◌, Option, none, some, List, [], if◌then◌else◌,
  filterb, someb, Text, text_eq, inl, inr,
}
use kryon_v.Stats.{Tables, sum_by, sum_ℤ, count, VolumeRow, PnlRow, Entry, TraderStat}
use kryon_v.Stats.Keyed.{lookup, AreKeyed, updated, lookup-put_all, put_all-AreKeyed}
use kryon_v.Stats.Groups.{
  distinct-AreKeyed, map-AreKeyed, sum_by-filterb, someb-filterb, sum_ℤ-filterb,
}
use kryon_v.Stats.Period.{
  Pass, event_in_window, value_of, legs_of, volume_row, volume_stats, pnl_row, pnl_stats,
  assign_volume, assign_pnl, by_address, volume_field, count_field, pnl_field, upsert,
  aggregate_period,
}
use kryon_v.Stats.Period.Sums.{
  leg_is, event_is, volume_of, pnl_of, volume_row_key, pnl_row_key, lookup-volume_stats,
  lookup-pnl_stats, merged, lookup-by_address, is_maker, is_taker, is_event, is_close, is_win,
  value, someb-legs_of, sum_by-legs_of, volume_if, pnl_if,
}

module _ (c : Pass) (db : Tables) (b : Text) where
  -- The address has a fill or an event in the window.
  abbrev pub is_active : Bool
  is_active =
      (someb (is_maker c b) db.fills || someb (is_taker c b) db.fills)
      || someb (is_event c b) db.events

  -- A row that sums the tables.
  abbrev pub IsSummed : TraderStat → Type 0
  IsSummed row =
      (row.volume
        ≡ sum_by (is_maker c b) (value c b) db.fills + sum_by (is_taker c b) (value c b) db.fills)
      × (row.trade_count ≡ count (is_maker c b) db.fills + count (is_taker c b) db.fills)
      × (row.realized_pnl ≡ sum_ℤ (is_close c b) (λ e. e.amount) db.events)
      × (row.winning_trades ≡ count (is_win c b) db.events)

  abbrev HasFields : Option VolumeRow → Option PnlRow → TraderStat → Type 0
  HasFields vol pnl row =
      (row.volume ≡ volume_field c vol)
      × (row.trade_count ≡ count_field c vol)
      × (row.realized_pnl ≡ (pnl_field c b pnl).realized_pnl)
      × (row.winning_trades ≡ (pnl_field c b pnl).wins)

  upsert_key : (e : Entry) (o : Option TraderStat) → (upsert c db.balances e o).address ≡ e.address
  unfolding upsert
  upsert_key e o = refl

  volume_stats-AreKeyed : AreKeyed (λ r. r.address) (volume_stats c db.fills)
  unfolding volume_stats
  volume_stats-AreKeyed =
      map-AreKeyed (λ r. r.address) (volume_row c (legs_of c db.fills))
        (volume_row_key c b (legs_of c db.fills)) _ (distinct-AreKeyed _)

  pnl_stats-AreKeyed : AreKeyed (λ r. r.address) (pnl_stats c db.events)
  unfolding pnl_stats
  pnl_stats-AreKeyed =
      let live = filterb (event_in_window c) db.events in
      map-AreKeyed (λ r. r.address) (pnl_row c live) (pnl_row_key c b live) _ (distinct-AreKeyed _)

  by_address-AreKeyed :
      (vol : List VolumeRow) (pnl : List PnlRow) → AreKeyed (λ e. e.address) (by_address c vol pnl)
  unfolding by_address
  by_address-AreKeyed vol pnl =
      put_all-AreKeyed (λ e. e.address) (λ r. r.address) (assign_pnl c) (λ _ _. refl) pnl _
        (put_all-AreKeyed (λ e. e.address) (λ r. r.address) (assign_volume c) (λ _ _. refl) vol []
          tt)

  lookup-aggregate :
      (stats : List TraderStat)
      → lookup (λ t. t.address) b (aggregate_period c db stats)
        ≡ updated
            (upsert c db.balances)
            (merged c b (volume_of c b db.fills) (pnl_of c b db.events))
            (lookup (λ t. t.address) b stats)
  unfolding aggregate_period
  lookup-aggregate stats =
      let vol = volume_stats c db.fills in
      let pnl = pnl_stats c db.events in
      lookup-put_all (λ t. t.address) (λ e. e.address) (upsert c db.balances) upsert_key b
        (by_address c vol pnl) stats (by_address-AreKeyed vol pnl)
      ∙ rw
          (
            lookup-by_address c b vol pnl volume_stats-AreKeyed pnl_stats-AreKeyed,
            lookup-volume_stats c b db.fills,
            lookup-pnl_stats c b db.events,
          )
          refl

  -- What the upsert writes, by whether the address has fills and events.
  written :
      (t u : Bool) (r : VolumeRow) (p : PnlRow) (old : Option TraderStat)
      → (((t || u) ≡ false)
          × (updated
                (upsert c db.balances)
                (merged c b (if t then some r else none) (if u then some p else none))
                old
              ≡ old))
        ⊎ (((t || u) ≡ true)
            × (row : TraderStat) × (updated
                  (upsert c db.balances)
                  (merged c b (if t then some r else none) (if u then some p else none))
                  old
                ≡ some row)
            × HasFields (if t then some r else none) (if u then some p else none) row)
  unfolding upsert
  written true true r p old = inr (refl, _, refl, (refl, refl, refl, refl))
  written true false r p old = inr (refl, _, refl, (refl, refl, refl, refl))
  written false true r p old = inr (refl, _, refl, (refl, refl, refl, refl))
  written false false r p old = inl (refl, refl)

  HasFields-IsSummed :
      (row : TraderStat)
      → HasFields (volume_of c b db.fills) (pnl_of c b db.events) row
      → IsSummed row
  HasFields-IsSummed row (v, n, p, w) =
      let live = filterb (event_in_window c) db.events in
      let vol = volume_if c b (legs_of c db.fills) _ refl in
      let pnl = pnl_if c b live _ refl in
      (
        v ∙ vol.0 ∙ sum_by-legs_of c b (value_of c) db.fills,
        n ∙ vol.1 ∙ sum_by-legs_of c b (λ _. 1) db.fills,
        p ∙ pnl.0 ∙ sum_ℤ-filterb (event_in_window c) _ (λ e. e.amount) db.events,
        w ∙ pnl.1 ∙ sum_by-filterb (event_in_window c) _ (λ _. 1) db.events,
      )

  active_groups : is_active ≡ (
      someb (leg_is c b) (legs_of c db.fills)
      || someb (event_is c b) (filterb (event_in_window c) db.events))
  active_groups =
      rw
        (
          someb-legs_of c b db.fills,
          someb-filterb (event_in_window c) (λ e. text_eq b e.address) db.events,
        )
        refl

  -- After a pass whose queries get through, the row of an address with a fill or an event in the window
  -- holds the volume and the number of its fills as maker and as taker, its realized PnL and its number
  -- of wins in the window; the row of an address without any is what it was.
  pub aggregate_period-IsExact :
      (stats : List TraderStat)
      → ((is_active ≡ false)
          × (lookup (λ t. t.address) b (aggregate_period c db stats)
              ≡ lookup (λ t. t.address) b stats))
        ⊎ ((is_active ≡ true)
            × (row : TraderStat) × (lookup (λ t. t.address) b (aggregate_period c db stats)
                ≡ some row)
            × IsSummed row)
  aggregate_period-IsExact stats =
      let live = filterb (event_in_window c) db.events in
      let legs = legs_of c db.fills in
      elim (written (someb (leg_is c b) legs) (someb (event_is c b) live) (volume_row c legs b)
        (pnl_row c live b) (lookup (λ t. t.address) b stats)) [
          | inl (idle, same) ↦ inl (active_groups ∙ idle, lookup-aggregate stats ∙ same)
          | inr (active, row, e, fields) ↦ inr (
            active_groups ∙ active,
            row,
            lookup-aggregate stats ∙ e,
            HasFields-IsSummed row fields,
          )
        ]
