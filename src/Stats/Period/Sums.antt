-- ===== src/Stats/Period/Sums.antt =====
-- What `aggregatePeriod` collects of an address, client/scripts/stats-aggregator.ts.
use kryon_v.Base.{
  ℕ, ◌+◌, ◌≡◌, refl, sym, ap, ◌∙◌, Bool, true, false, ◌&&◌, ◌||◌, Option, none, some, List, [], map,
  if◌then◌else◌, filterb, someb, Text, text_eq, pos, ltb_ℤ,
}
use kryon_v.Stats.{
  FillRow, PnlEventRow, sum_by, sum_ℤ, count, Leg, maker_leg, taker_leg, VolumeRow, PnlRow, Entry,
  is_realized,
}
use kryon_v.Stats.Keyed.{lookup, AreKeyed, updated, lookup-put_all}
use kryon_v.Stats.Groups.{
  has-distinct, lookup-map, someb-map, sum_by-map, someb-append, sum_by-append, sum_by-filterb,
  someb-filterb, sum_by_absent, sum_ℤ_absent,
}
use kryon_v.Stats.Period.{
  Pass, in_window, event_in_window, value_of, legs_of, volume_row, volume_stats, pnl_row, pnl_stats,
  assign_volume, assign_pnl, by_address, volume_field, count_field, pnl_field,
}

module _ (c : Pass) (b : Text) where
  -- The groups of an address.
  abbrev pub leg_is : Leg → Bool
  leg_is l = text_eq b l.addr

  abbrev pub event_is : PnlEventRow → Bool
  event_is e = text_eq b e.address

  abbrev pub volume_of : List FillRow → Option VolumeRow
  volume_of fills =
      if someb leg_is (legs_of c fills) then some (volume_row c (legs_of c fills) b) else none

  abbrev pub pnl_of : List PnlEventRow → Option PnlRow
  pnl_of events =
      let live = filterb (event_in_window c) events in
      if someb event_is live then some (pnl_row c live b) else none

  pub volume_row_key : (legs : List Leg) (a : Text) → (volume_row c legs a).address ≡ a
  unfolding volume_row
  volume_row_key legs a = refl

  pub pnl_row_key : (events : List PnlEventRow) (a : Text) → (pnl_row c events a).address ≡ a
  unfolding pnl_row
  pnl_row_key events a = refl

  pub lookup-volume_stats :
      (fills : List FillRow) → lookup (λ r. r.address) b (volume_stats c fills) ≡ volume_of fills
  unfolding volume_stats
  lookup-volume_stats fills =
      let legs = legs_of c fills in
      lookup-map (λ r. r.address) (volume_row c legs) (volume_row_key legs) b _
      ∙ ap (λ t. if t then some (volume_row c legs b) else none)
          (has-distinct b _ ∙ someb-map (text_eq b) (λ l. l.addr) legs)

  pub lookup-pnl_stats :
      (events : List PnlEventRow) → lookup (λ r. r.address) b (pnl_stats c events) ≡ pnl_of events
  unfolding pnl_stats
  lookup-pnl_stats events =
      let live = filterb (event_in_window c) events in
      lookup-map (λ r. r.address) (pnl_row c live) (pnl_row_key live) b _
      ∙ ap (λ t. if t then some (pnl_row c live b) else none)
          (has-distinct b _ ∙ someb-map (text_eq b) (λ e. e.address) live)

  -- What is collected of the address, from its groups.
  abbrev pub merged : Option VolumeRow → Option PnlRow → Option Entry
  merged vol pnl = updated (assign_pnl c) pnl (updated (assign_volume c) vol none)

  pub lookup-by_address :
      (vol : List VolumeRow) (pnl : List PnlRow)
      → AreKeyed (λ r. r.address) vol
      → AreKeyed (λ r. r.address) pnl
      → lookup (λ e. e.address) b (by_address c vol pnl)
        ≡ merged (lookup (λ r. r.address) b vol) (lookup (λ r. r.address) b pnl)
  unfolding by_address
  lookup-by_address vol pnl hv hp =
      lookup-put_all (λ e. e.address) (λ r. r.address) (assign_pnl c) (λ _ _. refl) b pnl _ hp
      ∙ ap (updated (assign_pnl c) (lookup (λ r. r.address) b pnl)) (
          lookup-put_all (λ e. e.address) (λ r. r.address) (assign_volume c) (λ _ _. refl) b vol []
            hv)

  -- The sums of an address over the tables of the window.
  abbrev pub is_maker : FillRow → Bool
  is_maker f = in_window c f && text_eq b f.maker

  abbrev pub is_taker : FillRow → Bool
  is_taker f = in_window c f && text_eq b f.taker

  abbrev pub is_event : PnlEventRow → Bool
  is_event e = event_in_window c e && text_eq b e.address

  abbrev pub is_close : PnlEventRow → Bool
  is_close e = event_in_window c e && (text_eq b e.address && is_realized e.kind)

  abbrev pub is_win : PnlEventRow → Bool
  is_win e =
      event_in_window c e && (text_eq b e.address && (is_realized e.kind && ltb_ℤ (pos 0) e.amount))

  abbrev pub value : FillRow → ℕ
  value f = c.numbers.notional f.fill_size f.fill_price

  pub someb-legs_of :
      (fills : List FillRow)
      → someb leg_is (legs_of c fills) ≡ (someb is_maker fills || someb is_taker fills)
  unfolding legs_of
  someb-legs_of fills =
      let live = filterb (in_window c) fills in
      rw
        (
          someb-append leg_is (map maker_leg live) (map taker_leg live),
          someb-map leg_is maker_leg live,
          someb-map leg_is taker_leg live,
          someb-filterb (in_window c) (λ f. text_eq b f.maker) fills,
          someb-filterb (in_window c) (λ f. text_eq b f.taker) fills,
        )
        refl

  pub sum_by-legs_of :
      (v : Leg → ℕ) (fills : List FillRow)
      → sum_by leg_is v (legs_of c fills)
        ≡ sum_by is_maker (λ f. v (maker_leg f)) fills
          + sum_by is_taker (λ f. v (taker_leg f)) fills
  unfolding legs_of
  sum_by-legs_of v fills =
      let live = filterb (in_window c) fills in
      rw
        (
          sum_by-append leg_is v (map maker_leg live) (map taker_leg live),
          sum_by-map leg_is v maker_leg live,
          sum_by-map leg_is v taker_leg live,
          sum_by-filterb (in_window c) (λ f. text_eq b f.maker) (λ f. v (maker_leg f)) fills,
          sum_by-filterb (in_window c) (λ f. text_eq b f.taker) (λ f. v (taker_leg f)) fills,
        )
        refl

  pub volume_if :
      (legs : List Leg) (t : Bool)
      → someb leg_is legs ≡ t
      → (volume_field c (if t then some (volume_row c legs b) else none)
          ≡ sum_by leg_is (value_of c) legs)
        × (count_field c (if t then some (volume_row c legs b) else none) ≡ count leg_is legs)
  unfolding volume_row
  volume_if legs true e = (refl, refl)
  volume_if legs false e = (
    sym (sum_by_absent leg_is leg_is (value_of c) legs e (λ l h. h)),
    sym (sum_by_absent leg_is leg_is (λ _. 1) legs e (λ l h. h)),
  )

  pub pnl_if :
      (live : List PnlEventRow) (t : Bool)
      → someb event_is live ≡ t
      → ((pnl_field c b (if t then some (pnl_row c live b) else none)).realized_pnl
          ≡ sum_ℤ (λ e. text_eq b e.address && is_realized e.kind) (λ e. e.amount) live)
        × ((pnl_field c b (if t then some (pnl_row c live b) else none)).wins
            ≡ count
                (λ e. text_eq b e.address && (is_realized e.kind && ltb_ℤ (pos 0) e.amount))
                live)
  unfolding pnl_row
  pnl_if live true e = (refl, refl)
  pnl_if live false e = (
    sym (
        sum_ℤ_absent event_is (λ x. text_eq b x.address && is_realized x.kind) (λ x. x.amount) live
          e (λ x h. rw h refl)),
    sym (
        sum_by_absent event_is
          (λ x. text_eq b x.address && (is_realized x.kind && ltb_ℤ (pos 0) x.amount)) (λ _. 1) live
          e (λ x h. rw h refl)),
  )
