-- ===== src/Client/Entry/Unmatched.antt =====
-- A market order of the ticket (client/features/trade/components/OrderEntry.tsx) at the matcher
-- (client/scripts/matcher-service.ts).
use kryon_v.Base.{
  ℕ, ◌*◌, ◌/◌, ◌-◌, ◌≤◌, ◌≡◌, refl, sym, ap, ◌∙◌, Bool, true, false, ◌&&◌, some, List, [], ◌∷◌,
  ◌==◌, if◌then◌else◌, filterb, Text, text_eq, text_eq_iff, text_eq_refl, All, All-map, All-filterb,
  All-filterb_self, Bool-cases, inl, inr, arith,
}
use kryon_v.Store.{Order, Db}
use kryon_v.Matcher.{match_all}
use kryon_v.Matcher.Sort.{sort-All}
use kryon_v.Matcher.Walk.{taken}
use kryon_v.Matcher.Book.{match_all_within}
use kryon_v.Matcher.Persist.Filled.{Rows}
use kryon_v.Matcher.Tick.{World, in_band_limits, matches_of}
use kryon_v.Matcher.Rows.{
  within_oracle_band, is_open, load_resting_orders, load_market_orders, load_oracle_price,
}
use kryon_v.Signing.{build_order_intent}
use kryon_v.Client.Entry.{Ticket, aggressive_price, mark_or, raw_price, submitted_intent}

-- The mark of the ticket is near the oracle price of the matcher.
abbrev pub IsNear : ℕ → ℕ → Type 0
IsNear mark oracle = (2 ≤ oracle) × (3 * oracle ≤ 4 * mark) × (2 * mark ≤ 3 * oracle)

aggressive_out_of_band :
    (is_buy : Bool) (mark oracle : ℕ)
    → IsNear mark oracle
    → within_oracle_band 1000 (aggressive_price is_buy mark) oracle ≡ false
unfolding within_oracle_band
aggressive_out_of_band true mark oracle h = ground arith
aggressive_out_of_band false mark oracle h = ground arith

-- An order that is in neither list is not matched.
module _ (row : Text → Order) (id : Text) where
  abbrev without_size : Text → Order
  without_size k = if text_eq k id then (record (row k) { size = 0 }) else row k

  Rows-without_size :
      (os : List Order) → Rows row os → All (λ o. text_eq o.id id ≡ false) os → Rows without_size os
  Rows-without_size [] h k = tt
  Rows-without_size (o ∷ os) (h, hs) (k, ks) = (rw k h, Rows-without_size os hs ks)

  absent-taken :
      (limits markets : List Order)
      → Rows row limits
      → Rows row markets
      → All (λ o. text_eq o.id id ≡ false) limits
      → All (λ o. text_eq o.id id ≡ false) markets
      → taken id (match_all limits markets) ≡ 0
  absent-taken limits markets hl hm al am =
      let bound : taken id (match_all limits markets)
          ≤ (without_size id).size - (without_size id).filled_size =
        match_all_within without_size limits markets (Rows-without_size limits hl al)
          (Rows-without_size markets hm am) id in
      ground (arith, text_eq_refl id)

  -- An order with the key has the price of its row.
  price_of_row :
      (o : Order) → row o.id ≡ o → text_eq o.id id ≡ true → o.limit_price ≡ (row id).limit_price
  price_of_row o h e =
      ap (λ r. r.limit_price) (sym h) ∙ ap (λ k. (row k).limit_price) ((text_eq_iff o.id id).0 e)

  -- A test that the row's price fails keeps the order out.
  kept_apart :
      (test : ℕ → Bool) (os : List Order)
      → test (row id).limit_price ≡ false
      → Rows row os
      → All (λ o. test o.limit_price ≡ true) os
      → All (λ o. text_eq o.id id ≡ false) os
  kept_apart test [] f h k = tt
  kept_apart test (o ∷ os) f (h, hs) (k, ks) = elim (Bool-cases (text_eq o.id id)) [
    | inl e ↦
        let bad : test (row id).limit_price ≡ true = rw (sym (price_of_row o h e)) k in ground arith
    | inr e ↦ (e, kept_apart test os f hs ks)
  ]

aggressive_nonzero :
    (is_buy : Bool) (mark oracle : ℕ)
    → IsNear mark oracle
    → (aggressive_price is_buy mark == 0) ≡ false
aggressive_nonzero true mark oracle h = ground arith
aggressive_nonzero false mark oracle h = ground arith

raw_price_market :
    (t : Ticket)
    → t.is_market ≡ true
    → raw_price t ≡ aggressive_price t.is_buy (mark_or t.raw_mark_price t.raw_exec_price)
unfolding raw_price
raw_price_market t h = rw h refl

submitted_price : (now_ms : ℕ) (t : Ticket) → (submitted_intent now_ms t).limit_price ≡ raw_price t
unfolding submitted_intent build_order_intent
submitted_price now_ms t = refl

module _ (w : World) (row : Text → Order) (id : Text) (db : Db) (rows : Rows row db.orders)
    (price : (row id).limit_price == 0 ≡ false) where
  markets_apart :
      (market_id : ℕ)
      → All (λ o. text_eq o.id id ≡ false) (load_market_orders market_id w.now_ms db)
  unfolding load_market_orders
  markets_apart market_id =
      let open_market : Order → Bool =
        λ o. is_open market_id (w.now_ms / 1000) o && o.limit_price == 0 in
      sort-All (λ o. text_eq o.id id ≡ false) _ _
        (kept_apart row id (λ p. p == 0) (filterb open_market db.orders) price
          (All-filterb (λ o. row o.id ≡ o) open_market db.orders rows)
          (All-map (λ o. open_market o ≡ true) (λ o. (o.limit_price == 0) ≡ true)
            (λ o e. ground arith) (filterb open_market db.orders)
            (All-filterb_self open_market db.orders)))

  limits_apart :
      (market_id oracle : ℕ)
      → within_oracle_band w.max_deviation_bps (row id).limit_price oracle ≡ false
      → All
          (λ o. text_eq o.id id ≡ false)
          (in_band_limits w (some oracle) (load_resting_orders market_id w.now_ms db))
  unfolding in_band_limits load_resting_orders
  limits_apart market_id oracle f =
      kept_apart row id (λ p. within_oracle_band w.max_deviation_bps p oracle) _ f
        (All-filterb (λ o. row o.id ≡ o) _ _
          (sort-All (λ o. row o.id ≡ o) _ _ (All-filterb (λ o. row o.id ≡ o) _ db.orders rows)))
        (All-filterb_self (λ o. within_oracle_band w.max_deviation_bps o.limit_price oracle)
          (load_resting_orders market_id w.now_ms db))

in_band-Rows :
    (w : World) (row : Text → Order) (market_id oracle : ℕ) (db : Db)
    → Rows row db.orders
    → Rows row (in_band_limits w (some oracle) (load_resting_orders market_id w.now_ms db))
unfolding in_band_limits load_resting_orders
in_band-Rows w row market_id oracle db rows =
    All-filterb (λ o. row o.id ≡ o) _ _
      (sort-All (λ o. row o.id ≡ o) _ _ (All-filterb (λ o. row o.id ≡ o) _ db.orders rows))

market-Rows :
    (w : World) (row : Text → Order) (market_id : ℕ) (db : Db)
    → Rows row db.orders
    → Rows row (load_market_orders market_id w.now_ms db)
unfolding load_market_orders
market-Rows w row market_id db rows =
    sort-All (λ o. row o.id ≡ o) _ _ (All-filterb (λ o. row o.id ≡ o) _ db.orders rows)

-- A market order of the ticket is not matched by a tick at the default band of ten percent: where its
-- mark lies between three quarters and one and a half of the market's oracle price, and an order's id is
-- its key, the matches of the market take nothing of the row with the submitted price.
pub market_order_unmatched :
    (w : World) (row : Text → Order) (id : Text) (db : Db) (now_ms oracle : ℕ) (t : Ticket)
    → w.max_deviation_bps ≡ 1000
    → t.is_market ≡ true
    → IsNear (mark_or t.raw_mark_price t.raw_exec_price) oracle
    → load_oracle_price t.market_id db ≡ some oracle
    → Rows row db.orders
    → (row id).limit_price ≡ (submitted_intent now_ms t).limit_price
    → taken id (matches_of w t.market_id db) ≡ 0
market_order_unmatched w row id db now_ms oracle t band market near known rows submitted =
    let mark = mark_or t.raw_mark_price t.raw_exec_price in
    let price = submitted ∙ submitted_price now_ms t ∙ raw_price_market t market in
    let priced : ((row id).limit_price == 0) ≡ false =
      rw price (aggressive_nonzero t.is_buy mark oracle near) in
    let outside : within_oracle_band w.max_deviation_bps (row id).limit_price oracle ≡ false =
      rw (price, band) (aggressive_out_of_band t.is_buy mark oracle near) in
    rw known (
      absent-taken row id _ _ (in_band-Rows w row t.market_id oracle db rows)
        (market-Rows w row t.market_id db rows)
        (limits_apart w row id db rows priced t.market_id oracle outside)
        (markets_apart w row id db rows priced t.market_id))
