-- ===== src/Matcher/Tick/Band.antt =====
-- What one tick of client/scripts/matcher-service.ts does to the orders and the fills.
use mathlib.Core.List.{Memᴰ}
use kryon_v.Base.{
  ℕ, ◌-◌, ◌≤◌, ◌≡◌, ◌⊎◌, ◌≢◌, refl, Bool, true, false, ap, ◌∙◌, not, Option, none, some, List, [],
  ◌∷◌, map, arith, if◌then◌else◌, suc, Text, text_eq, All, someb, Bool-cases, inl, inr, All-append,
  All-map, All-filterb, filterb, from_every, All-Memᴰ,
}
use kryon_v.Config.{MarketConfig}
use kryon_v.Store.{Order, Fill, Db}
use kryon_v.Matcher.{MatchResult}
use kryon_v.Matcher.Persist.{
  persist_fill, rollback_fill, sub_filled, fill_row, insert_fill, same_fill, is_row, update_filled,
  update_market, delete_fill, release, run_queries,
}
use kryon_v.Matcher.Persist.Laws.{
  IsSound, NotOverfilled, persist_fill-IsSound, map-All, run_queries-keeps, KeptBy,
}
use kryon_v.Matcher.Persist.Filled.{Rows}
use kryon_v.Matcher.Persist.Undo.{rollback_fill-persist_fill}
use kryon_v.Matcher.Sort.{sort-All}
use kryon_v.Matcher.Walk.{taken}
use kryon_v.Matcher.Book.{match_all_within}
use kryon_v.Matcher.Tick.{
  in_band_limits, World, Answer, throws, answers, cancel_poison_order, execute_settlement,
  settle_or_undo, keep_or_undo, fill_match, handle_match, handle_matches, tick_market, tick,
  matches_of,
}
use kryon_v.Matcher.Rows.{load_resting_orders, load_market_orders, load_oracle_price}
use kryon_v.Matcher.Tick.Sound.{
  SameBook, Checked, handle_matches-keeps, execute_settlement-SameBook,
}

cancel-NotOverfilled :
    (id : Text) (o : Order)
    → NotOverfilled o
    → NotOverfilled (if text_eq o.id id then record o { cancelled = true } else o)
cancel-NotOverfilled id o h = ground arith

module _ (w : World) where
  handle_matches-IsSound :
      (oracle : Option ℕ) (ms : List MatchResult) (db : Db)
      → IsSound db
      → IsSound (handle_matches w oracle ms db).1
  unfolding cancel_poison_order
  handle_matches-IsSound oracle ms db h =
      handle_matches-keeps w IsSound (λ _. Unit) oracle (λ db' db same s. rw (same.0) s)
        (λ o db s. map-All _ (cancel-NotOverfilled o.id) db.orders s)
        (λ m q c n db s. (persist_fill-IsSound w.network m n db s).0)
        (λ m n db s. (persist_fill-IsSound w.network m n db s).1) ms db
        (from_every (λ _. Unit) ms (λ _. tt)) h

  tick_market-IsSound :
      (market : MarketConfig) (db : Db) → IsSound db → IsSound (tick_market w market db).1
  unfolding tick_market
  tick_market-IsSound market db h = elim (Bool-cases (w.loads market)) [
    | inl e ↦ rw e (
        handle_matches-IsSound (load_oracle_price market.market_id db)
          (matches_of w market.market_id db) db h)
    | inr e ↦ rw e h
  ]

  -- Whatever the chain, the clock and the connection do, a tick that starts with no order filled past
  -- its size ends so.
  pub tick-IsSound :
      (markets : List MarketConfig) (db : Db) → IsSound db → IsSound (tick w markets db)
  unfolding tick
  tick-IsSound [] db h = h
  tick-IsSound (market ∷ markets) db h =
      let here = tick_market-IsSound market db h in
      elim (Bool-cases (tick_market w market db).0) [
        | inl e ↦ rw e (tick-IsSound markets _ here)
        | inr e ↦ rw e here
      ]

  handle_matches-none : (ms : List MatchResult) (db : Db) → handle_matches w none ms db ≡ (true, db)
  unfolding handle_matches handle_match
  handle_matches-none [] db = refl
  handle_matches-none (m ∷ ms) db = handle_matches-none ms db

  -- A market with no oracle price fails closed: nothing is written, whatever is in its book.
  pub tick_market_no_oracle :
      (market : MarketConfig) (db : Db)
      → load_oracle_price market.market_id db ≡ none
      → (tick_market w market db).1 ≡ db
  unfolding tick_market
  tick_market_no_oracle market db h = elim (Bool-cases (w.loads market)) [
    | inl e ↦ rw (e, h) (ap (λ r. r.1) (handle_matches-none _ db))
    | inr e ↦ rw e refl
  ]

  -- A fill of the table that was there, or is the row of one of the matches that passed the checks.
  abbrev pub Backed : (Fill → Type 0) → List MatchResult → Option ℕ → Fill → Type 0
  Backed Old ms oracle f =
      Old f ⊎ ((m : MatchResult) × Memᴰ m ms × (f ≡ fill_row w.network m) × Checked w oracle m)

  module _ (Old : Fill → Type 0) (all : List MatchResult) (oracle : Option ℕ) where
    abbrev AllBacked : Db → Type 0
    AllBacked db = All (Backed Old all oracle) db.fills

    insert_fill-AllBacked :
        (m : MatchResult)
        → Memᴰ m all
        → Checked w oracle m
        → KeptBy AllBacked (insert_fill (fill_row w.network m))
    unfolding insert_fill
    insert_fill-AllBacked m i c db h =
        elim (Bool-cases (someb (same_fill (fill_row w.network m)) db.fills)) [
          | inl e ↦ rw e h
          | inr e ↦ rw e (All-append (Backed Old all oracle) db.fills _ h (inr (m, i, refl, c), tt))
        ]

    persist_fill-AllBacked :
        (m : MatchResult)
        → Memᴰ m all
        → Checked w oracle m
        → (n : ℕ) (db : Db) → AllBacked db
        → AllBacked (persist_fill w.network m n db).1
    unfolding persist_fill update_filled update_market
    persist_fill-AllBacked m i c n db h =
        run_queries-keeps AllBacked _ n db
          (insert_fill-AllBacked m i c, ((λ d b. b), ((λ d b. b), ((λ d b. b), tt)))) h

    rollback_fill-AllBacked :
        (m : MatchResult) (n : ℕ) (db : Db)
        → AllBacked db
        → AllBacked (rollback_fill w.network m n db)
    unfolding rollback_fill delete_fill release
    rollback_fill-AllBacked m n db h =
        run_queries-keeps AllBacked _ n db
          ((λ d b. All-filterb (Backed Old all oracle) _ d.fills b), ((λ d b. b), ((λ d b. b), tt)))
          h

    handle_matches-AllBacked :
        (db : Db) → AllBacked db → AllBacked (handle_matches w oracle all db).1
    unfolding cancel_poison_order
    handle_matches-AllBacked db h =
        handle_matches-keeps w AllBacked (λ m. Memᴰ m all) oracle (λ db' db same b. rw (same.1) b)
          (λ o db b. b) persist_fill-AllBacked rollback_fill-AllBacked all db (All-Memᴰ all) h

  -- Where every fill has some property before a market's part of a tick, every fill after it has that
  -- property or is the row of one of the matches of the market's book, the price of which lies in the
  -- band around the market's oracle price and the two orders of which, where they carry a signature,
  -- carry a valid one.
  pub tick_market-Backed :
      (Old : Fill → Type 0) (market : MarketConfig) (db : Db)
      → All Old db.fills
      → All
          (Backed Old (matches_of w market.market_id db) (load_oracle_price market.market_id db))
          (tick_market w market db).1.fills
  unfolding tick_market
  tick_market-Backed Old market db h =
      let oracle = load_oracle_price market.market_id db in
      let ms = matches_of w market.market_id db in
      let before = All-map Old (Backed Old ms oracle) (λ f old. inl old) db.fills h in
      elim (Bool-cases (w.loads market)) [
        | inl e ↦ rw e (handle_matches-AllBacked Old ms oracle db before)
        | inr e ↦ rw e before
      ]

  not_settled :
      (m : MatchResult) (a : Answer Bool) (db : Db)
      → a ≢ answers true
      → keep_or_undo w m a db ≡ rollback_fill w.network m (w.rollback_queries m) db
  unfolding keep_or_undo
  not_settled m throws db h = refl
  not_settled m (answers false) db h = refl
  not_settled m (answers true) db h = elim (h refl) [ ]

  rollback_fill-SameBook :
      (m : MatchResult) (more : ℕ) (db db' : Db)
      → SameBook db db'
      → SameBook
          (rollback_fill w.network m (suc (suc (suc more))) db)
          (rollback_fill w.network m (suc (suc (suc more))) db')
  unfolding rollback_fill delete_fill release run_queries
  rollback_fill-SameBook m more db db' (os, fs) = (
    ap (λ r. map (sub_filled m.taker.id m.fill_size) (map (sub_filled m.maker.id m.fill_size) r))
        os,
    ap (filterb (λ f. not (is_row w.network m f))) fs,
  )

  -- A persisted fill whose settlement answers false or throws leaves the orders and the fills as they
  -- were: where the rollback's three queries get through, an order's id is its key, the two orders
  -- differ and no fill had this hash.
  pub fill_match-undone :
      (row : Text → Order) (more : ℕ) (m : MatchResult) (db : Db)
      → text_eq m.maker.id m.taker.id ≡ false
      → Rows row db.orders
      → All (λ f. not (is_row w.network m f) ≡ true) db.fills
      → w.rollback_queries m ≡ suc (suc (suc more))
      → (persist_fill w.network m (w.persist_queries m) db).0 ≡ true
      → (execute_settlement w m (persist_fill w.network m (w.persist_queries m) db).1).0
        ≢ answers true
      → SameBook (fill_match w m db) db
  unfolding fill_match settle_or_undo
  fill_match-undone row more m db apart rows fresh queries done unsettled =
      let saved = (persist_fill w.network m (w.persist_queries m) db).1 in
      let same = rollback_fill-SameBook m more _ saved (execute_settlement-SameBook w m saved) in
      let (os, fs) =
        rollback_fill-persist_fill w.network m row (w.persist_queries m) more db apart rows fresh
          done in
      rw (done, not_settled m _ _ unsettled, queries) (same.0 ∙ os, same.1 ∙ fs)

  in_band-Rows :
      (row : Text → Order) (oracle : Option ℕ) (os : List Order)
      → Rows row os
      → Rows row (in_band_limits w oracle os)
  unfolding in_band_limits
  in_band-Rows row none os h = tt
  in_band-Rows row (some oracle) os h = All-filterb (λ o. row o.id ≡ o) _ os h

  -- The matches of a market in one tick, resting and market orders together, take from each order at
  -- most what is left of it in the tables, where an order's id is its key.
  pub matches_of_within :
      (row : Text → Order) (market_id : ℕ) (db : Db)
      → Rows row db.orders
      → (id : Text) → taken id (matches_of w market_id db) ≤ (row id).size - (row id).filled_size
  unfolding load_resting_orders load_market_orders
  matches_of_within row market_id db rows =
      match_all_within row _ _
        (in_band-Rows row (load_oracle_price market_id db)
          (load_resting_orders market_id w.now_ms db)
          (sort-All (λ o. row o.id ≡ o) _ _ (All-filterb (λ o. row o.id ≡ o) _ db.orders rows)))
        (sort-All (λ o. row o.id ≡ o) _ _ (All-filterb (λ o. row o.id ≡ o) _ db.orders rows))
