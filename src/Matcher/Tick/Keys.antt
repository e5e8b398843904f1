-- ===== src/Matcher/Tick/Keys.antt =====
-- The ids of orders through a tick of client/scripts/matcher-service.ts.
use kryon_v.Base.{
  from_every, ℕ, ◌≡◌, ap, ◌∙◌, true, Option, List, [], ◌∷◌, map, if◌then◌else◌, Text, text_eq,
  someb, Bool-cases, inl, inr, arith,
}
use kryon_v.Config.{MarketConfig}
use kryon_v.Store.{Order, Db}
use kryon_v.Matcher.{MatchResult}
use kryon_v.Matcher.Persist.{
  fill_row, add_filled, sub_filled, insert_fill, same_fill, update_filled, update_market,
  persist_fill, delete_fill, release, rollback_fill,
}
use kryon_v.Matcher.Persist.Laws.{KeptBy, run_queries-keeps}
use kryon_v.Matcher.Persist.Filled.{Rows}
use kryon_v.Matcher.Tick.{World, cancel_poison_order, handle_matches, matches_of, tick_market, tick}
use kryon_v.Matcher.Rows.{load_oracle_price}
use kryon_v.Matcher.Tick.Sound.{handle_matches-keeps}

abbrev pub HasKeys : Db → Type 0
HasKeys db = (row : Text → Order) × Rows row db.orders

-- A change of rows that keeps their ids keeps them keys.
module _ (f : Order → Order) (same : (o : Order) → (f o).id ≡ o.id) where
  Rows-map : (row : Text → Order) (os : List Order) → Rows row os → Rows (λ k. f (row k)) (map f os)
  Rows-map row [] h = tt
  Rows-map row (o ∷ os) (r, rs) = (ap (λ k. f (row k)) (same o) ∙ ap f r, Rows-map row os rs)

  mapped-HasKeys :
      (os : List Order)
      → ((row : Text → Order) × Rows row os)
      → (row : Text → Order) × Rows row (map f os)
  mapped-HasKeys os (row, h) = (λ k. f (row k), Rows-map row os h)

add_filled-id : (id : Text) (n : ℕ) (o : Order) → (add_filled id n o).id ≡ o.id
unfolding add_filled
add_filled-id id n o = ground arith

sub_filled-id : (id : Text) (n : ℕ) (o : Order) → (sub_filled id n o).id ≡ o.id
unfolding sub_filled
sub_filled-id id n o = ground arith

cancelled-id :
    (id : Text) (o : Order)
    → (if text_eq o.id id then record o { cancelled = true } else o).id ≡ o.id
cancelled-id id o = ground arith

insert_fill-HasKeys :
    (m : MatchResult) (network : Text) → KeptBy HasKeys (insert_fill (fill_row network m))
unfolding insert_fill
insert_fill-HasKeys m network db h =
    elim (Bool-cases (someb (same_fill (fill_row network m)) db.fills)) [
      | inl e ↦ rw e h
      | inr e ↦ rw e h
    ]

update_filled-HasKeys : (id : Text) (n : ℕ) → KeptBy HasKeys (update_filled id n)
unfolding update_filled
update_filled-HasKeys id n db h = mapped-HasKeys (add_filled id n) (add_filled-id id n) db.orders h

release-HasKeys :
    (network : Text) (m : MatchResult) (id : Text) → KeptBy HasKeys (release network m id)
unfolding release
release-HasKeys network m id db h =
    mapped-HasKeys (sub_filled id m.fill_size) (sub_filled-id id m.fill_size) db.orders h

persist_fill-HasKeys :
    (network : Text) (m : MatchResult) (n : ℕ) (db : Db)
    → HasKeys db
    → HasKeys (persist_fill network m n db).1
unfolding persist_fill update_market
persist_fill-HasKeys network m n db h =
    run_queries-keeps HasKeys _ n db
      (
        insert_fill-HasKeys m network,
        (
          update_filled-HasKeys m.maker.id m.fill_size,
          (update_filled-HasKeys m.taker.id m.fill_size, ((λ d k. k), tt)),
        ),
      )
      h

rollback_fill-HasKeys :
    (network : Text) (m : MatchResult) (n : ℕ) (db : Db)
    → HasKeys db
    → HasKeys (rollback_fill network m n db)
unfolding rollback_fill delete_fill
rollback_fill-HasKeys network m n db h =
    run_queries-keeps HasKeys _ n db
      (
        (λ d k. k),
        (release-HasKeys network m m.maker.id, (release-HasKeys network m m.taker.id, tt)),
      )
      h

module _ (w : World) where
  handle_matches-HasKeys :
      (oracle : Option ℕ) (ms : List MatchResult) (db : Db)
      → HasKeys db
      → HasKeys (handle_matches w oracle ms db).1
  unfolding cancel_poison_order
  handle_matches-HasKeys oracle ms db h =
      handle_matches-keeps w HasKeys (λ _. Unit) oracle (λ db' db same k. rw (same.0) k)
        (λ o db k. mapped-HasKeys _ (cancelled-id o.id) db.orders k)
        (λ m q c n db k. persist_fill-HasKeys w.network m n db k)
        (λ m n db k. rollback_fill-HasKeys w.network m n db k) ms db
        (from_every (λ _. Unit) ms (λ _. tt)) h

  tick_market-HasKeys :
      (market : MarketConfig) (db : Db) → HasKeys db → HasKeys (tick_market w market db).1
  unfolding tick_market
  tick_market-HasKeys market db h = elim (Bool-cases (w.loads market)) [
    | inl e ↦ rw e (
        handle_matches-HasKeys (load_oracle_price market.market_id db)
          (matches_of w market.market_id db) db h)
    | inr e ↦ rw e h
  ]

  -- A tick that starts with tables in which an order's id is its key ends so, whatever the chain and the
  -- connection do.
  pub tick-HasKeys :
      (markets : List MarketConfig) (db : Db) → HasKeys db → HasKeys (tick w markets db)
  unfolding tick
  tick-HasKeys [] db h = h
  tick-HasKeys (market ∷ markets) db h =
      let here = tick_market-HasKeys market db h in
      elim (Bool-cases (tick_market w market db).0) [
        | inl e ↦ rw e (tick-HasKeys markets _ here)
        | inr e ↦ rw e here
      ]
