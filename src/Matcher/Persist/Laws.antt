-- ===== src/Matcher/Persist/Laws.antt =====
-- The fill bound of the orders under `persistFill` and `rollbackFill`
-- (client/scripts/matcher-service.ts), cut short or not.
use kryon_v.Base.{
  ℕ, zero, suc, ◌≤◌, Bool, List, [], ◌∷◌, map, arith, someb, Text, All, Bool-cases, inl, inr,
}
use kryon_v.Store.{Order, Fill, Db}
use kryon_v.Matcher.{MatchResult}
use kryon_v.Matcher.Persist.{
  fill_row, add_filled, sub_filled, same_fill, insert_fill, update_filled, update_market,
  run_queries, persist_fill, rollback_fill, delete_fill, release,
}

abbrev pub NotOverfilled : Order → Type 0
NotOverfilled o = o.filled_size ≤ o.size

abbrev pub IsSound : Db → Type 0
IsSound db = All NotOverfilled db.orders

add_filled-NotOverfilled :
    (id : Text) (n : ℕ) (o : Order) → NotOverfilled o → NotOverfilled (add_filled id n o)
unfolding add_filled
add_filled-NotOverfilled id n o h = ground arith

sub_filled-NotOverfilled :
    (id : Text) (n : ℕ) (o : Order) → NotOverfilled o → NotOverfilled (sub_filled id n o)
unfolding sub_filled
sub_filled-NotOverfilled id n o h = ground arith

pub map-All :
    (f : Order → Order) (keep : (o : Order) → NotOverfilled o → NotOverfilled (f o))
    (os : List Order)
    → All NotOverfilled os
    → All NotOverfilled (map f os)
map-All f keep [] h = tt
map-All f keep (o ∷ os) (h, hs) = (keep o h, map-All f keep os hs)

-- A property of the tables that each query keeps holds after any number of them.
abbrev pub KeptBy : (Db → Type 0) → (Db → Bool × Db) → Type 0
KeptBy P q = (db : Db) → P db → P (q db).1

pub run_queries-keeps :
    (P : Db → Type 0) (qs : List (Db → Bool × Db)) (n : ℕ) (db : Db)
    → All (KeptBy P) qs
    → P db
    → P (run_queries qs n db).1
unfolding run_queries
run_queries-keeps P [] n db keep h = h
run_queries-keeps P (q ∷ qs) zero db keep h = h
run_queries-keeps P (q ∷ qs) (suc n) db (k, ks) h = elim (Bool-cases (q db).0) [
  | inl e ↦ rw (run_queries, e) (run_queries-keeps P qs n (q db).1 ks (k db h))
  | inr e ↦ rw (run_queries, e) (k db h)
]

insert_fill-IsSound : (f : Fill) (db : Db) → IsSound db → IsSound (insert_fill f db).1
unfolding insert_fill
insert_fill-IsSound f db h = elim (Bool-cases (someb (same_fill f) db.fills)) [
  | inl e ↦ rw e h
  | inr e ↦ rw e h
]

update_filled-IsSound :
    (id : Text) (n : ℕ) (db : Db) → IsSound db → IsSound (update_filled id n db).1
unfolding update_filled
update_filled-IsSound id n db h =
    map-All (add_filled id n) (add_filled-NotOverfilled id n) db.orders h

update_market-IsSound :
    (id price value : ℕ) (db : Db) → IsSound db → IsSound (update_market id price value db).1
unfolding update_market
update_market-IsSound id price value db h = h

release-IsSound : (m : MatchResult) (network id : Text) → KeptBy IsSound (release network m id)
unfolding release
release-IsSound m network id db h =
    map-All (sub_filled id m.fill_size) (sub_filled-NotOverfilled id m.fill_size) db.orders h

delete_fill-IsSound : (m : MatchResult) (network : Text) → KeptBy IsSound (delete_fill network m)
unfolding delete_fill
delete_fill-IsSound m network db h = h

module _ (network : Text) (m : MatchResult) where
  -- However many of its queries get through, persisting a fill leaves every order filled at most to its
  -- size, and so does rolling one back.
  pub persist_fill-IsSound :
      (queries : ℕ) (db : Db)
      → IsSound db
      → IsSound (persist_fill network m queries db).1 × IsSound (rollback_fill network m queries db)
  unfolding persist_fill rollback_fill
  persist_fill-IsSound queries db h =
      let add_to = λ (id : Text). update_filled-IsSound id m.fill_size in
      (
        run_queries-keeps IsSound _ queries db
            (
              insert_fill-IsSound (fill_row network m),
              (add_to m.maker.id, (add_to m.taker.id, (update_market-IsSound _ _ _, tt))),
            )
            h,
        run_queries-keeps IsSound _ queries db
            (
              delete_fill-IsSound m network,
              (release-IsSound m network m.maker.id, (release-IsSound m network m.taker.id, tt)),
            )
            h,
      )
