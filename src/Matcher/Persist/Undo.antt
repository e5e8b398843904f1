-- ===== src/Matcher/Persist/Undo.antt =====
-- `rollbackFill` after `persistFill` (client/scripts/matcher-service.ts) on the rows of the orders and
-- the fills.
use kryon_v.Base.{
  ℕ, zero, suc, ◌≡◌, refl, sym, ap, ◌∙◌, Bool, true, false, not, List, [], ◌∷◌, ◌++◌, arith, someb,
  filterb, Text, text_eq, text_eq_refl, All, Bool-cases, inl, inr,
}
use kryon_v.Store.{Order, Fill, Db}
use kryon_v.Matcher.{MatchResult}
use kryon_v.Matcher.Persist.Filled.{Rows, someb-Room, Rows-map_add, add_filled-Room, undone-map}
use kryon_v.Matcher.Persist.{
  hash_of, fill_row, same_fill, insert_fill, update_filled, update_market, run_queries,
  persist_fill, rollback_fill, delete_fill, release, is_row, value_of,
}

-- Queries that all get through run one after another.
abbrev AllThrough : List (Db → Bool × Db) → Db → Type 0
AllThrough [] db = Unit
AllThrough (q ∷ qs) db = ((q db).0 ≡ true) × AllThrough qs (q db).1

abbrev finish : List (Db → Bool × Db) → Db → Db
finish [] db = db
finish (q ∷ qs) db = finish qs (q db).1

run_queries_step :
    (q : Db → Bool × Db) (qs : List (Db → Bool × Db)) (n : ℕ) (db : Db)
    → (q db).0 ≡ true
    → run_queries (q ∷ qs) (suc n) db ≡ run_queries qs n (q db).1
unfolding run_queries
run_queries_step q qs n db e = rw (run_queries, e) refl

run_queries-true :
    (qs : List (Db → Bool × Db)) (n : ℕ) (db : Db)
    → (run_queries qs n db).0 ≡ true
    → AllThrough qs db × (run_queries qs n db ≡ (true, finish qs db))
unfolding run_queries
run_queries-true [] n db h = (tt, refl)
run_queries-true (q ∷ qs) zero db h = ground arith
run_queries-true (q ∷ qs) (suc n) db h = elim (Bool-cases (q db).0) [
  | inl e ↦
      let step = run_queries_step q qs n db e in
      let (through, out) = run_queries-true qs n (q db).1 (sym (ap (λ r. r.0) step) ∙ h) in
      ((e, through), step ∙ out)
  | inr e ↦ ground arith
]

insert_fill-true :
    (f : Fill) (db : Db)
    → (insert_fill f db).0 ≡ true
    → insert_fill f db ≡ (true, record db { fills = db.fills ++ f ∷ [] })
unfolding insert_fill
insert_fill-true f db h = elim (Bool-cases (someb (same_fill f) db.fills)) [
  | inl e ↦ ground arith
  | inr e ↦ rw e refl
]

filterb-fresh :
    (p : Fill → Bool) (fs : List Fill) (f : Fill)
    → All (λ g. p g ≡ true) fs
    → p f ≡ false
    → filterb p (fs ++ f ∷ []) ≡ fs
filterb-fresh p [] f h e = rw e refl
filterb-fresh p (g ∷ fs) f (h, hs) e = rw (h, filterb-fresh p fs f hs e) refl

module _ (network : Text) (m : MatchResult) where
  abbrev IdsDiffer : Type 0
  IdsDiffer = text_eq m.maker.id m.taker.id ≡ false

  delete_fill-insert_fill :
      (fs : List Fill)
      → All (λ f. not (is_row network m f) ≡ true) fs
      → filterb (λ f. not (is_row network m f)) (fs ++ fill_row network m ∷ []) ≡ fs
  delete_fill-insert_fill fs fresh =
      filterb-fresh (λ f. not (is_row network m f)) fs (fill_row network m) fresh
        (rw (text_eq_refl network, text_eq_refl (hash_of network m)) refl)

  abbrev persist_queries : List (Db → Bool × Db)
  persist_queries =
      insert_fill (fill_row network m)
      ∷ update_filled m.maker.id m.fill_size
      ∷ update_filled m.taker.id m.fill_size
      ∷ update_market m.maker.market_id m.fill_price (value_of network m)
      ∷ []

  persist_fill-true :
      (queries : ℕ) (db : Db)
      → (persist_fill network m queries db).0 ≡ true
      → AllThrough persist_queries db
        × (persist_fill network m queries db ≡ (true, finish persist_queries db))
  unfolding persist_fill
  persist_fill-true queries db h = run_queries-true persist_queries queries db h

  -- Where `persistFill` returns true for two different orders, a `rollbackFill` whose three queries get
  -- through gives back the orders and the fills as they were: on tables in which an order's id is its
  -- key and no fill has the hash of this one.
  pub rollback_fill-persist_fill :
      (row : Text → Order) (queries more : ℕ) (db : Db)
      → IdsDiffer
      → Rows row db.orders
      → All (λ f. not (is_row network m f) ≡ true) db.fills
      → (persist_fill network m queries db).0 ≡ true
      → let after =
          rollback_fill network m (suc (suc (suc more))) (persist_fill network m queries db).1 in
        (after.orders ≡ db.orders) × (after.fills ≡ db.fills)
  unfolding persist_fill rollback_fill delete_fill release update_filled update_market run_queries
  rollback_fill-persist_fill row queries more db apart rows fresh h =
      let ((inserted, (maker_room, (taker_room, rest))), out) = persist_fill-true queries db h in
      let kept : (insert_fill (fill_row network m) db).1
          ≡ record db { fills = db.fills ++ fill_row network m ∷ [] } =
        ap (λ r. r.1) (insert_fill-true (fill_row network m) db inserted) in
      let rows' : Rows row (insert_fill (fill_row network m) db).1.orders =
        rw (ap (λ d. d.orders) kept) rows in
      let room_a = someb-Room row m.maker.id m.fill_size _ rows' maker_room in
      let room_b = add_filled-Room m.maker.id m.fill_size (row m.taker.id) (
        someb-Room _ m.taker.id m.fill_size _ (Rows-map_add row m.maker.id m.fill_size _ rows')
          taker_room) in
      (
        rw (out, kept)
            (undone-map m.maker.id m.taker.id m.fill_size apart row db.orders rows room_a room_b),
        rw (out, ap (λ d. d.fills) kept) (delete_fill-insert_fill db.fills fresh),
      )
