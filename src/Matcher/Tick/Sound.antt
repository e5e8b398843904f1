-- ===== src/Matcher/Tick/Sound.antt =====
-- Predicates on the orders and the fills through one tick of client/scripts/matcher-service.ts.
use kryon_v.Base.{
  ℕ, ◌≡◌, refl, Bool, true, false, ◌||◌, ◌&&◌, Option, none, some, List, [], ◌∷◌, arith,
  if◌then◌else◌, Text, Bool-cases, Option-cases, inl, inr, All,
}
use kryon_v.Store.{Order, Db, Payload}
use kryon_v.Matcher.{MatchResult}
use kryon_v.Matcher.Persist.{persist_fill, rollback_fill}
use kryon_v.Matcher.Tick.{
  World, Answer, throws, answers, cancel_poison_order, record_signed, record_queued, keep_or_undo,
  execute_settlement, settle_or_undo, fill_match, check_side, after_checks, checked_match,
  handle_match, handle_matches, truthy,
}
use kryon_v.Matcher.Rows.{settlement_sig_valid, within_oracle_band}

-- The orders and the fills are the same.
abbrev pub SameBook : Db → Db → Type 0
SameBook db db' = (db.orders ≡ db'.orders) × (db.fills ≡ db'.fills)

module _ (w : World) where
  record_signed-SameBook :
      (m : MatchResult) (a : Answer (Option Text)) (db : Db)
      → SameBook (record_signed w m a db).1 db
  unfolding record_signed
  record_signed-SameBook m throws db = (refl, refl)
  record_signed-SameBook m (answers none) db = (refl, refl)
  record_signed-SameBook m (answers (some h)) db = (refl, refl)

  record_queued-SameBook :
      (m : MatchResult) (a : Answer (Option Payload)) (db : Db)
      → SameBook (record_queued w m a db).1 db
  unfolding record_queued
  record_queued-SameBook m throws db = (refl, refl)
  record_queued-SameBook m (answers none) db = (refl, refl)
  record_queued-SameBook m (answers (some p)) db = (refl, refl)

  if-SameBook :
      (b : Bool) (x y : Answer Bool × Db) (db : Db)
      → SameBook x.1 db
      → SameBook y.1 db
      → SameBook (if b then x else y).1 db
  if-SameBook true x y db hx hy = hx
  if-SameBook false x y db hx hy = hy

  -- A settlement writes jobs only.
  pub execute_settlement-SameBook :
      (m : MatchResult) (db : Db) → SameBook (execute_settlement w m db).1 db
  unfolding execute_settlement
  execute_settlement-SameBook m db =
      if-SameBook (truthy w.operator_secret) _ _ db
        (if-SameBook (truthy m.maker.signature && truthy m.taker.signature) _ _ db
          (record_signed-SameBook m (w.submit m) db) (record_queued-SameBook m (w.simulate m) db))
        (refl, refl)

  -- What `handleMatch` has checked before it writes a fill.
  abbrev pub Checked : Option ℕ → MatchResult → Type 0
  Checked oracle m =
      (o : ℕ) × (oracle ≡ some o)
      × (within_oracle_band w.max_deviation_bps m.fill_price o ≡ true)
      × (settlement_sig_valid w.crypto w.passphrase m.maker ≡ true)
      × (settlement_sig_valid w.crypto w.passphrase m.taker ≡ true)

  -- Two sides that are not poisoned carry valid signatures.
  unpoisoned :
      (a b : Order) (db db' : Db)
      → ((check_side w a db).1.0 || (check_side w b db').1.0) ≡ false
      → (settlement_sig_valid w.crypto w.passphrase a ≡ true)
        × (settlement_sig_valid w.crypto w.passphrase b ≡ true)
  unfolding check_side
  unpoisoned a b db db' h = ground arith

  -- A property of the orders and the fills that the writes of a tick keep, the tick keeps.
  -- `Q` is what the matches are known to satisfy.
  module _ (P : Db → Type 0) (Q : MatchResult → Type 0) (oracle : Option ℕ)
      (ext : (db' db : Db) → SameBook db' db → P db → P db')
      (on_cancel : (o : Order) (db : Db) → P db → P (cancel_poison_order o db))
      (on_persist : (m : MatchResult)
        → Q m
        → Checked oracle m
        → (n : ℕ) (db : Db) → P db
        → P (persist_fill w.network m n db).1)
      (on_rollback : (m : MatchResult) (n : ℕ) (db : Db)
        → P db
        → P (rollback_fill w.network m n db)) where
    keep_or_undo-keeps :
        (m : MatchResult) (a : Answer Bool) (db : Db) → P db → P (keep_or_undo w m a db)
    unfolding keep_or_undo
    keep_or_undo-keeps m (answers true) db h = h
    keep_or_undo-keeps m (answers false) db h = on_rollback m (w.rollback_queries m) db h
    keep_or_undo-keeps m throws db h = on_rollback m (w.rollback_queries m) db h

    fill_match-keeps :
        (m : MatchResult) → Q m → Checked oracle m → (db : Db) → P db → P (fill_match w m db)
    unfolding fill_match settle_or_undo
    fill_match-keeps m q c db h =
        let saved = on_persist m q c (w.persist_queries m) db h in
        elim (Bool-cases (persist_fill w.network m (w.persist_queries m) db).0) [
          | inl e ↦ rw e (
              keep_or_undo-keeps m _ _ (
                ext _ _
                  (execute_settlement-SameBook m
                    (persist_fill w.network m (w.persist_queries m) db).1)
                  saved))
          | inr e ↦ rw e saved
        ]

    check_side-keeps : (o : Order) (db : Db) → P db → P (check_side w o db).1.1
    unfolding check_side
    check_side-keeps o db h = elim (Bool-cases (settlement_sig_valid w.crypto w.passphrase o)) [
      | inl e ↦ rw e h
      | inr e ↦ elim (Bool-cases (w.cancels o)) [
        | inl f ↦ rw (e, f) (on_cancel o db h)
        | inr f ↦ rw (e, f) h
      ]
    ]

    after_checks-keeps :
        (m : MatchResult) (on on' poisoned : Bool) (db1 db2 : Db)
        → P db1
        → P db2
        → (poisoned ≡ false → P (fill_match w m db2))
        → P (after_checks w m on on' poisoned db1 db2).1
    unfolding after_checks
    after_checks-keeps m false on' poisoned db1 db2 h1 h2 k = h1
    after_checks-keeps m true false poisoned db1 db2 h1 h2 k = h2
    after_checks-keeps m true true true db1 db2 h1 h2 k = h2
    after_checks-keeps m true true false db1 db2 h1 h2 k = k refl

    handle_match-keeps : (m : MatchResult) (db : Db) → Q m → P db → P (handle_match w oracle m db).1
    unfolding handle_match checked_match after_checks
    handle_match-keeps m db q h = elim (Option-cases oracle) [
      | inl e ↦ rw (e, handle_match) h
      | inr (o, e) ↦ elim (Bool-cases (within_oracle_band w.max_deviation_bps m.fill_price o)) [
        | inl f ↦
            rw (handle_match, e, f, checked_match)
              (let h1 = check_side-keeps m.maker db h in
                let h2 = check_side-keeps m.taker _ h1 in
                after_checks-keeps m _ _ _ _ _ h1 h2 (λ clean.
                  let (c, c') = unpoisoned _ _ _ _ clean in
                  fill_match-keeps m q (o, e, f, c, c') _ h2))
        | inr f ↦ rw (handle_match, e, f) h
      ]
    ]

    pub handle_matches-keeps :
        (ms : List MatchResult) (db : Db) → All Q ms → P db → P (handle_matches w oracle ms db).1
    unfolding handle_matches
    handle_matches-keeps [] db qs h = h
    handle_matches-keeps (m ∷ ms) db (q, qs) h =
        let here = handle_match-keeps m db q h in
        elim (Bool-cases (handle_match w oracle m db).0) [
          | inl e ↦ rw e (handle_matches-keeps ms _ qs here)
          | inr e ↦ rw e here
        ]
