-- ===== src/Oracle/Liveness.antt =====
-- When the oracle keeper publishes: the activity check of client/lib/oracle-activity.ts.
use kryon_v.Base.{
  ℕ, ◌/◌, ◌≡◌, refl, sym, ap, ◌∙◌, Bool, true, false, ◌&&◌, ◌||◌, not, List, [], ◌∷◌, ◌++◌, ◌==◌,
  ltb, length, someb, Text, codes, Bool-cases, inl, inr, arith,
}
use kryon_v.Store.{Order, Db}
use kryon_v.Matcher.Rows.{is_open}
use kryon_v.Oracle.{
  Signal, failing, found, reasons_of, ask, is_live_order, in_flight, db_signals,
  check_protocol_activity,
}

-- A signal that keeps the keeper awake.
abbrev rings : Signal → Bool
rings failing = true
rings (found b) = b

reasons-length : (name : Text) (s : Signal) → ltb 0 (length (reasons_of name s)) ≡ rings s
reasons-length name failing = refl
reasons-length name (found true) = refl
reasons-length name (found false) = refl

ltb-append :
    (xs ys : List Text) → ltb 0 (length (xs ++ ys)) ≡ (ltb 0 (length xs) || ltb 0 (length ys))
ltb-append [] ys = refl
ltb-append (x ∷ xs) ys = ground arith

activity_rings :
    (now_ms : ℕ) (reachable : Bool) (db : Db) (positions vault : Signal)
    → check_protocol_activity now_ms reachable db positions vault ≡ (
        (rings (ask reachable (someb (is_live_order (now_ms / 1000)) db.orders))
          || (rings (ask reachable (someb in_flight db.jobs)) || rings positions))
        || rings vault)
unfolding check_protocol_activity db_signals
activity_rings now_ms reachable db positions vault =
    let orders = ask reachable (someb (is_live_order (now_ms / 1000)) db.orders) in
    let jobs = ask reachable (someb in_flight db.jobs) in
    rw
      (
        ltb-append
            (reasons_of (codes "order") orders
              ++ (reasons_of (codes "txjob") jobs ++ reasons_of (codes "position") positions))
            (reasons_of (codes "vault") vault),
        ltb-append (reasons_of (codes "order") orders)
            (reasons_of (codes "txjob") jobs ++ reasons_of (codes "position") positions),
        ltb-append (reasons_of (codes "txjob") jobs) (reasons_of (codes "position") positions),
        reasons-length (codes "order") orders,
        reasons-length (codes "txjob") jobs,
        reasons-length (codes "position") positions,
        reasons-length (codes "vault") vault,
      )
      refl

split :
    (reachable o j : Bool) (positions vault : Signal)
    → ((rings (ask reachable o) || (rings (ask reachable j) || rings positions)) || rings vault)
      ≡ false
    → (reachable ≡ true)
      × (o ≡ false)
      × (j ≡ false)
      × (positions ≡ found false)
      × (vault ≡ found false)
split false o j positions vault h = ground arith
split true o j failing vault h = ground arith
split true o j (found a) failing h = ground arith
split true o j (found a) (found b) h = ground arith

or_true : (a : Bool) {b : Bool} → b ≡ true → (a || b) ≡ true
or_true true h = refl
or_true false h = h

ask-true : (reachable b : Bool) → b ≡ true → rings (ask reachable b) ≡ true
ask-true true b h = h
ask-true false b h = refl

-- The keeper is idle only where every check got through and found nothing: no live order, no
-- settlement in flight, no position and no deposit.
pub check_protocol_activity_idle :
    (now_ms : ℕ) (reachable : Bool) (db : Db) (positions vault : Signal)
    → check_protocol_activity now_ms reachable db positions vault ≡ false
    → (reachable ≡ true)
      × (someb (is_live_order (now_ms / 1000)) db.orders ≡ false)
      × (someb in_flight db.jobs ≡ false)
      × (positions ≡ found false)
      × (vault ≡ found false)
check_protocol_activity_idle now_ms reachable db positions vault h =
    split reachable _ _ positions vault
      (sym (activity_rings now_ms reachable db positions vault) ∙ h)

live-open :
    (market_id now_secs : ℕ) (o : Order)
    → (is_open market_id now_secs o && not (o.expiry_ts == 0)) ≡ true
    → is_live_order now_secs o ≡ true
live-open market_id now_secs o h = ground arith

someb_mono :
    (p q : Order → Bool) (os : List Order)
    → ((o : Order) → p o ≡ true → q o ≡ true)
    → someb p os ≡ true
    → someb q os ≡ true
someb_mono p q [] f h = h
someb_mono p q (o ∷ os) f h = elim (Bool-cases (p o)) [
  | inl e ↦ rw (f o e) refl
  | inr e ↦ or_true (q o) (someb_mono p q os f (sym (ap (λ b. b || someb p os) e) ∙ h))
]

-- Where the matcher may still match an order that expires, the keeper is active.
pub check_protocol_activity-open :
    (now_ms market_id : ℕ) (reachable : Bool) (db : Db) (positions vault : Signal)
    → someb (λ o. is_open market_id (now_ms / 1000) o && not (o.expiry_ts == 0)) db.orders ≡ true
    → check_protocol_activity now_ms reachable db positions vault ≡ true
check_protocol_activity-open now_ms market_id reachable db positions vault h =
    rw
      (
        activity_rings now_ms reachable db positions vault,
        ask-true reachable _ (someb_mono _ _ db.orders (live-open market_id (now_ms / 1000)) h),
      )
      refl
