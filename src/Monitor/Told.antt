-- ===== src/Monitor/Told.antt =====
-- No failing check goes untold: the entries that `processAlerts` of client/scripts/monitor.ts leaves.
use mathlib.Core.List.{Memᴰ}
use kryon_v.Base.{
  mem_left, mem_right, ◌++◌, ◌∙◌, text_eq_sym, All-map, All-and, ℕ, ◌+◌, ◌-◌, ◌<◌, ◌≡◌, ◌⊎◌, refl,
  true, false, Option, none, some, List, [], ◌∷◌, leb, All, Text, text_eq, text_eq_refl, Bool-cases,
  inl, inr, arith,
}
use kryon_v.Config.{MarketConfig}
use kryon_v.Stats.Keyed.{AreKeyed}
use kryon_v.Monitor.{CheckResult, Services, check_all, timed, Outcome, returned, threw}
use kryon_v.Monitor.Alerts.{
  AlertState, AlertStates, Notice, started, reminded, recovered, fmt_duration, to_list,
  alert_reminder_ms, set_state, on_result, process_alerts,
}
use kryon_v.Monitor.Protocol.{Phase, quiet, broken, phase_of}

-- What a run's notices tell of a result, with the check's phase before and after it. One that passed
-- leaves the check in order, and told of the recovery where it was failing. One that failed leaves the
-- check failing with its last alert less than an hour ago: the one of an earlier run, or one in this
-- run's notices, with the detail of the result.
abbrev pub IsTold : ℕ → CheckResult → Phase → List Notice → Phase → Type 0
IsTold now r before notices after =
    ((r.ok ≡ true)
      × (after ≡ quiet)
      × ((before ≡ quiet)
          ⊎ ((since : ℕ) × (last : ℕ) × (before ≡ broken since last)
              × Memᴰ (recovered r.name (fmt_duration (now - since)) r.detail) notices)))
    ⊎ ((r.ok ≡ false)
        × ((since : ℕ) × (last : ℕ) × (after ≡ broken since last)
            × (now < last + alert_reminder_ms)
            × ((before ≡ broken since last)
                ⊎ ((last ≡ now)
                    × (Memᴰ (started r.name r.detail) notices
                        ⊎ Memᴰ (reminded r.name (fmt_duration (now - since)) r.detail) notices)))))

on_result-IsTold :
    (now : ℕ) (r : CheckResult) (prev : Option AlertState)
    → IsTold now r
        (phase_of prev)
        (to_list (on_result now r prev).0)
        (phase_of (on_result now r prev).1)
unfolding on_result
on_result-IsTold now r none = elim (Bool-cases r.ok) [
  | inl e ↦ rw e (inl (refl, refl, inl refl))
  | inr e ↦ rw e (inr (refl, (now, now, refl, omega arith, inr (refl, inl (Memᴰ.head refl)))))
]
on_result-IsTold now r (some s) = elim (Bool-cases r.ok) [
  | inl e ↦ elim (Bool-cases s.failing) [
    | inl f ↦ rw (e, f) (inl (refl, refl, inr (s.since, s.last_alert_at, refl, Memᴰ.head refl)))
    | inr f ↦ rw (e, f) (inl (refl, refl, inl refl))
  ]
  | inr e ↦ elim (Bool-cases s.failing) [
    | inl f ↦ elim (Bool-cases (leb alert_reminder_ms (now - s.last_alert_at))) [
      | inl due ↦
          rw (e, f, due)
            (inr (refl, (s.since, now, refl, omega arith, inr (refl, inr (Memᴰ.head refl)))))
      | inr early ↦
          rw (e, f, early) (inr (refl, (s.since, s.last_alert_at, refl, ground arith, inl refl)))
    ]
    | inr f ↦
        rw (e, f) (inr (refl, (now, now, refl, omega arith, inr (refl, inl (Memᴰ.head refl)))))
  ]
]

more-IsTold :
    (now : ℕ) (r : CheckResult) (before after : Phase) (few more : List Notice)
    → ((n : Notice) → Memᴰ n few → Memᴰ n more)
    → IsTold now r before few after
    → IsTold now r before more after
more-IsTold now r before after few more f (inl (o, a, inl b)) = inl (o, a, inl b)
more-IsTold now r before after few more f (inl (o, a, inr (since, last, b, i))) =
    inl (o, a, inr (since, last, b, f _ i))
more-IsTold now r before after few more f (inr (o, (since, last, a, l, inl b))) =
    inr (o, (since, last, a, l, inl b))
more-IsTold now r before after few more f (inr (o, (since, last, a, l, inr (b, inl i)))) =
    inr (o, (since, last, a, l, inr (b, inl (f _ i))))
more-IsTold now r before after few more f (inr (o, (since, last, a, l, inr (b, inr i)))) =
    inr (o, (since, last, a, l, inr (b, inr (f _ i))))

process_alerts-other :
    (now : ℕ) (name : Text) (rs : List CheckResult) (states : AlertStates)
    → All (λ r. text_eq name r.name ≡ false) rs
    → (process_alerts now rs states).1 name ≡ states name
unfolding process_alerts set_state
process_alerts-other now name [] states h = refl
process_alerts-other now name (r ∷ rs) states (h, hs) =
    let ih =
      process_alerts-other now name rs (set_state r.name (on_result now r (states r.name)).1 states)
        hs in
    rw ih (rw h refl)

-- What a run tells of results of different names.
process_alerts-IsTold :
    (now : ℕ) (rs : List CheckResult) (states : AlertStates)
    → AreKeyed (λ r. r.name) rs
    → All
        (λ r.
          IsTold now r
            (phase_of (states r.name))
            (process_alerts now rs states).0
            (phase_of ((process_alerts now rs states).1 r.name)))
        rs
unfolding process_alerts set_state
process_alerts-IsTold now [] states k = tt
process_alerts-IsTold now (r ∷ rs) states (k, ks) =
    let (notice, entry) = on_result now r (states r.name) in
    let states' = set_state r.name entry states in
    let later = process_alerts now rs states' in
    let kept = process_alerts-other now r.name rs states' k in
    (
      more-IsTold now r _ _ (to_list notice) (to_list notice ++ later.0)
          (λ n i. mem_left n (to_list notice) later.0 i)
          (rw kept (rw (text_eq_refl r.name) (on_result-IsTold now r (states r.name)))),
      All-map _ _
          (λ q (apart, told).
            more-IsTold now q _ _ later.0 (to_list notice ++ later.0)
              (λ n i. mem_right n (to_list notice) later.0 i)
              (rw (text_eq_sym q.name r.name ∙ apart) at told))
          rs (All-and _ _ rs k (process_alerts-IsTold now rs states' ks)),
    )

apart :
    (a b : Text) (o p : Outcome)
    → text_eq a b ≡ false
    → text_eq (timed a o).name (timed b p).name ≡ false
unfolding timed
apart a b (returned d) (returned e) h = h
apart a b (returned d) (threw e) h = h
apart a b (threw d) (returned e) h = h
apart a b (threw d) (threw e) h = h

-- The six checks of a run have different names.
check_all-AreKeyed :
    (max_age_secs : ℕ) (active : List MarketConfig) (now : ℕ) (s : Services)
    → AreKeyed (λ r. r.name) (check_all max_age_secs active now s)
unfolding check_all text_eq
check_all-AreKeyed max_age_secs active now s = (
  (
    apart _ _ _ _ refl,
    (apart _ _ _ _ refl, (apart _ _ _ _ refl, (apart _ _ _ _ refl, (apart _ _ _ _ refl, tt)))),
  ),
  (
    (apart _ _ _ _ refl, (apart _ _ _ _ refl, (apart _ _ _ _ refl, (apart _ _ _ _ refl, tt)))),
    (
      (apart _ _ _ _ refl, (apart _ _ _ _ refl, (apart _ _ _ _ refl, tt))),
      ((apart _ _ _ _ refl, (apart _ _ _ _ refl, tt)), ((apart _ _ _ _ refl, tt), (tt, tt))),
    ),
  ),
)

-- A run of the six checks tells of each result: where it passes, the check is in order afterwards, and
-- its recovery is among the run's notices if it was failing; where it fails, an alert with its detail
-- is among the run's notices, or the check was already failing with its last alert less than an hour
-- ago.
pub check_all-IsTold :
    (max_age_secs : ℕ) (active : List MarketConfig) (now : ℕ) (s : Services) (states : AlertStates)
    → All
        (λ r.
          IsTold now r
            (phase_of (states r.name))
            (process_alerts now (check_all max_age_secs active now s) states).0
            (phase_of ((process_alerts now (check_all max_age_secs active now s) states).1 r.name)))
        (check_all max_age_secs active now s)
check_all-IsTold max_age_secs active now s states =
    process_alerts-IsTold now (check_all max_age_secs active now s) states
      (check_all-AreKeyed max_age_secs active now s)
