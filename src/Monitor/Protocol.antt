-- ===== src/Monitor/Protocol.antt =====
-- What client/scripts/monitor.ts tells of one check over its runs.
use mathlib.Core.Path.{subst}
use kryon_v.Base.{
  sym, ℕ, ◌+◌, ◌-◌, ◌≤◌, ◌≡◌, refl, Bool, true, map, ◌<◌, false, Option, none, some, List, [], ◌∷◌,
  ◌++◌, if◌then◌else◌, leb, filterb, filterb-append, Text, text_eq, text_eq_iff, text_eq_refl,
  Bool-cases, inl, inr, arith,
}
use kryon_v.Monitor.{CheckResult}
use kryon_v.Monitor.Alerts.{
  AlertState, AlertStates, Notice, started, reminded, recovered, alert_reminder_ms, fmt_duration,
  set_state, on_result, to_list, process_alerts, Run, stamp, run_alerts,
}

-- A check is in order, or has been failing since a time, with its last alert at another.
pub data Phase : Type 0 where
  quiet : Phase
  broken : ℕ → ℕ → Phase

-- The time of a result, whether the check passed, and its detail.
abbrev pub Verdict : Type 0
Verdict = ℕ × Bool × Text

-- What the results of one check, with their times, make `processAlerts` tell: an alert with the first
-- failure, a reminder with a failure an hour after the last notice, nothing with the failures between,
-- and a notice with the first success after a failure. Each tells how long the check has been failing.
pub data Protocol (name : Text) : Phase → List Verdict → List (ℕ × Notice) → Type 0 where
  ends : {p : Phase} → Protocol name p [] []
  passes :
      {t : ℕ} {detail : Text} {results : List Verdict} {log : List (ℕ × Notice)}
      → Protocol name quiet results log
      → Protocol name quiet ((t, true, detail) ∷ results) log
  starts :
      {t : ℕ} {detail : Text} {results : List Verdict} {log : List (ℕ × Notice)}
      → Protocol name (broken t t) results log
      → Protocol name quiet ((t, false, detail) ∷ results) ((t, started name detail) ∷ log)
  waits :
      {since last t : ℕ} {detail : Text} {results : List Verdict} {log : List (ℕ × Notice)}
      → t < last + alert_reminder_ms
      → Protocol name (broken since last) results log
      → Protocol name (broken since last) ((t, false, detail) ∷ results) log
  reminds :
      {since last t : ℕ} {detail : Text} {results : List Verdict} {log : List (ℕ × Notice)}
      → last + alert_reminder_ms ≤ t
      → Protocol name (broken since t) results log
      → Protocol name
          (broken since last)
          ((t, false, detail) ∷ results)
          ((t, reminded name (fmt_duration (t - since)) detail) ∷ log)
  recovers :
      {since last t : ℕ} {detail : Text} {results : List Verdict} {log : List (ℕ × Notice)}
      → Protocol name quiet results log
      → Protocol name
          (broken since last)
          ((t, true, detail) ∷ results)
          ((t, recovered name (fmt_duration (t - since)) detail) ∷ log)

abbrev pub phase_of : Option AlertState → Phase
phase_of none = quiet
phase_of (some s) = if s.failing then broken s.since s.last_alert_at else quiet

-- The check that a notice is about, and its notices in a log.
abbrev pub subject : Notice → Text
subject (started name detail) = name
subject (reminded name duration detail) = name
subject (recovered name duration detail) = name

abbrev pub of_check : Text → List (ℕ × Notice) → List (ℕ × Notice)
of_check name log = filterb (λ e. text_eq name (subject e.1)) log

-- The results of one check in a run, and over the runs.
abbrev pub outcomes : Text → ℕ → List CheckResult → List Verdict
outcomes name now rs =
    map (λ (r : CheckResult). (now, r.ok, r.detail)) (filterb (λ r. text_eq name r.name) rs)

pub results_of : Text → List Run → List Verdict
results_of name [] = []
results_of name ((now, rs) ∷ runs) = outcomes name now rs ++ results_of name runs

-- A notice in front of a log.
abbrev told : ℕ → Option Notice → List (ℕ × Notice) → List (ℕ × Notice)
told now none rest = rest
told now (some n) rest = (now, n) ∷ rest

module _ (now : ℕ) (r : CheckResult) where
  on_result-Protocol :
      (prev : Option AlertState) (results : List Verdict) (rest : List (ℕ × Notice))
      → Protocol r.name (phase_of (on_result now r prev).1) results rest
      → Protocol r.name
          (phase_of prev)
          ((now, r.ok, r.detail) ∷ results)
          (told now (on_result now r prev).0 rest)
  unfolding on_result
  on_result-Protocol none results rest h = elim (Bool-cases r.ok) [
    | inl e ↦ let h' = rw e at h in rw e (passes h')
    | inr e ↦ let h' = rw e at h in rw e (starts h')
  ]
  on_result-Protocol (some s) results rest h = elim (Bool-cases r.ok) [
    | inl e ↦ elim (Bool-cases s.failing) [
      | inl f ↦ let h' = rw (e, f) at h in rw (e, f) (recovers h')
      | inr f ↦ let h' = rw (e, f) at h in rw (e, f) (passes h')
    ]
    | inr e ↦ elim (Bool-cases s.failing) [
      | inl f ↦ elim (Bool-cases (leb alert_reminder_ms (now - s.last_alert_at))) [
        | inl due ↦ let h' = rw (e, f, due) at h in rw (e, f, due) (reminds (ground arith) h')
        | inr early ↦ let h' = rw (e, f, early) at h in rw (e, f, early) (waits (ground arith) h')
      ]
      | inr f ↦ let h' = rw (e, f) at h in rw (e, f) (starts h')
    ]
  ]

  on_result-subject :
      (prev : Option AlertState) (n : Notice)
      → (on_result now r prev).0 ≡ some n
      → subject n ≡ r.name
  unfolding on_result
  on_result-subject none n h = ground arith
  on_result-subject (some s) n h = ground arith

  on_result-same :
      (prev : Option AlertState) (results : List Verdict) (notices : List Notice)
      (rest : List (ℕ × Notice))
      → Protocol r.name
          (phase_of (on_result now r prev).1)
          results
          (of_check r.name (stamp now notices) ++ rest)
      → Protocol r.name
          (phase_of prev)
          ((now, r.ok, r.detail) ∷ results)
          (of_check r.name (stamp now (to_list (on_result now r prev).0 ++ notices)) ++ rest)
  on_result-same prev results notices rest h =
      rw (told_same (on_result now r prev).0 (on_result-subject prev))
        (on_result-Protocol prev results _ h)
    where
      told_same :
          (o : Option Notice)
          → ((n : Notice) → o ≡ some n → subject n ≡ r.name)
          → of_check r.name (stamp now (to_list o ++ notices)) ++ rest
            ≡ told now o (of_check r.name (stamp now notices) ++ rest)
      told_same none s = refl
      told_same (some n) s = rw (s n refl, text_eq_refl r.name) refl

  on_result-other :
      (name : Text) (prev : Option AlertState) (notices : List Notice)
      → text_eq name r.name ≡ false
      → of_check name (stamp now (to_list (on_result now r prev).0 ++ notices))
        ≡ of_check name (stamp now notices)
  on_result-other name prev notices h = told_other (on_result now r prev).0 (on_result-subject prev)
    where
      told_other :
          (o : Option Notice)
          → ((n : Notice) → o ≡ some n → subject n ≡ r.name)
          → of_check name (stamp now (to_list o ++ notices)) ≡ of_check name (stamp now notices)
      told_other none s = refl
      told_other (some n) s = rw (s n refl, h) refl

module _ (name : Text) where
  process_alerts-Protocol :
      (now : ℕ) (rs : List CheckResult) (states : AlertStates) (results : List Verdict)
      (rest : List (ℕ × Notice))
      → Protocol name (phase_of ((process_alerts now rs states).1 name)) results rest
      → Protocol name
          (phase_of (states name))
          (outcomes name now rs ++ results)
          (of_check name (stamp now (process_alerts now rs states).0) ++ rest)
  unfolding process_alerts set_state
  process_alerts-Protocol now [] states results rest h = h
  process_alerts-Protocol now (r ∷ rs) states results rest h =
      elim (Bool-cases (text_eq name r.name)) [
        | inl same ↦
            let entry = (on_result now r (states r.name)).1 in
            let states' = set_state r.name entry states in
            let e = (text_eq_iff name r.name).0 same in
            let later = (process_alerts now rs states').0 in
            let ih =
              subst
                (λ n.
                  Protocol n (phase_of (states' n)) (outcomes n now rs ++ results)
                    (of_check n (stamp now later) ++ rest))
                e (process_alerts-Protocol now rs states' results rest h) in
            let ih' = rw (text_eq_refl r.name) at ih in
            subst
              (λ n.
                Protocol n (phase_of (states n)) (outcomes n now (r ∷ rs) ++ results)
                  (of_check n (stamp now (process_alerts now (r ∷ rs) states).0) ++ rest))
              (sym e)
              (rw (text_eq_refl r.name) (on_result-same now r (states r.name) _ later rest ih'))
        | inr other ↦
            let ih =
              process_alerts-Protocol now rs
                (set_state r.name (on_result now r (states r.name)).1 states) results rest h in
            rw (on_result-other now r name (states r.name) _ other) (rw other (rw other at ih))
      ]

  -- Over any runs, from any state, the notices about one check are exactly the ones that its results
  -- call for: an alert when it starts to fail, a reminder when it still fails an hour after the last
  -- notice, nothing in between, and a notice when it passes again; each with the time of its run, the
  -- detail of its result and how long the check has been failing.
  pub run_alerts-Protocol :
      (runs : List Run) (states : AlertStates)
      → Protocol name
          (phase_of (states name))
          (results_of name runs)
          (of_check name (run_alerts runs states))
  unfolding run_alerts results_of
  run_alerts-Protocol [] states = ends
  run_alerts-Protocol ((now, results) ∷ runs) states =
      rw (filterb-append _ (stamp now (process_alerts now results states).0) _) (
        process_alerts-Protocol now results states _ _
          (run_alerts-Protocol runs (process_alerts now results states).1))
