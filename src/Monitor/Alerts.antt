-- ===== src/Monitor/Alerts.antt =====
-- `processAlerts` of client/scripts/monitor.ts and the runs that call it.
use kryon_v.Base.{
  ℕ, ◌+◌, ◌-◌, ◌*◌, ◌/◌, ◌%◌, Bool, true, Option, none, some, List, [], ◌∷◌, ◌++◌, ltb, leb,
  if◌then◌else◌, map, Text, codes, text_eq,
}
use kryon_v.Config.{MarketConfig}
use kryon_v.Signing.Decimal.{to_string}
use kryon_v.Monitor.{CheckResult, Services, check_all}

pub record AlertState : Type 0 where
  pub failing : Bool
  pub since : ℕ
  pub last_alert_at : ℕ
  pub last_detail : Text

-- `alertStates`
abbrev pub AlertStates : Type 0
AlertStates = Text → Option AlertState

-- What `postAlert` is called with: a check's name, a duration and a detail.
pub data Notice : Type 0 where
  started : Text → Text → Notice
  reminded recovered : Text → Text → Text → Notice

abbrev pub alert_reminder_ms : ℕ
alert_reminder_ms = 60 * 60 * 1000

unfoldable pub fmt_duration : ℕ → Text
fmt_duration ms =
    let mins = (ms + 30000) / 60000 in
    if ltb mins 60
    then to_string mins ++ codes "m"
    else to_string (mins / 60) ++ codes "h" ++ to_string (mins % 60) ++ codes "m"

-- A key's entry is set, or deleted.
unfoldable pub set_state : Text → Option AlertState → AlertStates → AlertStates
set_state name entry states k = if text_eq k name then entry else states k

module _ (now : ℕ) (r : CheckResult) where
  abbrev start : Option Notice × Option AlertState
  start = (
    some (started r.name r.detail),
    some (record { failing = true; since = now; last_alert_at = now; last_detail = r.detail }),
  )

  abbrev on_failing : AlertState → Option Notice × Option AlertState
  on_failing prev =
      if leb alert_reminder_ms (now - prev.last_alert_at)
      then (
        some (reminded r.name (fmt_duration (now - prev.since)) r.detail),
        some (record prev { last_alert_at = now; last_detail = r.detail }),
      )
      else (none, some (record prev { last_detail = r.detail }))

  -- The entry of a check before its result, to its notice and its entry afterwards.
  unfoldable pub on_result : Option AlertState → Option Notice × Option AlertState
  on_result none = if r.ok then (none, none) else start
  on_result (some prev) =
      if r.ok
      then (if prev.failing
          then (some (recovered r.name (fmt_duration (now - prev.since)) r.detail), none)
          else (none, some prev))
      else (if prev.failing then on_failing prev else start)

abbrev pub to_list {ℓ} : {A : Type ℓ} → Option A → List A
to_list none = []
to_list (some a) = a ∷ []

unfoldable pub process_alerts : ℕ → List CheckResult → AlertStates → List Notice × AlertStates
process_alerts now [] states = ([], states)
process_alerts now (r ∷ rs) states =
    let (notice, entry) = on_result now r (states r.name) in
    let (notices, later) = process_alerts now rs (set_state r.name entry states) in
    (to_list notice ++ notices, later)

-- A run's time and results.
abbrev pub Run : Type 0
Run = ℕ × List CheckResult

abbrev pub stamp : ℕ → List Notice → List (ℕ × Notice)
stamp now notices = map (λ n. (now, n)) notices

-- The notices of the runs, with the time of each.
unfoldable pub run_alerts : List Run → AlertStates → List (ℕ × Notice)
run_alerts [] states = []
run_alerts ((now, results) ∷ runs) states =
    let (notices, later) = process_alerts now results states in
    stamp now notices ++ run_alerts runs later

-- `runChecks` at each of some times, from what the services answer then.
unfoldable pub run_checks :
    ℕ → List MarketConfig → List (ℕ × Services) → AlertStates → List (ℕ × Notice)
run_checks max_age_secs active visits states =
    run_alerts (map (λ v. (v.0, check_all max_age_secs active v.0 v.1)) visits) states
