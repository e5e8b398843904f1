-- ===== src/Monitor/Tests.antt =====
-- The monitor with an oracle that goes stale and recovers.
use kryon_v.Base.{◌≡◌, refl, true, false, none, List, [], ◌∷◌, length, All, Text, codes, text_eq}
use kryon_v.Config.{MarketConfig, markets}
use kryon_v.Monitor.{
  CheckResult, Services, gives, failing, published_at, message, Snapshot, check_all,
}
use kryon_v.Monitor.Alerts.{AlertStates, Run, set_state, on_result, process_alerts, run_alerts}
use kryon_v.Monitor.Protocol.{Protocol, phase_of, of_check, results_of, run_alerts-Protocol}
use kryon_v.Monitor.Told.{IsTold, check_all-IsTold}

abbrev oracle : Text
oracle = codes "oracle-freshness"

abbrev stale : CheckResult
stale = record { name = oracle; ok = false; detail = codes "stale" }

abbrev fresh : CheckResult
fresh = record { name = oracle; ok = true; detail = codes "3s old" }

-- It fails twice, fails again an hour later and recovers.
abbrev visits : List Run
visits = (0, stale ∷ []) ∷ (30000, stale ∷ []) ∷ (3600000, stale ∷ []) ∷ (3630000, fresh ∷ []) ∷ []

abbrev calm : AlertStates
calm name = none

three_notices : length (run_alerts visits calm) ≡ 3
unfolding run_alerts process_alerts on_result set_state text_eq
three_notices = refl

run_alerts-Protocol_example :
    Protocol oracle
      (phase_of (calm oracle))
      (results_of oracle visits)
      (of_check oracle (run_alerts visits calm))
run_alerts-Protocol_example = run_alerts-Protocol oracle visits calm

abbrev feed : Text → Snapshot
feed symbol = published_at 880

abbrev waiting : Text → List Text
waiting symbol = codes "order" ∷ []

-- The database is down, and the prices are two minutes old while an order waits.
abbrev services : Services
services = record {
  db_latency = failing (codes "down");
  snapshot = feed;
  reasons = waiting;
  orders = failing (codes "down");
  synced = failing (codes "down");
  health = gives 200;
  socket = message true ∷ [];
}

abbrev active : List MarketConfig
active = markets (codes "U")

check_all-IsTold_example :
    All
      (λ r.
        IsTold 1000000 r
          (phase_of (calm r.name))
          (process_alerts 1000000 (check_all 110 active 1000000 services) calm).0
          (phase_of
            ((process_alerts 1000000 (check_all 110 active 1000000 services) calm).1 r.name)))
      (check_all 110 active 1000000 services)
check_all-IsTold_example = check_all-IsTold 110 active 1000000 services calm
