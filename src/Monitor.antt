-- ===== src/Monitor.antt =====
-- The monitor, client/scripts/monitor.ts: its six checks and the alerts on their results. A run's
-- alerts are posted before the next run begins; what the webhook does with them is not modelled.
pub mod Alerts
pub mod Protocol
pub mod Told
pub mod Freshness
mod Tests
use kryon_v.Base.{
  ℕ, ◌+◌, ◌-◌, ◌/◌, Bool, true, false, ◌&&◌, ◌||◌, not, Option, none, some, List, [], ◌∷◌, ◌++◌,
  map, ◌==◌, ltb, leb, if◌then◌else◌, length, take, filterb, someb, ℤ, pos, negsuc, sub_ℕ, ltb_ℤ,
  Text, codes,
}
use kryon_v.Config.{MarketConfig}
use kryon_v.Signing.Decimal.{to_string}
use kryon_v.Store.{Order}
use kryon_v.Matcher.Sort.{sort}

-- What a check returns: its detail, or an error's message.
pub data Outcome : Type 0 where
  returned threw : Text → Outcome

-- A query, a fetch or a simulation that fails with a message, or gives a value.
pub data Answer {ℓ} (A : Type ℓ) : Type ℓ where
  failing : Text → Answer A
  gives : A → Answer A

pub record CheckResult : Type 0 where
  pub name : Text
  pub ok : Bool
  pub detail : Text

unfoldable pub timed : Text → Outcome → CheckResult
timed name (returned detail) = record { name = name; ok = true; detail = detail }
timed name (threw message) = record { name = name; ok = false; detail = take 120 message }

abbrev db_latency_warn_ms : ℕ
db_latency_warn_ms = 2000

unfoldable pub check_db_latency : Answer ℕ → Outcome
check_db_latency (failing message) = threw message
check_db_latency (gives ms) =
    if ltb db_latency_warn_ms ms
    then threw (codes "DB latency " ++ to_string ms ++ codes "ms exceeds 2000ms")
    else returned (to_string ms ++ codes "ms")

-- The simulated `get_price`: an error, no value, or the snapshot's publish time.
pub data Snapshot : Type 0 where
  sim_failed : Text → Snapshot
  no_value : Snapshot
  published_at : ℕ → Snapshot

-- A whole number in a message.
abbrev pub show_int : ℤ → Text
show_int (pos n) = to_string n
show_int (negsuc n) = codes "-" ++ to_string (n + 1)

unfoldable pub join : Text → List Text → Text
join separator [] = []
join separator (x ∷ []) = x
join separator (x ∷ y ∷ rest) = x ++ separator ++ join separator (y ∷ rest)

-- The whole seconds since a time in seconds, rounded to the nearest.
unfoldable pub age_secs : ℕ → ℕ → ℤ
age_secs now_ms publish_time = sub_ℕ ((now_ms + 500) / 1000) publish_time

abbrev pub after_feed : Outcome → (Text → Outcome) → Outcome
after_feed (threw message) next = threw message
after_feed (returned detail) next = next detail

-- `reasons` is what `checkProtocolActivity` answers when it is asked for a market that is stale.
module _ (max_age_secs now_ms : ℕ) (snapshot : Text → Snapshot) (reasons : Text → List Text) where
  abbrev judge_stale : Text → Text → List Text → Outcome
  judge_stale symbol age [] =
      returned (symbol ++ codes "=idle (" ++ age ++ codes "s old, publishing suspended)")
  judge_stale symbol age (r ∷ rest) = threw (
      codes "oracle "
      ++ symbol
      ++ codes " is "
      ++ age
      ++ codes "s stale (max "
      ++ to_string max_age_secs
      ++ codes "s) while ACTIVE: "
      ++ join (codes ",") (r ∷ rest))

  abbrev judge_age : Text → ℤ → Outcome
  judge_age symbol age =
      if ltb_ℤ (pos max_age_secs) age
      then judge_stale symbol (show_int age) (reasons symbol)
      else returned (symbol ++ codes "=" ++ show_int age ++ codes "s old")

  abbrev judge_snapshot : Text → Snapshot → Outcome
  judge_snapshot symbol (sim_failed error) = threw (codes "oracle sim failed: " ++ take 80 error)
  judge_snapshot symbol no_value = threw (codes "oracle returned no value")
  judge_snapshot symbol (published_at time) =
      if time == 0
      then threw (codes "oracle snapshot has no publish_time")
      else judge_age symbol (age_secs now_ms time)

  -- One market's turn.
  unfoldable pub check_feed : Text → Outcome
  check_feed symbol = judge_snapshot symbol (snapshot symbol)

  -- The loop over the active markets; the first that throws ends it.
  unfoldable pub check_feeds : List MarketConfig → List Text → Outcome
  check_feeds [] results = returned (join (codes ", ") results)
  check_feeds (m ∷ ms) results =
      after_feed (check_feed m.oracle_symbol) (λ detail. check_feeds ms (results ++ (detail ∷ [])))

  unfoldable pub check_oracle_freshness : List MarketConfig → Outcome
  check_oracle_freshness ms = check_feeds ms []

-- `NOW() - createdAt` in whole seconds, as the database rounds it.
abbrev pub age_of : ℕ → ℕ → ℕ
age_of now_ms at = (now_ms - at + 500) / 1000

abbrev pub oldest : List ℕ → Option ℕ
oldest times = head (sort leb times)
  where
    head : List ℕ → Option ℕ
    head [] = none
    head (t ∷ ts) = some t

-- The database rounds the time to the nearest second.
unfoldable pub is_resting : ℕ → Order → Bool
is_resting now_ms o =
    not o.cancelled
    && ltb o.filled_size o.size
    && not (o.limit_price == 0)
    && ltb ((now_ms + 500) / 1000) o.expiry_ts

abbrev pub judge_oldest : ℕ → Option ℕ → Outcome
judge_oldest now_ms none = returned (codes "no resting orders")
judge_oldest now_ms (some at) =
    if ltb 60 (age_of now_ms at)
    then threw (codes "oldest pending order is " ++ to_string (age_of now_ms at) ++ codes "s old")
    else returned (codes "oldest order " ++ to_string (age_of now_ms at) ++ codes "s")

unfoldable pub check_matcher_lag : ℕ → Answer (List Order) → Outcome
check_matcher_lag now_ms (failing message) = threw message
check_matcher_lag now_ms (gives orders) =
    judge_oldest now_ms (oldest (map (λ o. o.created_at) (filterb (is_resting now_ms) orders)))

-- The columns of a `Market` row that the check reads.
pub record Synced : Type 0 where
  pub id : ℕ
  pub updated_at : ℕ

abbrev pub judge_sync : ℕ → Option ℕ → Outcome
judge_sync now_ms none = returned (codes "no active markets in DB")
judge_sync now_ms (some at) =
    if ltb 60 (age_of now_ms at)
    then threw (codes "indexer last synced " ++ to_string (age_of now_ms at) ++ codes "s ago")
    else returned (codes "last sync " ++ to_string (age_of now_ms at) ++ codes "s ago")

unfoldable pub check_indexer_lag : ℕ → List MarketConfig → Answer (List Synced) → Outcome
check_indexer_lag now_ms active (failing message) = threw message
check_indexer_lag now_ms active (gives rows) =
    judge_sync now_ms (
      oldest
        (map (λ r. r.updated_at) (filterb (λ r. someb (λ m. m.market_id == r.id) active) rows)))

-- The status of the response; `res.ok` is a status from 200 to 299.
unfoldable pub check_app_health : Answer ℕ → Outcome
check_app_health (failing message) = threw message
check_app_health (gives status) =
    if leb 200 status && ltb status 300
    then returned (codes "HTTP " ++ to_string status)
    else threw (codes "/api/health returned " ++ to_string status)

-- The socket's events until the timer of five seconds: a message that is or is no pong, or an error.
pub data SocketEvent : Type 0 where
  message : Bool → SocketEvent
  error : Text → SocketEvent

unfoldable pub check_web_socket : List SocketEvent → Outcome
check_web_socket [] = threw (codes "WS open timeout")
check_web_socket (error e ∷ events) = threw e
check_web_socket (message true ∷ events) = returned (codes "connected + pong")
check_web_socket (message false ∷ events) = check_web_socket events

-- What the services answer to one run of the checks.
pub record Services : Type 0 where
  pub db_latency : Answer ℕ
  pub snapshot : Text → Snapshot
  pub reasons : Text → List Text
  pub orders : Answer (List Order)
  pub synced : Answer (List Synced)
  pub health : Answer ℕ
  pub socket : List SocketEvent

unfoldable pub check_all : ℕ → List MarketConfig → ℕ → Services → List CheckResult
check_all max_age_secs active now_ms s =
    timed (codes "db-latency") (check_db_latency s.db_latency)
    ∷ timed (codes "oracle-freshness")
        (check_oracle_freshness max_age_secs now_ms s.snapshot s.reasons active)
    ∷ timed (codes "matcher-lag") (check_matcher_lag now_ms s.orders)
    ∷ timed (codes "indexer-lag") (check_indexer_lag now_ms active s.synced)
    ∷ timed (codes "app-health") (check_app_health s.health)
    ∷ timed (codes "websocket") (check_web_socket s.socket)
    ∷ []
