-- ===== src/Oracle.antt =====
-- The oracle keeper's decisions, client/scripts/oracle-keeper.ts, and the activity check that they
-- rest on, client/lib/oracle-activity.ts. What the sources agree on is a parameter here; Oracle/Median
-- has it. The clock does not go back.
pub mod Safety
pub mod Median
pub mod Liveness
pub mod Ticking
mod Tests
use kryon_v.Base.{
  ℕ, zero, suc, ◌+◌, ◌-◌, ◌*◌, ◌/◌, Bool, true, false, ◌&&◌, ◌||◌, not, Option, none, some, List,
  [], ◌∷◌, ◌++◌, ◌==◌, ltb, leb, if◌then◌else◌, someb, length, Text, codes, text_eq,
}
use kryon_v.Config.{MarketConfig, price_precision}
use kryon_v.Store.{Order, queued, submitted, TxJob, Db}
use kryon_v.Settlement.{status_eq}

pub record AggregatedPrice : Type 0 where
  pub price : ℕ
  pub confidence : ℕ

pub record Published : Type 0 where
  pub price : ℕ
  pub ts : ℕ

-- `lastPublished`
abbrev pub LastPublished : Type 0
LastPublished = Text → Option Published

-- What the network does with a write: it throws or fails before it is sent, or is sent and polled.
pub data Poll : Type 0 where
  success failed not_found throws : Poll

pub data Write : Type 0 where
  unsent : Write
  polled : (ℕ → Poll) → Write

-- The settings and the surroundings of a tick. `done_ms` is the clock when a write is confirmed.
pub record World : Type 0 where
  pub mainnet : Bool
  pub publish_deviation_bps : ℕ
  pub publish_heartbeat_secs : ℕ
  pub usdc_publish_deviation_bps : ℕ
  pub usdc_publish_heartbeat_secs : ℕ
  pub usdc_depeg_halt_bps : ℕ
  pub activity_check_interval_ms : ℕ
  pub idle_grace_secs : ℕ
  pub now_ms : ℕ
  pub done_ms : ℕ
  pub aggregate : Text → Option AggregatedPrice
  pub write : Text → Write

abbrev pub distance : ℕ → ℕ → ℕ
distance a b = if ltb b a then a - b else b - a

abbrev pub moved : ℕ → ℕ → ℕ → ℕ → Option Published → Bool
moved now_ms price deviation_bps heartbeat_secs none = true
moved now_ms price deviation_bps heartbeat_secs (some last) =
    leb (heartbeat_secs * 1000) (now_ms - last.ts)
    || leb deviation_bps (distance price last.price * 10000 / last.price)

unfoldable pub should_publish : LastPublished → ℕ → Text → ℕ → ℕ → ℕ → Bool
should_publish last now_ms asset price deviation_bps heartbeat_secs =
    moved now_ms price deviation_bps heartbeat_secs (last asset)

-- The 15 polls of `writePrice`; a throw ends it like a failure.
unfoldable pub poll_write : ℕ → ℕ → (ℕ → Poll) → Bool
poll_write zero i poll = false
poll_write (suc left) i poll = elim (poll i) [
  | success ↦ true
  | failed ↦ false
  | throws ↦ false
  | not_found ↦ poll_write left (suc i) poll
]

unfoldable pub write_price : Write → Bool
write_price unsent = false
write_price (polled poll) = poll_write 15 0 poll

unfoldable pub set_published : Text → Published → LastPublished → LastPublished
set_published asset p last k = if text_eq k asset then some p else last k

module _ (w : World) where
  unfoldable pub publish : Text → ℕ → ℕ → ℕ → LastPublished → LastPublished
  publish asset price deviation_bps heartbeat_secs last =
      if should_publish last w.now_ms asset price deviation_bps heartbeat_secs
        && write_price (w.write asset)
      then set_published asset (record { price = price; ts = w.done_ms }) last
      else last

  abbrev pub publish_aggregate : Text → Option AggregatedPrice → LastPublished → LastPublished
  publish_aggregate asset none last = last
  publish_aggregate asset (some agg) last =
      publish asset agg.price w.publish_deviation_bps w.publish_heartbeat_secs last

  unfoldable pub publish_market : MarketConfig → LastPublished → LastPublished
  publish_market market last =
      publish_aggregate market.oracle_symbol (w.aggregate market.oracle_symbol) last

  abbrev pub usdc : Text
  usdc = codes "USDC"

  -- The price of USDC that may be published.
  unfoldable pub usdc_price : Option AggregatedPrice → Option ℕ
  usdc_price (some agg) =
      if ltb w.usdc_depeg_halt_bps (distance agg.price price_precision * 10000 / price_precision)
      then none
      else some agg.price
  usdc_price none = if w.mainnet then none else some price_precision

  abbrev pub publish_price : Option ℕ → LastPublished → LastPublished
  publish_price none last = last
  publish_price (some price) last =
      publish usdc price w.usdc_publish_deviation_bps w.usdc_publish_heartbeat_secs last

  unfoldable pub publish_usdc : LastPublished → LastPublished
  publish_usdc last = publish_price (usdc_price (w.aggregate usdc)) last

  unfoldable pub publish_markets : List MarketConfig → LastPublished → LastPublished
  publish_markets [] last = last
  publish_markets (m ∷ ms) last = publish_markets ms (publish_market m last)

  -- `tickInner`
  unfoldable pub tick_inner : List MarketConfig → LastPublished → LastPublished
  tick_inner ms last = publish_usdc (publish_markets ms last)

-- The answer of a query or a simulation: an error, or whether there is such a row or deposit.
pub data Signal : Type 0 where
  failing : Signal
  found : Bool → Signal

abbrev pub reasons_of : Text → Signal → List Text
reasons_of name failing = (name ++ codes "-check-error") ∷ []
reasons_of name (found true) = name ∷ []
reasons_of name (found false) = []

abbrev pub is_live_order : ℕ → Order → Bool
is_live_order now_secs o = not o.cancelled && ltb o.filled_size o.size && ltb now_secs o.expiry_ts

abbrev pub in_flight : TxJob → Bool
in_flight j = status_eq j.status queued || status_eq j.status submitted

-- Whether a query on the tables gets through.
abbrev pub ask : Bool → Bool → Signal
ask reachable rows = if reachable then found rows else failing

unfoldable pub db_signals : ℕ → Bool → Db → Signal → List Text
db_signals now_ms reachable db positions =
    reasons_of (codes "order") (ask reachable (someb (is_live_order (now_ms / 1000)) db.orders))
    ++ (reasons_of (codes "txjob") (ask reachable (someb in_flight db.jobs))
        ++ reasons_of (codes "position") positions)

unfoldable pub check_protocol_activity : ℕ → Bool → Db → Signal → Signal → Bool
check_protocol_activity now_ms reachable db positions vault =
    ltb 0 (length (db_signals now_ms reachable db positions ++ reasons_of (codes "vault") vault))

pub record Activity : Type 0 where
  pub last_activity_check : ℕ
  pub last_active_at : ℕ

unfoldable pub is_publishing_needed : World → Bool → Activity → Bool × Activity
is_publishing_needed w active s =
    let checks = leb w.activity_check_interval_ms (w.now_ms - s.last_activity_check) in
    let at = if checks && active then w.now_ms else s.last_active_at in
    (
      ltb (w.now_ms - at) (w.idle_grace_secs * 1000),
      record {
        last_activity_check = if checks then w.now_ms else s.last_activity_check;
        last_active_at = at;
      },
    )
