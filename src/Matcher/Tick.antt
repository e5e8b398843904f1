-- ===== src/Matcher/Tick.antt =====
-- `executeSettlement` and `tick` of client/scripts/matcher-service.ts. What the chain and the
-- database's connection answer is the record `World`; a query that throws outside a `catch` ends
-- the tick.
pub mod Band
pub mod Sound
pub mod Keys
use kryon_v.Base.{
  ℕ, ◌+◌, ◌-◌, ◌*◌, ◌/◌, ◌≤◌, Bool, true, false, ◌&&◌, ◌||◌, not, Option, none, some, List, [], ◌∷◌,
  ◌++◌, map, ◌==◌, ltb, leb, if◌then◌else◌, someb, findb, filterb, Text, text_eq,
}
use kryon_v.Config.{MarketConfig}
use kryon_v.Store.{Order, Market, TxStatus, Payload, TxJob, Db}
use kryon_v.Signing.{
  OrderPayload, Crypto, order_settlement_message, pubkey_hex_from_address, verify_signed_message,
}
use kryon_v.Signing.Decimal.{to_string}
use kryon_v.Matcher.{MatchResult, match_all}
use kryon_v.Matcher.Sort.{sort}
use kryon_v.Matcher.Rows.{
  is_open, load_resting_orders, load_market_orders, oracle_of, load_oracle_price,
  within_oracle_band, payload_of_order, settlement_sig_valid,
}
use kryon_v.Matcher.Persist.{hash_of, persist_fill, rollback_fill}

-- What a call outside the process does: it throws, or answers.
pub data Answer {ℓ} (A : Type ℓ) : Type ℓ where
  throws : Answer A
  answers : A → Answer A

-- The environment of a tick. `submit` and `simulate` are the calls of `submitSettleFillSigned` and
-- `simulateSettleFill`; `persist_queries` and `rollback_queries` count the queries that get through.
pub record World : Type 0 where
  pub network : Text
  pub passphrase : Text
  pub crypto : Crypto
  pub operator_secret : Option Text
  pub max_deviation_bps : ℕ
  pub now_ms : ℕ
  pub submit : MatchResult → Answer (Option Text)
  pub simulate : MatchResult → Answer (Option Payload)
  pub loads : MarketConfig → Bool
  pub cancels : Order → Bool
  pub persist_queries : MatchResult → ℕ
  pub rollback_queries : MatchResult → ℕ
  pub upserts : MatchResult → Bool

-- A text that JavaScript takes for true.
abbrev pub truthy : Option Text → Bool
truthy none = false
truthy (some []) = false
truthy (some (c ∷ s)) = true

unfoldable pub cancel_poison_order : Order → Db → Db
cancel_poison_order o db = record db {
  orders = map (λ p. if text_eq p.id o.id then record p { cancelled = true } else p) db.orders;
}

-- `INSERT INTO "TxJob" ... ON CONFLICT (network, kind, "payloadHash") DO UPDATE`: `change` is the
-- update, `job` the new row. The identifier of a new row is the database's: the payload's hash here.
unfoldable pub upsert_job : (TxJob → TxJob) → TxJob → List TxJob → List TxJob
upsert_job change job jobs =
    let hit =
      λ (j : TxJob). text_eq j.network job.network && text_eq j.payload_hash job.payload_hash in
    if someb hit jobs then map (λ j. if hit j then change j else j) jobs else jobs ++ job ∷ []

module _ (w : World) where
  abbrev new_job : Text → TxStatus → Option Payload → Option Text → TxJob
  new_job fill_hash status payload submitted_hash = record {
    id = fill_hash;
    network = w.network;
    payload_hash = fill_hash;
    payload = payload;
    status = status;
    submitted_hash = submitted_hash;
    last_error = none;
    created_at = w.now_ms;
    updated_at = w.now_ms;
  }

  abbrev empty_payload : Payload
  empty_payload = record {
    maker_address = none;
    taker_address = none;
    maker_auth_xdr = none;
    taker_auth_xdr = none;
    assembled_tx_xdr = none;
    maker_signed_entry = none;
    taker_signed_entry = none;
    fill_price = none;
    fill_size = none;
    market_id = none;
    pending_tx_hash = none;
    maker_nonce = none;
    taker_nonce = none;
  }

  -- Both parties have signed: submitted at once, and recorded as confirmed.
  unfoldable pub record_signed : MatchResult → Answer (Option Text) → Db → Answer Bool × Db
  unfolding upsert_job
  record_signed m throws db = (throws, db)
  record_signed m (answers none) db = (answers false, db)
  record_signed m (answers (some tx_hash)) db =
      let confirm = λ (j : TxJob). record j {
        status = TxStatus.confirmed;
        submitted_hash = some tx_hash;
        updated_at = w.now_ms;
      } in
      let job =
        new_job (hash_of w.network m) TxStatus.confirmed (some empty_payload) (some tx_hash) in
      (
        if w.upserts m then answers true else throws,
        record db { jobs = if w.upserts m then upsert_job confirm job db.jobs else db.jobs },
      )

  -- Otherwise the job waits for both parties' entries.
  unfoldable pub record_queued : MatchResult → Answer (Option Payload) → Db → Answer Bool × Db
  unfolding upsert_job
  record_queued m throws db = (throws, db)
  record_queued m (answers none) db = (answers false, db)
  record_queued m (answers (some pending)) db =
      let payload = record pending {
        pending_tx_hash = some (hash_of w.network m);
        maker_nonce = some m.maker.nonce;
        taker_nonce = some m.taker.nonce;
      } in
      let requeue = λ (j : TxJob). record j { payload = some payload; updated_at = w.now_ms } in
      let job = new_job (hash_of w.network m) TxStatus.queued (some payload) none in
      (
        if w.upserts m then answers true else throws,
        record db { jobs = if w.upserts m then upsert_job requeue job db.jobs else db.jobs },
      )

  unfoldable pub execute_settlement : MatchResult → Db → Answer Bool × Db
  execute_settlement m db =
      if truthy w.operator_secret
      then (if truthy m.maker.signature && truthy m.taker.signature
          then record_signed m (w.submit m) db
          else record_queued m (w.simulate m) db)
      else (answers false, db)

  -- The end of the loop's body: the fill is kept where the settlement answers `true`.
  unfoldable pub keep_or_undo : MatchResult → Answer Bool → Db → Db
  keep_or_undo m (answers true) db = db
  keep_or_undo m (answers false) db = rollback_fill w.network m (w.rollback_queries m) db
  keep_or_undo m throws db = rollback_fill w.network m (w.rollback_queries m) db

  unfoldable pub settle_or_undo : MatchResult → Db → Db
  settle_or_undo m db = keep_or_undo m (execute_settlement m db).0 (execute_settlement m db).1

  unfoldable pub fill_match : MatchResult → Db → Db
  fill_match m db =
      let saved = persist_fill w.network m (w.persist_queries m) db in
      if saved.0 then settle_or_undo m saved.1 else saved.1

  -- The check of one side: `false` first where the query throws, then whether the side is poisoned.
  unfoldable pub check_side : Order → Db → Bool × (Bool × Db)
  check_side o db =
      if settlement_sig_valid w.crypto w.passphrase o
      then (true, (false, db))
      else (w.cancels o, (true, if w.cancels o then cancel_poison_order o db else db))

  -- What follows the two checks: `on` and `on'` tell that they did not throw.
  unfoldable pub after_checks : MatchResult → Bool → Bool → Bool → Db → Db → Bool × Db
  after_checks m false on' poisoned db1 db2 = (false, db1)
  after_checks m true false poisoned db1 db2 = (false, db2)
  after_checks m true true true db1 db2 = (true, db2)
  after_checks m true true false db1 db2 = (true, fill_match m db2)

  unfoldable pub checked_match : MatchResult → Db → Bool × Db
  checked_match m db =
      let (on, (bad, db1)) = check_side m.maker db in
      let (on', (bad', db2)) = check_side m.taker db1 in after_checks m on on' (bad || bad') db1 db2

  -- The body of the loop over the matches; `false` where the tick ends.
  unfoldable pub handle_match : Option ℕ → MatchResult → Db → Bool × Db
  handle_match none m db = (true, db)
  handle_match (some oracle) m db =
      if within_oracle_band w.max_deviation_bps m.fill_price oracle
      then checked_match m db
      else (true, db)

  unfoldable pub handle_matches : Option ℕ → List MatchResult → Db → Bool × Db
  handle_matches oracle [] db = (true, db)
  handle_matches oracle (m ∷ ms) db =
      let here = handle_match oracle m db in
      let rest = handle_matches oracle ms here.1 in if here.0 then rest else here

  unfoldable pub in_band_limits : Option ℕ → List Order → List Order
  in_band_limits none limits = []
  in_band_limits (some oracle) limits =
      filterb (λ o. within_oracle_band w.max_deviation_bps o.limit_price oracle) limits

  abbrev pub matches_of : ℕ → Db → List MatchResult
  matches_of market_id db =
      match_all
        (in_band_limits (load_oracle_price market_id db)
          (load_resting_orders market_id w.now_ms db))
        (load_market_orders market_id w.now_ms db)

  unfoldable pub tick_market : MarketConfig → Db → Bool × Db
  tick_market market db =
      let id = market.market_id in
      if w.loads market
      then handle_matches (load_oracle_price id db) (matches_of id db) db
      else (false, db)

  unfoldable pub tick : List MarketConfig → Db → Db
  tick [] db = db
  tick (market ∷ markets) db =
      let here = tick_market market db in
      let rest = tick markets here.1 in if here.0 then rest else here.1
