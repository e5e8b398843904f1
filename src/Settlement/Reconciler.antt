-- ===== src/Settlement/Reconciler.antt =====
-- client/scripts/settlement-reconciler.ts, with queries that get through: it resolves submitted jobs,
-- resubmits those that have both entries, and expires the others. The statements of one tick run in
-- order here; those of other processes in between are steps of Settlement/Sign/Claims.
pub mod Laws
pub mod Expiry
use kryon_v.Base.{
  ℕ, zero, suc, ◌+◌, ◌-◌, ◌*◌, Bool, true, false, ◌&&◌, ◌||◌, not, Option, none, some, List, [],
  ◌∷◌, map, ◌==◌, ltb, if◌then◌else◌, filterb, take, Text, codes, text_eq,
}
use kryon_v.Store.{Order, Fill, queued, submitted, confirmed, failed, Payload, TxJob, Db}
use kryon_v.Settlement.{
  status_eq, present, is_some, update_job, hits, both_signed, is_queued, any_job, resubmittable,
  claim_resubmit, fail_job, confirm_job, set_hash,
}
use kryon_v.Settlement.Sign.{Sent, threw, sent}

-- `getTransaction`, where it does not throw, and where it does.
pub data Poll : Type 0 where
  success : ℕ → Poll
  failed_on_chain not_found : Poll
  unreachable : Text → Poll

pub record World : Type 0 where
  pub now_ms : ℕ
  pub stale_queued_minutes : ℕ
  pub operator_secret : Option Text
  pub poll : Text → Poll
  pub send : TxJob → Sent
  pub poll_sent : Text → ℕ → Poll

abbrev is_submitted : TxJob → Bool
is_submitted j = status_eq j.status submitted

abbrev nonce_is : Option ℕ → ℕ → Bool
nonce_is none n = false
nonce_is (some m) n = m == n

-- Three fields of a payload that are there together.
abbrev pub pending_of : Payload → Option (Text × (Text × Text))
pending_of p = elim p.pending_tx_hash [
  | none ↦ none
  | some hash ↦ elim p.maker_address [
    | none ↦ none
    | some maker ↦ elim p.taker_address [
      | none ↦ none
      | some taker ↦
          if present p.pending_tx_hash && present p.maker_address && present p.taker_address
          then some (hash, (maker, taker))
          else none
    ]
  ]
]

-- The update of the fill's row with the settled hash; `with_nonces` where it compares the nonces as
-- well. A payload without nonces, which the matcher never writes, matches no row here.
unfoldable pub settle_fill : Text → Text → ℕ → Bool → Payload → Fill → Fill
settle_fill network hash ledger with_nonces p f = elim (pending_of p) [
  | none ↦ f
  | some (pending, (maker, taker)) ↦
      if text_eq f.network network
        && text_eq f.tx_hash pending
        && text_eq f.maker maker
        && text_eq f.taker taker
        && (not with_nonces
            || nonce_is p.maker_nonce f.maker_nonce && nonce_is p.taker_nonce f.taker_nonce)
      then record f { tx_hash = hash; ledger = ledger }
      else f
]

abbrev settled_fills : Text → Text → ℕ → Bool → Option Payload → List Fill → List Fill
settled_fills network hash ledger with_nonces none fs = fs
settled_fills network hash ledger with_nonces (some p) fs =
    map (settle_fill network hash ledger with_nonces p) fs

-- The entries and the transaction that `resubmitJob` needs.
abbrev ready_payload : Option Payload → Option Payload
ready_payload none = none
ready_payload (some p) = if present p.assembled_tx_xdr && both_signed p then some p else none

module _ (w : World) where
  -- The brief poll after a resubmission, from the attempt `i` on.
  unfoldable pub poll_job : ℕ → ℕ → TxJob → Payload → Text → Db → Db
  poll_job zero i job p hash db = db
  poll_job (suc left) i job p hash db = elim (w.poll_sent hash i) [
    | success ledger ↦ record db {
      jobs = confirm_job w.now_ms any_job job.id db.jobs;
      fills = settled_fills job.network hash ledger false (some p) db.fills;
    }
    | failed_on_chain ↦ record db {
      jobs = fail_job w.now_ms any_job job.id (codes "resubmit tx failed") db.jobs;
    }
    | not_found ↦ poll_job left (suc i) job p hash db
    | unreachable reason ↦ record db {
      jobs = fail_job w.now_ms any_job job.id (take 500 reason) db.jobs;
    }
  ]

  unfoldable pub send_claimed : TxJob → Payload → Db → Db
  send_claimed job p db = elim (w.send job) [
    | threw reason ↦ record db { jobs = fail_job w.now_ms any_job job.id (take 500 reason) db.jobs }
    | sent hash ↦
        poll_job 10 0 job p hash (record db { jobs = set_hash w.now_ms job.id hash db.jobs })
  ]

  unfoldable pub claim_job : TxJob → Option Payload → Db → Db
  claim_job job none db = db
  claim_job job (some p) db =
      let claimed =
        send_claimed job p (record db { jobs = claim_resubmit w.now_ms job.id db.jobs }) in
      if hits job.id resubmittable db.jobs then claimed else db

  unfoldable pub resubmit_job : TxJob → Db → Db
  resubmit_job job db =
      if present w.operator_secret then claim_job job (ready_payload job.payload) db else db

  unfoldable pub resolve : TxJob → Text → Poll → Db → Db
  resolve job hash (success ledger) db = record db {
    jobs = confirm_job w.now_ms is_submitted job.id db.jobs;
    fills = settled_fills job.network hash ledger true job.payload db.fills;
  }
  resolve job hash failed_on_chain db = record db {
    jobs = fail_job w.now_ms is_submitted job.id (codes "on-chain tx failed") db.jobs;
  }
  resolve job hash not_found db = resubmit_job job db
  resolve job hash (unreachable reason) db = db

  abbrev pub resolve_some : TxJob → Option Text → Db → Db
  resolve_some job none db = db
  resolve_some job (some []) db = db
  resolve_some job (some (c ∷ hash)) db = resolve job (c ∷ hash) (w.poll (c ∷ hash)) db

  unfoldable pub reconcile_submitted : TxJob → Db → Db
  reconcile_submitted job db = resolve_some job job.submitted_hash db

-- `GREATEST(0, "filledSize" - n)` on the orders of an owner and a nonce.
unfoldable pub give_back : Text → Option ℕ → ℕ → Order → Order
give_back owner none n o = o
give_back owner (some nonce) n o =
    if text_eq o.owner owner && o.nonce == nonce
    then record o { filled_size = o.filled_size - n }
    else o

-- The rollback of an expired job's fill.
unfoldable pub undo_fill : Text → Payload → Db → Db
undo_fill network p db = elim (pending_of p) [
  | none ↦ db
  | some (pending, (maker, taker)) ↦ elim p.fill_size [
    | none ↦ db
    | some n ↦ record db {
      fills = filterb (λ f. not (text_eq f.network network && text_eq f.tx_hash pending)) db.fills;
      orders =
          map (give_back taker p.taker_nonce n) (map (give_back maker p.maker_nonce n) db.orders);
    }
  ]
]

abbrev undo_payload : Text → Option Payload → Db → Db
undo_payload network none db = db
undo_payload network (some p) db = undo_fill network p db

abbrev has_both : Option Payload → Bool
has_both none = false
has_both (some p) = both_signed p

module _ (w : World) where
  unfoldable pub expire_job : TxJob → Db → Db
  expire_job job db =
      let undone = undo_payload job.network job.payload db in
      if has_both job.payload then db else record undone {
        jobs = fail_job w.now_ms is_queued job.id (codes "auth collection timeout") undone.jobs;
      }

  unfoldable pub each_job : (TxJob → Db → Db) → List TxJob → Db → Db
  each_job f [] db = db
  each_job f (j ∷ js) db = each_job f js (f j db)

  abbrev is_stale : TxJob → Bool
  is_stale j = is_queued j && ltb (j.created_at + w.stale_queued_minutes * 60000) w.now_ms

  unfoldable pub expire_stale_queued : Db → Db
  expire_stale_queued db = each_job expire_job (filterb is_stale db.jobs) db

  abbrev is_due : TxJob → Bool
  is_due j = ltb (j.updated_at + 30000) w.now_ms

  abbrev has_entries : Option Payload → Bool
  has_entries none = false
  has_entries (some p) = is_some p.maker_signed_entry && is_some p.taker_signed_entry

  -- One tick: each part on the rows that it selects when it starts.
  unfoldable pub tick : Db → Db
  tick db =
      let db1 =
        each_job (reconcile_submitted w)
          (take 50 (filterb (λ j. is_submitted j && is_due j) db.jobs)) db in
      let ready = filterb (λ j. is_queued j && has_entries j.payload && is_due j) db1.jobs in
      expire_stale_queued (each_job (resubmit_job w) (take 20 ready) db1)
