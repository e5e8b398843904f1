-- ===== src/Settlement/Reconciler/Laws.antt =====
-- The orders and the jobs through a tick of client/scripts/settlement-reconciler.ts.
use kryon_v.Base.{
  ℕ, zero, suc, ◌≡◌, refl, Bool, true, false, ◌&&◌, ◌||◌, Option, none, some, List, [], ◌∷◌, map,
  Text, text_eq, Bool-cases, Option-cases, inl, inr, arith, All, ◌⊎◌,
}
use kryon_v.Store.{Order, queued, submitted, Payload, TxJob, Db}
use kryon_v.Matcher.Persist.Laws.{IsSound, NotOverfilled, map-All}
use kryon_v.Settlement.{present, is_some, hits, resubmittable, both_signed, status_eq}
use kryon_v.Settlement.Sign.{Sent, threw, sent}
use kryon_v.Settlement.Reconciler.{
  World, Poll, success, failed_on_chain, not_found, unreachable, poll_job, send_claimed, claim_job,
  resubmit_job, resolve, reconcile_submitted, resolve_some, give_back, undo_fill, pending_of,
  expire_job, each_job, expire_stale_queued, tick,
}

give_back-NotOverfilled :
    (owner : Text) (nonce : Option ℕ) (n : ℕ) (o : Order)
    → NotOverfilled o
    → NotOverfilled (give_back owner nonce n o)
unfolding give_back
give_back-NotOverfilled owner none n o h = h
give_back-NotOverfilled owner (some nonce) n o h = ground arith

undo_fill-IsSound :
    (network : Text) (p : Payload) (db : Db) → IsSound db → IsSound (undo_fill network p db)
unfolding undo_fill
undo_fill-IsSound network p db h = elim (Option-cases (pending_of p)) [
  | inl e ↦ rw (undo_fill, e) h
  | inr ((pending, (maker, taker)), e) ↦ elim (Option-cases p.fill_size) [
    | inl f ↦ rw (undo_fill, e, f) h
    | inr (n, f) ↦
        rw (undo_fill, e, f)
          (map-All _ (give_back-NotOverfilled taker p.taker_nonce n)
            (map (give_back maker p.maker_nonce n) db.orders)
            (map-All _ (give_back-NotOverfilled maker p.maker_nonce n) db.orders h))
  ]
]

Poll-cases :
    (p : Poll)
    → ((ledger : ℕ) × (p ≡ success ledger))
      ⊎ ((p ≡ failed_on_chain) ⊎ ((p ≡ not_found) ⊎ ((reason : Text) × (p ≡ unreachable reason))))
Poll-cases (success ledger) = inl (ledger, refl)
Poll-cases failed_on_chain = inr (inl refl)
Poll-cases not_found = inr (inr (inl refl))
Poll-cases (unreachable reason) = inr (inr (inr (reason, refl)))

Sent-cases : (s : Sent) → ((t : Text) × (s ≡ threw t)) ⊎ ((t : Text) × (s ≡ sent t))
Sent-cases (threw t) = inl (t, refl)
Sent-cases (sent t) = inr (t, refl)

-- No row of the id for the claim of a resubmission.
abbrev Settled : Text → TxJob → Type 0
Settled id j =
    text_eq j.id id ≡ true → (is_some j.submitted_hash ≡ true) × (status_eq j.status queued ≡ false)

or_and_false : (b : Bool) → (b && false || false) ≡ false
or_and_false true = refl
or_and_false false = refl

never_hit : (id : Text) (js : List TxJob) → All (Settled id) js → hits id resubmittable js ≡ false
unfolding hits
never_hit id [] h = refl
never_hit id (j ∷ js) (h, hs) = elim (Bool-cases (text_eq j.id id)) [
  | inl e ↦
      let (a, b) = h e in
      rw (e, b, a, never_hit id js hs) (or_and_false (status_eq j.status submitted))
  | inr e ↦ rw e (never_hit id js hs)
]

module _ (w : World) where
  -- Only an expiry writes orders.
  poll_job-orders :
      (left i : ℕ) (job : TxJob) (p : Payload) (hash : Text) (db : Db)
      → (poll_job w left i job p hash db).orders ≡ db.orders
  unfolding poll_job
  poll_job-orders zero i job p hash db = refl
  poll_job-orders (suc left) i job p hash db = elim (Poll-cases (w.poll_sent hash i)) [
    | inl (ledger, e) ↦ rw (poll_job, e) refl
    | inr (inl e) ↦ rw (poll_job, e) refl
    | inr (inr (inl e)) ↦ rw (poll_job, e) (poll_job-orders left (suc i) job p hash db)
    | inr (inr (inr (reason, e))) ↦ rw (poll_job, e) refl
  ]

  send_claimed-orders :
      (job : TxJob) (p : Payload) (db : Db) → (send_claimed w job p db).orders ≡ db.orders
  unfolding send_claimed
  send_claimed-orders job p db = elim (Sent-cases (w.send job)) [
    | inl (reason, e) ↦ rw (send_claimed, e) refl
    | inr (hash, e) ↦ rw (send_claimed, e) (poll_job-orders 10 0 job p hash _)
  ]

  claim_job-orders :
      (job : TxJob) (p : Option Payload) (db : Db) → (claim_job w job p db).orders ≡ db.orders
  unfolding claim_job
  claim_job-orders job none db = refl
  claim_job-orders job (some p) db = elim (Bool-cases (hits job.id resubmittable db.jobs)) [
    | inl e ↦ rw e (send_claimed-orders job p _)
    | inr e ↦ rw e refl
  ]

  resubmit_job-orders : (job : TxJob) (db : Db) → (resubmit_job w job db).orders ≡ db.orders
  unfolding resubmit_job
  resubmit_job-orders job db = elim (Bool-cases (present w.operator_secret)) [
    | inl e ↦ rw e (claim_job-orders job _ db)
    | inr e ↦ rw e refl
  ]

  resolve-orders :
      (job : TxJob) (hash : Text) (p : Poll) (db : Db)
      → (resolve w job hash p db).orders ≡ db.orders
  unfolding resolve
  resolve-orders job hash (success ledger) db = refl
  resolve-orders job hash failed_on_chain db = refl
  resolve-orders job hash not_found db = resubmit_job-orders job db
  resolve-orders job hash (unreachable reason) db = refl

  resolve_some-orders :
      (job : TxJob) (o : Option Text) (db : Db) → (resolve_some w job o db).orders ≡ db.orders
  resolve_some-orders job none db = refl
  resolve_some-orders job (some []) db = refl
  resolve_some-orders job (some (c ∷ hash)) db =
      resolve-orders job (c ∷ hash) (w.poll (c ∷ hash)) db

  reconcile_submitted-orders :
      (job : TxJob) (db : Db) → (reconcile_submitted w job db).orders ≡ db.orders
  unfolding reconcile_submitted
  reconcile_submitted-orders job db = resolve_some-orders job job.submitted_hash db

  expire_job-IsSound : (job : TxJob) (db : Db) → IsSound db → IsSound (expire_job w job db)
  unfolding expire_job
  expire_job-IsSound job db h = elim (Option-cases job.payload) [
    | inl e ↦ rw e h
    | inr (p, e) ↦ elim (Bool-cases (both_signed p)) [
      | inl f ↦ rw (e, f) h
      | inr f ↦ rw (e, f) (undo_fill-IsSound job.network p db h)
    ]
  ]

  each_job-keeps :
      (P : Db → Type 0) (f : TxJob → Db → Db) (js : List TxJob) (db : Db)
      → ((j : TxJob) (d : Db) → P d → P (f j d))
      → P db
      → P (each_job w f js db)
  unfolding each_job
  each_job-keeps P f [] db keep h = h
  each_job-keeps P f (j ∷ js) db keep h = each_job-keeps P f js (f j db) keep (keep j db h)

  -- Whatever the network answers, a tick of the reconciler that starts with no order filled past its
  -- size ends so.
  pub tick_keeps-IsSound : (db : Db) → IsSound db → IsSound (tick w db)
  unfolding tick expire_stale_queued
  tick_keeps-IsSound db h = each_job-keeps IsSound (expire_job w) _ _ expire_job-IsSound (
      each_job-keeps IsSound (resubmit_job w) _ _ (λ j d s. rw (resubmit_job-orders j d) s)
        (each_job-keeps IsSound (reconcile_submitted w) _ db
          (λ j d s. rw (reconcile_submitted-orders j d) s) h))

  claim_job_stuck :
      (job : TxJob) (p : Option Payload) (db : Db)
      → hits job.id resubmittable db.jobs ≡ false
      → claim_job w job p db ≡ db
  unfolding claim_job
  claim_job_stuck job none db h = refl
  claim_job_stuck job (some p) db h = rw h refl

  resubmit_job_stuck :
      (job : TxJob) (db : Db)
      → hits job.id resubmittable db.jobs ≡ false
      → resubmit_job w job db ≡ db
  unfolding resubmit_job claim_job
  resubmit_job_stuck job db h = elim (Bool-cases (present w.operator_secret)) [
    | inl e ↦ rw e (claim_job_stuck job _ db h)
    | inr e ↦ rw e refl
  ]

  resolve_some_stuck :
      (job : TxJob) (o : Option Text) (db : Db)
      → ((hash : Text) → o ≡ some hash → w.poll hash ≡ not_found)
      → hits job.id resubmittable db.jobs ≡ false
      → resolve_some w job o db ≡ db
  unfolding resolve
  resolve_some_stuck job none db unknown never = refl
  resolve_some_stuck job (some []) db unknown never = refl
  resolve_some_stuck job (some (c ∷ hash)) db unknown never =
      rw (unknown (c ∷ hash) refl) (resubmit_job_stuck job db never)

  -- A submitted job that has no hash, or whose transaction the network does not know, is left as it is
  -- by the first part of a tick, where the rows of its id hold a hash and none is queued: the claim of
  -- the resubmission asks for a queued row or for one without a hash.
  pub reconcile_submitted_stuck :
      (job : TxJob) (db : Db)
      → ((hash : Text) → job.submitted_hash ≡ some hash → w.poll hash ≡ not_found)
      → All (Settled job.id) db.jobs
      → reconcile_submitted w job db ≡ db
  unfolding reconcile_submitted
  reconcile_submitted_stuck job db unknown rows =
      resolve_some_stuck job job.submitted_hash db unknown (never_hit job.id db.jobs rows)
