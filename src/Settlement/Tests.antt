-- ===== src/Settlement/Tests.antt =====
-- The settlement of one job, queued and submitted.
use mathlib.Core.List.{Memᴰ}
use kryon_v.Base.{
  map, filterb, ltb, ◌&&◌, ◌+◌, ◌*◌, ◌≤◌, ◌≡◌, ◌⊎◌, refl, true, false, Option, none, some, List, [],
  ◌∷◌, if◌then◌else◌, Text, codes, text_eq, length, All,
}
use kryon_v.Store.{Order, TxStatus, queued, submitted, Payload, TxJob, Db}
use kryon_v.Intake.{str}
use kryon_v.Intake.Limit.{not_configured}
use kryon_v.Settlement.{
  status_eq, hits, is_queued, resubmittable, update_job, claim_queued, claim_resubmit,
}
use kryon_v.Settlement.Sign.{
  claim_and_send, broadcast, submitting, SignBody, sent, threw, post_sign,
}
use kryon_v.Settlement.Sign.Claims.{
  wins, after, Statement, claims, merges, broadcasts, broadcasts_once,
}
use kryon_v.Settlement.Sign.Parties.{Signs, post_sign-IsParty}
use kryon_v.Matcher.Sort.{sort, insert}
use kryon_v.Settlement.Pending.{list_job, list_jobs, newest_queued}
use kryon_v.Settlement.Pending.Signable.{IsWaiting, newest_queued-IsWaiting}
use kryon_v.Settlement.Reconciler.{not_found, success, reconcile_submitted, expire_stale_queued}
use kryon_v.Settlement.Reconciler.Laws.{reconcile_submitted_stuck}
use kryon_v.Settlement.Reconciler.Expiry.{less, all_owed, expire_stale_queued-GivesBack}

abbrev payload : Payload
payload = record {
  maker_address = some (codes "GA");
  taker_address = some (codes "GB");
  maker_auth_xdr = some (codes "m");
  taker_auth_xdr = some (codes "t");
  assembled_tx_xdr = some (codes "tx");
  maker_signed_entry = none;
  taker_signed_entry = some (codes "e");
  fill_price = some 7;
  fill_size = some 6;
  market_id = some 1;
  pending_tx_hash = some (codes "h");
  maker_nonce = some 1;
  taker_nonce = some 1;
}

abbrev job_of : TxStatus → Option Text → TxJob
job_of status hash = record {
  id = codes "j";
  network = codes "t";
  payload_hash = codes "h";
  payload = some payload;
  status = status;
  submitted_hash = hash;
  last_error = none;
  created_at = 0;
  updated_at = 0;
}

abbrev queue : List TxJob
queue = job_of queued none ∷ []

-- Two requests claim at the same time.
abbrev race : List (Statement × Text)
race = (merges 1 true (codes "e"), codes "j") ∷ (claims 2, codes "j") ∷ (claims 2, codes "j") ∷ []

-- The reconciler's claim still returns the row that the sign route has just claimed, before the route
-- has stored its hash.
claimed_again : hits (codes "j") resubmittable (claim_queued 2 (codes "j") queue).1 ≡ true
unfolding hits claim_queued update_job text_eq
claimed_again = refl

abbrev request : kryon_v.Settlement.Sign.World
request = record {
  is_valid_public_key = λ _. true;
  parses = λ _. true;
  headers = record {
    cf_connecting_ip = none;
    x_forwarded_for = none;
    x_real_ip = none;
    content_length = some 100;
  };
  distributed = not_configured;
  production = false;
  now_ms = 1000;
  operator_secret = some (codes "s");
  send = λ _. sent (codes "x");
  stores_hash = none;
  stores_failure = true;
}

broadcasts_once_example :
    (broadcasts (codes "j") race queue ≤ (if hits (codes "j") is_queued queue then 1 else 0))
    × (claim_and_send request (codes "j") payload queue ≡ (
        if wins (codes "j") (claims 1000) (codes "j") queue
        then broadcast request (codes "j") payload (after (claims 1000) (codes "j") queue)
        else (submitting, queue)))
broadcasts_once_example = broadcasts_once (codes "j") race queue request payload

abbrev body : SignBody
body = record { signed_auth_entry = str (codes "e"); address = str (codes "GA") }

post_sign-IsParty_example :
    ((post_sign request (codes "j") (some body) [] queue).1.1 ≡ queue)
    ⊎ Signs request (codes "j") (some body) queue
post_sign-IsParty_example = post_sign-IsParty request (codes "j") (some body) [] queue

-- The taker has signed, so the job waits for the maker.
waits_for_maker : length (list_jobs (codes "GA") (newest_queued queue)) ≡ 1
unfolding list_jobs list_job newest_queued text_eq sort insert
waits_for_maker = refl

newest_queued-IsWaiting_example :
    All
      (λ l. (j : TxJob) × Memᴰ j queue × IsWaiting request (codes "GA") (codes "e") queue l j)
      (list_jobs (codes "GA") (newest_queued queue))
newest_queued-IsWaiting_example = newest_queued-IsWaiting request (codes "GA") (codes "e") queue

abbrev filled : Order
filled = record {
  id = codes "GA:1";
  owner = codes "GA";
  market_id = 1;
  is_long = true;
  size = 10;
  limit_price = 100;
  reduce_only = false;
  nonce = 1;
  expiry_ts = 0;
  cancelled = false;
  filled_size = 6;
  created_at = 0;
  signature = none;
}

abbrev tables : List TxJob → Db
tables jobs = record { orders = filled ∷ []; fills = []; markets = []; jobs = jobs; accounts = [] }

abbrev network : kryon_v.Settlement.Reconciler.World
network = record {
  now_ms = 1000000;
  stale_queued_minutes = 15;
  operator_secret = some (codes "s");
  poll = λ _. not_found;
  send = λ _. threw (codes "e");
  poll_sent = λ _ _. not_found;
}

expire_stale_queued-GivesBack_example :
    (expire_stale_queued network (tables queue)).orders
    ≡ map
        (less (
          all_owed (
            filterb
              (λ j. status_eq j.status queued && ltb (j.created_at + 15 * 60000) 1000000)
              queue)))
        (filled ∷ [])
expire_stale_queued-GivesBack_example = expire_stale_queued-GivesBack network (tables queue)

abbrev lost : TxJob
lost = job_of submitted (some (codes "x"))

reconcile_submitted_stuck_example :
    reconcile_submitted network lost (tables (lost ∷ [])) ≡ tables (lost ∷ [])
reconcile_submitted_stuck_example =
    reconcile_submitted_stuck network lost (tables (lost ∷ [])) (λ hash e. refl)
      ((λ e. (refl, refl)), tt)
