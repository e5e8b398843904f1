-- ===== src/Settlement/Sign.antt =====
-- `POST /api/settlements/[id]/sign`, client/app/api/settlements/[id]/sign/route.ts: a party's entry is
-- merged into the job, and the request that finds both broadcasts the transaction. The queries before
-- the broadcast get through: one that throws ends the request where it stands.
pub mod Claims
pub mod Parties
use kryon_v.Base.{
  ℕ, ◌+◌, Bool, true, false, ◌&&◌, ◌||◌, not, Option, none, some, List, [], ◌∷◌, ltb, leb,
  if◌then◌else◌, length, take, Text, codes, text_eq,
}
use kryon_v.Store.{queued, submitted, confirmed, failed, Payload, TxJob}
use kryon_v.Intake.{Json, undefined, null, other, bool, num, str, text_of}
use kryon_v.Intake.Limit.{Headers, Buckets, Distributed, rate_limit, request_key, body_too_large}
use kryon_v.Settlement.{
  status_eq, present, update_job, hits, find_job, both_signed, is_queued, any_job, claim_queued,
  fail_job, set_hash,
}

pub data Reply : Type 0 where
  body_too_large_413 missing_400 invalid_address_400 invalid_entry_400 too_many_429 : Reply
  not_found_404 already_processed_409 malformed_500 malformed_parties_500 not_party_403 : Reply
  already_processing waiting_for_other_party submitting : Reply
  submitted_as : Text → Reply
  no_secret_500 submission_failed_500 : Reply

-- What the broadcast of the rebuilt transaction gives: an error's text, or a hash.
pub data Sent : Type 0 where
  threw sent : Text → Sent

pub record SignBody : Type 0 where
  pub signed_auth_entry : Json
  pub address : Json

-- The surroundings of a request. `parses` is `SorobanAuthorizationEntry.fromXDR`; `send` rebuilds,
-- signs and sends; `stores_hash` and `stores_failure` tell whether the last queries get through.
pub record World : Type 0 where
  pub is_valid_public_key : Text → Bool
  pub parses : Text → Bool
  pub headers : Headers
  pub distributed : Distributed
  pub production : Bool
  pub now_ms : ℕ
  pub operator_secret : Option Text
  pub send : Payload → Sent
  pub stores_hash : Option Text
  pub stores_failure : Bool

abbrev truthy : Json → Bool
truthy undefined = false
truthy null = false
truthy other = true
truthy (bool b) = b
truthy (num s) = not (text_eq s (codes "0"))
truthy (str []) = false
truthy (str (c ∷ s)) = true

-- The two addresses of a payload, where both are keys.
abbrev pub key_of : (Text → Bool) → Option Text → Option Text
key_of valid none = none
key_of valid (some a) = if valid a then some a else none

unfoldable pub parties : (Text → Bool) → Payload → Option (Text × Text)
parties valid p = elim (key_of valid p.maker_address) [
  | none ↦ none
  | some maker ↦ elim (key_of valid p.taker_address) [
    | none ↦ none
    | some taker ↦ some (maker, taker)
  ]
]

unfoldable pub add_entry : Bool → Text → Payload → Payload
add_entry true entry p = record p { maker_signed_entry = some entry }
add_entry false entry p = record p { taker_signed_entry = some entry }

abbrev merged : Bool → Text → Option Payload → Option Payload
merged is_maker entry none = none
merged is_maker entry (some p) = some (add_entry is_maker entry p)

-- The `jsonb` concatenation on the row while it is queued.
unfoldable pub merge_entry : ℕ → Text → Bool → Text → List TxJob → List TxJob
merge_entry now id is_maker entry =
    update_job id is_queued
      (λ j. record j { payload = merged is_maker entry j.payload; updated_at = now })

module _ (w : World) (id : Text) where
  abbrev fail_with : Text → List TxJob → List TxJob
  fail_with reason js =
      if w.stores_failure then fail_job w.now_ms any_job id (take 500 reason) js else js

  abbrev after_send : Sent → List TxJob → Reply × List TxJob
  after_send (threw reason) js = (submission_failed_500, fail_with reason js)
  after_send (sent hash) js = elim w.stores_hash [
    | none ↦ (submitted_as hash, set_hash w.now_ms id hash js)
    | some reason ↦ (submission_failed_500, fail_with reason js)
  ]

  -- After the claim. Without a secret the job stays claimed.
  unfoldable pub broadcast : Payload → List TxJob → Reply × List TxJob
  broadcast p js =
      if present w.operator_secret then after_send (w.send p) js else (no_secret_500, js)

  unfoldable pub claim_and_send : Payload → List TxJob → Reply × List TxJob
  claim_and_send p js =
      let claim = claim_queued w.now_ms id js in
      if claim.0 then broadcast p claim.1 else (submitting, js)

  -- What the merged row gives.
  unfoldable pub after_merge : Option TxJob → List TxJob → Reply × List TxJob
  after_merge none js = (already_processing, js)
  after_merge (some j) js = elim j.payload [
    | none ↦ (malformed_500, js)
    | some p ↦ if both_signed p then claim_and_send p js else (waiting_for_other_party, js)
  ]

  unfoldable pub merge_and_send : Bool → Text → List TxJob → Reply × List TxJob
  merge_and_send is_maker entry js =
      let js' = merge_entry w.now_ms id is_maker entry js in
      if hits id is_queued js then after_merge (find_job id js') js' else (already_processing, js)

  unfoldable pub sign_payload : Text → Text → Payload → List TxJob → Reply × List TxJob
  sign_payload address entry p js = elim (parties w.is_valid_public_key p) [
    | none ↦ (malformed_parties_500, js)
    | some (maker, taker) ↦
        if text_eq maker address || text_eq taker address
        then merge_and_send (text_eq maker address) entry js
        else (not_party_403, js)
  ]

  unfoldable pub sign_job : Text → Text → Option TxJob → List TxJob → Reply × List TxJob
  sign_job address entry none js = (not_found_404, js)
  sign_job address entry (some j) js =
      if is_queued j
      then elim j.payload [ none ↦ (malformed_500, js) | some p ↦ sign_payload address entry p js ]
      else (already_processed_409, js)

  -- The checks on the body before any query.
  unfoldable pub check_body : SignBody → Reply × Option (Text × Text)
  check_body b =
      if truthy b.signed_auth_entry && truthy b.address
      then elim (key_of w.is_valid_public_key (text_of b.address)) [
        | none ↦ (invalid_address_400, none)
        | some address ↦ elim (text_of b.signed_auth_entry) [
          | none ↦ (invalid_entry_400, none)
          | some entry ↦
              if leb (length entry) 8192 && w.parses entry
              then (waiting_for_other_party, some (address, entry))
              else (invalid_entry_400, none)
        ]
      ]
      else (missing_400, none)

  unfoldable pub sign_checked :
      Reply × Option (Text × Text) → Buckets → List TxJob → Reply × (Buckets × List TxJob)
  sign_checked (reply, none) buckets js = (reply, (buckets, js))
  sign_checked (reply, some (address, entry)) buckets js =
      let limiter =
        rate_limit w.distributed w.production (request_key w.headers address) 30 w.now_ms buckets in
      let signed = sign_job address entry (find_job id js) js in
      if limiter.0 then (signed.0, (limiter.1, signed.1)) else (too_many_429, (limiter.1, js))

  -- The route; `none` is a body that is no JSON or is `null`.
  unfoldable pub post_sign : Option SignBody → Buckets → List TxJob → Reply × (Buckets × List TxJob)
  post_sign none buckets js =
      (if body_too_large w.headers 12288 then body_too_large_413 else missing_400, (buckets, js))
  post_sign (some b) buckets js =
      let handled = sign_checked (check_body b) buckets js in
      if body_too_large w.headers 12288 then (body_too_large_413, (buckets, js)) else handled
