-- ===== src/Settlement/Pending.antt =====
-- `GET /api/settlements`, client/app/api/settlements/route.ts: the queued jobs that await a party.
pub mod Signable
use kryon_v.Base.{
  ℕ, Bool, true, false, ◌&&◌, ◌||◌, not, Option, none, some, List, [], ◌∷◌, leb, if◌then◌else◌,
  filterb, take, Text, text_eq,
}
use kryon_v.Store.{Payload, TxJob}
use kryon_v.Intake.Limit.{Buckets, rate_limit, request_key}
use kryon_v.Matcher.Sort.{sort}
use kryon_v.Settlement.{present, both_signed, is_queued}
use kryon_v.Settlement.Sign.{World}

pub record Listed : Type 0 where
  pub id : Text
  pub fill_hash : Text
  pub is_maker : Bool
  pub maker_address : Option Text
  pub taker_address : Option Text
  pub auth_entry_xdr : Option Text
  pub retry_needed : Bool
  pub fill_price : Option ℕ
  pub fill_size : Option ℕ
  pub market_id : Option ℕ
  pub created_at : ℕ

-- `data.makerAddress === address`
abbrev pub names : Option Text → Text → Bool
names none address = false
names (some a) address = text_eq a address

abbrev pub own_entry : Bool → Payload → Option Text
own_entry is_maker p = if is_maker then p.maker_signed_entry else p.taker_signed_entry

abbrev pub own_auth : Bool → Payload → Option Text
own_auth is_maker p = if is_maker then p.maker_auth_xdr else p.taker_auth_xdr

-- What the caller is shown of a job that waits for them.
abbrev pub listing : Bool → TxJob → Payload → Listed
listing is_maker j p = record {
  id = j.id;
  fill_hash = j.payload_hash;
  is_maker = is_maker;
  maker_address = p.maker_address;
  taker_address = p.taker_address;
  auth_entry_xdr = if both_signed p then own_entry is_maker p else own_auth is_maker p;
  retry_needed = both_signed p;
  fill_price = p.fill_price;
  fill_size = p.fill_size;
  market_id = p.market_id;
  created_at = j.created_at;
}

abbrev pub list_payload : Text → TxJob → Option Payload → Option Listed
list_payload address j none = none
list_payload address j (some p) =
    let is_maker = names p.maker_address address in
    if not is_maker && not (names p.taker_address address)
    then none
    else if present (own_entry is_maker p) && not (both_signed p)
    then none
    else some (listing is_maker j p)

-- One row's turn; `none` is a row that is skipped, for a payload that is no JSON as well.
unfoldable pub list_job : Text → TxJob → Option Listed
list_job address j = list_payload address j j.payload

abbrev pub add_listed : Option Listed → List Listed → List Listed
add_listed none rest = rest
add_listed (some l) rest = l ∷ rest

unfoldable pub list_jobs : Text → List TxJob → List Listed
list_jobs address [] = []
list_jobs address (j ∷ js) = add_listed (list_job address j) (list_jobs address js)

-- The rows of the query: the 20 newest queued jobs, whoever their parties are.
unfoldable pub newest_queued : List TxJob → List TxJob
newest_queued js = take 20 (sort (λ a b. leb b.created_at a.created_at) (filterb is_queued js))

pub data ListReply : Type 0 where
  invalid_400 too_many_429 failed_500 : ListReply
  pending_200 : List Listed → ListReply

module _ (w : World) (reaches_db : Bool) where
  abbrev list_for : Text → List TxJob → ListReply
  list_for address js =
      if reaches_db then pending_200 (list_jobs address (newest_queued js)) else failed_500

  abbrev after_limit : Text → Bool × Buckets → List TxJob → ListReply × Buckets
  after_limit address limiter js =
      (if limiter.0 then list_for address js else too_many_429, limiter.1)

  -- The route, with the `address` of the query.
  unfoldable pub get_settlements : Option Text → Buckets → List TxJob → ListReply × Buckets
  get_settlements none buckets js = (invalid_400, buckets)
  get_settlements (some address) buckets js =
      if w.is_valid_public_key address
      then after_limit address
          (rate_limit w.distributed w.production (request_key w.headers address) 120 w.now_ms
            buckets)
          js
      else (invalid_400, buckets)
