-- ===== src/Intake/Routes.antt =====
-- The route that posts orders, client/app/api/orders/route.ts, and the retry of client/lib/db.ts;
-- Routes/Cancel has the route that cancels them. How far each attempt's queries get, and whether an
-- error is transient, is a parameter; a reply is its HTTP status and the error's kind.
pub mod Writes
pub mod Orders
pub mod Keys
pub mod Cancel
pub mod Asked
use kryon_v.Base.{
  ℕ, zero, suc, ◌+◌, ◌*◌, ◌^◌, ◌≡◌, Bool, true, false, ◌&&◌, not, Option, none, some, List, [], ◌∷◌,
  ◌++◌, map, ◌==◌, ltb, leb, if◌then◌else◌, someb, length, take, Text, codes, text_eq, ℤ, pos,
  negsuc,
}
use kryon_v.Store.{Order, Db}
use kryon_v.Signing.{cancel_signing_message, verify_signed_message, assert_u64}
use kryon_v.Signing.Decimal.{to_string, parse_digits}
use kryon_v.Intake.{
  OrderBody, IntakeError, ValidationResult, ok, error, Json, text_of, ValidatedOrder, Server,
  int_to_string, validate_order_intent,
}
use kryon_v.Intake.Limit.{Headers, Buckets, Distributed, rate_limit, request_key, body_too_large}

pub data Reply : Type 0 where
  done body_too_large_413 invalid_json_400 too_many_429 failed_500 unhandled_500 : Reply
  rejected_400 : IntakeError → Reply
  invalid_owner_400 invalid_nonce_400 missing_signature_400 invalid_signature_401 : Reply

-- One attempt of `withRetry`: it returns, or throws a transient or another error.
pub data Attempt : Type 0 where
  returned transient fatal : Attempt

-- `withRetry(fn, attempts)` from the attempt `i` on; the tables keep what an attempt wrote.
unfoldable pub with_retry : ℕ → ℕ → (ℕ → Db → Attempt × Db) → Db → Bool × Db
with_retry zero i fn db = (false, db)
with_retry (suc left) i fn db = elim ((fn i db).0) [
  | returned ↦ (true, (fn i db).1)
  | transient ↦ with_retry left (suc i) fn (fn i db).1
  | fatal ↦ (false, (fn i db).1)
]

-- A column of type BIGINT.
abbrev pub fits_bigint : ℕ → Bool
fits_bigint n = ltb n (2 ^ 63)

-- The value of a validated field, which is not negative.
abbrev pub nat_of : ℤ → ℕ
nat_of (pos n) = n
nat_of (negsuc n) = 0

abbrev pub order_id : ValidatedOrder → Text
order_id o = o.owner ++ b':' ∷ int_to_string o.nonce

abbrev pub order_row : ℕ → ValidatedOrder → Option Text → Order
order_row now_ms o signature = record {
  id = order_id o;
  owner = o.owner;
  market_id = o.market_id;
  is_long = o.is_long;
  size = nat_of o.size;
  limit_price = nat_of o.limit_price;
  reduce_only = o.reduce_only;
  nonce = nat_of o.nonce;
  expiry_ts = nat_of o.expiry_ts;
  cancelled = false;
  filled_size = 0;
  created_at = now_ms;
  signature = signature;
}

unfoldable pub insert_account : Text → Db → Db
insert_account owner db =
    if someb (text_eq owner) db.accounts
    then db
    else record db { accounts = db.accounts ++ owner ∷ [] }

unfoldable pub insert_order : Order → Db → Db
insert_order o db =
    if someb (λ p. text_eq p.id o.id) db.orders
    then db
    else record db { orders = db.orders ++ o ∷ [] }

-- How far the queries of an attempt get before the connection fails, and whether it fails transiently.
pub data Reached : Type 0 where
  before_account after_account : Bool → Reached
  to_the_end : Reached

abbrev failure : Bool → Attempt
failure true = transient
failure false = fatal

unfoldable pub write_order : Reached → Order → Db → Attempt × Db
write_order (before_account t) o db = (failure t, db)
write_order (after_account t) o db = (failure t, insert_account o.owner db)
write_order to_the_end o db =
    if fits_bigint o.nonce && fits_bigint o.expiry_ts
    then (returned, insert_order o (insert_account o.owner db))
    else (fatal, insert_account o.owner db)

-- The parsed body of a request: `req.json()` throws, or the value; `none` is an order
-- that is no object, and `null` for a cancellation.
pub data Body {ℓ} (A : Type ℓ) : Type ℓ where
  malformed : Body A
  parsed : Option A → Body A

abbrev pub claimed_owner : Option OrderBody → Text
claimed_owner none = codes "invalid"
claimed_owner (some b) = elim (text_of b.owner) [
  | none ↦ codes "invalid"
  | some owner ↦ take 64 owner
]

abbrev pub signature_of : Option OrderBody → Option Text
signature_of none = none
signature_of (some b) = text_of b.signature

-- The surroundings of a request.
pub record Request : Type 0 where
  pub headers : Headers
  pub distributed : Distributed
  pub production : Bool
  pub now_ms : ℕ
  pub reached : ℕ → Reached

pub record State : Type 0 where
  pub buckets : Buckets
  pub db : Db

abbrev pub reply_of : Bool → Reply
reply_of true = done
reply_of false = failed_500

module _ (server : Server) (r : Request) where
  abbrev pub limited : Text → ℕ → Buckets → Bool × Buckets
  limited owner limit buckets =
      rate_limit r.distributed r.production (request_key r.headers owner) limit r.now_ms buckets

  unfoldable pub save_order : Option Text → ValidationResult ValidatedOrder → Db → Reply × Db
  save_order signature (error e) db = (rejected_400 e, db)
  save_order signature (ok o) db =
      let saved =
        with_retry 3 0 (λ i. write_order (r.reached i) (order_row r.now_ms o signature)) db in
      (reply_of saved.0, saved.1)

  unfoldable pub post_order_limited : Bool → Option OrderBody → Db → Reply × Db
  post_order_limited false body db = (too_many_429, db)
  post_order_limited true body db =
      save_order (signature_of body) (validate_order_intent server r.now_ms body) db

  -- `POST /api/orders`
  unfoldable pub post_order : Body OrderBody → State → Reply × State
  post_order malformed s =
      (if body_too_large r.headers 4096 then body_too_large_413 else invalid_json_400, s)
  post_order (parsed body) s =
      let limiter = limited (claimed_owner body) 30 s.buckets in
      let saved = post_order_limited limiter.0 body s.db in
      if body_too_large r.headers 4096
      then (body_too_large_413, s)
      else (saved.0, record { buckets = limiter.1; db = saved.1 })
