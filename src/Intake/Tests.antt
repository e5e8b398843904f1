-- ===== src/Intake/Tests.antt =====
-- The intake of one order and its cancellation, and the limiter on a short run.
use kryon_v.Base.{
  ℕ, ◌+◌, ◌≤◌, ◌≡◌, ◌⊎◌, ◌↔◌, refl, sym, ap, Bool, true, false, max, Option, none, some, List, [],
  ◌∷◌, Text, codes, text_eq, pos, arith,
}
use kryon_v.Config.{markets}
use kryon_v.Signing.{Crypto}
use kryon_v.Signing.Decimal.{parse_signed, parse_digits}
use kryon_v.Intake.{
  OrderBody, Server, Json, num, str, bool, ValidatedOrder, ok, error, missing_signature,
  validate_order_intent,
}
use kryon_v.Intake.Validation.{Accepted, validate_order_intent_iff}
use kryon_v.Intake.Limit.{
  Headers, Bucket, Buckets, get, local_rate_limit, not_configured, counted, rate_limit,
}
use kryon_v.Intake.Limit.Window.{Request, allowed, allowed_within_limit}
use kryon_v.Intake.Routes.{
  order_row, Reply, done, parsed, to_the_end, before_account, State, post_order,
}
use kryon_v.Intake.Routes.Cancel.{CancelBody}
use kryon_v.Intake.Routes.Orders.{AddsAccepted, post_order-AddsAccepted}

abbrev bytes : List ℕ
bytes = codes "0123456789012345678901234567890123456789012345678901234567890123"

abbrev crypto : Crypto
crypto = record {
  is_valid_public_key = λ _. true;
  decode_public_key = λ _. [];
  from_base64 = λ _. bytes;
  from_hex = λ _. bytes;
  utf8 = λ s. s;
  hash = λ s. s;
  verify = λ _ _ _. true;
}

abbrev server : Server
server = record {
  crypto = crypto;
  number_of = λ _. some 1;
  passphrase = codes "p";
  active_markets = markets [];
}

abbrev body : OrderBody
body = record {
  owner = str (codes "GA");
  market_id = num (codes "1");
  is_long = bool true;
  size = str (codes "50");
  limit_price = str (codes "7");
  reduce_only = bool false;
  nonce = str (codes "9");
  expiry_ts = str (codes "100");
  signature = str (codes "sig");
}

abbrev order : ValidatedOrder
order = record {
  owner = codes "GA";
  market_id = 1;
  is_long = true;
  size = pos 50;
  limit_price = pos 7;
  reduce_only = false;
  nonce = pos 9;
  expiry_ts = pos 100;
}

validate_order_intent_iff_example :
    (validate_order_intent server 1000 (some body) ≡ ok order)
    ↔ ((signature : Text) × Accepted server 1000 body order signature)
validate_order_intent_iff_example = validate_order_intent_iff server 1000 body order

abbrev state : State
state = record {
  buckets = [];
  db = record { orders = []; fills = []; markets = []; jobs = []; accounts = [] };
}

abbrev request : kryon_v.Intake.Routes.Request
request = record {
  headers = record {
    cf_connecting_ip = none;
    x_forwarded_for = none;
    x_real_ip = none;
    content_length = some 100;
  };
  distributed = counted 3;
  production = true;
  now_ms = 1000;
  reached = λ _. to_the_end;
}

post_order-AddsAccepted_example :
    AddsAccepted server request
      (parsed (some body))
      state.db.orders
      (post_order server request (parsed (some body)) state).1.db.orders
post_order-AddsAccepted_example = post_order-AddsAccepted server request (parsed (some body)) state

replied : (post_order server request (parsed (some body)) state).0 ≡ done
unfolding post_order kryon_v.Intake.Limit.body_too_large kryon_v.Intake.Routes.post_order_limited
    rate_limit kryon_v.Intake.Limit.distributed_rate_limit kryon_v.Intake.Routes.save_order
    validate_order_intent kryon_v.Intake.check_owner kryon_v.Intake.check_market markets
    kryon_v.Intake.check_size kryon_v.Intake.parse_big_int parse_signed kryon_v.Signing.Decimal.trim
    kryon_v.Intake.check_limit_price kryon_v.Intake.check_nonce kryon_v.Signing.assert_u64
    kryon_v.Base.◌+ℤ◌ kryon_v.Base.◌-ℤ◌ text_eq kryon_v.Intake.Limit.before_comma get
    kryon_v.Intake.Limit.hit local_rate_limit kryon_v.Intake.Limit.purge
    kryon_v.Intake.Limit.request_key kryon_v.Intake.Limit.set kryon_v.Intake.Routes.insert_account
    kryon_v.Intake.Routes.insert_order kryon_v.Intake.Routes.with_retry
    kryon_v.Intake.Routes.write_order kryon_v.Intake.check_expiry kryon_v.Intake.check_signature
    kryon_v.Intake.int_to_string kryon_v.Intake.signature_valid kryon_v.Intake.validate_fields
    kryon_v.Signing.Decimal.is_space parse_digits kryon_v.Signing.Decimal.to_string
    kryon_v.Signing.decode_signature kryon_v.Signing.join kryon_v.Signing.order_settlement_message
    kryon_v.Signing.pubkey_hex_from_address kryon_v.Signing.settlement_fields kryon_v.Signing.to_hex
    kryon_v.Signing.verify_signed_message
replied = refl

abbrev cancel : CancelBody
cancel = record { owner = str (codes "GA"); nonce = codes "9"; signature = str (codes "sig") }

abbrev bucket : Bucket
bucket = record { count = 1; reset_at = 70000 }

abbrev requests : List Request
requests =
    (record { key = codes "a"; limit = 2; now = 20000 })
    ∷ (record { key = codes "b"; limit = 9; now = 20001 })
    ∷ (record { key = codes "a"; limit = 2; now = 20002 })
    ∷ []

known : get (codes "a") ((codes "a", bucket) ∷ []) ≡ some bucket
unfolding get text_eq
known = refl

allowed_within_limit_example : allowed (codes "a") requests ((codes "a", bucket) ∷ []) + 1 ≤ max 1 2
unfolding text_eq
allowed_within_limit_example =
    allowed_within_limit (codes "a") 2 bucket requests ((codes "a", bucket) ∷ []) known
      ((omega arith, λ e. refl), ((omega arith, λ e. ground arith), ((omega arith, λ e. refl), tt)))
