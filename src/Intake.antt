-- ===== src/Intake.antt =====
-- The checks on an order that reaches the server: client/lib/validation.ts. The errors stand for the
-- source's texts. What ECMAScript's `Number` makes of a JSON value, the configured markets and the
-- clock are parameters.
pub mod Validation
pub mod Limit
pub mod Routes
mod Tests
use kryon_v.Base.{
  ℕ, ◌+◌, ◌*◌, ◌/◌, ◌≡◌, Bool, true, false, ◌&&◌, Option, none, some, List, [], ◌∷◌, ◌==◌, leb,
  someb, length, Text, codes, ℤ, pos, negsuc, ltb_ℤ, leb_ℤ, ◌+ℤ◌,
}
use kryon_v.Config.{MarketConfig, price_precision, amount_precision}
use kryon_v.Signing.{
  Crypto, OrderPayload, assert_u64, order_settlement_message, pubkey_hex_from_address,
  verify_signed_message,
}
use kryon_v.Signing.Decimal.{to_string, trim, parse_signed}

-- A field of the parsed body. A number is given by the text that `String(v)` prints.
pub data Json : Type 0 where
  undefined null other : Json
  bool : Bool → Json
  num str : Text → Json

pub record OrderBody : Type 0 where
  pub owner : Json
  pub market_id : Json
  pub is_long : Json
  pub size : Json
  pub limit_price : Json
  pub reduce_only : Json
  pub nonce : Json
  pub expiry_ts : Json
  pub signature : Json

pub data IntakeError : Type 0 where
  not_an_object invalid_owner unknown_market bad_is_long bad_reduce_only : IntakeError
  bad_size size_exceeds bad_limit_price price_exceeds bad_nonce : IntakeError
  bad_expiry too_soon too_far missing_signature invalid_signature : IntakeError

pub data ValidationResult {ℓ} (Order : Type ℓ) : Type ℓ where
  error : IntakeError → ValidationResult Order
  ok : Order → ValidationResult Order

-- An early return of an error ends the function.
infixl 5 ◌>>=◌
abbrev pub ◌>>=◌ {ℓ κ} :
    {A : Type ℓ} {B : Type κ} → ValidationResult A → (A → ValidationResult B) → ValidationResult B
error e >>= next = error e
ok value >>= next = next value

infixl 5 ◌>>◌
abbrev pub ◌>>◌ {ℓ} :
    {B : Type ℓ} → ValidationResult (Unit {0}) → ValidationResult B → ValidationResult B
error e >> next = error e
ok value >> next = next

abbrev pub guard : Bool → IntakeError → ValidationResult (Unit {0})
guard false e = error e
guard true e = ok tt

abbrev pub some_or {ℓ} : {A : Type ℓ} → Option A → IntakeError → ValidationResult A
some_or (some value) e = ok value
some_or none e = error e

abbrev pub text_of : Json → Option Text
text_of (str s) = some s
text_of _ = none

abbrev pub bool_of : Json → Option Bool
bool_of (bool b) = some b
bool_of _ = none

pub record ValidatedOrder : Type 0 where
  pub owner : Text
  pub market_id : ℕ
  pub is_long : Bool
  pub size : ℤ
  pub limit_price : ℤ
  pub reduce_only : Bool
  pub nonce : ℤ
  pub expiry_ts : ℤ

-- The server's surroundings. `number_of v` is `Number(v)` where that is a natural number.
pub record Server : Type 0 where
  pub crypto : Crypto
  pub number_of : Json → Option ℕ
  pub passphrase : Text
  pub active_markets : List MarketConfig

abbrev pub max_size : ℕ
max_size = 1_000_000_000 * amount_precision

abbrev pub max_price : ℕ
max_price = 10_000_000 * price_precision

abbrev pub max_ttl_seconds : ℕ
max_ttl_seconds = 7 * 24 * 3600

abbrev pub min_ttl_seconds : ℕ
min_ttl_seconds = 5

unfoldable pub parse_big_int : Json → Option ℤ
parse_big_int (str s) = parse_signed (trim s)
parse_big_int (num s) = parse_signed (trim s)
parse_big_int _ = none

-- `toString` of a bigint
unfoldable pub int_to_string : ℤ → Text
int_to_string (pos n) = to_string n
int_to_string (negsuc n) = b'-' ∷ to_string (n + 1)

unfoldable pub check_size : Json → ValidationResult ℤ
check_size v = do
  size ← some_or (parse_big_int v) bad_size
  guard (ltb_ℤ (pos 0) size) bad_size
  guard (leb_ℤ size (pos max_size)) size_exceeds
  ok size

-- A price of 0 marks a market order.
unfoldable pub check_limit_price : Json → ValidationResult ℤ
check_limit_price v = do
  limit_price ← some_or (parse_big_int v) bad_limit_price
  guard (leb_ℤ (pos 0) limit_price) bad_limit_price
  guard (leb_ℤ limit_price (pos max_price)) price_exceeds
  ok limit_price

unfoldable pub check_nonce : Json → ValidationResult ℤ
check_nonce v = do
  nonce ← some_or (parse_big_int v) bad_nonce
  guard (assert_u64 nonce) bad_nonce
  ok nonce

module _ (server : Server) (now_ms : ℕ) where
  abbrev pub known_market : ℕ → Bool
  known_market id = someb (λ m. m.market_id == id) server.active_markets

  abbrev pub now_sec : ℤ
  now_sec = pos (now_ms / 1000)

  abbrev pub payload_of : ValidatedOrder → OrderPayload
  payload_of o = record {
    owner = o.owner;
    market_id = o.market_id;
    is_long = o.is_long;
    size = int_to_string o.size;
    limit_price = int_to_string o.limit_price;
    reduce_only = o.reduce_only;
    nonce = int_to_string o.nonce;
    expiry_ts = int_to_string o.expiry_ts;
  }

  -- The last check: the signature is over the settlement message of the canonical order.
  unfoldable pub signature_valid : ValidatedOrder → Text → Bool
  signature_valid o signature =
      verify_signed_message server.crypto o.owner
        (order_settlement_message server.passphrase (pubkey_hex_from_address server.crypto o.owner)
          (payload_of o))
        signature

  -- The checks in the order of the source, a function for each field.
  unfoldable pub check_owner : Json → ValidationResult Text
  check_owner v = do
    owner ← some_or (text_of v) invalid_owner
    guard (server.crypto.is_valid_public_key owner) invalid_owner
    ok owner

  unfoldable pub check_market : Json → ValidationResult ℕ
  check_market v = do
    market_id ← some_or (server.number_of v) unknown_market
    guard (known_market market_id) unknown_market
    ok market_id

  unfoldable pub check_expiry : Json → ValidationResult ℤ
  check_expiry v = do
    expiry_ts ← some_or (parse_big_int v) bad_expiry
    guard (assert_u64 expiry_ts) bad_expiry
    guard (ltb_ℤ (now_sec +ℤ pos min_ttl_seconds) expiry_ts) too_soon
    guard (leb_ℤ expiry_ts (now_sec +ℤ pos max_ttl_seconds)) too_far
    ok expiry_ts

  unfoldable pub check_signature : ValidatedOrder → Json → ValidationResult Text
  check_signature order v = do
    signature ← some_or (text_of v) missing_signature
    guard (leb (length signature) 256) missing_signature
    guard (signature_valid order signature) invalid_signature
    ok signature

  unfoldable pub validate_fields : OrderBody → ValidationResult ValidatedOrder
  validate_fields b = do
    owner ← check_owner b.owner
    market_id ← check_market b.market_id
    is_long ← some_or (bool_of b.is_long) bad_is_long
    reduce_only ← some_or (bool_of b.reduce_only) bad_reduce_only
    size ← check_size b.size
    limit_price ← check_limit_price b.limit_price
    nonce ← check_nonce b.nonce
    expiry_ts ← check_expiry b.expiry_ts
    let order : ValidatedOrder = record {
      owner = owner;
      market_id = market_id;
      is_long = is_long;
      size = size;
      limit_price = limit_price;
      reduce_only = reduce_only;
      nonce = nonce;
      expiry_ts = expiry_ts;
    }
    check_signature order b.signature >>= λ _. ok order

  -- `validateOrderIntent`; `none` is a body that is no object.
  unfoldable pub validate_order_intent : Option OrderBody → ValidationResult ValidatedOrder
  unfolding validate_fields
  validate_order_intent none = error not_an_object
  validate_order_intent (some b) = validate_fields b
