-- ===== src/Matcher/Rows.antt =====
-- What the matcher reads from the tables, client/scripts/matcher-service.ts: the open orders, the
-- oracle's price and its band, and the signature of an order's settlement message.
use kryon_v.Base.{
  ℕ, ◌+◌, ◌*◌, ◌/◌, Bool, true, ◌&&◌, ◌||◌, not, Option, none, some, List, [], ◌∷◌, ◌==◌, ltb, leb,
  if◌then◌else◌, findb, filterb, Text,
}
use kryon_v.Store.{Order, Db}
use kryon_v.Signing.{
  OrderPayload, Crypto, order_settlement_message, pubkey_hex_from_address, verify_signed_message,
}
use kryon_v.Signing.Decimal.{to_string}
use kryon_v.Matcher.Sort.{sort}

abbrev pub is_open : ℕ → ℕ → Order → Bool
is_open market_id now_sec o =
    o.market_id == market_id
    && not o.cancelled
    && ltb o.filled_size o.size
    && (o.expiry_ts == 0 || ltb now_sec o.expiry_ts)

abbrev cheaper_first : Order → Order → Bool
cheaper_first a b =
    if a.limit_price == b.limit_price
    then leb a.created_at b.created_at
    else ltb a.limit_price b.limit_price

unfoldable pub load_resting_orders : ℕ → ℕ → Db → List Order
load_resting_orders market_id now_ms db =
    sort cheaper_first
      (filterb (λ o. is_open market_id (now_ms / 1000) o && not (o.limit_price == 0)) db.orders)

unfoldable pub load_market_orders : ℕ → ℕ → Db → List Order
load_market_orders market_id now_ms db =
    sort (λ a b. leb a.created_at b.created_at)
      (filterb (λ o. is_open market_id (now_ms / 1000) o && o.limit_price == 0) db.orders)

abbrev pub oracle_of : Option ℕ → Option ℕ
oracle_of none = none
oracle_of (some p) = if ltb 0 p then some p else none

unfoldable pub load_oracle_price : ℕ → Db → Option ℕ
load_oracle_price market_id db = elim (findb (λ m. m.id == market_id) db.markets) [
  | none ↦ none
  | some m ↦ oracle_of m.last_oracle_price
]

-- `oracle - delta` may be negative: both sides of the first test are moved.
unfoldable pub within_oracle_band : ℕ → ℕ → ℕ → Bool
within_oracle_band max_deviation_bps fill_price oracle =
    let delta = oracle * max_deviation_bps / 10000 in
    leb oracle (fill_price + delta) && leb fill_price (oracle + delta)

abbrev pub payload_of_order : Order → OrderPayload
payload_of_order o = record {
  owner = o.owner;
  market_id = o.market_id;
  is_long = o.is_long;
  size = to_string o.size;
  limit_price = to_string o.limit_price;
  reduce_only = o.reduce_only;
  nonce = to_string o.nonce;
  expiry_ts = to_string o.expiry_ts;
}

abbrev verified : Crypto → Text → Order → Option Text → Bool
verified crypto passphrase o none = true
verified crypto passphrase o (some []) = true
verified crypto passphrase o (some (c ∷ s)) =
    verify_signed_message crypto o.owner
      (order_settlement_message passphrase (pubkey_hex_from_address crypto o.owner)
        (payload_of_order o))
      (c ∷ s)

unfoldable pub settlement_sig_valid : Crypto → Text → Order → Bool
settlement_sig_valid crypto passphrase o = verified crypto passphrase o o.signature
