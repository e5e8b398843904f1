-- ===== src/Signing.antt =====
-- The canonical messages that a wallet signs (client/lib/market/signing-message.ts), the order
-- intent (client/lib/market/order-intent.ts) and the signature check
-- (client/lib/market/signed-intent.ts). What the Stellar SDK and Node's `Buffer` compute is the
-- parameter `Crypto`.
pub mod Decimal
pub mod Fields
mod Tests
use kryon_v.Base.{
  ℕ, ◌+◌, ◌*◌, ◌/◌, ◌≤◌, ◌<◌, ◌%◌, ◌-◌, Bool, true, false, ◌&&◌, ◌||◌, not, Option, none, some,
  List, [], ◌∷◌, ◌++◌, map, ◌==◌, ltb, leb, if◌then◌else◌, length, Text, codes, ◌≡◌, ℤ, pos, leb_ℤ,
}
use kryon_v.Signing.Decimal.{to_string, trim}

-- `signOrder` fields of the JSON payload; numbers that exceed a double are decimal strings.
pub record OrderPayload : Type 0 where
  pub owner : Text
  pub market_id : ℕ
  pub is_long : Bool
  pub size : Text
  pub limit_price : Text
  pub reduce_only : Bool
  pub nonce : Text
  pub expiry_ts : Text

pub record OrderIntent : Type 0 where
  pub owner : Text
  pub market_id : ℕ
  pub is_long : Bool
  pub size : ℕ
  pub limit_price : ℕ
  pub reduce_only : Bool
  pub nonce : ℕ
  pub expiry_ts : ℕ

abbrev pub or_default {ℓ} : {A : Type ℓ} → Option A → A → A
or_default none d = d
or_default (some a) d = a

-- `buildOrderIntent` at the time `now_ms`: the nonce is the clock, the order lives `ttl` seconds.
unfoldable pub build_order_intent :
    ℕ → Text → ℕ → Bool → ℕ → ℕ → Option Bool → Option ℕ → OrderIntent
build_order_intent now_ms owner market_id is_long size limit_price reduce_only ttl_seconds =
    record {
      owner = owner;
      market_id = market_id;
      is_long = is_long;
      size = size;
      limit_price = limit_price;
      reduce_only = or_default reduce_only false;
      nonce = now_ms;
      expiry_ts = now_ms / 1000 + or_default ttl_seconds 300;
    }

unfoldable pub order_intent_to_json : OrderIntent → OrderPayload
order_intent_to_json o = record {
  owner = o.owner;
  market_id = o.market_id;
  is_long = o.is_long;
  size = to_string o.size;
  limit_price = to_string o.limit_price;
  reduce_only = o.reduce_only;
  nonce = to_string o.nonce;
  expiry_ts = to_string o.expiry_ts;
}

-- `xs.join(sep)` for a separator of one character
unfoldable pub join : ℕ → List Text → Text
join sep [] = []
join sep (x ∷ []) = x
join sep (x ∷ y ∷ xs) = x ++ sep ∷ join sep (y ∷ xs)

abbrev pub bool_text : Bool → Text
bool_text true = codes "true"
bool_text false = codes "false"

abbrev pub bit_text : Bool → Text
bit_text true = codes "1"
bit_text false = codes "0"

-- `k=v`, a pair to a line
unfoldable pub canonical_pairs : List (Text × Text) → Text
unfolding join
canonical_pairs pairs = join 10 (map (λ p. p.0 ++ b'=' ∷ p.1) pairs)

unfoldable pub order_signing_message : Text → OrderPayload → Text
unfolding canonical_pairs
order_signing_message passphrase o = canonical_pairs (
    (codes "domain", codes "kryon.perps")
    ∷ (codes "action", codes "place_order")
    ∷ (codes "network", passphrase)
    ∷ (codes "owner", o.owner)
    ∷ (codes "market_id", to_string o.market_id)
    ∷ (codes "is_long", bool_text o.is_long)
    ∷ (codes "size", o.size)
    ∷ (codes "limit_price", o.limit_price)
    ∷ (codes "reduce_only", bool_text o.reduce_only)
    ∷ (codes "nonce", o.nonce)
    ∷ (codes "expiry_ts", o.expiry_ts)
    ∷ [])

-- The fields of the settlement message, in the order of the contract's `order_canonical_bytes`.
unfoldable pub settlement_fields : Text → Text → OrderPayload → List Text
settlement_fields domain pubkey_hex o =
    domain
    ∷ codes "place_order"
    ∷ pubkey_hex
    ∷ to_string o.market_id
    ∷ bit_text o.is_long
    ∷ o.size
    ∷ o.limit_price
    ∷ bit_text o.reduce_only
    ∷ o.nonce
    ∷ o.expiry_ts
    ∷ []

unfoldable pub order_settlement_message : Text → Text → OrderPayload → Text
unfolding settlement_fields join
order_settlement_message domain pubkey_hex o = join b'|' (settlement_fields domain pubkey_hex o)

unfoldable pub cancel_signing_message : Text → Text → Text → Text
unfolding canonical_pairs
cancel_signing_message passphrase owner nonce = canonical_pairs (
    (codes "domain", codes "kryon.perps")
    ∷ (codes "action", codes "cancel_order")
    ∷ (codes "network", passphrase)
    ∷ (codes "owner", owner)
    ∷ (codes "nonce", nonce)
    ∷ [])

abbrev pub max_u64 : ℕ
max_u64 = 18446744073709551615

unfoldable pub assert_u64 : ℤ → Bool
assert_u64 n = leb_ℤ (pos 0) n && leb_ℤ n (pos max_u64)

-- One lowercase hexadecimal digit, and `toHex`: two digits for each byte.
abbrev pub hex_digit : ℕ → ℕ
hex_digit d = if ltb d 10 then b'0' + d else b'a' + d - 10

unfoldable pub to_hex : List ℕ → Text
to_hex [] = []
to_hex (b ∷ bs) = hex_digit (b / 16) ∷ hex_digit (b % 16) ∷ to_hex bs

-- The Stellar SDK and Node's `Buffer`: strkey check and decoding, ed25519 keys, the hash, and the
-- decoders of base64, hex and UTF-8 text.
pub record Crypto : Type 0 where
  pub is_valid_public_key : Text → Bool
  pub decode_public_key : Text → List ℕ
  pub from_base64 : Text → List ℕ
  pub from_hex : Text → List ℕ
  pub utf8 : Text → List ℕ
  pub hash : List ℕ → List ℕ
  pub verify : Text → List ℕ → List ℕ → Bool

abbrev is_hex_digit : ℕ → Bool
is_hex_digit c = leb b'0' c && leb c b'9' || leb b'a' c && leb c b'f' || leb b'A' c && leb c b'F'

all_hex : Text → Bool
all_hex [] = true
all_hex (c ∷ s) = is_hex_digit c && all_hex s

abbrev pub sep53_prefix : Text
sep53_prefix = codes "Stellar Signed Message:" ++ 10 ∷ []

module _ (crypto : Crypto) where
  -- 128 hexadecimal digits, or else base64
  unfoldable pub decode_signature : Text → List ℕ
  unfolding all_hex
  decode_signature signature =
      let s = trim signature in
      if length s == 128 && all_hex s then crypto.from_hex s else crypto.from_base64 s

  -- SEP-53: the digest is that of the prefix and the message.
  unfoldable pub verify_signed_message : Text → Text → Text → Bool
  unfolding decode_signature
  verify_signed_message owner message signature =
      let sig = decode_signature signature in
      let digest = crypto.hash (crypto.utf8 sep53_prefix ++ crypto.utf8 message) in
      if length sig == 64
      then (if crypto.is_valid_public_key owner then crypto.verify owner digest sig else false)
      else false

  unfoldable pub pubkey_hex_from_address : Text → Text
  unfolding to_hex
  pubkey_hex_from_address address = to_hex (crypto.decode_public_key address)
