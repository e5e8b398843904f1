-- ===== src/Client/Entry/Tests.antt =====
-- A market order to buy at a mark of 100, at a matcher whose oracle price is 100.
use kryon_v.Base.{ℕ, ◌≡◌, refl, true, false, none, some, [], ◌∷◌, codes, Text, arith}
use kryon_v.Store.{Order, Db}
use kryon_v.Signing.{Crypto, build_order_intent}
use kryon_v.Matcher.Walk.{taken}
use kryon_v.Matcher.Tick.{World, throws, matches_of}
use kryon_v.Matcher.Rows.{load_oracle_price}
use kryon_v.Client.Entry.{Ticket, submitted_intent, raw_price}
use kryon_v.Client.Entry.Unmatched.{market_order_unmatched}

abbrev ticket : Ticket
ticket = record {
  address = codes "a";
  market_id = 1;
  is_market = true;
  is_buy = true;
  raw_mark_price = some 100;
  raw_exec_price = 0;
  raw_limit_price = 0;
  raw_size = 10;
  reduce = false;
}

abbrev order_at : Text → Text → ℕ → Order
order_at id owner limit_price = record {
  id = id;
  owner = owner;
  market_id = 1;
  is_long = true;
  size = 10;
  limit_price = limit_price;
  reduce_only = false;
  nonce = 1;
  expiry_ts = 0;
  cancelled = false;
  filled_size = 0;
  created_at = 1;
  signature = none;
}

abbrev table : Text → Order
table k = order_at k (codes "a") 200

abbrev db : Db
db = record {
  orders = table (codes "a:1") ∷ [];
  fills = [];
  markets = (record { id = 1; last_price = 0; volume = 0; last_oracle_price = some 100 }) ∷ [];
  jobs = [];
  accounts = [];
}

abbrev crypto : Crypto
crypto = record {
  is_valid_public_key = λ _. true;
  decode_public_key = λ _. [];
  from_base64 = λ s. s;
  from_hex = λ s. s;
  utf8 = λ s. s;
  hash = λ s. s;
  verify = λ _ _ _. true;
}

abbrev matcher : World
matcher = record {
  network = codes "t";
  passphrase = codes "p";
  crypto = crypto;
  operator_secret = none;
  max_deviation_bps = 1000;
  now_ms = 5000;
  submit = λ _. throws;
  simulate = λ _. throws;
  loads = λ _. true;
  cancels = λ _. true;
  persist_queries = λ _. 4;
  rollback_queries = λ _. 3;
  upserts = λ _. true;
}

oracle_read : load_oracle_price 1 db ≡ some 100
unfolding load_oracle_price
oracle_read = refl

doubled : (table (codes "a:1")).limit_price ≡ (submitted_intent 3000 ticket).limit_price
unfolding submitted_intent raw_price build_order_intent
doubled = refl

market_order_unmatched_example : taken (codes "a:1") (matches_of matcher 1 db) ≡ 0
market_order_unmatched_example =
    market_order_unmatched matcher table (codes "a:1") db 3000 100 ticket refl refl
      (omega arith, omega arith, omega arith) oracle_read (refl, tt) doubled
