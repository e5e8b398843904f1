-- ===== src/Signing/Tests.antt =====
-- The settlement message of one order.
use kryon_v.Base.{◌≡◌, refl, true, false, some, codes, arith}
use kryon_v.Signing.{OrderIntent, order_intent_to_json, order_settlement_message}
use kryon_v.Signing.Decimal.{parse_digits, to_string, parse_digits-to_string}
use kryon_v.Signing.Fields.{NoBar, order_settlement_message-injective}

abbrev intent : OrderIntent
intent = record {
  owner = codes "GA";
  market_id = 1;
  is_long = true;
  size = 50;
  limit_price = 7;
  reduce_only = false;
  nonce = 9;
  expiry_ts = 100;
}

message_lem :
    order_settlement_message (codes "net") (codes "ab") (order_intent_to_json intent)
    ≡ codes "net|place_order|ab|1|1|50|7|0|9|100"
unfolding order_settlement_message to_string order_intent_to_json
message_lem = refl

parse_digits-to_string_example : parse_digits (to_string 1204) ≡ some 1204
parse_digits-to_string_example = parse_digits-to_string 1204

net_NoBar : NoBar (codes "net")
net_NoBar = (omega arith, (omega arith, (omega arith, tt)))

key_NoBar : NoBar (codes "ab")
key_NoBar = (omega arith, (omega arith, tt))

order_settlement_message-injective_example :
    (codes "net" ≡ codes "net")
    × (codes "ab" ≡ codes "ab")
    × (intent.market_id ≡ intent.market_id)
    × (intent.is_long ≡ intent.is_long)
    × (intent.size ≡ intent.size)
    × (intent.limit_price ≡ intent.limit_price)
    × (intent.reduce_only ≡ intent.reduce_only)
    × (intent.nonce ≡ intent.nonce)
    × (intent.expiry_ts ≡ intent.expiry_ts)
order_settlement_message-injective_example =
    order_settlement_message-injective (codes "net") (codes "net") (codes "ab") (codes "ab") intent
      intent net_NoBar net_NoBar key_NoBar key_NoBar refl
