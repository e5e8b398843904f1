-- ===== src/Matcher/Persist.antt =====
-- `persistFill` and `rollbackFill` of client/scripts/matcher-service.ts on the tables. Each query is
-- its own transaction and may throw: a run is given the number of queries that get through, and what
-- was written stays written.
pub mod Laws
pub mod Filled
pub mod Undo
use kryon_v.Base.{
  ℕ, zero, suc, ◌+◌, ◌-◌, ◌*◌, ◌/◌, ◌%◌, ◌≡◌, Bool, true, false, ◌&&◌, not, Option, none, some,
  List, [], ◌∷◌, ◌++◌, map, ◌==◌, ltb, leb, if◌then◌else◌, someb, filterb, length, Text, codes,
  text_eq,
}
use kryon_v.Config.{price_precision}
use kryon_v.Store.{Order, Fill, Market, Db}
use kryon_v.Signing.Decimal.{to_string}
use kryon_v.Signing.{hex_digit}
use kryon_v.Matcher.{MatchResult}

abbrev two_32 : ℕ
two_32 = 4294967296

-- `h = Math.imul(31, h) + c | 0`, as a 32-bit pattern
hash_onto : ℕ → Text → ℕ
hash_onto h [] = h
hash_onto h (c ∷ s) = hash_onto ((31 * h + c) % two_32) s

-- `Math.abs` of the signed number that a pattern stands for
abbrev abs_32 : ℕ → ℕ
abs_32 h = if ltb h 2147483648 then h else two_32 - h

hex_onto : ℕ → ℕ → Text → Text
hex_onto zero n acc = acc
hex_onto (suc f) n acc =
    let more = hex_onto f (n / 16) (hex_digit (n % 16) ∷ acc) in
    if ltb n 16 then hex_digit n ∷ acc else more

-- `padStart(58, "0")`
abbrev zeros : ℕ → Text
zeros zero = []
zeros (suc n) = b'0' ∷ zeros n

pad_start : ℕ → Text → Text
pad_start width s = zeros (width - length s) ++ s

unfoldable pub pseudo_tx_hash : Order → Order → ℕ → Text
unfolding hash_onto hex_onto pad_start
pseudo_tx_hash maker taker fill_size =
    let raw =
      codes "db:"
      ++ maker.owner
      ++ b':' ∷ to_string maker.nonce
      ++ b':' ∷ taker.owner
      ++ b':' ∷ to_string taker.nonce
      ++ b':' ∷ to_string fill_size in
    codes "dbfill" ++ pad_start 58 (hex_onto 9 (abs_32 (hash_onto 0 raw)) [])

module _ (network : Text) (m : MatchResult) where
  abbrev pub hash_of : Text
  hash_of = pseudo_tx_hash m.maker m.taker m.fill_size

  abbrev pub fill_row : Fill
  fill_row = record {
    network = network;
    market_id = m.maker.market_id;
    maker = m.maker.owner;
    maker_nonce = m.maker.nonce;
    taker = m.taker.owner;
    taker_nonce = m.taker.nonce;
    fill_size = m.fill_size;
    fill_price = m.fill_price;
    tx_hash = hash_of;
    ledger = 0;
  }

-- The unique key (network, txHash, maker, makerNonce, taker, takerNonce).
unfoldable pub same_fill : Fill → Fill → Bool
same_fill a b =
    text_eq a.network b.network
    && text_eq a.tx_hash b.tx_hash
    && text_eq a.maker b.maker
    && a.maker_nonce == b.maker_nonce
    && text_eq a.taker b.taker
    && a.taker_nonce == b.taker_nonce

-- The row that `UPDATE "Order"` writes, behind its guard against overfilling.
abbrev pub can_add : Text → ℕ → Order → Bool
can_add id n o = text_eq o.id id && leb (o.filled_size + n) o.size

unfoldable pub add_filled : Text → ℕ → Order → Order
add_filled id n o = if can_add id n o then record o { filled_size = o.filled_size + n } else o

-- `GREATEST(0, "filledSize" - n)`
unfoldable pub sub_filled : Text → ℕ → Order → Order
sub_filled id n o = if text_eq o.id id then record o { filled_size = o.filled_size - n } else o

unfoldable pub traded : ℕ → ℕ → ℕ → Market → Market
traded id price value m =
    if m.id == id then record m { last_price = price; volume = m.volume + value } else m

-- Queries, each with the number of rows that it returns.
unfoldable pub insert_fill : Fill → Db → Bool × Db
insert_fill f db =
    if someb (same_fill f) db.fills
    then (false, db)
    else (true, record db { fills = db.fills ++ f ∷ [] })

unfoldable pub update_filled : Text → ℕ → Db → Bool × Db
update_filled id n db =
    (someb (can_add id n) db.orders, record db { orders = map (add_filled id n) db.orders })

unfoldable pub update_market : ℕ → ℕ → ℕ → Db → Bool × Db
update_market id price value db =
    (true, record db { markets = map (traded id price value) db.markets })

-- Awaited queries in order, with `false` from the first that throws or returns no row.
unfoldable pub run_queries : List (Db → Bool × Db) → ℕ → Db → Bool × Db
run_queries [] n db = (true, db)
run_queries (q ∷ qs) zero db = (false, db)
run_queries (q ∷ qs) (suc n) db = elim ((q db).0) [
  | true ↦ run_queries qs n (q db).1
  | false ↦ (false, (q db).1)
]

module _ (network : Text) (m : MatchResult) where
  abbrev pub value_of : ℕ
  value_of = m.fill_size * m.fill_price / price_precision

  unfoldable pub persist_fill : ℕ → Db → Bool × Db
  persist_fill = run_queries (
      insert_fill (fill_row network m)
      ∷ update_filled m.maker.id m.fill_size
      ∷ update_filled m.taker.id m.fill_size
      ∷ update_market m.maker.market_id m.fill_price value_of
      ∷ [])

  abbrev pub is_row : Fill → Bool
  is_row f = text_eq f.network network && text_eq f.tx_hash (hash_of network m)

  unfoldable pub delete_fill : Db → Bool × Db
  delete_fill db = (true, record db { fills = filterb (λ f. not (is_row f)) db.fills })

  unfoldable pub release : Text → Db → Bool × Db
  release id db = (true, record db { orders = map (sub_filled id m.fill_size) db.orders })

  unfoldable pub rollback_fill : ℕ → Db → Db
  rollback_fill queries db =
      (run_queries (delete_fill ∷ release m.maker.id ∷ release m.taker.id ∷ []) queries db).1
