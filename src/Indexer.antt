-- ===== src/Indexer.antt =====
-- The state indexer, client/scripts/state-indexer.ts: its upsert of a market, with the columns that the
-- matcher reads. The open interest and the funding indices go to columns that no modelled part reads.
pub mod Recovery
mod Tests
use kryon_v.Base.{ℕ, Bool, true, false, Option, none, some, List, [], ◌∷◌, ◌==◌, if◌then◌else◌}
use kryon_v.Config.{MarketConfig}
use kryon_v.Store.{Market, Db}
use kryon_v.Matcher.Tick.{Answer, throws, answers}

-- The reads of a market. The oracle's answer is `none` where the simulation fails or has no value, and
-- may lack its price.
pub record Reads : Type 0 where
  pub oracle : Answer (Option (Option ℕ))
  pub long_oi : Answer (Option ℕ)
  pub short_oi : Answer (Option ℕ)
  pub upsert_done : Bool

-- `String(price ?? "0")`
abbrev pub price_or_zero : Option ℕ → ℕ
price_or_zero none = 0
price_or_zero (some p) = p

-- `updates["lastOraclePrice"]`, from a read that is settled either way.
abbrev pub oracle_update : Answer (Option (Option ℕ)) → Option ℕ
oracle_update throws = none
oracle_update (answers none) = none
oracle_update (answers (some price)) = some (price_or_zero price)

abbrev pub set_oracle : Option ℕ → Market → Market
set_oracle none m = m
set_oracle (some p) m = record m { last_oracle_price = some p }

-- INSERT ... ON CONFLICT (id) DO UPDATE; the column's default is 0.
abbrev pub upsert_market : ℕ → Option ℕ → List Market → List Market
upsert_market id update [] =
    (record {
      id = id;
      last_price = 0;
      volume = 0;
      last_oracle_price = some (price_or_zero update);
    })
    ∷ []
upsert_market id update (m ∷ ms) =
    let rest = m ∷ upsert_market id update ms in
    if m.id == id then set_oracle update m ∷ ms else rest

abbrev pub write_market : ℕ → Reads → Db → Db
write_market id r db =
    if r.upsert_done
    then record db { markets = upsert_market id (oracle_update r.oracle) db.markets }
    else db

-- The reads of the open interest are awaited outside any try.
abbrev pub after_reads : Answer (Option ℕ) → Answer (Option ℕ) → ℕ → Reads → Db → Db
after_reads throws short id r db = db
after_reads (answers long) throws id r db = db
after_reads (answers long) (answers short) id r db = write_market id r db

unfoldable pub index_market : ℕ → Reads → Db → Db
index_market id r db = after_reads r.long_oi r.short_oi id r db

-- The markets of a tick, each of which catches what its run throws.
unfoldable pub tick : (MarketConfig → Reads) → List MarketConfig → Db → Db
tick reads [] db = db
tick reads (m ∷ ms) db = tick reads ms (index_market m.market_id (reads m) db)
