-- ===== src/Indexer/Recovery.antt =====
-- What the matcher (client/scripts/matcher-service.ts) reads of a market after a tick of the indexer.
use kryon_v.Base.{
  ℕ, ◌≡◌, refl, sym, ap, ◌∙◌, true, false, Option, none, some, List, [], ◌∷◌, ◌++◌, ◌<◌, ◌==◌,
  ==_iff, findb, All, Bool-cases, inl, inr, arith,
}
use kryon_v.Config.{MarketConfig}
use kryon_v.Store.{Market, Db}
use kryon_v.Matcher.Tick.{Answer, throws, answers}
use kryon_v.Matcher.Rows.{load_oracle_price, oracle_of}
use kryon_v.Indexer.{
  Reads, oracle_update, set_oracle, upsert_market, after_reads, index_market, tick,
}

abbrev row_of : ℕ → List Market → Option Market
row_of id ms = findb (λ m. m.id == id) ms

abbrev price_of : Option Market → Option ℕ
price_of none = none
price_of (some m) = oracle_of m.last_oracle_price

load_oracle_price-row_of :
    (id : ℕ) (db : Db) → load_oracle_price id db ≡ price_of (row_of id db.markets)
unfolding load_oracle_price
load_oracle_price-row_of id db = refl

row_of-upsert_market :
    (id p : ℕ) (ms : List Market)
    → price_of (row_of id (upsert_market id (some p) ms)) ≡ oracle_of (some p)
row_of-upsert_market id p [] = rw ((==_iff id id).1 refl) refl
row_of-upsert_market id p (m ∷ ms) = elim (Bool-cases (m.id == id)) [
  | inl e ↦ rw (e, e) refl
  | inr e ↦ rw (e, e) (row_of-upsert_market id p ms)
]

set_oracle-id : (update : Option ℕ) (m : Market) → (set_oracle update m).id ≡ m.id
set_oracle-id none m = refl
set_oracle-id (some p) m = refl

row_of-upsert_other :
    (id other : ℕ) (update : Option ℕ) (ms : List Market)
    → (other == id) ≡ false
    → row_of id (upsert_market other update ms) ≡ row_of id ms
row_of-upsert_other id other update [] h = rw h refl
row_of-upsert_other id other update (m ∷ ms) h = elim (Bool-cases (m.id == other)) [
  | inl e ↦
      let apart : (m.id == id) ≡ false = ground arith in rw (e, set_oracle-id update m, apart) refl
  | inr e ↦ elim (Bool-cases (m.id == id)) [
    | inl same ↦ rw (e, same) refl
    | inr apart ↦ rw (e, apart) (row_of-upsert_other id other update ms h)
  ]
]

after_reads-other :
    (a b : Answer (Option ℕ)) (id other : ℕ) (r : Reads) (db : Db)
    → (other == id) ≡ false
    → load_oracle_price id (after_reads a b other r db) ≡ load_oracle_price id db
after_reads-other throws b id other r db h = refl
after_reads-other (answers a) throws id other r db h = refl
after_reads-other (answers a) (answers b) id other r db h = elim (Bool-cases r.upsert_done) [
  | inl e ↦ rw e (
      load_oracle_price-row_of id _
      ∙ ap price_of (row_of-upsert_other id other (oracle_update r.oracle) db.markets h)
      ∙ sym (load_oracle_price-row_of id db))
  | inr e ↦ rw e refl
]

tick-other :
    (reads : MarketConfig → Reads) (id : ℕ) (ms : List MarketConfig) (db : Db)
    → All (λ m. (m.market_id == id) ≡ false) ms
    → load_oracle_price id (tick reads ms db) ≡ load_oracle_price id db
unfolding tick index_market
tick-other reads id [] db h = refl
tick-other reads id (m ∷ ms) db (h, hs) =
    tick-other reads id ms _ hs
    ∙ after_reads-other (reads m).long_oi (reads m).short_oi id m.market_id (reads m) db h

-- A run on a market whose reads and whose query all get through.
index_market-oracle :
    (id price long short : ℕ) (r : Reads) (db : Db)
    → r.oracle ≡ answers (some (some price))
    → r.long_oi ≡ answers (some long)
    → r.short_oi ≡ answers (some short)
    → r.upsert_done ≡ true
    → load_oracle_price id (index_market id r db) ≡ oracle_of (some price)
unfolding index_market
index_market-oracle id price long short r db o l s u =
    rw (l, s, u, o) (load_oracle_price-row_of id _ ∙ row_of-upsert_market id price db.markets)

-- After a tick of the indexer the matcher reads of a market the positive price that the oracle has just
-- given, whether or not the market had a row: where the reads of the market and its query get through and
-- no later market has its id, whatever happens to the others.
pub tick-load_oracle_price :
    (reads : MarketConfig → Reads) (before later : List MarketConfig) (m : MarketConfig)
    (price long short : ℕ) (db : Db)
    → 0 < price
    → (reads m).oracle ≡ answers (some (some price))
    → (reads m).long_oi ≡ answers (some long)
    → (reads m).short_oi ≡ answers (some short)
    → (reads m).upsert_done ≡ true
    → All (λ k. (k.market_id == m.market_id) ≡ false) later
    → load_oracle_price m.market_id (tick reads (before ++ m ∷ later) db) ≡ some price
unfolding tick
tick-load_oracle_price reads [] later m price long short db pos o l s u apart =
    tick-other reads m.market_id later _ apart
    ∙ index_market-oracle m.market_id price long short (reads m) db o l s u
    ∙ ground arith
tick-load_oracle_price reads (k ∷ before) later m price long short db pos o l s u apart =
    tick-load_oracle_price reads before later m price long short
      (index_market k.market_id (reads k) db) pos o l s u apart
