-- ===== src/Indexer/Tests.antt =====
-- A tick on an empty table of markets.
use kryon_v.Base.{◌≡◌, refl, true, some, [], ◌∷◌, codes, arith}
use kryon_v.Config.{MarketConfig}
use kryon_v.Store.{Db}
use kryon_v.Matcher.Tick.{answers}
use kryon_v.Matcher.Rows.{load_oracle_price}
use kryon_v.Indexer.{Reads, tick}
use kryon_v.Indexer.Recovery.{tick-load_oracle_price}

abbrev market : MarketConfig
market = record {
  market_id = 1;
  symbol = codes "XLM-PERP";
  display_name = codes "XLM-PERP";
  base_asset = codes "XLM";
  quote_asset = codes "USDC";
  oracle_symbol = codes "XLM";
  price_source_symbol = codes "XLMUSDT";
  settlement_asset = [];
  tv_symbol = codes "COINBASE:XLMUSD";
  max_leverage_bps = 100000;
  initial_margin_bps = 1000;
  maintenance_margin_bps = 500;
  liquidation_fee_bps = 50;
}

abbrev answered : MarketConfig → Reads
answered m = record {
  oracle = answers (some (some 100));
  long_oi = answers (some 3);
  short_oi = answers (some 4);
  upsert_done = true;
}

abbrev empty : Db
empty = record { orders = []; fills = []; markets = []; jobs = []; accounts = [] }

tick-load_oracle_price_example : load_oracle_price 1 (tick answered (market ∷ []) empty) ≡ some 100
tick-load_oracle_price_example =
    tick-load_oracle_price answered [] [] market 100 3 4 empty (omega arith) refl refl refl refl tt
