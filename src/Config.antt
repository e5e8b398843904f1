-- ===== src/Config.antt =====
-- The precisions and the market table of client/config/index.ts.
pub mod Symbols
mod Tests
use kryon_v.Base.{ℕ, List, [], ◌∷◌, Text, codes}

-- Prices carry 18 decimals, amounts 7, rates are in basis points.
abbrev pub price_precision : ℕ
price_precision = 1_000_000_000_000_000_000

abbrev pub amount_precision : ℕ
amount_precision = 10_000_000

abbrev pub bps_precision : ℕ
bps_precision = 10_000

pub record MarketConfig : Type 0 where
  pub market_id : ℕ
  pub symbol : Text
  pub display_name : Text
  pub base_asset : Text
  pub quote_asset : Text
  pub oracle_symbol : Text
  pub price_source_symbol : Text
  pub settlement_asset : Text
  pub tv_symbol : Text
  pub max_leverage_bps : ℕ
  pub initial_margin_bps : ℕ
  pub maintenance_margin_bps : ℕ
  pub liquidation_fee_bps : ℕ

-- `MARKETS`, over the address of the settlement asset that the environment gives.
unfoldable pub markets : Text → List MarketConfig
markets usdc =
    (record {
      market_id = 1;
      symbol = codes "XLM-PERP";
      display_name = codes "XLM-PERP";
      base_asset = codes "XLM";
      quote_asset = codes "USDC";
      oracle_symbol = codes "XLM";
      price_source_symbol = codes "XLMUSDT";
      settlement_asset = usdc;
      tv_symbol = codes "COINBASE:XLMUSD";
      max_leverage_bps = 100000;
      initial_margin_bps = 1000;
      maintenance_margin_bps = 500;
      liquidation_fee_bps = 50;
    })
    ∷ (record {
      market_id = 2;
      symbol = codes "BTC-PERP";
      display_name = codes "BTC-PERP";
      base_asset = codes "BTC";
      quote_asset = codes "USDC";
      oracle_symbol = codes "BTC";
      price_source_symbol = codes "BTCUSDT";
      settlement_asset = usdc;
      tv_symbol = codes "COINBASE:BTCUSD";
      max_leverage_bps = 500000;
      initial_margin_bps = 200;
      maintenance_margin_bps = 100;
      liquidation_fee_bps = 25;
    })
    ∷ (record {
      market_id = 3;
      symbol = codes "ETH-PERP";
      display_name = codes "ETH-PERP";
      base_asset = codes "ETH";
      quote_asset = codes "USDC";
      oracle_symbol = codes "ETH";
      price_source_symbol = codes "ETHUSDT";
      settlement_asset = usdc;
      tv_symbol = codes "COINBASE:ETHUSD";
      max_leverage_bps = 200000;
      initial_margin_bps = 500;
      maintenance_margin_bps = 250;
      liquidation_fee_bps = 35;
    })
    ∷ []
