-- ===== src/Oracle/Tests.antt =====
-- The oracle keeper with a depegged stablecoin, and an idle protocol.
use kryon_v.Base.{
  ℕ, ◌+◌, ◌-◌, ◌*◌, ◌≤◌, List, Option, leb, arith, ◌≡◌, ◌⊎◌, ◌/◌, refl, true, false, none, some, [],
  ◌∷◌, codes, Text,
}
use kryon_v.Store.{Db}
use kryon_v.Oracle.{
  AggregatedPrice, World, publish_market, LastPublished, polled, success, publish_usdc, usdc, found,
  check_protocol_activity, db_signals,
}
use kryon_v.Matcher.Sort.{sort, insert}
use kryon_v.Oracle.Median.{
  Double, IsDouble, sorted_prices, median, confidence_of, too_far, agreed, aggregate_price,
  to_option,
}
use kryon_v.Config.{MarketConfig}
use kryon_v.Oracle.Ticking.{
  Event, interval, answer, Answer, says, throws, writing, run_events, boot, step, tick_call,
  resume_at, behind, settle, resume, next_asset,
}
use kryon_v.Oracle.Ticking.Serial.{
  IsSerial, IsFree, answered, run_events-IsSerial, run_events-Frees,
}
use kryon_v.Oracle.Median.Published.{publish_market-IsVouched}
use kryon_v.Oracle.Median.Robust.{aggregate_price_majority}
use kryon_v.Oracle.Safety.{IsPegged, publish_usdc-IsPegged}

abbrev world : World
world = record {
  mainnet = true;
  publish_deviation_bps = 30;
  publish_heartbeat_secs = 60;
  usdc_publish_deviation_bps = 10;
  usdc_publish_heartbeat_secs = 90;
  usdc_depeg_halt_bps = 100;
  activity_check_interval_ms = 30000;
  idle_grace_secs = 900;
  now_ms = 1000;
  done_ms = 2000;
  aggregate = λ _. some (record { price = 995000000000000000; confidence = 1 });
  write = λ _. polled (λ _. success);
}

abbrev nothing : LastPublished
nothing asset = none

publish_usdc-IsPegged_example :
    (publish_usdc world nothing (usdc world) ≡ nothing (usdc world))
    ⊎ ((price : ℕ) × (publish_usdc world nothing (usdc world)
          ≡ some (record { price = price; ts = 2000 }))
        × IsPegged world price)
publish_usdc-IsPegged_example = publish_usdc-IsPegged world nothing

abbrev empty : Db
empty = record { orders = []; fills = []; markets = []; jobs = []; accounts = [] }

idle : check_protocol_activity 1000 true empty (found false) (found false) ≡ false
unfolding check_protocol_activity db_signals
idle = refl

abbrev resting : Db
resting = record empty {
  orders =
      (record {
        id = codes "a:1";
        owner = codes "a";
        market_id = 1;
        is_long = true;
        size = 10;
        limit_price = 100;
        reduce_only = false;
        nonce = 1;
        expiry_ts = 500;
        cancelled = false;
        filled_size = 0;
        created_at = 1;
        signature = none;
      })
      ∷ [];
}

-- Whole dollars.
instance abbrev dollars : Double ℕ
dollars = record {
  zero_is = 0;
  two = 2;
  ten_thousand = 10000;
  precision = 1;
  le = leb;
  is_finite = λ _. true;
  plus = λ x y. x + y;
  minus = λ x y. x - y;
  times = λ x y. x * y;
  over = λ x y. x / y;
  round = some;
}

dollars-IsDouble : IsDouble ℕ
dollars-IsDouble = ground arith

-- Three venues, of which one is off.
abbrev venues : List (Option ℕ)
venues = some 100 ∷ some 130 ∷ none ∷ some 101 ∷ []

abbrev agreed_price : AggregatedPrice
agreed_price = record { price = 101; confidence = 15 }

agrees : aggregate_price 2 5000 venues ≡ agreed agreed_price 3
unfolding aggregate_price sorted_prices median confidence_of sort insert
agrees = refl

aggregate_price_majority_example : (100 ≤ agreed_price.price) × (agreed_price.price ≤ 101)
aggregate_price_majority_example =
    aggregate_price_majority ⦃laws = dollars-IsDouble⦄ 2 5000 venues 100 101 100 101 agreed_price 3
      refl refl (omega arith) agrees

apart : aggregate_price {D = ℕ} 2 200 (some 1 ∷ some 2 ∷ []) ≡ too_far
unfolding aggregate_price sorted_prices median confidence_of sort insert
apart = refl

abbrev xlm : MarketConfig
xlm = record {
  market_id = 1;
  symbol = codes "XLM-PERP";
  display_name = codes "XLM-PERP";
  base_asset = codes "XLM";
  quote_asset = codes "USDC";
  oracle_symbol = codes "XLM";
  price_source_symbol = codes "XLMUSDT";
  settlement_asset = codes "U";
  tv_symbol = codes "T";
  max_leverage_bps = 100000;
  initial_margin_bps = 1000;
  maintenance_margin_bps = 500;
  liquidation_fee_bps = 50;
}

-- The keeper with these venues for each market.
abbrev trading : World
trading = record world { aggregate = λ _. to_option (aggregate_price 2 5000 venues) }

publish_market-IsVouched_example :
    (publish_market trading xlm nothing (codes "XLM") ≡ nothing (codes "XLM"))
    ⊎ ((price : ℕ) × (publish_market trading xlm nothing (codes "XLM")
          ≡ some (record { price = price; ts = 2000 }))
        × (100 ≤ price)
        × (price ≤ 101))
publish_market-IsVouched_example =
    publish_market-IsVouched ⦃laws = dollars-IsDouble⦄ trading xlm nothing 2 5000 venues 100 101 100
      101 refl refl refl (omega arith)

-- The timer fires twice while the first tick writes a price.
abbrev firing : List Event
firing = answer 0 (says true) ∷ interval ∷ answer 0 (says true) ∷ interval ∷ answer 1 throws ∷ []

abbrev two_assets : List Text
two_assets = codes "XLM" ∷ codes "USDC" ∷ []

run_events-IsSerial_example : IsSerial two_assets (run_events two_assets firing boot)
run_events-IsSerial_example = run_events-IsSerial two_assets firing

abbrev replies : List Answer
replies = says true ∷ throws ∷ says false ∷ says true ∷ says true ∷ []

run_events-Frees_example :
    IsFree (run_events two_assets (answered replies) (run_events two_assets firing boot))
run_events-Frees_example = run_events-Frees two_assets firing replies (omega arith)

writing_alone :
    (run_events two_assets firing boot).runs ≡ writing (codes "XLM") (codes "USDC" ∷ []) ∷ []
unfolding run_events boot step tick_call resume_at behind settle resume next_asset
writing_alone = refl
