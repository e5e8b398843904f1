-- ===== src/Matcher/Tests.antt =====
-- The matcher on a small book: a resting bid and seller, and a market order to sell.
use kryon_v.Base.{
  ℕ, zero, suc, ◌-◌, ◌≤◌, ◌≡◌, ◌≢◌, refl, Bool, true, false, none, some, List, [], ◌∷◌, map, arith,
  if◌then◌else◌, Text, codes, text_eq, All,
}
use kryon_v.Config.{MarketConfig}
use kryon_v.Store.{Order, Fill, Db}
use kryon_v.Signing.{Crypto}
use kryon_v.Matcher.{
  MatchResult, Pending, match_all, sell_pass, buy_pass, limit_pass, walk_all, walk, trade,
  remaining, add, never, too_high,
}
use kryon_v.Matcher.Sort.{sort, insert}
use kryon_v.Matcher.Walk.{taken}
use kryon_v.Matcher.Book.{IsFair, match_all_within, match_all-IsFair}
use kryon_v.Matcher.Exhaust.{bids, asks, match_all_exhausts}
use kryon_v.Matcher.Settle.{AllSettled}
use kryon_v.Matcher.Persist.{
  persist_fill, rollback_fill, insert_fill, update_filled, update_market, run_queries, add_filled,
  traded, same_fill,
}
use kryon_v.Matcher.Persist.Laws.{IsSound}
use kryon_v.Matcher.Persist.Undo.{rollback_fill-persist_fill}
use kryon_v.Matcher.Tick.{
  matches_of, World, throws, answers, record_queued, tick_market, tick, fill_match,
  execute_settlement,
}
use kryon_v.Matcher.Rows.{load_oracle_price}
use kryon_v.Matcher.Tick.Sound.{SameBook}
use kryon_v.Matcher.Tick.Band.{Backed, tick-IsSound, tick_market-Backed, fill_match-undone}

abbrev order_of : Text → Text → Bool → ℕ → ℕ → ℕ → Order
order_of id owner is_long size limit_price created_at = record {
  id = id;
  owner = owner;
  market_id = 1;
  is_long = is_long;
  size = size;
  limit_price = limit_price;
  reduce_only = false;
  nonce = 1;
  expiry_ts = 0;
  cancelled = false;
  filled_size = 0;
  created_at = created_at;
  signature = none;
}

abbrev bid : Order
bid = order_of (codes "a:1") (codes "a") true 10 100 1

abbrev seller : Order
seller = order_of (codes "b:1") (codes "b") false 6 90 2

abbrev market_sell : Order
market_sell = order_of (codes "c:1") (codes "c") false 3 0 3

abbrev limits : List Order
limits = bid ∷ seller ∷ []

abbrev market_orders : List Order
market_orders = market_sell ∷ []

abbrev table : Text → Order
table k =
    if text_eq k (codes "a:1") then bid else if text_eq k (codes "b:1") then seller else market_sell

sizes_lem : map (λ m. m.fill_size) (match_all limits market_orders) ≡ 3 ∷ 6 ∷ []
unfolding match_all sell_pass buy_pass limit_pass walk_all walk trade remaining add sort insert
    text_eq
sizes_lem = refl

prices_lem : map (λ m. m.fill_price) (match_all limits market_orders) ≡ 100 ∷ 100 ∷ []
unfolding match_all sell_pass buy_pass limit_pass walk_all walk trade remaining add sort insert
    text_eq
prices_lem = refl

match_all_within_example :
    taken (codes "a:1") (match_all limits market_orders)
    ≤ (table (codes "a:1")).size - (table (codes "a:1")).filled_size
unfolding text_eq
match_all_within_example =
    match_all_within table limits market_orders (refl, (refl, tt)) (refl, tt) (codes "a:1")

match_all-IsFair_example : All IsFair (match_all limits market_orders)
match_all-IsFair_example = match_all-IsFair limits market_orders (refl, tt)

match_all_exhausts_example :
    let took : Pending = λ k. taken k (match_all limits market_orders) in
    AllSettled too_high took (bids limits) (asks limits)
    × AllSettled never took (asks market_orders) (bids limits)
    × AllSettled never took (bids market_orders) (asks limits)
match_all_exhausts_example = match_all_exhausts limits market_orders

-- The tables before the run, and the match of the two resting orders.
abbrev tables : Db
tables = record {
  orders = limits;
  fills = [];
  markets = (record { id = 1; last_price = 0; volume = 0; last_oracle_price = none }) ∷ [];
  jobs = [];
  accounts = [];
}

abbrev first_match : MatchResult
first_match = record { maker = bid; taker = seller; fill_size = 6; fill_price = 100 }

abbrev net : Text
net = codes "t"

persisted : (persist_fill net first_match 4 tables).0 ≡ true
unfolding persist_fill run_queries insert_fill update_filled update_market add_filled traded
    same_fill text_eq
persisted = refl

rollback_fill-persist_fill_example :
    let after =
      rollback_fill net first_match
        (suc (suc (suc zero)))
        (persist_fill net first_match 4 tables).1 in
    (after.orders ≡ tables.orders) × (after.fills ≡ tables.fills)
unfolding text_eq
rollback_fill-persist_fill_example =
    rollback_fill-persist_fill net first_match table 4 zero tables refl (refl, (refl, tt)) tt
      persisted

-- A run that is cut short after two queries leaves the fill and the maker's part of it.
half_persisted :
    (persist_fill net first_match 2 tables).0 ≡ false
    × map (λ o. o.filled_size) (persist_fill net first_match 2 tables).1.orders ≡ 6 ∷ 0 ∷ []
unfolding persist_fill run_queries insert_fill update_filled update_market add_filled traded
    same_fill text_eq
half_persisted = (refl, refl)

abbrev crypto : Crypto
crypto = record {
  is_valid_public_key = λ _. true;
  decode_public_key = λ _. [];
  from_base64 = λ s. s;
  from_hex = λ s. s;
  utf8 = λ s. s;
  hash = λ s. s;
  verify = λ _ _ _. true;
}

-- A matcher whose simulation fails.
abbrev world : World
world = record {
  network = net;
  passphrase = codes "p";
  crypto = crypto;
  operator_secret = some (codes "s");
  max_deviation_bps = 1000;
  now_ms = 5000;
  submit = λ _. throws;
  simulate = λ _. answers none;
  loads = λ _. true;
  cancels = λ _. true;
  persist_queries = λ _. 4;
  rollback_queries = λ _. 3;
  upserts = λ _. true;
}

abbrev market : MarketConfig
market = record {
  market_id = 1;
  symbol = codes "XLM-PERP";
  display_name = codes "XLM-PERP";
  base_asset = codes "XLM";
  quote_asset = codes "USDC";
  oracle_symbol = codes "XLM";
  price_source_symbol = codes "XLMUSDT";
  settlement_asset = [];
  tv_symbol = [];
  max_leverage_bps = 100000;
  initial_margin_bps = 1000;
  maintenance_margin_bps = 500;
  liquidation_fee_bps = 50;
}

-- The same tables with an oracle price that has both orders in its band.
abbrev quoted : Db
quoted = record tables {
  markets = (record { id = 1; last_price = 0; volume = 0; last_oracle_price = some 100 }) ∷ [];
}

tick-IsSound_example : IsSound (tick world (market ∷ []) quoted)
tick-IsSound_example = tick-IsSound world (market ∷ []) quoted (omega arith, (omega arith, tt))

no_oracle : load_oracle_price 1 tables ≡ none
unfolding load_oracle_price
no_oracle = refl

-- No fill is old here: each has to be backed.
abbrev Never : Fill → Type 0
Never f = f.ledger ≢ f.ledger

tick_market-Backed_example :
    All
      (Backed world Never
        (matches_of world market.market_id quoted)
        (load_oracle_price market.market_id quoted))
      (tick_market world market quoted).1.fills
tick_market-Backed_example = tick_market-Backed world Never market quoted tt

unsettled :
    (execute_settlement world first_match (persist_fill net first_match 4 tables).1).0
    ≢ answers true
unfolding execute_settlement record_queued
unsettled h = ground arith

fill_match-undone_example : SameBook (fill_match world first_match tables) tables
unfolding text_eq
fill_match-undone_example =
    fill_match-undone world table zero first_match tables refl (refl, (refl, tt)) tt refl persisted
      unsettled
