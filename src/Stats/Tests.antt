-- ===== src/Stats/Tests.antt =====
-- A pass over one fill and one event, on a table with rows of a trader and of an idle address.
use kryon_v.Base.{◌*◌, ◌≡◌, ◌⊎◌, true, false, Option, some, List, [], ◌∷◌, Text, codes, pos}
use kryon_v.Stats.{Tables, TraderStat, realized_trade}
use kryon_v.Stats.Keyed.{lookup}
use kryon_v.Stats.Period.{Pass, aggregate_period}
use kryon_v.Stats.Period.Exact.{is_active, IsSummed, aggregate_period-IsExact}

abbrev pass : Pass
pass = record {
  network = codes "testnet";
  since = 100;
  now = 1000;
  numbers = record {
    notional = λ size price. size * price;
    fixed = λ a b. codes "0.5000";
    double = λ n. n;
  };
  fresh_id = λ a. a;
}

abbrev tables : Tables
tables = record {
  fills =
      (record {
        network = codes "testnet";
        maker = codes "a";
        taker = codes "b";
        fill_size = 3;
        fill_price = 5;
        created_at = 200;
      })
      ∷ [];
  events =
      (record {
        network = codes "testnet";
        address = codes "a";
        kind = realized_trade;
        amount = pos 7;
        created_at = 200;
      })
      ∷ [];
  balances = [];
}

abbrev stat : Text → TraderStat
stat a = record {
  id = a;
  address = a;
  period_start = 0;
  realized_pnl = pos 1;
  volume = 1;
  trade_count = 1;
  winning_trades = 1;
  losing_trades = 0;
  win_rate = codes "1.0000";
  roi = codes "0.0000";
  fees_paid = pos 0;
  funding_paid = pos 0;
  liquidation_count = 0;
  peak_collateral = 0;
  last_trade_at = some 50;
  updated_at = 60;
}

abbrev before : List TraderStat
before = stat (codes "a") ∷ stat (codes "idle") ∷ []

abbrev row_of : Text → List TraderStat → Option TraderStat
row_of a stats = lookup (λ t. t.address) a stats

aggregate_period-IsExact_example :
    ((is_active pass tables (codes "a") ≡ false)
      × (row_of (codes "a") (aggregate_period pass tables before) ≡ row_of (codes "a") before))
    ⊎ ((is_active pass tables (codes "a") ≡ true)
        × (row : TraderStat) × (row_of (codes "a") (aggregate_period pass tables before) ≡ some row)
        × IsSummed pass tables (codes "a") row)
aggregate_period-IsExact_example = aggregate_period-IsExact pass tables (codes "a") before
