-- ===== src/Liquidation/Tests.antt =====
-- A round on an account whose full close is refused and whose half close goes through.
use kryon_v.Base.{
  ℕ, suc, ◌≡◌, refl, true, some, List, [], ◌∷◌, ◌==◌, Text, codes, pos, ltb_ℤ, ◌/ℤ◌, if◌then◌else◌,
}
use kryon_v.Config.{markets}
use kryon_v.Matcher.Tick.{answers}
use kryon_v.Matcher.Sort.{sort}
use kryon_v.Oracle.{success, not_found}
use kryon_v.Liquidation.{
  Network, liquidate, extend_instance_ttl, value, liquidate_account, positions_of, oracle_price,
  submit_liquidate, poll_transaction, simulate_read, rank, try_positions, try_position, try_price,
  try_fractions, propose, oracle_symbol,
}
use kryon_v.Liquidation.Tick.{Settings, AccountRow, tick}
use kryon_v.Liquidation.Outcome.{Outcome, liquidate_account-Outcome}
use kryon_v.Liquidation.Scan.{Rounds, tick-Rounds}

-- The state counts the calls.
abbrev net : Network ℕ
net = record {
  read_health = λ _ s. (
    answers (
        value (
          some (record {
            liquidatable = some true;
            equity = some (pos 1);
            maintenance_margin_required = some (pos 5);
          }))),
    suc s,
  );
  read_positions = λ _ s. (
    answers (
        value (
          some (
            (record {
              position_id = some 7;
              market_id = some 1;
              size = some (pos 10);
              entry_price = some (pos 100);
              is_long = some true;
            })
            ∷ []))),
    suc s,
  );
  read_price = λ _ s. (answers (value (some (some (pos 90)))), suc s);
  get_account = λ s. (answers tt, suc s);
  simulate = λ call s. elim call [
    | liquidate user id size price ↦ (answers (ltb_ℤ size (pos 10)), suc s)
    | extend_instance_ttl target ↦ (answers true, suc s)
  ];
  send = λ _ s. (answers (some (codes "ab")), suc s);
  get_transaction = λ _ s. ((if s == 8 then success else not_found), suc s);
}

abbrev usdc_address : Text
usdc_address = codes "C"

abbrev alice : Text
alice = codes "G"

half_closed : liquidate_account net (markets usdc_address) alice 0 ≡ (answers true, 9)
unfolding liquidate_account positions_of oracle_price submit_liquidate poll_transaction
    simulate_read rank try_positions try_position try_price try_fractions propose oracle_symbol
    markets sort ◌/ℤ◌
half_closed = refl

liquidate_account-Outcome_example :
    Outcome net
      (markets usdc_address)
      alice
      0
      (liquidate_account net (markets usdc_address) alice 0)
liquidate_account-Outcome_example = liquidate_account-Outcome net (markets usdc_address) alice 0

abbrev settings : Settings
settings = record {
  active = markets usdc_address;
  max_accounts_per_tick = 500;
  ttl_bump_interval_ms = 86400000;
  is_valid_key = λ _. true;
  targets = codes "gateway" ∷ [];
  now_ms = 1700000000000;
  done_ms = 1700000000100;
}

abbrev rows : List AccountRow
rows = (record { address = codes "G"; updated_at = 5 }) ∷ []

tick-Rounds_example : Rounds net settings rows 0 (tick net settings (some rows) 0 0).1
tick-Rounds_example = tick-Rounds net settings rows 0 0
