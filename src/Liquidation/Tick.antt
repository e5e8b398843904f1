-- ===== src/Liquidation/Tick.antt =====
-- One round of the loop of client/scripts/liquidation-keeper.ts: the candidates, the scan and the daily
-- calls that extend the contracts' lifetime. The counter of flagged accounts is only printed.
use kryon_v.Base.{
  ℕ, ◌-◌, Bool, true, false, Option, none, some, List, [], ◌∷◌, map, take, ltb, leb, if◌then◌else◌,
  Text,
}
use kryon_v.Config.{MarketConfig}
use kryon_v.Matcher.Tick.{Answer, answers}
use kryon_v.Matcher.Sort.{sort}
use kryon_v.Liquidation.{
  Network, HealthView, Call, extend_instance_ttl, after, account_health, liquidate_account,
}

-- A row of the "Account" table.
pub record AccountRow : Type 0 where
  pub address : Text
  pub updated_at : ℕ

-- The settings, and the clock when the scan is done and when the calls are.
pub record Settings : Type 0 where
  pub active : List MarketConfig
  pub max_accounts_per_tick : ℕ
  pub ttl_bump_interval_ms : ℕ
  pub is_valid_key : Text → Bool
  pub targets : List Text
  pub now_ms : ℕ
  pub done_ms : ℕ

-- The query: the latest rows first.
unfoldable pub candidates : ℕ → List AccountRow → List Text
candidates limit rows =
    map (λ r. r.address) (take limit (sort (λ a b. leb b.updated_at a.updated_at) rows))

abbrev pub is_liquidatable : Option HealthView → Bool
is_liquidatable none = false
is_liquidatable (some h) = h.liquidatable

module _ {S : Type 0} (net : Network S) (cfg : Settings) where
  abbrev pub on_health : Text → Option HealthView → S → Answer Bool × S
  on_health address health s =
      if is_liquidatable health
      then liquidate_account net cfg.active address s
      else (answers false, s)

  -- What a throw leaves behind is the state.
  unfoldable pub scan_account : Text → S → S
  scan_account address s =
      if cfg.is_valid_key address
      then (after (account_health net address s) (on_health address)).1
      else s

  unfoldable pub scan : List Text → S → S
  scan [] s = s
  scan (address ∷ rest) s = scan rest (scan_account address s)

  abbrev pub send_if : Call → Bool → S → Answer (Option Text) × S
  send_if call false s = (answers none, s)
  send_if call true s = net.send call s

  unfoldable pub extend_ttl : Text → S → S
  extend_ttl target s =
      (after (net.get_account s) (λ _ s1.
        after (net.simulate (extend_instance_ttl target) s1)
          (send_if (extend_instance_ttl target)))).1

  unfoldable pub bump_instance_ttls : List Text → S → S
  bump_instance_ttls [] s = s
  bump_instance_ttls (target ∷ rest) s = bump_instance_ttls rest (extend_ttl target s)

  -- With the time of the last calls, 0 at the start.
  unfoldable pub bump_if_due : ℕ → S → ℕ × S
  bump_if_due last_ttl_bump s =
      if ltb cfg.ttl_bump_interval_ms (cfg.now_ms - last_ttl_bump)
      then (cfg.done_ms, bump_instance_ttls cfg.targets s)
      else (last_ttl_bump, s)

  -- A query that throws ends the round.
  unfoldable pub tick : Option (List AccountRow) → ℕ → S → ℕ × S
  tick none last_ttl_bump s = (last_ttl_bump, s)
  tick (some rows) last_ttl_bump s =
      bump_if_due last_ttl_bump (scan (candidates cfg.max_accounts_per_tick rows) s)
