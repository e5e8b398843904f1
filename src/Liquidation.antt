-- ===== src/Liquidation.antt =====
-- The liquidation keeper, client/scripts/liquidation-keeper.ts: what it reads of the contracts, what it
-- proposes and in which order. The network is a parameter with a state of its own.
pub mod Tick
pub mod Outcome
pub mod Scan
mod Tests
use mathlib.Core.List.{Memᴰ}
use kryon_v.Base.{
  ℕ, zero, suc, Bool, true, false, not, Option, none, some, List, [], ◌∷◌, map, ◌==◌, if◌then◌else◌,
  Text, ℤ, pos, ◌*ℤ◌, ◌/ℤ◌, leb_ℤ,
}
use kryon_v.Config.{MarketConfig}
use kryon_v.Settlement.{present}
use kryon_v.Matcher.Tick.{Answer, throws, answers}
use kryon_v.Matcher.Sort.{sort}
use kryon_v.Oracle.{Poll, success, failed, not_found}

-- What `simulateTransaction` and `scValToNative` give: `value none` is a native value that has not the
-- shape that is asked for.
pub data Simulated (A : Type 0) : Type 0 where
  simulation_error : Simulated A
  no_retval : Simulated A
  undecodable : Simulated A
  value : Option A → Simulated A

-- The structs of the contracts, with what an absent field stands for.
pub record RawHealth : Type 0 where
  pub liquidatable : Option Bool
  pub equity : Option ℤ
  pub maintenance_margin_required : Option ℤ

pub record RawPosition : Type 0 where
  pub position_id : Option ℕ
  pub market_id : Option ℕ
  pub size : Option ℤ
  pub entry_price : Option ℤ
  pub is_long : Option Bool

pub record HealthView : Type 0 where
  pub liquidatable : Bool
  pub equity : ℤ
  pub maintenance_margin_required : ℤ

pub record PositionView : Type 0 where
  pub position_id : ℕ
  pub market_id : ℕ
  pub size : ℤ
  pub entry_price : ℤ
  pub is_long : Bool

-- The contract calls that are signed and sent: `liquidate` with the account, the position's id, the
-- size to close and the execution price, and `extend_instance_ttl` of a contract.
pub data Call : Type 0 where
  liquidate : Text → ℕ → ℤ → ℤ → Call
  extend_instance_ttl : Text → Call

-- The SDK's calls. `simulate` answers whether the simulation succeeds, `send` the hash unless the
-- status is ERROR.
pub record Network (S : Type 0) : Type 0 where
  pub read_health : Text → S → Answer (Simulated RawHealth) × S
  pub read_positions : Text → S → Answer (Simulated (List RawPosition)) × S
  pub read_price : Text → S → Answer (Simulated (Option ℤ)) × S
  pub get_account : S → Answer {0} Unit × S
  pub simulate : Call → S → Answer Bool × S
  pub send : Call → S → Answer (Option Text) × S
  pub get_transaction : Text → S → Poll × S

-- An awaited call and what follows it; a throw ends the run.
abbrev pub after {ℓ} :
    {S A : Type 0} {B : Type ℓ} → Answer A × S → (A → S → Answer B × S) → Answer B × S
after (throws, s) next = (throws, s)
after (answers a, s) next = next a s

abbrev native : {A : Type 0} → Simulated A → Option A
native simulation_error = none
native no_retval = none
native undecodable = none
native (value a) = a

-- `simulateRead`
unfoldable pub simulate_read : {A S : Type 0} → Answer (Simulated A) × S → Answer (Option A) × S
simulate_read read = after read (λ a s. (answers (native a), s))

-- `x ?? otherwise`
abbrev pub or_else : {A : Type 0} → Option A → A → A
or_else none a = a
or_else (some x) a = x

abbrev view_health : RawHealth → HealthView
view_health r = record {
  liquidatable = or_else r.liquidatable false;
  equity = or_else r.equity (pos 0);
  maintenance_margin_required = or_else r.maintenance_margin_required (pos 0);
}

abbrev view_position : RawPosition → PositionView
view_position r = record {
  position_id = or_else r.position_id 0;
  market_id = or_else r.market_id 0;
  size = or_else r.size (pos 0);
  entry_price = or_else r.entry_price (pos 0);
  is_long = or_else r.is_long false;
}

abbrev view_healths : Option RawHealth → Option HealthView
view_healths none = none
view_healths (some r) = some (view_health r)

abbrev view_positions : Option (List RawPosition) → List PositionView
view_positions none = []
view_positions (some rs) = map view_position rs

abbrev view_price : Option (Option ℤ) → Option ℤ
view_price none = none
view_price (some price) = price

-- The map from a market's id to the oracle's symbol: a later market with the same id replaces an
-- earlier one.
unfoldable pub oracle_symbol : List MarketConfig → ℕ → Option Text
oracle_symbol [] id = none
oracle_symbol (m ∷ ms) id = elim (oracle_symbol ms id) [
  | some symbol ↦ some symbol
  | none ↦ if m.market_id == id then some m.oracle_symbol else none
]

abbrev pub notional : PositionView → ℤ
notional p = p.size *ℤ p.entry_price

-- Larger notionals first.
unfoldable pub rank : List PositionView → List PositionView
rank ps = sort (λ a b. leb_ℤ (notional b) (notional a)) ps

-- `later` is what follows when a proposal, position or account is not liquidated.
abbrev pub stop_if : {S : Type 0} → Option Text → (S → Answer Bool × S) → S → Answer Bool × S
stop_if hash later s = if present hash then (answers true, s) else later s

module _ {S : Type 0} (net : Network S) where
  unfoldable pub account_health : Text → S → Answer (Option HealthView) × S
  account_health user s =
      after (simulate_read (net.read_health user s)) (λ r s'. (answers (view_healths r), s'))

  unfoldable pub positions_of : Text → S → Answer (List PositionView) × S
  positions_of user s =
      after (simulate_read (net.read_positions user s)) (λ r s'. (answers (view_positions r), s'))

  unfoldable pub oracle_price : Text → S → Answer (Option ℤ) × S
  oracle_price symbol s =
      after (simulate_read (net.read_price symbol s)) (λ r s'. (answers (view_price r), s'))

  -- The polls after a submission, and how many of them are left.
  unfoldable pub poll_transaction : ℕ → Text → S → Answer (Option Text) × S
  poll_transaction zero hash s = (answers none, s)
  poll_transaction (suc left) hash s = elim (net.get_transaction hash s).0 [
    | success ↦ (answers (some hash), (net.get_transaction hash s).1)
    | failed ↦ (answers none, (net.get_transaction hash s).1)
    | Poll.throws ↦ (throws, (net.get_transaction hash s).1)
    | not_found ↦ poll_transaction left hash (net.get_transaction hash s).1
  ]

  abbrev poll_sent : Option Text → S → Answer (Option Text) × S
  poll_sent none s = (answers none, s)
  poll_sent (some hash) s = poll_transaction 15 hash s

  abbrev send_simulated : Call → Bool → S → Answer (Option Text) × S
  send_simulated call false s = (answers none, s)
  send_simulated call true s = after (net.send call s) poll_sent

  unfoldable pub submit_liquidate : Text → ℕ → ℤ → ℤ → S → Answer (Option Text) × S
  submit_liquidate user id close_size price s = after (net.get_account s) (λ _ s1.
      after (net.simulate (liquidate user id close_size price) s1)
        (send_simulated (liquidate user id close_size price)))

  unfoldable pub propose : Text → PositionView → ℤ → ℤ → (S → Answer Bool × S) → S → Answer Bool × S
  propose user p price close_size later s =
      if leb_ℤ close_size (pos 0)
      then later s
      else after (submit_liquidate user p.position_id close_size price s)
          (λ hash s'. stop_if hash later s')

  unfoldable pub try_fractions :
      Text → PositionView → ℤ → List ℕ → (S → Answer Bool × S) → S → Answer Bool × S
  try_fractions user p price [] later s = later s
  try_fractions user p price (k ∷ ks) later s =
      propose user p price (p.size /ℤ k) (try_fractions user p price ks later) s

  unfoldable pub try_price :
      Text → PositionView → Option ℤ → (S → Answer Bool × S) → S → Answer Bool × S
  try_price user p none later s = later s
  try_price user p (some price) later s =
      if leb_ℤ price (pos 0) then later s else try_fractions user p price (1 ∷ 2 ∷ 4 ∷ []) later s

  unfoldable pub try_position :
      Text → PositionView → Option Text → (S → Answer Bool × S) → S → Answer Bool × S
  try_position user p none later s = later s
  try_position user p (some symbol) later s =
      after (oracle_price symbol s) (λ price s'. try_price user p price later s')

  unfoldable pub try_positions : List MarketConfig → Text → List PositionView → S → Answer Bool × S
  try_positions active user [] s = (answers false, s)
  try_positions active user (p ∷ ps) s =
      try_position user p (oracle_symbol active p.market_id) (try_positions active user ps) s

  unfoldable pub liquidate_account : List MarketConfig → Text → S → Answer Bool × S
  liquidate_account active user s =
      after (positions_of user s) (λ ps s'. try_positions active user (rank ps) s')
