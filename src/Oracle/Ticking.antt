-- ===== src/Oracle/Ticking.antt =====
-- The guard against overlapping ticks of client/scripts/oracle-keeper.ts: calls of `tick` by the
-- timer and the answers that a tick awaits, in any order. What an answer decides is in Oracle; here
-- a tick is where it stands.
pub mod Serial
use kryon_v.Base.{
  ℕ, zero, suc, Bool, true, false, Option, none, some, List, [], ◌∷◌, ◌++◌, map, if◌then◌else◌,
  Text, codes,
}
use kryon_v.Config.{MarketConfig}

-- What a tick awaits: whether it is needed, the price of an asset, or its write; with the assets
-- that come after.
pub data Stage : Type 0 where
  asking : Stage
  fetching : Text → List Text → Stage
  writing : Text → List Text → Stage

-- An answer: whether to go on (publishing is needed, a price is to be published, the write is
-- confirmed), or a throw.
pub data Answer : Type 0 where
  says : Bool → Answer
  throws : Answer

unfoldable pub next_asset : List Text → Option Stage
next_asset [] = none
next_asset (a ∷ rest) = some (fetching a rest)

-- The assets of `tickInner`, USDC last.
unfoldable pub assets : List MarketConfig → List Text
assets ms = map (λ m. m.oracle_symbol) ms ++ codes "USDC" ∷ []

-- Where a tick stands after an answer; none where it is over. `publishMarket` and `publishUsdc`
-- catch what they await, `tick` does not.
unfoldable pub resume : List Text → Stage → Answer → Option Stage
resume all asking (says true) = next_asset all
resume all asking (says false) = none
resume all asking throws = none
resume all (fetching a rest) (says true) = some (writing a rest)
resume all (fetching a rest) (says false) = next_asset rest
resume all (fetching a rest) throws = next_asset rest
resume all (writing a rest) (says b) = next_asset rest
resume all (writing a rest) throws = next_asset rest

-- `ticking`, and the calls of `tick` that have not returned.
pub record Keeper : Type 0 where
  pub ticking : Bool
  pub runs : List Stage

unfoldable pub tick_call : Keeper → Keeper
tick_call k = if k.ticking then k else record { ticking = true; runs = k.runs ++ asking ∷ [] }

pub data Event : Type 0 where
  interval : Event
  answer : ℕ → Answer → Event

-- The call goes on; the `finally` resets the flag at its end.
unfoldable pub settle : Bool → Option Stage → List Stage → Keeper
settle ticking none rs = record { ticking = false; runs = rs }
settle ticking (some s) rs = record { ticking = ticking; runs = s ∷ rs }

unfoldable pub behind : Stage → Keeper → Keeper
behind r k = record { ticking = k.ticking; runs = r ∷ k.runs }

-- The call at a place gets its answer.
unfoldable pub resume_at : List Text → Bool → ℕ → Answer → List Stage → Keeper
resume_at all ticking i a [] = record { ticking = ticking; runs = [] }
resume_at all ticking zero a (r ∷ rs) = settle ticking (resume all r a) rs
resume_at all ticking (suc i) a (r ∷ rs) = behind r (resume_at all ticking i a rs)

unfoldable pub step : List Text → Event → Keeper → Keeper
step all interval k = tick_call k
step all (answer i a) k = resume_at all k.ticking i a k.runs

unfoldable pub run_events : List Text → List Event → Keeper → Keeper
run_events all [] k = k
run_events all (e ∷ es) k = run_events all es (step all e k)

-- The keeper after the first call of `tick`.
unfoldable pub boot : Keeper
boot = tick_call (record { ticking = false; runs = [] })
