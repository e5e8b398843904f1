-- ===== src/Client/Entry.antt =====
-- The order that the ticket submits, `handleSubmit` of
-- client/features/trade/components/OrderEntry.tsx. What it rounds from doubles is given.
pub mod Unmatched
mod Tests
use kryon_v.Base.{ℕ, ◌*◌, ◌/◌, Bool, true, false, Option, none, some, ltb, if◌then◌else◌, Text}
use kryon_v.Signing.{OrderIntent, build_order_intent}

-- The ticket when it is submitted: `raw_exec_price`, `raw_limit_price` and `raw_size` are the bigints
-- that the rounded doubles give.
pub record Ticket : Type 0 where
  pub address : Text
  pub market_id : ℕ
  pub is_market : Bool
  pub is_buy : Bool
  pub raw_mark_price : Option ℕ
  pub raw_exec_price : ℕ
  pub raw_limit_price : ℕ
  pub raw_size : ℕ
  pub reduce : Bool

abbrev pub mark_or : Option ℕ → ℕ → ℕ
mark_or none fallback = fallback
mark_or (some mark) fallback = if ltb 0 mark then mark else fallback

-- Twice the mark for a buy, half of it and at least 1 for a sell.
abbrev pub aggressive_price : Bool → ℕ → ℕ
aggressive_price true mark = mark * 2
aggressive_price false mark = if ltb 0 (mark / 2) then mark / 2 else 1

unfoldable pub raw_price : Ticket → ℕ
raw_price t =
    if t.is_market
    then aggressive_price t.is_buy (mark_or t.raw_mark_price t.raw_exec_price)
    else t.raw_limit_price

unfoldable pub submitted_intent : ℕ → Ticket → OrderIntent
submitted_intent now_ms t =
    build_order_intent now_ms t.address t.market_id t.is_buy t.raw_size (raw_price t)
      (some t.reduce) (some 3600)
