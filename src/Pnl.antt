-- ===== src/Pnl.antt =====
-- Position arithmetic: client/lib/math.ts and the pure half of client/lib/stats.ts. Bigints are ℤ.
-- A leverage, a JavaScript number in the source, is given in millionths, the finest step that
-- `Math.round(leverage * 1e6)` keeps; a rate is in whole basis points.
pub mod Laws
pub mod Fills
pub mod Events
mod Tests
use kryon_v.Base.{
  ℕ, ◌*◌, ◌/◌, ◌+◌, ◌-◌, Bool, true, false, not, ◌&&◌, ◌||◌, Option, none, some, List, [], ◌∷◌,
  ◌==◌, ltb, leb, if◌then◌else◌, findb, ℤ, pos, ◌+ℤ◌, ◌-ℤ◌, ◌*ℤ◌, ◌/ℤ◌, ltb_ℤ, leb_ℤ,
}
use kryon_v.Config.{price_precision, amount_precision}

-- `pnl = size * (markPrice - entryPrice) / PRICE_PRECISION`, with the sign of the side.
unfoldable pub calc_unrealized_pnl : Bool → ℤ → ℤ → ℤ → ℤ
calc_unrealized_pnl is_long size entry_price mark_price =
    if leb_ℤ mark_price (pos 0) || leb_ℤ entry_price (pos 0) || leb_ℤ size (pos 0)
    then pos 0
    else let price_delta =
        if is_long then mark_price -ℤ entry_price else entry_price -ℤ mark_price in
      (size *ℤ price_delta) /ℤ price_precision

abbrev pub scale : ℕ
scale = 1_000_000

-- The price at which a position of this side and leverage is liquidated. All quotients are of
-- non-negative numbers but the factor of a short, which `◌/ℤ◌` divides as the source does.
unfoldable pub calc_liq_price : Bool → ℤ → ℕ → ℕ → ℤ
calc_liq_price is_long entry_price leverage maintenance_margin_bps =
    if leb leverage 0 || leb_ℤ entry_price (pos 0)
    then pos 0
    else let mm_rate = pos (maintenance_margin_bps * 100) in
      let inverse = pos (scale * scale / leverage) in
      let long_factor = pos scale -ℤ inverse +ℤ mm_rate in
      let short_factor = pos scale +ℤ inverse -ℤ mm_rate in
      if is_long
      then (if leb_ℤ long_factor (pos 0) then pos 0 else (entry_price *ℤ long_factor) /ℤ scale)
      else (entry_price *ℤ short_factor) /ℤ scale

-- `calcMaxPositionSize`, whose rounding `Math.round(leverage * 1_000)` is given by the leverage in
-- thousandths.
unfoldable pub calc_max_position_size : ℕ → ℕ → ℕ → ℕ
calc_max_position_size collateral leverage_scaled mark_price =
    if leb mark_price 0 || leb leverage_scaled 0 || leb collateral 0
    then 0
    else collateral * leverage_scaled * price_precision / (mark_price * 1000 * amount_precision)

-- `calcMarginRatio` in ten-thousandths: the float is this integer divided by 10_000.
unfoldable pub calc_margin_ratio : ℤ → ℕ → ℤ
calc_margin_ratio margin notional =
    if leb notional 0 then pos 0 else (pos 10_000 *ℤ margin) /ℤ notional

pub record RawPos : Type 0 where
  pub market_id : ℕ
  pub is_long : Bool
  pub size : ℤ
  pub entry_price : ℤ

abbrev pub bool_eq : Bool → Bool → Bool
bool_eq true b = b
bool_eq false b = not b

-- The test that `positions.find` makes: the same market, the other side, and open.
abbrev pub is_opposite : ℕ → Bool → RawPos → Bool
is_opposite market_id fill_is_long p =
    p.market_id == market_id && not (bool_eq p.is_long fill_is_long) && ltb_ℤ (pos 0) p.size

-- What a fill books against the opposite position that was found.
unfoldable pub close_against : ℤ → ℤ → Option RawPos → ℤ
close_against fill_size fill_price none = pos 0
close_against fill_size fill_price (some opposite) =
    let close_size = if ltb_ℤ opposite.size fill_size then opposite.size else fill_size in
    let price_delta =
      if opposite.is_long
      then fill_price -ℤ opposite.entry_price
      else opposite.entry_price -ℤ fill_price in
    if leb_ℤ close_size (pos 0) then pos 0 else (close_size *ℤ price_delta) /ℤ price_precision

unfoldable pub realized_pnl_for_fill : List RawPos → ℕ → Bool → ℤ → ℤ → ℤ
unfolding close_against
realized_pnl_for_fill positions market_id fill_is_long fill_size fill_price =
    close_against fill_size fill_price (findb (is_opposite market_id fill_is_long) positions)

-- `notional1e7`
unfoldable pub notional : ℤ → ℤ → ℤ
notional size price = (size *ℤ price) /ℤ price_precision
