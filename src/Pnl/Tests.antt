-- ===== src/Pnl/Tests.antt =====
-- The PnL of one position and one fill.
use kryon_v.Base.{◌≡◌, refl, true, false, some, [], ◌∷◌, codes, pos, findb}
use kryon_v.Pnl.{RawPos, is_opposite, realized_pnl_for_fill}
use kryon_v.Pnl.Fills.{realized_pnl_for_fill_opening, FillSide, FillArgs}

abbrev long : RawPos
long = record { market_id = 1; is_long = true; size = pos 30; entry_price = pos 7 }

found : findb (is_opposite 1 false) (long ∷ []) ≡ some long
found = refl

realized_pnl_for_fill_opening_example :
    realized_pnl_for_fill (long ∷ []) 1 true (pos 40) (pos 9) ≡ pos 0
realized_pnl_for_fill_opening_example =
    realized_pnl_for_fill_opening (long ∷ []) 1 true (pos 40) (pos 9) (refl, tt)

abbrev side : FillSide
side = record { address = codes "GA"; is_long = false; positions_before = long ∷ []; fee = pos 2 }

abbrev args : FillArgs
args = record {
  market_id = 1;
  tx_hash = codes "h";
  ledger = 5;
  fill_size = pos 10;
  fill_price = pos 9;
  maker = side;
  taker = record side { address = codes "GB" };
}
