-- ===== src/Config/Tests.antt =====
-- A setting with a market named twice.
use kryon_v.Base.{◌≡◌, refl, some, List, [], ◌∷◌, Text, codes, text_eq}
use kryon_v.Config.{markets}
use kryon_v.Config.Symbols.{
  split, unique, is_known, parsed, symbols_of, parse_active_market_symbols,
}

abbrev same : Text → Text
same s = s

abbrev raw : Text
raw = codes "BTC-PERP,,XLM-PERP,BTC-PERP"

abbrev active : List Text
active = codes "BTC-PERP" ∷ codes "XLM-PERP" ∷ []

accepted : parse_active_market_symbols same same (markets (codes "U")) (some raw) ≡ parsed active
unfolding parse_active_market_symbols symbols_of split unique is_known markets text_eq
accepted = refl
