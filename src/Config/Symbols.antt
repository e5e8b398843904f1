-- ===== src/Config/Symbols.antt =====
-- `parseActiveMarketSymbols` of client/config/index.ts. ECMAScript's `trim` and `toUpperCase` are
-- parameters.
pub mod Laws
use kryon_v.Base.{
  ℕ, Bool, true, false, not, Option, none, some, List, [], ◌∷◌, ◌==◌, if◌then◌else◌, map, filterb,
  someb, Text, codes, text_eq,
}
use kryon_v.Config.{MarketConfig}

-- `raw.split(",")`
unfoldable pub split : ℕ → Text → List Text
split separator [] = [] ∷ []
split separator (c ∷ s) =
    let rest = split separator s in if c == separator then [] ∷ rest else onto c rest
  where
    onto : ℕ → List Text → List Text
    onto c [] = (c ∷ []) ∷ []
    onto c (word ∷ words) = (c ∷ word) ∷ words

abbrev pub is_nonempty : Text → Bool
is_nonempty [] = false
is_nonempty (c ∷ s) = true

-- `Array.from(new Set(symbols))`: the first of equal ones stays.
unfoldable pub unique : List Text → List Text
unique [] = []
unique (s ∷ rest) = s ∷ filterb (λ t. not (text_eq s t)) (unique rest)

unfoldable pub is_known : List MarketConfig → Text → Bool
is_known markets symbol = someb (λ m. text_eq m.symbol symbol) markets

pub data Parsed : Type 0 where
  unknown_markets : List Text → Parsed
  no_market : Parsed
  parsed : List Text → Parsed

abbrev pub or_default : Option Text → Text
or_default none = codes "XLM-PERP"
or_default (some raw) = raw

abbrev pub checked : List Text → List Text → Parsed
checked symbols (u ∷ us) = unknown_markets (u ∷ us)
checked [] [] = no_market
checked (s ∷ ss) [] = parsed (s ∷ ss)

module _ (trim to_upper_case : Text → Text) (markets : List MarketConfig) where
  unfoldable pub symbols_of : Option Text → List Text
  symbols_of raw =
      unique (filterb is_nonempty (map (λ s. to_upper_case (trim s)) (split 44 (or_default raw))))

  unfoldable pub parse_active_market_symbols : Option Text → Parsed
  parse_active_market_symbols raw =
      let symbols = symbols_of raw in
      checked symbols (filterb (λ s. not (is_known markets s)) symbols)
