-- ===== src/Config/Symbols/Laws.antt =====
-- What the active markets of client/config/index.ts are.
use kryon_v.Base.{
  ◌≡◌, ◌≢◌, refl, sym, Bool, true, false, not, Option, List, [], ◌∷◌, filterb, map, All,
  All-filterb, Text, text_eq, Bool-cases, inl, inr, arith,
}
use kryon_v.Config.{MarketConfig}
use kryon_v.Config.Symbols.{
  split, or_default, is_nonempty, unique, is_known, parsed, symbols_of, checked,
  parse_active_market_symbols,
}

-- No two symbols are equal.
abbrev pub AreDistinct : List Text → Type 0
AreDistinct [] = Unit
AreDistinct (s ∷ rest) = All (λ t. text_eq s t ≡ false) rest × AreDistinct rest

filterb-AreDistinct :
    (p : Text → Bool) (xs : List Text) → AreDistinct xs → AreDistinct (filterb p xs)
filterb-AreDistinct p [] h = tt
filterb-AreDistinct p (x ∷ xs) (h, hs) = elim (Bool-cases (p x)) [
  | inl e ↦ rw e (All-filterb _ p xs h, filterb-AreDistinct p xs hs)
  | inr e ↦ rw e (filterb-AreDistinct p xs hs)
]

apart :
    (s : Text) (xs : List Text)
    → All (λ t. text_eq s t ≡ false) (filterb (λ t. not (text_eq s t)) xs)
apart s [] = tt
apart s (x ∷ xs) = elim (Bool-cases (text_eq s x)) [
  | inl e ↦ rw e (apart s xs)
  | inr e ↦ rw e (e, apart s xs)
]

unique-AreDistinct : (xs : List Text) → AreDistinct (unique xs)
unfolding unique
unique-AreDistinct [] = tt
unique-AreDistinct (x ∷ xs) =
    (apart x (unique xs), filterb-AreDistinct _ (unique xs) (unique-AreDistinct xs))

none_left :
    (p : Text → Bool) (xs : List Text) → filterb (λ s. not (p s)) xs ≡ [] → All (λ s. p s ≡ true) xs
none_left p [] h = tt
none_left p (x ∷ xs) h = elim (Bool-cases (p x)) [
  | inl e ↦ (e, none_left p xs (rw e at h))
  | inr e ↦ let h' : (x ∷ filterb (λ s. not (p s)) xs) ≡ [] = rw e at h in ground arith
]

checked-parsed :
    (symbols unknown result : List Text)
    → checked symbols unknown ≡ parsed result
    → (unknown ≡ []) × (symbols ≡ result) × (result ≢ [])
checked-parsed symbols (u ∷ us) result h = ground arith
checked-parsed [] [] result h = ground arith
checked-parsed (s ∷ ss) [] result h =
    let same : (s ∷ ss) ≡ result = ground arith in (refl, same, λ empty. ground arith)

-- Where the setting is accepted, the active markets are some markets of the table, no two the same.
pub parse_active_market_symbols-AreDistinct :
    (trim to_upper_case : Text → Text) (markets : List MarketConfig) (raw : Option Text)
    (result : List Text)
    → parse_active_market_symbols trim to_upper_case markets raw ≡ parsed result
    → (result ≢ []) × AreDistinct result × All (λ s. is_known markets s ≡ true) result
unfolding parse_active_market_symbols symbols_of
parse_active_market_symbols-AreDistinct trim to_upper_case markets raw result h =
    let words =
      filterb is_nonempty (map (λ s. to_upper_case (trim s)) (split 44 (or_default raw))) in
    let (known, same, some_left) = checked-parsed (unique words) _ result h in
    (
      some_left,
      rw (sym same) (unique-AreDistinct words),
      rw (sym same) (none_left (is_known markets) (unique words) known),
    )
