-- ===== src/Book/Tests.antt =====
-- A book of three orders on whole dollars.
use kryon_v.Base.{
  ℕ, ◌+◌, ◌-◌, ◌/◌, ◌≡◌, refl, Bool, true, false, none, some, List, [], ◌∷◌, leb, Text, codes,
  text_eq, arith,
}
use kryon_v.Store.{Order}
use kryon_v.Matcher.Sort.{sort, insert, IsSorted}
use kryon_v.Stats.Keyed.{lookup}
use kryon_v.Book.{
  Doubles, higher_first, lower_first, levels_of, fetch_order_book, rows_of, is_shown, add_rows,
  add_row, add_order, get_order_book, book_200,
}
use kryon_v.Book.Levels.{price_of, level_at, longs, shorts, AreLevels, levels_of-IsBook}

abbrev value_of : Text → ℕ
value_of [] = 0
value_of (c ∷ s) = c

total_le : (a b : ℕ) → leb a b ≡ false → leb b a ≡ true
total_le a b h = ground arith

trans_le : (a b c : ℕ) → leb a b ≡ true → leb b c ≡ true → leb a c ≡ true
trans_le a b c h i = ground arith

-- One code unit for a price.
abbrev dollars : Doubles ℕ
dollars = record {
  price_text = λ p. p / 100 ∷ [];
  nought = 0;
  amount = λ size filled. size - filled;
  plus = λ a b. a + b;
  size_text = λ n. n ∷ [];
  parsed_le = λ s t. leb (value_of s) (value_of t);
}

abbrev order_of : Bool → ℕ → ℕ → Order
order_of is_long price filled = record {
  id = codes "o";
  owner = codes "G";
  market_id = 1;
  is_long = is_long;
  size = 10;
  limit_price = price;
  reduce_only = false;
  nonce = 1;
  expiry_ts = 5;
  cancelled = false;
  filled_size = filled;
  created_at = 0;
  signature = none;
}

abbrev orders : List Order
orders = order_of true 9910 4 ∷ order_of true 9950 0 ∷ order_of false 10100 0 ∷ []

-- Two bids round to the same level.
shown :
    get_order_book dollars 0 true (some 1) orders
    ≡ book_200 (record {
      bids = (record { price = 99 ∷ []; size = 16 ∷ [] }) ∷ [];
      asks = (record { price = 101 ∷ []; size = 10 ∷ [] }) ∷ [];
      timestamp = 0;
    })
unfolding get_order_book fetch_order_book levels_of rows_of is_shown add_rows add_row add_order
    text_eq sort insert
shown = refl

levels_of-IsBook_example :
    (lookup price_of (99 ∷ []) (levels_of dollars orders).0
      ≡ level_at dollars (99 ∷ []) (longs orders) none)
    × (lookup price_of (99 ∷ []) (levels_of dollars orders).1
        ≡ level_at dollars (99 ∷ []) (shorts orders) none)
    × AreLevels (levels_of dollars orders).0
    × AreLevels (levels_of dollars orders).1
    × IsSorted (higher_first dollars) (levels_of dollars orders).0
    × IsSorted (lower_first dollars) (levels_of dollars orders).1
levels_of-IsBook_example =
    levels_of-IsBook dollars (λ s t h. total_le (value_of s) (value_of t) h)
      (λ s t u h i. trans_le (value_of s) (value_of t) (value_of u) h i) orders (99 ∷ [])
