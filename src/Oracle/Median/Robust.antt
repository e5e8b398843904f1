-- ===== src/Oracle/Median/Robust.antt =====
-- The median of the venues' prices, client/scripts/oracle-keeper.ts, against venues that are wrong.
use kryon_v.Base.{
  ℕ, ◌+◌, ◌-◌, ◌*◌, ◌/◌, ◌%◌, ◌≤◌, ◌<◌, ◌≡◌, refl, sym, Bool, true, false, not, ◌&&◌, Option, none,
  some, List, ◌==◌, length, countb, get_elem?, Bool-cases, inl, inr, arith,
}
use kryon_v.Matcher.Sort.{sort, IsSorted, sort-IsSorted}
use kryon_v.Oracle.{AggregatedPrice}
use kryon_v.Oracle.Median.{
  Double, IsDouble, ◌≼◌, scaled, half_of, fulfilled, sorted_prices, mean, median, agreed,
  aggregate_price,
}
use kryon_v.Oracle.Median.Agreed.{aggregate_price-agreed}
use kryon_v.Oracle.Median.Counts.{
  countb-sort, get_elem?-low, get_elem?-high, countb_apart, length-sort, get_elem?-IsSorted,
}

is_false : (b : Bool) → not b ≡ true → b ≡ false
is_false b h = ground arith

is_true : (b : Bool) → not b ≡ false → b ≡ true
is_true b h = ground arith

module _ {D : Type 0} ⦃d : Double D⦄ ⦃laws : IsDouble D⦄ where
  -- The answers that lie between two prices.
  abbrev pub inside : D → D → D → Bool
  inside lo hi x = d.le lo x && d.le x hi

  module _ (lo hi : D) where
    abbrev below : D → Bool
    below x = not (d.le lo x)

    abbrev above : D → Bool
    above x = not (d.le x hi)

    get_elem?-above_lo :
        (xs : List D) (k : ℕ) (a : D)
        → IsSorted d.le xs
        → countb below xs ≤ k
        → get_elem? xs k ≡ some a
        → lo ≼ a
    get_elem?-above_lo xs k a s c e =
        is_true (d.le lo a) (get_elem?-low d.le below climbs xs k a s c e)
      where
        climbs : (x y : D) → d.le x y ≡ true → below x ≡ false → below y ≡ false
        climbs x y xy h = rw (laws.le_trans lo x y (is_true (d.le lo x) h) xy) refl

    get_elem?-below_hi :
        (xs : List D) (k : ℕ) (a : D)
        → IsSorted d.le xs
        → countb above xs + k < length xs
        → get_elem? xs k ≡ some a
        → a ≼ hi
    get_elem?-below_hi xs k a s c e =
        is_true (d.le a hi) (get_elem?-high d.le above stays xs k a s c e)
      where
        stays : (x y : D) → d.le x y ≡ true → above x ≡ true → above y ≡ true
        stays x y xy h = elim (Bool-cases (d.le y hi)) [
          | inl q ↦
              let t = laws.le_trans x y hi xy q in let f = is_false (d.le x hi) h in ground arith
          | inr q ↦ rw q refl
        ]

    mean-inside :
        (o r : Option D) (m : D)
        → mean o r ≡ some m
        → d.is_finite m ≡ true
        → ((x y : D) → o ≡ some x → r ≡ some y → (lo ≼ x) × (x ≼ y) × (y ≼ hi))
        → (lo ≼ m) × (m ≼ hi)
    mean-inside none r m e f h = ground arith
    mean-inside (some x) none m e f h = ground arith
    mean-inside (some x) (some y) m e f h =
        let (a, b, c) = h x y refl refl in
        let e' : half_of (d.plus x y) ≡ m = ground arith in
        let (p, q) = laws.mean_between x y b (laws.half_finite (d.plus x y) (rw e' f)) in
        (
          rw (sym e') (laws.le_trans lo x (half_of (d.plus x y)) a p),
          rw (sym e') (laws.le_trans (half_of (d.plus x y)) y hi q c),
        )

    median-inside :
        (xs : List D) (m : D)
        → IsSorted d.le xs
        → 2 * countb below xs < length xs
        → 2 * countb above xs < length xs
        → median xs ≡ some m
        → d.is_finite m ≡ true
        → (lo ≼ m) × (m ≼ hi)
    unfolding median
    median-inside xs m s below_few above_few e f = elim (Bool-cases (length xs % 2 == 1)) [
      | inl odd ↦
          let e' : get_elem? xs ((length xs - 1) / 2) ≡ some m = rw odd at e in
          (
            get_elem?-above_lo xs _ m s (ground arith) e',
            get_elem?-below_hi xs _ m s (ground arith) e',
          )
      | inr even ↦
          let e' : mean (get_elem? xs (length xs / 2 - 1)) (get_elem? xs (length xs / 2)) ≡ some m =
            rw even at e in
          mean-inside _ _ m e' f λ x y ex ey. (
            get_elem?-above_lo xs _ x s (ground arith) ex,
            get_elem?-IsSorted d.le xs _ _ x y (ground arith) s ex ey,
            get_elem?-below_hi xs _ y s (ground arith) ey,
          )
    ]

    inside-not-below : (x : D) → inside lo hi x ≡ true → below x ≡ false
    inside-not-below x h = ground arith

    inside-not-above : (x : D) → inside lo hi x ≡ true → above x ≡ false
    inside-not-above x h = ground arith

  sorted : (xs : List D) → IsSorted d.le (sort d.le xs)
  sorted xs =
      sort-IsSorted d.le (λ x y e. elim (laws.le_total x y) [ inl h ↦ ground arith | inr h ↦ h ])
        laws.le_trans xs

  -- Where more than half of the venues that answer give a price between two bounds, a price that the
  -- keeper agrees on lies between the same bounds, scaled, whatever the other venues answer.
  pub aggregate_price_majority :
      (min_sources : ℕ) (limit : D) (answers : List (Option D)) (lo hi : D) (l h : ℕ)
      (a : AggregatedPrice) (n : ℕ)
      → scaled lo ≡ some l
      → scaled hi ≡ some h
      → length (fulfilled answers) < 2 * countb (inside lo hi) (fulfilled answers)
      → aggregate_price min_sources limit answers ≡ agreed a n
      → (l ≤ a.price) × (a.price ≤ h)
  unfolding sorted_prices
  aggregate_price_majority min_sources limit answers lo hi l h a n el eh most e =
      let xs = fulfilled answers in
      let (_, _, ((m, em, es), _)) = aggregate_price-agreed min_sources limit answers a n e in
      let low = countb_apart (inside lo hi) (below lo hi) (inside-not-below lo hi) xs in
      let high = countb_apart (inside lo hi) (above lo hi) (inside-not-above lo hi) xs in
      let size = length-sort d.le xs in
      let low' = countb-sort (below lo hi) d.le xs in
      let high' = countb-sort (above lo hi) d.le xs in
      let (p, q) =
        median-inside lo hi (sort d.le xs) m (sorted xs) (omega arith) (omega arith) em
          (laws.scaled_finite m a.price es) in
      (laws.scaled_mono lo m l a.price p el es, laws.scaled_mono m hi a.price h q es eh)
