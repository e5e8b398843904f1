-- ===== src/Oracle/Median/Agreed.antt =====
-- What an agreed price of client/scripts/oracle-keeper.ts comes from.
use kryon_v.Base.{
  ℕ, ◌-◌, ◌/◌, ◌≤◌, ◌≡◌, refl, ap, ◌∙◌, Option, none, some, List, ltb, length, get_elem?,
  Bool-cases, inl, inr, arith,
}
use kryon_v.Oracle.{AggregatedPrice}
use kryon_v.Oracle.Median.{
  Double, scaled, half_of, spread_bps, sorted_prices, median, confidence_of, agreed, too_few,
  too_far, agreed_on, aggregate_from, aggregate_price, scaled_or_throws,
}

widest : (p w : ℕ) → p / 1000 ≤ confidence_of p w
unfolding confidence_of
widest p w = ground arith

module _ {D : Type 0} ⦃d : Double D⦄ where
  -- The price is the median, and its confidence at least a thousandth of it.
  abbrev pub IsMedian : List D → AggregatedPrice → Type 0
  IsMedian prices a =
      ((m : D) × (median prices ≡ some m) × (scaled m ≡ some a.price))
      × (a.price / 1000 ≤ a.confidence)

  module _ (xs : List D) (a : AggregatedPrice) (n k : ℕ) where
    agreed_on-scaled :
        (m : D) (o r : Option ℕ)
        → median xs ≡ some m
        → scaled m ≡ o
        → agreed_on n o r ≡ agreed a k
        → (n ≡ k) × IsMedian xs a
    agreed_on-scaled m none r e q h = ground arith
    agreed_on-scaled m (some p) none e q h = ground arith
    agreed_on-scaled m (some p) (some w) e q h =
        let t = widest p w in
        let ep : p ≡ a.price = ground arith in
        (ground arith, ((m, e, q ∙ ap some ep), ground arith))

    agreed_on-median :
        (o : Option D) (r : Option ℕ)
        → median xs ≡ o
        → agreed_on n (scaled_or_throws o) r ≡ agreed a k
        → (n ≡ k) × IsMedian xs a
    agreed_on-median none r e h = ground arith
    agreed_on-median (some m) r e h = agreed_on-scaled m (scaled m) r e refl h

  module _ (limit : D) (xs : List D) (a : AggregatedPrice) (k : ℕ) where
    aggregate_from-agreed :
        (first last : Option D)
        → aggregate_from limit xs first last ≡ agreed a k
        → (length xs ≡ k) × IsMedian xs a
    aggregate_from-agreed none last h = ground arith
    aggregate_from-agreed (some x) none h = ground arith
    aggregate_from-agreed (some x) (some y) h = elim (Bool-cases (d.le (spread_bps x y) limit)) [
      | inl near ↦
          agreed_on-median xs a (length xs) k (median xs) (scaled (half_of (d.minus y x))) refl
            (rw near at h)
      | inr far ↦ let h' : too_far ≡ agreed a k = rw far at h in ground arith
    ]

  pub aggregate_price-agreed :
      (min_sources : ℕ) (limit : D) (answers : List (Option D)) (a : AggregatedPrice) (n : ℕ)
      → aggregate_price min_sources limit answers ≡ agreed a n
      → (min_sources ≤ n)
        × (length (sorted_prices answers) ≡ n)
        × IsMedian (sorted_prices answers) a
  unfolding aggregate_price
  aggregate_price-agreed min_sources limit answers a n h =
      let xs = sorted_prices answers in
      elim (Bool-cases (ltb (length xs) min_sources)) [
        | inl few ↦ let h' : too_few ≡ agreed a n = rw few at h in ground arith
        | inr enough ↦
            let (e, m) =
              aggregate_from-agreed limit xs a n (get_elem? xs 0) (get_elem? xs (length xs - 1))
                (rw enough at h) in
            (ground arith, e, m)
      ]
