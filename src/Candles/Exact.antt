-- ===== src/Candles/Exact.antt =====
-- A candle against the fills that it stands for, client/app/api/markets/[id]/candles/route.ts.
use mathlib.Core.List.{Memᴰ}
use kryon_v.Base.{
  ℕ, ◌+◌, ◌≤◌, ◌≡◌, ◌⊎◌, refl, sym, ap, ◌∙◌, ◌&&◌, Bool, List, [], ◌∷◌, leb, filterb, All, All-map,
  All-at, All-of, Bool-cases, inl, inr, arith,
}
use kryon_v.Matcher.Sort.{IsSorted, sort, insert}
use kryon_v.Candles.{FillRow, Candle, earlier, highest, lowest, last_price, total, candle_of}

-- Some of the fills has this price and is as early, or as late, as all of them.
abbrev pub IsFirst : List FillRow → ℕ → Type 0
IsFirst fs p =
    (f : FillRow) × Memᴰ f fs × (f.fill_price ≡ p) × All (λ g. f.created_at ≤ g.created_at) fs

abbrev pub IsLast : List FillRow → ℕ → Type 0
IsLast fs p =
    (f : FillRow) × Memᴰ f fs × (f.fill_price ≡ p) × All (λ g. g.created_at ≤ f.created_at) fs

-- The price of one of the fills.
abbrev pub IsPrice : List FillRow → ℕ → Type 0
IsPrice fs p = (f : FillRow) × Memᴰ f fs × (f.fill_price ≡ p)

-- The candle of some fills: it opens at the price of an earliest one, closes at that of a latest one,
-- its high and its low are the highest and the lowest of their prices, its volume the sum of their
-- sizes.
abbrev pub IsCandle : List FillRow → Candle → Type 0
IsCandle fs c =
    IsFirst fs c.open_price
    × IsLast fs c.close_price
    × IsPrice fs c.high
    × All (λ f. f.fill_price ≤ c.high) fs
    × IsPrice fs c.low
    × All (λ f. c.low ≤ f.fill_price) fs
    × (c.volume ≡ total fs)

-- Two lists with the same fills have the same candles.
pub same-IsCandle :
    (fs gs : List FillRow) (c : Candle)
    → ((f : FillRow) → Memᴰ f fs → Memᴰ f gs)
    → ((f : FillRow) → Memᴰ f gs → Memᴰ f fs)
    → total fs ≡ total gs
    → IsCandle fs c
    → IsCandle gs c
same-IsCandle fs gs c to from same
      ((a, i, p, all_a), (b, j, q, all_b), (h, k, r), all_h, (l, m, s), all_l, v) =
    let moved =
      λ (P : FillRow → Type 0) (x : All P fs). All-of P gs (λ f n. All-at P f fs x (from f n)) in
    (
      (a, to a i, p, moved (λ g. a.created_at ≤ g.created_at) all_a),
      (b, to b j, q, moved (λ g. g.created_at ≤ b.created_at) all_b),
      (h, to h k, r),
      moved (λ f. f.fill_price ≤ c.high) all_h,
      (l, to l m, s),
      moved (λ f. c.low ≤ f.fill_price) all_l,
      v ∙ same,
    )

highest-ge : (p : ℕ) (fs : List FillRow) → p ≤ highest p fs
highest-ge p [] = omega arith
highest-ge p (f ∷ fs) = let h = highest-ge p fs in omega arith

lowest-le : (p : ℕ) (fs : List FillRow) → lowest p fs ≤ p
lowest-le p [] = omega arith
lowest-le p (f ∷ fs) = let h = lowest-le p fs in omega arith

highest-All : (p : ℕ) (fs : List FillRow) → All (λ f. f.fill_price ≤ highest p fs) fs
highest-All p [] = tt
highest-All p (f ∷ fs) = (
  omega arith,
  All-map _ (λ g. g.fill_price ≤ highest p (f ∷ fs)) (λ g h. omega arith) fs (highest-All p fs),
)

lowest-All : (p : ℕ) (fs : List FillRow) → All (λ f. lowest p fs ≤ f.fill_price) fs
lowest-All p [] = tt
lowest-All p (f ∷ fs) = (
  omega arith,
  All-map _ (λ g. lowest p (f ∷ fs) ≤ g.fill_price) (λ g h. omega arith) fs (lowest-All p fs),
)

-- The price of a fill, or of one behind it.
highest-IsPrice : (p : ℕ) (fs : List FillRow) → (highest p fs ≡ p) ⊎ IsPrice fs (highest p fs)
highest-IsPrice p [] = inl refl
highest-IsPrice p (f ∷ fs) = elim (Bool-cases (leb f.fill_price (highest p fs))) [
  | inl e ↦
      let same : highest p (f ∷ fs) ≡ highest p fs = ground arith in
      elim (highest-IsPrice p fs) [
        | inl h ↦ inl (same ∙ h)
        | inr (g, i, h) ↦ inr (g, Memᴰ.tail i, h ∙ sym same)
      ]
  | inr e ↦ inr (f, Memᴰ.head refl, ground arith)
]

lowest-IsPrice : (p : ℕ) (fs : List FillRow) → (lowest p fs ≡ p) ⊎ IsPrice fs (lowest p fs)
lowest-IsPrice p [] = inl refl
lowest-IsPrice p (f ∷ fs) = elim (Bool-cases (leb (lowest p fs) f.fill_price)) [
  | inl e ↦
      let same : lowest p (f ∷ fs) ≡ lowest p fs = ground arith in
      elim (lowest-IsPrice p fs) [
        | inl h ↦ inl (same ∙ h)
        | inr (g, i, h) ↦ inr (g, Memᴰ.tail i, h ∙ sym same)
      ]
  | inr e ↦ inr (f, Memᴰ.head refl, ground arith)
]

among :
    (f : FillRow) (fs : List FillRow) (p : ℕ)
    → (p ≡ f.fill_price) ⊎ IsPrice fs p
    → IsPrice (f ∷ fs) p
among f fs p (inl e) = (f, Memᴰ.head refl, sym e)
among f fs p (inr (g, i, e)) = (g, Memᴰ.tail i, e)

last_price-IsLast :
    (f : FillRow) (fs : List FillRow)
    → IsSorted earlier (f ∷ fs)
    → IsLast (f ∷ fs) (last_price f.fill_price fs)
last_price-IsLast f [] h = (f, Memᴰ.head refl, refl, (omega arith, tt))
last_price-IsLast f (g ∷ fs) ((e, es), h) =
    let (l, i, p, all) = last_price-IsLast g fs h in (l, Memᴰ.tail i, p, (ground arith, all))

pub candle_of-IsCandle :
    (time : ℕ) (fs : List FillRow)
    → IsSorted earlier fs
    → All (λ c. (c.time ≡ time) × IsCandle fs c) (candle_of time fs)
candle_of-IsCandle time [] h = tt
candle_of-IsCandle time (f ∷ fs) (h, hs) =
    let p = f.fill_price in
    (
      (
        refl,
        (
          (
            f,
            Memᴰ.head refl,
            refl,
            (omega arith, All-map _ (λ g. f.created_at ≤ g.created_at) (λ g e. ground arith) fs h),
          ),
          last_price-IsLast f fs (h, hs),
          among f fs (highest p fs) (highest-IsPrice p fs),
          (highest-ge p fs, highest-All p fs),
          among f fs (lowest p fs) (lowest-IsPrice p fs),
          (lowest-le p fs, lowest-All p fs),
          refl,
        ),
      ),
      tt,
    )

-- The sum over a part of the fills, in whatever order.
insert-total :
    (p : FillRow → Bool) (f : FillRow) (fs : List FillRow)
    → total (filterb p (insert earlier f fs)) ≡ total (filterb p (f ∷ fs))
unfolding insert
insert-total p f [] = refl
insert-total p f (g ∷ gs) = elim (Bool-cases (earlier f g)) [
  | inl e ↦ rw e refl
  | inr e ↦ rw e (swapped (insert-total p f gs))
]
  where
    swapped :
        total (filterb p (insert earlier f gs)) ≡ total (filterb p (f ∷ gs))
        → total (filterb p (g ∷ insert earlier f gs)) ≡ total (filterb p (f ∷ g ∷ gs))
    swapped ih = ground arith

pub sort-total :
    (p : FillRow → Bool) (fs : List FillRow)
    → total (filterb p (sort earlier fs)) ≡ total (filterb p fs)
unfolding sort
sort-total p [] = refl
sort-total p (f ∷ fs) = insert-total p f (sort earlier fs) ∙ consed (sort-total p fs)
  where
    consed :
        total (filterb p (sort earlier fs)) ≡ total (filterb p fs)
        → total (filterb p (f ∷ sort earlier fs)) ≡ total (filterb p (f ∷ fs))
    consed ih = elim (Bool-cases (p f)) [
      | inl e ↦ rw e (ap (λ n. f.fill_size + n) ih)
      | inr e ↦ rw e ih
    ]

pub filterb-filterb :
    (p q : FillRow → Bool) (fs : List FillRow)
    → filterb q (filterb p fs) ≡ filterb (λ f. p f && q f) fs
filterb-filterb p q [] = refl
filterb-filterb p q (f ∷ fs) = elim (Bool-cases (p f)) [
  | inl e ↦ elim (Bool-cases (q f)) [
    | inl g ↦ rw (e, g) (ap (λ xs. f ∷ xs) (filterb-filterb p q fs))
    | inr g ↦ rw (e, g) (filterb-filterb p q fs)
  ]
  | inr e ↦ rw e (filterb-filterb p q fs)
]
