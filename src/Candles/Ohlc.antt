-- ===== src/Candles/Ohlc.antt =====
-- What a candle shows, client/app/api/markets/[id]/candles/route.ts.
use mathlib.Core.Path.{subst}
use mathlib.Core.List.{Memᴰ}
use kryon_v.Candles.Apart.{
  apart, distinct_times-AreApart, candles_at-AreApart, sort-AreApart, strictly,
}
use kryon_v.Candles.Exact.{IsCandle, same-IsCandle, candle_of-IsCandle, sort-total, filterb-filterb}
use kryon_v.Base.{
  All-at, All-Memᴰ, filterb-mem, mem-filterb, ltb, ◌&&◌, ◌*◌, ◌/◌, ℕ, ◌≡◌, refl, sym, ap, ◌∙◌, ◌||◌,
  not, someb, Bool-cases, inl, inr, Bool, true, false, List, [], ◌∷◌, ◌==◌, map, filterb, All,
  All-map, All-take, All-reverse, arith,
}
use kryon_v.Matcher.Sort.{
  sort, sort-All_inv, IsSorted-filterb, sort-All, sort-IsSorted, IsSorted, IsSorted-take,
  IsSorted-reverse,
}
use kryon_v.Candles.{
  earlier, FillRow, Candle, window, bucketed, distinct_times, total, candle_of, in_window, append,
  candles_at, newest_first, candles,
}

-- The fills of a market in the window that starts at a time.
pub fills_in : ℕ → ℕ → ℕ → List FillRow → List FillRow
fills_in market_id tf time fills =
    filterb (λ f. f.market_id == market_id && (f.created_at / (1000 * tf) * tf == time)) fills

bucketed-IsSorted :
    (market_id : ℕ) (fills : List FillRow) → IsSorted earlier (bucketed market_id fills)
unfolding bucketed
bucketed-IsSorted market_id fills =
    sort-IsSorted earlier (λ a b h. ground arith) (λ a b c h k. ground arith) _

module _ (market_id tf : ℕ) (fills : List FillRow) where
  -- The group of a window, against the table.
  in_window-IsCandle :
      (t : ℕ) (c : Candle)
      → IsCandle (in_window tf (bucketed market_id fills) t) c
      → IsCandle (fills_in market_id tf t fills) c
  unfolding bucketed fills_in
  in_window-IsCandle t c =
      let mine = λ (f : FillRow). f.market_id == market_id in
      let here = λ (f : FillRow). window tf f == t in
      let xs = filterb mine fills in
      let same = filterb-filterb mine here fills in
      same-IsCandle (filterb here (sort earlier xs)) _ c
        (λ f i.
          let (j, h) = filterb-mem here f (sort earlier xs) i in
          let k =
            All-at (λ x. Memᴰ x xs) f (sort earlier xs)
              (sort-All (λ x. Memᴰ x xs) earlier xs (All-Memᴰ xs)) j in
          subst (Memᴰ f) same (mem-filterb here f xs k h))
        (λ f i.
          let (j, h) = filterb-mem here f xs (subst (Memᴰ f) (sym same) i) in
          let k =
            All-at (λ x. Memᴰ x (sort earlier xs)) f xs
              (sort-All_inv (λ x. Memᴰ x (sort earlier xs)) earlier xs (All-Memᴰ (sort earlier xs)))
              j in
          mem-filterb here f (sort earlier xs) k h)
        (sort-total here xs ∙ ap total same)

  candles_at-IsCandle :
      (ts : List ℕ)
      → All
          (λ c. IsCandle (fills_in market_id tf c.time fills) c)
          (candles_at tf (bucketed market_id fills) ts)
  unfolding candles_at
  candles_at-IsCandle [] = tt
  candles_at-IsCandle (t ∷ ts) =
      let rows = bucketed market_id fills in
      appended (candle_of t (in_window tf rows t))
        (candle_of-IsCandle t (in_window tf rows t)
          (IsSorted-filterb earlier _ rows (bucketed-IsSorted market_id fills)))
        (candles_at-IsCandle ts)
    where
      appended :
          (cs : List Candle)
          → All (λ c. (c.time ≡ t) × IsCandle (in_window tf (bucketed market_id fills) t) c) cs
          → All
              (λ c. IsCandle (fills_in market_id tf c.time fills) c)
              (candles_at tf (bucketed market_id fills) ts)
          → All
              (λ c. IsCandle (fills_in market_id tf c.time fills) c)
              (append cs (candles_at tf (bucketed market_id fills) ts))
      appended [] h ih = ih
      appended (c ∷ cs) ((e, h), hs) ih = (
        subst (λ u. IsCandle (fills_in market_id tf u fills) c) (sym e) (in_window-IsCandle t c h),
        ih,
      )

filterb_some :
    (p : FillRow → Bool) (xs : List FillRow)
    → someb p xs ≡ true
    → (f : FillRow) × (fs : List FillRow) × (filterb p xs ≡ f ∷ fs)
filterb_some p [] h = ground arith
filterb_some p (x ∷ xs) h = elim (Bool-cases (p x)) [
  | inl e ↦ (x, filterb p xs, rw e refl)
  | inr e ↦ let (f, fs, g) = filterb_some p xs (rw e at h) in (f, fs, rw e g)
]

keeps_other :
    (t u : ℕ) (ts : List ℕ)
    → (u == t) ≡ false
    → someb (λ v. v == t) ts ≡ true
    → someb (λ v. v == t) (filterb (λ v. not (v == u)) ts) ≡ true
keeps_other t u [] n h = h
keeps_other t u (v ∷ ts) n h = elim (Bool-cases (v == t)) [
  | inl e ↦ let other : (v == u) ≡ false = ground arith in rw other (rw e refl)
  | inr e ↦
      let h' : someb (λ w. w == t) ts ≡ true = rw e at h in
      let ih = keeps_other t u ts n h' in
      elim (Bool-cases (v == u)) [ inl f ↦ rw f ih | inr f ↦ rw f (rw e ih) ]
]

distinct_times-someb :
    (t : ℕ) (ts : List ℕ)
    → someb (λ v. v == t) ts ≡ true
    → someb (λ v. v == t) (distinct_times ts) ≡ true
unfolding distinct_times
distinct_times-someb t [] h = h
distinct_times-someb t (u ∷ ts) h = elim (Bool-cases (u == t)) [
  | inl e ↦ rw e refl
  | inr e ↦ rw e (keeps_other t u (distinct_times ts) e (distinct_times-someb t ts (rw e at h)))
]

module _ (tf : ℕ) (rows : List FillRow) where
  has_candle :
      (t : ℕ) (ts : List ℕ)
      → someb (λ f. window tf f == t) rows ≡ true
      → someb (λ u. u == t) ts ≡ true
      → someb (λ c. c.time == t) (candles_at tf rows ts) ≡ true
  unfolding candles_at
  has_candle t [] some_fill h = h
  has_candle t (u ∷ ts) some_fill h = elim (Bool-cases (u == t)) [
    | inl e ↦
        let same : t ≡ u = ground arith in
        let (f, fs, g) = filterb_some (λ f. window tf f == u) rows (rw same at some_fill) in
        rw g (rw e refl)
    | inr e ↦ passed_by (candle_of u (in_window tf rows u)) (has_candle t ts some_fill (rw e at h))
  ]
    where
      passed_by :
          (cs : List Candle)
          → someb (λ c. c.time == t) (candles_at tf rows ts) ≡ true
          → someb (λ c. c.time == t) (append cs (candles_at tf rows ts)) ≡ true
      passed_by [] ih = ih
      passed_by (c ∷ cs) ih = ground arith

  -- Some fills of which each has one of the same window among others.
  windows_found :
      (fs : List FillRow) → All (λ f. someb (λ g. window tf g == window tf f) fs ≡ true) fs
  windows_found [] = tt
  windows_found (f ∷ fs) = (
    ground arith,
    All-map (λ h. someb (λ g. window tf g == window tf h) fs ≡ true)
        (λ h. someb (λ g. window tf g == window tf h) (f ∷ fs) ≡ true) (λ h e. ground arith) fs
        (windows_found fs),
  )

  someb-map :
      (t : ℕ) (fs : List FillRow)
      → someb (λ u. u == t) (map (window tf) fs) ≡ someb (λ g. window tf g == t) fs
  someb-map t [] = refl
  someb-map t (f ∷ fs) = ap (λ b. (window tf f == t) || b) (someb-map t fs)

  -- A candle of a fill's window, before the limit.
  abbrev pub HasCandle : FillRow → Type 0
  HasCandle f =
      someb (λ c. c.time == window tf f)
        (candles_at tf rows (distinct_times (map (window tf) rows)))
      ≡ true

  -- Before the limit, the window of each fill has a candle.
  pub candles_at-covers : All HasCandle rows
  candles_at-covers =
      All-map (λ f. someb (λ g. window tf g == window tf f) rows ≡ true) HasCandle
        (λ f e. has_candle (window tf f) (distinct_times (map (window tf) rows)) e (
          distinct_times-someb (window tf f) (map (window tf) rows)
            (someb-map (window tf f) rows ∙ e)))
        rows (windows_found rows)

-- Every candle of the chart is that of the market's fills in its window of the table: it opens at the
-- price of an earliest one and closes at that of a latest one, its high and its low are the highest and
-- the lowest of their prices, and its volume is the sum of their sizes. The candles are strictly in the
-- order of time, the oldest first, so that no window has two; and before the limit the window of each
-- fill of the market has one.
pub candles-IsChart :
    (market_id tf limit : ℕ) (fills : List FillRow)
    → All (λ c. IsCandle (fills_in market_id tf c.time fills) c) (candles market_id tf limit fills)
      × IsSorted (λ a b. ltb a.time b.time) (candles market_id tf limit fills)
      × All (λ f. HasCandle tf (bucketed market_id fills) f) (bucketed market_id fills)
unfolding candles
candles-IsChart market_id tf limit fills =
    let rows = bucketed market_id fills in
    let ts = distinct_times (map (window tf) rows) in
    let cs = candles_at tf rows ts in
    let P = λ (c : Candle). IsCandle (fills_in market_id tf c.time fills) c in
    (
      All-reverse P _ (
          All-take P limit _
            (sort-All P newest_first cs (candles_at-IsCandle market_id tf fills ts))),
      strictly _
          (IsSorted-reverse newest_first _ (
            IsSorted-take newest_first limit _
              (sort-IsSorted newest_first (λ a b h. ground arith) (λ a b c h k. ground arith) cs)))
          (IsSorted-reverse apart _ (
            IsSorted-take apart limit _
              (sort-AreApart cs (candles_at-AreApart tf rows ts (distinct_times-AreApart _))))),
      candles_at-covers tf rows,
    )
