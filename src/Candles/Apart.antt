-- ===== src/Candles/Apart.antt =====
-- No window has two candles, client/app/api/markets/[id]/candles/route.ts.
use kryon_v.Base.{
  All-filterb_self, All-and, ltb, ℕ, ◌≡◌, refl, not, Bool-cases, inl, inr, Bool, true, List, [],
  ◌∷◌, ◌==◌, leb, All, All-map, arith,
}
use kryon_v.Matcher.Sort.{sort, insert, insert-All, IsSorted-filterb, sort-All, IsSorted}
use kryon_v.Candles.{
  FillRow, Candle, distinct_times, candle_of, in_window, append, candles_at, newest_first,
}

-- Two candles of different windows.
abbrev pub apart : Candle → Candle → Bool
apart a b = not (a.time == b.time)

candle_of_time : (t : ℕ) (fs : List FillRow) → All (λ c. c.time ≡ t) (candle_of t fs)
candle_of_time t [] = tt
candle_of_time t (f ∷ fs) = (refl, tt)

candles_at-elsewhere :
    (tf t : ℕ) (rows : List FillRow) (ts : List ℕ)
    → All (λ u. not (u == t) ≡ true) ts
    → All (λ c. not (t == c.time) ≡ true) (candles_at tf rows ts)
unfolding candles_at
candles_at-elsewhere tf t rows [] h = tt
candles_at-elsewhere tf t rows (u ∷ ts) (h, hs) =
    appended (candle_of u (in_window tf rows u)) (candle_of_time u (in_window tf rows u))
      (candles_at-elsewhere tf t rows ts hs)
  where
    appended :
        (cs : List Candle)
        → All (λ c. c.time ≡ u) cs
        → All (λ c. not (t == c.time) ≡ true) (candles_at tf rows ts)
        → All (λ c. not (t == c.time) ≡ true) (append cs (candles_at tf rows ts))
    appended [] e ih = ih
    appended (c ∷ cs) (e, es) ih = (ground arith, ih)

pub distinct_times-AreApart : (ts : List ℕ) → IsSorted (λ t u. not (u == t)) (distinct_times ts)
unfolding distinct_times
distinct_times-AreApart [] = tt
distinct_times-AreApart (t ∷ ts) = (
  All-filterb_self (λ u. not (u == t)) (distinct_times ts),
  IsSorted-filterb (λ t u. not (u == t)) _ (distinct_times ts) (distinct_times-AreApart ts),
)

pub candles_at-AreApart :
    (tf : ℕ) (rows : List FillRow) (ts : List ℕ)
    → IsSorted (λ t u. not (u == t)) ts
    → IsSorted apart (candles_at tf rows ts)
unfolding candles_at
candles_at-AreApart tf rows [] h = tt
candles_at-AreApart tf rows (t ∷ ts) (h, hs) =
    appended (candle_of t (in_window tf rows t)) (candle_of_time t (in_window tf rows t))
      (candles_at-AreApart tf rows ts hs)
  where
    appended :
        (cs : List Candle)
        → All (λ c. c.time ≡ t) cs
        → IsSorted apart (candles_at tf rows ts)
        → IsSorted apart (append cs (candles_at tf rows ts))
    appended [] e ih = ih
    appended (c ∷ cs) (e, es) ih = (rw e (candles_at-elsewhere tf t rows ts h), ih)

insert-AreApart :
    (c : Candle) (cs : List Candle)
    → All (λ d. apart c d ≡ true) cs
    → IsSorted apart cs
    → IsSorted apart (insert newest_first c cs)
unfolding insert
insert-AreApart c [] h hs = (tt, tt)
insert-AreApart c (d ∷ ds) (h, hs) (k, ks) = elim (Bool-cases (newest_first c d)) [
  | inl e ↦ rw e ((h, hs), (k, ks))
  | inr e ↦ rw e (
    insert-All (λ x. apart d x ≡ true) newest_first c ds (ground arith) k,
    insert-AreApart c ds hs ks,
  )
]

pub sort-AreApart : (cs : List Candle) → IsSorted apart cs → IsSorted apart (sort newest_first cs)
unfolding sort
sort-AreApart [] h = tt
sort-AreApart (c ∷ cs) (h, hs) =
    insert-AreApart c (sort newest_first cs) (sort-All (λ d. apart c d ≡ true) newest_first cs h)
      (sort-AreApart cs hs)

-- In order and apart is strictly in order.
pub strictly :
    (cs : List Candle)
    → IsSorted (λ a b. leb a.time b.time) cs
    → IsSorted (λ a b. apart b a) cs
    → IsSorted (λ a b. ltb a.time b.time) cs
strictly [] h k = tt
strictly (c ∷ cs) (h, hs) (k, ks) = (
  All-map _ (λ d. ltb c.time d.time ≡ true) (λ d (x, y). ground arith) cs (All-and _ _ cs h k),
  strictly cs hs ks,
)
