-- ===== src/Stream/Sets.antt =====
-- JavaScript's Set as a list in the order of insertion.
use kryon_v.Base.{
  ◌≡◌, refl, sym, Bool, true, false, not, ◌&&◌, ◌||◌, List, [], ◌∷◌, ◌++◌, if◌then◌else◌, filterb,
  someb, All, All-append, All-filterb, Bool-cases, inl, inr, arith,
}

module _ {A : Type 0} (eq : A → A → Bool) where
  abbrev pub has : A → List A → Bool
  has x xs = someb (eq x) xs

  -- `set.add(x)`
  unfoldable pub adjoin : A → List A → List A
  adjoin x xs = if has x xs then xs else xs ++ x ∷ []

  -- `set.delete(x)`
  unfoldable pub without : A → List A → List A
  without x xs = filterb (λ y. not (eq x y)) xs

  -- Each element once.
  abbrev pub IsDistinct : List A → Type 0
  IsDistinct [] = Unit
  IsDistinct (x ∷ xs) = All (λ y. eq x y ≡ false) xs × IsDistinct xs

  someb_append : (p : A → Bool) (xs ys : List A) → someb p (xs ++ ys) ≡ (someb p xs || someb p ys)
  someb_append p [] ys = refl
  someb_append p (x ∷ xs) ys = ground (arith, someb_append p xs ys)

  pub filterb-IsDistinct : (p : A → Bool) (xs : List A) → IsDistinct xs → IsDistinct (filterb p xs)
  filterb-IsDistinct p [] h = tt
  filterb-IsDistinct p (x ∷ xs) (h, hs) = elim (Bool-cases (p x)) [
    | inl e ↦ rw e (All-filterb (λ y. eq x y ≡ false) p xs h, filterb-IsDistinct p xs hs)
    | inr e ↦ rw e (filterb-IsDistinct p xs hs)
  ]

  pub without-IsDistinct : (x : A) (xs : List A) → IsDistinct xs → IsDistinct (without x xs)
  unfolding without
  without-IsDistinct x xs h = filterb-IsDistinct _ xs h

  module _ (lawful : (x y : A) → eq x y ≡ true → x ≡ y) (reflexive : (x : A) → eq x x ≡ true) where
    pub has-adjoin : (x y : A) (xs : List A) → has y (adjoin x xs) ≡ (has y xs || eq y x)
    unfolding adjoin
    has-adjoin x y xs = elim (Bool-cases (has x xs)) [
      | inl e ↦ elim (Bool-cases (eq y x)) [
        | inl same ↦ rw (lawful y x same) (rw e e)
        | inr apart ↦ rw (e, apart) (ground arith)
      ]
      | inr e ↦ rw (e, someb_append (eq y) xs (x ∷ [])) (ground arith)
    ]

    pub has-filterb :
        (p : A → Bool) (y : A) (xs : List A) → has y (filterb p xs) ≡ (has y xs && p y)
    has-filterb p y [] = refl
    has-filterb p y (x ∷ xs) =
        let rest = has-filterb p y xs in
        elim (Bool-cases (eq y x)) [
          | inl same ↦ rw (sym (lawful y x same)) (elim (Bool-cases (p y)) [
            | inl e ↦ rw (e, reflexive y) refl
            | inr e ↦ rw (e, reflexive y, rest, e) (ground arith)
          ])
          | inr apart ↦ elim (Bool-cases (p x)) [
            | inl e ↦ rw (e, apart) rest
            | inr e ↦ rw (e, apart) rest
          ]
        ]

    pub has-without : (x y : A) (xs : List A) → has y (without x xs) ≡ (has y xs && not (eq x y))
    unfolding without
    has-without x y xs = has-filterb _ y xs

    All-apart : (x : A) (xs : List A) → has x xs ≡ false → All (λ y. eq y x ≡ false) xs
    All-apart x [] h = tt
    All-apart x (y ∷ ys) h = elim (Bool-cases (eq y x)) [
      | inl e ↦ let same : eq x y ≡ true = rw (lawful y x e) (reflexive x) in ground arith
      | inr e ↦ (e, All-apart x ys (ground arith))
    ]

    IsDistinct-snoc :
        (x : A) (xs : List A) → IsDistinct xs → has x xs ≡ false → IsDistinct (xs ++ x ∷ [])
    IsDistinct-snoc x [] h n = (tt, tt)
    IsDistinct-snoc x (y ∷ ys) (h, hs) n = (
      All-append (λ z. eq y z ≡ false) ys (x ∷ []) h ((All-apart x (y ∷ ys) n).0, tt),
      IsDistinct-snoc x ys hs (ground arith),
    )

    pub adjoin-IsDistinct : (x : A) (xs : List A) → IsDistinct xs → IsDistinct (adjoin x xs)
    unfolding adjoin
    adjoin-IsDistinct x xs h = elim (Bool-cases (has x xs)) [
      | inl e ↦ rw e h
      | inr e ↦ rw e (IsDistinct-snoc x xs h e)
    ]
