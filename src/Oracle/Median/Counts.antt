-- ===== src/Oracle/Median/Counts.antt =====
-- Positions of a sorted list by how many of its elements pass a test, for the median of
-- client/scripts/oracle-keeper.ts.
use kryon_v.Base.{
  ℕ, zero, suc, ◌+◌, ◌≤◌, ◌<◌, ◌≡◌, refl, ap, sym, ◌∙◌, Bool, true, false, some, List, [], ◌∷◌,
  length, countb, get_elem?, All, Bool-cases, inl, inr, arith, if◌then◌else◌,
}
use kryon_v.Matcher.Sort.{insert, sort, IsSorted}

module _ {ℓ} {A : Type ℓ} (p : A → Bool) where
  abbrev countb_to : A → ℕ → ℕ
  countb_to x n = if p x then suc n else n

  countb-insert :
      (before : A → A → Bool) (x : A) (xs : List A)
      → countb p (insert before x xs) ≡ countb_to x (countb p xs)
  unfolding insert
  countb-insert before x [] = refl
  countb-insert before x (y ∷ ys) = elim (Bool-cases (before x y)) [
    | inl e ↦ rw e refl
    | inr e ↦ rw (e, countb-insert before x ys) (swap (p x) (p y) (countb p ys))
  ]
    where
      swap :
          (b c : Bool) (n : ℕ)
          → (if c then suc (if b then suc n else n) else (if b then suc n else n))
            ≡ (if b then suc (if c then suc n else n) else (if c then suc n else n))
      swap b c n = ground arith

  -- Sorting keeps the count.
  pub countb-sort : (before : A → A → Bool) (xs : List A) → countb p (sort before xs) ≡ countb p xs
  unfolding sort
  countb-sort before [] = refl
  countb-sort before (x ∷ xs) =
      countb-insert before x (sort before xs) ∙ ap (countb_to x) (countb-sort before xs)

  pub countb-le-length : (xs : List A) → countb p xs ≤ length xs
  countb-le-length [] = omega arith
  countb-le-length (x ∷ xs) =
      let h = countb-le-length xs in
      elim (Bool-cases (p x)) [ inl e ↦ rw e (omega arith) | inr e ↦ rw e (omega arith) ]

  countb_none : (xs : List A) → All (λ y. p y ≡ false) xs → countb p xs ≡ 0
  countb_none [] h = refl
  countb_none (x ∷ xs) (h, hs) = rw h (countb_none xs hs)

module _ {ℓ} {A : Type ℓ} (before : A → A → Bool) (p : A → Bool) where
  none_behind :
      (up : (x y : A) → before x y ≡ true → p x ≡ false → p y ≡ false) (x : A) (xs : List A)
      → p x ≡ false
      → All (λ y. before x y ≡ true) xs
      → All (λ y. p y ≡ false) xs
  none_behind up x [] e h = tt
  none_behind up x (y ∷ ys) e (h, hs) = (up x y h e, none_behind up x ys e hs)

  some_behind :
      (down : (x y : A) → before x y ≡ true → p x ≡ true → p y ≡ true) (x : A) (xs : List A)
      → p x ≡ true
      → All (λ y. before x y ≡ true) xs
      → countb p xs ≡ length xs
  some_behind down x [] e h = refl
  some_behind down x (y ∷ ys) e (h, hs) = rw (down x y h e) (ap suc (some_behind down x ys e hs))

All-get_elem? {ℓ} :
    {A : Type ℓ} (p : A → Bool) (b : Bool) (xs : List A) (k : ℕ) (a : A)
    → All (λ y. p y ≡ b) xs
    → get_elem? xs k ≡ some a
    → p a ≡ b
All-get_elem? p b [] k a h e = ground arith
All-get_elem? p b (x ∷ xs) zero a (h, hs) e = cc
All-get_elem? p b (x ∷ xs) (suc k) a (h, hs) e = All-get_elem? p b xs k a hs e

-- Neighbours in a sorted list are in order.
pub get_elem?-IsSorted {ℓ} :
    {A : Type ℓ} (before : A → A → Bool) (xs : List A) (k j : ℕ) (a b : A)
    → suc k ≡ j
    → IsSorted before xs
    → get_elem? xs k ≡ some a
    → get_elem? xs j ≡ some b
    → before a b ≡ true
get_elem?-IsSorted before [] k j a b n h e f = ground arith
get_elem?-IsSorted before (x ∷ xs) k zero a b n h e f = ground arith
get_elem?-IsSorted before (x ∷ xs) zero (suc j) a b n (h, hs) e f =
    let q = All-get_elem? (before x) true xs j b h f in cc
get_elem?-IsSorted before (x ∷ xs) (suc k) (suc j) a b n (h, hs) e f =
    get_elem?-IsSorted before xs k j a b (ground arith) hs e f

module _ {ℓ} {A : Type ℓ} (before : A → A → Bool) (p : A → Bool) where
  -- Where the elements that pass come first, one at a position at or after their number fails.
  pub get_elem?-low :
      (up : (x y : A) → before x y ≡ true → p x ≡ false → p y ≡ false) (xs : List A) (k : ℕ) (a : A)
      → IsSorted before xs
      → countb p xs ≤ k
      → get_elem? xs k ≡ some a
      → p a ≡ false
  get_elem?-low up [] k a s c e = ground arith
  get_elem?-low up (x ∷ xs) zero a (h, hs) c e = elim (Bool-cases (p x)) [
    | inl q ↦ let c' : suc (countb p xs) ≤ 0 = rw q at c in ground arith
    | inr q ↦ All-get_elem? p false (x ∷ xs) 0 a (q, none_behind before p up x xs q h) e
  ]
  get_elem?-low up (x ∷ xs) (suc k) a (h, hs) c e = elim (Bool-cases (p x)) [
    | inl q ↦
        let c' : suc (countb p xs) ≤ suc k = rw q at c in get_elem?-low up xs k a hs (omega arith) e
    | inr q ↦ All-get_elem? p false xs k a (none_behind before p up x xs q h) e
  ]

  -- Where they come last, one that has more behind it than pass fails.
  pub get_elem?-high :
      (down : (x y : A) → before x y ≡ true → p x ≡ true → p y ≡ true) (xs : List A) (k : ℕ) (a : A)
      → IsSorted before xs
      → countb p xs + k < length xs
      → get_elem? xs k ≡ some a
      → p a ≡ false
  get_elem?-high down [] k a s c e = ground arith
  get_elem?-high down (x ∷ xs) zero a (h, hs) c e = elim (Bool-cases (p x)) [
    | inl q ↦
        let full = some_behind before p down x xs q h in
        let c' : suc (countb p xs) + 0 < suc (length xs) = rw q at c in ground arith
    | inr q ↦ cc
  ]
  get_elem?-high down (x ∷ xs) (suc k) a (h, hs) c e = elim (Bool-cases (p x)) [
    | inl q ↦
        let full = some_behind before p down x xs q h in
        let c' : suc (countb p xs) + suc k < suc (length xs) = rw q at c in ground arith
    | inr q ↦
        let c' : countb p xs + suc k < suc (length xs) = rw q at c in
        get_elem?-high down xs k a hs (omega arith) e
  ]

module _ {ℓ} {A : Type ℓ} (p q : A → Bool) (apart : (x : A) → p x ≡ true → q x ≡ false) where
  -- Tests of which none passes with the other.
  pub countb_apart : (xs : List A) → countb p xs + countb q xs ≤ length xs
  countb_apart [] = omega arith
  countb_apart (x ∷ xs) =
      let h = countb_apart xs in
      elim (Bool-cases (p x)) [
        | inl e ↦ rw (e, apart x e) (omega arith)
        | inr e ↦ elim (Bool-cases (q x)) [
          | inl f ↦ rw (e, f) (omega arith)
          | inr f ↦ rw (e, f) (omega arith)
        ]
      ]

countb_all {ℓ} : {A : Type ℓ} (xs : List A) → countb (λ _. true) xs ≡ length xs
countb_all [] = refl
countb_all (x ∷ xs) = ap suc (countb_all xs)

pub length-sort {ℓ} :
    {A : Type ℓ} (before : A → A → Bool) (xs : List A) → length (sort before xs) ≡ length xs
length-sort before xs =
    sym (countb_all (sort before xs)) ∙ countb-sort (λ _. true) before xs ∙ countb_all xs
