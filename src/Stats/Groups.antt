-- ===== src/Stats/Groups.antt =====
-- The keys of a grouping and the sums over its rows, for client/scripts/stats-aggregator.ts.
use kryon_v.Base.{
  ℕ, ◌+◌, ◌≡◌, refl, sym, ap, ◌∙◌, Bool, false, ◌&&◌, ◌||◌, none, some, List, [], ◌∷◌, ◌++◌, map,
  if◌then◌else◌, filterb, someb, All, Text, text_eq, text_eq_iff, Bool-cases, inl, inr, arith, ℤ,
  pos, negsuc, ◌+ℤ◌,
}
use kryon_v.Stream.Sets.{has}
use kryon_v.Stats.{sum_by, sum_ℤ, distinct}
use kryon_v.Stats.Keyed.{lookup, AreKeyed}

pub has-distinct : (b : Text) (ks : List Text) → has text_eq b (distinct ks) ≡ has text_eq b ks
unfolding distinct
has-distinct b [] = refl
has-distinct b (a ∷ rest) = elim (Bool-cases (has text_eq a (distinct rest))) [
  | inl e ↦ elim (Bool-cases (text_eq b a)) [
    | inl same ↦
        let here = (text_eq_iff b a).0 same in
        rw e (rw (has-distinct b rest) (ground (arith, has-distinct a rest)))
    | inr apart ↦ rw (e, apart) (has-distinct b rest)
  ]
  | inr e ↦ rw (e, has-distinct b rest) refl
]

All-apart :
    (a : Text) (xs : List Text) → has text_eq a xs ≡ false → All (λ b. text_eq a b ≡ false) xs
All-apart a [] h = tt
All-apart a (x ∷ xs) h = (ground arith, All-apart a xs (ground arith))

pub distinct-AreKeyed : (ks : List Text) → AreKeyed (λ a. a) (distinct ks)
unfolding distinct
distinct-AreKeyed [] = tt
distinct-AreKeyed (a ∷ rest) = elim (Bool-cases (has text_eq a (distinct rest))) [
  | inl e ↦ rw e (distinct-AreKeyed rest)
  | inr e ↦ rw e (All-apart a (distinct rest) e, distinct-AreKeyed rest)
]

module _ {R : Type 0} (row_key : R → Text) (row : Text → R)
    (keyed : (a : Text) → row_key (row a) ≡ a) where
  map-apart :
      (a : Text) (ks : List Text)
      → All (λ b. text_eq a b ≡ false) ks
      → All (λ r. text_eq (row_key (row a)) (row_key r) ≡ false) (map row ks)
  map-apart a [] h = tt
  map-apart a (k ∷ ks) (h, hs) = (rw (keyed a, keyed k) h, map-apart a ks hs)

  pub map-AreKeyed : (ks : List Text) → AreKeyed (λ a. a) ks → AreKeyed row_key (map row ks)
  map-AreKeyed [] h = tt
  map-AreKeyed (k ∷ ks) (h, hs) = (map-apart k ks h, map-AreKeyed ks hs)

  pub lookup-map :
      (b : Text) (ks : List Text)
      → lookup row_key b (map row ks) ≡ (if has text_eq b ks then some (row b) else none)
  lookup-map b [] = refl
  lookup-map b (k ∷ ks) = elim (Bool-cases (text_eq b k)) [
    | inl e ↦ let same = (text_eq_iff b k).0 e in rw (keyed k, e) (rw same refl)
    | inr e ↦ rw (keyed k, e) (lookup-map b ks)
  ]

zero-+ℤ : (a : ℤ) → (pos 0 +ℤ a) ≡ a
unfolding ◌+ℤ◌
zero-+ℤ (pos n) = ground arith
zero-+ℤ (negsuc n) = ground arith

module _ {A B : Type 0} where
  pub someb-map :
      (p : B → Bool) (f : A → B) (xs : List A) → someb p (map f xs) ≡ someb (λ x. p (f x)) xs
  someb-map p f [] = refl
  someb-map p f (x ∷ xs) = ap (λ rest. p (f x) || rest) (someb-map p f xs)

  pub sum_by-map :
      (p : B → Bool) (v : B → ℕ) (f : A → B) (xs : List A)
      → sum_by p v (map f xs) ≡ sum_by (λ x. p (f x)) (λ x. v (f x)) xs
  sum_by-map p v f [] = refl
  sum_by-map p v f (x ∷ xs) =
      ap (λ rest. (if p (f x) then v (f x) else 0) + rest) (sum_by-map p v f xs)

module _ {A : Type 0} where
  pub someb-append :
      (p : A → Bool) (xs ys : List A) → someb p (xs ++ ys) ≡ (someb p xs || someb p ys)
  someb-append p [] ys = refl
  someb-append p (x ∷ xs) ys = ground (arith, someb-append p xs ys)

  pub sum_by-append :
      (p : A → Bool) (v : A → ℕ) (xs ys : List A)
      → sum_by p v (xs ++ ys) ≡ sum_by p v xs + sum_by p v ys
  sum_by-append p v [] ys = omega arith
  sum_by-append p v (x ∷ xs) ys = omega (arith, sum_by-append p v xs ys)

  -- The rows that a WHERE keeps.
  pub sum_by-filterb :
      (q p : A → Bool) (v : A → ℕ) (xs : List A)
      → sum_by p v (filterb q xs) ≡ sum_by (λ x. q x && p x) v xs
  sum_by-filterb q p v [] = refl
  sum_by-filterb q p v (x ∷ xs) = elim (Bool-cases (q x)) [
    | inl e ↦ rw e (omega (arith, sum_by-filterb q p v xs))
    | inr e ↦ rw e (omega (arith, sum_by-filterb q p v xs))
  ]

  pub someb-filterb :
      (q p : A → Bool) (xs : List A) → someb p (filterb q xs) ≡ someb (λ x. q x && p x) xs
  someb-filterb q p [] = refl
  someb-filterb q p (x ∷ xs) = elim (Bool-cases (q x)) [
    | inl e ↦ rw (e, someb-filterb q p xs) refl
    | inr e ↦ rw e (someb-filterb q p xs)
  ]

  -- A sum over no rows.
  pub sum_by_absent :
      (p q : A → Bool) (v : A → ℕ) (xs : List A)
      → someb p xs ≡ false
      → ((x : A) → p x ≡ false → q x ≡ false)
      → sum_by q v xs ≡ 0
  sum_by_absent p q v [] h f = refl
  sum_by_absent p q v (x ∷ xs) h f =
      rw (f x (ground arith)) (omega (arith, sum_by_absent p q v xs (ground arith) f))

  pub sum_ℤ_absent :
      (p q : A → Bool) (v : A → ℤ) (xs : List A)
      → someb p xs ≡ false
      → ((x : A) → p x ≡ false → q x ≡ false)
      → sum_ℤ q v xs ≡ pos 0
  unfolding ◌+ℤ◌
  sum_ℤ_absent p q v [] h f = refl
  sum_ℤ_absent p q v (x ∷ xs) h f =
      rw (f x (ground arith), sum_ℤ_absent p q v xs (ground arith) f) refl

  pub sum_ℤ-filterb :
      (q p : A → Bool) (v : A → ℤ) (xs : List A)
      → sum_ℤ p v (filterb q xs) ≡ sum_ℤ (λ x. q x && p x) v xs
  sum_ℤ-filterb q p v [] = refl
  sum_ℤ-filterb q p v (x ∷ xs) = elim (Bool-cases (q x)) [
    | inl e ↦ rw (e, sum_ℤ-filterb q p v xs) refl
    | inr e ↦ rw e (sum_ℤ-filterb q p v xs ∙ sym (zero-+ℤ _))
  ]
