-- ===== src/Matcher/Sort.antt =====
-- `Array.prototype.sort` with a comparison: a stable insertion sort, in which an element goes before
-- the first one that it precedes or ties with.
use mathlib.Core.List.{reverse_aux}
use kryon_v.Base.{
  ℕ, zero, suc, map, take, filterb, All-filterb, All-take, All-map, reverse, ◌≡◌, Bool, true, false,
  List, [], ◌∷◌, if◌then◌else◌, Bool-cases, inl, inr, All,
}

module _ {ℓ} {A : Type ℓ} (before : A → A → Bool) where
  unfoldable pub insert : A → List A → List A
  insert x [] = x ∷ []
  insert x (y ∷ ys) = let later = y ∷ insert x ys in if before x y then x ∷ y ∷ ys else later

  unfoldable pub sort : List A → List A
  unfolding insert
  sort [] = []
  sort (x ∷ xs) = insert x (sort xs)

  -- Each element precedes or ties with all behind it.
  abbrev pub IsSorted : List A → Type 0
  IsSorted [] = Unit
  IsSorted (x ∷ xs) = All (λ y. before x y ≡ true) xs × IsSorted xs

module _ {ℓ κ} {A : Type ℓ} (P : A → Type κ) (before : A → A → Bool) where
  pub insert-All : (x : A) (xs : List A) → P x → All P xs → All P (insert before x xs)
  unfolding insert
  insert-All x [] p h = (p, tt)
  insert-All x (y ∷ ys) p (q, h) = elim (Bool-cases (before x y)) [
    | inl e ↦ rw e (p, (q, h))
    | inr e ↦ rw e (q, insert-All x ys p h)
  ]

  pub sort-All : (xs : List A) → All P xs → All P (sort before xs)
  unfolding sort
  sort-All [] h = tt
  sort-All (x ∷ xs) (p, h) = insert-All x (sort before xs) p (sort-All xs h)

module _ {ℓ} {A : Type ℓ} (before : A → A → Bool)
    (total : (x y : A) → before x y ≡ false → before y x ≡ true)
    (trans : (x y z : A) → before x y ≡ true → before y z ≡ true → before x z ≡ true) where
  All-trans :
      (x y : A) (ys : List A)
      → before x y ≡ true
      → All (λ z. before y z ≡ true) ys
      → All (λ z. before x z ≡ true) ys
  All-trans x y [] e h = tt
  All-trans x y (z ∷ ys) e (p, h) = (trans x y z e p, All-trans x y ys e h)

  insert-IsSorted :
      (x : A) (xs : List A) → IsSorted before xs → IsSorted before (insert before x xs)
  unfolding insert
  insert-IsSorted x [] h = (tt, tt)
  insert-IsSorted x (y ∷ ys) (p, h) = elim (Bool-cases (before x y)) [
    | inl e ↦ rw e ((e, All-trans x y ys e p), (p, h))
    | inr e ↦
        rw e
          (insert-All (λ z. before y z ≡ true) before x ys (total x y e) p, insert-IsSorted x ys h)
  ]

  pub sort-IsSorted : (xs : List A) → IsSorted before (sort before xs)
  unfolding sort
  sort-IsSorted [] = tt
  sort-IsSorted (x ∷ xs) = insert-IsSorted x (sort before xs) (sort-IsSorted xs)

module _ {ℓ κ} {A : Type ℓ} (P : A → Type κ) (before : A → A → Bool) where
  insert-All_inv : (x : A) (xs : List A) → All P (insert before x xs) → P x × All P xs
  unfolding insert
  insert-All_inv x [] h = h
  insert-All_inv x (y ∷ ys) h = elim (Bool-cases (before x y)) [
    | inl e ↦ rw (insert, e) at h
    | inr e ↦
        let h' : P y × All P (insert before x ys) = rw (insert, e) at h in
        let (p, q) = insert-All_inv x ys h'.1 in (p, (h'.0, q))
  ]

  -- Sorting loses no element.
  pub sort-All_inv : (xs : List A) → All P (sort before xs) → All P xs
  unfolding sort
  sort-All_inv [] h = tt
  sort-All_inv (x ∷ xs) h =
      let (p, q) = insert-All_inv x (sort before xs) h in (p, sort-All_inv xs q)

module _ {ℓ} {A : Type ℓ} (before : A → A → Bool) where
  pub IsSorted-filterb :
      (p : A → Bool) (xs : List A) → IsSorted before xs → IsSorted before (filterb p xs)
  IsSorted-filterb p [] h = tt
  IsSorted-filterb p (x ∷ xs) (h, hs) = elim (Bool-cases (p x)) [
    | inl e ↦ rw e (All-filterb (λ y. before x y ≡ true) p xs h, IsSorted-filterb p xs hs)
    | inr e ↦ rw e (IsSorted-filterb p xs hs)
  ]

  pub IsSorted-take : (n : ℕ) (xs : List A) → IsSorted before xs → IsSorted before (take n xs)
  IsSorted-take zero xs h = tt
  IsSorted-take (suc n) [] h = tt
  IsSorted-take (suc n) (x ∷ xs) (h, hs) =
      (All-take (λ y. before x y ≡ true) n xs h, IsSorted-take n xs hs)

module _ {ℓ κ} {A : Type ℓ} {B : Type κ} (before : A → A → Bool) (after : B → B → Bool) (f : A → B)
    (keeps : (x y : A) → before x y ≡ true → after (f x) (f y) ≡ true) where
  All-map-after :
      (x : A) (xs : List A)
      → All (λ y. before x y ≡ true) xs
      → All (λ z. after (f x) z ≡ true) (map f xs)
  All-map-after x [] h = tt
  All-map-after x (y ∷ ys) (h, hs) = (keeps x y h, All-map-after x ys hs)

  pub IsSorted-map : (xs : List A) → IsSorted before xs → IsSorted after (map f xs)
  IsSorted-map [] h = tt
  IsSorted-map (x ∷ xs) (h, hs) = (All-map-after x xs h, IsSorted-map xs hs)

module _ {ℓ} {A : Type ℓ} (before : A → A → Bool) where
  IsSorted-reverse_aux :
      (xs ys : List A)
      → IsSorted before xs
      → IsSorted (λ x y. before y x) ys
      → All (λ x. All (λ y. before x y ≡ true) xs) ys
      → IsSorted (λ x y. before y x) (reverse_aux xs ys)
  IsSorted-reverse_aux [] ys hx hy apart = hy
  IsSorted-reverse_aux (x ∷ xs) ys (h, hs) hy apart =
      IsSorted-reverse_aux xs (x ∷ ys) hs
        (All-map _ (λ z. before z x ≡ true) (λ z hz. hz.0) ys apart, hy)
        (h, All-map _ (λ z. All (λ y. before z y ≡ true) xs) (λ z hz. hz.1) ys apart)

  pub IsSorted-reverse :
      (xs : List A) → IsSorted before xs → IsSorted (λ x y. before y x) (reverse xs)
  IsSorted-reverse xs h = IsSorted-reverse_aux xs [] h tt tt
