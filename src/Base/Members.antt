-- ===== src/Base/Members.antt =====
-- Which elements the lists of `map`, `concat` and `filter` have.
use mathlib.Core.Path.{subst, ◌≡◌, refl, sym, ap, ◌∙◌}
use mathlib.Core.Logic.{◌⊎◌, inl, inr}
use mathlib.Core.Bool.{Bool, true}
use mathlib.Core.List.{Memᴰ, List, [], ◌∷◌, ◌++◌, map}
use kryon_v.Base.Tests.{Bool-cases}
use kryon_v.Base.Lists.{filterb, All}

module _ {A B : Type 0} where
  pub mem-map : (f : A → B) (x : A) (xs : List A) → Memᴰ x xs → Memᴰ (f x) (map f xs)
  mem-map f x [] i = elim i [ ]
  mem-map f x (y ∷ ys) (Memᴰ.head e) = Memᴰ.head (ap f e)
  mem-map f x (y ∷ ys) (Memᴰ.tail i) = Memᴰ.tail (mem-map f x ys i)

  pub map-mem :
      (f : A → B) (y : B) (xs : List A) → Memᴰ y (map f xs) → (x : A) × Memᴰ x xs × (y ≡ f x)
  map-mem f y [] i = elim i [ ]
  map-mem f y (x ∷ xs) (Memᴰ.head e) = (x, Memᴰ.head refl, e)
  map-mem f y (x ∷ xs) (Memᴰ.tail i) = let (z, j, e) = map-mem f y xs i in (z, Memᴰ.tail j, e)

module _ {A : Type 0} where
  pub mem_left : (x : A) (xs ys : List A) → Memᴰ x xs → Memᴰ x (xs ++ ys)
  mem_left x [] ys i = elim i [ ]
  mem_left x (z ∷ zs) ys (Memᴰ.head e) = Memᴰ.head e
  mem_left x (z ∷ zs) ys (Memᴰ.tail i) = Memᴰ.tail (mem_left x zs ys i)

  pub mem_right : (x : A) (xs ys : List A) → Memᴰ x ys → Memᴰ x (xs ++ ys)
  mem_right x [] ys i = i
  mem_right x (z ∷ zs) ys i = Memᴰ.tail (mem_right x zs ys i)

  pub mem_either : (x : A) (xs ys : List A) → Memᴰ x (xs ++ ys) → Memᴰ x xs ⊎ Memᴰ x ys
  mem_either x [] ys i = inr i
  mem_either x (z ∷ zs) ys (Memᴰ.head e) = inl (Memᴰ.head e)
  mem_either x (z ∷ zs) ys (Memᴰ.tail i) = elim (mem_either x zs ys i) [
    | inl j ↦ inl (Memᴰ.tail j)
    | inr j ↦ inr j
  ]

  pub filterb-mem :
      (p : A → Bool) (x : A) (xs : List A) → Memᴰ x (filterb p xs) → Memᴰ x xs × (p x ≡ true)
  filterb-mem p x [] i = elim i [ ]
  filterb-mem p x (y ∷ ys) i = elim (Bool-cases (p y)) [
    | inl e ↦ elim (kept (rw e at i)) [
      | inl q ↦ (Memᴰ.head q, ap p q ∙ e)
      | inr j ↦ let (k, h) = filterb-mem p x ys j in (Memᴰ.tail k, h)
    ]
    | inr e ↦ let (k, h) = filterb-mem p x ys (rw e at i) in (Memᴰ.tail k, h)
  ]
    where
      kept : {zs : List A} → Memᴰ x (y ∷ zs) → (x ≡ y) ⊎ Memᴰ x zs
      kept (Memᴰ.head q) = inl q
      kept (Memᴰ.tail j) = inr j

  pub mem-filterb :
      (p : A → Bool) (x : A) (xs : List A) → Memᴰ x xs → p x ≡ true → Memᴰ x (filterb p xs)
  mem-filterb p x [] i h = elim i [ ]
  mem-filterb p x (y ∷ ys) (Memᴰ.head q) h = rw (sym (ap p q) ∙ h) (Memᴰ.head q)
  mem-filterb p x (y ∷ ys) (Memᴰ.tail i) h = elim (Bool-cases (p y)) [
    | inl e ↦ rw e (Memᴰ.tail (mem-filterb p x ys i h))
    | inr e ↦ rw e (mem-filterb p x ys i h)
  ]

module _ {A : Type 0} (P : A → Type 0) where
  pub All-at : (x : A) (xs : List A) → All P xs → Memᴰ x xs → P x
  All-at x [] h i = elim i [ ]
  All-at x (y ∷ ys) (h, hs) (Memᴰ.head e) = subst P (sym e) h
  All-at x (y ∷ ys) (h, hs) (Memᴰ.tail i) = All-at x ys hs i

  pub All-of : (xs : List A) → ((x : A) → Memᴰ x xs → P x) → All P xs
  All-of [] f = tt
  All-of (x ∷ xs) f = (f x (Memᴰ.head refl), All-of xs (λ y i. f y (Memᴰ.tail i)))
