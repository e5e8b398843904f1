-- ===== src/Stats/Keyed.antt =====
-- Lists of records with an address, as maps and tables with a unique key: inserting or replacing each of
-- some rows in turn.
use kryon_v.Base.{
  ◌≡◌, refl, sym, ap, ◌∙◌, false, Option, none, some, List, [], ◌∷◌, if◌then◌else◌, findb, All,
  Text, text_eq, text_eq_iff, text_eq_refl, text_eq_sym, Bool-cases, inl, inr,
}

-- Replace the first record of an address, or add one.
abbrev pub put : {A : Type 0} → (A → Text) → Text → (Option A → A) → List A → List A
put key k f [] = f none ∷ []
put key k f (a ∷ rest) =
    let later = a ∷ put key k f rest in if text_eq k (key a) then f (some a) ∷ rest else later

abbrev pub lookup : {A : Type 0} → (A → Text) → Text → List A → Option A
lookup key k xs = findb (λ a. text_eq k (key a)) xs

abbrev pub put_all :
    {A R : Type 0} → (A → Text) → (R → Text) → (R → Option A → A) → List R → List A → List A
put_all key row_key f [] xs = xs
put_all key row_key f (r ∷ rs) xs = put_all key row_key f rs (put key (row_key r) (f r) xs)

-- Records of which no two have the same address.
abbrev pub AreKeyed : {A : Type 0} → (A → Text) → List A → Type 0
AreKeyed key [] = Unit
AreKeyed key (a ∷ rest) = All (λ b. text_eq (key a) (key b) ≡ false) rest × AreKeyed key rest

module _ {A : Type 0} (key : A → Text) (k : Text) (f : Option A → A)
    (keyed : (o : Option A) → key (f o) ≡ k) where
  pub lookup-put_self : (xs : List A) → lookup key k (put key k f xs) ≡ some (f (lookup key k xs))
  lookup-put_self [] = rw (keyed none, text_eq_refl k) refl
  lookup-put_self (a ∷ xs) = elim (Bool-cases (text_eq k (key a))) [
    | inl e ↦ rw (e, keyed (some a), text_eq_refl k) refl
    | inr e ↦ rw (e, e) (lookup-put_self xs)
  ]

  pub lookup-put_other :
      (b : Text) (xs : List A)
      → text_eq b k ≡ false
      → lookup key b (put key k f xs) ≡ lookup key b xs
  lookup-put_other b [] h = rw (keyed none, h) refl
  lookup-put_other b (a ∷ xs) h = elim (Bool-cases (text_eq k (key a))) [
    | inl e ↦
        let apart : text_eq b (key a) ≡ false = rw (sym ((text_eq_iff k (key a)).0 e)) h in
        rw (e, keyed (some a), h, apart) refl
    | inr e ↦ elim (Bool-cases (text_eq b (key a))) [
      | inl same ↦ rw (e, same) refl
      | inr apart ↦ rw (e, apart) (lookup-put_other b xs h)
    ]
  ]

  put-apart :
      (b : Text) (xs : List A)
      → text_eq b k ≡ false
      → All (λ a. text_eq b (key a) ≡ false) xs
      → All (λ a. text_eq b (key a) ≡ false) (put key k f xs)
  put-apart b [] h hs = (rw (keyed none) h, tt)
  put-apart b (a ∷ xs) h (p, ps) = elim (Bool-cases (text_eq k (key a))) [
    | inl e ↦ rw e (rw (keyed (some a)) h, ps)
    | inr e ↦ rw e (p, put-apart b xs h ps)
  ]

  pub put-AreKeyed : (xs : List A) → AreKeyed key xs → AreKeyed key (put key k f xs)
  put-AreKeyed [] h = (tt, tt)
  put-AreKeyed (a ∷ xs) (h, hs) = elim (Bool-cases (text_eq k (key a))) [
    | inl e ↦ rw e (rw (keyed (some a) ∙ (text_eq_iff k (key a)).0 e) h, hs)
    | inr e ↦ rw e (put-apart (key a) xs (text_eq_sym (key a) k ∙ e) h, put-AreKeyed xs hs)
  ]

-- What a row, where there is one, makes of a record.
abbrev pub updated : {A R : Type 0} → (R → Option A → A) → Option R → Option A → Option A
updated f none o = o
updated f (some r) o = some (f r o)

module _ {A R : Type 0} (key : A → Text) (row_key : R → Text) (f : R → Option A → A)
    (keyed : (r : R) (o : Option A) → key (f r o) ≡ row_key r) where
  pub put_all-AreKeyed :
      (rs : List R) (xs : List A) → AreKeyed key xs → AreKeyed key (put_all key row_key f rs xs)
  put_all-AreKeyed [] xs h = h
  put_all-AreKeyed (r ∷ rs) xs h =
      put_all-AreKeyed rs _ (put-AreKeyed key (row_key r) (f r) (keyed r) xs h)

  lookup-put_all_absent :
      (b : Text) (rs : List R) (xs : List A)
      → All (λ r. text_eq b (row_key r) ≡ false) rs
      → lookup key b (put_all key row_key f rs xs) ≡ lookup key b xs
  lookup-put_all_absent b [] xs h = refl
  lookup-put_all_absent b (r ∷ rs) xs (h, hs) =
      lookup-put_all_absent b rs _ hs ∙ lookup-put_other key (row_key r) (f r) (keyed r) b xs h

  pub lookup-put_all :
      (b : Text) (rs : List R) (xs : List A)
      → AreKeyed row_key rs
      → lookup key b (put_all key row_key f rs xs)
        ≡ updated f (lookup row_key b rs) (lookup key b xs)
  lookup-put_all b [] xs h = refl
  lookup-put_all b (r ∷ rs) xs (h, hs) = elim (Bool-cases (text_eq b (row_key r))) [
    | inl e ↦
        let same = (text_eq_iff b (row_key r)).0 e in
        rw e (
          rw same (
            lookup-put_all_absent (row_key r) rs _ h
            ∙ lookup-put_self key (row_key r) (f r) (keyed r) xs))
    | inr e ↦ rw e (
        lookup-put_all b rs _ hs
        ∙ ap (updated f (lookup row_key b rs))
            (lookup-put_other key (row_key r) (f r) (keyed r) b xs e))
  ]
