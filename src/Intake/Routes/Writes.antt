-- ===== src/Intake/Routes/Writes.antt =====
-- The writes of the routes of client/app/api/orders, one attempt and its retries.
use kryon_v.Base.{
  ℕ, zero, suc, ◌≡◌, ◌⊎◌, inl, inr, refl, sym, ap, ◌∙◌, Bool, true, false, ◌&&◌, List, [], ◌∷◌,
  ◌++◌, someb, Text, text_eq, text_eq_refl, Bool-cases, arith,
}
use kryon_v.Store.{Order, Db}
use kryon_v.Intake.Routes.{
  Attempt, returned, transient, fatal, with_retry, fits_bigint, insert_account, insert_order,
  Reached, before_account, after_account, to_the_end, write_order,
}

Attempt-cases : (a : Attempt) → (a ≡ returned) ⊎ ((a ≡ transient) ⊎ (a ≡ fatal))
Attempt-cases returned = inl refl
Attempt-cases transient = inr (inl refl)
Attempt-cases fatal = inr (inr refl)

-- What every attempt keeps, the retries keep; what a returning attempt gives, they give.
pub with_retry-keeps :
    (P : Db → Type 0) (fn : ℕ → Db → Attempt × Db) (left i : ℕ) (db : Db)
    → ((j : ℕ) (d : Db) → P d → P (fn j d).1)
    → P db
    → P (with_retry left i fn db).1
unfolding with_retry
with_retry-keeps P fn zero i db keep h = h
with_retry-keeps P fn (suc left) i db keep h = elim (Attempt-cases (fn i db).0) [
  | inl e ↦ rw (with_retry, e) (keep i db h)
  | inr (inl e) ↦
      rw (with_retry, e) (with_retry-keeps P fn left (suc i) (fn i db).1 keep (keep i db h))
  | inr (inr e) ↦ rw (with_retry, e) (keep i db h)
]

pub with_retry-done :
    (Q : Db → Type 0) (fn : ℕ → Db → Attempt × Db) (left i : ℕ) (db : Db)
    → ((j : ℕ) (d : Db) → (fn j d).0 ≡ returned → Q (fn j d).1)
    → (with_retry left i fn db).0 ≡ true
    → Q (with_retry left i fn db).1
unfolding with_retry
with_retry-done Q fn zero i db good h = ground arith
with_retry-done Q fn (suc left) i db good h = elim (Attempt-cases (fn i db).0) [
  | inl e ↦ rw (with_retry, e) (good i db e)
  | inr (inl e) ↦
      let step : with_retry (suc left) i fn db ≡ with_retry left (suc i) fn (fn i db).1 =
        rw (with_retry, e) refl in
      rw step (with_retry-done Q fn left (suc i) (fn i db).1 good (sym (ap (λ r. r.0) step) ∙ h))
  | inr (inr e) ↦ ground arith
]

abbrev pub has_id : Text → List Order → Bool
has_id id os = someb (λ p. text_eq p.id id) os

has_id-append :
    (id : Text) (o : Order) (os : List Order) → o.id ≡ id → has_id id (os ++ o ∷ []) ≡ true
has_id-append id o [] e = rw (e, text_eq_refl id) refl
has_id-append id o (p ∷ os) e = elim (Bool-cases (text_eq p.id id)) [
  | inl f ↦ rw f refl
  | inr f ↦ rw f (has_id-append id o os e)
]

-- The orders with or without one more, new row.
abbrev pub Extends : Order → List Order → List Order → Type 0
Extends o os os' = (os' ≡ os) ⊎ ((os' ≡ os ++ o ∷ []) × (has_id o.id os ≡ false))

insert_account_orders : (owner : Text) (db : Db) → (insert_account owner db).orders ≡ db.orders
unfolding insert_account
insert_account_orders owner db = elim (Bool-cases (someb (text_eq owner) db.accounts)) [
  | inl e ↦ rw e refl
  | inr e ↦ rw e refl
]

insert_order-Extends :
    (o : Order) (os : List Order) (db : Db)
    → Extends o os db.orders
    → Extends o os (insert_order o db).orders
unfolding insert_order
insert_order-Extends o os db (inl e) = elim (Bool-cases (has_id o.id db.orders)) [
  | inl f ↦ rw f (inl e)
  | inr f ↦ rw f (inr (ap (λ r. r ++ o ∷ []) e, sym (ap (has_id o.id) e) ∙ f))
]
insert_order-Extends o os db (inr (e, fresh)) =
    let f : has_id o.id db.orders ≡ true = rw e (has_id-append o.id o os refl) in
    rw f (inr (e, fresh))

pub write_order-Extends :
    (at : Reached) (o : Order) (os : List Order) (db : Db)
    → Extends o os db.orders
    → Extends o os (write_order at o db).1.orders
unfolding write_order
write_order-Extends (before_account t) o os db h = h
write_order-Extends (after_account t) o os db h = rw (insert_account_orders o.owner db) h
write_order-Extends to_the_end o os db h =
    let h' : Extends o os (insert_account o.owner db).orders =
      rw (insert_account_orders o.owner db) h in
    elim (Bool-cases (fits_bigint o.nonce && fits_bigint o.expiry_ts)) [
      | inl e ↦ rw e (insert_order-Extends o os (insert_account o.owner db) h')
      | inr e ↦ rw e h'
    ]

insert_order_has : (o : Order) (db : Db) → has_id o.id (insert_order o db).orders ≡ true
unfolding insert_order
insert_order_has o db = elim (Bool-cases (has_id o.id db.orders)) [
  | inl f ↦ rw (f, f) refl
  | inr f ↦ rw f (has_id-append o.id o db.orders refl)
]

pub write_order_has :
    (at : Reached) (o : Order) (db : Db)
    → (write_order at o db).0 ≡ returned
    → has_id o.id (write_order at o db).1.orders ≡ true
unfolding write_order
write_order_has (before_account true) o db h = ground arith
write_order_has (before_account false) o db h = ground arith
write_order_has (after_account true) o db h = ground arith
write_order_has (after_account false) o db h = ground arith
write_order_has to_the_end o db h =
    elim (Bool-cases (fits_bigint o.nonce && fits_bigint o.expiry_ts)) [
      | inl e ↦ rw e (insert_order_has o (insert_account o.owner db))
      | inr e ↦ ground arith
    ]
