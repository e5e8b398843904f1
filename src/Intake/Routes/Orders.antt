-- ===== src/Intake/Routes/Orders.antt =====
-- `POST /api/orders` and `POST /api/orders/cancel` (client/app/api/orders): the orders after a request.
use kryon_v.Base.{
  ℕ, ◌≡◌, ◌⊎◌, inl, inr, refl, sym, ◌∙◌, Bool, true, false, Option, some, List, [], ◌∷◌, ◌++◌, map,
  Bool-cases, arith,
}
use kryon_v.Store.{Order, Db}
use kryon_v.Intake.{
  OrderBody, ValidationResult, ok, error, ValidatedOrder, Server, validate_order_intent,
}
use kryon_v.Intake.Limit.{body_too_large}
use kryon_v.Intake.Routes.{
  done, with_retry, order_id, order_row, write_order, Body, malformed, parsed, signature_of,
  claimed_owner, reply_of, limited, Request, State, save_order, post_order_limited, post_order,
}
use kryon_v.Intake.Routes.Cancel.{CancelBody, cancel_row, Cancel, cancel_signed}
use kryon_v.Intake.Routes.Asked.{Asks}
use kryon_v.Intake.Routes.Writes.{
  with_retry-keeps, with_retry-done, has_id, Extends, write_order-Extends, write_order_has,
}

module _ (server : Server) (r : Request) where
  -- The orders as they were, or with the one that the body validates to, under an id that was free.
  abbrev pub AddsAccepted : Body OrderBody → List Order → List Order → Type 0
  AddsAccepted body os os' =
      (os' ≡ os)
      ⊎ ((b : Option OrderBody) × (o : ValidatedOrder) × (body ≡ parsed b)
          × (validate_order_intent server r.now_ms b ≡ ok o)
          × (os' ≡ os ++ order_row r.now_ms o (signature_of b) ∷ [])
          × (has_id (order_id o) os ≡ false))

  save_order-Adds :
      (b : Option OrderBody) (v : ValidationResult ValidatedOrder) (db : Db)
      → validate_order_intent server r.now_ms b ≡ v
      → AddsAccepted (parsed b) db.orders (save_order server r (signature_of b) v db).1.orders
  unfolding save_order
  save_order-Adds b (error e) db h = inl refl
  save_order-Adds b (ok o) db h =
      let row = order_row r.now_ms o (signature_of b) in
      let saved =
        with_retry-keeps (λ d. Extends row db.orders d.orders) _ 3 0 db
          (λ j d. write_order-Extends (r.reached j) row db.orders d) (inl refl) in
      elim saved [ inl e ↦ inl e | inr (e, fresh) ↦ inr (b, o, refl, h, e, fresh) ]

  limited-Adds :
      (b : Option OrderBody) (allowed : Bool) (db : Db)
      → AddsAccepted (parsed b) db.orders (post_order_limited server r allowed b db).1.orders
  unfolding post_order_limited
  limited-Adds b false db = inl refl
  limited-Adds b true db = save_order-Adds b (validate_order_intent server r.now_ms b) db refl

  -- However often the database fails in between, `POST /api/orders` leaves the orders as they are or
  -- adds one row: the order that the body validates to, under an id that no order had.
  pub post_order-AddsAccepted :
      (body : Body OrderBody) (s : State)
      → AddsAccepted body s.db.orders (post_order server r body s).1.db.orders
  unfolding post_order
  post_order-AddsAccepted malformed s = inl refl
  post_order-AddsAccepted (parsed b) s = elim (Bool-cases (body_too_large r.headers 4096)) [
    | inl e ↦ rw e (inl refl)
    | inr e ↦ rw e (limited-Adds b _ s.db)
  ]

  all_done : (b : Bool) → reply_of b ≡ done → b ≡ true
  all_done true h = refl
  all_done false h = ground arith

  abbrev pub Holds : Body OrderBody → List Order → Type 0
  Holds body os =
      (b : Option OrderBody) × (o : ValidatedOrder) × (body ≡ parsed b)
      × (validate_order_intent server r.now_ms b ≡ ok o)
      × (has_id (order_id o) os ≡ true)

  save_order-Holds :
      (b : Option OrderBody) (v : ValidationResult ValidatedOrder) (db : Db)
      → validate_order_intent server r.now_ms b ≡ v
      → (save_order server r (signature_of b) v db).0 ≡ done
      → Holds (parsed b) (save_order server r (signature_of b) v db).1.orders
  unfolding save_order
  save_order-Holds b (error e) db h reply = ground arith
  save_order-Holds b (ok o) db h reply =
      let row = order_row r.now_ms o (signature_of b) in
      let fn = λ (i : ℕ). write_order (r.reached i) row in
      (
        b,
        o,
        refl,
        h,
        with_retry-done (λ d. has_id row.id d.orders ≡ true) fn 3 0 db
            (λ j d. write_order_has (r.reached j) row d) (all_done (with_retry 3 0 fn db).0 reply),
      )

  limited-Holds :
      (b : Option OrderBody) (allowed : Bool) (db : Db)
      → (post_order_limited server r allowed b db).0 ≡ done
      → Holds (parsed b) (post_order_limited server r allowed b db).1.orders
  unfolding post_order_limited
  limited-Holds b false db h = ground arith
  limited-Holds b true db h = save_order-Holds b (validate_order_intent server r.now_ms b) db refl h

  -- Where `POST /api/orders` answers `ok`, its body was accepted by the intake, and the orders hold one
  -- with the accepted owner and nonce.
  pub post_order_done :
      (body : Body OrderBody) (s : State)
      → (post_order server r body s).0 ≡ done
      → Holds body (post_order server r body s).1.db.orders
  unfolding post_order
  post_order_done malformed s h = elim (Bool-cases (body_too_large r.headers 4096)) [
    | inl e ↦ ground arith
    | inr e ↦ ground arith
  ]
  post_order_done (parsed b) s h =
      let allowed = (limited server r (claimed_owner b) 30 s.buckets).0 in
      let saved = post_order_limited server r allowed b s.db in
      elim (Bool-cases (body_too_large r.headers 4096)) [
        | inl e ↦ ground arith
        | inr e ↦
            let step : (post_order server r (parsed b) s).0 ≡ saved.0 = rw e refl in
            rw e (limited-Holds b allowed s.db (sym step ∙ h))
      ]

  -- The orders as they were, or with those of the owner and the nonce cancelled that the body asks for
  -- and the owner has signed.
  abbrev pub CancelsSigned : Body CancelBody → List Order → List Order → Type 0
  CancelsSigned body os os' =
      (os' ≡ os)
      ⊎ ((b : CancelBody) × (c : Cancel) × (body ≡ parsed (some b))
          × Asks server b c
          × (cancel_signed server r c ≡ true)
          × (os' ≡ map (cancel_row c.owner c.nonce) os))

  abbrev Once : Cancel → List Order → List Order → Type 0
  Once c os os' = (os' ≡ os) ⊎ (os' ≡ map (cancel_row c.owner c.nonce) os)

  -- The orders as they were, or with those of this cancellation cancelled, which is signed.
  abbrev IsSigned : Cancel → List Order → List Order → Type 0
  IsSigned c os os' =
      (os' ≡ os) ⊎ ((cancel_signed server r c ≡ true) × (os' ≡ map (cancel_row c.owner c.nonce) os))
