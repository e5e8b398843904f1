-- ===== src/Intake/Routes/Keys.antt =====
-- The ids of orders through `POST /api/orders` (client/app/api/orders/route.ts).
use kryon_v.Base.{
  ◌≡◌, refl, Bool, false, ◌||◌, List, [], ◌∷◌, ◌++◌, if◌then◌else◌, Text, text_eq, text_eq_refl,
  inl, inr, arith,
}
use kryon_v.Store.{Order}
use kryon_v.Intake.{OrderBody, Server}
use kryon_v.Intake.Routes.{Body, Request, State, post_order, order_row, signature_of}
use kryon_v.Intake.Routes.Writes.{has_id}
use kryon_v.Intake.Routes.Orders.{post_order-AddsAccepted}
use kryon_v.Matcher.Persist.Filled.{Rows}
use kryon_v.Matcher.Tick.Keys.{HasKeys}

abbrev with_row : Order → (Text → Order) → Text → Order
with_row o row k = if text_eq k o.id then o else row k

both-false : (a b : Bool) → (a || b) ≡ false → (a ≡ false) × (b ≡ false)
both-false a b h = ground arith

Rows-append :
    (row : Text → Order) (o : Order) (os : List Order)
    → Rows row os
    → has_id o.id os ≡ false
    → Rows (with_row o row) (os ++ o ∷ [])
Rows-append row o [] h fresh = (rw (text_eq_refl o.id) refl, tt)
Rows-append row o (p ∷ os) (r, rs) fresh =
    let (here, later) = both-false (text_eq p.id o.id) (has_id o.id os) fresh in
    (rw here r, Rows-append row o os rs later)

-- A request to place an order that starts with tables in which an order's id is its key ends so.
pub post_order-HasKeys :
    (server : Server) (r : Request) (body : Body OrderBody) (s : State)
    → HasKeys s.db
    → HasKeys (post_order server r body s).1.db
post_order-HasKeys server r body s (row, rows) = elim (post_order-AddsAccepted server r body s) [
  | inl same ↦ (row, rw same rows)
  | inr (b, o, e, v, added, fresh) ↦
      let new = order_row r.now_ms o (signature_of b) in
      (with_row new row, rw added (Rows-append row new s.db.orders rows fresh))
]
