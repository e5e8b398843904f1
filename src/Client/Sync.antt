-- ===== src/Client/Sync.antt =====
-- The tracked orders through a run of client/features/trade/hooks/useOrderReconciliation.ts.
use kryon_v.Base.{
  ℕ, Bool, true, false, ◌&&◌, not, Option, none, some, List, [], ◌∷◌, ltb, leb, length-filterb,
  if◌then◌else◌, Text, arith,
}
use kryon_v.Client.{
  TrackedOrder, clear_cancelled, is_cancelled_status, DbOrder, sync_row, sync_rows, Onchain,
  unreachable, read, check_one, check_all, reconcile, has_order, synced,
}
use kryon_v.Client.Bounds.{
  IsTracked, Distinct-filterb, add_order-IsTracked, cancel_order-IsTracked, mark_filled-IsTracked,
}

clear_cancelled-IsTracked : (os : List TrackedOrder) → IsTracked os → IsTracked (clear_cancelled os)
unfolding clear_cancelled
clear_cancelled-IsTracked os (few, apart) = (
  omega (arith, few, length-filterb (λ o. not (is_cancelled_status o.status)) os),
  Distinct-filterb (λ o. not (is_cancelled_status o.status)) os apart,
)

if-IsTracked :
    (b : Bool) (x y : List TrackedOrder)
    → IsTracked x
    → IsTracked y
    → IsTracked (if b then x else y)
if-IsTracked true x y hx hy = hx
if-IsTracked false x y hx hy = hy

sync_row-IsTracked :
    (now_ms : ℕ) (owner : Text) (seen : List TrackedOrder) (row : DbOrder) (os : List TrackedOrder)
    → IsTracked os
    → IsTracked (sync_row now_ms owner seen row os)
unfolding sync_row
sync_row-IsTracked now_ms owner seen row os h =
    if-IsTracked row.cancelled _ _ (cancel_order-IsTracked row.intent.nonce (some owner) os h) (
      if-IsTracked (ltb 0 row.intent.size && leb row.intent.size row.filled_size) _ _
        (mark_filled-IsTracked row.intent.nonce (some owner) os h)
        (if-IsTracked (has_order owner row.intent.nonce seen) _ _ h
          (add_order-IsTracked now_ms row.intent os h)))

sync_rows-IsTracked :
    (now_ms : ℕ) (owner : Text) (seen : List TrackedOrder) (rows : List DbOrder)
    (os : List TrackedOrder)
    → IsTracked os
    → IsTracked (sync_rows now_ms owner seen rows os)
unfolding sync_rows
sync_rows-IsTracked now_ms owner seen [] os h = h
sync_rows-IsTracked now_ms owner seen (row ∷ rows) os h =
    sync_rows-IsTracked now_ms owner seen rows _ (sync_row-IsTracked now_ms owner seen row os h)

check_one-IsTracked :
    (owner : Text) (o : TrackedOrder) (answer : Onchain) (os : List TrackedOrder)
    → IsTracked os
    → IsTracked (check_one owner o answer os)
unfolding check_one
check_one-IsTracked owner o unreachable os h = h
check_one-IsTracked owner o (read filled_size canc) os h =
    if-IsTracked canc _ _ (cancel_order-IsTracked o.intent.nonce (some owner) os h) (
      if-IsTracked (ltb 0 o.intent.size && leb o.intent.size filled_size) _ _
        (mark_filled-IsTracked o.intent.nonce (some owner) os h) h)

check_all-IsTracked :
    (onchain : TrackedOrder → Onchain) (owner : Text) (ps os : List TrackedOrder)
    → IsTracked os
    → IsTracked (check_all onchain owner ps os)
unfolding check_all
check_all-IsTracked onchain owner [] os h = h
check_all-IsTracked onchain owner (p ∷ ps) os h =
    check_all-IsTracked onchain owner ps _ (check_one-IsTracked owner p (onchain p) os h)

synced-IsTracked :
    (now_ms : ℕ) (owner : Text) (answer : Option (List DbOrder)) (os : List TrackedOrder)
    → IsTracked os
    → IsTracked (synced now_ms owner answer os)
synced-IsTracked now_ms owner none os h = h
synced-IsTracked now_ms owner (some rows) os h = sync_rows-IsTracked now_ms owner os rows os h

-- Whatever the server and the contracts answer, a reconciliation of at most 100 orders with distinct
-- owners and nonces leaves at most 100 with distinct owners and nonces.
pub reconcile-IsTracked :
    (now_ms : ℕ) (owner : Text) (answer : Option (List DbOrder)) (onchain : TrackedOrder → Onchain)
    (os : List TrackedOrder)
    → IsTracked os
    → IsTracked (reconcile now_ms owner answer onchain os)
unfolding reconcile
reconcile-IsTracked now_ms owner answer onchain os h =
    check_all-IsTracked onchain owner _ _ (synced-IsTracked now_ms owner answer os h)
