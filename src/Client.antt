-- ===== src/Client.antt =====
-- The orders that a browser tracks: the store of client/stores/orders.ts, and its reconciliation with
-- the server and the chain, client/features/trade/hooks/useOrderReconciliation.ts. What the fetch and
-- the contract calls answer are parameters.
pub mod Bounds
pub mod Sync
pub mod Entry
pub mod Live
mod Tests
use kryon_v.Base.{
  ℕ, zero, suc, Bool, true, false, ◌&&◌, ◌||◌, not, Option, none, some, List, [], ◌∷◌, map, ◌==◌,
  ltb, leb, if◌then◌else◌, filterb, findb, take, Text, text_eq,
}
use kryon_v.Signing.{OrderIntent}

pub data TrackedStatus : Type 0 where
  pending filled cancelled : TrackedStatus

-- `OrderIntent & { status, addedAt }`
pub record TrackedOrder : Type 0 where
  pub intent : OrderIntent
  pub status : TrackedStatus
  pub added_at : ℕ

-- The key of an order.
abbrev pub same_order : Text → ℕ → TrackedOrder → Bool
same_order owner nonce o = text_eq o.intent.owner owner && o.intent.nonce == nonce

unfoldable pub add_order : ℕ → OrderIntent → List TrackedOrder → List TrackedOrder
add_order now_ms intent orders =
    (record { intent = intent; status = pending; added_at = now_ms })
    ∷ take 99 (filterb (λ o. not (same_order intent.owner intent.nonce o)) orders)

-- `!owner || o.owner === owner`
abbrev any_or_same : Option Text → Text → Bool
any_or_same none owner = true
any_or_same (some []) owner = true
any_or_same (some (c ∷ s)) owner = text_eq owner (c ∷ s)

unfoldable pub set_status : TrackedStatus → ℕ → Option Text → TrackedOrder → TrackedOrder
set_status status nonce owner o =
    if o.intent.nonce == nonce && any_or_same owner o.intent.owner
    then record o { status = status }
    else o

unfoldable pub cancel_order : ℕ → Option Text → List TrackedOrder → List TrackedOrder
cancel_order nonce owner orders = map (set_status cancelled nonce owner) orders

unfoldable pub mark_filled : ℕ → Option Text → List TrackedOrder → List TrackedOrder
mark_filled nonce owner orders = map (set_status filled nonce owner) orders

abbrev pub is_cancelled_status : TrackedStatus → Bool
is_cancelled_status cancelled = true
is_cancelled_status _ = false

abbrev pub is_pending : TrackedStatus → Bool
is_pending pending = true
is_pending _ = false

unfoldable pub clear_cancelled : List TrackedOrder → List TrackedOrder
clear_cancelled orders = filterb (λ o. not (is_cancelled_status o.status)) orders

abbrev pub clear_all : List TrackedOrder → List TrackedOrder
clear_all orders = []

-- A row of the server's answer.
pub record DbOrder : Type 0 where
  pub intent : OrderIntent
  pub cancelled : Bool
  pub filled_size : ℕ

abbrev pub has_order : Text → ℕ → List TrackedOrder → Bool
has_order owner nonce orders = elim (findb (same_order owner nonce) orders) [
  | none ↦ false
  | some o ↦ true
]

-- One row: `seen` are the orders that the store held when the answer came.
unfoldable pub sync_row :
    ℕ → Text → List TrackedOrder → DbOrder → List TrackedOrder → List TrackedOrder
sync_row now_ms owner seen row orders =
    if row.cancelled
    then cancel_order row.intent.nonce (some owner) orders
    else (if ltb 0 row.intent.size && leb row.intent.size row.filled_size
        then mark_filled row.intent.nonce (some owner) orders
        else if has_order owner row.intent.nonce seen
        then orders
        else add_order now_ms row.intent orders)

unfoldable pub sync_rows :
    ℕ → Text → List TrackedOrder → List DbOrder → List TrackedOrder → List TrackedOrder
sync_rows now_ms owner seen [] orders = orders
sync_rows now_ms owner seen (row ∷ rows) orders =
    sync_rows now_ms owner seen rows (sync_row now_ms owner seen row orders)

-- What the contracts answer for an order: the filled size and the flag, or an error.
pub data Onchain : Type 0 where
  unreachable : Onchain
  read : ℕ → Bool → Onchain

unfoldable pub check_one : Text → TrackedOrder → Onchain → List TrackedOrder → List TrackedOrder
check_one owner o unreachable orders = orders
check_one owner o (read filled_size canc) orders =
    if canc
    then cancel_order o.intent.nonce (some owner) orders
    else (if ltb 0 o.intent.size && leb o.intent.size filled_size
        then mark_filled o.intent.nonce (some owner) orders
        else orders)

unfoldable pub check_all :
    (TrackedOrder → Onchain) → Text → List TrackedOrder → List TrackedOrder → List TrackedOrder
check_all onchain owner [] orders = orders
check_all onchain owner (o ∷ os) orders =
    check_all onchain owner os (check_one owner o (onchain o) orders)

abbrev pub synced : ℕ → Text → Option (List DbOrder) → List TrackedOrder → List TrackedOrder
synced now_ms owner none orders = orders
synced now_ms owner (some rows) orders = sync_rows now_ms owner orders rows orders

-- `reconcile`; `answer` is `none` where the fetch fails or its answer is no success.
unfoldable pub reconcile :
    ℕ
    → Text
    → Option (List DbOrder)
    → (TrackedOrder → Onchain)
    → List TrackedOrder
    → List TrackedOrder
reconcile now_ms owner answer onchain orders =
    let after = synced now_ms owner answer orders in
    check_all onchain owner
      (take 20 (filterb (λ o. is_pending o.status && text_eq o.intent.owner owner) after)) after
