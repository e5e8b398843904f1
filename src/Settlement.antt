-- ===== src/Settlement.antt =====
-- The settlement of fills whose parties sign later: the sign route
-- (client/app/api/settlements/[id]/sign/route.ts) and client/scripts/settlement-reconciler.ts, over
-- the rows of "TxJob". Settlement/Pending has the list of a party's jobs, and Settlement/Build the
-- transactions. The network's answers are parameters; timestamps are in milliseconds.
pub mod Sign
pub mod Reconciler
pub mod Pending
pub mod Build
mod Tests
use kryon_v.Base.{
  ℕ, zero, suc, ◌+◌, ◌-◌, Bool, true, false, ◌&&◌, ◌||◌, not, Option, none, some, List, [], ◌∷◌,
  map, findb, ◌==◌, ltb, if◌then◌else◌, filterb, take, Text, text_eq,
}
use kryon_v.Store.{Order, Fill, TxStatus, queued, submitted, confirmed, failed, Payload, TxJob, Db}

abbrev pub status_eq : TxStatus → TxStatus → Bool
status_eq queued queued = true
status_eq submitted submitted = true
status_eq confirmed confirmed = true
status_eq failed failed = true
status_eq _ _ = false

-- A text that JavaScript takes for true.
abbrev pub present : Option Text → Bool
present none = false
present (some []) = false
present (some (c ∷ s)) = true

abbrev pub is_some {ℓ} : {A : Type ℓ} → Option A → Bool
is_some none = false
is_some (some a) = true

-- An `UPDATE "TxJob" ... WHERE id = ... AND test`, with the number of its rows.
unfoldable pub update_job : Text → (TxJob → Bool) → (TxJob → TxJob) → List TxJob → List TxJob
update_job id test change [] = []
update_job id test change (j ∷ js) =
    (if text_eq j.id id && test j then change j else j) ∷ update_job id test change js

unfoldable pub hits : Text → (TxJob → Bool) → List TxJob → Bool
hits id test [] = false
hits id test (j ∷ js) = text_eq j.id id && test j || hits id test js

unfoldable pub find_job : Text → List TxJob → Option TxJob
find_job id js = findb (λ j. text_eq j.id id) js

abbrev pub both_signed : Payload → Bool
both_signed p = present p.maker_signed_entry && present p.taker_signed_entry

abbrev pub is_queued : TxJob → Bool
is_queued j = status_eq j.status queued

abbrev pub any_job : TxJob → Bool
any_job j = true

-- `UPDATE ... RETURNING id`: whether it returns a row, and the table.
abbrev pub update_returning :
    Text → (TxJob → Bool) → (TxJob → TxJob) → List TxJob → Bool × List TxJob
update_returning id test change js = (hits id test js, update_job id test change js)

-- The claims: of the sign route, and of `resubmitJob`.
unfoldable pub claim_queued : ℕ → Text → List TxJob → Bool × List TxJob
claim_queued now id =
    update_returning id is_queued (λ j. record j { status = submitted; updated_at = now })

abbrev pub resubmittable : TxJob → Bool
resubmittable j =
    (status_eq j.status queued || status_eq j.status submitted)
    && (status_eq j.status queued || not (is_some j.submitted_hash))

unfoldable pub claim_resubmit : ℕ → Text → List TxJob → List TxJob
claim_resubmit now id =
    update_job id resubmittable (λ j. record j { status = submitted; updated_at = now })

unfoldable pub fail_job : ℕ → (TxJob → Bool) → Text → Text → List TxJob → List TxJob
fail_job now test id reason =
    update_job id test
      (λ j. record j { status = failed; last_error = some reason; updated_at = now })

unfoldable pub confirm_job : ℕ → (TxJob → Bool) → Text → List TxJob → List TxJob
confirm_job now test id =
    update_job id test (λ j. record j { status = confirmed; updated_at = now })

unfoldable pub set_hash : ℕ → Text → Text → List TxJob → List TxJob
set_hash now id hash =
    update_job id any_job (λ j. record j { submitted_hash = some hash; updated_at = now })
