-- ===== src/Settlement/Sign/Claims.antt =====
-- The statements that processes run on "TxJob" at the same time: those of the sign route and of
-- client/scripts/settlement-reconciler.ts, one atomic step each, in any order.
use kryon_v.Base.{
  ℕ, ◌+◌, ◌≤◌, ◌≡◌, refl, sym, ap, ◌∙◌, Bool, true, false, ◌&&◌, ◌||◌, List, [], ◌∷◌, if◌then◌else◌,
  Text, text_eq, text_eq_iff, text_eq_refl, Bool-cases, inl, inr, arith,
}
use kryon_v.Store.{TxJob, Payload}
use kryon_v.Settlement.{
  update_job, hits, is_queued, any_job, claim_queued, claim_resubmit, fail_job, confirm_job,
  set_hash,
}
use kryon_v.Settlement.Sign.{World, merge_entry, claim_and_send, broadcast, submitting}

pub data Statement : Type 0 where
  merges : ℕ → Bool → Text → Statement
  claims reclaims marks_confirmed : ℕ → Statement
  stores_hash marks_failed expires : ℕ → Text → Statement

-- The table after a statement on the job with this id.
unfoldable pub after : Statement → Text → List TxJob → List TxJob
after (merges now is_maker entry) id js = merge_entry now id is_maker entry js
after (claims now) id js = (claim_queued now id js).1
after (reclaims now) id js = claim_resubmit now id js
after (marks_confirmed now) id js = confirm_job now any_job id js
after (stores_hash now hash) id js = set_hash now id hash js
after (marks_failed now reason) id js = fail_job now any_job id reason js
after (expires now reason) id js = fail_job now is_queued id reason js

-- A request of the sign route goes on to broadcast where its claim returns a row.
unfoldable pub wins : Text → Statement → Text → List TxJob → Bool
wins id (claims now) at js = text_eq at id && (claim_queued now at js).0
wins id _ at js = false

unfoldable pub broadcasts : Text → List (Statement × Text) → List TxJob → ℕ
broadcasts id [] js = 0
broadcasts id ((s, at) ∷ ss) js =
    let later = broadcasts id ss (after s at js) in (if wins id s at js then 1 else 0) + later

or_mono :
    (a b c d : Bool)
    → (a ≡ true → c ≡ true)
    → (b ≡ true → d ≡ true)
    → (a || b) ≡ true
    → (c || d) ≡ true
or_mono true b c d f g h = rw (f refl) refl
or_mono false b true d f g h = refl
or_mono false b false d f g h = g h

and_false_or : (a : Bool) {b : Bool} → b ≡ false → (a && false || b) ≡ false
and_false_or true h = h
and_false_or false h = h

and_mono : (a b c : Bool) → (b ≡ true → c ≡ true) → (a && b) ≡ true → (a && c) ≡ true
and_mono true b c f h = f h
and_mono false b c f h = h

row_back :
    (id : Text) (change : TxJob → TxJob) (j : TxJob) (b : Bool)
    → (change j).id ≡ j.id
    → (is_queued (change j) ≡ true → is_queued j ≡ true)
    → (text_eq (if b then change j else j).id id && is_queued (if b then change j else j)) ≡ true
    → (text_eq j.id id && is_queued j) ≡ true
row_back id change j false same back h = h
row_back id change j true same back h =
    and_mono _ _ _ back (sym (ap (λ k. text_eq k id && is_queued (change j)) same) ∙ h)

-- An update that makes no job queued leaves no more jobs queued than before.
hits-update_job :
    (id at : Text) (test : TxJob → Bool) (change : TxJob → TxJob) (js : List TxJob)
    → ((j : TxJob) → (change j).id ≡ j.id)
    → ((j : TxJob) → is_queued (change j) ≡ true → is_queued j ≡ true)
    → hits id is_queued (update_job at test change js) ≡ true
    → hits id is_queued js ≡ true
unfolding hits update_job
hits-update_job id at test change [] same_id back h = h
hits-update_job id at test change (j ∷ js) same_id back h =
    or_mono _ _ _ _ (row_back id change j (text_eq j.id at && test j) (same_id j) (back j))
      (hits-update_job id at test change js same_id back) h

hits-claim :
    (now : ℕ) (id : Text) (js : List TxJob) → hits id is_queued (claim_queued now id js).1 ≡ false
unfolding hits claim_queued update_job
hits-claim now id [] = refl
hits-claim now id (j ∷ js) = elim (Bool-cases (text_eq j.id id && is_queued j)) [
  | inl e ↦ rw e (and_false_or (text_eq j.id id) (hits-claim now id js))
  | inr e ↦ rw (e, e) (hits-claim now id js)
]

hits-after :
    (id at : Text) (s : Statement) (js : List TxJob)
    → hits id is_queued (after s at js) ≡ true
    → hits id is_queued js ≡ true
unfolding after merge_entry claim_queued claim_resubmit confirm_job set_hash fail_job
hits-after id at (merges now is_maker entry) js h =
    hits-update_job id at _ _ js (λ j. refl) (λ j q. q) h
hits-after id at (claims now) js h =
    hits-update_job id at _ _ js (λ j. refl) (λ j q. ground arith) h
hits-after id at (reclaims now) js h =
    hits-update_job id at _ _ js (λ j. refl) (λ j q. ground arith) h
hits-after id at (marks_confirmed now) js h =
    hits-update_job id at _ _ js (λ j. refl) (λ j q. ground arith) h
hits-after id at (stores_hash now hash) js h = hits-update_job id at _ _ js (λ j. refl) (λ j q. q) h
hits-after id at (marks_failed now reason) js h =
    hits-update_job id at _ _ js (λ j. refl) (λ j q. ground arith) h
hits-after id at (expires now reason) js h =
    hits-update_job id at _ _ js (λ j. refl) (λ j q. ground arith) h

and_split : (a b : Bool) → (a && b) ≡ true → (a ≡ true) × (b ≡ true)
and_split a b h = ground arith

all_gone : (n : ℕ) (b : Bool) → b ≡ false → n ≤ (if b then 1 else 0) → 1 + n ≤ 1
all_gone n b e h = ground arith

no_more :
    (n : ℕ) (b c : Bool)
    → (b ≡ true → c ≡ true)
    → n ≤ (if b then 1 else 0)
    → 0 + n ≤ (if c then 1 else 0)
no_more n true c f h = rw (f refl) (omega (arith, h))
no_more n false true f h = omega (arith, h)
no_more n false false f h = omega (arith, h)

wins-hits :
    (id at : Text) (s : Statement) (js : List TxJob)
    → wins id s at js ≡ true
    → hits id is_queued js ≡ true
unfolding wins claim_queued
wins-hits id at (claims now) js h =
    let (e, q) = and_split _ _ h in rw (sym ((text_eq_iff at id).0 e)) q
wins-hits id at (merges now is_maker entry) js h = ground arith
wins-hits id at (reclaims now) js h = ground arith
wins-hits id at (marks_confirmed now) js h = ground arith
wins-hits id at (stores_hash now hash) js h = ground arith
wins-hits id at (marks_failed now reason) js h = ground arith
wins-hits id at (expires now reason) js h = ground arith

wins-after :
    (id at : Text) (s : Statement) (js : List TxJob)
    → wins id s at js ≡ true
    → hits id is_queued (after s at js) ≡ false
unfolding wins after claim_queued
wins-after id at (claims now) js h =
    let (e, q) = and_split _ _ h in rw (sym ((text_eq_iff at id).0 e)) (hits-claim now at js)
wins-after id at (merges now is_maker entry) js h = ground arith
wins-after id at (reclaims now) js h = ground arith
wins-after id at (marks_confirmed now) js h = ground arith
wins-after id at (stores_hash now hash) js h = ground arith
wins-after id at (marks_failed now reason) js h = ground arith
wins-after id at (expires now reason) js h = ground arith

won_once :
    (id : Text) (ss : List (Statement × Text)) (js : List TxJob)
    → broadcasts id ss js ≤ (if hits id is_queued js then 1 else 0)
unfolding broadcasts
won_once id [] js = omega arith
won_once id ((s, at) ∷ ss) js =
    let rec = won_once id ss (after s at js) in
    elim (Bool-cases (wins id s at js)) [
      | inl e ↦ rw (e, wins-hits id at s js e) (all_gone _ _ (wins-after id at s js e) rec)
      | inr e ↦ rw e (no_more _ _ _ (hits-after id at s js) rec)
    ]

-- However the statements on the jobs interleave, at most one request of the sign route has its claim
-- of a job return a row, and none where the job is not queued to begin with; and the route goes on to
-- broadcast exactly where its claim returns a row, and answers else that the job is being submitted.
pub broadcasts_once :
    (id : Text) (ss : List (Statement × Text)) (js : List TxJob) (w : World) (p : Payload)
    → (broadcasts id ss js ≤ (if hits id is_queued js then 1 else 0))
      × (claim_and_send w id p js ≡ (
          if wins id (claims w.now_ms) id js
          then broadcast w id p (after (claims w.now_ms) id js)
          else (submitting, js)))
unfolding claim_and_send wins after
broadcasts_once id ss js w p = (won_once id ss js, rw (text_eq_refl id) refl)
