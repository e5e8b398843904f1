-- ===== src/Oracle/Ticking/Serial.antt =====
-- One tick at a time, client/scripts/oracle-keeper.ts.
use kryon_v.Base.{
  ℕ, zero, suc, ◌+◌, ◌*◌, ◌≤◌, true, false, Option, none, some, List, [], ◌∷◌, map, length, ◌≡◌,
  refl, ◌⊎◌, inl, inr, Text, arith,
}
use kryon_v.Oracle.Ticking.{
  Stage, asking, fetching, writing, Answer, says, throws, next_asset, resume, Keeper, tick_call,
  Event, interval, answer, settle, behind, resume_at, step, run_events, boot,
}

-- The answers that a tick still awaits, at most.
pub left : List Text → Stage → ℕ
left all asking = 1 + 2 * length all
left all (fetching a rest) = 2 + 2 * length rest
left all (writing a rest) = 1 + 2 * length rest

-- No call of `tick` is under way and the flag is down, or one is and the flag is up.
pub IsSerial : List Text → Keeper → Type 0
IsSerial all k =
    ((k.ticking ≡ false) × (k.runs ≡ []))
    ⊎ ((s : Stage) × (k.ticking ≡ true) × (k.runs ≡ s ∷ []) × (left all s ≤ 1 + 2 * length all))

-- Over, or with less to wait for.
abbrev Later : List Text → ℕ → Option Stage → Type 0
Later all n o = (o ≡ none) ⊎ ((s : Stage) × (o ≡ some s) × (suc (left all s) ≤ n))

next_asset-Later :
    (all rest : List Text) (n : ℕ) → 1 + 2 * length rest ≤ n → Later all n (next_asset rest)
unfolding next_asset left
next_asset-Later all [] n h = inl refl
next_asset-Later all (a ∷ rest) n h = inr (fetching a rest, refl, omega arith)

resume-Later : (all : List Text) (r : Stage) (a : Answer) → Later all (left all r) (resume all r a)
unfolding resume left
resume-Later all asking (says true) = next_asset-Later all all _ (omega arith)
resume-Later all asking (says false) = inl refl
resume-Later all asking throws = inl refl
resume-Later all (fetching a rest) (says true) = inr (writing a rest, refl, omega arith)
resume-Later all (fetching a rest) (says false) = next_asset-Later all rest _ (omega arith)
resume-Later all (fetching a rest) throws = next_asset-Later all rest _ (omega arith)
resume-Later all (writing a rest) (says b) = next_asset-Later all rest _ (omega arith)
resume-Later all (writing a rest) throws = next_asset-Later all rest _ (omega arith)

-- The one call that is under way, after an answer.
settle-IsSerial :
    (all : List Text) (n : ℕ) (o : Option Stage)
    → Later all n o
    → n ≤ 1 + 2 * length all
    → IsSerial all (settle true o [])
unfolding settle IsSerial
settle-IsSerial all n o (inl e) h = rw e (inl (refl, refl))
settle-IsSerial all n o (inr (s, e, l)) h = rw e (inr (s, refl, refl, omega arith))

resume_at-IsSerial :
    (all : List Text) (i : ℕ) (a : Answer) (r : Stage)
    → left all r ≤ 1 + 2 * length all
    → IsSerial all (resume_at all true i a (r ∷ []))
unfolding resume_at behind IsSerial
resume_at-IsSerial all zero a r h = settle-IsSerial all _ _ (resume-Later all r a) h
resume_at-IsSerial all (suc i) a r h = inr (r, refl, refl, h)

step-IsSerial :
    (all : List Text) (e : Event) (k : Keeper) → IsSerial all k → IsSerial all (step all e k)
unfolding step tick_call IsSerial left resume_at
step-IsSerial all interval k (inl (t, r)) = rw (t, r) (inr (asking, refl, refl, omega arith))
step-IsSerial all interval k (inr (s, t, r, l)) = rw t (inr (s, refl, r, l))
step-IsSerial all (answer i a) k (inl (t, r)) = rw (t, r) (inl (refl, refl))
step-IsSerial all (answer i a) k (inr (s, t, r, l)) = rw (t, r) (resume_at-IsSerial all i a s l)

run_events_keeps-IsSerial :
    (all : List Text) (es : List Event) (k : Keeper)
    → IsSerial all k
    → IsSerial all (run_events all es k)
unfolding run_events
run_events_keeps-IsSerial all [] k h = h
run_events_keeps-IsSerial all (e ∷ es) k h =
    run_events_keeps-IsSerial all es _ (step-IsSerial all e k h)

-- In whatever order the timer fires and the answers come, at most one call of `tick` is under way,
-- and the flag is up exactly while one is.
pub run_events-IsSerial :
    (all : List Text) (es : List Event) → IsSerial all (run_events all es boot)
unfolding boot tick_call IsSerial left
run_events-IsSerial all es =
    run_events_keeps-IsSerial all es boot (inr (asking, refl, refl, omega arith))

-- The answers of the tick that is under way.
pub answered : List Answer → List Event
answered gs = map (answer 0) gs

-- No tick is under way, and the next call starts one.
pub IsFree : Keeper → Type 0
IsFree k = (k.runs ≡ []) × ((tick_call k).runs ≡ asking ∷ [])

free-stays :
    (all : List Text) (gs : List Answer) (k : Keeper)
    → k.ticking ≡ false
    → k.runs ≡ []
    → IsFree (run_events all (answered gs) k)
unfolding run_events answered step resume_at IsFree tick_call
free-stays all [] k t r = rw (t, r) (refl, refl)
free-stays all (a ∷ gs) k t r = free-stays all gs _ (rw r t) (rw r refl)

none-left : (all : List Text) (r : Stage) → left all r ≤ 0 → ⊥
unfolding left
none-left all asking h = omega arith
none-left all (fetching a rest) h = omega arith
none-left all (writing a rest) h = omega arith

-- A tick with fewer answers to wait for than there are.
ends :
    (all : List Text) (gs : List Answer) (n : ℕ) (o : Option Stage)
    → Later all n o
    → n ≤ suc (length gs)
    → IsFree (run_events all (answered gs) (settle true o []))
unfolding run_events answered step resume_at settle
ends all gs n o (inl e) h = rw e (free-stays all gs _ refl refl)
ends all [] n o (inr (s, e, l)) h = absurd (none-left all s (omega arith))
ends all (a ∷ gs) n o (inr (s, e, l)) h =
    rw e (ends all gs (left all s) (resume all s a) (resume-Later all s a) (omega arith))

frees :
    (all : List Text) (gs : List Answer) (k : Keeper)
    → IsSerial all k
    → 1 + 2 * length all ≤ length gs
    → IsFree (run_events all (answered gs) k)
unfolding IsSerial settle
frees all gs k (inl (t, r)) h = free-stays all gs k t r
frees all gs k (inr (s, t, r, l)) h =
    rw (t, r) (ends all gs (suc (left all s)) (some s) (inr (s, refl, omega arith)) (omega arith))

-- The guard blocks no later tick for good: in every state that is reached, two answers for each
-- asset and one for the activity check, whatever they say, end the tick that is under way, and the
-- next call starts a new one.
pub run_events-Frees :
    (all : List Text) (es : List Event) (gs : List Answer)
    → 1 + 2 * length all ≤ length gs
    → IsFree (run_events all (answered gs) (run_events all es boot))
run_events-Frees all es gs h = frees all gs _ (run_events-IsSerial all es) h
