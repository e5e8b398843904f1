-- ===== src/Settlement/Build/Submit.antt =====
-- How `submitSettleFillSigned` ends, client/lib/stellar/settlement.ts.
use kryon_v.Base.{
  ℕ, zero, suc, ◌+◌, ◌≤◌, ◌<◌, ◌≡◌, ◌⊎◌, refl, Option, none, some, Text, Bool-cases, inl, inr,
  arith,
}
use kryon_v.Matcher.{MatchResult}
use kryon_v.Settlement.Build.{
  ScVal, Sdk, Simulation, assembles, simulation_error, Sent, sent_as, send_error, Poll, success,
  failed, throws, not_found, bytes_n64_val, after_poll, poll_settled, on_sent, send_simulated,
  with_signatures, submit_settle_fill_signed,
}

module _ (sdk : Sdk) where
  -- It ends within some polls: without a hash, or with the sent transaction's when a poll confirmed it.
  abbrev pub Ends : ℕ → Option Text × ℕ → Type 0
  Ends limit r =
      (r.1 ≤ limit)
      × ((r.0 ≡ none)
          ⊎ ((hash : Text) × (i : ℕ) × (r.0 ≡ some hash)
              × (sdk.send ≡ some (sent_as hash))
              × (i < limit)
              × (sdk.poll i ≡ success)))

  abbrev Confirms : ℕ → ℕ → Text → Option Text × ℕ → Type 0
  Confirms left limit hash r =
      (r.1 ≤ left)
      × ((r.0 ≡ none) ⊎ ((k : ℕ) × (r.0 ≡ some hash) × (k < limit) × (sdk.poll k ≡ success)))

  after_poll-Confirms :
      (left i limit : ℕ) (hash : Text) (p : Poll) (later : Option Text × ℕ)
      → sdk.poll i ≡ p
      → i < limit
      → Confirms left limit hash later
      → Confirms (suc left) limit hash (after_poll hash p later)
  after_poll-Confirms left i limit hash success later e h c = (omega arith, inr (i, refl, h, e))
  after_poll-Confirms left i limit hash failed later e h c = (omega arith, inl refl)
  after_poll-Confirms left i limit hash throws later e h c = (omega arith, inl refl)
  after_poll-Confirms left i limit hash not_found later e h (n, c) = (omega arith, c)

  poll_settled-Confirms :
      (left i limit : ℕ) (hash : Text)
      → left + i ≤ limit
      → Confirms left limit hash (poll_settled sdk left i hash)
  unfolding poll_settled
  poll_settled-Confirms zero i limit hash h = (omega arith, inl refl)
  poll_settled-Confirms (suc left) i limit hash h =
      after_poll-Confirms left i limit hash (sdk.poll i) (poll_settled sdk left (suc i) hash) refl
        (omega arith) (poll_settled-Confirms left (suc i) limit hash (omega arith))

  on_sent-Ends : (o : Option Sent) → sdk.send ≡ o → Ends 30 (on_sent sdk o)
  on_sent-Ends none e = (omega arith, inl refl)
  on_sent-Ends (some send_error) e = (omega arith, inl refl)
  on_sent-Ends (some (sent_as hash)) e =
      let (n, c) = poll_settled-Confirms 30 0 30 hash (omega arith) in
      elim c [
        | inl lost ↦ (n, inl lost)
        | inr (k, got, small, ok) ↦ (n, inr (hash, k, got, e, small, ok))
      ]

  send_simulated-Ends : (o : Option Simulation) → Ends 30 (send_simulated sdk o)
  send_simulated-Ends none = (omega arith, inl refl)
  send_simulated-Ends (some simulation_error) = (omega arith, inl refl)
  send_simulated-Ends (some (assembles entries xdr)) = on_sent-Ends sdk.send refl

  with_signatures-Ends :
      (m : MatchResult) (o r : Option ScVal) → Ends 30 (with_signatures sdk m o r)
  with_signatures-Ends m none r = (omega arith, inl refl)
  with_signatures-Ends m (some a) none = (omega arith, inl refl)
  with_signatures-Ends m (some a) (some b) = send_simulated-Ends _

  -- The submission ends after at most 30 polls, and it gives a hash only where that transaction was
  -- sent and one of the polls found it successful.
  pub submit_settle_fill_signed-Ends :
      (m : MatchResult) (fee_payer maker_sig taker_sig : Text)
      → Ends 30 (submit_settle_fill_signed sdk m fee_payer maker_sig taker_sig)
  unfolding submit_settle_fill_signed
  submit_settle_fill_signed-Ends m fee_payer maker_sig taker_sig =
      elim (Bool-cases (sdk.get_account fee_payer)) [
        | inl e ↦
            rw e
              (with_signatures-Ends m (bytes_n64_val sdk maker_sig) (bytes_n64_val sdk taker_sig))
        | inr e ↦ rw e (omega arith, inl refl)
      ]

  -- A transaction that no poll has found gives no hash.
  poll_settled-not_found :
      (left i : ℕ) (hash : Text)
      → ((k : ℕ) → sdk.poll k ≡ not_found)
      → (poll_settled sdk left i hash).0 ≡ none
  unfolding poll_settled
  poll_settled-not_found zero i hash h = refl
  poll_settled-not_found (suc left) i hash h = rw (h i) (poll_settled-not_found left (suc i) hash h)
