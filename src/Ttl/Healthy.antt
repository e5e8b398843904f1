-- ===== src/Ttl/Healthy.antt =====
-- What a run of client/scripts/ttl-keeper.ts has seen when it ends well.
use kryon_v.Base.{
  ℕ, zero, suc, All, if_elim, ◌≡◌, refl, Bool, true, false, Option, none, some, List, [], ◌∷◌, ltb,
  filterb, Bool-cases, inl, inr, arith,
}
use kryon_v.Settlement.Build.{Poll, success, failed, not_found, throws}
use kryon_v.Ttl.{
  LedgerKey, Target, LedgerEntry, World, Ending, healthy, simulated, simulation_error, Simulation,
  extend_to_ledgers, needs_extension, keys_of, targets, poll_extension, on_sent, fee_of,
  on_simulation, extend, on_entries, on_ledger, run, near_end_entry, find_entry, Sent, sent,
  send_error, after_poll,
}
use kryon_v.Ttl.Spending.{HasRead}

abbrev pub is_healthy : Ending → Bool
is_healthy healthy = true
is_healthy _ = false

after_poll_busy :
    (p : Poll) (later : Ending) → is_healthy later ≡ false → is_healthy (after_poll p later) ≡ false
after_poll_busy success later h = refl
after_poll_busy failed later h = refl
after_poll_busy throws later h = refl
after_poll_busy not_found later h = h

filterb_none :
    (p : Target → Bool) (ts : List Target) → keys_of (filterb p ts) ≡ [] → All (λ t. p t ≡ false) ts
filterb_none p [] h = tt
filterb_none p (t ∷ ts) h = elim (Bool-cases (p t)) [
  | inl e ↦ let h' : (t.key ∷ keys_of (filterb p ts)) ≡ [] = rw e at h in ground arith
  | inr e ↦ (e, filterb_none p ts (rw e at h))
]

module _ (w : World) where
  -- How a run that finds nothing to extend has ended.
  poll_extension_busy : (left i : ℕ) → is_healthy (poll_extension w left i) ≡ false
  unfolding poll_extension
  poll_extension_busy zero i = refl
  poll_extension_busy (suc left) i =
      after_poll_busy (w.poll i) (poll_extension w left (suc i)) (poll_extension_busy left (suc i))

  on_sent_busy : (o : Option Sent) → is_healthy (on_sent w o) ≡ false
  on_sent_busy none = refl
  on_sent_busy (some send_error) = refl
  on_sent_busy (some sent) = poll_extension_busy 20 0

  abbrev IsBusy : Ending × Option (List LedgerKey) → Type 0
  IsBusy r = is_healthy r.0 ≡ false

  on_simulation_busy :
      (keys : List LedgerKey) (o : Option Simulation)
      → is_healthy (on_simulation w keys o).0 ≡ false
  on_simulation_busy keys none = refl
  on_simulation_busy keys (some simulation_error) = refl
  on_simulation_busy keys (some (simulated fee)) =
      if_elim IsBusy (ltb w.fee_ceiling (fee_of fee)) (λ _. refl)
        (λ _.
          if_elim IsBusy w.dry_run (λ _. refl) (λ _. on_sent_busy (w.send keys extend_to_ledgers)))

  extend-healthy : (keys : List LedgerKey) → is_healthy (extend w keys).0 ≡ true → keys ≡ []
  extend-healthy [] h = refl
  extend-healthy (k ∷ ks) h =
      let busy : IsBusy (extend w (k ∷ ks)) =
        if_elim IsBusy w.get_account
          (λ _. on_simulation_busy (k ∷ ks) (w.simulate (k ∷ ks) extend_to_ledgers)) (λ _. refl) in
      ground arith

  -- The targets near their end that the run has read.
  abbrev pub NoneDue : Type 0
  NoneDue =
      (current : ℕ) × (entries : List LedgerEntry) × HasRead w current entries
      × All (λ t. near_end_entry current (find_entry t.key entries) ≡ false) (targets w)

  on_entries-NoneDue :
      (current : ℕ) (o : Option (List LedgerEntry))
      → w.latest_ledger ≡ some current
      → w.get_entries (keys_of (targets w)) ≡ o
      → is_healthy (on_entries w current o).0 ≡ true
      → NoneDue
  unfolding needs_extension
  on_entries-NoneDue current none l e h = ground arith
  on_entries-NoneDue current (some entries) l e h = (
    current,
    entries,
    (l, e),
    filterb_none (λ (t : Target). near_end_entry current (find_entry t.key entries)) (targets w)
        (extend-healthy (keys_of (needs_extension current entries (targets w))) h),
  )

  on_ledger-NoneDue :
      (o : Option ℕ) → w.latest_ledger ≡ o → is_healthy (on_ledger w o).0 ≡ true → NoneDue
  on_ledger-NoneDue none e h = ground arith
  on_ledger-NoneDue (some current) e h =
      on_entries-NoneDue current (w.get_entries (keys_of (targets w))) e refl h

  -- A run that ends as healthy has read the ledger and the entries, and each target is missing from
  -- them, has no known end, or has at least 14 days left.
  pub run-NoneDue : is_healthy (run w).0 ≡ true → NoneDue
  unfolding run
  run-NoneDue h = on_ledger-NoneDue w.latest_ledger refl h
