-- ===== src/Monitor/Freshness.antt =====
-- When the monitor, client/scripts/monitor.ts, finds the oracle in order.
use kryon_v.Base.{
  ℕ, ◌≡◌, ◌⊎◌, ◌↔◌, ◌≢◌, refl, sym, ap, ◌∙◌, Bool, true, false, List, [], ◌∷◌, ◌++◌, ◌==◌, pos,
  ltb_ℤ, All, Text, Bool-cases, inl, inr, arith,
}
use kryon_v.Config.{MarketConfig}
use kryon_v.Monitor.{
  Outcome, returned, threw, Snapshot, sim_failed, no_value, published_at, age_secs, show_int,
  judge_stale, judge_snapshot, check_feed, after_feed, check_feeds, check_oracle_freshness,
}

abbrev pub passed : Outcome → Bool
passed (returned detail) = true
passed (threw message) = false

module _ (max_age_secs now_ms : ℕ) (snapshot : Text → Snapshot) (reasons : Text → List Text) where
  -- A feed has a price that is not too old, or nothing needs it.
  abbrev pub IsServed : Text → Type 0
  IsServed symbol =
      (time : ℕ) × (snapshot symbol ≡ published_at time)
      × (time ≢ 0)
      × ((ltb_ℤ (pos max_age_secs) (age_secs now_ms time) ≡ false) ⊎ (reasons symbol ≡ []))

  judge_stale-served :
      (symbol age : Text) (rs : List Text)
      → (passed (judge_stale max_age_secs now_ms snapshot reasons symbol age rs) ≡ true) ↔ (rs ≡ [])
  judge_stale-served symbol age [] = (λ _. refl, λ _. refl)
  judge_stale-served symbol age (r ∷ rs) = (λ h. ground arith, λ h. ground arith)

  module _ (symbol : Text) (time : ℕ) (e : snapshot symbol ≡ published_at time) where
    unneeded :
        IsServed symbol
        → ltb_ℤ (pos max_age_secs) (age_secs now_ms time) ≡ true
        → reasons symbol ≡ []
    unneeded (t, q, m, inr none_left) old = none_left
    unneeded (t, q, m, inl young) old =
        let same : time ≡ t = ground arith in
        let young' : ltb_ℤ (pos max_age_secs) (age_secs now_ms time) ≡ false = rw same young in
        let t = sym old ∙ young' in ground arith

  judge_snapshot-IsServed :
      (symbol : Text) (o : Snapshot)
      → snapshot symbol ≡ o
      → (passed (judge_snapshot max_age_secs now_ms snapshot reasons symbol o) ≡ true)
        ↔ IsServed symbol
  judge_snapshot-IsServed symbol (sim_failed error) e =
      (λ h. ground arith, λ (t, q, _, _). ground arith)
  judge_snapshot-IsServed symbol no_value e = (λ h. ground arith, λ (t, q, _, _). ground arith)
  judge_snapshot-IsServed symbol (published_at time) e = elim (Bool-cases (time == 0)) [
    | inl z ↦ rw z (λ h. ground arith, λ (t, q, n, _). ground arith)
    | inr n ↦ elim (Bool-cases (ltb_ℤ (pos max_age_secs) (age_secs now_ms time))) [
      | inl old ↦
          let (there, back) =
            judge_stale-served symbol (show_int (age_secs now_ms time)) (reasons symbol) in
          rw (n, old)
            (λ h. (time, e, ground arith, inr (there h)), λ s. back (unneeded symbol time e s old))
      | inr young ↦ rw (n, young) (λ h. (time, e, ground arith, inl young), λ _. refl)
    ]
  ]

  check_feed_iff :
      (symbol : Text)
      → (passed (check_feed max_age_secs now_ms snapshot reasons symbol) ≡ true) ↔ IsServed symbol
  unfolding check_feed
  check_feed_iff symbol = judge_snapshot-IsServed symbol (snapshot symbol) refl

  after_feed_iff :
      (m : MarketConfig) (ms : List MarketConfig) (o : Outcome) (next : Text → Outcome)
      → check_feed max_age_secs now_ms snapshot reasons m.oracle_symbol ≡ o
      → ((d : Text) → (passed (next d) ≡ true) ↔ All (λ m. IsServed m.oracle_symbol) ms)
      → (passed (after_feed o next) ≡ true) ↔ All (λ m. IsServed m.oracle_symbol) (m ∷ ms)
  after_feed_iff m ms (threw d) next e rest =
      let (there, back) = check_feed_iff m.oracle_symbol in
      (λ h. ground arith, λ (s, ss). let p = back s in ap passed (sym e) ∙ p)
  after_feed_iff m ms (returned d) next e rest =
      let (there, back) = check_feed_iff m.oracle_symbol in
      let (onward, home) = rest d in (λ h. (there (ap passed e), onward h), λ (s, ss). home ss)

  check_feeds_iff :
      (ms : List MarketConfig) (results : List Text)
      → (passed (check_feeds max_age_secs now_ms snapshot reasons ms results) ≡ true)
        ↔ All (λ m. IsServed m.oracle_symbol) ms
  unfolding check_feeds
  check_feeds_iff [] results = (λ _. tt, λ _. refl)
  check_feeds_iff (m ∷ ms) results =
      after_feed_iff m ms (check_feed max_age_secs now_ms snapshot reasons m.oracle_symbol) _ refl
        (λ d. check_feeds_iff ms (results ++ (d ∷ [])))

  -- The check of the oracle passes exactly where every active market has a price published at a time
  -- that is not zero and not too old, or that no activity needs.
  pub check_oracle_freshness_iff :
      (ms : List MarketConfig)
      → (passed (check_oracle_freshness max_age_secs now_ms snapshot reasons ms) ≡ true)
        ↔ All (λ m. IsServed m.oracle_symbol) ms
  unfolding check_oracle_freshness
  check_oracle_freshness_iff ms = check_feeds_iff ms []
