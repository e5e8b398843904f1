-- ===== src/Liquidation/Scan.antt =====
-- Whom a round of the keeper proposes to liquidate.
use mathlib.Core.List.{Memᴰ}
use kryon_v.Base.{
  ℕ, ◌-◌, ◌≡◌, refl, sym, ap, Bool, true, false, Option, some, List, [], ◌∷◌, ltb, Text, Bool-cases,
  inl, inr,
}
use kryon_v.Matcher.Tick.{Answer, throws, answers}
use kryon_v.Liquidation.{
  Network, HealthView, extend_instance_ttl, after, account_health, liquidate_account,
}
use kryon_v.Liquidation.Tick.{
  AccountRow, Settings, candidates, is_liquidatable, on_health, scan_account, scan, send_if,
  extend_ttl, bump_instance_ttls, bump_if_due, tick,
}
use kryon_v.Liquidation.Outcome.{Outcome, liquidate_account-Outcome}

module _ {S : Type 0} (net : Network S) (cfg : Settings) (rows : List AccountRow) where
  abbrev pub IsCandidate : Text → Type 0
  IsCandidate a = Memᴰ a (candidates cfg.max_accounts_per_tick rows) × (cfg.is_valid_key a ≡ true)

  -- What a round may do: read a candidate's health, work on a candidate that was just read as
  -- liquidatable, and call a contract to extend its lifetime.
  pub data Rounds (s : S) : S → Type 0 where
    start : Rounds s s
    checked :
        {t : S} → Rounds s t → (a : Text) → IsCandidate a → Rounds s (account_health net a t).1
    worked :
        {t u v : S}
        → Rounds s t
        → (a : Text) → IsCandidate a
        → (health : Option HealthView) → account_health net a t ≡ (answers health, u)
        → is_liquidatable health ≡ true
        → (b : Answer Bool) → Outcome net cfg.active a u (b, v)
        → Rounds s v
    account : {t : S} → Rounds s t → Rounds s (net.get_account t).1
    simulated :
        {t : S}
        → Rounds s t
        → (target : Text) → Rounds s (net.simulate (extend_instance_ttl target) t).1
    extended :
        {t : S}
        → Rounds s t
        → (target : Text) → Rounds s (net.send (extend_instance_ttl target) t).1

  after_health :
      (s t : S) (a : Text) (x : Answer (Option HealthView) × S)
      → account_health net a t ≡ x
      → IsCandidate a
      → Rounds s t
      → Rounds s (after x (on_health net cfg a)).1
  after_health s t a (throws, u) e c m = rw (sym (ap (λ x. x.1) e)) (checked m a c)
  after_health s t a (answers health, u) e c m = elim (Bool-cases (is_liquidatable health)) [
    | inl h ↦ rw h (
        worked m a c health e h (liquidate_account net cfg.active a u).0
          (liquidate_account-Outcome net cfg.active a u))
    | inr h ↦ rw (h, sym (ap (λ x. x.1) e)) (checked m a c)
  ]

  scan_account-Rounds :
      (s t : S) (a : Text)
      → Memᴰ a (candidates cfg.max_accounts_per_tick rows)
      → Rounds s t
      → Rounds s (scan_account net cfg a t)
  unfolding scan_account
  scan_account-Rounds s t a c m = elim (Bool-cases (cfg.is_valid_key a)) [
    | inl e ↦ rw e (after_health s t a _ refl (c, e) m)
    | inr e ↦ rw e m
  ]

  scan-Rounds :
      (s : S) (accounts : List Text) (t : S)
      → ((b : Text) → Memᴰ b accounts → Memᴰ b (candidates cfg.max_accounts_per_tick rows))
      → Rounds s t
      → Rounds s (scan net cfg accounts t)
  unfolding scan
  scan-Rounds s [] t f m = m
  scan-Rounds s (a ∷ accounts) t f m =
      scan-Rounds s accounts _ (λ b i. f b (Memᴰ.tail i))
        (scan_account-Rounds s t a (f a (Memᴰ.head refl)) m)

  after_simulate :
      (s t : S) (target : Text) (x : Answer Bool × S)
      → x.1 ≡ t
      → Rounds s t
      → Rounds s (after x (send_if net cfg (extend_instance_ttl target))).1
  after_simulate s t target (throws, u) e m = rw e m
  after_simulate s t target (answers false, u) e m = rw e m
  after_simulate s t target (answers true, u) e m = rw e (extended m target)

  after_account :
      (s t : S) (target : Text) (x : Answer {0} Unit × S)
      → x.1 ≡ t
      → Rounds s t
      → Rounds s
          (after x (λ _ s1.
            after
              (net.simulate (extend_instance_ttl target) s1)
              (send_if net cfg (extend_instance_ttl target)))).1
  after_account s t target (throws, u) e m = rw e m
  after_account s t target (answers a, u) e m =
      after_simulate s (net.simulate (extend_instance_ttl target) u).1 target _ refl
        (rw e (simulated m target))

  bump-Rounds :
      (s : S) (targets : List Text) (t : S)
      → Rounds s t
      → Rounds s (bump_instance_ttls net cfg targets t)
  unfolding bump_instance_ttls extend_ttl
  bump-Rounds s [] t m = m
  bump-Rounds s (target ∷ targets) t m =
      bump-Rounds s targets _ (after_account s _ target _ refl (account m))

  -- In a round that has read the rows, every proposal goes to one of the accounts updated last, with a
  -- valid key, whose health was just read as liquidatable, as a part of one run on the account; all
  -- other calls read, or extend the lifetime of a contract.
  pub tick-Rounds :
      (last_ttl_bump : ℕ) (s : S) → Rounds s (tick net cfg (some rows) last_ttl_bump s).1
  unfolding tick bump_if_due
  tick-Rounds last_ttl_bump s =
      let scanned = scan-Rounds s (candidates cfg.max_accounts_per_tick rows) s (λ a i. i) start in
      elim (Bool-cases (ltb cfg.ttl_bump_interval_ms (cfg.now_ms - last_ttl_bump))) [
        | inl e ↦ rw e (bump-Rounds s cfg.targets _ scanned)
        | inr e ↦ rw e scanned
      ]
