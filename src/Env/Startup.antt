-- ===== src/Env/Startup.antt =====
-- When a service starts, client/lib/secrets-check.ts.
use kryon_v.Base.{
  ◌≡◌, ◌↔◌, refl, Bool, true, false, ◌&&◌, Option, none, some, List, [], ◌∷◌, filterb, map, All,
  Text, codes, Bool-cases, inl, inr, arith,
}
use kryon_v.Env.{
  Environment, value_of, Start, exits, continues, inspect, sorted_out, exit_or_warn, exit_on,
  assert_required_secrets, leaks, assert_no_public_secret_leak, starts_with, includes,
}

abbrev pub goes_on : Start → Bool
goes_on (exits ks) = false
goes_on (continues ws) = true

abbrev pub is_set : Option Text → Bool
is_set none = false
is_set (some value) = true

exit_or_warn_iff :
    (missing suspicious : List Text)
    → (goes_on (exit_or_warn (missing, suspicious)) ≡ true) ↔ (missing ≡ [])
exit_or_warn_iff [] suspicious = (λ _. refl, λ _. refl)
exit_or_warn_iff (m ∷ missing) suspicious = (λ h. ground arith, λ h. ground arith)

exit_on_iff : (ks : List Text) → (goes_on (exit_on ks) ≡ true) ↔ (ks ≡ [])
exit_on_iff [] = (λ _. refl, λ _. refl)
exit_on_iff (k ∷ ks) = (λ h. ground arith, λ h. ground arith)

filterb_iff : (p : Text → Bool) (xs : List Text) → (filterb p xs ≡ []) ↔ All (λ x. p x ≡ false) xs
filterb_iff p [] = (λ _. tt, λ _. refl)
filterb_iff p (x ∷ xs) =
    let (there, back) = filterb_iff p xs in
    elim (Bool-cases (p x)) [
      | inl e ↦ rw e (λ h. ground arith, λ (h, hs). ground arith)
      | inr e ↦ rw e (λ h. (refl, there h), λ (h, hs). back hs)
    ]

module _ (to_lower_case : Text → Text) (env : Environment) where
  sorted_out_iff :
      (key : Text) (o : Option Text) (keys : List Text) (rest : List Text × List Text)
      → ((rest.0 ≡ []) ↔ All (λ k. is_set (value_of env k) ≡ true) keys)
      → ((sorted_out to_lower_case key o rest).0 ≡ [])
        ↔ ((is_set o ≡ true) × All (λ k. is_set (value_of env k) ≡ true) keys)
  sorted_out_iff key none keys rest (there, back) = (λ h. ground arith, λ (h, hs). ground arith)
  sorted_out_iff key (some value) keys rest (there, back) =
      (λ h. (refl, there h), λ (h, hs). back hs)

  inspect_iff :
      (keys : List Text)
      → ((inspect to_lower_case env keys).0 ≡ []) ↔ All (λ k. is_set (value_of env k) ≡ true) keys
  unfolding inspect
  inspect_iff [] = (λ _. tt, λ _. refl)
  inspect_iff (k ∷ keys) =
      sorted_out_iff k (value_of env k) keys (inspect to_lower_case env keys) (inspect_iff keys)

  -- A variable that the browser gets and whose name speaks of a secret.
  abbrev pub leaks_secret : Text → Bool
  leaks_secret k =
      starts_with (codes "NEXT_PUBLIC_") k && includes (codes "secret") (to_lower_case k)

  -- Both checks let a service start exactly where each variable that it requires is set and not
  -- empty, and no public variable's name speaks of a secret.
  pub startup_iff :
      (required : List Text)
      → ((goes_on (assert_required_secrets to_lower_case env required) ≡ true)
          × (goes_on (assert_no_public_secret_leak to_lower_case env) ≡ true))
        ↔ (All (λ k. is_set (value_of env k) ≡ true) required
            × All (λ k. leaks_secret k ≡ false) (map (λ v. v.0) env))
  unfolding assert_required_secrets assert_no_public_secret_leak leaks
  startup_iff required =
      let (a, b) = inspect_iff required in
      let (c, d) =
        exit_or_warn_iff (inspect to_lower_case env required).0
          (inspect to_lower_case env required).1 in
      let (e, f) = exit_on_iff (filterb leaks_secret (map (λ v. v.0) env)) in
      let (g, h) = filterb_iff leaks_secret (map (λ v. v.0) env) in
      (λ (x, y). (a (c x), g (e y)), λ (x, y). (d (b x), f (h y)))
