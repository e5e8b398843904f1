-- ===== src/Env.antt =====
-- The checks on the environment at the start of a service, client/lib/secrets-check.ts. ECMAScript's
-- `toLowerCase` is a parameter.
pub mod Startup
mod Tests
use kryon_v.Base.{
  ℕ, Bool, true, false, ◌&&◌, ◌||◌, Option, none, some, List, [], ◌∷◌, ◌++◌, ◌==◌, ltb,
  if◌then◌else◌, findb, filterb, map, someb, length, Text, codes, text_eq,
}

-- `process.env`, in the order of its keys.
abbrev pub Environment : Type 0
Environment = List (Text × Text)

unfoldable pub starts_with : Text → Text → Bool
starts_with [] s = true
starts_with (p ∷ ps) [] = false
starts_with (p ∷ ps) (c ∷ s) = (p == c) && starts_with ps s

unfoldable pub includes : Text → Text → Bool
includes word [] = starts_with word []
includes word (c ∷ s) = starts_with word (c ∷ s) || includes word s

abbrev pub placeholder_prefixes : List Text
placeholder_prefixes =
    codes "change_me"
    ∷ codes "replace_me"
    ∷ codes "your_"
    ∷ codes "TODO"
    ∷ codes "FIXME"
    ∷ codes "<"
    ∷ codes "example"
    ∷ []

abbrev pub known_test_keys : List Text
known_test_keys = codes "SCZANGBA" ∷ codes "SBGJMPZ" ∷ []

-- The value of a variable, where it is set and not empty.
abbrev value_in : Option (Text × Text) → Option Text
value_in none = none
value_in (some (k, [])) = none
value_in (some (k, c ∷ s)) = some (c ∷ s)

unfoldable pub value_of : Environment → Text → Option Text
value_of env key = value_in (findb (λ v. text_eq v.0 key) env)

-- What a service does after a check: it exits, or goes on with warnings.
pub data Start : Type 0 where
  exits continues : List Text → Start

unfoldable pub looks_like_test_key : Text → Bool
looks_like_test_key value = someb (λ p. starts_with p value) known_test_keys

abbrev pub exit_or_warn : List Text × List Text → Start
exit_or_warn ([], suspicious) = continues suspicious
exit_or_warn (m ∷ missing, suspicious) = exits (m ∷ missing)

abbrev pub exit_on : List Text → Start
exit_on [] = continues []
exit_on (k ∷ ks) = exits (k ∷ ks)

module _ (to_lower_case : Text → Text) where
  unfoldable pub looks_like_placeholder : Text → Bool
  looks_like_placeholder value =
      someb (λ p. starts_with (to_lower_case p) (to_lower_case value)) placeholder_prefixes
      || ltb (length value) 8

  unfoldable pub warning_of : Text → Text → List Text
  warning_of key value =
      if looks_like_placeholder value
      then (key ++ codes " (looks like a placeholder)") ∷ []
      else if includes (codes "SECRET") key && looks_like_test_key value
      then (key ++ codes " (matches known test key prefix — rotate before mainnet)") ∷ []
      else []

  abbrev pub sorted_out : Text → Option Text → List Text × List Text → List Text × List Text
  sorted_out key none (missing, suspicious) = (key ∷ missing, suspicious)
  sorted_out key (some value) (missing, suspicious) = (missing, warning_of key value ++ suspicious)

  -- The missing variables and the warnings.
  unfoldable pub inspect : Environment → List Text → List Text × List Text
  inspect env [] = ([], [])
  inspect env (key ∷ keys) = sorted_out key (value_of env key) (inspect env keys)

  unfoldable pub assert_required_secrets : Environment → List Text → Start
  assert_required_secrets env required = exit_or_warn (inspect env required)

  unfoldable pub leaks : Environment → List Text
  leaks env =
      filterb
        (λ k. starts_with (codes "NEXT_PUBLIC_") k && includes (codes "secret") (to_lower_case k))
        (map (λ v. v.0) env)

  unfoldable pub assert_no_public_secret_leak : Environment → Start
  assert_no_public_secret_leak env = exit_on (leaks env)
