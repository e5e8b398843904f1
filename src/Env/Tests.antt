-- ===== src/Env/Tests.antt =====
-- An environment with a public secret.
use kryon_v.Base.{◌≡◌, refl, List, [], ◌∷◌, Text, codes, text_eq}
use kryon_v.Env.{
  Environment, exits, assert_required_secrets, assert_no_public_secret_leak, inspect, value_of,
  starts_with, includes, leaks,
}

abbrev lower : Text → Text
lower s = s

abbrev env : Environment
env = (codes "DATABASE_URL", codes "postgres://db") ∷ (codes "NEXT_PUBLIC_secret", codes "x") ∷ []

abbrev required : List Text
required = codes "DATABASE_URL" ∷ codes "ORACLE_PUBLISHER_SECRET" ∷ []

missing : assert_required_secrets lower env required ≡ exits (codes "ORACLE_PUBLISHER_SECRET" ∷ [])
unfolding assert_required_secrets inspect value_of text_eq
missing = refl

leaking : assert_no_public_secret_leak lower env ≡ exits (codes "NEXT_PUBLIC_secret" ∷ [])
unfolding assert_no_public_secret_leak leaks starts_with includes
leaking = refl
