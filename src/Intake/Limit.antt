-- ===== src/Intake/Limit.antt =====
-- The request limiter, client/lib/rate-limit.ts. The header values, the clock and what the shared
-- limiter (Upstash) answers are parameters; the map `buckets` is a list of its entries.
pub mod Window
use kryon_v.Base.{
  ℕ, suc, ◌+◌, ◌-◌, ◌≤◌, ◌<◌, ◌≡◌, refl, sym, ap, ◌∙◌, Bool, true, false, not, ◌&&◌, ◌||◌, Option,
  none, some, List, [], ◌∷◌, ◌++◌, ◌==◌, ltb, leb, if◌then◌else◌, length, filterb, Text, codes,
  text_eq, text_eq_iff, text_eq_refl, Bool-cases, inl, inr, arith, All, lt→ltb, le→leb,
}
use kryon_v.Signing.Decimal.{trim}

abbrev pub window_ms : ℕ
window_ms = 60000

abbrev pub max_keys : ℕ
max_keys = 10000

pub record Bucket : Type 0 where
  pub count : ℕ
  pub reset_at : ℕ

abbrev pub Buckets : Type 0
Buckets = List (Text × Bucket)

-- `buckets.get(key)`
unfoldable pub get : Text → Buckets → Option Bucket
get key [] = none
get key ((k, b) ∷ rest) = let found = get key rest in if text_eq k key then some b else found

-- `buckets.set(key, value)`: an entry keeps its place, a new one comes last.
unfoldable pub set : Text → Bucket → Buckets → Buckets
set key b [] = (key, b) ∷ []
set key b ((k, c) ∷ rest) =
    let later = (k, c) ∷ set key b rest in if text_eq k key then (k, b) ∷ rest else later

unfoldable pub purge : ℕ → Buckets → Buckets
purge now [] = []
purge now ((k, b) ∷ rest) =
    let kept = purge now rest in if leb b.reset_at now then kept else (k, b) ∷ kept

-- What a request makes of the bucket of its key.
unfoldable pub hit : ℕ → ℕ → Option Bucket → Bool × Bucket
hit now limit none = (true, record { count = 1; reset_at = now + window_ms })
hit now limit (some b) =
    if leb b.reset_at now
    then (true, record { count = 1; reset_at = now + window_ms })
    else (leb (b.count + 1) limit, record { count = b.count + 1; reset_at = b.reset_at })

unfoldable pub local_rate_limit : Text → ℕ → ℕ → Buckets → Bool × Buckets
local_rate_limit key limit now buckets =
    let buckets' = if ltb max_keys (length buckets) then purge now buckets else buckets in
    ((hit now limit (get key buckets')).0, set key (hit now limit (get key buckets')).1 buckets')

-- What the shared limiter answers: not configured, the call throws or its response is no success, a
-- count that is no finite number, or a count.
pub data Distributed : Type 0 where
  not_configured unavailable not_finite : Distributed
  counted : ℕ → Distributed

unfoldable pub distributed_rate_limit : Distributed → ℕ → Option Bool
distributed_rate_limit not_configured limit = none
distributed_rate_limit unavailable limit = some false
distributed_rate_limit not_finite limit = some false
distributed_rate_limit (counted count) limit = some (leb count limit)

unfoldable pub rate_limit : Distributed → Bool → Text → ℕ → ℕ → Buckets → Bool × Buckets
rate_limit distributed production key limit now buckets =
    elim (distributed_rate_limit distributed limit) [
      | some allowed ↦ (allowed, buckets)
      | none ↦ elim production [
        | true ↦ (false, buckets)
        | false ↦ local_rate_limit key limit now buckets
      ]
    ]

-- The headers that the limiter reads. `content_length` is `Number` of the header where that is finite.
pub record Headers : Type 0 where
  pub cf_connecting_ip : Option Text
  pub x_forwarded_for : Option Text
  pub x_real_ip : Option Text
  pub content_length : Option ℕ

-- `s.split(",")[0]`
unfoldable pub before_comma : Text → Text
before_comma [] = []
before_comma (c ∷ s) = let rest = before_comma s in if c == b',' then [] else c ∷ rest

-- `value || otherwise`
abbrev pub or_else : Option Text → Text → Text
or_else none d = d
or_else (some []) d = d
or_else (some (c ∷ s)) d = c ∷ s

abbrev trimmed : Option Text → Option Text
trimmed none = none
trimmed (some s) = some (trim s)

abbrev first_of : Option Text → Option Text
first_of none = none
first_of (some s) = some (trim (before_comma s))

unfoldable pub request_key : Headers → Text → Text
request_key h owner =
    owner
    ++ b':'
      ∷ or_else (trimmed h.cf_connecting_ip)
          (or_else (first_of h.x_forwarded_for) (or_else h.x_real_ip (codes "unknown")))

unfoldable pub body_too_large : Headers → ℕ → Bool
body_too_large h max_bytes = elim h.content_length [ none ↦ false | some len ↦ ltb max_bytes len ]

get-set : (key : Text) (b : Bucket) (bs : Buckets) → get key (set key b bs) ≡ some b
unfolding get set
get-set key b [] = rw (text_eq_refl key) refl
get-set key b ((k, c) ∷ rest) = elim (Bool-cases (text_eq k key)) [
  | inl e ↦ rw (e, e) refl
  | inr e ↦ rw (e, e) (get-set key b rest)
]

get-set_other :
    (key k : Text) (b : Bucket) (bs : Buckets)
    → text_eq k key ≡ false
    → get key (set k b bs) ≡ get key bs
unfolding get set
get-set_other key k b [] e = rw e refl
get-set_other key k b ((j, c) ∷ rest) e = elim (Bool-cases (text_eq j k)) [
  | inl f ↦ let apart : text_eq j key ≡ false = rw ((text_eq_iff j k).0 f) e in rw (f, apart) refl
  | inr f ↦ rw (f, get-set_other key k b rest e) refl
]

get-purge :
    (key : Text) (now : ℕ) (b : Bucket) (bs : Buckets)
    → now < b.reset_at
    → get key bs ≡ some b
    → get key (purge now bs) ≡ some b
unfolding get purge
get-purge key now b [] live h = ground arith
get-purge key now b ((k, c) ∷ rest) live h = ground (arith, get-purge key now b rest live)
