-- ===== src/Intake/Limit/Window.antt =====
-- What the limiter of one process (client/lib/rate-limit.ts) lets through in a window, and what the
-- three limiters answer together.
use kryon_v.Base.{
  ℕ, ◌+◌, ◌≤◌, ◌<◌, ◌≡◌, sym, ap, ◌∙◌, Bool, true, false, ◌&&◌, max, some, List, [], ◌∷◌, ltb, leb,
  if◌then◌else◌, ◌↔◌, ◌⊎◌, length, Text, text_eq, text_eq_iff, Bool-cases, inl, inr, arith, All,
}
use kryon_v.Intake.Limit.{
  max_keys, Bucket, Buckets, get, purge, hit, local_rate_limit, Distributed, not_configured,
  unavailable, not_finite, counted, distributed_rate_limit, rate_limit, get-set, get-set_other,
  get-purge,
}

pub record Request : Type 0 where
  pub key : Text
  pub limit : ℕ
  pub now : ℕ

abbrev after : Request → Buckets → Bool × Buckets
after r bs = local_rate_limit r.key r.limit r.now bs

-- How many requests of a key the limiter lets through, among those of other keys.
unfoldable pub allowed : Text → List Request → Buckets → ℕ
allowed key [] bs = 0
allowed key (r ∷ rs) bs =
    (if text_eq r.key key && (after r bs).0 then 1 else 0) + allowed key rs (after r bs).1

abbrev purged : ℕ → Buckets → Buckets
purged now bs = if ltb max_keys (length bs) then purge now bs else bs

get-purged :
    (key : Text) (now : ℕ) (b : Bucket) (bs : Buckets)
    → now < b.reset_at
    → get key bs ≡ some b
    → get key (purged now bs) ≡ some b
get-purged key now b bs live h = elim (Bool-cases (ltb max_keys (length bs))) [
  | inl e ↦ rw e (get-purge key now b bs live h)
  | inr e ↦ rw e h
]

abbrev more : Bucket → Bucket
more b = record b { count = b.count + 1 }

hit_live :
    (now limit : ℕ) (b : Bucket)
    → now < b.reset_at
    → hit now limit (some b) ≡ (leb (b.count + 1) limit, more b)
unfolding hit
hit_live now limit b live = ground arith

-- A request of the key itself, and of another key, on a live bucket.
own_request :
    (r : Request) (b : Bucket) (bs : Buckets)
    → r.now < b.reset_at
    → get r.key bs ≡ some b
    → ((after r bs).0 ≡ leb (b.count + 1) r.limit) × (get r.key (after r bs).1 ≡ some (more b))
unfolding local_rate_limit
own_request r b bs live h =
    let now_hit : hit r.now r.limit (get r.key (purged r.now bs))
        ≡ (leb (b.count + 1) r.limit, more b) =
      rw (get-purged r.key r.now b bs live h) (hit_live r.now r.limit b live) in
    (ap (λ x. x.0) now_hit, get-set r.key _ (purged r.now bs) ∙ ap (λ x. some (x.1)) now_hit)

other_request :
    (key : Text) (r : Request) (b : Bucket) (bs : Buckets)
    → r.now < b.reset_at
    → text_eq r.key key ≡ false
    → get key bs ≡ some b
    → get key (after r bs).1 ≡ some b
unfolding local_rate_limit
other_request key r b bs live apart h =
    get-set_other key r.key _ (purged r.now bs) apart ∙ get-purged key r.now b bs live h

-- The requests of a key that come before its bucket is reset, among any requests of other keys: with
-- those counted before, no more than the limit get through, or none at all.
pub allowed_within_limit :
    (key : Text) (limit : ℕ) (b : Bucket) (rs : List Request) (bs : Buckets)
    → get key bs ≡ some b
    → All (λ r. (r.now < b.reset_at) × (text_eq r.key key ≡ true → r.limit ≡ limit)) rs
    → allowed key rs bs + b.count ≤ max b.count limit
unfolding allowed
allowed_within_limit key limit b [] bs h live = omega arith
allowed_within_limit key limit b (r ∷ rs) bs h ((live, at), rest) =
    elim (Bool-cases (text_eq r.key key)) [
      | inl e ↦
          let own = own_request r b bs live (rw ((text_eq_iff r.key key).0 e) h) in
          let found : get key (after r bs).1 ≡ some (more b) =
            rw (sym ((text_eq_iff r.key key).0 e)) (own.1) in
          let rec = allowed_within_limit key limit (more b) rs (after r bs).1 found rest in
          rw (e, own.0, at e) (ground (arith, rec))
      | inr e ↦ rw e (
          omega (
            arith,
            allowed_within_limit key limit b rs (after r bs).1 (other_request key r b bs live e h)
                rest,
          ))
    ]

-- A request gets through exactly where the shared limiter has counted it within the limit, or where no
-- shared limiter is configured, the process is not in production and its own limiter lets it through.
pub rate_limit_iff :
    (d : Distributed) (production : Bool) (key : Text) (limit now : ℕ) (bs : Buckets)
    → ((rate_limit d production key limit now bs).0 ≡ true) ↔ (
        ((count : ℕ) × (d ≡ counted count) × (count ≤ limit))
        ⊎ ((d ≡ not_configured)
            × (production ≡ false)
            × ((local_rate_limit key limit now bs).0 ≡ true)))
unfolding rate_limit distributed_rate_limit
rate_limit_iff not_configured production key limit now bs = ground arith
rate_limit_iff unavailable production key limit now bs = ground arith
rate_limit_iff not_finite production key limit now bs = ground arith
rate_limit_iff (counted count) production key limit now bs = ground arith
