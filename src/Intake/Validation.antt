-- ===== src/Intake/Validation.antt =====
-- The bodies that `validateOrderIntent` (client/lib/validation.ts) accepts.
use kryon_v.Base.{
  ℕ, ◌≡◌, ◌↔◌, ◌⊎◌, ◌≤◌, refl, true, some, Text, arith, length, ℤ, pos, ◌≤ℤ◌, ◌+ℤ◌, inl, inr,
}
use kryon_v.Signing.{assert_u64, max_u64}
use kryon_v.Intake.{
  OrderBody, ValidationResult, ok, error, IntakeError, Json, check_size, check_limit_price,
  check_nonce, check_expiry, check_owner, check_market, check_signature, ValidatedOrder, Server,
  text_of, bool_of, parse_big_int, known_market, now_sec, signature_valid, validate_fields,
  validate_order_intent, max_size, max_price, max_ttl_seconds, min_ttl_seconds,
}

-- The body's fields are those of the order, and the order is within the intake's limits and signed.
pub record Accepted (server : Server) (now_ms : ℕ) (b : OrderBody) (o : ValidatedOrder)
    (signature : Text) : Type 0 where
  pub owner : text_of b.owner ≡ some o.owner
  pub owner_key : server.crypto.is_valid_public_key o.owner ≡ true
  pub market : server.number_of b.market_id ≡ some o.market_id
  pub market_known : known_market server now_ms o.market_id ≡ true
  pub side : bool_of b.is_long ≡ some o.is_long
  pub reduce : bool_of b.reduce_only ≡ some o.reduce_only
  pub size : parse_big_int b.size ≡ some o.size
  pub size_positive : pos 1 ≤ℤ o.size
  pub size_bounded : o.size ≤ℤ pos max_size
  pub price : parse_big_int b.limit_price ≡ some o.limit_price
  pub price_nonneg : pos 0 ≤ℤ o.limit_price
  pub price_bounded : o.limit_price ≤ℤ pos max_price
  pub nonce : parse_big_int b.nonce ≡ some o.nonce
  pub nonce_nonneg : pos 0 ≤ℤ o.nonce
  pub nonce_bounded : o.nonce ≤ℤ pos max_u64
  pub expiry : parse_big_int b.expiry_ts ≡ some o.expiry_ts
  pub expiry_u64 : o.expiry_ts ≤ℤ pos max_u64
  pub expiry_late : now_sec server now_ms +ℤ pos min_ttl_seconds +ℤ pos 1 ≤ℤ o.expiry_ts
  pub expiry_bounded : o.expiry_ts ≤ℤ now_sec server now_ms +ℤ pos max_ttl_seconds
  pub signed : text_of b.signature ≡ some signature
  pub signature_short : length signature ≤ 256
  pub signature_checks : signature_valid server now_ms o signature ≡ true

ValidationResult-cases {ℓ} :
    {A : Type ℓ} (r : ValidationResult A)
    → ((a : A) × (r ≡ ok a)) ⊎ ((e : IntakeError) × (r ≡ error e))
ValidationResult-cases (ok a) = inl (a, refl)
ValidationResult-cases (error e) = inr (e, refl)

abbrev SizeOk : Json → ℤ → Type 0
SizeOk v n = (parse_big_int v ≡ some n) × (pos 1 ≤ℤ n) × (n ≤ℤ pos max_size)

abbrev PriceOk : Json → ℤ → Type 0
PriceOk v n = (parse_big_int v ≡ some n) × (pos 0 ≤ℤ n) × (n ≤ℤ pos max_price)

abbrev NonceOk : Json → ℤ → Type 0
NonceOk v n = (parse_big_int v ≡ some n) × (pos 0 ≤ℤ n) × (n ≤ℤ pos max_u64)

check_size_iff : (v : Json) (n : ℤ) → (check_size v ≡ ok n) ↔ SizeOk v n
unfolding check_size
check_size_iff v n = ground arith

check_limit_price_iff : (v : Json) (n : ℤ) → (check_limit_price v ≡ ok n) ↔ PriceOk v n
unfolding check_limit_price
check_limit_price_iff v n = ground arith

check_nonce_iff : (v : Json) (n : ℤ) → (check_nonce v ≡ ok n) ↔ NonceOk v n
unfolding check_nonce assert_u64
check_nonce_iff v n = ground arith

module _ (server : Server) (now_ms : ℕ) where
  abbrev ExpiryOk : Json → ℤ → Type 0
  ExpiryOk v n =
      (parse_big_int v ≡ some n)
      × (n ≤ℤ pos max_u64)
      × (now_sec server now_ms +ℤ pos min_ttl_seconds +ℤ pos 1 ≤ℤ n)
      × (n ≤ℤ now_sec server now_ms +ℤ pos max_ttl_seconds)

  check_owner_iff :
      (v : Json) (t : Text)
      → (check_owner server now_ms v ≡ ok t)
        ↔ ((text_of v ≡ some t) × (server.crypto.is_valid_public_key t ≡ true))
  unfolding check_owner
  check_owner_iff v t = ground arith

  check_market_iff :
      (v : Json) (n : ℕ)
      → (check_market server now_ms v ≡ ok n)
        ↔ ((server.number_of v ≡ some n) × (known_market server now_ms n ≡ true))
  unfolding check_market
  check_market_iff v n = ground arith

  check_expiry_iff : (v : Json) (n : ℤ) → (check_expiry server now_ms v ≡ ok n) ↔ ExpiryOk v n
  unfolding check_expiry assert_u64 ◌+ℤ◌
  check_expiry_iff v n = ground arith

  check_signature_iff :
      (o : ValidatedOrder) (v : Json) (t : Text)
      → (check_signature server now_ms o v ≡ ok t)
        ↔ ((text_of v ≡ some t) × (length t ≤ 256) × (signature_valid server now_ms o t ≡ true))
  unfolding check_signature
  check_signature_iff o v t = ground arith

  Accepted-validate :
      (b : OrderBody) (o : ValidatedOrder) (signature : Text)
      → Accepted server now_ms b o signature
      → validate_fields server now_ms b ≡ ok o
  unfolding validate_fields
  Accepted-validate b o signature a =
      rw
        (
          (check_owner_iff b.owner o.owner).1 (a.owner, a.owner_key),
          (check_market_iff b.market_id o.market_id).1 (a.market, a.market_known),
          a.side,
          a.reduce,
          (check_size_iff b.size o.size).1 (a.size, a.size_positive, a.size_bounded),
          (check_limit_price_iff b.limit_price o.limit_price).1
              (a.price, a.price_nonneg, a.price_bounded),
          (check_nonce_iff b.nonce o.nonce).1 (a.nonce, a.nonce_nonneg, a.nonce_bounded),
          (check_expiry_iff b.expiry_ts o.expiry_ts).1
              (a.expiry, a.expiry_u64, a.expiry_late, a.expiry_bounded),
          (check_signature_iff o b.signature signature).1
              (a.signed, a.signature_short, a.signature_checks),
        )
        refl

  -- The checks that a successful run has passed.
  validated_checks :
      (b : OrderBody) (o : ValidatedOrder)
      → validate_fields server now_ms b ≡ ok o
      → (check_owner server now_ms b.owner ≡ ok o.owner)
        × (check_market server now_ms b.market_id ≡ ok o.market_id)
        × (bool_of b.is_long ≡ some o.is_long)
        × (bool_of b.reduce_only ≡ some o.reduce_only)
        × (check_size b.size ≡ ok o.size)
        × (check_limit_price b.limit_price ≡ ok o.limit_price)
        × (check_nonce b.nonce ≡ ok o.nonce)
        × (check_expiry server now_ms b.expiry_ts ≡ ok o.expiry_ts)
  unfolding validate_fields
  validated_checks b o h = ground arith

  validated_signature :
      (b : OrderBody) (o : ValidatedOrder)
      → validate_fields server now_ms b ≡ ok o
      → (t : Text) × (check_signature server now_ms o b.signature ≡ ok t)
  unfolding validate_fields
  validated_signature b o h =
      elim (ValidationResult-cases (check_signature server now_ms o b.signature)) [
        | inl (t, e) ↦ (t, e)
        | inr (e, failed) ↦ absurd (ground (arith, validated_checks b o h))
      ]

  validate-Accepted :
      (b : OrderBody) (o : ValidatedOrder)
      → validate_fields server now_ms b ≡ ok o
      → (signature : Text) × Accepted server now_ms b o signature
  validate-Accepted b o h =
      let (owner, market, side, reduce, size, price, nonce, expiry) = validated_checks b o h in
      let (t, signed) = validated_signature b o h in
      let own = (check_owner_iff b.owner o.owner).0 owner in
      let mar = (check_market_iff b.market_id o.market_id).0 market in
      let siz = (check_size_iff b.size o.size).0 size in
      let pri = (check_limit_price_iff b.limit_price o.limit_price).0 price in
      let non = (check_nonce_iff b.nonce o.nonce).0 nonce in
      let exp = (check_expiry_iff b.expiry_ts o.expiry_ts).0 expiry in
      let sig = (check_signature_iff o b.signature t).0 signed in
      (
        t,
        record {
          owner = own.0;
          owner_key = own.1;
          market = mar.0;
          market_known = mar.1;
          side = side;
          reduce = reduce;
          size = siz.0;
          size_positive = siz.1;
          size_bounded = siz.2;
          price = pri.0;
          price_nonneg = pri.1;
          price_bounded = pri.2;
          nonce = non.0;
          nonce_nonneg = non.1;
          nonce_bounded = non.2;
          expiry = exp.0;
          expiry_u64 = exp.1;
          expiry_late = exp.2;
          expiry_bounded = exp.3;
          signed = sig.0;
          signature_short = sig.1;
          signature_checks = sig.2;
        },
      )

-- An order is accepted exactly when the body's fields are those of the order, its owner is a public
-- key, its market is active, its size is positive and at most the maximum, its price is from 0 to the
-- maximum, its nonce and expiry are 64-bit, the expiry lies between 5 seconds and 7 days ahead, and a
-- signature of at most 256 characters verifies against its settlement message.
pub validate_order_intent_iff :
    (server : Server) (now_ms : ℕ) (b : OrderBody) (o : ValidatedOrder)
    → (validate_order_intent server now_ms (some b) ≡ ok o)
      ↔ ((signature : Text) × Accepted server now_ms b o signature)
unfolding validate_order_intent
validate_order_intent_iff server now_ms b o =
    (validate-Accepted server now_ms b o, λ (s, a). Accepted-validate server now_ms b o s a)
