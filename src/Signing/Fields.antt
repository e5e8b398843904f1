-- ===== src/Signing/Fields.antt =====
-- The fields of a settlement message (client/lib/market/signing-message.ts), split at the separator.
use kryon_v.Base.{
  ℕ, ◌≡◌, refl, sym, ap, ◌∙◌, ◌≢◌, Bool, true, false, List, [], ◌∷◌, ◌++◌, arith, ◌==◌,
  if◌then◌else◌, Text, codes, All, All-map,
}
use kryon_v.Signing.Decimal.{to_string, is_digit, to_string-digits, to_string-injective}
use kryon_v.Signing.{
  OrderIntent, order_intent_to_json, join, bit_text, settlement_fields, order_settlement_message,
}

abbrev pub NoBar : Text → Type 0
NoBar = All (λ c. c ≢ b'|')

abbrev cons_head : ℕ → List Text → List Text
cons_head c [] = (c ∷ []) ∷ []
cons_head c (x ∷ xs) = (c ∷ x) ∷ xs

-- The parts between separators.
split : Text → List Text
split [] = [] ∷ []
split (c ∷ s) = let rest = split s in if c == b'|' then [] ∷ rest else cons_head c rest

split-append : (x s : Text) → NoBar x → split (x ++ b'|' ∷ s) ≡ x ∷ split s
unfolding split
split-append [] s h = refl
split-append (c ∷ x) s (h, hs) = ground (arith, split-append x s hs)

split_one : (x : Text) → NoBar x → split x ≡ x ∷ []
unfolding split
split_one [] h = refl
split_one (c ∷ x) (h, hs) = ground (arith, split_one x hs)

split-join :
    (x : Text) (xs : List Text) → NoBar x → All NoBar xs → split (join b'|' (x ∷ xs)) ≡ x ∷ xs
unfolding join
split-join x [] h hs = split_one x h
split-join x (y ∷ xs) h (k, ks) =
    split-append x (join b'|' (y ∷ xs)) h ∙ ap (λ r. x ∷ r) (split-join y xs k ks)

NoBar-to_string : (n : ℕ) → NoBar (to_string n)
NoBar-to_string n =
    All-map (λ c. is_digit c ≡ true) (λ c. c ≢ b'|') (λ c h. ground arith) (to_string n)
      (to_string-digits n)

NoBar-bit_text : (b : Bool) → NoBar (bit_text b)
NoBar-bit_text true = ground arith
NoBar-bit_text false = ground arith

bit_text-injective : (a b : Bool) → bit_text a ≡ bit_text b → a ≡ b
bit_text-injective a b h = ground arith

NoBar-settlement_fields :
    (domain key : Text) (o : OrderIntent)
    → NoBar domain
    → NoBar key
    → All NoBar (settlement_fields domain key (order_intent_to_json o))
unfolding settlement_fields order_intent_to_json
NoBar-settlement_fields domain key o h k =
    let place : NoBar (codes "place_order") = ground arith in
    let tail : NoBar (bit_text o.reduce_only)
        × (NoBar (to_string o.nonce) × (NoBar (to_string o.expiry_ts) × Unit)) =
      (
        NoBar-bit_text o.reduce_only,
        (NoBar-to_string o.nonce, (NoBar-to_string o.expiry_ts, tt)),
      ) in
    let middle : NoBar (to_string o.size) × (NoBar (to_string o.limit_price) × _) =
      (NoBar-to_string o.size, (NoBar-to_string o.limit_price, tail)) in
    (h, (place, (k, (NoBar-to_string o.market_id, (NoBar-bit_text o.is_long, middle)))))

split-join-All : (xs : List Text) → All NoBar xs → xs ≢ [] → split (join b'|' xs) ≡ xs
split-join-All [] h e = absurd (e refl)
split-join-All (x ∷ xs) (h, hs) e = split-join x xs h hs

settlement_fields-split :
    (domain key : Text) (o : OrderIntent)
    → NoBar domain
    → NoBar key
    → let p = order_intent_to_json o in
      split (order_settlement_message domain key p) ≡ settlement_fields domain key p
unfolding order_settlement_message
settlement_fields-split domain key o h k =
    split-join-All _ (NoBar-settlement_fields domain key o h k) (λ e. absurd (cc e))

-- Two orders with the same settlement message agree in all that the contract reads from it: the
-- domain, the signer's key, market, side, size, limit price, reduce-only flag, nonce and expiry. The
-- domain and the key in hex must hold no separator.
pub order_settlement_message-injective :
    (domain domain' key key' : Text) (o o' : OrderIntent)
    → NoBar domain
    → NoBar domain'
    → NoBar key
    → NoBar key'
    → order_settlement_message domain key (order_intent_to_json o)
      ≡ order_settlement_message domain' key' (order_intent_to_json o')
    → (domain ≡ domain')
      × (key ≡ key')
      × (o.market_id ≡ o'.market_id)
      × (o.is_long ≡ o'.is_long)
      × (o.size ≡ o'.size)
      × (o.limit_price ≡ o'.limit_price)
      × (o.reduce_only ≡ o'.reduce_only)
      × (o.nonce ≡ o'.nonce)
      × (o.expiry_ts ≡ o'.expiry_ts)
unfolding settlement_fields order_intent_to_json
order_settlement_message-injective domain domain' key key' o o' d d' k k' e =
    let fields =
      sym (settlement_fields-split domain key o d k)
      ∙ ap split e
      ∙ settlement_fields-split domain' key' o' d' k' in
    (
      cc fields,
      cc fields,
      to_string-injective _ _ (cc fields),
      bit_text-injective _ _ (cc fields),
      to_string-injective _ _ (cc fields),
      to_string-injective _ _ (cc fields),
      bit_text-injective _ _ (cc fields),
      to_string-injective _ _ (cc fields),
      to_string-injective _ _ (cc fields),
    )
