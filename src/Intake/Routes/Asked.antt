-- ===== src/Intake/Routes/Asked.antt =====
-- What the checks of client/app/api/orders/cancel/route.ts make of a body.
use kryon_v.Base.{
  ℕ, ◌^◌, ◌<◌, ◌≤◌, ◌≡◌, true, Option, none, some, Text, length, Option-cases, inl, inr, arith,
}
use kryon_v.Signing.{assert_u64}
use kryon_v.Signing.Decimal.{parse_digits}
use kryon_v.Intake.{Json, str, Server}
use kryon_v.Intake.Routes.{Request}
use kryon_v.Intake.Routes.Cancel.{CancelBody, Cancel, parse_cancel, nonce_of, short, valid_key}

module _ (server : Server) where
  -- The request's body asks for this cancellation: its owner is a valid key, its nonce the decimal text
  -- of a 64-bit number, and its signature a text of at most 256 characters.
  abbrev pub Asks : CancelBody → Cancel → Type 0
  Asks b c =
      (b.owner ≡ str c.owner)
      × (server.crypto.is_valid_public_key c.owner ≡ true)
      × (parse_digits b.nonce ≡ some c.nonce)
      × (c.nonce < 2 ^ 64)
      × (b.signature ≡ str c.signature)
      × (length c.signature ≤ 256)

  abbrev pub IsAsked : CancelBody → Option Cancel → Type 0
  IsAsked b none = Unit
  IsAsked b (some c) = Asks b c

  valid_key_str :
      (v : Json) (o : Text)
      → valid_key server v ≡ some o
      → (v ≡ str o) × (server.crypto.is_valid_public_key o ≡ true)
  valid_key_str v o h = ground arith

  short_str : (v : Json) (s : Text) → short v ≡ some s → (v ≡ str s) × (length s ≤ 256)
  short_str v s h = ground arith

  nonce_of_digits :
      (s : Text) (n : ℕ) → nonce_of s ≡ some n → (parse_digits s ≡ some n) × (n < 2 ^ 64)
  unfolding assert_u64
  nonce_of_digits s n h = ground arith

  pub parse_cancel-IsAsked : (r : Request) (b : CancelBody) → IsAsked b (parse_cancel server r b).1
  unfolding parse_cancel
  parse_cancel-IsAsked r b = elim (Option-cases (valid_key server b.owner)) [
    | inl e ↦ rw (parse_cancel, e) tt
    | inr (o, e) ↦ elim (Option-cases (nonce_of b.nonce)) [
      | inl f ↦ rw (parse_cancel, e, f) tt
      | inr (n, f) ↦ elim (Option-cases (short b.signature)) [
        | inl g ↦ rw (parse_cancel, e, f, g) tt
        | inr (t, g) ↦
            rw (parse_cancel, e, f, g)
              (let (v, k) = valid_key_str b.owner o e in
                let (d, u) = nonce_of_digits b.nonce n f in
                let (q, l) = short_str b.signature t g in (v, k, d, u, q, l))
      ]
    ]
  ]
