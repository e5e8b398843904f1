-- ===== src/Intake/Routes/Cancel.antt =====
-- The route that cancels orders, client/app/api/orders/cancel/route.ts.
use kryon_v.Base.{
  ℕ, Bool, true, ◌&&◌, Option, none, some, map, ◌==◌, leb, if◌then◌else◌, length, Text, text_eq,
  pos,
}
use kryon_v.Store.{Order, Db}
use kryon_v.Signing.{cancel_signing_message, verify_signed_message, assert_u64}
use kryon_v.Signing.Decimal.{to_string, parse_digits}
use kryon_v.Intake.{Json, text_of, Server}
use kryon_v.Intake.Limit.{body_too_large}
use kryon_v.Intake.Routes.{
  failure, limited, Reply, Attempt, with_retry, fits_bigint, Reached, Body, Request, State,
  reply_of, done, body_too_large_413, invalid_json_400, too_many_429, unhandled_500,
  invalid_owner_400, invalid_nonce_400, missing_signature_400, invalid_signature_401, returned,
  fatal, before_account, after_account, to_the_end, malformed, parsed,
}

-- The body of a cancellation that is not `null`; `nonce` is the text of `String(body.nonce ?? "")`.
pub record CancelBody : Type 0 where
  pub owner : Json
  pub nonce : Text
  pub signature : Json

unfoldable pub cancel_row : Text → ℕ → Order → Order
cancel_row owner nonce o =
    if text_eq o.owner owner && o.nonce == nonce then record o { cancelled = true } else o

unfoldable pub cancel_orders : Text → ℕ → Db → Db
cancel_orders owner nonce db = record db { orders = map (cancel_row owner nonce) db.orders }

-- The one query of an attempt. A nonce that is no BIGINT makes it throw.
unfoldable pub write_cancel : Reached → Text → ℕ → Db → Attempt × Db
write_cancel (before_account t) owner nonce db = (failure t, db)
write_cancel (after_account t) owner nonce db = (failure t, db)
write_cancel to_the_end owner nonce db =
    if fits_bigint nonce then (returned, cancel_orders owner nonce db) else (fatal, db)

pub record Cancel : Type 0 where
  pub owner : Text
  pub nonce : ℕ
  pub signature : Text

abbrev pub nonce_of : Text → Option ℕ
nonce_of s = elim (parse_digits s) [
  | none ↦ none
  | some n ↦ if assert_u64 (pos n) then some n else none
]

abbrev pub short : Json → Option Text
short v = elim (text_of v) [ none ↦ none | some s ↦ if leb (length s) 256 then some s else none ]

abbrev pub valid_key : Server → Json → Option Text
valid_key server v = elim (text_of v) [
  | none ↦ none
  | some o ↦ if server.crypto.is_valid_public_key o then some o else none
]

module _ (server : Server) (r : Request) where
  -- The checks on the body, and their error.
  unfoldable pub parse_cancel : CancelBody → Reply × Option Cancel
  parse_cancel b = elim (valid_key server b.owner) [
    | none ↦ (invalid_owner_400, none)
    | some owner ↦ elim (nonce_of b.nonce) [
      | none ↦ (invalid_nonce_400, none)
      | some nonce ↦ elim (short b.signature) [
        | none ↦ (missing_signature_400, none)
        | some s ↦ (done, some (record { owner = owner; nonce = nonce; signature = s }))
      ]
    ]
  ]

  abbrev pub cancel_signed : Cancel → Bool
  cancel_signed c =
      verify_signed_message server.crypto c.owner
        (cancel_signing_message server.passphrase c.owner (to_string c.nonce)) c.signature

  unfoldable pub save_cancel : Cancel → Db → Reply × Db
  save_cancel c db =
      let saved = with_retry 3 0 (λ i. write_cancel (r.reached i) c.owner c.nonce) db in
      if cancel_signed c then (reply_of saved.0, saved.1) else (invalid_signature_401, db)

  unfoldable pub run_cancel : Reply × Option Cancel → State → Reply × State
  run_cancel (reply, none) s = (reply, s)
  run_cancel (reply, some c) s =
      let limiter = limited server r c.owner 60 s.buckets in
      let saved = save_cancel c s.db in
      if limiter.0
      then (saved.0, record { buckets = limiter.1; db = saved.1 })
      else (too_many_429, record s { buckets = limiter.1 })

  unfoldable pub handle_cancel : Body CancelBody → State → Reply × State
  handle_cancel malformed s = (invalid_json_400, s)
  handle_cancel (parsed none) s = (unhandled_500, s)
  handle_cancel (parsed (some b)) s = run_cancel (parse_cancel b) s

  -- `POST /api/orders/cancel`; the body `null` makes it throw outside its `try`.
  unfoldable pub post_cancel : Body CancelBody → State → Reply × State
  post_cancel body s =
      let handled = handle_cancel body s in
      if body_too_large r.headers 4096 then (body_too_large_413, s) else handled
