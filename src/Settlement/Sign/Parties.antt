-- ===== src/Settlement/Sign/Parties.antt =====
-- Who may sign at the sign route, client/app/api/settlements/[id]/sign/route.ts.
use kryon_v.Base.{
  ◌≡◌, ◌⊎◌, refl, true, ◌||◌, Option, none, some, List, Text, text_eq, Bool-cases, Option-cases,
  inl, inr, arith,
}
use kryon_v.Store.{Payload, TxJob}
use kryon_v.Intake.{text_of}
use kryon_v.Intake.Limit.{Buckets, body_too_large, rate_limit, request_key}
use kryon_v.Settlement.{find_job, is_queued}
use kryon_v.Settlement.Sign.{
  Reply, SignBody, World, parties, sign_payload, sign_job, check_body, sign_checked, post_sign,
}

module _ (w : World) (id : Text) where
  -- A queued job of this table whose payload names the address among its two valid parties.
  abbrev pub IsParty : Text → List TxJob → Type 0
  IsParty address js =
      (j : TxJob) × (p : Payload) × (maker : Text) × (taker : Text) × (find_job id js ≡ some j)
      × (is_queued j ≡ true)
      × (j.payload ≡ some p)
      × (parties w.is_valid_public_key p ≡ some (maker, taker))
      × ((text_eq maker address || text_eq taker address) ≡ true)

  sign_job-IsParty :
      (address entry : Text) (o : Option TxJob) (js : List TxJob)
      → find_job id js ≡ o
      → ((sign_job w id address entry o js).1 ≡ js) ⊎ IsParty address js
  unfolding sign_job sign_payload
  sign_job-IsParty address entry none js found = inl refl
  sign_job-IsParty address entry (some j) js found = elim (Bool-cases (is_queued j)) [
    | inr q ↦ inl (rw (sign_job, q) refl)
    | inl q ↦ elim (Option-cases j.payload) [
      | inl e ↦ inl (rw (sign_job, q, e) refl)
      | inr (p, e) ↦ elim (Option-cases (parties w.is_valid_public_key p)) [
        | inl f ↦ inl (rw (sign_job, q, e, sign_payload, f) refl)
        | inr ((maker, taker), f) ↦
            elim (Bool-cases (text_eq maker address || text_eq taker address)) [
              | inl g ↦ inr (j, p, maker, taker, found, q, e, f, g)
              | inr g ↦ inl (rw (sign_job, q, e, sign_payload, f, g) refl)
            ]
      ]
    ]
  ]

  abbrev pub Signs : Option SignBody → List TxJob → Type 0
  Signs body js =
      (b : SignBody) × (address : Text) × (body ≡ some b)
      × (text_of b.address ≡ some address)
      × IsParty address js

  check_body_address :
      (b : SignBody) (reply : Reply) (address entry : Text)
      → check_body w id b ≡ (reply, some (address, entry))
      → text_of b.address ≡ some address
  unfolding check_body
  check_body_address b reply address entry h = ground arith

  checked-IsParty :
      (b : SignBody) (c : Reply × Option (Text × Text)) (buckets : Buckets) (js : List TxJob)
      → check_body w id b ≡ c
      → ((sign_checked w id c buckets js).1.1 ≡ js) ⊎ Signs (some b) js
  unfolding sign_checked
  checked-IsParty b (reply, none) buckets js h = inl refl
  checked-IsParty b (reply, some (address, entry)) buckets js h =
      elim (Bool-cases
        (rate_limit w.distributed w.production (request_key w.headers address) 30 w.now_ms
          buckets).0) [
            | inr e ↦ inl (rw e refl)
            | inl e ↦ elim (sign_job-IsParty address entry (find_job id js) js refl) [
              | inl same ↦ inl (rw e same)
              | inr party ↦
                  inr (b, address, refl, check_body_address b reply address entry h, party)
            ]
          ]

  -- A request to sign leaves the jobs as they are, or its address is one of the two valid parties that
  -- the payload of the queued job with this id names.
  pub post_sign-IsParty :
      (body : Option SignBody) (buckets : Buckets) (js : List TxJob)
      → ((post_sign w id body buckets js).1.1 ≡ js) ⊎ Signs body js
  unfolding post_sign
  post_sign-IsParty none buckets js = inl refl
  post_sign-IsParty (some b) buckets js = elim (Bool-cases (body_too_large w.headers 12288)) [
    | inl e ↦ inl (rw e refl)
    | inr e ↦ elim (checked-IsParty b (check_body w id b) buckets js refl) [
      | inl same ↦ inl (rw e same)
      | inr signs ↦ inr signs
    ]
  ]
