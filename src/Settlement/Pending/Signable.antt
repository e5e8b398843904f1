-- ===== src/Settlement/Pending/Signable.antt =====
-- What `GET /api/settlements` lists, client/app/api/settlements/route.ts, and what the sign route,
-- client/app/api/settlements/[id]/sign/route.ts, does with it.
use mathlib.Core.List.{Memᴰ}
use kryon_v.Base.{
  ◌≡◌, ◌⊎◌, refl, sym, ap, ◌∙◌, true, false, ◌&&◌, ◌||◌, not, Bool, Option, none, some, List, [],
  ◌∷◌, Text, text_eq, Option-cases, inl, inr, arith, All, All-take, All-filterb_self, filterb,
  All-and, All-filterb, All-Memᴰ, if◌then◌else◌,
}
use kryon_v.Store.{Payload, TxJob}
use kryon_v.Matcher.Sort.{sort-All}
use kryon_v.Settlement.{present, both_signed, is_queued}
use kryon_v.Settlement.Sign.{key_of, World, parties, sign_payload, sign_job, merge_and_send}
use kryon_v.Settlement.Pending.{
  Listed, names, own_entry, listing, list_payload, list_job, list_jobs, newest_queued, add_listed,
}

passed_on :
    {A : Type 0} (a b : Bool) (x l : A)
    → (if a then none else (if b then none else some x)) ≡ some l
    → (a ≡ false) × (b ≡ false) × (l ≡ x)
passed_on a b x l h = ground arith

some_party : (a b : Bool) → (not a && not b) ≡ false → (a || b) ≡ true
some_party a b h = ground arith

own_or_both :
    (is_maker : Bool) (p : Payload)
    → (present (own_entry is_maker p) && not (both_signed p)) ≡ false
    → present (own_entry is_maker p) ≡ both_signed p
own_or_both true p h = ground arith
own_or_both false p h = ground arith

key_of-names :
    (valid : Text → Bool) (address : Text) (o : Option Text) (a : Text)
    → key_of valid o ≡ some a
    → text_eq a address ≡ names o address
key_of-names valid address none a h = ground arith
key_of-names valid address (some b) a h =
    let same : b ≡ a = ground arith in ap (λ t. text_eq t address) (sym same)

module _ (w : World) (address entry : Text) (js : List TxJob) where
  -- The job is queued and waits for the caller's entry, or holds both and waits for a retry; the
  -- caller is a party of it and is shown their own entry. The sign route takes it from the caller in
  -- the same role, unless the addresses of its payload are no keys.
  abbrev pub IsWaiting : Listed → TxJob → Type 0
  IsWaiting l j =
      (p : Payload) × (j.payload ≡ some p)
      × (is_queued j ≡ true)
      × ((names p.maker_address address || names p.taker_address address) ≡ true)
      × (present (own_entry l.is_maker p) ≡ both_signed p)
      × (l ≡ listing (names p.maker_address address) j p)
      × ((parties w.is_valid_public_key p ≡ none)
          ⊎ (sign_job w j.id address entry (some j) js ≡ merge_and_send w j.id l.is_maker entry js))

  parties-names :
      (p : Payload) (maker taker : Text)
      → parties w.is_valid_public_key p ≡ some (maker, taker)
      → (text_eq maker address ≡ names p.maker_address address)
        × (text_eq taker address ≡ names p.taker_address address)
  unfolding parties
  parties-names p maker taker h =
      let v = w.is_valid_public_key in
      elim (Option-cases (key_of v p.maker_address)) [
        | inl e ↦ let h' = rw (parties, e) at h in ground arith
        | inr (a, e) ↦ elim (Option-cases (key_of v p.taker_address)) [
          | inl f ↦ let h' = rw (parties, e, f) at h in ground arith
          | inr (b, f) ↦
              let h' : some (a, b) ≡ some (maker, taker) = rw (parties, e, f) at h in
              let ea : a ≡ maker = ground arith in
              let eb : b ≡ taker = ground arith in
              (
                key_of-names v address p.maker_address maker (e ∙ ap some ea),
                key_of-names v address p.taker_address taker (f ∙ ap some eb),
              )
        ]
      ]

  sign_job-merges :
      (j : TxJob) (p : Payload) (o : Option (Text × Text))
      → j.payload ≡ some p
      → is_queued j ≡ true
      → (names p.maker_address address || names p.taker_address address) ≡ true
      → parties w.is_valid_public_key p ≡ o
      → (parties w.is_valid_public_key p ≡ none)
        ⊎ (sign_job w j.id address entry (some j) js
            ≡ merge_and_send w j.id (names p.maker_address address) entry js)
  unfolding sign_job sign_payload
  sign_job-merges j p none e q h o = inl o
  sign_job-merges j p (some (maker, taker)) e q h o =
      let (a, b) = parties-names p maker taker o in inr (rw (q, e, sign_payload, o, a, b, h) refl)

  list_payload-IsWaiting :
      (j : TxJob) (o : Option Payload) (l : Listed)
      → j.payload ≡ o
      → is_queued j ≡ true
      → list_payload address j o ≡ some l
      → IsWaiting l j
  list_payload-IsWaiting j none l e q h = ground arith
  list_payload-IsWaiting j (some p) l e q h =
      let is_maker = names p.maker_address address in
      let (party, open_entry, same) =
        passed_on (not is_maker && not (names p.taker_address address))
          (present (own_entry is_maker p) && not (both_signed p)) (listing is_maker j p) l h in
      let party' = some_party is_maker (names p.taker_address address) party in
      rw same (
        p,
        e,
        q,
        party',
        own_or_both is_maker p open_entry,
        refl,
        sign_job-merges j p (parties w.is_valid_public_key p) e q party' refl,
      )

  list_jobs-IsWaiting :
      (rows : List TxJob)
      → All (λ j. (is_queued j ≡ true) × Memᴰ j js) rows
      → All (λ l. (j : TxJob) × Memᴰ j js × IsWaiting l j) (list_jobs address rows)
  unfolding list_jobs list_job
  list_jobs-IsWaiting [] h = tt
  list_jobs-IsWaiting (j ∷ rows) ((h, i), hs) =
      added (list_payload address j j.payload) refl (list_jobs-IsWaiting rows hs)
    where
      added :
          (o : Option Listed)
          → list_payload address j j.payload ≡ o
          → All (λ l. (j : TxJob) × Memᴰ j js × IsWaiting l j) (list_jobs address rows)
          → All
              (λ l. (j : TxJob) × Memᴰ j js × IsWaiting l j)
              (add_listed o (list_jobs address rows))
      added none e ih = ih
      added (some l) e ih = ((j, i, list_payload-IsWaiting j j.payload l refl h e), ih)

  -- Each job that the list shows is in the table, queued and waits for the caller: the caller is a party that has
  -- not signed, or both have; the entry shown is the caller's own, signed where both have signed; and
  -- the sign route merges what this caller sends for the job in the same role, unless an address of
  -- its payload is no key.
  pub newest_queued-IsWaiting :
      All (λ l. (j : TxJob) × Memᴰ j js × IsWaiting l j) (list_jobs address (newest_queued js))
  unfolding newest_queued
  newest_queued-IsWaiting =
      let Row = λ (j : TxJob). (is_queued j ≡ true) × Memᴰ j js in
      list_jobs-IsWaiting (newest_queued js) (
        All-take Row 20 _ (
          sort-All Row _ (filterb is_queued js) (
            All-and (λ j. is_queued j ≡ true) (λ j. Memᴰ j js) _ (All-filterb_self is_queued js)
              (All-filterb (λ j. Memᴰ j js) is_queued js (All-Memᴰ js)))))
