-- ===== src/Settlement/Build/Entries.antt =====
-- Whose entries `simulateSettleFill` hands out, client/lib/stellar/settlement.ts.
use kryon_v.Base.{
  ℕ, ◌+◌, ◌≡◌, ◌⊎◌, refl, ap, sym, ◌∙◌, Bool, true, false, ◌||◌, Option, none, some, List, [], ◌∷◌,
  map, someb, Text, codes, text_eq, text_eq_iff, Bool-cases, inl, inr, arith,
}
use kryon_v.Store.{Payload}
use kryon_v.Matcher.{MatchResult}
use kryon_v.Settlement.Pending.{names}
use kryon_v.Settlement.Build.{
  Credentials, address_credentials, source_account, unreadable, AuthEntry, Sdk, assembles,
  set_expiration, address_of, place, identify, entry_or, pending_of, assign_entries,
  simulate_settle_fill, matched_fill_to_sc_val,
}

-- An entry is signed for by an address.
abbrev pub is_for : Text → AuthEntry → Bool
is_for address e = names (address_of e.credentials) address

-- What was found is an entry of the address that expires at a ledger.
abbrev pub IsOwn : Text → ℕ → AuthEntry → Type 0
IsOwn address ledger e = e.credentials ≡ address_credentials address ledger

abbrev HasOwn : Text → ℕ → Option AuthEntry → Type 0
HasOwn address ledger o = (e : AuthEntry) × (o ≡ some e) × IsOwn address ledger e

kept : {A : Type 0} (b : Bool) → A ⊎ (b ≡ true) → b ≡ false → A
kept b (inl a) f = a
kept b (inr t) f = ground arith

module _ (maker taker : Text) (ledger : ℕ) (e : AuthEntry)
    (found : Option AuthEntry × Option AuthEntry) where
  abbrev placed : Option AuthEntry × Option AuthEntry
  placed =
      let e' = set_expiration ledger e in place maker taker e' (address_of e'.credentials) found

  place-maker :
      (c : Credentials)
      → e.credentials ≡ c
      → HasOwn maker ledger found.0 ⊎ (names (address_of c) maker ≡ true)
      → HasOwn maker ledger placed.0
  unfolding set_expiration
  place-maker (address_credentials a old) q h = elim (Bool-cases (text_eq a maker)) [
    | inl same ↦
        rw (q, same)
          (_, refl, ap (λ t. address_credentials t ledger) ((text_eq_iff a maker).0 same))
    | inr other ↦
        let old = kept (text_eq a maker) h other in
        elim (Bool-cases (text_eq a taker)) [
          | inl t ↦ rw (q, other, t) old
          | inr f ↦ rw (q, other, f) old
        ]
  ]
  place-maker source_account q h = rw q (kept false h refl)
  place-maker unreadable q h = rw q (kept false h refl)

  place-taker :
      (c : Credentials)
      → text_eq maker taker ≡ false
      → e.credentials ≡ c
      → HasOwn taker ledger found.1 ⊎ (names (address_of c) taker ≡ true)
      → HasOwn taker ledger placed.1
  unfolding set_expiration
  place-taker (address_credentials a old) apart q h = elim (Bool-cases (text_eq a maker)) [
    | inl same ↦
        let other : text_eq a taker ≡ false = rw ((text_eq_iff a maker).0 same) apart in
        rw (q, same) (kept (text_eq a taker) h other)
    | inr other ↦ elim (Bool-cases (text_eq a taker)) [
      | inl t ↦
          rw (q, other, t)
            (_, refl, ap (λ t. address_credentials t ledger) ((text_eq_iff a taker).0 t))
      | inr f ↦ rw (q, other, f) (kept (text_eq a taker) h f)
    ]
  ]
  place-taker source_account apart q h = rw q (kept false h refl)
  place-taker unreadable apart q h = rw q (kept false h refl)

alone : (b : Bool) → (b || false) ≡ true → b ≡ true
alone b h = ground arith

same_party :
    (o : Option Text) (a b : Text) → names o a ≡ true → names o b ≡ true → text_eq a b ≡ true
same_party none a b h k = ground arith
same_party (some c) a b h k = rw ((text_eq_iff c a).0 h) at k

or-split : (a b : Bool) → (a || b) ≡ true → (a ≡ true) ⊎ (b ≡ true)
or-split a b h = ground arith

module _ (maker taker : Text) (ledger : ℕ) where
  identify-maker :
      (es : List AuthEntry) (found : Option AuthEntry × Option AuthEntry)
      → HasOwn maker ledger found.0 ⊎ (someb (is_for maker) es ≡ true)
      → HasOwn maker ledger (identify maker taker (map (set_expiration ledger) es) found).0
  unfolding identify
  identify-maker [] found h = kept false h refl
  identify-maker (e ∷ es) found (inl own) =
      identify-maker es _
        (inl (place-maker maker taker ledger e found e.credentials refl (inl own)))
  identify-maker (e ∷ es) found (inr some_for) =
      elim (or-split (is_for maker e) (someb (is_for maker) es) some_for) [
        | inl here ↦
            identify-maker es _
              (inl (place-maker maker taker ledger e found e.credentials refl (inr here)))
        | inr later ↦ identify-maker es _ (inr later)
      ]

  identify-taker :
      (es : List AuthEntry) (found : Option AuthEntry × Option AuthEntry)
      → text_eq maker taker ≡ false
      → HasOwn taker ledger found.1 ⊎ (someb (is_for taker) es ≡ true)
      → HasOwn taker ledger (identify maker taker (map (set_expiration ledger) es) found).1
  unfolding identify
  identify-taker [] found apart h = kept false h refl
  identify-taker (e ∷ es) found apart (inl own) =
      identify-taker es _ apart
        (inl (place-taker maker taker ledger e found e.credentials apart refl (inl own)))
  identify-taker (e ∷ es) found apart (inr some_for) =
      elim (or-split (is_for taker e) (someb (is_for taker) es) some_for) [
        | inl here ↦
            identify-taker es _ apart
              (inl (place-taker maker taker ledger e found e.credentials apart refl (inr here)))
        | inr later ↦ identify-taker es _ apart (inr later)
      ]

module _ (sdk : Sdk) (m : MatchResult) where
  -- A payload that asks each party for an entry of their own that expires at a ledger.
  abbrev pub AsksEach : ℕ → Payload → Type 0
  AsksEach ledger p =
      (maker_entry : AuthEntry) × (taker_entry : AuthEntry) × (p.maker_auth_xdr
        ≡ some (sdk.entry_to_xdr maker_entry))
      × (p.taker_auth_xdr ≡ some (sdk.entry_to_xdr taker_entry))
      × IsOwn m.maker.owner ledger maker_entry
      × IsOwn m.taker.owner ledger taker_entry

  assign_entries-AsksEach :
      (es : List AuthEntry) (xdr : Text) (ledger : ℕ)
      → text_eq m.maker.owner m.taker.owner ≡ false
      → someb (is_for m.maker.owner) es ≡ true
      → someb (is_for m.taker.owner) es ≡ true
      → (p : Payload) × (assign_entries sdk m (map (set_expiration ledger) es) xdr ≡ some p)
        × AsksEach ledger p
  unfolding assign_entries pending_of
  assign_entries-AsksEach [] xdr ledger apart hm ht = ground arith
  assign_entries-AsksEach (e ∷ []) xdr ledger apart hm ht =
      let both =
        same_party (address_of e.credentials) m.maker.owner m.taker.owner
          (alone (is_for m.maker.owner e) hm) (alone (is_for m.taker.owner e) ht) in
      let clash = sym both ∙ apart in ground arith
  assign_entries-AsksEach (a ∷ b ∷ es) xdr ledger apart hm ht =
      let (x, ex, ox) =
        identify-maker m.maker.owner m.taker.owner ledger (a ∷ b ∷ es) (none, none) (inr hm) in
      let (y, ey, oy) =
        identify-taker m.maker.owner m.taker.owner ledger (a ∷ b ∷ es) (none, none) apart
          (inr ht) in
      (
        _,
        refl,
        (
          x,
          y,
          ap (λ o. some (sdk.entry_to_xdr (entry_or (set_expiration ledger a) o))) ex,
          ap (λ o. some (sdk.entry_to_xdr (entry_or (set_expiration ledger b) o))) ey,
          ox,
          oy,
        ),
      )

  -- Where the account loads, the simulation gives entries of both parties, who differ, and the ledger
  -- can be read, the payload asks each party for an entry of their own, which expires 100 ledgers
  -- later.
  pub simulate_settle_fill-AsksEach :
      (fee_payer xdr : Text) (es : List AuthEntry) (sequence : ℕ)
      → sdk.get_account fee_payer ≡ true
      → sdk.simulate (codes "settle_fill") (matched_fill_to_sc_val m ∷ []) ≡ some (assembles es xdr)
      → sdk.latest_ledger ≡ some sequence
      → text_eq m.maker.owner m.taker.owner ≡ false
      → someb (is_for m.maker.owner) es ≡ true
      → someb (is_for m.taker.owner) es ≡ true
      → (p : Payload) × (simulate_settle_fill sdk m fee_payer ≡ some p)
        × AsksEach (sequence + 100) p
  unfolding simulate_settle_fill assign_entries pending_of
  simulate_settle_fill-AsksEach fee_payer xdr es sequence h hs hl apart hm ht =
      rw (h, hs, hl) (assign_entries-AsksEach es xdr (sequence + 100) apart hm ht)
