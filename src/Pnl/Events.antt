-- ===== src/Pnl/Events.antt =====
-- `recordFillPnl` of client/lib/stats.ts when it is run again, as after a crash.
use kryon_v.Base.{
  ◌≡◌, refl, ap, ◌∙◌, Bool, true, false, ◌||◌, List, [], ◌∷◌, ◌++◌, arith, someb, Text, codes,
  text_eq_refl, ltb_ℤ, pos, not, Bool-cases, inl, inr,
}
use kryon_v.Pnl.Fills.{
  PnlEvent, PnlEventKind, realized_trade, funding, liquidation, same_key, insert_event, insert_when,
  FillSide, FillArgs, record_side, record_fill_pnl, realized_event, fee_event, side_realized,
  is_zero, kind_eq,
}

abbrev pub Has : PnlEvent → List PnlEvent → Type 0
Has e events = someb (same_key e) events ≡ true

kind_eq_refl : (k : PnlEventKind) → kind_eq k k ≡ true
kind_eq_refl realized_trade = refl
kind_eq_refl funding = refl
kind_eq_refl liquidation = refl
kind_eq_refl PnlEventKind.fee = refl

same_key_refl : (e : PnlEvent) → same_key e e ≡ true
unfolding same_key
same_key_refl e =
    rw (text_eq_refl e.network, text_eq_refl e.address, kind_eq_refl e.kind, text_eq_refl e.ref_key)

someb-append :
    (p : PnlEvent → Bool) (xs ys : List PnlEvent) → someb p (xs ++ ys) ≡ (someb p xs || someb p ys)
someb-append p [] ys = refl
someb-append p (x ∷ xs) ys = ground (arith, someb-append p xs ys)

pub insert_event-Has_self : (e : PnlEvent) (events : List PnlEvent) → Has e (insert_event e events)
unfolding insert_event
insert_event-Has_self e events = elim (Bool-cases (someb (same_key e) events)) [
  | inl old ↦ rw old old
  | inr new ↦ rw (new, someb-append (same_key e) events (e ∷ []), same_key_refl e, new) refl
]

pub insert_event-Has :
    (e f : PnlEvent) (events : List PnlEvent) → Has f events → Has f (insert_event e events)
unfolding insert_event
insert_event-Has e f events h = elim (Bool-cases (someb (same_key e) events)) [
  | inl old ↦ rw old h
  | inr new ↦ rw (new, someb-append (same_key f) events (e ∷ []), h) refl
]

pub insert_event_again :
    (e : PnlEvent) (events : List PnlEvent) → Has e events → insert_event e events ≡ events
unfolding insert_event
insert_event_again e events h = rw h

module _ (b : Bool) (e : PnlEvent) (events : List PnlEvent) where
  insert_when-Has : (f : PnlEvent) → Has f events → Has f (insert_when b e events)
  unfolding insert_when
  insert_when-Has f h = elim b as (λ c. Has f (insert_when c e events)) [
    | true ↦ insert_event-Has e f events h
    | false ↦ h
  ]

  insert_when-Has_self : b ≡ true → Has e (insert_when b e events)
  unfolding insert_when
  insert_when-Has_self h = rw h (insert_event-Has_self e events)

  insert_when_again : (b ≡ true → Has e events) → insert_when b e events ≡ events
  unfolding insert_when
  insert_when_again h = elim (Bool-cases b) [
    | inl t ↦ rw t (insert_event_again e events (h t))
    | inr f ↦ rw f
  ]

module _ (network : Text) (args : FillArgs) (who : FillSide) (tag : Text) where
  -- Whether each of the two rows is to be written.
  abbrev books : Bool
  books = not (is_zero (side_realized network args who))

  abbrev charges : Bool
  charges = ltb_ℤ (pos 0) who.fee

  abbrev realized_row : PnlEvent
  realized_row = realized_event network args who tag

  abbrev fee_row : PnlEvent
  fee_row = fee_event network args who tag

  -- What a run of one side leaves behind.
  abbrev pub Recorded : List PnlEvent → Type 0
  Recorded events = (books ≡ true → Has realized_row events) × (charges ≡ true → Has fee_row events)

  record_side-Has :
      (f : PnlEvent) (events : List PnlEvent)
      → Has f events
      → Has f (record_side network args who tag events)
  unfolding record_side
  record_side-Has f events h =
      insert_when-Has charges fee_row (insert_when books realized_row events) f
        (insert_when-Has books realized_row events f h)

  record_side-Recorded :
      (events : List PnlEvent) → Recorded (record_side network args who tag events)
  unfolding record_side
  record_side-Recorded events =
      let mid = insert_when books realized_row events in
      (
        λ b.
            insert_when-Has charges fee_row mid realized_row
              (insert_when-Has_self books realized_row events b),
        insert_when-Has_self charges fee_row mid,
      )

  record_side_again :
      (events : List PnlEvent) → Recorded events → record_side network args who tag events ≡ events
  unfolding record_side
  record_side_again events (b, c) =
      rw (insert_when_again books realized_row events b)
        (insert_when_again charges fee_row events c)

-- Recording the same settled fill a second time leaves the event table as the first run left it.
pub record_fill_pnl_idempotent :
    (network : Text) (args : FillArgs) (events : List PnlEvent)
    → let once = record_fill_pnl network args events in record_fill_pnl network args once ≡ once
unfolding record_fill_pnl
record_fill_pnl_idempotent network args events =
    let m = record_side network args args.maker (codes "maker") events in
    let t = record_side network args args.taker (codes "taker") m in
    let (b, c) = record_side-Recorded network args args.maker (codes "maker") events in
    let keep = record_side-Has network args args.taker (codes "taker") in
    let maker_same : record_side network args args.maker (codes "maker") t ≡ t =
      record_side_again network args args.maker (codes "maker") t
        (λ x. keep _ m (b x), λ x. keep _ m (c x)) in
    let taker_same : record_side network args args.taker (codes "taker") t ≡ t =
      record_side_again network args args.taker (codes "taker") t
        (record_side-Recorded network args args.taker (codes "taker") m) in
    ap (record_side network args args.taker (codes "taker")) maker_same ∙ taker_same
