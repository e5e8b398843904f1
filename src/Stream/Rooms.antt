-- ===== src/Stream/Rooms.antt =====
-- The map of subscriptions as a relation between sockets and channels.
use kryon_v.Base.{
  ℕ, ◌≡◌, refl, sym, ap, Bool, true, false, not, ◌&&◌, ◌||◌, List, [], ◌∷◌, ◌++◌, ◌==◌, ==_iff,
  if◌then◌else◌, filterb, Text, text_eq, text_eq_iff, text_eq_refl, Bool-cases, inl, inr, arith,
}
use kryon_v.Stream.Sets.{has, adjoin, without, has-adjoin, has-without, has-filterb}
use kryon_v.Stream.{
  Subscriptions, has_channel, members, is_subscribed, update, ensure, subscribe, unsubscribe,
  unsubscribe_all, broadcast, each,
}

pub lawful : (x y : ℕ) → (x == y) ≡ true → x ≡ y
lawful x y h = (==_iff x y).0 h

pub reflexive : (x : ℕ) → (x == x) ≡ true
reflexive x = (==_iff x x).1 refl

members-update_self :
    (c : Text) (f : List ℕ → List ℕ) (subs : Subscriptions)
    → has_channel c subs ≡ true
    → members c (update c f subs) ≡ f (members c subs)
members-update_self c f [] h = ground arith
members-update_self c f (r ∷ rs) h = elim (Bool-cases (text_eq c r.channel)) [
  | inl e ↦ rw (e, e) refl
  | inr e ↦ rw (e, e) (members-update_self c f rs (ground arith))
]

-- The same where the change keeps the empty set.
members-update_kept :
    (c : Text) (f : List ℕ → List ℕ) (subs : Subscriptions)
    → f [] ≡ []
    → members c (update c f subs) ≡ f (members c subs)
members-update_kept c f [] h = sym h
members-update_kept c f (r ∷ rs) h = elim (Bool-cases (text_eq c r.channel)) [
  | inl e ↦ rw (e, e) refl
  | inr e ↦ rw (e, e) (members-update_kept c f rs h)
]

members-update_other :
    (c d : Text) (f : List ℕ → List ℕ) (subs : Subscriptions)
    → text_eq d c ≡ false
    → members d (update c f subs) ≡ members d subs
members-update_other c d f [] h = refl
members-update_other c d f (r ∷ rs) h = elim (Bool-cases (text_eq c r.channel)) [
  | inl e ↦
      let apart : text_eq d r.channel ≡ false = rw (sym ((text_eq_iff c r.channel).0 e)) h in
      rw (e, apart) refl
  | inr e ↦ elim (Bool-cases (text_eq d r.channel)) [
    | inl same ↦ rw (e, same) refl
    | inr apart ↦ rw (e, apart) (members-update_other c d f rs h)
  ]
]

members-append_empty :
    (c d : Text) (subs : Subscriptions)
    → members d (subs ++ (record { channel = c; sockets = [] }) ∷ []) ≡ members d subs
members-append_empty c d [] = ground arith
members-append_empty c d (r ∷ rs) =
    ap (λ rest. if text_eq d r.channel then r.sockets else rest) (members-append_empty c d rs)

members-ensure : (c d : Text) (subs : Subscriptions) → members d (ensure c subs) ≡ members d subs
members-ensure c d subs = elim (Bool-cases (has_channel c subs)) [
  | inl e ↦ rw e refl
  | inr e ↦ rw e (members-append_empty c d subs)
]

has_channel-append :
    (c : Text) (subs : Subscriptions)
    → has_channel c (subs ++ (record { channel = c; sockets = [] }) ∷ []) ≡ true
has_channel-append c [] = rw (text_eq_refl c) refl
has_channel-append c (r ∷ rs) = ground (arith, has_channel-append c rs)

has_channel-ensure : (c : Text) (subs : Subscriptions) → has_channel c (ensure c subs) ≡ true
has_channel-ensure c subs = elim (Bool-cases (has_channel c subs)) [
  | inl e ↦ rw (e, e) refl
  | inr e ↦ rw e (has_channel-append c subs)
]

-- Relations between sockets and channels, and how each event changes one.
abbrev pub Relation : Type 0
Relation = ℕ → Text → Bool

abbrev pub joins : ℕ → List Text → Relation → Relation
joins w cs a v d = a v d || ((v == w) && has text_eq d cs)

abbrev pub leaves : ℕ → List Text → Relation → Relation
leaves w cs a v d = a v d && not ((v == w) && has text_eq d cs)

abbrev pub ends : ℕ → Relation → Relation
ends w a v d = a v d && not (v == w)

abbrev pub prunes : Text → (ℕ → Bool) → Relation → Relation
prunes c is_open a v d = a v d && (not (text_eq d c) || is_open v)

is_subscribed-subscribe :
    (w v : ℕ) (c d : Text) (subs : Subscriptions)
    → is_subscribed (subscribe w c subs) v d ≡ (is_subscribed subs v d || ((v == w) && text_eq d c))
unfolding subscribe
is_subscribed-subscribe w v c d subs = elim (Bool-cases (text_eq d c)) [
  | inl e ↦
      let same = (text_eq_iff d c).0 e in
      rw
        (
          e,
          same,
          members-update_self c (adjoin ◌==◌ w) (ensure c subs) (has_channel-ensure c subs),
          members-ensure c c subs,
          has-adjoin ◌==◌ lawful reflexive w v (members c subs),
        )
        (ground arith)
  | inr e ↦
      rw (e, members-update_other c d (adjoin ◌==◌ w) (ensure c subs) e, members-ensure c d subs)
        (ground arith)
]

is_subscribed-unsubscribe :
    (w v : ℕ) (c d : Text) (subs : Subscriptions)
    → is_subscribed (unsubscribe w c subs) v d
      ≡ (is_subscribed subs v d && not ((v == w) && text_eq d c))
unfolding unsubscribe without
is_subscribed-unsubscribe w v c d subs = elim (Bool-cases (text_eq d c)) [
  | inl e ↦
      let same = (text_eq_iff d c).0 e in
      rw
        (
          e,
          same,
          members-update_kept c (without ◌==◌ w) subs refl,
          has-without ◌==◌ lawful reflexive w v (members c subs),
        )
        (ground arith)
  | inr e ↦ rw (e, members-update_other c d (without ◌==◌ w) subs e) (ground arith)
]

pub is_subscribed-unsubscribe_all :
    (w v : ℕ) (d : Text) (subs : Subscriptions)
    → is_subscribed (unsubscribe_all w subs) v d ≡ ends w (is_subscribed subs) v d
unfolding unsubscribe_all
is_subscribed-unsubscribe_all w v d [] = refl
is_subscribed-unsubscribe_all w v d (r ∷ rs) = elim (Bool-cases (text_eq d r.channel)) [
  | inl e ↦ rw (e, has-without ◌==◌ lawful reflexive w v r.sockets) (ground arith)
  | inr e ↦ rw e (is_subscribed-unsubscribe_all w v d rs)
]

pub is_subscribed-broadcast :
    (c d : Text) (is_open : ℕ → Bool) (v : ℕ) (subs : Subscriptions)
    → is_subscribed (broadcast c is_open subs).1 v d ≡ prunes c is_open (is_subscribed subs) v d
unfolding broadcast
is_subscribed-broadcast c d is_open v subs = elim (Bool-cases (text_eq d c)) [
  | inl e ↦
      let same = (text_eq_iff d c).0 e in
      rw
        (
          e,
          same,
          members-update_kept c (filterb is_open) subs refl,
          has-filterb ◌==◌ lawful reflexive is_open v (members c subs),
        )
        (ground arith)
  | inr e ↦ rw (e, members-update_other c d (filterb is_open) subs e) (ground arith)
]

pub is_subscribed-each-subscribe :
    (w v : ℕ) (d : Text) (cs : List Text) (subs : Subscriptions)
    → is_subscribed (each (subscribe w) cs subs) v d ≡ joins w cs (is_subscribed subs) v d
is_subscribed-each-subscribe w v d [] subs = ground arith
is_subscribed-each-subscribe w v d (c ∷ cs) subs = ground (
  arith,
  is_subscribed-each-subscribe w v d cs (subscribe w c subs),
  is_subscribed-subscribe w v c d subs,
)

pub is_subscribed-each-unsubscribe :
    (w v : ℕ) (d : Text) (cs : List Text) (subs : Subscriptions)
    → is_subscribed (each (unsubscribe w) cs subs) v d ≡ leaves w cs (is_subscribed subs) v d
is_subscribed-each-unsubscribe w v d [] subs = ground arith
is_subscribed-each-unsubscribe w v d (c ∷ cs) subs = ground (
  arith,
  is_subscribed-each-unsubscribe w v d cs (unsubscribe w c subs),
  is_subscribed-unsubscribe w v c d subs,
)
