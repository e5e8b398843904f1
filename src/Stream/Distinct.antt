-- ===== src/Stream/Distinct.antt =====
-- The sets of the server's map and the recipients of a broadcast, client/scripts/ws-server.ts.
use kryon_v.Base.{
  ℕ, ◌≡◌, ◌∙◌, Bool, true, false, ◌&&◌, Option, none, some, List, [], ◌∷◌, ◌==◌, if◌then◌else◌,
  filterb, All, All-append, Text, codes, text_eq, ap, Bool-cases, inl, inr,
}
use kryon_v.Stream.Sets.{
  has, IsDistinct, has-filterb, filterb-IsDistinct, without-IsDistinct, adjoin-IsDistinct,
}
use kryon_v.Stream.{
  Subscriptions, has_channel, members, update, ensure, subscribe, unsubscribe, unsubscribe_all,
  broadcast, is_channel, each, on_subscribe, on_unsubscribe, on_message, Reply, Event, received,
  closed, errored, broadcasted, handle, handle_all,
}
use kryon_v.Stream.Rooms.{Relation, lawful, reflexive}
use kryon_v.Stream.Refines.{all_means, handle_all-means}

-- No set of the map holds a socket twice.
abbrev IsWellFormed : Subscriptions → Type 0
IsWellFormed subs = All (λ r. IsDistinct ◌==◌ r.sockets) subs

members-IsDistinct :
    (c : Text) (subs : Subscriptions) → IsWellFormed subs → IsDistinct ◌==◌ (members c subs)
members-IsDistinct c [] h = tt
members-IsDistinct c (r ∷ rs) (h, hs) = elim (Bool-cases (text_eq c r.channel)) [
  | inl e ↦ rw e h
  | inr e ↦ rw e (members-IsDistinct c rs hs)
]

update-IsWellFormed :
    (c : Text) (f : List ℕ → List ℕ) (subs : Subscriptions)
    → ((xs : List ℕ) → IsDistinct ◌==◌ xs → IsDistinct ◌==◌ (f xs))
    → IsWellFormed subs
    → IsWellFormed (update c f subs)
update-IsWellFormed c f [] keeps h = tt
update-IsWellFormed c f (r ∷ rs) keeps (h, hs) = elim (Bool-cases (text_eq c r.channel)) [
  | inl e ↦ rw e (keeps r.sockets h, hs)
  | inr e ↦ rw e (h, update-IsWellFormed c f rs keeps hs)
]

ensure-IsWellFormed :
    (c : Text) (subs : Subscriptions) → IsWellFormed subs → IsWellFormed (ensure c subs)
ensure-IsWellFormed c subs h = elim (Bool-cases (has_channel c subs)) [
  | inl e ↦ rw e h
  | inr e ↦ rw e (All-append (λ r. IsDistinct ◌==◌ r.sockets) subs _ h (tt, tt))
]

each-IsWellFormed :
    (f : Text → Subscriptions → Subscriptions) (cs : List Text) (subs : Subscriptions)
    → ((c : Text) (s : Subscriptions) → IsWellFormed s → IsWellFormed (f c s))
    → IsWellFormed subs
    → IsWellFormed (each f cs subs)
each-IsWellFormed f [] subs keeps h = h
each-IsWellFormed f (c ∷ cs) subs keeps h = each-IsWellFormed f cs (f c subs) keeps (keeps c subs h)

subscribe-IsWellFormed :
    (w : ℕ) (c : Text) (subs : Subscriptions)
    → IsWellFormed subs
    → IsWellFormed (subscribe w c subs)
unfolding subscribe
subscribe-IsWellFormed w c subs h =
    update-IsWellFormed c _ (ensure c subs) (adjoin-IsDistinct ◌==◌ lawful reflexive w)
      (ensure-IsWellFormed c subs h)

unsubscribe-IsWellFormed :
    (w : ℕ) (c : Text) (subs : Subscriptions)
    → IsWellFormed subs
    → IsWellFormed (unsubscribe w c subs)
unfolding unsubscribe
unsubscribe-IsWellFormed w c subs h = update-IsWellFormed c _ subs (without-IsDistinct ◌==◌ w) h

unsubscribe_all-IsWellFormed :
    (w : ℕ) (subs : Subscriptions) → IsWellFormed subs → IsWellFormed (unsubscribe_all w subs)
unfolding unsubscribe_all
unsubscribe_all-IsWellFormed w [] h = tt
unsubscribe_all-IsWellFormed w (r ∷ rs) (h, hs) =
    (without-IsDistinct ◌==◌ w r.sockets h, unsubscribe_all-IsWellFormed w rs hs)

on_subscribe-IsWellFormed :
    (w : ℕ) (cs : Option (List Text)) (subs : Subscriptions)
    → IsWellFormed subs
    → IsWellFormed (on_subscribe w cs subs).1
on_subscribe-IsWellFormed w none subs h = h
on_subscribe-IsWellFormed w (some cs) subs h =
    each-IsWellFormed (subscribe w) (filterb is_channel cs) subs (subscribe-IsWellFormed w) h

on_unsubscribe-IsWellFormed :
    (w : ℕ) (cs : Option (List Text)) (subs : Subscriptions)
    → IsWellFormed subs
    → IsWellFormed (on_unsubscribe w cs subs).1
on_unsubscribe-IsWellFormed w none subs h = h
on_unsubscribe-IsWellFormed w (some cs) subs h =
    each-IsWellFormed (unsubscribe w) cs subs (unsubscribe-IsWellFormed w) h

if-IsWellFormed :
    (b : Bool) (x y : Option Reply × Subscriptions)
    → IsWellFormed x.1
    → IsWellFormed y.1
    → IsWellFormed (if b then x else y).1
if-IsWellFormed true x y hx hy = hx
if-IsWellFormed false x y hx hy = hy

handle-IsWellFormed :
    (e : Event) (subs : Subscriptions) → IsWellFormed subs → IsWellFormed (handle e subs)
unfolding handle on_message broadcast
handle-IsWellFormed (received w none) subs h = h
handle-IsWellFormed (received w (some msg)) subs h =
    if-IsWellFormed (text_eq msg.type (codes "ping")) _ _ h (
      if-IsWellFormed (text_eq msg.type (codes "subscribe")) _ _
        (on_subscribe-IsWellFormed w msg.channels subs h)
        (if-IsWellFormed (text_eq msg.type (codes "unsubscribe")) _ _
          (on_unsubscribe-IsWellFormed w msg.channels subs h) h))
handle-IsWellFormed (closed w) subs h = unsubscribe_all-IsWellFormed w subs h
handle-IsWellFormed (errored w) subs h = unsubscribe_all-IsWellFormed w subs h
handle-IsWellFormed (broadcasted c is_open) subs h =
    update-IsWellFormed c _ subs (filterb-IsDistinct ◌==◌ is_open) h

handle_all-IsWellFormed :
    (es : List Event) (subs : Subscriptions) → IsWellFormed subs → IsWellFormed (handle_all es subs)
unfolding handle_all
handle_all-IsWellFormed [] subs h = h
handle_all-IsWellFormed (e ∷ es) subs h =
    handle_all-IsWellFormed es (handle e subs) (handle-IsWellFormed e subs h)

-- After any events from the start of the server, a broadcast sends to each socket at most once, and to
-- exactly the open ones that the events have left subscribed to the channel.
pub broadcast-IsExact :
    (es : List Event) (c : Text) (is_open : ℕ → Bool)
    → IsDistinct ◌==◌ (broadcast c is_open (handle_all es [])).0
      × ((v : ℕ)
          → has ◌==◌ v (broadcast c is_open (handle_all es [])).0
            ≡ (all_means es (λ _ _. false) v c && is_open v))
unfolding broadcast
broadcast-IsExact es c is_open = (
  filterb-IsDistinct ◌==◌ is_open _
      (members-IsDistinct c (handle_all es []) (handle_all-IsWellFormed es [] tt)),
  λ v.
      has-filterb ◌==◌ lawful reflexive is_open v (members c (handle_all es []))
      ∙ ap (λ (a : Relation). a v c && is_open v) (handle_all-means es []),
)
