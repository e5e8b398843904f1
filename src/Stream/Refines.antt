-- ===== src/Stream/Refines.antt =====
-- The server's map of subscriptions against a relation between sockets and channels.
use kryon_v.Base.{
  ℕ, ◌≡◌, refl, ◌∙◌, Option, none, some, List, [], ◌∷◌, if◌then◌else◌, filterb, Text, codes,
  text_eq, text_eq_iff, fun_ext, ap, Bool-cases, inl, inr, arith,
}
use kryon_v.Stream.{
  Subscriptions, is_subscribed, is_channel, Message, on_subscribe, on_unsubscribe, on_message,
  Event, received, closed, errored, broadcasted, handle, handle_all,
}
use kryon_v.Stream.Rooms.{
  Relation, joins, leaves, ends, prunes, is_subscribed-unsubscribe_all, is_subscribed-broadcast,
  is_subscribed-each-subscribe, is_subscribed-each-unsubscribe,
}

-- The channels of a message, none where it has no array of them.
abbrev pub channels_of : Option (List Text) → List Text
channels_of none = []
channels_of (some cs) = cs

-- What a message means: to join the well-formed channels, or to leave any.
abbrev pub message_means : ℕ → Option Message → Relation → Relation
message_means w none a = a
message_means w (some msg) a =
    if text_eq msg.type (codes "subscribe")
    then joins w (filterb is_channel (channels_of msg.channels)) a
    else if text_eq msg.type (codes "unsubscribe")
    then leaves w (channels_of msg.channels) a
    else a

abbrev pub means : Event → Relation → Relation
means (received w msg) = message_means w msg
means (closed w) = ends w
means (errored w) = ends w
means (broadcasted c is_open) = prunes c is_open

abbrev pub all_means : List Event → Relation → Relation
all_means [] a = a
all_means (e ∷ es) a = all_means es (means e a)

joins_none : (w v : ℕ) (d : Text) (a : Relation) → a v d ≡ joins w [] a v d
joins_none w v d a = ground arith

leaves_none : (w v : ℕ) (d : Text) (a : Relation) → a v d ≡ leaves w [] a v d
leaves_none w v d a = ground arith

on_subscribe-joins :
    (w v : ℕ) (d : Text) (cs : Option (List Text)) (subs : Subscriptions)
    → is_subscribed (on_subscribe w cs subs).1 v d
      ≡ joins w (filterb is_channel (channels_of cs)) (is_subscribed subs) v d
on_subscribe-joins w v d none subs = joins_none w v d (is_subscribed subs)
on_subscribe-joins w v d (some cs) subs =
    is_subscribed-each-subscribe w v d (filterb is_channel cs) subs

on_unsubscribe-leaves :
    (w v : ℕ) (d : Text) (cs : Option (List Text)) (subs : Subscriptions)
    → is_subscribed (on_unsubscribe w cs subs).1 v d
      ≡ leaves w (channels_of cs) (is_subscribed subs) v d
on_unsubscribe-leaves w v d none subs = leaves_none w v d (is_subscribed subs)
on_unsubscribe-leaves w v d (some cs) subs = is_subscribed-each-unsubscribe w v d cs subs

pub on_message-means :
    (w v : ℕ) (d : Text) (msg : Option Message) (subs : Subscriptions)
    → is_subscribed (on_message w msg subs).1 v d ≡ message_means w msg (is_subscribed subs) v d
unfolding on_message text_eq
on_message-means w v d none subs = refl
on_message-means w v d (some msg) subs = elim (Bool-cases (text_eq msg.type (codes "ping"))) [
  | inl e ↦ rw ((text_eq_iff msg.type (codes "ping")).0 e) refl
  | inr e ↦ elim (Bool-cases (text_eq msg.type (codes "subscribe"))) [
    | inl s ↦ rw (e, s) (on_subscribe-joins w v d msg.channels subs)
    | inr s ↦ elim (Bool-cases (text_eq msg.type (codes "unsubscribe"))) [
      | inl u ↦ rw (e, s, u) (on_unsubscribe-leaves w v d msg.channels subs)
      | inr u ↦ rw (e, s, u) refl
    ]
  ]
]

pub handle-means :
    (e : Event) (subs : Subscriptions)
    → is_subscribed (handle e subs) ≡ means e (is_subscribed subs)
unfolding handle
handle-means (received w msg) subs = fun_ext (λ v. fun_ext (λ d. on_message-means w v d msg subs))
handle-means (closed w) subs =
    fun_ext (λ v. fun_ext (λ d. is_subscribed-unsubscribe_all w v d subs))
handle-means (errored w) subs =
    fun_ext (λ v. fun_ext (λ d. is_subscribed-unsubscribe_all w v d subs))
handle-means (broadcasted c is_open) subs =
    fun_ext (λ v. fun_ext (λ d. is_subscribed-broadcast c d is_open v subs))

-- Through any events, the map of sets holds exactly the relation in which a subscription joins the
-- well-formed channels, an unsubscription leaves the channels, the end of a connection leaves all of them,
-- and a broadcast drops the sockets of its channel that are not open.
pub handle_all-means :
    (es : List Event) (subs : Subscriptions)
    → is_subscribed (handle_all es subs) ≡ all_means es (is_subscribed subs)
unfolding handle_all
handle_all-means [] subs = refl
handle_all-means (e ∷ es) subs =
    handle_all-means es (handle e subs) ∙ ap (all_means es) (handle-means e subs)
