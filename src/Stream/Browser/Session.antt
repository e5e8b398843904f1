-- ===== src/Stream/Browser/Session.antt =====
-- A browser and the server on one open connection, client/lib/market/websocket.ts and
-- client/scripts/ws-server.ts.
use kryon_v.Base.{
  ℕ, ◌≡◌, refl, ap, ◌∙◌, Bool, true, false, ◌||◌, none, some, List, [], ◌∷◌, ◌==◌, if◌then◌else◌,
  Text, codes, text_eq, Bool-cases, inl, inr, arith,
}
use kryon_v.Stream.{
  Subscriptions, is_subscribed, Event, received, closed, errored, broadcasted, handle,
}
use kryon_v.Stream.Sets.{has}
use kryon_v.Stream.Browser.Channels.{AreChannels}
use kryon_v.Stream.Browser.Talk.{
  receive, IsInStep, InStepAfter, send_open, reflexive_num, receive_subscribe,
  ws_subscribe-IsInStep, ws_unsubscribe-IsInStep,
}
use kryon_v.Stream.Rooms.{Relation}
use kryon_v.Stream.Refines.{means, on_message-means, handle-means}
use kryon_v.Stream.Browser.{
  Ready, open_state, connecting_state, Browser, send, send_subscribe, subscribe_message,
  ping_message, disconnects, resets, ws_reset, on_open, set_ready, open_when, opened, pings, Api,
  subscribes, unsubscribes, happen, call,
}

-- Calls that keep the connection.
abbrev pub IsKept : Api → Type 0
IsKept (subscribes market_id throws) = Unit
IsKept (unsubscribes market_id) = Unit
IsKept disconnects = ⊥
IsKept resets = Unit

-- What happens at the server on other connections, and broadcasts while this one is open.
abbrev pub IsElsewhere : ℕ → Event → Type 0
IsElsewhere conn (received v msg) = (conn == v) ≡ false
IsElsewhere conn (closed v) = (conn == v) ≡ false
IsElsewhere conn (errored v) = (conn == v) ≡ false
IsElsewhere conn (broadcasted c is_live_socket) = is_live_socket conn ≡ true

call-IsInStep :
    (conn w : ℕ) (a : Api) (b : Browser) (subs : Subscriptions)
    → IsKept a
    → IsInStep conn w b subs
    → InStepAfter conn w subs (call a b)
unfolding call ws_reset
call-IsInStep conn w (subscribes market_id throws) b subs k h =
    ws_subscribe-IsInStep conn w market_id throws b subs h
call-IsInStep conn w (unsubscribes market_id) b subs k h =
    ws_unsubscribe-IsInStep conn w market_id b subs h
call-IsInStep conn w disconnects b subs k h = absurd k
call-IsInStep conn w resets b subs k h = record {
  has_url = h.has_url;
  current = h.current;
  live = h.live;
  wellformed = h.wellformed;
  agree = h.agree;
}

-- A ping changes nothing at the server.
receive_ping :
    (conn w : ℕ) (on : Bool) (b : Browser) (subs : Subscriptions) (c : Text)
    → b.ws ≡ some w
    → b.ready w ≡ open_state
    → is_subscribed (receive conn w (if on then send ping_message b else []) subs) conn c
      ≡ is_subscribed subs conn c
unfolding text_eq
receive_ping conn w false b subs c e f = refl
receive_ping conn w true b subs c e f =
    rw
      (
        send_open w ping_message b e f,
        reflexive_num w,
        on_message-means conn conn c (some ping_message) subs,
      )
      refl

pings-IsInStep :
    (conn w : ℕ) (b : Browser) (subs : Subscriptions)
    → IsInStep conn w b subs
    → InStepAfter conn w subs (happen pings b)
unfolding happen
pings-IsInStep conn w b subs h = record {
  has_url = h.has_url;
  current = h.current;
  live = h.live;
  wellformed = h.wellformed;
  agree = λ c. receive_ping conn w b.ping_timer b subs c h.current h.live ∙ h.agree c;
}

means_elsewhere :
    (conn : ℕ) (e : Event) (a : Relation) (c : Text)
    → IsElsewhere conn e
    → means e a conn c ≡ a conn c
means_elsewhere conn (received v none) a c k = refl
means_elsewhere conn (received v (some msg)) a c k =
    elim (Bool-cases (text_eq msg.type (codes "subscribe"))) [
      | inl e ↦ rw (e, k) (ground arith)
      | inr e ↦ elim (Bool-cases (text_eq msg.type (codes "unsubscribe"))) [
        | inl f ↦ rw (e, f, k) (ground arith)
        | inr f ↦ rw (e, f) refl
      ]
    ]
means_elsewhere conn (closed v) a c k = rw k (ground arith)
means_elsewhere conn (errored v) a c k = rw k (ground arith)
means_elsewhere conn (broadcasted d is_live_socket) a c k = rw k (ground arith)

handle-IsInStep :
    (conn w : ℕ) (e : Event) (b : Browser) (subs : Subscriptions)
    → IsElsewhere conn e
    → IsInStep conn w b subs
    → IsInStep conn w b (handle e subs)
handle-IsInStep conn w e b subs k h = record {
  has_url = h.has_url;
  current = h.current;
  live = h.live;
  wellformed = h.wellformed;
  agree = λ c.
      ap (λ (a : Relation). a conn c) (handle-means e subs)
      ∙ means_elsewhere conn e (is_subscribed subs) c k
      ∙ h.agree c;
}

-- The client's socket is about to open, and the server has nothing for its connection.
pub record IsFresh (conn w : ℕ) (b : Browser) (subs : Subscriptions) : Type 0 where
  pub has_url : b.has_url ≡ true
  pub current : b.ws ≡ some w
  pub pending : b.ready w ≡ connecting_state
  pub wellformed : AreChannels b.subscribed_channels
  pub unknown : (c : Text) → is_subscribed subs conn c ≡ false

receive_all :
    (conn w : ℕ) (cs : List Text) (b : Browser) (subs : Subscriptions) (c : Text)
    → b.ws ≡ some w
    → b.ready w ≡ open_state
    → AreChannels cs
    → is_subscribed (receive conn w (send_subscribe cs b) subs) conn c
      ≡ (is_subscribed subs conn c || has text_eq c cs)
unfolding send_subscribe
receive_all conn w [] b subs c e f h = ground arith
receive_all conn w (d ∷ cs) b subs c e f h =
    rw (send_open w (subscribe_message (d ∷ cs)) b e f) (receive_subscribe conn w (d ∷ cs) subs c h)

on_open-IsInStep :
    (conn w : ℕ) (b : Browser) (subs : Subscriptions)
    → IsFresh conn w b subs
    → InStepAfter conn w subs (on_open (set_ready w open_state b))
unfolding on_open
on_open-IsInStep conn w b subs h =
    let live : (set_ready w open_state b).ready w ≡ open_state = rw (reflexive_num w) refl in
    record {
      has_url = h.has_url;
      current = h.current;
      live = live;
      wellformed = h.wellformed;
      agree = λ c.
          receive_all conn w b.subscribed_channels (set_ready w open_state b) subs c h.current live
            h.wellformed
          ∙ ap (λ x. x || has text_eq c b.subscribed_channels) (h.unknown c);
    }

open_when-IsInStep :
    (conn w : ℕ) (r : Ready) (b : Browser) (subs : Subscriptions)
    → r ≡ connecting_state
    → IsFresh conn w b subs
    → InStepAfter conn w subs (open_when r w b)
open_when-IsInStep conn w r b subs e h = rw e (on_open-IsInStep conn w b subs h)

opened-IsInStep :
    (conn w : ℕ) (b : Browser) (subs : Subscriptions)
    → IsFresh conn w b subs
    → InStepAfter conn w subs (happen (opened w) b)
unfolding happen
opened-IsInStep conn w b subs h = open_when-IsInStep conn w (b.ready w) b subs h.pending h

-- A connection from its opening on: calls of the page, pings, and what happens on other connections.
pub data Talks (conn w : ℕ) (b : Browser) (subs : Subscriptions)
    : Browser → Subscriptions → Type 0 where
  opens : Talks conn w b subs (happen (opened w) b).1 (receive conn w (happen (opened w) b).0 subs)
  calls :
      {b' : Browser} {subs' : Subscriptions}
      → Talks conn w b subs b' subs'
      → (a : Api) → IsKept a
      → Talks conn w b subs (call a b').1 (receive conn w (call a b').0 subs')
  ticks :
      {b' : Browser} {subs' : Subscriptions}
      → Talks conn w b subs b' subs'
      → Talks conn w b subs (happen pings b').1 (receive conn w (happen pings b').0 subs')
  others :
      {b' : Browser} {subs' : Subscriptions}
      → Talks conn w b subs b' subs'
      → (e : Event) → IsElsewhere conn e
      → Talks conn w b subs b' (handle e subs')

-- From the opening of a fresh connection on, through the page's subscriptions, unsubscriptions and
-- resets, the pings, and what the server sees of other connections, the server
-- holds for the connection exactly the channels in the client's set, as long as each frame is handled
-- when it is sent. The end or the opening of another socket of the same browser, its reconnect timer
-- and a disconnection are not among these events: the end of an older socket takes the new one away.
pub Talks-IsInStep :
    {conn w : ℕ} {b : Browser} {subs : Subscriptions} {b' : Browser} {subs' : Subscriptions}
    → Talks conn w b subs b' subs'
    → IsFresh conn w b subs
    → IsInStep conn w b' subs'
Talks-IsInStep {conn} {w} {b} {subs} opens h = opened-IsInStep conn w b subs h
Talks-IsInStep (calls t a k) h = call-IsInStep _ _ a _ _ k (Talks-IsInStep t h)
Talks-IsInStep (ticks t) h = pings-IsInStep _ _ _ _ (Talks-IsInStep t h)
Talks-IsInStep (others t e k) h = handle-IsInStep _ _ e _ _ k (Talks-IsInStep t h)
