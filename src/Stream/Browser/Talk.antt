-- ===== src/Stream/Browser/Talk.antt =====
-- A browser and the server on one open connection: client/lib/market/websocket.ts with the handlers of
-- client/scripts/ws-server.ts, each frame handled when it is sent.
use kryon_v.Base.{
  ℕ, ◌≡◌, refl, sym, ap, ◌∙◌, Bool, true, not, ◌&&◌, ◌||◌, some, List, [], ◌∷◌, ◌==◌, ==_iff,
  if◌then◌else◌, Text, text_eq,
}
use kryon_v.Stream.{Subscriptions, is_subscribed, Message, on_message}
use kryon_v.Stream.Sets.{has}
use kryon_v.Stream.Browser.Channels.{
  AreChannels, has-add_channels, has-delete_channels, add_channels-AreChannels,
  delete_channels-AreChannels, channels_of_market-AreChannels, filterb_channels,
}
use kryon_v.Stream.Refines.{on_message-means}
use kryon_v.Stream.Browser.{
  open_state, Frame, Browser, send, send_subscribe, subscribe_message, unsubscribe_message,
  channels_of_market, add_channels, delete_channels, ws_is_connected, ws_subscribe, ws_unsubscribe,
}

-- The frames sent on socket `w`, as the server handles them on its connection `conn`.
abbrev pub receive : ℕ → ℕ → List Frame → Subscriptions → Subscriptions
receive conn w [] subs = subs
receive conn w (f ∷ fs) subs =
    receive conn w fs (if f.socket == w then (on_message conn (some f.message) subs).1 else subs)

-- The client is connected by `w`, and the server holds exactly its channels for the connection.
pub record IsInStep (conn w : ℕ) (b : Browser) (subs : Subscriptions) : Type 0 where
  pub has_url : b.has_url ≡ true
  pub current : b.ws ≡ some w
  pub live : b.ready w ≡ open_state
  pub wellformed : AreChannels b.subscribed_channels
  pub agree : (c : Text) → is_subscribed subs conn c ≡ has text_eq c b.subscribed_channels

pub send_open :
    (w : ℕ) (msg : Message) (b : Browser)
    → b.ws ≡ some w
    → b.ready w ≡ open_state
    → send msg b ≡ (record { socket = w; message = msg }) ∷ []
unfolding send
send_open w msg b e f = rw (e, f) refl

pub reflexive_num : (n : ℕ) → (n == n) ≡ true
reflexive_num n = (==_iff n n).1 refl

pub receive_subscribe :
    (conn w : ℕ) (cs : List Text) (subs : Subscriptions) (c : Text)
    → AreChannels cs
    → is_subscribed
        (receive conn w ((record { socket = w; message = subscribe_message cs }) ∷ []) subs)
        conn
        c
      ≡ (is_subscribed subs conn c || has text_eq c cs)
unfolding text_eq
receive_subscribe conn w cs subs c h =
    rw
      (
        reflexive_num w,
        on_message-means conn conn c (some (subscribe_message cs)) subs,
        filterb_channels cs h,
        reflexive_num conn,
      )
      refl

receive_unsubscribe :
    (conn w : ℕ) (cs : List Text) (subs : Subscriptions) (c : Text)
    → is_subscribed
        (receive conn w ((record { socket = w; message = unsubscribe_message cs }) ∷ []) subs)
        conn
        c
      ≡ (is_subscribed subs conn c && not (has text_eq c cs))
unfolding text_eq
receive_unsubscribe conn w cs subs c =
    rw
      (
        reflexive_num w,
        on_message-means conn conn c (some (unsubscribe_message cs)) subs,
        reflexive_num conn,
      )
      refl

if_true {ℓ} : {A : Type ℓ} (b : Bool) (x y : A) → b ≡ true → (if b then x else y) ≡ x
if_true b x y h = rw h refl

-- What the two calls come to on the open socket.
ws_subscribe_open :
    (w market_id : ℕ) (throws : Bool) (b : Browser)
    → b.has_url ≡ true
    → b.ws ≡ some w
    → b.ready w ≡ open_state
    → ws_subscribe market_id throws b ≡ (
      (record { socket = w; message = subscribe_message (channels_of_market market_id) }) ∷ [],
      record b {
        subscribed_channels = add_channels (channels_of_market market_id) b.subscribed_channels;
      },
    )
unfolding ws_subscribe ws_is_connected send_subscribe
ws_subscribe_open w market_id throws b u e f =
    let added : Browser = record b {
      subscribed_channels = add_channels (channels_of_market market_id) b.subscribed_channels;
    } in
    let connected : ws_is_connected added ≡ true = rw (e, f) refl in
    if_true b.has_url _ _ u
    ∙ if_true (ws_is_connected added) _ _ connected
    ∙ ap (λ (frames : List Frame). (frames, added)) (send_open w _ added e f)

ws_unsubscribe_open :
    (w market_id : ℕ) (b : Browser)
    → b.ws ≡ some w
    → b.ready w ≡ open_state
    → ws_unsubscribe market_id b ≡ (
      (record { socket = w; message = unsubscribe_message (channels_of_market market_id) }) ∷ [],
      record b {
        subscribed_channels = delete_channels (channels_of_market market_id) b.subscribed_channels;
      },
    )
unfolding ws_unsubscribe
ws_unsubscribe_open w market_id b e f =
    let deleted : Browser = record b {
      subscribed_channels = delete_channels (channels_of_market market_id) b.subscribed_channels;
    } in
    ap (λ (frames : List Frame). (frames, deleted)) (send_open w _ deleted e f)

-- After a step of the client, its frames received.
abbrev pub InStepAfter : ℕ → ℕ → Subscriptions → List Frame × Browser → Type 0
InStepAfter conn w subs r = IsInStep conn w r.1 (receive conn w r.0 subs)

pub ws_subscribe-IsInStep :
    (conn w market_id : ℕ) (throws : Bool) (b : Browser) (subs : Subscriptions)
    → IsInStep conn w b subs
    → InStepAfter conn w subs (ws_subscribe market_id throws b)
ws_subscribe-IsInStep conn w market_id throws b subs h =
    let cs = channels_of_market market_id in
    let valid = channels_of_market-AreChannels market_id in
    rw (ws_subscribe_open w market_id throws b h.has_url h.current h.live) (record {
      has_url = h.has_url;
      current = h.current;
      live = h.live;
      wellformed = add_channels-AreChannels cs b.subscribed_channels valid h.wellformed;
      agree = λ c.
          receive_subscribe conn w cs subs c valid
          ∙ ap (λ x. x || has text_eq c cs) (h.agree c)
          ∙ sym (has-add_channels c cs b.subscribed_channels);
    })

pub ws_unsubscribe-IsInStep :
    (conn w market_id : ℕ) (b : Browser) (subs : Subscriptions)
    → IsInStep conn w b subs
    → InStepAfter conn w subs (ws_unsubscribe market_id b)
ws_unsubscribe-IsInStep conn w market_id b subs h =
    let cs = channels_of_market market_id in
    rw (ws_unsubscribe_open w market_id b h.current h.live) (record {
      has_url = h.has_url;
      current = h.current;
      live = h.live;
      wellformed = delete_channels-AreChannels cs b.subscribed_channels h.wellformed;
      agree = λ c.
          receive_unsubscribe conn w cs subs c
          ∙ ap (λ x. x && not (has text_eq c cs)) (h.agree c)
          ∙ sym (has-delete_channels c cs b.subscribed_channels);
    })
