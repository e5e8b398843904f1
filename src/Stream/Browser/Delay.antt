-- ===== src/Stream/Browser/Delay.antt =====
-- The delays between connections, client/lib/market/websocket.ts.
use kryon_v.Base.{ℕ, ◌≤◌, ◌≡◌, Bool, true, false, Option, none, some, List, if◌then◌else◌, arith}
use kryon_v.Stream.Browser.{
  Ready, connecting_state, open_state, closing_state, closed_state, Frame, Browser, set_ready,
  schedule_reconnect, connect, on_open, on_close, ws_is_connected, revive, ws_subscribe,
  ws_unsubscribe, close_socket, ws_disconnect, ws_reset, Happening, opened, ended, reconnects,
  pings, channels_of_market, add_channels, Api, subscribes, unsubscribes, disconnects, resets,
  open_when, close_when, fire, happen, call,
}

abbrev pub IsDelay : ℕ → Type 0
IsDelay d = (1000 ≤ d) × (d ≤ 30000)

-- The delay is between one second and thirty, and so is that of a timer that runs; none runs once the
-- client has disconnected.
pub record IsPaced (s : Browser) : Type 0 where
  pub delay : IsDelay s.reconnect_delay
  pub timer : (d : ℕ) → s.reconnect_timer ≡ some d → IsDelay d
  pub quiet : s.is_destroyed ≡ true → s.reconnect_timer ≡ none

schedule_reconnect-IsPaced : (s : Browser) → IsPaced s → IsPaced (schedule_reconnect s)
unfolding schedule_reconnect
schedule_reconnect-IsPaced s h = ground arith

connect-IsPaced : (throws : Bool) (s : Browser) → IsPaced s → IsPaced (connect throws s)
unfolding connect
connect-IsPaced throws s h = ground (arith, schedule_reconnect-IsPaced s h)

on_open-IsPaced : (s : Browser) → IsPaced s → IsPaced (on_open s).1
unfolding on_open
on_open-IsPaced s h = ground arith

on_close-IsPaced : (s : Browser) → IsPaced s → IsPaced (on_close s)
unfolding on_close
on_close-IsPaced s h = schedule_reconnect-IsPaced _ (ground arith)

set_ready-IsPaced : (w : ℕ) (r : Ready) (s : Browser) → IsPaced s → IsPaced (set_ready w r s)
set_ready-IsPaced w r s h = ground arith

open_when-IsPaced : (r : Ready) (w : ℕ) (s : Browser) → IsPaced s → IsPaced (open_when r w s).1
open_when-IsPaced connecting_state w s h = on_open-IsPaced _ (set_ready-IsPaced w open_state s h)
open_when-IsPaced open_state w s h = h
open_when-IsPaced closing_state w s h = h
open_when-IsPaced closed_state w s h = h

close_when-IsPaced : (r : Ready) (w : ℕ) (s : Browser) → IsPaced s → IsPaced (close_when r w s)
close_when-IsPaced connecting_state w s h = on_close-IsPaced _ (set_ready-IsPaced w _ s h)
close_when-IsPaced open_state w s h = on_close-IsPaced _ (set_ready-IsPaced w _ s h)
close_when-IsPaced closing_state w s h = on_close-IsPaced _ (set_ready-IsPaced w _ s h)
close_when-IsPaced closed_state w s h = h

fire-IsPaced :
    (timer : Option ℕ) (throws : Bool) (s : Browser) → IsPaced s → IsPaced (fire timer throws s)
fire-IsPaced none throws s h = h
fire-IsPaced (some d) throws s h = connect-IsPaced throws _ (ground arith)

happen-IsPaced : (e : Happening) (s : Browser) → IsPaced s → IsPaced (happen e s).1
unfolding happen
happen-IsPaced (opened w) s h = open_when-IsPaced (s.ready w) w s h
happen-IsPaced (ended w) s h = close_when-IsPaced (s.ready w) w s h
happen-IsPaced (reconnects throws) s h = fire-IsPaced s.reconnect_timer throws s h
happen-IsPaced pings s h = h

revive-IsPaced :
    (ws : Option ℕ) (throws : Bool) (s : Browser) → IsPaced s → IsPaced (revive ws throws s)
revive-IsPaced none throws s h = connect-IsPaced throws _ (ground arith)
revive-IsPaced (some w) throws s h = h

if-IsPaced :
    (b : Bool) (x y : List Frame × Browser)
    → IsPaced x.1
    → IsPaced y.1
    → IsPaced (if b then x else y).1
if-IsPaced true x y hx hy = hx
if-IsPaced false x y hx hy = hy

ws_subscribe-IsPaced :
    (market_id : ℕ) (throws : Bool) (s : Browser)
    → IsPaced s
    → IsPaced (ws_subscribe market_id throws s).1
unfolding ws_subscribe
ws_subscribe-IsPaced market_id throws s h =
    let added : Browser = record s {
      subscribed_channels = add_channels (channels_of_market market_id) s.subscribed_channels;
    } in
    let kept : IsPaced added = ground arith in
    if-IsPaced s.has_url _ _
      (if-IsPaced (ws_is_connected added) _ _ kept (revive-IsPaced s.ws throws added kept)) h

close_socket-IsPaced : (ws : Option ℕ) (s : Browser) → IsPaced s → IsPaced (close_socket ws s)
close_socket-IsPaced none s h = h
close_socket-IsPaced (some w) s h = set_ready-IsPaced w _ s h

call-IsPaced : (a : Api) (s : Browser) → IsPaced s → IsPaced (call a s).1
unfolding call ws_unsubscribe ws_disconnect ws_reset
call-IsPaced (subscribes market_id throws) s h = ws_subscribe-IsPaced market_id throws s h
call-IsPaced (unsubscribes market_id) s h = ground arith
call-IsPaced disconnects s h =
    let stopped : Browser = record s {
      is_destroyed = true;
      ping_timer = false;
      reconnect_timer = none;
    } in
    let paced : IsPaced stopped = ground arith in
    let done = close_socket-IsPaced s.ws stopped paced in
    record { delay = done.delay; timer = done.timer; quiet = done.quiet }
call-IsPaced resets s h = ground arith

-- The page's calls and what happens between them, in any order.
pub data Steps (s : Browser) : Browser → Type 0 where
  start : Steps s s
  called : {t : Browser} → Steps s t → (a : Api) → Steps s (call a t).1
  happened : {t : Browser} → Steps s t → (e : Happening) → Steps s (happen e t).1

-- In every state that the client reaches from a paced one, the delay before the next connection and that
-- of a running timer are between 1000 and 30000 milliseconds, and after a disconnection no timer to
-- connect again is running.
pub Steps-IsPaced : {s t : Browser} → Steps s t → IsPaced s → IsPaced t
Steps-IsPaced start h = h
Steps-IsPaced (called r a) h = call-IsPaced a _ (Steps-IsPaced r h)
Steps-IsPaced (happened r e) h = happen-IsPaced e _ (Steps-IsPaced r h)
