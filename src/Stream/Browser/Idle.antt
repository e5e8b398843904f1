-- ===== src/Stream/Browser/Idle.antt =====
-- A client that has disconnected, client/lib/market/websocket.ts.
use kryon_v.Base.{
  ℕ, ◌≡◌, refl, ◌∙◌, Bool, true, false, Option, none, some, List, [], ◌∷◌, ◌++◌, if◌then◌else◌,
  Option-cases, inl, inr, Text, arith,
}
use kryon_v.Stream.{Message}
use kryon_v.Stream.Browser.{
  Ready, connecting_state, open_state, closing_state, closed_state, Frame, Browser, ping_message,
  set_ready, send, send_subscribe, schedule_reconnect, on_open, on_close, close_socket,
  ws_disconnect, Happening, opened, ended, reconnects, pings, open_when, close_when, fire, happen,
}

-- A client that has disconnected: no socket, and no timer to connect again.
abbrev pub IsIdle : Browser → Type 0
IsIdle s = (s.ws ≡ none) × (s.is_destroyed ≡ true) × (s.reconnect_timer ≡ none)

ws_disconnect-IsIdle : (s : Browser) → IsIdle (ws_disconnect s)
unfolding ws_disconnect
ws_disconnect-IsIdle s = elim (Option-cases s.ws) [
  | inl e ↦ rw e (refl, refl, refl)
  | inr (w, e) ↦ rw e (refl, refl, refl)
]

send_idle : (msg : Message) (s : Browser) → s.ws ≡ none → send msg s ≡ []
unfolding send
send_idle msg s e = rw e refl

send_subscribe_idle : (cs : List Text) (s : Browser) → s.ws ≡ none → send_subscribe cs s ≡ []
unfolding send_subscribe
send_subscribe_idle [] s e = refl
send_subscribe_idle (c ∷ cs) s e = send_idle _ s e

if_idle : (b : Bool) (x : List Frame) → x ≡ [] → (if b then x else []) ≡ []
if_idle true x e = e
if_idle false x e = refl

-- A step that sends nothing and creates no socket.
abbrev pub StaysIdle : Browser → List Frame × Browser → Type 0
StaysIdle s r = (r.0 ≡ []) × IsIdle r.1 × (r.1.next_socket ≡ s.next_socket)

on_close-IsIdle :
    (w : ℕ) (s : Browser) → IsIdle s → StaysIdle s ([], on_close (set_ready w closed_state s))
unfolding on_close schedule_reconnect
on_close-IsIdle w s (e, d, f) = rw (d, f) (refl, (refl, refl, refl), refl)

on_open-IsIdle : (w : ℕ) (s : Browser) → IsIdle s → StaysIdle s (on_open (set_ready w open_state s))
unfolding on_open
on_open-IsIdle w s (e, d, f) =
    (send_subscribe_idle s.subscribed_channels (set_ready w open_state s) e, (e, d, f), refl)

open_when-IsIdle : (r : Ready) (w : ℕ) (s : Browser) → IsIdle s → StaysIdle s (open_when r w s)
open_when-IsIdle connecting_state w s h = on_open-IsIdle w s h
open_when-IsIdle open_state w s h = (refl, h, refl)
open_when-IsIdle closing_state w s h = (refl, h, refl)
open_when-IsIdle closed_state w s h = (refl, h, refl)

close_when-IsIdle :
    (r : Ready) (w : ℕ) (s : Browser) → IsIdle s → StaysIdle s ([], close_when r w s)
close_when-IsIdle connecting_state w s h = on_close-IsIdle w s h
close_when-IsIdle open_state w s h = on_close-IsIdle w s h
close_when-IsIdle closing_state w s h = on_close-IsIdle w s h
close_when-IsIdle closed_state w s h = (refl, h, refl)

fire-IsIdle :
    (timer : Option ℕ) (throws : Bool) (s : Browser)
    → timer ≡ none
    → IsIdle s
    → StaysIdle s ([], fire timer throws s)
fire-IsIdle none throws s f h = (refl, h, refl)
fire-IsIdle (some d) throws s f h = ground arith

happen-IsIdle : (e : Happening) (s : Browser) → IsIdle s → StaysIdle s (happen e s)
unfolding happen
happen-IsIdle (opened w) s h = open_when-IsIdle (s.ready w) w s h
happen-IsIdle (ended w) s h = close_when-IsIdle (s.ready w) w s h
happen-IsIdle (reconnects throws) s h = fire-IsIdle s.reconnect_timer throws s h.2 h
happen-IsIdle pings s h = (if_idle s.ping_timer _ (send_idle ping_message s h.0), h, refl)

-- What happens while the page calls nothing.
unfoldable pub happens : List Happening → Browser → List Frame × Browser
happens [] s = ([], s)
happens (e ∷ es) s =
    let step = happen e s in let rest = happens es step.1 in (step.0 ++ rest.0, rest.1)

happens-IsIdle : (es : List Happening) (s : Browser) → IsIdle s → StaysIdle s (happens es s)
unfolding happens
happens-IsIdle [] s h = (refl, h, refl)
happens-IsIdle (e ∷ es) s h =
    let (no_frame, idle, same) = happen-IsIdle e s h in
    let (none_after, still, after) = happens-IsIdle es (happen e s).1 idle in
    (rw (no_frame, none_after) refl, still, after ∙ same)

next_socket-close_socket :
    (ws : Option ℕ) (s : Browser) → (close_socket ws s).next_socket ≡ s.next_socket
next_socket-close_socket none s = refl
next_socket-close_socket (some w) s = refl

-- After `wsDisconnect`, whatever its sockets and timers do, and until the page calls again, the client
-- sends no frame, opens no socket, and keeps no socket and no timer to connect again.
pub ws_disconnect-StaysIdle :
    (es : List Happening) (s : Browser) → StaysIdle s (happens es (ws_disconnect s))
unfolding ws_disconnect
ws_disconnect-StaysIdle es s =
    let (no_frame, idle, same) = happens-IsIdle es (ws_disconnect s) (ws_disconnect-IsIdle s) in
    (no_frame, idle, same ∙ next_socket-close_socket s.ws _)
