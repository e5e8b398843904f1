-- ===== src/Stream/Browser.antt =====
-- The browser's end of the stream, client/lib/market/websocket.ts: its socket, the timers and the set of
-- channels, as a state machine. A socket keeps its handlers when the variable `ws` is set anew, so the
-- ready state of each socket is kept. The jitter of a delay is left out: a timer has its delay before it.
-- A received frame goes to the handlers that the page has set and changes nothing here.
pub mod Delay
pub mod Idle
pub mod Channels
pub mod Talk
pub mod Session
use kryon_v.Base.{
  ℕ, ◌+◌, ◌*◌, Bool, true, false, min, Option, none, some, List, [], ◌∷◌, ◌==◌, if◌then◌else◌, Text,
  codes, text_eq,
}
use kryon_v.Stream.{Message, order_book_channel, trades_channel}
use kryon_v.Stream.Sets.{adjoin, without}

pub data Ready : Type 0 where
  connecting_state open_state closing_state closed_state : Ready

pub record Frame : Type 0 where
  pub socket : ℕ
  pub message : Message

pub record Browser : Type 0 where
  pub has_url : Bool
  pub ws : Option ℕ
  pub ready : ℕ → Ready
  pub next_socket : ℕ
  pub reconnect_timer : Option ℕ
  pub reconnect_delay : ℕ
  pub is_destroyed : Bool
  pub ping_timer : Bool
  pub subscribed_channels : List Text
  pub status : Option Bool

abbrev pub max_reconnect_delay : ℕ
max_reconnect_delay = 30000

abbrev pub set_ready : ℕ → Ready → Browser → Browser
set_ready w r s = record s { ready = λ k. if k == w then r else s.ready k }

abbrev pub is_open : Ready → Bool
is_open open_state = true
is_open connecting_state = false
is_open closing_state = false
is_open closed_state = false

abbrev pub send_on : Option ℕ → Message → Browser → List Frame
send_on none msg s = []
send_on (some w) msg s =
    if is_open (s.ready w) then (record { socket = w; message = msg }) ∷ [] else []

unfoldable pub send : Message → Browser → List Frame
send msg s = send_on s.ws msg s

abbrev pub subscribe_message : List Text → Message
subscribe_message cs = record { type = codes "subscribe"; channels = some cs }

abbrev pub unsubscribe_message : List Text → Message
unsubscribe_message cs = record { type = codes "unsubscribe"; channels = some cs }

abbrev pub ping_message : Message
ping_message = record { type = codes "ping"; channels = none }

unfoldable pub send_subscribe : List Text → Browser → List Frame
send_subscribe [] s = []
send_subscribe (c ∷ cs) s = send (subscribe_message (c ∷ cs)) s

unfoldable pub schedule_reconnect : Browser → Browser
schedule_reconnect s = if s.is_destroyed then s else record s {
  reconnect_timer = some s.reconnect_delay;
  reconnect_delay = min (s.reconnect_delay * 2) max_reconnect_delay;
}

-- `throws` is whether the constructor of the socket does.
unfoldable pub connect : Bool → Browser → Browser
connect throws s =
    if s.is_destroyed
    then s
    else if s.has_url
    then if throws
      then schedule_reconnect s
      else set_ready s.next_socket connecting_state
          (record s { ws = some s.next_socket; next_socket = s.next_socket + 1 })
    else s

unfoldable pub on_open : Browser → List Frame × Browser
on_open s = (
  send_subscribe s.subscribed_channels s,
  record s { reconnect_delay = 1000; status = some true; ping_timer = true },
)

unfoldable pub on_close : Browser → Browser
on_close s = schedule_reconnect (record s { ws = none; ping_timer = false; status = some false })

abbrev pub channels_of_market : ℕ → List Text
channels_of_market market_id = order_book_channel market_id ∷ trades_channel market_id ∷ []

abbrev pub add_channels : List Text → List Text → List Text
add_channels [] set = set
add_channels (c ∷ cs) set = add_channels cs (adjoin text_eq c set)

abbrev pub delete_channels : List Text → List Text → List Text
delete_channels [] set = set
delete_channels (c ∷ cs) set = delete_channels cs (without text_eq c set)

-- `ws?.readyState === WebSocket.OPEN`
abbrev pub is_connected_to : Option ℕ → Browser → Bool
is_connected_to none s = false
is_connected_to (some w) s = is_open (s.ready w)

unfoldable pub ws_is_connected : Browser → Bool
ws_is_connected s = is_connected_to s.ws s

abbrev pub revive : Option ℕ → Bool → Browser → Browser
revive none throws s = connect throws (record s { is_destroyed = false })
revive (some w) throws s = s

unfoldable pub ws_subscribe : ℕ → Bool → Browser → List Frame × Browser
ws_subscribe market_id throws s =
    let cs = channels_of_market market_id in
    let added : Browser = record s {
      subscribed_channels = add_channels cs s.subscribed_channels;
    } in
    if s.has_url
    then if ws_is_connected added
      then (send_subscribe cs added, added)
      else ([], revive s.ws throws added)
    else ([], s)

unfoldable pub ws_unsubscribe : ℕ → Browser → List Frame × Browser
ws_unsubscribe market_id s =
    let cs = channels_of_market market_id in
    let deleted : Browser = record s {
      subscribed_channels = delete_channels cs s.subscribed_channels;
    } in
    (send (unsubscribe_message cs) deleted, deleted)

-- `ws.close()`, which ends a connection that is not ended yet.
abbrev pub closed_by_call : Ready → Ready
closed_by_call connecting_state = closing_state
closed_by_call open_state = closing_state
closed_by_call closing_state = closing_state
closed_by_call closed_state = closed_state

abbrev pub close_socket : Option ℕ → Browser → Browser
close_socket none s = s
close_socket (some w) s = set_ready w (closed_by_call (s.ready w)) s

unfoldable pub ws_disconnect : Browser → Browser
ws_disconnect s =
    let done : Browser =
      close_socket s.ws
        (record s { is_destroyed = true; ping_timer = false; reconnect_timer = none }) in
    record done { ws = none }

unfoldable pub ws_reset : Browser → Browser
ws_reset s = record s { is_destroyed = false; reconnect_delay = 1000 }

-- What the network and the timers do. Where one cannot happen, it changes nothing.
pub data Happening : Type 0 where
  opened : ℕ → Happening
  ended : ℕ → Happening
  reconnects : Bool → Happening
  pings : Happening

-- What the page calls.
pub data Api : Type 0 where
  subscribes : ℕ → Bool → Api
  unsubscribes : ℕ → Api
  disconnects : Api
  resets : Api

abbrev pub open_when : Ready → ℕ → Browser → List Frame × Browser
open_when connecting_state w s = on_open (set_ready w open_state s)
open_when open_state w s = ([], s)
open_when closing_state w s = ([], s)
open_when closed_state w s = ([], s)

abbrev pub close_when : Ready → ℕ → Browser → Browser
close_when closed_state w s = s
close_when connecting_state w s = on_close (set_ready w closed_state s)
close_when open_state w s = on_close (set_ready w closed_state s)
close_when closing_state w s = on_close (set_ready w closed_state s)

abbrev pub fire : Option ℕ → Bool → Browser → Browser
fire none throws s = s
fire (some delay) throws s = connect throws (record s { reconnect_timer = none })

unfoldable pub happen : Happening → Browser → List Frame × Browser
happen (opened w) s = open_when (s.ready w) w s
happen (ended w) s = ([], close_when (s.ready w) w s)
happen (reconnects throws) s = ([], fire s.reconnect_timer throws s)
happen pings s = (if s.ping_timer then send ping_message s else [], s)

unfoldable pub call : Api → Browser → List Frame × Browser
call (subscribes market_id throws) s = ws_subscribe market_id throws s
call (unsubscribes market_id) s = ws_unsubscribe market_id s
call disconnects s = ([], ws_disconnect s)
call resets s = ([], ws_reset s)
