-- ===== src/Stream.antt =====
-- Live market data: the server, client/scripts/ws-server.ts, and the browser's end,
-- client/lib/market/websocket.ts. A connection of the server is a number.
pub mod Sets
pub mod Rooms
pub mod Refines
pub mod Distinct
pub mod Feed
pub mod Browser
mod Tests
use kryon_v.Base.{
  ℕ, Bool, true, false, not, ◌&&◌, ◌||◌, Option, none, some, List, [], ◌∷◌, ◌++◌, map, ◌==◌,
  if◌then◌else◌, filterb, Text, codes, text_eq,
}
use kryon_v.Signing.Decimal.{is_digit, to_string}
use kryon_v.Stream.Sets.{has, adjoin, without}

abbrev pub order_book_channel : ℕ → Text
order_book_channel market_id = codes "orderbook:" ++ to_string market_id

abbrev pub trades_channel : ℕ → Text
trades_channel market_id = codes "trades:" ++ to_string market_id

-- The map from a channel to its sockets, in the order of insertion.
pub record Room : Type 0 where
  pub channel : Text
  pub sockets : List ℕ

abbrev pub Subscriptions : Type 0
Subscriptions = List Room

abbrev pub has_channel : Text → Subscriptions → Bool
has_channel c [] = false
has_channel c (r ∷ rs) = text_eq c r.channel || has_channel c rs

-- The sockets of a channel, none where the map has no such key.
abbrev pub members : Text → Subscriptions → List ℕ
members c [] = []
members c (r ∷ rs) = let rest = members c rs in if text_eq c r.channel then r.sockets else rest

abbrev pub is_subscribed : Subscriptions → ℕ → Text → Bool
is_subscribed subs ws c = has ◌==◌ ws (members c subs)

-- A change of the set under a key.
abbrev pub update : Text → (List ℕ → List ℕ) → Subscriptions → Subscriptions
update c f [] = []
update c f (r ∷ rs) =
    let rest = r ∷ update c f rs in
    if text_eq c r.channel then (record r { sockets = f r.sockets }) ∷ rs else rest

abbrev pub ensure : Text → Subscriptions → Subscriptions
ensure c subs =
    if has_channel c subs then subs else subs ++ (record { channel = c; sockets = [] }) ∷ []

unfoldable pub subscribe : ℕ → Text → Subscriptions → Subscriptions
subscribe ws c subs = update c (adjoin ◌==◌ ws) (ensure c subs)

unfoldable pub unsubscribe : ℕ → Text → Subscriptions → Subscriptions
unsubscribe ws c subs = update c (without ◌==◌ ws) subs

unfoldable pub unsubscribe_all : ℕ → Subscriptions → Subscriptions
unsubscribe_all ws subs =
    map {A = Room} (λ r. record r { sockets = without ◌==◌ ws r.sockets }) subs

-- The sockets that a payload is sent to, and the map without those that are not open.
unfoldable pub broadcast : Text → (ℕ → Bool) → Subscriptions → List ℕ × Subscriptions
broadcast c is_open subs = (filterb is_open (members c subs), update c (filterb is_open) subs)

-- `/^(orderbook|trades):\d+$/`
abbrev pub after_prefix : Text → Text → Option Text
after_prefix [] t = some t
after_prefix (a ∷ s) [] = none
after_prefix (a ∷ s) (b ∷ t) = let rest = after_prefix s t in if a == b then rest else none

abbrev pub digits : Text → Bool
digits [] = true
digits (c ∷ s) = is_digit c && digits s

abbrev pub is_number : Option Text → Bool
is_number none = false
is_number (some []) = false
is_number (some (c ∷ s)) = digits (c ∷ s)

unfoldable pub is_channel : Text → Bool
is_channel t =
    is_number (after_prefix (codes "orderbook:") t) || is_number (after_prefix (codes "trades:") t)

-- A client's message with its `channels` where they are an array of strings; `none` where the text does
-- not parse to an object.
pub record Message : Type 0 where
  pub type : Text
  pub channels : Option (List Text)

pub data Reply : Type 0 where
  pong : Reply
  subscribed : List Text → Reply

abbrev pub each : (Text → Subscriptions → Subscriptions) → List Text → Subscriptions → Subscriptions
each f [] subs = subs
each f (c ∷ cs) subs = each f cs (f c subs)

abbrev pub on_subscribe : ℕ → Option (List Text) → Subscriptions → Option Reply × Subscriptions
on_subscribe ws none subs = (none, subs)
on_subscribe ws (some cs) subs =
    (some (subscribed (filterb is_channel cs)), each (subscribe ws) (filterb is_channel cs) subs)

abbrev pub on_unsubscribe : ℕ → Option (List Text) → Subscriptions → Option Reply × Subscriptions
on_unsubscribe ws none subs = (none, subs)
on_unsubscribe ws (some cs) subs = (none, each (unsubscribe ws) cs subs)

unfoldable pub on_message : ℕ → Option Message → Subscriptions → Option Reply × Subscriptions
on_message ws none subs = (none, subs)
on_message ws (some msg) subs =
    if text_eq msg.type (codes "ping")
    then (some pong, subs)
    else if text_eq msg.type (codes "subscribe")
    then on_subscribe ws msg.channels subs
    else if text_eq msg.type (codes "unsubscribe")
    then on_unsubscribe ws msg.channels subs
    else (none, subs)

-- What happens to the map: a message, the end or an error of a connection, a broadcast while the given
-- sockets are open.
pub data Event : Type 0 where
  received : ℕ → Option Message → Event
  closed : ℕ → Event
  errored : ℕ → Event
  broadcasted : Text → (ℕ → Bool) → Event

unfoldable pub handle : Event → Subscriptions → Subscriptions
handle (received ws msg) subs = (on_message ws msg subs).1
handle (closed ws) subs = unsubscribe_all ws subs
handle (errored ws) subs = unsubscribe_all ws subs
handle (broadcasted c is_open) subs = (broadcast c is_open subs).1

unfoldable pub handle_all : List Event → Subscriptions → Subscriptions
handle_all [] subs = subs
handle_all (e ∷ es) subs = handle_all es (handle e subs)
