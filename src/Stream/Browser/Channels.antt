-- ===== src/Stream/Browser/Channels.antt =====
-- The channels that the browser keeps (client/lib/market/websocket.ts), by the test of
-- client/scripts/ws-server.ts.
use kryon_v.Base.{
  ℕ, ◌≡◌, refl, ap, true, not, ◌&&◌, ◌||◌, some, List, [], ◌∷◌, filterb, All, All-append,
  All-filterb, Text, text_eq, text_eq_iff, text_eq_refl, text_eq_sym, Bool-cases, inl, inr, arith,
}
use kryon_v.Signing.Decimal.{
  is_digit, to_string, parse_digits, to_string-digits, parse_digits-to_string,
}
use kryon_v.Stream.{is_channel, is_number, digits, order_book_channel, trades_channel}
use kryon_v.Stream.Sets.{has, adjoin, without, has-adjoin, has-without}
use kryon_v.Stream.Browser.{channels_of_market, add_channels, delete_channels}

pub text_lawful : (s t : Text) → text_eq s t ≡ true → s ≡ t
text_lawful s t h = (text_eq_iff s t).0 h

pub has-add_channels :
    (c : Text) (cs set : List Text)
    → has text_eq c (add_channels cs set) ≡ (has text_eq c set || has text_eq c cs)
has-add_channels c [] set = ground arith
has-add_channels c (d ∷ cs) set = ground (
  arith,
  has-add_channels c cs (adjoin text_eq d set),
  has-adjoin text_eq text_lawful text_eq_refl d c set,
)

pub has-delete_channels :
    (c : Text) (cs set : List Text)
    → has text_eq c (delete_channels cs set) ≡ (has text_eq c set && not (has text_eq c cs))
has-delete_channels c [] set = ground arith
has-delete_channels c (d ∷ cs) set = ground (
  arith,
  has-delete_channels c cs (without text_eq d set),
  has-without text_eq text_lawful text_eq_refl d c set,
  text_eq_sym c d,
)

-- The client's channels are those that the server accepts.
digits-All : (t : Text) → All (λ c. is_digit c ≡ true) t → digits t ≡ true
digits-All [] h = refl
digits-All (c ∷ t) (h, hs) = rw h (digits-All t hs)

is_number_digits :
    (t : Text) (n : ℕ)
    → parse_digits t ≡ some n
    → All (λ c. is_digit c ≡ true) t
    → is_number (some t) ≡ true
unfolding parse_digits
is_number_digits [] n p h = ground arith
is_number_digits (c ∷ t) n p h = digits-All (c ∷ t) h

is_number-to_string : (n : ℕ) → is_number (some (to_string n)) ≡ true
is_number-to_string n =
    is_number_digits (to_string n) n (parse_digits-to_string n) (to_string-digits n)

pub is_channel-order_book : (n : ℕ) → is_channel (order_book_channel n) ≡ true
unfolding is_channel
is_channel-order_book n = rw (is_number-to_string n) refl

pub is_channel-trades : (n : ℕ) → is_channel (trades_channel n) ≡ true
unfolding is_channel
is_channel-trades n = rw (is_number-to_string n) refl

abbrev pub AreChannels : List Text → Type 0
AreChannels = All (λ c. is_channel c ≡ true)

pub add_channels-AreChannels :
    (cs set : List Text) → AreChannels cs → AreChannels set → AreChannels (add_channels cs set)
unfolding adjoin
add_channels-AreChannels [] set h hs = hs
add_channels-AreChannels (c ∷ cs) set (h, hs) k =
    add_channels-AreChannels cs (adjoin text_eq c set) hs (elim (Bool-cases (has text_eq c set)) [
      | inl e ↦ rw e k
      | inr e ↦ rw e (All-append (λ d. is_channel d ≡ true) set (c ∷ []) k (h, tt))
    ])

pub delete_channels-AreChannels :
    (cs set : List Text) → AreChannels set → AreChannels (delete_channels cs set)
unfolding without
delete_channels-AreChannels [] set h = h
delete_channels-AreChannels (c ∷ cs) set h =
    delete_channels-AreChannels cs (without text_eq c set)
      (All-filterb (λ d. is_channel d ≡ true) _ set h)

pub channels_of_market-AreChannels : (n : ℕ) → AreChannels (channels_of_market n)
channels_of_market-AreChannels n = (is_channel-order_book n, (is_channel-trades n, tt))

-- The server accepts all of them.
pub filterb_channels : (cs : List Text) → AreChannels cs → filterb is_channel cs ≡ cs
filterb_channels [] h = refl
filterb_channels (c ∷ cs) (h, hs) = rw h (ap (λ ds. c ∷ ds) (filterb_channels cs hs))
