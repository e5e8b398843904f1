-- ===== src/Settlement/Build/Tests.antt =====
-- A match whose settlement is simulated and submitted.
use kryon_v.Base.{
  ◌+◌, ◌≡◌, refl, true, false, none, some, List, [], ◌∷◌, ◌==◌, if◌then◌else◌, Text, codes, someb,
  text_eq,
}
use kryon_v.Store.{Order, Payload}
use kryon_v.Matcher.{MatchResult}
use kryon_v.Settlement.Build.{
  Sdk, AuthEntry, address_credentials, source_account, assembles, sent_as, not_found, success,
  simulate_settle_fill, submit_settle_fill_signed, decode_sig, bytes_n64_val, poll_settled,
  is_hex_digit, all_hex,
}
use kryon_v.Settlement.Build.Entries.{is_for, AsksEach, simulate_settle_fill-AsksEach}
use kryon_v.Settlement.Build.Submit.{Ends, submit_settle_fill_signed-Ends}
use kryon_v.Settlement.Build.Encoding.{SameTerms, matched_fill_to_sc_val-injective}

abbrev order_of : Text → Order
order_of owner = record {
  id = owner;
  owner = owner;
  market_id = 1;
  is_long = true;
  size = 10;
  limit_price = 100;
  reduce_only = false;
  nonce = 1;
  expiry_ts = 0;
  cancelled = false;
  filled_size = 6;
  created_at = 0;
  signature = none;
}

abbrev matched : MatchResult
matched = record {
  maker = order_of (codes "GA");
  taker = order_of (codes "GB");
  fill_size = 4;
  fill_price = 100;
}

-- The taker's entry comes first, and one of the operator.
abbrev entries : List AuthEntry
entries =
    (record { credentials = address_credentials (codes "GB") 0; invocation = codes "b" })
    ∷ (record { credentials = source_account; invocation = codes "o" })
    ∷ (record { credentials = address_credentials (codes "GA") 0; invocation = codes "a" })
    ∷ []

-- The transaction is found at the third poll.
abbrev sdk : Sdk
sdk = record {
  get_account = λ _. true;
  simulate = λ _ _. some (assembles entries (codes "tx"));
  latest_ledger = some 7;
  entry_to_xdr = λ e. e.invocation;
  from_hex = λ s. s;
  from_base64 = λ s. s;
  trim = λ s. s;
  send = some (sent_as (codes "hash"));
  poll = λ i. if i == 2 then success else not_found;
}

differ : text_eq (codes "GA") (codes "GB") ≡ false
unfolding text_eq
differ = refl

for_maker : someb (is_for (codes "GA")) entries ≡ true
unfolding text_eq
for_maker = refl

for_taker : someb (is_for (codes "GB")) entries ≡ true
unfolding text_eq
for_taker = refl

simulate_settle_fill-AsksEach_example :
    (p : Payload) × (simulate_settle_fill sdk matched (codes "s") ≡ some p)
    × AsksEach sdk matched (7 + 100) p
simulate_settle_fill-AsksEach_example =
    simulate_settle_fill-AsksEach sdk matched (codes "s") (codes "tx") entries 7 refl refl refl
      differ for_maker for_taker

-- 64 bytes that are no hex digits.
abbrev signature : Text
signature = codes "zzzzzzzzzzzzzzzzzzzzzzzzzzzzzzzzzzzzzzzzzzzzzzzzzzzzzzzzzzzzzzzz"

settles :
    submit_settle_fill_signed sdk matched (codes "s") signature signature ≡ (some (codes "hash"), 3)
unfolding submit_settle_fill_signed bytes_n64_val decode_sig poll_settled all_hex is_hex_digit
settles = refl

submit_settle_fill_signed-Ends_example :
    Ends sdk 30 (submit_settle_fill_signed sdk matched (codes "s") signature signature)
submit_settle_fill_signed-Ends_example =
    submit_settle_fill_signed-Ends sdk matched (codes "s") signature signature

matched_fill_to_sc_val-injective_example :
    (matched.fill_price ≡ matched.fill_price)
    × (matched.fill_size ≡ matched.fill_size)
    × SameTerms matched.maker matched.maker
    × SameTerms matched.taker matched.taker
matched_fill_to_sc_val-injective_example = matched_fill_to_sc_val-injective matched matched refl
