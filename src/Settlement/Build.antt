-- ===== src/Settlement/Build.antt =====
-- client/lib/stellar/settlement.ts: the arguments of the contract's calls, `simulateSettleFill` with
-- its search for the parties' entries, and `submitSettleFillSigned`. The SDK's calls are the record
-- `Sdk`; numbers fit the types that the SDK encodes them with.
pub mod Entries
pub mod Encoding
pub mod Submit
mod Tests
use kryon_v.Base.{
  ℕ, zero, suc, ◌+◌, ◌-◌, Bool, true, false, ◌&&◌, ◌||◌, Option, none, some, List, [], ◌∷◌, ◌==◌,
  ltb, leb, if◌then◌else◌, map, length, Text, codes, text_eq,
}
use kryon_v.Store.{Order, Payload}
use kryon_v.Matcher.{MatchResult}

-- `xdr.ScVal`; a map's entries are in the order in which they are written.
mutual
  pub data ScVal : Type 0 where
    scv_i128 scv_u64 scv_u32 : ℕ → ScVal
    scv_bool : Bool → ScVal
    scv_address : Text → ScVal
    scv_bytes : List ℕ → ScVal
    scv_map : ScEntries → ScVal

  pub data ScEntries : Type 0 where
    done : ScEntries
    map_entry : Text → ScVal → ScEntries → ScEntries

-- The fields of a struct in alphabetical order.
unfoldable pub order_to_sc_val : Order → ScVal
order_to_sc_val o = scv_map (
    map_entry (codes "expiry_ts") (scv_u64 o.expiry_ts) (
      map_entry (codes "is_long") (scv_bool o.is_long) (
        map_entry (codes "limit_price") (scv_i128 o.limit_price) (
          map_entry (codes "market_id") (scv_u32 o.market_id) (
            map_entry (codes "nonce") (scv_u64 o.nonce) (
              map_entry (codes "owner") (scv_address o.owner) (
                map_entry (codes "reduce_only") (scv_bool o.reduce_only)
                  (map_entry (codes "size") (scv_i128 o.size) done))))))))

unfoldable pub matched_fill_to_sc_val : MatchResult → ScVal
matched_fill_to_sc_val m = scv_map (
    map_entry (codes "fill_price") (scv_i128 m.fill_price) (
      map_entry (codes "fill_size") (scv_i128 m.fill_size) (
        map_entry (codes "maker") (order_to_sc_val m.maker)
          (map_entry (codes "taker") (order_to_sc_val m.taker) done))))

-- The credentials of an authorization entry: an address with the ledger at which its signature
-- expires, the source account, or ones that cannot be read.
pub data Credentials : Type 0 where
  address_credentials : Text → ℕ → Credentials
  source_account unreadable : Credentials

pub record AuthEntry : Type 0 where
  pub credentials : Credentials
  pub invocation : Text

pub data Poll : Type 0 where
  success failed not_found throws : Poll

-- What the SDK and the network answer; `none` is a call that throws. `simulate` gives the
-- authorization entries of the assembled transaction, or the simulation's error; `send` is the
-- hash, or the status ERROR.
pub data Simulation : Type 0 where
  simulation_error : Simulation
  assembles : List AuthEntry → Text → Simulation

pub data Sent : Type 0 where
  send_error : Sent
  sent_as : Text → Sent

pub record Sdk : Type 0 where
  pub get_account : Text → Bool
  pub simulate : Text → List ScVal → Option Simulation
  pub latest_ledger : Option ℕ
  pub entry_to_xdr : AuthEntry → Text
  pub from_hex : Text → List ℕ
  pub from_base64 : Text → List ℕ
  pub trim : Text → Text
  pub send : Option Sent
  pub poll : ℕ → Poll

unfoldable pub set_expiration : ℕ → AuthEntry → AuthEntry
set_expiration ledger e = elim e.credentials [
  | address_credentials a old ↦ record e { credentials = address_credentials a ledger }
  | source_account ↦ e
  | unreadable ↦ e
]

abbrev pub address_of : Credentials → Option Text
address_of (address_credentials a ledger) = some a
address_of source_account = none
address_of unreadable = none

-- An entry goes to the maker where it is the maker's, else to the taker where it is the taker's.
abbrev pub place :
    Text
    → Text
    → AuthEntry
    → Option Text
    → Option AuthEntry × Option AuthEntry
    → Option AuthEntry × Option AuthEntry
place maker taker e none found = found
place maker taker e (some a) (m, t) =
    if text_eq a maker then (some e, t) else (if text_eq a taker then (m, some e) else (m, t))

-- The loop over the entries; a later entry of a party replaces an earlier one.
unfoldable pub identify :
    Text
    → Text
    → List AuthEntry
    → Option AuthEntry × Option AuthEntry
    → Option AuthEntry × Option AuthEntry
identify maker taker [] found = found
identify maker taker (e ∷ es) found =
    identify maker taker es (place maker taker e (address_of e.credentials) found)

abbrev pub entry_or : AuthEntry → Option AuthEntry → AuthEntry
entry_or fallback none = fallback
entry_or fallback (some e) = e

module _ (sdk : Sdk) (m : MatchResult) where
  unfoldable pub pending_of : AuthEntry → AuthEntry → Text → Payload
  pending_of maker_entry taker_entry xdr = record {
    maker_address = some m.maker.owner;
    taker_address = some m.taker.owner;
    maker_auth_xdr = some (sdk.entry_to_xdr maker_entry);
    taker_auth_xdr = some (sdk.entry_to_xdr taker_entry);
    assembled_tx_xdr = some xdr;
    maker_signed_entry = none;
    taker_signed_entry = none;
    fill_price = some m.fill_price;
    fill_size = some m.fill_size;
    market_id = some m.maker.market_id;
    pending_tx_hash = none;
    maker_nonce = none;
    taker_nonce = none;
  }

  -- At least two entries; a party without one of its own gets the first, or the second.
  unfoldable pub assign_entries : List AuthEntry → Text → Option Payload
  assign_entries [] xdr = none
  assign_entries (a ∷ []) xdr = none
  assign_entries (a ∷ b ∷ es) xdr =
      let found = identify m.maker.owner m.taker.owner (a ∷ b ∷ es) (none, none) in
      some (pending_of (entry_or a found.0) (entry_or b found.1) xdr)

  abbrev pub expire_and_assign : List AuthEntry → Text → Option ℕ → Option Payload
  expire_and_assign entries xdr none = none
  expire_and_assign entries xdr (some sequence) =
      assign_entries (map (set_expiration (sequence + 100)) entries) xdr

  abbrev pub on_simulation : Option Simulation → Option Payload
  on_simulation none = none
  on_simulation (some simulation_error) = none
  on_simulation (some (assembles entries xdr)) = expire_and_assign entries xdr sdk.latest_ledger

  -- Every throw is caught.
  unfoldable pub simulate_settle_fill : Text → Option Payload
  simulate_settle_fill fee_payer =
      if sdk.get_account fee_payer
      then on_simulation (sdk.simulate (codes "settle_fill") (matched_fill_to_sc_val m ∷ []))
      else none

-- `/^[0-9a-fA-F]{128}$/`
unfoldable pub is_hex_digit : ℕ → Bool
is_hex_digit c = leb 48 c && leb c 57 || leb 97 c && leb c 102 || leb 65 c && leb c 70

unfoldable pub all_hex : Text → Bool
all_hex [] = true
all_hex (c ∷ s) = is_hex_digit c && all_hex s

abbrev pub after_poll : Text → Poll → Option Text × ℕ → Option Text × ℕ
after_poll hash success later = (some hash, 1)
after_poll hash failed later = (none, 1)
after_poll hash throws later = (none, 1)
after_poll hash not_found later = (later.0, suc later.1)

module _ (sdk : Sdk) where
  unfoldable pub decode_sig : Text → List ℕ
  decode_sig sig =
      let s = sdk.trim sig in
      if length s == 128 && all_hex s then sdk.from_hex s else sdk.from_base64 s

  -- `none` is a throw.
  unfoldable pub bytes_n64_val : Text → Option ScVal
  bytes_n64_val sig =
      if length (decode_sig sig) == 64 then some (scv_bytes (decode_sig sig)) else none

  -- The polls that are left from the i-th on: the hash where one confirms it, and their number.
  unfoldable pub poll_settled : ℕ → ℕ → Text → Option Text × ℕ
  poll_settled zero i hash = (none, 0)
  poll_settled (suc left) i hash = after_poll hash (sdk.poll i) (poll_settled left (suc i) hash)

  abbrev pub on_sent : Option Sent → Option Text × ℕ
  on_sent none = (none, 0)
  on_sent (some send_error) = (none, 0)
  on_sent (some (sent_as hash)) = poll_settled 30 0 hash

  abbrev pub send_simulated : Option Simulation → Option Text × ℕ
  send_simulated none = (none, 0)
  send_simulated (some simulation_error) = (none, 0)
  send_simulated (some (assembles entries xdr)) = on_sent sdk.send

  abbrev pub with_signatures : MatchResult → Option ScVal → Option ScVal → Option Text × ℕ
  with_signatures m (some maker_sig) (some taker_sig) = send_simulated (
      sdk.simulate (codes "settle_fill_signed")
        (matched_fill_to_sc_val m ∷ maker_sig ∷ taker_sig ∷ []))
  with_signatures m _ _ = (none, 0)

  -- The hash of a confirmed transaction, with the number of polls.
  unfoldable pub submit_settle_fill_signed : MatchResult → Text → Text → Text → Option Text × ℕ
  submit_settle_fill_signed m fee_payer maker_sig taker_sig =
      if sdk.get_account fee_payer
      then with_signatures m (bytes_n64_val maker_sig) (bytes_n64_val taker_sig)
      else (none, 0)
