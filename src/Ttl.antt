-- ===== src/Ttl.antt =====
-- The keeper of the contracts' lifetimes, client/scripts/ttl-keeper.ts: which ledger entries it asks
-- to extend, and when it submits. The network's answers are the record `World`;
-- the keeper's secret is one that can be read.
pub mod Spending
pub mod Healthy
mod Tests
use kryon_v.Base.{
  ℕ, zero, suc, ◌+◌, ◌*◌, ◌/◌, Bool, true, false, ◌&&◌, not, Option, none, some, List, [], ◌∷◌,
  ◌++◌, ltb, leb, if◌then◌else◌, map, filterb, findb, reverse, length, ◌==◌, Text, codes, text_eq,
}
use kryon_v.Settlement.Build.{Poll, success, failed, not_found, throws}

abbrev pub day_ledgers : ℕ
day_ledgers = 24 * 60 * 60 / 5

abbrev pub threshold_ledgers : ℕ
threshold_ledgers = 14 * day_ledgers

abbrev pub extend_to_ledgers : ℕ
extend_to_ledgers = 30 * day_ledgers

-- The keys of a contract's instance and of its code, by the contract's id and the code's hash.
pub data LedgerKey : Type 0 where
  instance_key code_key : Text → LedgerKey

unfoldable pub key_eq : LedgerKey → LedgerKey → Bool
key_eq (instance_key a) (instance_key b) = text_eq a b
key_eq (code_key a) (code_key b) = text_eq a b
key_eq (instance_key a) (code_key b) = false
key_eq (code_key a) (instance_key b) = false

pub record Target : Type 0 where
  pub label : Text
  pub key : LedgerKey

-- An entry that the network has; without a last ledger the comparison with the threshold is false.
pub record LedgerEntry : Type 0 where
  pub key : LedgerKey
  pub live_until : Option ℕ

pub data Simulation : Type 0 where
  simulation_error : Simulation
  simulated : Option ℕ → Simulation

pub data Sent : Type 0 where
  send_error sent : Sent

-- `none` is a call that throws. `manifest` is the deployment's file, where there is one, with its map
-- of hashes; `fee_ceiling` is in stroops.
pub record World : Type 0 where
  pub mainnet : Bool
  pub contracts : List (Text × Text)
  pub manifest : Option (Option (List (Text × Text)))
  pub latest_ledger : Option ℕ
  pub get_entries : List LedgerKey → Option (List LedgerEntry)
  pub get_account : Bool
  pub simulate : List LedgerKey → ℕ → Option Simulation
  pub fee_ceiling : ℕ
  pub dry_run : Bool
  pub send : List LedgerKey → ℕ → Option Sent
  pub poll : ℕ → Poll

pub data Ending : Type 0 where
  healthy simulation_failed refused dry submit_failed extended tx_failed timed_out fatal : Ending

unfoldable pub exit_code : Ending → ℕ
exit_code healthy = 0
exit_code dry = 0
exit_code extended = 0
exit_code _ = 1

abbrev pub near_end : ℕ → Option ℕ → Bool
near_end current none = false
near_end current (some live_until) = ltb live_until (current + threshold_ledgers)

abbrev pub near_end_entry : ℕ → Option LedgerEntry → Bool
near_end_entry current none = false
near_end_entry current (some e) = near_end current e.live_until

-- The entry of a key; a later one of the same key replaces an earlier one in the map.
unfoldable pub find_entry : LedgerKey → List LedgerEntry → Option LedgerEntry
find_entry key entries = findb (λ e. key_eq e.key key) (reverse entries)

-- The targets that are found with less than the threshold left; one that is missing is passed over.
unfoldable pub needs_extension : ℕ → List LedgerEntry → List Target → List Target
needs_extension current entries targets =
    filterb (λ t. near_end_entry current (find_entry t.key entries)) targets

abbrev pub keys_of : List Target → List LedgerKey
keys_of targets = map (λ t. t.key) targets

abbrev pub or_empty : Option (List (Text × Text)) → List (Text × Text)
or_empty none = []
or_empty (some hashes) = hashes

abbrev pub hashes_of : Option (Option (List (Text × Text))) → List (Text × Text)
hashes_of none = []
hashes_of (some wasm) = or_empty wasm

abbrev pub after_poll : Poll → Ending → Ending
after_poll success later = extended
after_poll failed later = tx_failed
after_poll throws later = fatal
after_poll not_found later = later

abbrev pub fee_of : Option ℕ → ℕ
fee_of none = 0
fee_of (some fee) = fee

abbrev pub instance_of : Text × Text → Target
instance_of c = record { label = codes "instance:" ++ c.0; key = instance_key c.1 }

abbrev pub code_of : Text × Text → Target
code_of h = record { label = codes "code:" ++ h.0; key = code_key h.1 }

module _ (w : World) where
  unfoldable pub load_wasm_hashes : List (Text × Text)
  load_wasm_hashes = if w.mainnet then hashes_of w.manifest else []

  unfoldable pub targets : List Target
  targets = map instance_of w.contracts ++ map code_of load_wasm_hashes

  unfoldable pub poll_extension : ℕ → ℕ → Ending
  poll_extension zero i = timed_out
  poll_extension (suc left) i = after_poll (w.poll i) (poll_extension left (suc i))

  abbrev pub on_sent : Option Sent → Ending
  on_sent none = fatal
  on_sent (some send_error) = submit_failed
  on_sent (some sent) = poll_extension 20 0

  -- How the run ends, with the keys of the transaction that it has submitted.
  abbrev pub submit : List LedgerKey → Ending × Option (List LedgerKey)
  submit keys = (on_sent (w.send keys extend_to_ledgers), some keys)

  abbrev pub on_simulation : List LedgerKey → Option Simulation → Ending × Option (List LedgerKey)
  on_simulation keys none = (fatal, none)
  on_simulation keys (some simulation_error) = (simulation_failed, none)
  on_simulation keys (some (simulated fee)) =
      if ltb w.fee_ceiling (fee_of fee)
      then (refused, none)
      else (if w.dry_run then (dry, none) else submit keys)

  abbrev pub extend : List LedgerKey → Ending × Option (List LedgerKey)
  extend [] = (healthy, none)
  extend (k ∷ ks) =
      if w.get_account
      then on_simulation (k ∷ ks) (w.simulate (k ∷ ks) extend_to_ledgers)
      else (fatal, none)

  abbrev pub on_entries : ℕ → Option (List LedgerEntry) → Ending × Option (List LedgerKey)
  on_entries current none = (fatal, none)
  on_entries current (some entries) = extend (keys_of (needs_extension current entries targets))

  abbrev pub on_ledger : Option ℕ → Ending × Option (List LedgerKey)
  on_ledger none = (fatal, none)
  on_ledger (some current) = on_entries current (w.get_entries (keys_of targets))

  unfoldable pub run : Ending × Option (List LedgerKey)
  run = on_ledger w.latest_ledger
