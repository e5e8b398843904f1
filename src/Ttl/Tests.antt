-- ===== src/Ttl/Tests.antt =====
-- A protocol of two contracts, of which one is near its end and one is gone.
use kryon_v.Base.{ℕ, ◌≡◌, refl, true, false, none, some, [], ◌∷◌, codes, text_eq}
use kryon_v.Settlement.Build.{success}
use kryon_v.Ttl.{
  LedgerKey, World, instance_key, simulated, sent, extended, targets, run, key_eq, find_entry,
  load_wasm_hashes, needs_extension, poll_extension,
}
use kryon_v.Ttl.Healthy.{is_healthy}
use kryon_v.Ttl.Spending.{SubmitsDue, run-SubmitsDue}

abbrev vault : LedgerKey
vault = instance_key (codes "CV")

abbrev world : ℕ → World
world live_until = record {
  mainnet = true;
  contracts = (codes "vault", codes "CV") ∷ (codes "risk", codes "CR") ∷ [];
  manifest = none;
  latest_ledger = some 1000000;
  get_entries = λ _. some ((record { key = vault; live_until = some live_until }) ∷ []);
  get_account = true;
  simulate = λ _ _. some (simulated (some 5000000));
  fee_ceiling = 200000000;
  dry_run = false;
  send = λ _ _. some sent;
  poll = λ _. success;
}

-- The vault's entry has a day left.
extends_vault : run (world 1017280) ≡ (extended, some (vault ∷ []))
unfolding run targets load_wasm_hashes needs_extension find_entry key_eq text_eq poll_extension
extends_vault = refl

run-SubmitsDue_example : SubmitsDue (world 1017280) (run (world 1017280))
run-SubmitsDue_example = run-SubmitsDue (world 1017280)

-- With a month left nothing is due, although the entry of the other contract is missing.
settled : is_healthy (run (world 1518400)).0 ≡ true
unfolding run targets load_wasm_hashes needs_extension find_entry key_eq text_eq
settled = refl
