-- ===== src/Ttl/Spending.antt =====
-- When client/scripts/ttl-keeper.ts spends.
use mathlib.Core.List.{Memᴰ}
use mathlib.Core.Path.{subst}
use kryon_v.Base.{
  ◌+◌, ◌*◌, ◌<◌, ◌↔◌, Text, map, sym, ap, mem-map, map-mem, mem_left, mem_right, mem_either,
  filterb-mem, mem-filterb, if◌then◌else◌, ℕ, if_elim, ◌≤◌, ◌≡◌, ◌⊎◌, refl, Bool, true, false,
  Option, none, some, List, [], ◌∷◌, ltb, filterb, inl, inr, arith,
}
use kryon_v.Ttl.{
  instance_of, code_of, instance_key, code_key, load_wasm_hashes, hashes_of, near_end, LedgerKey,
  Target, LedgerEntry, World, Ending, simulated, simulation_error, Simulation, extend_to_ledgers,
  needs_extension, keys_of, targets, fee_of, on_simulation, extend, on_entries, on_ledger, run,
  near_end_entry, find_entry,
}

module _ (w : World) where
  -- The ledger and the entries that the run has read.
  abbrev pub HasRead : ℕ → List LedgerEntry → Type 0
  HasRead current entries =
      (w.latest_ledger ≡ some current) × (w.get_entries (keys_of (targets w)) ≡ some entries)

  -- A transaction over some keys was allowed: no dry run, and a simulated fee within the ceiling.
  abbrev pub IsAllowed : List LedgerKey → Type 0
  IsAllowed keys =
      (fee : Option ℕ) × (w.dry_run ≡ false)
      × (w.simulate keys extend_to_ledgers ≡ some (simulated fee))
      × (fee_of fee ≤ w.fee_ceiling)

  -- Nothing was submitted, or an allowed transaction over exactly the targets near their end.
  abbrev pub Submits : List LedgerKey → Ending × Option (List LedgerKey) → Type 0
  Submits due r = (r.1 ≡ none) ⊎ ((r.1 ≡ some due) × IsAllowed due)

  on_simulation-Submits :
      (keys : List LedgerKey) (o : Option Simulation)
      → w.simulate keys extend_to_ledgers ≡ o
      → Submits keys (on_simulation w keys o)
  on_simulation-Submits keys none e = inl refl
  on_simulation-Submits keys (some simulation_error) e = inl refl
  on_simulation-Submits keys (some (simulated fee)) e =
      if_elim (Submits keys) (ltb w.fee_ceiling (fee_of fee)) (λ _. inl refl)
        (λ low.
          if_elim (Submits keys) w.dry_run (λ _. inl refl)
            (λ d. inr (refl, (fee, d, e, ground arith))))

  extend-Submits : (keys : List LedgerKey) → Submits keys (extend w keys)
  extend-Submits [] = inl refl
  extend-Submits (k ∷ ks) =
      if_elim (Submits (k ∷ ks)) w.get_account
        (λ _. on_simulation-Submits (k ∷ ks) (w.simulate (k ∷ ks) extend_to_ledgers) refl)
        (λ _. inl refl)

  -- The instance of one of the contracts, or on mainnet the code of one of the manifest's hashes.
  abbrev pub IsWatched : LedgerKey → Type 0
  IsWatched k =
      ((name : Text) × (id : Text) × Memᴰ (name, id) w.contracts × (k ≡ instance_key id))
      ⊎ ((name : Text) × (hash : Text) × (hashes : List (Text × Text)) × (w.mainnet ≡ true)
          × (w.manifest ≡ some (some hashes))
          × Memᴰ (name, hash) hashes
          × (k ≡ code_key hash))

  -- The last of the entries with this key ends before 14 days of 17280 ledgers have passed.
  abbrev pub Expires : ℕ → List LedgerEntry → LedgerKey → Type 0
  Expires current entries k =
      (e : LedgerEntry) × (live_until : ℕ) × (find_entry k entries ≡ some e)
      × (e.live_until ≡ some live_until)
      × (live_until < current + 14 * 17280)

  -- What was submitted, if anything: exactly the watched keys that expire.
  abbrev pub SubmitsDue : Ending × Option (List LedgerKey) → Type 0
  SubmitsDue r =
      (r.1 ≡ none)
      ⊎ ((current : ℕ) × (entries : List LedgerEntry) × (keys : List LedgerKey) × HasRead current
            entries
          × (r.1 ≡ some keys)
          × IsAllowed keys
          × ((k : LedgerKey) → Memᴰ k keys ↔ (IsWatched k × Expires current entries k)))

  hashes_in :
      (b : Bool) (m : Option (Option (List (Text × Text)))) (h : Text × Text)
      → Memᴰ h (if b then hashes_of m else [])
      → (hashes : List (Text × Text)) × (b ≡ true) × (m ≡ some (some hashes)) × Memᴰ h hashes
  hashes_in false m h i = elim i [ ]
  hashes_in true none h i = elim i [ ]
  hashes_in true (some none) h i = elim i [ ]
  hashes_in true (some (some hashes)) h i = (hashes, refl, refl, i)

  watched : (t : Target) → Memᴰ t (targets w) → IsWatched t.key
  unfolding targets load_wasm_hashes
  watched t i = elim (mem_either t (map instance_of w.contracts) _ i) [
    | inl j ↦
        let ((name, id), k, e) = map-mem instance_of t w.contracts j in
        inl (name, id, k, ap (λ x. x.key) e)
    | inr j ↦
        let ((name, hash), k, e) = map-mem code_of t (load_wasm_hashes w) j in
        let (hashes, m, f, l) = hashes_in w.mainnet w.manifest (name, hash) k in
        inr (name, hash, hashes, m, f, l, ap (λ x. x.key) e)
  ]

  targeted : (k : LedgerKey) → IsWatched k → Memᴰ k (keys_of (targets w))
  unfolding targets load_wasm_hashes
  targeted k (inl (name, id, i, e)) = rw e (
      mem-map (λ t. t.key) _ (targets w)
        (mem_left _ _ (map code_of (load_wasm_hashes w)) (mem-map instance_of _ w.contracts i)))
  targeted k (inr (name, hash, hashes, m, f, i, e)) = rw e (
      mem-map (λ t. t.key) _ (targets w)
        (mem_right _ (map instance_of w.contracts) _
          (mem-map code_of (name, hash) (load_wasm_hashes w) (rw (m, f) i))))

  targets-IsWatched : (k : LedgerKey) → Memᴰ k (keys_of (targets w)) ↔ IsWatched k
  targets-IsWatched k = (
    λ i.
        let (t, j, e) = map-mem (λ t. t.key) k (targets w) i in
        subst IsWatched (sym e) (watched t j),
    targeted k,
  )

  near_end_at :
      (current : ℕ) (e : LedgerEntry) (o : Option ℕ)
      → e.live_until ≡ o
      → near_end current o ≡ true
      → (live_until : ℕ) × (e.live_until ≡ some live_until) × (live_until < current + 14 * 17280)
  near_end_at current e none q h = ground arith
  near_end_at current e (some live_until) q h = (live_until, q, ground arith)

  near_end_entry-Expires :
      (current : ℕ) (entries : List LedgerEntry) (k : LedgerKey) (o : Option LedgerEntry)
      → find_entry k entries ≡ o
      → near_end_entry current o ≡ true
      → Expires current entries k
  near_end_entry-Expires current entries k none f h = ground arith
  near_end_entry-Expires current entries k (some e) f h =
      let (live_until, q, l) = near_end_at current e e.live_until refl h in (e, live_until, f, q, l)

  near_end-Expires :
      (current : ℕ) (entries : List LedgerEntry) (k : LedgerKey)
      → (near_end_entry current (find_entry k entries) ≡ true) ↔ Expires current entries k
  near_end-Expires current entries k = (
    near_end_entry-Expires current entries k (find_entry k entries) refl,
    λ (e, live_until, f, q, l). rw (f, q) (ground arith),
  )

  due-Expires :
      (current : ℕ) (entries : List LedgerEntry) (k : LedgerKey) (ts : List Target)
      → Memᴰ k (keys_of (needs_extension current entries ts))
        ↔ (Memᴰ k (keys_of ts) × Expires current entries k)
  unfolding needs_extension
  due-Expires current entries k ts =
      let due = λ (t : Target). near_end_entry current (find_entry t.key entries) in
      (
        λ i.
            let (t, j, e) = map-mem (λ t. t.key) k (filterb due ts) i in
            let (h, d) = filterb-mem due t ts j in
            (
              subst (λ x. Memᴰ x (keys_of ts)) (sym e) (mem-map (λ t. t.key) t ts h),
              subst (Expires current entries) (sym e)
                  ((near_end-Expires current entries t.key).0 d),
            ),
        λ (i, x).
            let (t, j, e) = map-mem (λ t. t.key) k ts i in
            subst (λ x. Memᴰ x (keys_of (filterb due ts))) (sym e)
              (mem-map (λ t. t.key) t (filterb due ts)
                (mem-filterb due t ts j (
                  (near_end-Expires current entries t.key).1
                    (subst (Expires current entries) e x)))),
      )

  on_entries-SubmitsDue :
      (current : ℕ) (o : Option (List LedgerEntry))
      → w.latest_ledger ≡ some current
      → w.get_entries (keys_of (targets w)) ≡ o
      → SubmitsDue (on_entries w current o)
  on_entries-SubmitsDue current none l e = inl refl
  on_entries-SubmitsDue current (some entries) l e =
      let keys = keys_of (needs_extension current entries (targets w)) in
      elim (extend-Submits keys) [
        | inl unsent ↦ inl unsent
        | inr (submitted, allowed) ↦ inr (
          current,
          entries,
          keys,
          (l, e),
          submitted,
          allowed,
          λ k.
              let (due, back) = due-Expires current entries k (targets w) in
              let (watched, target) = targets-IsWatched k in
              (λ i. let (t, x) = due i in (watched t, x), λ (v, x). back (target v, x)),
        )
      ]

  on_ledger-SubmitsDue : (o : Option ℕ) → w.latest_ledger ≡ o → SubmitsDue (on_ledger w o)
  on_ledger-SubmitsDue none e = inl refl
  on_ledger-SubmitsDue (some current) e =
      on_entries-SubmitsDue current (w.get_entries (keys_of (targets w))) e refl

  -- A run submits nothing, or one transaction; then it is no dry run, the simulated fee is within the
  -- ceiling, and the transaction has exactly the keys of the contracts' instances, and on mainnet of the
  -- manifest's codes, the entries of which it has read to end within 14 days of 17280 ledgers.
  pub run-SubmitsDue : SubmitsDue (run w)
  unfolding run
  run-SubmitsDue = on_ledger-SubmitsDue w.latest_ledger refl
