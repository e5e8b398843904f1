-- ===== src/Settlement/Reconciler/Expiry.antt =====
-- What the expiry of stale jobs gives back to the orders, `expireStaleQueued` of
-- client/scripts/settlement-reconciler.ts.
use kryon_v.Base.{
  ℕ, ◌+◌, ◌-◌, ◌*◌, ◌≡◌, refl, sym, ap, ◌∙◌, ◌&&◌, Option, none, some, List, [], ◌∷◌, map, filterb,
  ltb, ◌==◌, if◌then◌else◌, Text, text_eq, Bool-cases, Option-cases, inl, inr, arith,
}
use kryon_v.Store.{Order, Payload, TxJob, Db, queued}
use kryon_v.Settlement.{both_signed, status_eq}
use kryon_v.Settlement.Reconciler.{
  World, give_back, undo_fill, pending_of, expire_job, each_job, expire_stale_queued,
}

-- What a party of a fill gets back on an order: its size, where the order has the party's owner and
-- nonce.
abbrev pub share : Text → Option ℕ → ℕ → Order → ℕ
share owner none n o = 0
share owner (some nonce) n o = if text_eq o.owner owner && o.nonce == nonce then n else 0

abbrev sized : Text → Text → Payload → Option ℕ → Order → ℕ
sized maker taker p none o = 0
sized maker taker p (some n) o = share maker p.maker_nonce n o + share taker p.taker_nonce n o

abbrev parted : Payload → Option (Text × (Text × Text)) → Order → ℕ
parted p none o = 0
parted p (some (pending, (maker, taker))) o = sized maker taker p p.fill_size o

abbrev unpaid : Option Payload → Order → ℕ
unpaid none o = 0
unpaid (some p) o = if both_signed p then 0 else parted p (pending_of p) o

-- What the expiry of a job owes to an order: nothing if both parties have signed, or if the payload
-- names no pending fill with its parties and its size.
pub owed : TxJob → Order → ℕ
owed j o = unpaid j.payload o

pub all_owed : List TxJob → Order → ℕ
all_owed [] o = 0
all_owed (j ∷ js) o = owed j o + all_owed js o

-- The order with its filled size less by some amount, at least 0.
abbrev pub less : (Order → ℕ) → Order → Order
less f o = record o { filled_size = o.filled_size - f o }

-- An amount that does not look at the filled size.
IsSteady : (Order → ℕ) → Type 0
IsSteady g = (f : Order → ℕ) (o : Order) → g (less f o) ≡ g o

less_zero : (o : Order) → less (λ _. 0) o ≡ o
less_zero o = ap (λ n. record o { filled_size = n }) (omega arith)

share-less :
    (owner : Text) (nonce : Option ℕ) (n : ℕ) (o : Order)
    → give_back owner nonce n o ≡ less (share owner nonce n) o
unfolding give_back
share-less owner none n o = sym (less_zero o)
share-less owner (some nonce) n o = elim (Bool-cases (text_eq o.owner owner && o.nonce == nonce)) [
  | inl e ↦ rw e refl
  | inr e ↦ rw e (sym (less_zero o))
]

map-same : (f g : Order → Order) (os : List Order) → ((o : Order) → f o ≡ g o) → map f os ≡ map g os
map-same f g [] h = refl
map-same f g (o ∷ os) h = rw (h o, map-same f g os h) refl

share-IsSteady : (owner : Text) (nonce : Option ℕ) (n : ℕ) → IsSteady (share owner nonce n)
unfolding IsSteady
share-IsSteady owner none n f o = refl
share-IsSteady owner (some nonce) n f o = refl

owed-IsSteady : (j : TxJob) → IsSteady (owed j)
unfolding IsSteady owed
owed-IsSteady j f o = elim (Option-cases j.payload) [
  | inl e ↦ rw e refl
  | inr (p, e) ↦ elim (Option-cases (pending_of p)) [
    | inl g ↦ rw (e, g) refl
    | inr ((pending, (maker, taker)), g) ↦ elim (Option-cases p.fill_size) [
      | inl i ↦ rw (e, g, i) refl
      | inr (n, i) ↦ elim (Option-cases p.maker_nonce) [
        | inl k ↦ elim (Option-cases p.taker_nonce) [
          | inl l ↦ rw (e, g, i, k, l) refl
          | inr (b, l) ↦ rw (e, g, i, k, l) refl
        ]
        | inr (a, k) ↦ elim (Option-cases p.taker_nonce) [
          | inl l ↦ rw (e, g, i, k, l) refl
          | inr (b, l) ↦ rw (e, g, i, k, l) refl
        ]
      ]
    ]
  ]
]

all_owed-IsSteady : (js : List TxJob) → IsSteady (all_owed js)
unfolding IsSteady all_owed
all_owed-IsSteady [] f o = refl
all_owed-IsSteady (j ∷ js) f o = rw (owed-IsSteady j f o, all_owed-IsSteady js f o) refl

less_then :
    (f g : Order → ℕ) (os : List Order)
    → IsSteady g
    → map (less g) (map (less f) os) ≡ map (less (λ o. f o + g o)) os
unfolding IsSteady
less_then f g [] h = refl
less_then f g (o ∷ os) h =
    rw (less_then f g os h, h f o)
      (ap (λ n. record o { filled_size = n } ∷ map (less (λ o. f o + g o)) os) (omega arith))

less_nothing : (f : Order → ℕ) (os : List Order) → ((o : Order) → f o ≡ 0) → map (less f) os ≡ os
less_nothing f [] h = refl
less_nothing f (o ∷ os) h = rw (h o, less_nothing f os h) (ap (λ x. x ∷ os) (less_zero o))

undo_fill-orders :
    (network : Text) (p : Payload) (db : Db)
    → (undo_fill network p db).orders ≡ map (less (parted p (pending_of p))) db.orders
unfolding undo_fill
undo_fill-orders network p db = elim (Option-cases (pending_of p)) [
  | inl e ↦ rw (undo_fill, e) (sym (less_nothing _ db.orders (λ o. refl)))
  | inr ((pending, (maker, taker)), e) ↦ elim (Option-cases p.fill_size) [
    | inl f ↦ rw (undo_fill, e, f) (sym (less_nothing _ db.orders (λ o. refl)))
    | inr (n, f) ↦
        rw (undo_fill, e, f)
          (map-same (give_back taker p.taker_nonce n) (less (share taker p.taker_nonce n))
              (map (give_back maker p.maker_nonce n) db.orders) (share-less taker p.taker_nonce n)
            ∙ ap (map (less (share taker p.taker_nonce n))) (
                map-same (give_back maker p.maker_nonce n) (less (share maker p.maker_nonce n))
                  db.orders (share-less maker p.maker_nonce n))
            ∙ less_then (share maker p.maker_nonce n) (share taker p.taker_nonce n) db.orders
                (share-IsSteady taker p.taker_nonce n))
  ]
]

module _ (w : World) where
  expire_job-orders :
      (job : TxJob) (db : Db) → (expire_job w job db).orders ≡ map (less (owed job)) db.orders
  unfolding expire_job owed
  expire_job-orders job db = elim (Option-cases job.payload) [
    | inl e ↦ rw e (sym (less_nothing _ db.orders (λ o. refl)))
    | inr (p, e) ↦ elim (Bool-cases (both_signed p)) [
      | inl f ↦ rw (e, f) (sym (less_nothing _ db.orders (λ o. rw f refl)))
      | inr f ↦
          rw (e, f) (undo_fill-orders job.network p db ∙ map-same _ _ db.orders (λ o. rw f refl))
    ]
  ]

  each_job-orders :
      (js : List TxJob) (db : Db)
      → (each_job w (expire_job w) js db).orders ≡ map (less (all_owed js)) db.orders
  unfolding each_job all_owed
  each_job-orders [] db = sym (less_nothing _ db.orders (λ o. refl))
  each_job-orders (j ∷ js) db =
      each_job-orders js (expire_job w j db)
      ∙ ap (map (less (all_owed js))) (expire_job-orders j db)
      ∙ less_then (owed j) (all_owed js) db.orders (all_owed-IsSteady js)

  -- The expiry takes from the filled size of each order exactly what the jobs that are queued and older
  -- than the limit owe it: for each that not both parties have signed and that names its fill, the
  -- fill's size where the order has the maker's owner and nonce, and again where it has the taker's.
  -- Nothing else of the orders changes.
  pub expire_stale_queued-GivesBack :
      (db : Db)
      → (expire_stale_queued w db).orders
        ≡ map
            (less (
              all_owed (
                filterb
                  (λ j.
                    status_eq j.status queued
                    && ltb (j.created_at + w.stale_queued_minutes * 60000) w.now_ms)
                  db.jobs)))
            db.orders
  unfolding expire_stale_queued
  expire_stale_queued-GivesBack db = each_job-orders _ db
