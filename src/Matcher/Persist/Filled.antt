-- ===== src/Matcher/Persist/Filled.antt =====
-- Adding to the filled sizes of the rows and taking it off again, client/scripts/matcher-service.ts.
use kryon_v.Base.{
  ℕ, ◌+◌, ◌-◌, ◌≤◌, ◌≡◌, refl, sym, ap, ◌∙◌, Bool, true, false, ◌||◌, List, [], ◌∷◌, map, arith,
  someb, Text, text_eq, text_eq_iff, All, Bool-cases, le→leb, inl, inr,
}
use kryon_v.Store.{Order}
use kryon_v.Matcher.Persist.{can_add, add_filled, sub_filled}

-- Rows of the orders table by their primary key.
abbrev pub Rows : (Text → Order) → List Order → Type 0
Rows row = All (λ o. row o.id ≡ o)

abbrev Room : ℕ → Order → Type 0
Room n o = o.filled_size + n ≤ o.size

can_add-Room :
    (id : Text) (n : ℕ) (o : Order) → can_add id n o ≡ true → (text_eq o.id id ≡ true) × Room n o
can_add-Room id n o h = ground arith

or_false : (b c : Bool) → b ≡ false → (b || c) ≡ true → c ≡ true
or_false b c e h = ground arith

pub someb-Room :
    (row : Text → Order) (id : Text) (n : ℕ) (os : List Order)
    → Rows row os
    → someb (can_add id n) os ≡ true
    → Room n (row id)
someb-Room row id n [] rs h = ground arith
someb-Room row id n (o ∷ os) (r, rs) h = elim (Bool-cases (can_add id n o)) [
  | inl e ↦
      let (at, room) = can_add-Room id n o e in
      rw (ap row (sym ((text_eq_iff o.id id).0 at)) ∙ r) room
  | inr e ↦ someb-Room row id n os rs (or_false (can_add id n o) _ e h)
]

-- One row: both updates and both of their inverses.
add_filled_id : (id : Text) (n : ℕ) (o : Order) → (add_filled id n o).id ≡ o.id
unfolding add_filled
add_filled_id id n o = ground arith

add_filled_miss : (id : Text) (n : ℕ) (o : Order) → text_eq o.id id ≡ false → add_filled id n o ≡ o
unfolding add_filled
add_filled_miss id n o h = ground arith

sub_filled_miss : (id : Text) (n : ℕ) (o : Order) → text_eq o.id id ≡ false → sub_filled id n o ≡ o
unfolding sub_filled
sub_filled_miss id n o h = rw h refl

sub_filled-add_filled :
    (id : Text) (n : ℕ) (o : Order)
    → text_eq o.id id ≡ true
    → Room n o
    → sub_filled id n (add_filled id n o) ≡ o
unfolding add_filled sub_filled
sub_filled-add_filled id n o h room =
    let back : o.filled_size + n - n ≡ o.filled_size = omega arith in
    rw (h, le→leb (o.filled_size + n) o.size room, h) (ap (λ k. record o { filled_size = k }) back)

not-both : (id a b : Text) → text_eq a b ≡ false → text_eq id a ≡ true → text_eq id b ≡ false
not-both id a b apart h = rw ((text_eq_iff id a).0 h) apart

Room-row :
    (row : Text → Order) (n : ℕ) (o : Order)
    → row o.id ≡ o
    → (id : Text) → Room n (row id)
    → text_eq o.id id ≡ true
    → Room n o
Room-row row n o r id h e = rw (sym r ∙ ap row ((text_eq_iff o.id id).0 e)) h

pub Rows-map_add :
    (row : Text → Order) (a : Text) (n : ℕ) (os : List Order)
    → Rows row os
    → Rows (λ k. add_filled a n (row k)) (map (add_filled a n) os)
Rows-map_add row a n [] h = tt
Rows-map_add row a n (o ∷ os) (r, rs) = (
  ap (λ k. add_filled a n (row k)) (add_filled_id a n o) ∙ ap (add_filled a n) r,
  Rows-map_add row a n os rs,
)

pub add_filled-Room : (a : Text) (n : ℕ) (o : Order) → Room n (add_filled a n o) → Room n o
unfolding add_filled
add_filled-Room a n o h = ground arith

module _ (a b : Text) (n : ℕ) (apart : text_eq a b ≡ false) where
  abbrev undone : Order → Order
  undone o = sub_filled b n (sub_filled a n (add_filled b n (add_filled a n o)))

  undone_lem :
      (o : Order)
      → (text_eq o.id a ≡ true → Room n o)
      → (text_eq o.id b ≡ true → Room n o)
      → undone o ≡ o
  undone_lem o room_a room_b = elim (Bool-cases (text_eq o.id a)) [
    | inl e ↦
        let miss = not-both o.id a b apart e in
        rw
          (
            add_filled_miss b n (add_filled a n o) (rw (add_filled_id a n o) miss),
            sub_filled-add_filled a n o e (room_a e),
          )
          (sub_filled_miss b n o miss)
    | inr e ↦
        rw
          (
            add_filled_miss a n o e,
            sub_filled_miss a n (add_filled b n o) (rw (add_filled_id b n o) e),
          )
          (elim (Bool-cases (text_eq o.id b)) [
            | inl f ↦ sub_filled-add_filled b n o f (room_b f)
            | inr f ↦ rw (add_filled_miss b n o f) (sub_filled_miss b n o f)
          ])
  ]

  -- The whole table, by the primary key.
  pub undone-map :
      (row : Text → Order) (os : List Order)
      → Rows row os
      → Room n (row a)
      → Room n (row b)
      → map (sub_filled b n) (map (sub_filled a n) (map (add_filled b n) (map (add_filled a n) os)))
        ≡ os
  undone-map row [] rs ha hb = refl
  undone-map row (o ∷ os) (r, rs) ha hb =
      let at = Room-row row n o r in
      rw (undone_lem o (at a ha) (at b hb), undone-map row os rs ha hb) refl
