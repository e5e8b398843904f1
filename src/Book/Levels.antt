-- ===== src/Book/Levels.antt =====
-- What a level of the shown order book sums, client/app/api/markets/[id]/orderbook/route.ts and
-- client/scripts/ws-server.ts.
use kryon_v.Base.{
  ◌≡◌, refl, sym, ap, ◌∙◌, Bool, true, false, Option, none, some, List, [], ◌∷◌, if◌then◌else◌,
  filterb, All, Text, text_eq, text_eq_iff, text_eq_refl, text_eq_sym, Bool-cases, inl, inr, not,
}
use kryon_v.Store.{Order}
use kryon_v.Matcher.Sort.{insert, sort, insert-All, sort-All, sort-IsSorted, IsSorted}
use kryon_v.Stats.Keyed.{lookup, AreKeyed, lookup-put_self, lookup-put_other, put-AreKeyed}
use kryon_v.Book.{
  Doubles, Level, total_of, add_order, add_row, add_rows, higher_first, lower_first, levels_of,
}

module _ {A : Type 0} (key : A → Text) (before : A → A → Bool) where
  lookup-insert :
      (k : Text) (x : A) (xs : List A)
      → All (λ b. text_eq (key x) (key b) ≡ false) xs
      → lookup key k (insert before x xs) ≡ lookup key k (x ∷ xs)
  unfolding insert
  lookup-insert k x [] h = refl
  lookup-insert k x (y ∷ ys) (h, hs) = elim (Bool-cases (before x y)) [
    | inl e ↦ rw e refl
    | inr e ↦ elim (Bool-cases (text_eq k (key y))) [
      | inl same ↦
          let apart : text_eq k (key x) ≡ false =
            text_eq_sym k (key x) ∙ rw (sym ((text_eq_iff k (key y)).0 same)) at h in
          rw (e, same, apart) refl
      | inr other ↦ rw (e, other) (lookup-insert k x ys hs)
    ]
  ]

  insert-AreKeyed :
      (x : A) (xs : List A)
      → All (λ b. text_eq (key x) (key b) ≡ false) xs
      → AreKeyed key xs
      → AreKeyed key (insert before x xs)
  unfolding insert
  insert-AreKeyed x [] h k = (tt, tt)
  insert-AreKeyed x (y ∷ ys) (h, hs) (k, ks) = elim (Bool-cases (before x y)) [
    | inl e ↦ rw e ((h, hs), (k, ks))
    | inr e ↦ rw e (
      insert-All (λ b. text_eq (key y) (key b) ≡ false) before x ys
          (text_eq_sym (key y) (key x) ∙ h) k,
      insert-AreKeyed x ys hs ks,
    )
  ]

  sort-AreKeyed : (xs : List A) → AreKeyed key xs → AreKeyed key (sort before xs)
  unfolding sort
  sort-AreKeyed [] h = tt
  sort-AreKeyed (x ∷ xs) (h, hs) =
      insert-AreKeyed x (sort before xs) (sort-All _ before xs h) (sort-AreKeyed xs hs)

  -- Sorting keeps what each key leads to.
  pub lookup-sort :
      (k : Text) (xs : List A) → AreKeyed key xs → lookup key k (sort before xs) ≡ lookup key k xs
  unfolding sort
  lookup-sort k [] h = refl
  lookup-sort k (x ∷ xs) (h, hs) =
      lookup-insert k x (sort before xs) (sort-All _ before xs h)
      ∙ ap (λ o. if text_eq k (key x) then some x else o) (lookup-sort k xs hs)

abbrev pub price_of : {D : Type 0} → Level D → Text
price_of l = l.price

abbrev pub AreLevels : {D : Type 0} → List (Level D) → Type 0
AreLevels = AreKeyed price_of

abbrev pub longs : List Order → List Order
longs rows = filterb (λ o. o.is_long) rows

abbrev pub shorts : List Order → List Order
shorts rows = filterb (λ o. not o.is_long) rows

module _ {D : Type 0} (d : Doubles D) where
  -- A level after an order has been added to it.
  abbrev raised : Order → Option (Level D) → Level D
  raised o l = record {
    price = d.price_text o.limit_price;
    total = d.plus (total_of d l) (d.amount o.size o.filled_size);
  }

  -- The level of a price text over some orders: the sum, in their order, of what is left of those at
  -- that price, and none where there are none.
  abbrev pub level_at : Text → List Order → Option (Level D) → Option (Level D)
  level_at k [] l = l
  level_at k (o ∷ os) l =
      level_at k os (if text_eq k (d.price_text o.limit_price) then some (raised o l) else l)

  add_order-lookup :
      (k : Text) (o : Order) (levels : List (Level D))
      → lookup price_of k (add_order d o levels) ≡ (
          if text_eq k (d.price_text o.limit_price)
          then some (raised o (lookup price_of k levels))
          else lookup price_of k levels)
  unfolding add_order
  add_order-lookup k o levels = elim (Bool-cases (text_eq k (d.price_text o.limit_price))) [
    | inl e ↦
        rw
          (
            (text_eq_iff k (d.price_text o.limit_price)).0 e,
            text_eq_refl (d.price_text o.limit_price),
          )
          (lookup-put_self price_of (d.price_text o.limit_price) (raised o) (λ _. refl) levels)
    | inr e ↦
        rw e
          (lookup-put_other price_of (d.price_text o.limit_price) (raised o) (λ _. refl) k levels e)
  ]

  add_order-AreLevels :
      (o : Order) (levels : List (Level D)) → AreLevels levels → AreLevels (add_order d o levels)
  unfolding add_order
  add_order-AreLevels o levels h =
      put-AreKeyed price_of (d.price_text o.limit_price) (raised o) (λ _. refl) levels h

  -- Both maps after some rows: a level for each price text, with the sum of its orders.
  abbrev IsSummed :
      List Order → List (Level D) × List (Level D) → List (Level D) × List (Level D) → Type 0
  IsSummed rows from to =
      ((k : Text) → lookup price_of k to.0 ≡ level_at k (longs rows) (lookup price_of k from.0))
      × ((k : Text) → lookup price_of k to.1 ≡ level_at k (shorts rows) (lookup price_of k from.1))
      × AreLevels to.0
      × AreLevels to.1

  add_rows-IsSummed :
      (rows : List Order) (from : List (Level D) × List (Level D))
      → AreLevels from.0
      → AreLevels from.1
      → IsSummed rows from (add_rows d rows from)
  unfolding add_rows add_row add_order
  add_rows-IsSummed [] from b a = (λ k. refl, λ k. refl, b, a)
  add_rows-IsSummed (o ∷ os) (bids, asks) b a = elim (Bool-cases o.is_long) [
    | inl e ↦
        let (x, y, p, q) =
          add_rows-IsSummed os (add_order d o bids, asks) (add_order-AreLevels o bids b) a in
        rw e (λ k. x k ∙ ap (level_at k (longs os)) (add_order-lookup k o bids), y, p, q)
    | inr e ↦
        let (x, y, p, q) =
          add_rows-IsSummed os (bids, add_order d o asks) b (add_order-AreLevels o asks a) in
        rw e (x, λ k. y k ∙ ap (level_at k (shorts os)) (add_order-lookup k o asks), p, q)
  ]

  -- Each side of the book has at most one level for a price text, with the sum over its orders of
  -- that side at that price, and the best comes first.
  pub levels_of-IsBook :
      (total : (s t : Text) → d.parsed_le s t ≡ false → d.parsed_le t s ≡ true)
      (trans : (s t u : Text)
        → d.parsed_le s t ≡ true
        → d.parsed_le t u ≡ true
        → d.parsed_le s u ≡ true)
      (rows : List Order) (k : Text)
      → (lookup price_of k (levels_of d rows).0 ≡ level_at k (longs rows) none)
        × (lookup price_of k (levels_of d rows).1 ≡ level_at k (shorts rows) none)
        × AreLevels (levels_of d rows).0
        × AreLevels (levels_of d rows).1
        × IsSorted (higher_first d) (levels_of d rows).0
        × IsSorted (lower_first d) (levels_of d rows).1
  unfolding levels_of
  levels_of-IsBook total trans rows k =
      let (x, y, p, q) = add_rows-IsSummed rows ([], []) tt tt in
      let maps = add_rows d rows ([], []) in
      (
        lookup-sort price_of (higher_first d) k maps.0 p ∙ x k,
        lookup-sort price_of (lower_first d) k maps.1 q ∙ y k,
        sort-AreKeyed price_of (higher_first d) maps.0 p,
        sort-AreKeyed price_of (lower_first d) maps.1 q,
        sort-IsSorted (higher_first d) (λ a b. total b.price a.price)
            (λ a b c h i. trans c.price b.price a.price i h) maps.0,
        sort-IsSorted (lower_first d) (λ a b. total a.price b.price)
            (λ a b c. trans a.price b.price c.price) maps.1,
      )
