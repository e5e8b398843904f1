-- ===== src/Liquidation/Outcome.antt =====
-- A run on one account: the proposals that it sends, and how it ends.
use mathlib.Core.List.{Memᴰ}
use native.Mathlib.Nat.{div-le_self}
use kryon_v.Base.{
  ℕ, ◌≤◌, ◌≡◌, refl, sym, ap, Bool, true, false, Option, none, some, List, [], ◌∷◌, Text, ℤ, pos,
  negsuc, pos_part, ◌≤ℤ◌, ◌/ℤ◌, leb_ℤ, /ℤ_parts, Bool-cases, inl, inr, All, arith,
}
use kryon_v.Config.{MarketConfig}
use kryon_v.Settlement.{present}
use kryon_v.Matcher.Tick.{Answer, throws, answers}
use kryon_v.Matcher.Sort.{sort-All}
use kryon_v.Liquidation.{
  Network, PositionView, after, rank, positions_of, oracle_price, oracle_symbol, submit_liquidate,
  propose, stop_if, try_fractions, try_price, try_position, try_positions, liquidate_account,
}

-- A positive size to close is at most the position's.
close_size_bounds :
    (size : ℤ) (k : ℕ)
    → 1 ≤ k
    → leb_ℤ (size /ℤ k) (pos 0) ≡ false
    → (1 ≤ pos_part (size /ℤ k)) × ((size /ℤ k) ≤ℤ size)
close_size_bounds (pos n) k h e = ground (arith, /ℤ_parts (pos n) k, div-le_self n k)
close_size_bounds (negsuc n) k h e = ground (arith, /ℤ_parts (negsuc n) k)

module _ {S : Type 0} (net : Network S) (active : List MarketConfig) (user : Text) where
  -- The contracts have answered that the account holds the position.
  abbrev pub IsHeld : PositionView → Type 0
  IsHeld p =
      (s : S) × (ps : List PositionView) × ((positions_of net user s).0 ≡ answers ps) × Memᴰ p ps

  -- The oracle has answered this price for the position's market.
  abbrev pub IsQuoted : PositionView → ℤ → Type 0
  IsQuoted p price =
      (s : S) × (symbol : Text) × (oracle_symbol active p.market_id ≡ some symbol)
      × ((oracle_price net symbol s).0 ≡ answers (some price))
      × (1 ≤ pos_part price)

  -- A proposal to close a part of a position.
  abbrev pub IsOffer : PositionView → ℤ → ℤ → Type 0
  IsOffer p price close_size =
      IsHeld p × IsQuoted p price × (1 ≤ pos_part close_size) × (close_size ≤ℤ p.size)

  abbrev pub IsUnconfirmed : Answer (Option Text) → Type 0
  IsUnconfirmed throws = Unit
  IsUnconfirmed (answers hash) = present hash ≡ false

  -- Reads of the contracts and proposals that come to nothing.
  pub data Moves (s : S) : S → Type 0 where
    here : Moves s s
    listed : {t : S} → Moves s t → Moves s (positions_of net user t).1
    quoted : {t : S} → Moves s t → (symbol : Text) → Moves s (oracle_price net symbol t).1
    refused :
        {t : S}
        → Moves s t
        → (p : PositionView) (price close_size : ℤ) → IsOffer p price close_size
        → IsUnconfirmed (submit_liquidate net user p.position_id close_size price t).0
        → Moves s (submit_liquidate net user p.position_id close_size price t).1

  -- How a run on the account ends: with the first proposal that is confirmed, or without any.
  abbrev pub Outcome : S → Answer Bool × S → Type 0
  Outcome s (throws, t) = Moves s t
  Outcome s (answers false, t) = Moves s t
  Outcome s (answers true, t) =
      (u : S) × (p : PositionView) × (price : ℤ) × (close_size : ℤ) × (hash : Option Text) × Moves s
        u
      × IsOffer p price close_size
      × (submit_liquidate net user p.position_id close_size price u ≡ (answers hash, t))
      × (present hash ≡ true)

  after_submit :
      (s t : S) (p : PositionView) (price close_size : ℤ) (later : S → Answer Bool × S)
      (x : Answer (Option Text) × S)
      → submit_liquidate net user p.position_id close_size price t ≡ x
      → ((t' : S) → Moves s t' → Outcome s (later t'))
      → Moves s t
      → IsOffer p price close_size
      → Outcome s (after x (λ hash t'. stop_if hash later t'))
  after_submit s t p price close_size later (throws, t') e keeps m offer =
      rw (sym (ap (λ x. x.1) e)) (refused m p price close_size offer (rw (ap (λ x. x.0) e) tt))
  after_submit s t p price close_size later (answers hash, t') e keeps m offer =
      elim (Bool-cases (present hash)) [
        | inl h ↦ rw h (t, p, price, close_size, hash, m, offer, e, h)
        | inr h ↦ rw h (
            keeps t' (
              rw (sym (ap (λ x. x.1) e))
                (refused m p price close_size offer (rw (ap (λ x. x.0) e) h))))
      ]

  propose-Outcome :
      (s t : S) (p : PositionView) (price close_size : ℤ) (later : S → Answer Bool × S)
      → ((t' : S) → Moves s t' → Outcome s (later t'))
      → Moves s t
      → (leb_ℤ close_size (pos 0) ≡ false → IsOffer p price close_size)
      → Outcome s (propose net user p price close_size later t)
  unfolding propose
  propose-Outcome s t p price close_size later keeps m offer =
      elim (Bool-cases (leb_ℤ close_size (pos 0))) [
        | inl e ↦ rw e (keeps t m)
        | inr e ↦ rw e (after_submit s t p price close_size later _ refl keeps m (offer e))
      ]

  try_fractions-Outcome :
      (s t : S) (p : PositionView) (price : ℤ) (ks : List ℕ) (later : S → Answer Bool × S)
      → ((t' : S) → Moves s t' → Outcome s (later t'))
      → Moves s t
      → IsHeld p
      → IsQuoted p price
      → All (λ k. 1 ≤ k) ks
      → Outcome s (try_fractions net user p price ks later t)
  unfolding try_fractions
  try_fractions-Outcome s t p price [] later keeps m held quote h = keeps t m
  try_fractions-Outcome s t p price (k ∷ ks) later keeps m held quote h =
      propose-Outcome s t p price (p.size /ℤ k) (try_fractions net user p price ks later)
        (λ t' m'. try_fractions-Outcome s t' p price ks later keeps m' held quote h.1) m
        (λ e. let fits = close_size_bounds p.size k h.0 e in (held, quote, fits.0, fits.1))

  try_price-Outcome :
      (s t : S) (p : PositionView) (price : Option ℤ) (later : S → Answer Bool × S)
      → ((t' : S) → Moves s t' → Outcome s (later t'))
      → Moves s t
      → IsHeld p
      → ((u : S) × (symbol : Text) × (oracle_symbol active p.market_id ≡ some symbol)
          × ((oracle_price net symbol u).0 ≡ answers price))
      → Outcome s (try_price net user p price later t)
  unfolding try_price
  try_price-Outcome s t p none later keeps m held read = keeps t m
  try_price-Outcome s t p (some price) later keeps m held (u, symbol, known, read) =
      elim (Bool-cases (leb_ℤ price (pos 0))) [
        | inl e ↦ rw e (keeps t m)
        | inr e ↦ rw e (
            try_fractions-Outcome s t p price _ later keeps m held
              (u, symbol, known, read, ground arith)
              (omega arith, (omega arith, (omega arith, tt))))
      ]

  after_price :
      (s t : S) (p : PositionView) (symbol : Text) (later : S → Answer Bool × S)
      (x : Answer (Option ℤ) × S)
      → oracle_price net symbol t ≡ x
      → oracle_symbol active p.market_id ≡ some symbol
      → ((t' : S) → Moves s t' → Outcome s (later t'))
      → Moves s t
      → IsHeld p
      → Outcome s (after x (λ price t'. try_price net user p price later t'))
  after_price s t p symbol later (throws, t') e known keeps m held =
      rw (sym (ap (λ x. x.1) e)) (quoted m symbol)
  after_price s t p symbol later (answers price, t') e known keeps m held =
      try_price-Outcome s t' p price later keeps (rw (sym (ap (λ x. x.1) e)) (quoted m symbol)) held
        (t, symbol, known, ap (λ x. x.0) e)

  try_position-Outcome :
      (s t : S) (p : PositionView) (symbol : Option Text) (later : S → Answer Bool × S)
      → oracle_symbol active p.market_id ≡ symbol
      → ((t' : S) → Moves s t' → Outcome s (later t'))
      → Moves s t
      → IsHeld p
      → Outcome s (try_position net user p symbol later t)
  unfolding try_position
  try_position-Outcome s t p none later known keeps m held = keeps t m
  try_position-Outcome s t p (some symbol) later known keeps m held =
      after_price s t p symbol later _ refl known keeps m held

  try_positions-Outcome :
      (s : S) (ps : List PositionView) (t : S)
      → Moves s t
      → All IsHeld ps
      → Outcome s (try_positions net active user ps t)
  unfolding try_positions
  try_positions-Outcome s [] t m h = m
  try_positions-Outcome s (p ∷ ps) t m h =
      try_position-Outcome s t p _ (try_positions net active user ps) refl
        (λ t' m'. try_positions-Outcome s ps t' m' h.1) m h.0

  All-IsHeld :
      (s : S) (all ps : List PositionView)
      → (positions_of net user s).0 ≡ answers all
      → ((p : PositionView) → Memᴰ p ps → Memᴰ p all)
      → All IsHeld ps
  All-IsHeld s all [] e f = tt
  All-IsHeld s all (p ∷ ps) e f =
      ((s, all, e, f p (Memᴰ.head refl)), All-IsHeld s all ps e (λ q i. f q (Memᴰ.tail i)))

  after_positions :
      (s : S) (x : Answer (List PositionView) × S)
      → positions_of net user s ≡ x
      → Outcome s (after x (λ ps t. try_positions net active user (rank ps) t))
  unfolding rank
  after_positions s (throws, t) e = rw (sym (ap (λ x. x.1) e)) (listed here)
  after_positions s (answers ps, t) e =
      try_positions-Outcome s (rank ps) t (rw (sym (ap (λ x. x.1) e)) (listed here))
        (sort-All IsHeld _ ps (All-IsHeld s ps ps (ap (λ x. x.0) e) (λ p i. i)))

  -- A run on an account sends only proposals to close at least 1 and at most all of a position that the
  -- account holds, at a positive price that the oracle gives for its market. It ends with the first
  -- proposal that is confirmed and then returns true, or none was confirmed and it does not.
  pub liquidate_account-Outcome : (s : S) → Outcome s (liquidate_account net active user s)
  unfolding liquidate_account
  liquidate_account-Outcome s = after_positions s _ refl
