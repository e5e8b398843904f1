-- ===== src/Matcher/Exhaust.antt =====
-- The order of the book in `matchAll` (client/scripts/matcher-service.ts), which its `break`s rest on,
-- and the pairs of orders left after all passes.
use kryon_v.Base.{◌≡◌, fun_ext, Bool, true, false, not, List, [], ◌∷◌, arith, filterb, All, All-map}
use kryon_v.Store.{Order}
use kryon_v.Matcher.{
  Pending, never, market_result, too_high, limit_result, bid_before, ask_before, bids_of, asks_of,
  no_fills, sell_pass, buy_pass, limit_pass, match_all,
}
use kryon_v.Matcher.Sort.{sort, IsSorted, sort-All_inv, sort-IsSorted}
use kryon_v.Matcher.Walk.{taken}
use kryon_v.Matcher.Passes.{Grows, settled, StopClosed, walk_all-Grows}
use kryon_v.Matcher.Settle.{AllSettled, AllSettled-Grows, walk_all-AllSettled}
use kryon_v.Matcher.Book.{limit_pass-taken}

ask_before_total : (a b : Order) → ask_before a b ≡ false → ask_before b a ≡ true
ask_before_total a b h = ground arith

ask_before_trans :
    (a b c : Order) → ask_before a b ≡ true → ask_before b c ≡ true → ask_before a c ≡ true
ask_before_trans a b c h k = ground arith

bid_before_total : (a b : Order) → bid_before a b ≡ false → bid_before b a ≡ true
bid_before_total a b h = ground arith

bid_before_trans :
    (a b c : Order) → bid_before a b ≡ true → bid_before b c ≡ true → bid_before a c ≡ true
bid_before_trans a b c h k = ground arith

-- Both resting sides are in price-time order: the best price first, and at one price the oldest.
pub book-IsSorted :
    (limits : List Order)
    → IsSorted bid_before (bids_of limits) × IsSorted ask_before (asks_of limits)
book-IsSorted limits = (
  sort-IsSorted bid_before bid_before_total bid_before_trans (filterb (λ o. o.is_long) limits),
  sort-IsSorted ask_before ask_before_total ask_before_trans (filterb (λ o. not o.is_long) limits),
)

-- Behind an ask that is too high for a bid all asks are.
sorted-StopClosed :
    (bid : Order) (asks : List Order) → IsSorted ask_before asks → StopClosed too_high bid asks
sorted-StopClosed bid [] h = tt
sorted-StopClosed bid (a ∷ asks) (h, hs) = (
  λ e.
      All-map (λ s. ask_before a s ≡ true) (λ s. too_high bid s ≡ true) (λ s k. ground arith) asks
        h,
  sorted-StopClosed bid asks hs,
)

never-StopClosed : (o : Order) (rs : List Order) → StopClosed never o rs
never-StopClosed o [] = tt
never-StopClosed o (r ∷ rs) = (λ e. cc, never-StopClosed o rs)

All-of_All {ℓ κ} : {A : Type ℓ} (P : A → Type κ) → ((a : A) → P a) → (xs : List A) → All P xs
All-of_All P f [] = tt
All-of_All P f (x ∷ xs) = (f x, All-of_All P f xs)

module _ (limits markets : List Order) where
  abbrev sells : List Order
  sells = filterb (λ o. not o.is_long) markets

  abbrev buys : List Order
  buys = filterb (λ o. o.is_long) markets

  sell_pass-AllSettled : AllSettled never (sell_pass limits markets).0 sells (bids_of limits)
  unfolding sell_pass
  sell_pass-AllSettled =
      walk_all-AllSettled never market_result no_fills sells (bids_of limits)
        (All-of_All _ (λ o. never-StopClosed o (bids_of limits)) sells)

  buy_pass-AllSettled : AllSettled never (buy_pass limits markets).0 buys (asks_of limits)
  unfolding buy_pass
  buy_pass-AllSettled =
      walk_all-AllSettled never market_result (sell_pass limits markets).0 buys (asks_of limits)
        (All-of_All _ (λ o. never-StopClosed o (asks_of limits)) buys)

  limit_pass-AllSettled :
      AllSettled too_high (limit_pass limits markets).0 (bids_of limits) (asks_of limits)
  unfolding limit_pass
  limit_pass-AllSettled =
      walk_all-AllSettled too_high limit_result (buy_pass limits markets).0 (bids_of limits)
        (asks_of limits)
        (All-of_All _ (λ o. sorted-StopClosed o (asks_of limits) (book-IsSorted limits).1)
          (bids_of limits))

  buy_pass-Grows : Grows (sell_pass limits markets).0 (buy_pass limits markets).0
  unfolding buy_pass
  buy_pass-Grows =
      walk_all-Grows never market_result (sell_pass limits markets).0 buys (asks_of limits)

  limit_pass-Grows : Grows (buy_pass limits markets).0 (limit_pass limits markets).0
  unfolding limit_pass
  limit_pass-Grows =
      walk_all-Grows too_high limit_result (buy_pass limits markets).0 (bids_of limits)
        (asks_of limits)

  final : (limit_pass limits markets).0 ≡ (λ k. taken k (match_all limits markets))
  final = fun_ext (limit_pass-taken limits markets)

-- The unsorted sides of the book.
abbrev pub bids : List Order → List Order
bids = filterb (λ o. o.is_long)

abbrev pub asks : List Order → List Order
asks = filterb (λ o. not o.is_long)

unsorted :
    (stop : Order → Order → Bool) (p : Pending) (before : Order → Order → Bool) (os rs : List Order)
    → AllSettled stop p os (sort before rs)
    → AllSettled stop p os rs
unsorted stop p before os rs =
    All-map (λ o. All (λ r. settled stop p o r ≡ true) (sort before rs))
      (λ o. All (λ r. settled stop p o r ≡ true) rs)
      (λ o. sort-All_inv (λ r. settled stop p o r ≡ true) before rs) os

-- Nothing that could trade is left: once the fills of the matches are taken off, every bid and ask have
-- one owner, or the ask is above the bid, or one of them is filled; and every market order is filled, or
-- each resting order of the other side and of another owner is.
pub match_all_exhausts :
    (limits markets : List Order)
    → let took : Pending = λ k. taken k (match_all limits markets) in
      AllSettled too_high took (bids limits) (asks limits)
      × AllSettled never took (asks markets) (bids limits)
      × AllSettled never took (bids markets) (asks limits)
match_all_exhausts limits markets =
    let p1 = (sell_pass limits markets).0 in
    let p2 = (buy_pass limits markets).0 in
    let p3 = (limit_pass limits markets).0 in
    let g2 = buy_pass-Grows limits markets in
    let g3 = limit_pass-Grows limits markets in
    rw (← final limits markets) (
      sort-All_inv _ bid_before (bids limits) (
          unsorted too_high p3 ask_before (bids_of limits) (asks limits)
            (limit_pass-AllSettled limits markets)),
      unsorted never p3 bid_before (asks markets) (bids limits) (
          AllSettled-Grows never p2 p3 _ _ g3
            (AllSettled-Grows never p1 p2 _ _ g2 (sell_pass-AllSettled limits markets))),
      unsorted never p3 ask_before (bids markets) (asks limits)
          (AllSettled-Grows never p2 p3 _ _ g3 (buy_pass-AllSettled limits markets)),
    )
