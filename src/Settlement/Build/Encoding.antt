-- ===== src/Settlement/Build/Encoding.antt =====
-- The maps that client/lib/stellar/settlement.ts builds for the contract.
use kryon_v.Base.{◌≡◌, arith}
use kryon_v.Store.{Order}
use kryon_v.Matcher.{MatchResult}
use kryon_v.Settlement.Build.{order_to_sc_val, matched_fill_to_sc_val}

-- Two orders agree on what the contract reads.
abbrev pub SameTerms : Order → Order → Type 0
SameTerms a b =
    (a.owner ≡ b.owner)
    × (a.market_id ≡ b.market_id)
    × (a.is_long ≡ b.is_long)
    × (a.size ≡ b.size)
    × (a.limit_price ≡ b.limit_price)
    × (a.reduce_only ≡ b.reduce_only)
    × (a.nonce ≡ b.nonce)
    × (a.expiry_ts ≡ b.expiry_ts)

-- Orders with the same map have the same terms.
pub order_to_sc_val-injective :
    (a b : Order) → order_to_sc_val a ≡ order_to_sc_val b → SameTerms a b
unfolding order_to_sc_val
order_to_sc_val-injective a b h = ground arith

-- Matches with the same map agree on the price, the size and the terms of both orders.
pub matched_fill_to_sc_val-injective :
    (m n : MatchResult)
    → matched_fill_to_sc_val m ≡ matched_fill_to_sc_val n
    → (m.fill_price ≡ n.fill_price)
      × (m.fill_size ≡ n.fill_size)
      × SameTerms m.maker n.maker
      × SameTerms m.taker n.taker
unfolding matched_fill_to_sc_val
matched_fill_to_sc_val-injective m n h =
    let maker : order_to_sc_val m.maker ≡ order_to_sc_val n.maker = ground arith in
    let taker : order_to_sc_val m.taker ≡ order_to_sc_val n.taker = ground arith in
    (
      ground arith,
      ground arith,
      order_to_sc_val-injective m.maker n.maker maker,
      order_to_sc_val-injective m.taker n.taker taker,
    )
