-- ===== src/Oracle/Safety.antt =====
-- What the oracle keeper (client/scripts/oracle-keeper.ts) records as published.
use kryon_v.Base.{
  ℕ, ◌*◌, ◌/◌, ◌≤◌, ◌≡◌, ◌⊎◌, refl, false, ◌&&◌, Option, some, Text, text_eq_refl, Bool-cases,
  Option-cases, inl, inr, arith,
}
use kryon_v.Config.{price_precision}
use kryon_v.Oracle.{
  AggregatedPrice, LastPublished, World, distance, should_publish, write_price, set_published,
  publish, usdc, usdc_price, publish_usdc,
}

module _ (w : World) where
  -- Near the peg by the keeper's measure, or the peg itself away from mainnet.
  abbrev pub IsPegged : ℕ → Type 0
  IsPegged price =
      (distance price price_precision * 10000 / price_precision ≤ w.usdc_depeg_halt_bps)
      ⊎ ((w.mainnet ≡ false) × (price ≡ price_precision))

  usdc_price-IsPegged :
      (o : Option AggregatedPrice) (price : ℕ) → usdc_price w o ≡ some price → IsPegged price
  unfolding usdc_price
  usdc_price-IsPegged o price h = ground arith

  pub published_as :
      (asset : Text) (price dev beat : ℕ) (last : LastPublished)
      → (publish w asset price dev beat last asset ≡ last asset)
        ⊎ (publish w asset price dev beat last asset
            ≡ some (record { price = price; ts = w.done_ms }))
  unfolding publish set_published
  published_as asset price dev beat last =
      elim (Bool-cases
        (should_publish last w.now_ms asset price dev beat && write_price (w.write asset))) [
          | inl e ↦ inr (rw (e, text_eq_refl asset) refl)
          | inr e ↦ inl (rw e refl)
        ]

  -- What a tick records as the price of USDC is what was recorded before, or a price within the depeg
  -- limit, or away from mainnet the peg.
  pub publish_usdc-IsPegged :
      (last : LastPublished)
      → (publish_usdc w last (usdc w) ≡ last (usdc w))
        ⊎ ((price : ℕ) × (publish_usdc w last (usdc w)
              ≡ some (record { price = price; ts = w.done_ms }))
            × IsPegged price)
  unfolding publish_usdc
  publish_usdc-IsPegged last = elim (Option-cases (usdc_price w (w.aggregate (usdc w)))) [
    | inl e ↦ inl (rw e refl)
    | inr (price, e) ↦
        elim (published_as (usdc w) price w.usdc_publish_deviation_bps w.usdc_publish_heartbeat_secs
          last) [
            | inl same ↦ inl (rw e same)
            | inr new ↦ inr (price, rw e new, usdc_price-IsPegged (w.aggregate (usdc w)) price e)
          ]
  ]
