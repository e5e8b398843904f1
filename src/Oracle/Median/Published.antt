-- ===== src/Oracle/Median/Published.antt =====
-- The prices that `publishMarket` of client/scripts/oracle-keeper.ts records, against venues that are
-- wrong.
use kryon_v.Base.{
  ℕ, ◌*◌, ◌≤◌, ◌<◌, ◌≡◌, ◌⊎◌, refl, Option, some, List, length, countb, Text, inl, inr,
}
use kryon_v.Config.{MarketConfig}
use kryon_v.Oracle.{LastPublished, World, publish_aggregate, publish_market}
use kryon_v.Oracle.Safety.{published_as}
use kryon_v.Oracle.Median.{
  Double, IsDouble, scaled, fulfilled, Aggregation, too_few, too_far, throws, agreed,
  aggregate_price, to_option,
}
use kryon_v.Oracle.Median.Robust.{inside, aggregate_price_majority}

module _ {D : Type 0} ⦃d : Double D⦄ ⦃laws : IsDouble D⦄ (w : World) (min_sources : ℕ) (limit : D)
    (answers : List (Option D)) (lo hi : D) (l h : ℕ) (asset : Text) (last : LastPublished) where
  -- What is recorded for the asset is what was recorded, or a new price between the bounds.
  abbrev pub IsVouched : LastPublished → Type 0
  IsVouched after =
      (after asset ≡ last asset)
      ⊎ ((price : ℕ) × (after asset ≡ some (record { price = price; ts = w.done_ms }))
          × (l ≤ price)
          × (price ≤ h))

  publish_aggregate-IsVouched :
      (a : Aggregation)
      → scaled lo ≡ some l
      → scaled hi ≡ some h
      → length (fulfilled answers) < 2 * countb (inside lo hi) (fulfilled answers)
      → aggregate_price min_sources limit answers ≡ a
      → IsVouched (publish_aggregate w asset (to_option a) last)
  publish_aggregate-IsVouched too_few el eh most e = inl refl
  publish_aggregate-IsVouched too_far el eh most e = inl refl
  publish_aggregate-IsVouched throws el eh most e = inl refl
  publish_aggregate-IsVouched (agreed a n) el eh most e =
      let (low, high) =
        aggregate_price_majority min_sources limit answers lo hi l h a n el eh most e in
      elim (published_as w asset a.price w.publish_deviation_bps w.publish_heartbeat_secs last) [
        | inl same ↦ inl same
        | inr new ↦ inr (a.price, new, low, high)
      ]

-- Where more than half of the venues that answer for a market give a price between two bounds, a run
-- records for it what was recorded before, or a price between the same bounds, scaled.
pub publish_market-IsVouched :
    {D : Type 0} ⦃d : Double D⦄ ⦃laws : IsDouble D⦄ (w : World) (market : MarketConfig)
    (last : LastPublished) (min_sources : ℕ) (limit : D) (answers : List (Option D)) (lo hi : D)
    (l h : ℕ)
    → w.aggregate market.oracle_symbol ≡ to_option (aggregate_price min_sources limit answers)
    → scaled lo ≡ some l
    → scaled hi ≡ some h
    → length (fulfilled answers) < 2 * countb (inside lo hi) (fulfilled answers)
    → IsVouched w min_sources limit answers lo hi l h market.oracle_symbol last
        (publish_market w market last)
unfolding publish_market
publish_market-IsVouched w market last min_sources limit answers lo hi l h e el eh most = rw e (
    publish_aggregate-IsVouched w min_sources limit answers lo hi l h market.oracle_symbol last
      (aggregate_price min_sources limit answers) el eh most refl)
