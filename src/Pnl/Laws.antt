-- ===== src/Pnl/Laws.antt =====
-- Signs and bounds of the position arithmetic of client/lib/math.ts.
use kryon_v.Base.{
  ℕ, ◌*◌, ◌/◌, ◌≤◌, ◌<◌, ◌≡◌, refl, sym, ap, ◌∙◌, true, false, arith, ℤ, pos, negsuc, pos_part,
  neg_part, ◌+ℤ◌, ◌-ℤ◌, ◌*ℤ◌, ◌/ℤ◌, ◌≤ℤ◌, int_laws, pos-*ℤ_parts, /ℤ_parts, eq_of_parts,
}
use kryon_v.Pnl.{calc_unrealized_pnl, calc_liq_price, scale}
use kryon_v.Config.{price_precision}

sub_swap :
    (a b : ℤ) → (pos_part (a -ℤ b) ≡ neg_part (b -ℤ a)) × (neg_part (a -ℤ b) ≡ pos_part (b -ℤ a))
unfolding ◌-ℤ◌
sub_swap a b = ground arith

sub_nonneg : (a b : ℤ) → b ≤ℤ a → neg_part (a -ℤ b) ≡ 0
unfolding ◌-ℤ◌
sub_nonneg a b h = ground arith

zero_plus_zero : pos 0 +ℤ pos 0 ≡ pos 0
unfolding ◌+ℤ◌
zero_plus_zero = refl

-- A gain and the loss that mirrors it cancel, since division truncates towards zero.
pub mirror_cancel :
    (n : ℕ) (a b : ℤ) (d : ℕ) → (pos n *ℤ (a -ℤ b)) /ℤ d +ℤ (pos n *ℤ (b -ℤ a)) /ℤ d ≡ pos 0
mirror_cancel n a b d =
    let (p, q) = /ℤ_parts (pos n *ℤ (a -ℤ b)) d in
    let (p', q') = /ℤ_parts (pos n *ℤ (b -ℤ a)) d in
    let (r, t) = pos-*ℤ_parts n (a -ℤ b) in
    let (r', t') = pos-*ℤ_parts n (b -ℤ a) in
    let (u, v) = sub_swap a b in
    eq_of_parts _ _ (
      omega (
        int_laws,
        p ∙ ap (λ x. x / d) (r ∙ ap (λ x. n * x) u ∙ sym t') ∙ sym q',
        q ∙ ap (λ x. x / d) (t ∙ ap (λ x. n * x) v ∙ sym r') ∙ sym p',
      ))

pub scaled_nonneg : (n : ℕ) (a b : ℤ) (d : ℕ) → b ≤ℤ a → pos 0 ≤ℤ (pos n *ℤ (a -ℤ b)) /ℤ d
scaled_nonneg n a b d h =
    let (p, q) = /ℤ_parts (pos n *ℤ (a -ℤ b)) d in
    let (r, t) = pos-*ℤ_parts n (a -ℤ b) in
    let e = q ∙ ap (λ x. x / d) (t ∙ ap (λ x. n * x) (sub_nonneg a b h)) in rw e (omega arith)

-- The two sides of one position at one mark price cancel: what a long gains a short loses, to the
-- unit, whatever the inputs.
pub calc_unrealized_pnl_antisymmetric :
    (size entry mark : ℤ)
    → calc_unrealized_pnl true size entry mark +ℤ calc_unrealized_pnl false size entry mark ≡ pos 0
unfolding calc_unrealized_pnl
calc_unrealized_pnl_antisymmetric (pos n) entry mark =
    ground (arith, zero_plus_zero, mirror_cancel n mark entry price_precision)
calc_unrealized_pnl_antisymmetric (negsuc n) entry mark = ground (arith, zero_plus_zero)

-- A position never shows a loss when the mark has moved its way: a long at or above its entry
-- price, a short at or below it.
pub calc_unrealized_pnl_sign :
    (size entry mark : ℤ)
    → (entry ≤ℤ mark → pos 0 ≤ℤ calc_unrealized_pnl true size entry mark)
      × (mark ≤ℤ entry → pos 0 ≤ℤ calc_unrealized_pnl false size entry mark)
unfolding calc_unrealized_pnl
calc_unrealized_pnl_sign (pos n) entry mark = (
  λ h. ground (arith, scaled_nonneg n mark entry price_precision h),
  λ h. ground (arith, scaled_nonneg n entry mark price_precision h),
)
calc_unrealized_pnl_sign (negsuc n) entry mark = (λ h. ground arith, λ h. ground arith)

scaled_le : (n f : ℕ) → f ≤ scale → n * f / scale ≤ n
scaled_le n f h = grind arith

scaled_ge : (n f : ℕ) → scale ≤ f → n ≤ n * f / scale
scaled_ge n f h = grind arith

scaled_down : (n : ℕ) (f : ℤ) → pos_part f ≤ scale → (pos n *ℤ f) /ℤ scale ≤ℤ pos n
scaled_down n f h =
    let (p, _) = /ℤ_parts (pos n *ℤ f) scale in
    let (r, _) = pos-*ℤ_parts n f in
    let e = p ∙ ap (λ x. x / scale) r in omega (arith, e, scaled_le n (pos_part f) h)

scaled_up :
    (n : ℕ) (f : ℤ) → (scale ≤ pos_part f) × (neg_part f ≡ 0) → pos n ≤ℤ (pos n *ℤ f) /ℤ scale
scaled_up n f (h, z) =
    let (p, q) = /ℤ_parts (pos n *ℤ f) scale in
    let (r, t) = pos-*ℤ_parts n f in
    let e = p ∙ ap (λ x. x / scale) r in
    let e' = q ∙ ap (λ x. x / scale) (t ∙ ap (λ x. n * x) z) in
    omega (arith, e, e', scaled_ge n (pos_part f) h)

long_factor_le : (i m : ℕ) → m ≤ i → pos_part (pos scale -ℤ pos i +ℤ pos m) ≤ scale
unfolding ◌+ℤ◌ ◌-ℤ◌
long_factor_le i m h = ground arith

short_factor_ge :
    (i m : ℕ)
    → m ≤ i
    → (scale ≤ pos_part (pos scale +ℤ pos i -ℤ pos m))
      × (neg_part (pos scale +ℤ pos i -ℤ pos m) ≡ 0)
unfolding ◌+ℤ◌ ◌-ℤ◌
short_factor_ge i m h = ground arith

-- Where the maintenance rate is at most the initial margin 1/leverage, the liquidation price of a
-- long is at most its entry price, and that of a short at least its entry price.
pub calc_liq_price_sides :
    (entry leverage mm_bps : ℕ)
    → 0 < leverage
    → mm_bps * 100 ≤ scale * scale / leverage
    → (calc_liq_price true (pos entry) leverage mm_bps ≤ℤ pos entry)
      × (pos entry ≤ℤ calc_liq_price false (pos entry) leverage mm_bps)
unfolding calc_liq_price
calc_liq_price_sides entry leverage mm_bps hl h =
    let inverse = scale * scale / leverage in
    let mm_rate = mm_bps * 100 in
    let long_factor = pos scale -ℤ pos inverse +ℤ pos mm_rate in
    let short_factor = pos scale +ℤ pos inverse -ℤ pos mm_rate in
    (
      ground (arith, scaled_down entry long_factor (long_factor_le inverse mm_rate h)),
      ground (arith, scaled_up entry short_factor (short_factor_ge inverse mm_rate h)),
    )
