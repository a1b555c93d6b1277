-- ===== src/Estimation/Bands.antt =====
-- The ranges of an estimate: low ≤ base ≤ high, and guidance is never left out of them.
use nse_agent.Common.{
  ◌≡◌, ◌⊎◌, inl, inr, refl, true, Option, none, some, ℤ, pos, ◌+ℤ◌, ◌-ℤ◌, ◌≤ℤ◌, min_ℤ, max_ℤ,
  is_some, arith, int_laws,
}
use nse_agent.Common.Decimals.{Context}
use nse_agent.Estimation.Types.{MetricEstimate, no_estimate}
use nse_agent.Estimation.Deterministic.{
  clamp_nonneg, percent, half, grown, blend, guided, guide_revenue,
}

-- What rounding keeps of the order: products with a factor that is not negative and percentages
-- are monotone, and half a sum lies between the summands.
pub record IsMonotone (ctx : Context) : Type 0 where
  pub product_mono : (a b c : ℤ) → pos 0 ≤ℤ a → b ≤ℤ c → ctx.product a b ≤ℤ ctx.product a c
  pub percent_mono : (a b : ℤ) → a ≤ℤ b → percent ctx a ≤ℤ percent ctx b
  pub half_low : (a b : ℤ) → min_ℤ a b ≤ℤ half ctx (a +ℤ b)
  pub half_high : (a b : ℤ) → half ctx (a +ℤ b) ≤ℤ max_ℤ a b

abbrev pub range : ℤ → ℤ → ℤ → MetricEstimate
range low base high = record { low = some low; base = some base; high = some high }

-- No estimate at all, or an ordered range.
unfoldable pub IsBand : MetricEstimate → Type 0
IsBand e =
    (e ≡ no_estimate)
    ⊎ ((low : ℤ) × (base : ℤ) × (high : ℤ) × (e ≡ range low base high)
        × (low ≤ℤ base)
        × (base ≤ℤ high))

abbrev pub AtMost : Option ℤ → ℤ → Type 0
AtMost none v = Unit
AtMost (some low) v = low ≤ℤ v

abbrev pub AtLeast : Option ℤ → ℤ → Type 0
AtLeast none v = Unit
AtLeast (some high) v = v ≤ℤ high

-- The range takes in a guided range around an anchor, if there are both.
unfoldable pub Covers : Context → Option (ℤ × ℤ) → Option ℤ → MetricEstimate → Type 0
Covers ctx (some (low, high)) (some anchor) e =
    (is_some e.low ≡ true)
    × (is_some e.high ≡ true)
    × AtMost e.low (guided ctx anchor low)
    × AtLeast e.high (guided ctx anchor high)
Covers ctx _ _ e = Unit

abbrev pub IsRange : Option (ℤ × ℤ) → Type 0
IsRange none = Unit
IsRange (some (low, high)) = low ≤ℤ high

abbrev pub IsNonneg : Option ℤ → Type 0
IsNonneg none = Unit
IsNonneg (some v) = pos 0 ≤ℤ v

clamp_mono : (a b : ℤ) → a ≤ℤ b → clamp_nonneg a ≤ℤ clamp_nonneg b
clamp_mono a b h = ground arith

min_below : (l b gl g x : ℤ) → l ≤ℤ b → gl ≤ℤ g → min_ℤ b g ≤ℤ x → min_ℤ l gl ≤ℤ x
min_below l b gl g x p q r = ground arith

max_above : (h b gh g x : ℤ) → b ≤ℤ h → g ≤ℤ gh → x ≤ℤ max_ℤ b g → x ≤ℤ max_ℤ h gh
max_above h b gh g x p q r = ground arith

min_right : (a b : ℤ) → min_ℤ a b ≤ℤ b
min_right a b = ground arith

max_right : (a b : ℤ) → b ≤ℤ max_ℤ a b
max_right a b = ground arith

ordered_min : (a b x : ℤ) → a ≤ℤ b → min_ℤ a b ≤ℤ x → a ≤ℤ x
ordered_min a b x h k = ground arith

ordered_max : (a b x : ℤ) → a ≤ℤ b → x ≤ℤ max_ℤ a b → x ≤ℤ b
ordered_max a b x h k = ground arith

minus_le : (a s : ℤ) → pos 0 ≤ℤ s → (a -ℤ s) ≤ℤ a
minus_le a s h = omega int_laws

plus_le : (a s : ℤ) → pos 0 ≤ℤ s → a ≤ℤ (a +ℤ s)
plus_le a s h = omega int_laws

shift_le : (a b c : ℤ) → b ≤ℤ c → (a +ℤ b) ≤ℤ (a +ℤ c)
shift_le a b c h = omega int_laws

module _ (ctx : Context) (M : IsMonotone ctx) where
  pub grown-IsBand :
      (anchor growth spread : ℤ)
      → pos 0 ≤ℤ anchor
      → pos 0 ≤ℤ spread
      → IsBand (grown ctx anchor growth spread)
  unfolding grown IsBand
  grown-IsBand anchor growth spread h s =
      let rate = ctx.one +ℤ growth in
      let below : ctx.product anchor (rate -ℤ spread) ≤ℤ ctx.product anchor rate =
        M.product_mono anchor (rate -ℤ spread) rate h (minus_le rate spread s) in
      let above : ctx.product anchor rate ≤ℤ ctx.product anchor (rate +ℤ spread) =
        M.product_mono anchor rate (rate +ℤ spread) h (plus_le rate spread s) in
      inr (
        clamp_nonneg (ctx.product anchor (rate -ℤ spread)),
        clamp_nonneg (ctx.product anchor rate),
        clamp_nonneg (ctx.product anchor (rate +ℤ spread)),
        refl,
        clamp_mono (ctx.product anchor (rate -ℤ spread)) (ctx.product anchor rate) below,
        clamp_mono (ctx.product anchor rate) (ctx.product anchor (rate +ℤ spread)) above,
      )

  blend-IsBand : (gl gh : ℤ) (e : MetricEstimate) → gl ≤ℤ gh → IsBand e → IsBand (blend ctx gl gh e)
  unfolding blend IsBand
  blend-IsBand gl gh e g (inl none_at_all) =
      let middle = half ctx (gl +ℤ gh) in
      rw none_at_all (
        inr (
          gl,
          middle,
          gh,
          refl,
          ordered_min gl gh middle g (M.half_low gl gh),
          ordered_max gl gh middle g (M.half_high gl gh),
        ))
  blend-IsBand gl gh e g (inr (l, b, h, is_range, lb, bh)) =
      let middle = half ctx (gl +ℤ gh) in
      let low_middle : gl ≤ℤ middle = ordered_min gl gh middle g (M.half_low gl gh) in
      let high_middle : middle ≤ℤ gh = ordered_max gl gh middle g (M.half_high gl gh) in
      rw is_range (
        inr (
          min_ℤ l gl,
          half ctx (b +ℤ middle),
          max_ℤ h gh,
          refl,
          min_below l b gl middle (half ctx (b +ℤ middle)) lb low_middle (M.half_low b middle),
          max_above h b gh middle (half ctx (b +ℤ middle)) bh high_middle (M.half_high b middle),
        ))

  percent-guided :
      (anchor low high : ℤ)
      → pos 0 ≤ℤ anchor
      → low ≤ℤ high
      → guided ctx anchor low ≤ℤ guided ctx anchor high
  percent-guided anchor low high a h =
      let rates : (ctx.one +ℤ percent ctx low) ≤ℤ (ctx.one +ℤ percent ctx high) =
        shift_le ctx.one (percent ctx low) (percent ctx high) (M.percent_mono low high h) in
      clamp_mono (ctx.product anchor (ctx.one +ℤ percent ctx low))
        (ctx.product anchor (ctx.one +ℤ percent ctx high))
        (M.product_mono anchor (ctx.one +ℤ percent ctx low) (ctx.one +ℤ percent ctx high) a rates)

  pub guide_revenue-IsBand :
      (guidance : Option (ℤ × ℤ)) (anchor : Option ℤ) (e : MetricEstimate)
      → IsRange guidance
      → IsNonneg anchor
      → IsBand e
      → IsBand (guide_revenue ctx guidance anchor e).0
  unfolding guide_revenue
  guide_revenue-IsBand none anchor e r n b = b
  guide_revenue-IsBand (some (low, high)) none e r n b = b
  guide_revenue-IsBand (some (low, high)) (some anchor) e r n b =
      blend-IsBand (guided ctx anchor low) (guided ctx anchor high) e
        (percent-guided anchor low high n r) b

widened_low : (o : Option ℤ) (gl : ℤ) → (elim o [ none ↦ gl | some low ↦ min_ℤ low gl ]) ≤ℤ gl
widened_low none gl = omega arith
widened_low (some low) gl = min_right low gl

widened_high : (o : Option ℤ) (gh : ℤ) → gh ≤ℤ (elim o [ none ↦ gh | some high ↦ max_ℤ high gh ])
widened_high none gh = omega arith
widened_high (some high) gh = max_right high gh

pub guide_revenue-Covers :
    (ctx : Context) (guidance : Option (ℤ × ℤ)) (anchor : Option ℤ) (e : MetricEstimate)
    → Covers ctx guidance anchor (guide_revenue ctx guidance anchor e).0
unfolding guide_revenue Covers blend
guide_revenue-Covers ctx none anchor e = tt
guide_revenue-Covers ctx (some (low, high)) none e = tt
guide_revenue-Covers ctx (some (low, high)) (some anchor) e = (
  refl,
  refl,
  widened_low e.low (guided ctx anchor low),
  widened_high e.high (guided ctx anchor high),
)
