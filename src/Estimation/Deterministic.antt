-- ===== src/Estimation/Deterministic.antt =====
-- Growth and margins in investing_agent/services/estimation/deterministic.py, over the points of
-- investing_agent/schemas/estimation.py. The median and the standard deviation of the statistics
-- library are arguments.
use nse_agent.Common.{
  ℕ, suc, Bool, true, false, not, ◌&&◌, Option, none, some, List, [], ◌∷◌, ◌++◌, map, length, ℤ,
  pos, ◌+ℤ◌, ◌-ℤ◌, ◌*ℤ◌, min_ℤ, max_ℤ, eqb_ℤ, if◌then◌else◌, ◌==◌, leb, ltb, is_some,
}
use nse_agent.Common.Sorting.{sort_by}
use nse_agent.Common.Decimals.{Context}
use nse_agent.WalkForward.Aggregation.{group_by}
use nse_agent.Estimation.Types.{
  HistoricalFinancialPoint, GuidanceType, GuidancePoint, FeatureSnapshot, MetricEstimate,
  no_estimate, GrowthMethod, Assumption,
}

abbrev pub clamp_nonneg : ℤ → ℤ
clamp_nonneg value = max_ℤ (pos 0) value

abbrev pub same_guidance : GuidanceType → GuidanceType → Bool
same_guidance GuidanceType.revenue_guidance GuidanceType.revenue_guidance = true
same_guidance GuidanceType.margin_guidance GuidanceType.margin_guidance = true
same_guidance (GuidanceType.other_guidance a) (GuidanceType.other_guidance b) = a == b
same_guidance _ _ = false

-- `_find_guidance`: the bounds of the first point with both.
unfoldable pub find_guidance : List GuidancePoint → GuidanceType → ℕ → Option (ℤ × ℤ)
find_guidance [] guidance_type fiscal_year = none
find_guidance (g ∷ gs) guidance_type fiscal_year =
    let rest = find_guidance gs guidance_type fiscal_year in
    if same_guidance g.guidance_type guidance_type && g.fiscal_year == fiscal_year
    then elim g.guidance_low [
      | none ↦ rest
      | some low ↦ elim g.guidance_high [ none ↦ rest | some high ↦ some (low, high) ]
    ]
    else rest

abbrev pub same_quarter : Option ℕ → Option ℕ → Bool
same_quarter none none = true
same_quarter (some a) (some b) = a == b
same_quarter _ _ = false

-- `zip(xs, xs[1:])`
unfoldable pub consecutive {ℓ} : {A : Type ℓ} → List A → List (A × A)
consecutive [] = []
consecutive (x ∷ []) = []
consecutive (x ∷ y ∷ xs) = (x, y) ∷ consecutive (y ∷ xs)

-- `next((p for p in reversed(points) if test(p)), None)`
unfoldable pub last_where {ℓ} : {A : Type ℓ} → (A → Bool) → List A → Option A
last_where test [] = none
last_where test (x ∷ xs) = elim (last_where test xs) [
  | some y ↦ some y
  | none ↦ if test x then some x else none
]

-- The anchor of the guidance: that of the method, or the first that there is.
abbrev pub blend_anchor : Option (GrowthMethod × ℤ × List ℤ) → Option ℤ → Option ℤ → Option ℤ
blend_anchor (some (_, anchor, _)) same_quarter_anchor most_recent = some anchor
blend_anchor none (some anchor) most_recent = some anchor
blend_anchor none none most_recent = most_recent

abbrev pub revenue_of : Option HistoricalFinancialPoint → Option ℤ
revenue_of none = none
revenue_of (some p) = p.revenue

-- The revenue of the same quarter a year before the target.
abbrev pub anchor_in : FeatureSnapshot → List HistoricalFinancialPoint → Option ℤ
anchor_in snapshot history = revenue_of (
    last_where
      (λ p.
        suc p.fiscal_year == snapshot.target_fiscal_year
        && same_quarter p.quarter snapshot.target_quarter
        && is_some p.revenue)
      history)

-- The most recent revenue.
abbrev pub recent_in : List HistoricalFinancialPoint → Option ℤ
recent_in history = revenue_of (last_where (λ p. is_some p.revenue) history)

abbrev pub collect : List (Option ℤ) → List ℤ
collect [] = []
collect (none ∷ vs) = collect vs
collect (some v ∷ vs) = v ∷ collect vs

-- `growth_stdev`
abbrev pub spread_of : (List ℤ → ℤ) → List ℤ → ℤ
spread_of stdev samples = if ltb 1 (length samples) then stdev samples else pos 0

-- The trailing distribution in `_estimate_margin`.
unfoldable pub trailing : (List ℤ → ℤ) → (List ℤ → ℤ) → List ℤ → MetricEstimate × Assumption
trailing median stdev values =
    if leb 2 (length values)
    then (
      record {
        low = some (median values -ℤ stdev values);
        base = some (median values);
        high = some (median values +ℤ stdev values);
      },
      Assumption.margin_median (median values) (length values),
    )
    else (no_estimate, Assumption.margin_insufficient)

module _ (ctx : Context) where
  abbrev pub percent : ℤ → ℤ
  percent x = ctx.quotient x (pos 100 *ℤ ctx.one)

  abbrev pub half : ℤ → ℤ
  half x = ctx.quotient x (pos 2 *ℤ ctx.one)

  -- A sample for a pair of points, if the first value is given and not zero.
  abbrev pub growth_of : Option ℤ → Option ℤ → List ℤ
  growth_of (some a) (some b) = if eqb_ℤ a (pos 0) then [] else ctx.quotient (b -ℤ a) a ∷ []
  growth_of _ _ = []

  unfoldable pub pair_samples :
      (HistoricalFinancialPoint → Option ℤ)
      → Bool
      → List (HistoricalFinancialPoint × HistoricalFinancialPoint)
      → List ℤ
  pair_samples value_of next_year [] = []
  pair_samples value_of next_year ((a, b) ∷ pairs) =
      let rest = pair_samples value_of next_year pairs in
      if next_year && not (b.fiscal_year == suc a.fiscal_year)
      then rest
      else growth_of (value_of a) (value_of b) ++ rest

  unfoldable pub quarter_samples :
      (HistoricalFinancialPoint → Option ℤ)
      → List (Option ℕ × List HistoricalFinancialPoint)
      → List ℤ
  quarter_samples value_of [] = []
  quarter_samples value_of ((_, points) ∷ quarters) =
      pair_samples value_of true
        (consecutive (sort_by (λ p q. leb p.fiscal_year q.fiscal_year) points))
      ++ quarter_samples value_of quarters

  -- `_growth_samples`
  unfoldable pub growth_samples :
      List HistoricalFinancialPoint → (HistoricalFinancialPoint → Option ℤ) → Bool → List ℤ
  growth_samples history value_of true =
      quarter_samples value_of (group_by same_quarter history (λ p. p.quarter))
  growth_samples history value_of false = pair_samples value_of false (consecutive history)

  -- The fallback to the growth from quarter to quarter.
  unfoldable pub qoq_basis :
      List HistoricalFinancialPoint → Option ℤ → Option (GrowthMethod × ℤ × List ℤ)
  qoq_basis history none = none
  qoq_basis history (some anchor) =
      let samples = growth_samples history (λ p. p.revenue) false in
      if leb 2 (length samples) then some (GrowthMethod.qoq, anchor, samples) else none

  -- The choice of a method, an anchor and samples in `_estimate_revenue`.
  unfoldable pub growth_basis :
      List HistoricalFinancialPoint → Option ℤ → Option ℤ → Option (GrowthMethod × ℤ × List ℤ)
  growth_basis history none most_recent = qoq_basis history most_recent
  growth_basis history (some anchor) most_recent =
      let samples = growth_samples history (λ p. p.revenue) true in
      if leb 2 (length samples)
      then some (GrowthMethod.yoy, anchor, samples)
      else qoq_basis history most_recent

  -- The range that growth gives around the anchor.
  unfoldable pub grown : ℤ → ℤ → ℤ → MetricEstimate
  grown anchor growth spread = record {
    low = some (clamp_nonneg (ctx.product anchor (ctx.one +ℤ growth -ℤ spread)));
    base = some (clamp_nonneg (ctx.product anchor (ctx.one +ℤ growth)));
    high = some (clamp_nonneg (ctx.product anchor (ctx.one +ℤ growth +ℤ spread)));
  }

  -- The blending of a guided range: the band is widened, and the base case drawn to its middle.
  unfoldable pub blend : ℤ → ℤ → MetricEstimate → MetricEstimate
  blend gl gh e =
      let g_base = half (gl +ℤ gh) in
      record {
        low = some (elim e.low [ none ↦ gl | some low ↦ min_ℤ low gl ]);
        base = some (elim e.base [ none ↦ g_base | some base ↦ half (base +ℤ g_base) ]);
        high = some (elim e.high [ none ↦ gh | some high ↦ max_ℤ high gh ]);
      }

  abbrev pub guided : ℤ → ℤ → ℤ
  guided anchor pct = clamp_nonneg (ctx.product anchor (ctx.one +ℤ percent pct))

  -- The guidance in `_estimate_revenue`.
  unfoldable pub guide_revenue :
      Option (ℤ × ℤ) → Option ℤ → MetricEstimate → MetricEstimate × List Assumption
  guide_revenue none anchor e = (e, [])
  guide_revenue (some (low, high)) none e = (e, Assumption.revenue_guided false ∷ [])
  guide_revenue (some (low, high)) (some anchor) e =
      (blend (guided anchor low) (guided anchor high) e, Assumption.revenue_guided true ∷ [])

  module _ (median stdev : List ℤ → ℤ) where
    -- What growth alone gives: the range, the number of samples, their spread, the assumption.
    unfoldable pub growth_estimate :
        Option (GrowthMethod × ℤ × List ℤ) → MetricEstimate × ℕ × Option ℤ × Assumption
    growth_estimate none = (no_estimate, 0, none, Assumption.revenue_insufficient)
    growth_estimate (some (method, anchor, samples)) = (
      grown anchor (median samples) (spread_of stdev samples),
      length samples,
      some (spread_of stdev samples),
      Assumption.revenue_growth method (median samples) (length samples) anchor,
    )

    -- `_estimate_revenue`: the estimate, the number of samples, their spread, the assumptions
    unfoldable pub estimate_revenue :
        FeatureSnapshot
        → List HistoricalFinancialPoint
        → Option (ℤ × ℤ)
        → MetricEstimate × ℕ × Option ℤ × List Assumption
    estimate_revenue snapshot history guidance =
        let same_quarter_anchor = anchor_in snapshot history in
        let most_recent = recent_in history in
        let basis = growth_basis history same_quarter_anchor most_recent in
        let (e, samples_n, spread, assumption) = growth_estimate basis in
        let (e', assumptions) =
          guide_revenue guidance (blend_anchor basis same_quarter_anchor most_recent) e in
        (e', samples_n, spread, assumption ∷ assumptions)

    -- `_estimate_margin`: the estimate, the number of values, the assumptions
    unfoldable pub estimate_margin :
        List HistoricalFinancialPoint
        → (HistoricalFinancialPoint → Option ℤ)
        → Option (ℤ × ℤ)
        → MetricEstimate × ℕ × List Assumption
    estimate_margin history value_of none =
        let values = collect (map value_of history) in
        let (e, assumption) = trailing median stdev values in (e, length values, assumption ∷ [])
    estimate_margin history value_of (some (gl, gh)) =
        let values = collect (map value_of history) in
        let (e, assumption) = trailing median stdev values in
        (blend gl gh e, length values, assumption ∷ Assumption.margin_guided ∷ [])
