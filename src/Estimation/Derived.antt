-- ===== src/Estimation/Derived.antt =====
-- The derived estimates, the confidence and the whole of `estimate_deterministic` in
-- investing_agent/services/estimation/deterministic.py.
use nse_agent.Common.{
  ℕ, ◌*◌, Bool, false, not, ◌&&◌, ◌||◌, Option, none, some, List, [], ◌∷◌, ◌++◌, length, ℤ, pos,
  ◌+ℤ◌, ◌-ℤ◌, ◌*ℤ◌, min_ℤ, max_ℤ, ltb_ℤ, eqb_ℤ, if◌then◌else◌, ◌==◌, leb, is_some,
}
use nse_agent.Common.Options.{◌>>=◌}
use nse_agent.Common.Sorting.{sort_by}
use nse_agent.Common.Decimals.{Context, divide}
use nse_agent.Estimation.Types.{
  HistoricalFinancialPoint, GuidanceType, FeatureSnapshot, MetricEstimate, no_estimate, Assumption,
}
use nse_agent.Estimation.Deterministic.{
  clamp_nonneg, find_guidance, last_where, percent, estimate_revenue, estimate_margin,
}

-- The score of `_confidence` after the part for the history, in units of Decimal("0.0001").
unfoldable pub settle : ℤ → Bool → Bool → Bool → ℤ
settle history has_guidance no_samples spread_is_wide =
    let guided = if has_guidance then history +ℤ pos 1500 else history in
    let sampled = if no_samples then guided -ℤ pos 1500 else guided in
    let settled = if spread_is_wide then sampled -ℤ pos 1000 else sampled in
    max_ℤ (pos 500) (min_ℤ (pos 9500) settled)

-- `_confidence`: `spread_is_wide` is the test of the deviation.
unfoldable pub estimate_confidence : ℕ → ℕ → Bool → Bool → ℤ
estimate_confidence n_history revenue_samples_n spread_is_wide has_guidance =
    settle (pos 3000 +ℤ min_ℤ (pos 4000) (pos (1000 * n_history))) has_guidance
      (revenue_samples_n == 0) spread_is_wide

-- `p.pat and p.eps_diluted and p.pat != 0`
abbrev pub is_nonzero : Option ℤ → Bool
is_nonzero none = false
is_nonzero (some v) = not (eqb_ℤ v (pos 0))

abbrev pub lift2 : (ℤ → ℤ → ℤ) → Option ℤ → Option ℤ → Option ℤ
lift2 f (some a) (some b) = some (f a b)
lift2 f _ _ = none

abbrev pub divide_some : Context → Option ℤ → ℤ → Option (Option ℤ)
divide_some ctx none shares = some none
divide_some ctx (some v) shares = elim (divide ctx v shares) [
  | none ↦ none
  | some q ↦ some (some q)
]

pub record DeterministicEstimate : Type 0 where
  pub revenue : MetricEstimate
  pub ebitda_margin : MetricEstimate
  pub pat : MetricEstimate
  pub eps : MetricEstimate
  pub confidence_score : ℤ
  pub assumptions : List Assumption

module _ (ctx : Context) where
  abbrev pub margin_of : ℤ → ℤ → ℤ
  margin_of revenue margin = clamp_nonneg (percent ctx (ctx.product revenue margin))

  -- `_derive_pat`
  unfoldable pub derive_pat : MetricEstimate → MetricEstimate → MetricEstimate × Assumption
  derive_pat revenue pat_margin = elim revenue.base [
    | none ↦ (no_estimate, Assumption.pat_underivable)
    | some revenue_base ↦ elim pat_margin.base [
      | none ↦ (no_estimate, Assumption.pat_underivable)
      | some margin_base ↦ (
        record {
          low = lift2 margin_of revenue.low pat_margin.low;
          base = some (margin_of revenue_base margin_base);
          high = lift2 margin_of revenue.high pat_margin.high;
        },
        Assumption.pat_derived margin_base,
      )
    ]
  ]

  -- The part of `_derive_eps` with a base and a source of the share count: `none` is the exception
  -- of a division by a quotient that was rounded to zero.
  unfoldable pub eps_from : MetricEstimate → ℤ → ℤ → ℤ → Option (MetricEstimate × Assumption)
  eps_from pat pat_base source_pat source_eps = do
    implied_shares ← divide ctx source_pat source_eps
    base ← divide ctx pat_base implied_shares
    low ← divide_some ctx pat.low implied_shares
    high ← divide_some ctx pat.high implied_shares
    some
        (record { low = low; base = some base; high = high }, Assumption.eps_derived implied_shares)

  -- `_derive_eps`
  unfoldable pub derive_eps :
      MetricEstimate → List HistoricalFinancialPoint → Option (MetricEstimate × Assumption)
  derive_eps pat history =
      let missing : Option (MetricEstimate × Assumption) =
        some (no_estimate, Assumption.eps_underivable) in
      elim (last_where (λ p. is_nonzero p.pat && is_nonzero p.eps_diluted) history) [
        | none ↦ missing
        | some p ↦ elim pat.base [
          | none ↦ missing
          | some pat_base ↦ elim p.pat [
            | none ↦ missing
            | some source_pat ↦ elim p.eps_diluted [
              | none ↦ missing
              | some source_eps ↦ eps_from pat pat_base source_pat source_eps
            ]
          ]
        ]
      ]

  -- `(p.pat / p.revenue * 100) if p.pat is not None and p.revenue else None`
  unfoldable pub pat_margin_of : HistoricalFinancialPoint → Option ℤ
  pat_margin_of p = elim p.pat [
    | none ↦ none
    | some pat ↦ elim p.revenue [
      | none ↦ none
      | some revenue ↦
          if eqb_ℤ revenue (pos 0)
          then none
          else some (ctx.product (ctx.quotient pat revenue) (pos 100 *ℤ ctx.one))
    ]
  ]

  -- `revenue_growth_stdev > Decimal("0.15")`, where it is given
  abbrev pub is_wide : Option ℤ → Bool
  is_wide none = false
  is_wide (some spread) = ltb_ℤ (pos 15 *ℤ ctx.one) (pos 100 *ℤ spread)

  module _ (median stdev : List ℤ → ℤ) where
    -- `estimate_deterministic`
    unfoldable pub estimate_deterministic : FeatureSnapshot → Option DeterministicEstimate
    estimate_deterministic snapshot =
        let history =
          sort_by (λ p q. leb p.period_end q.period_end) snapshot.historical_financials in
        let revenue_guidance =
          find_guidance snapshot.guidance GuidanceType.revenue_guidance
            snapshot.target_fiscal_year in
        let margin_guidance =
          find_guidance snapshot.guidance GuidanceType.margin_guidance
            snapshot.target_fiscal_year in
        let (revenue, samples_n, spread, revenue_assumptions) =
          estimate_revenue ctx median stdev snapshot history revenue_guidance in
        let (ebitda_margin, margin_n, margin_assumptions) =
          estimate_margin ctx median stdev history (λ p. p.ebitda_margin_pct) margin_guidance in
        let (pat_margin, pat_n, pat_margin_assumptions) =
          estimate_margin ctx median stdev history pat_margin_of none in
        let (pat, pat_assumption) = derive_pat revenue pat_margin in
        let has_guidance = is_some revenue_guidance || is_some margin_guidance in
        let score = estimate_confidence (length history) samples_n (is_wide spread) has_guidance in
        do
          (eps, eps_assumption) ← derive_eps pat history
          some (record {
            revenue = revenue;
            ebitda_margin = ebitda_margin;
            pat = pat;
            eps = eps;
            confidence_score = score;
            assumptions =
                revenue_assumptions
                ++ margin_assumptions
                ++ pat_margin_assumptions
                ++ (pat_assumption
                    ∷ eps_assumption
                    ∷ Assumption.confidence_of score (length history) samples_n has_guidance
                    ∷ []);
          })
