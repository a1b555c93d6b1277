-- ===== src/Estimation/RevenueBand.antt =====
-- The range of the revenue estimate of investing_agent/services/estimation/deterministic.py.
use nse_agent.Common.{
  ◌≡◌, inl, inr, refl, ◌∙◌, Bool, true, false, Option, none, some, List, [], ◌∷◌, length, ℤ, pos,
  ◌≤ℤ◌, leb, arith, All, Bool-cases, Option-cases,
}
use nse_agent.Common.Decimals.{Context}
use nse_agent.Estimation.Types.{HistoricalFinancialPoint, FeatureSnapshot, GrowthMethod}
use nse_agent.Estimation.Deterministic.{
  last_where, qoq_basis, growth_basis, growth_samples, growth_estimate, spread_of, blend_anchor,
  anchor_in, recent_in, estimate_revenue, revenue_of,
}
use nse_agent.Estimation.Bands.{
  IsMonotone, IsBand, Covers, IsRange, IsNonneg, grown-IsBand, guide_revenue-IsBand,
  guide_revenue-Covers,
}

last_where-All {ℓ κ} :
    {A : Type ℓ} (P : A → Type κ) (test : A → Bool) (xs : List A) (x : A)
    → All P xs
    → last_where test xs ≡ some x
    → P x
unfolding last_where
last_where-All P test [] x h e = cc
last_where-All P test (y ∷ ys) x h e = elim (Option-cases (last_where test ys)) [
  | inr (z, f) ↦
      let same : some z ≡ some x = rw (last_where, f) at e in
      last_where-All P test ys x h.1 (f ∙ same)
  | inl f ↦ elim (Bool-cases (test y)) [
    | inl g ↦
        let same : some y ≡ some x = rw (last_where, f, g) at e in
        let itself : y ≡ x = cc in rw (← itself) h.0
    | inr g ↦ let wrong : none ≡ some x = rw (last_where, f, g) at e in cc
  ]
]

revenue_of-IsNonneg :
    (o : Option HistoricalFinancialPoint)
    → ((p : HistoricalFinancialPoint) → o ≡ some p → IsNonneg p.revenue)
    → IsNonneg (revenue_of o)
revenue_of-IsNonneg none h = tt
revenue_of-IsNonneg (some p) h = h p refl

last_revenue-IsNonneg :
    (test : HistoricalFinancialPoint → Bool) (history : List HistoricalFinancialPoint)
    → All (λ p. IsNonneg p.revenue) history
    → IsNonneg (revenue_of (last_where test history))
last_revenue-IsNonneg test history h =
    revenue_of-IsNonneg (last_where test history)
      (λ p e. last_where-All (λ q. IsNonneg q.revenue) test history p h e)

either_anchor :
    (same : Option ℤ) (r : ℤ)
    → IsNonneg same
    → pos 0 ≤ℤ r
    → IsNonneg (blend_anchor none same (some r))
either_anchor none r hs hr = hr
either_anchor (some a) r hs hr = hs

qoq_basis-IsNonneg :
    (ctx : Context) (history : List HistoricalFinancialPoint) (same recent : Option ℤ)
    → IsNonneg same
    → IsNonneg recent
    → IsNonneg (blend_anchor (qoq_basis ctx history recent) same recent)
unfolding qoq_basis
qoq_basis-IsNonneg ctx history none none hs hr = tt
qoq_basis-IsNonneg ctx history (some a) none hs hr = hs
qoq_basis-IsNonneg ctx history same (some r) hs hr =
    elim (Bool-cases (leb 2 (length (growth_samples ctx history (λ p. p.revenue) false)))) [
      | inl e ↦ rw (qoq_basis, e) hr
      | inr e ↦ rw (qoq_basis, e) (either_anchor same r hs hr)
    ]

-- The anchor of a method is one of the two anchors.
growth_basis-IsNonneg :
    (ctx : Context) (history : List HistoricalFinancialPoint) (same recent : Option ℤ)
    → IsNonneg same
    → IsNonneg recent
    → IsNonneg (blend_anchor (growth_basis ctx history same recent) same recent)
unfolding growth_basis
growth_basis-IsNonneg ctx history none recent hs hr =
    qoq_basis-IsNonneg ctx history none recent hs hr
growth_basis-IsNonneg ctx history (some a) recent hs hr =
    elim (Bool-cases (leb 2 (length (growth_samples ctx history (λ p. p.revenue) true)))) [
      | inl e ↦ rw (growth_basis, e) hs
      | inr e ↦ rw (growth_basis, e) (qoq_basis-IsNonneg ctx history (some a) recent hs hr)
    ]

-- A spread is not negative.
growth_estimate-IsBand :
    (ctx : Context) (median stdev : List ℤ → ℤ) (M : IsMonotone ctx)
    (basis : Option (GrowthMethod × ℤ × List ℤ)) (same recent : Option ℤ)
    → ((xs : List ℤ) → pos 0 ≤ℤ stdev xs)
    → IsNonneg (blend_anchor basis same recent)
    → IsBand (growth_estimate ctx median stdev basis).0
unfolding growth_estimate IsBand
growth_estimate-IsBand ctx median stdev M none same recent hs ha = inl refl
growth_estimate-IsBand ctx median stdev M (some (method, anchor, samples)) same recent hs ha =
    grown-IsBand ctx M anchor (median samples) (spread_of stdev samples) ha
      (ground (arith, hs samples))

-- If no revenue of the history is negative, no deviation is negative, the guided range is in order
-- and rounding keeps the order, then the revenue estimate is missing or an ordered range, low,
-- base and high; where there is guidance and a revenue to anchor it, the range takes in the
-- guided range around the anchor.
pub estimate_revenue-IsBand :
    (ctx : Context) (median stdev : List ℤ → ℤ) (M : IsMonotone ctx) (snapshot : FeatureSnapshot)
    (history : List HistoricalFinancialPoint) (guidance : Option (ℤ × ℤ))
    → ((xs : List ℤ) → pos 0 ≤ℤ stdev xs)
    → All (λ p. IsNonneg p.revenue) history
    → IsRange guidance
    → IsBand (estimate_revenue ctx median stdev snapshot history guidance).0
      × Covers ctx guidance
          (blend_anchor
            (growth_basis ctx history (anchor_in snapshot history) (recent_in history))
            (anchor_in snapshot history)
            (recent_in history))
          (estimate_revenue ctx median stdev snapshot history guidance).0
unfolding estimate_revenue
estimate_revenue-IsBand ctx median stdev M snapshot history guidance hs hr hg =
    let same = anchor_in snapshot history in
    let recent = recent_in history in
    let basis = growth_basis ctx history same recent in
    let anchored : IsNonneg (blend_anchor basis same recent) =
      growth_basis-IsNonneg ctx history same recent (last_revenue-IsNonneg _ history hr)
        (last_revenue-IsNonneg _ history hr) in
    let e = (growth_estimate ctx median stdev basis).0 in
    (
      guide_revenue-IsBand ctx M guidance (blend_anchor basis same recent) e hg anchored
          (growth_estimate-IsBand ctx median stdev M basis same recent hs anchored),
      guide_revenue-Covers ctx guidance (blend_anchor basis same recent) e,
    )
