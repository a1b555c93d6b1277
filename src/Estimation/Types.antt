-- ===== src/Estimation/Types.antt =====
-- The records that investing_agent/services/estimation/deterministic.py reads and returns, with the
-- points of investing_agent/schemas/estimation.py.
use nse_agent.Common.{ℕ, Bool, Option, none, List, ℤ}

-- The fields of `HistoricalFinancialPoint` that are read.
pub record HistoricalFinancialPoint : Type 0 where
  pub fiscal_year : ℕ
  pub quarter : Option ℕ
  pub period_end : ℕ
  pub revenue : Option ℤ
  pub ebitda_margin_pct : Option ℤ
  pub pat : Option ℤ
  pub eps_diluted : Option ℤ

pub data GuidanceType : Type 0 where
  revenue_guidance : GuidanceType
  margin_guidance : GuidanceType
  other_guidance : ℕ → GuidanceType

-- The fields of `GuidancePoint` that are read.
pub record GuidancePoint : Type 0 where
  pub fiscal_year : ℕ
  pub guidance_type : GuidanceType
  pub guidance_low : Option ℤ
  pub guidance_high : Option ℤ

-- The fields of `FeatureSnapshotPayload` that are read.
pub record FeatureSnapshot : Type 0 where
  pub target_fiscal_year : ℕ
  pub target_quarter : Option ℕ
  pub historical_financials : List HistoricalFinancialPoint
  pub guidance : List GuidancePoint

pub record MetricEstimate : Type 0 where
  pub low : Option ℤ
  pub base : Option ℤ
  pub high : Option ℤ

abbrev pub no_estimate : MetricEstimate
no_estimate = record { low = none; base = none; high = none }

pub data GrowthMethod : Type 0 where
  yoy : GrowthMethod
  qoq : GrowthMethod

-- What the texts of the assumptions say.
pub data Assumption : Type 0 where
  revenue_growth : GrowthMethod → ℤ → ℕ → ℤ → Assumption
  revenue_insufficient : Assumption
  revenue_guided : Bool → Assumption
  margin_median : ℤ → ℕ → Assumption
  margin_insufficient : Assumption
  margin_guided : Assumption
  pat_underivable : Assumption
  pat_derived : ℤ → Assumption
  eps_underivable : Assumption
  eps_derived : ℤ → Assumption
  confidence_of : ℤ → ℕ → ℕ → Bool → Assumption
