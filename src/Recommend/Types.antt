-- ===== src/Recommend/Types.antt =====
-- The rows that investing_agent/services/current_recommendations.py reads and writes, with the
-- columns that its decisions depend on. Instants are counted in microseconds.
use nse_agent.Common.{ℕ, Bool, Option, List, ℤ}
use nse_agent.Fifo.Types.{Symbol}

-- `other` is a status that `get_active` does not select.
pub data ThesisStatus : Type 0 where
  active watching : ThesisStatus
  other : ℕ → ThesisStatus

pub record Thesis : Type 0 where
  pub id : ℕ
  pub symbol : Symbol
  pub status : ThesisStatus
  pub thesis_version : ℕ
  pub supersedes_thesis_id : Option ℕ

pub record Company : Type 0 where
  pub id : ℕ
  pub symbol : Symbol

pub record ValuationSnapshot : Type 0 where
  pub id : ℕ
  pub company_id : ℕ
  pub as_of : ℕ
  pub current_price : Option ℤ
  pub fair_value_mid : Option ℤ

pub record EstimateRun : Type 0 where
  pub id : ℕ
  pub company_id : ℕ
  pub cutoff_at : ℕ
  pub confidence : Option ℤ

-- `severity` is the lower-case text of the column.
pub record RiskObservation : Type 0 where
  pub id : ℕ
  pub company_id : ℕ
  pub is_active : Bool
  pub severity : List ℕ

pub record Holding : Type 0 where
  pub symbol : Symbol
  pub quantity : ℤ
  pub current_value : Option ℤ

pub data BaseAction : Type 0 where
  insufficient_evidence reduce avoid watch hold add buy : BaseAction

pub data DataGap : Type 0 where
  company_not_resolved active_thesis_missing portfolio_market_price_unavailable : DataGap
  pit_estimate_missing validated_valuation_missing_or_stale : DataGap

-- The texts of `evidence_summary`.
pub data Reason : Type 0 where
  hard_risk_observed watching_thesis cannot_assess_held valuation_cannot_support : Reason
  supportive_for_add no_add_trigger supportive_for_buy insufficient_for_initiation : Reason

pub data EvidenceLink : Type 0 where
  thesis_link estimate_link valuation_link risk_link : ℕ → EvidenceLink

-- What the loop gathers for one symbol.
pub record Evidence : Type 0 where
  pub company : Option Company
  pub holding : Option Holding
  pub thesis : Option Thesis
  pub valuation : Option ValuationSnapshot
  pub estimate : Option EstimateRun
  pub risks : List RiskObservation

pub record RecommendationDecision : Type 0 where
  pub company_id : Option ℕ
  pub symbol : Symbol
  pub base_action : BaseAction
  pub final_action : BaseAction
  pub confidence : Option ℤ
  pub data_gaps : List DataGap
  pub evidence_summary : List Reason
  pub active_risks : ℕ
  pub hard_risk : Bool
  pub is_held : Bool
  pub concentration_pct : ℤ
  pub evidence_links : List EvidenceLink
