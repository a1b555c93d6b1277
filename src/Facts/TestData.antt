-- ===== src/Facts/TestData.antt =====
-- The rows that the tests of the fact tables and of the theses share.
use nse_agent.Common.{ℕ, true, Option, none, some, ℤ, pos}
use nse_agent.Facts.Financial.{
  StatementScope, ReportingBasis, TimestampPrecision, VerificationStatus, VerificationTrail,
  Figures, FinancialResult, FinancialResultCreate, result_row,
}
use nse_agent.Facts.Verification.{SourceDocument}

abbrev pub figures_with : ℤ → Figures
figures_with revenue = record {
  is_audited = true;
  result_date = some 100;
  currency = 1;
  unit_scale = 2;
  revenue = some revenue;
  ebitda = none;
  ebitda_margin_pct = none;
  ebitda_source = none;
  pbt = none;
  pat = some (pos 40);
  pat_margin_pct = none;
  eps_basic = none;
  eps_diluted = none;
  total_debt = none;
  cash_equivalents = none;
  operating_cash_flow = none;
  roe_pct = none;
  roce_pct = none;
}

abbrev pub unverified_trail : VerificationTrail
unverified_trail = record {
  source_document_id = none;
  verification_status = VerificationStatus.unverified;
  verification_document_id = none;
  verified_at = none;
  verification_method = none;
  verification_notes = none;
}

abbrev pub filing : ℤ → Option ℕ → FinancialResultCreate
filing revenue available = record {
  period_id = 7;
  company_id = 3;
  symbol = 5;
  statement_scope = StatementScope.standalone;
  reporting_basis = ReportingBasis.quarter;
  figures = figures_with revenue;
  other_metrics = none;
  source_type = 9;
  source_url = none;
  published_at = none;
  available_at = available;
  timestamp_precision = TimestampPrecision.date_only;
  data_category = 0;
  confidence = none;
  trail = unverified_trail;
}

abbrev pub first_row : FinancialResult
first_row = result_row 1 50 (filing (pos 200) (some 20)) none

abbrev pub annual_filing : SourceDocument
annual_filing = record {
  id = 11;
  company_id = 3;
  source_type = 4;
  source_url = none;
  published_at = some 18;
  available_at = 18;
}
