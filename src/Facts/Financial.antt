-- ===== src/Facts/Financial.antt =====
-- The rows of investing_agent/db/repositories/financial.py, with the columns of
-- investing_agent/db/models.py and the schema of investing_agent/schemas/financials.py.
use nse_agent.Common.{
  ℕ, ◌+◌, Bool, true, false, ◌&&◌, Option, none, some, ℤ, List, map, eqb_ℤ, ◌==◌, or_default,
}
use nse_agent.Facts.Versions.{Versioned}

pub data StatementScope : Type 0 where
  standalone : StatementScope
  consolidated : StatementScope
  unresolved : StatementScope

pub data ReportingBasis : Type 0 where
  quarter : ReportingBasis
  ytd : ReportingBasis
  annual : ReportingBasis

pub data TimestampPrecision : Type 0 where
  exact : TimestampPrecision
  date_only : TimestampPrecision

pub data VerificationStatus : Type 0 where
  unverified : VerificationStatus
  verified : VerificationStatus
  disputed : VerificationStatus

pub data VerificationMethod : Type 0 where
  manual_primary_document : VerificationMethod
  cross_source : VerificationMethod
  another_method : ℕ → VerificationMethod

abbrev pub same_scope : StatementScope → StatementScope → Bool
same_scope StatementScope.standalone StatementScope.standalone = true
same_scope StatementScope.consolidated StatementScope.consolidated = true
same_scope StatementScope.unresolved StatementScope.unresolved = true
same_scope _ _ = false

abbrev pub same_basis : ReportingBasis → ReportingBasis → Bool
same_basis ReportingBasis.quarter ReportingBasis.quarter = true
same_basis ReportingBasis.ytd ReportingBasis.ytd = true
same_basis ReportingBasis.annual ReportingBasis.annual = true
same_basis _ _ = false

-- `a == b` where either may be None
abbrev pub same_value : Option ℕ → Option ℕ → Bool
same_value none none = true
same_value (some a) (some b) = a == b
same_value _ _ = false

abbrev pub same_decimal : Option ℤ → Option ℤ → Bool
same_decimal none none = true
same_decimal (some a) (some b) = eqb_ℤ a b
same_decimal _ _ = false

abbrev pub same_bool : Bool → Bool → Bool
same_bool true b = b
same_bool false true = false
same_bool false false = true

-- `_COMPARE_FIELDS`
pub record Figures : Type 0 where
  pub is_audited : Bool
  pub result_date : Option ℕ
  pub currency : ℕ
  pub unit_scale : ℕ
  pub revenue : Option ℤ
  pub ebitda : Option ℤ
  pub ebitda_margin_pct : Option ℤ
  pub ebitda_source : Option ℕ
  pub pbt : Option ℤ
  pub pat : Option ℤ
  pub pat_margin_pct : Option ℤ
  pub eps_basic : Option ℤ
  pub eps_diluted : Option ℤ
  pub total_debt : Option ℤ
  pub cash_equivalents : Option ℤ
  pub operating_cash_flow : Option ℤ
  pub roe_pct : Option ℤ
  pub roce_pct : Option ℤ

-- `VerificationMixin`
pub record VerificationTrail : Type 0 where
  pub source_document_id : Option ℕ
  pub verification_status : VerificationStatus
  pub verification_document_id : Option ℕ
  pub verified_at : Option ℕ
  pub verification_method : Option VerificationMethod
  pub verification_notes : Option ℕ

-- `FinancialResultCreate`
pub record FinancialResultCreate : Type 0 where
  pub period_id : ℕ
  pub company_id : ℕ
  pub symbol : ℕ
  pub statement_scope : StatementScope
  pub reporting_basis : ReportingBasis
  pub figures : Figures
  pub other_metrics : Option ℕ
  pub source_type : ℕ
  pub source_url : Option ℕ
  pub published_at : Option ℕ
  pub available_at : Option ℕ
  pub timestamp_precision : TimestampPrecision
  pub data_category : ℕ
  pub confidence : Option ℤ
  pub trail : VerificationTrail

-- `FinancialResult`
pub record FinancialResult : Type 0 where
  pub id : ℕ
  pub period_id : ℕ
  pub company_id : ℕ
  pub symbol : ℕ
  pub statement_scope : StatementScope
  pub reporting_basis : ReportingBasis
  pub figures : Figures
  pub other_metrics : Option ℕ
  pub version : ℕ
  pub is_latest : Bool
  pub supersedes_id : Option ℕ
  pub source_type : ℕ
  pub source_url : Option ℕ
  pub published_at : Option ℕ
  pub available_at : ℕ
  pub timestamp_precision : TimestampPrecision
  pub data_category : ℕ
  pub confidence : Option ℤ
  pub trail : VerificationTrail

-- The columns that group the versions of a result.
abbrev pub ResultKey : Type 0
ResultKey = ℕ × StatementScope × ReportingBasis × ℕ

-- `_values_equal`: the test of every field of `_COMPARE_FIELDS`
unfoldable pub same_figures : Figures → Figures → Bool
same_figures a b =
    same_bool a.is_audited b.is_audited
    && same_value a.result_date b.result_date
    && a.currency == b.currency
    && a.unit_scale == b.unit_scale
    && same_decimal a.revenue b.revenue
    && same_decimal a.ebitda b.ebitda
    && same_decimal a.ebitda_margin_pct b.ebitda_margin_pct
    && same_value a.ebitda_source b.ebitda_source
    && same_decimal a.pbt b.pbt
    && same_decimal a.pat b.pat
    && same_decimal a.pat_margin_pct b.pat_margin_pct
    && same_decimal a.eps_basic b.eps_basic
    && same_decimal a.eps_diluted b.eps_diluted
    && same_decimal a.total_debt b.total_debt
    && same_decimal a.cash_equivalents b.cash_equivalents
    && same_decimal a.operating_cash_flow b.operating_cash_flow
    && same_decimal a.roe_pct b.roe_pct
    && same_decimal a.roce_pct b.roce_pct

abbrev pub version_after : Option FinancialResult → ℕ
version_after none = 1
version_after (some existing) = existing.version + 1

abbrev pub id_of : Option FinancialResult → Option ℕ
id_of none = none
id_of (some existing) = some existing.id

-- `FinancialResult(...)`: the database generates `id`, and `now` where no availability is given.
-- The figures are those of the object; what the columns make of them is `reload`.
abbrev pub result_row : ℕ → ℕ → FinancialResultCreate → Option FinancialResult → FinancialResult
result_row id now d existing = record {
  id = id;
  period_id = d.period_id;
  company_id = d.company_id;
  symbol = d.symbol;
  statement_scope = d.statement_scope;
  reporting_basis = d.reporting_basis;
  figures = d.figures;
  other_metrics = d.other_metrics;
  version = version_after existing;
  is_latest = true;
  supersedes_id = id_of existing;
  source_type = d.source_type;
  source_url = d.source_url;
  published_at = d.published_at;
  available_at = or_default d.available_at now;
  timestamp_precision = d.timestamp_precision;
  data_category = d.data_category;
  confidence = d.confidence;
  trail = d.trail;
}

-- The rows as a later session reads them: the columns are Numeric(20, 2), (10, 4) and (8, 4), and
-- `stored` is what they make of the figures of a row.
unfoldable pub reload : (Figures → Figures) → List FinancialResult → List FinancialResult
reload stored rows = map {B = FinancialResult} (λ r. record r { figures = stored r.figures }) rows

-- `existing.is_latest = False`
abbrev pub retire_result : FinancialResult → FinancialResult
retire_result r = record r { is_latest = false }

abbrev pub or_else : Option ℕ → Option ℕ → Option ℕ
or_else none old = old
or_else (some new) old = some new

-- `_refresh_provenance`
abbrev pub refresh_provenance : FinancialResult → FinancialResultCreate → FinancialResult
refresh_provenance existing d = record existing {
  available_at = or_default d.available_at existing.available_at;
  published_at = or_else d.published_at existing.published_at;
  timestamp_precision = d.timestamp_precision;
}

-- The versioned table of financial results.
abbrev pub financial_results : Versioned FinancialResult FinancialResultCreate ResultKey
financial_results = record {
  key = λ r. (r.period_id, r.statement_scope, r.reporting_basis, r.source_type);
  key_of = λ d. (d.period_id, d.statement_scope, d.reporting_basis, d.source_type);
  same = λ (p, s, b, t) (p', s', b', t'). p == p' && same_scope s s' && same_basis b b' && t == t';
  version = λ r. r.version;
  is_latest = λ r. r.is_latest;
  available_at = λ r. r.available_at;
  values_equal = λ r d. same_figures r.figures d.figures;
  row_of = result_row;
  retire = retire_result;
  refresh = refresh_provenance;
}
