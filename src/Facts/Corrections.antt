-- ===== src/Facts/Corrections.antt =====
-- The other queries of investing_agent/db/repositories/financial.py, and its corrections in place.
use nse_agent.Common.{
  ℕ, ◌≡◌, sym, ap, ◌∙◌, Bool, ◌&&◌, Option, none, some, List, [], ◌∷◌, ◌++◌, map, filter,
  if◌then◌else◌, ◌==◌, ltb, Bool-cases, inl, inr,
}
use nse_agent.Common.Options.{◌>>=◌}
use nse_agent.Facts.Versions.{first, scalar_one_or_none}
use nse_agent.Facts.Financial.{
  StatementScope, ReportingBasis, TimestampPrecision, VerificationStatus, VerificationMethod,
  FinancialResult, same_scope, same_basis, same_value,
}

-- `BaseRepository.get`, by the primary key
unfoldable pub get_result : ℕ → List FinancialResult → Option FinancialResult
get_result id table = first (filter (λ r. r.id == id) table)

-- Assignments to the row that `get` returns.
unfoldable pub assign_result :
    ℕ → (FinancialResult → FinancialResult) → List FinancialResult → List FinancialResult
assign_result id f table = map (λ r. if r.id == id then f r else r) table

abbrev pub with_verification :
    VerificationStatus → ℕ → ℕ → VerificationMethod → Option ℕ → FinancialResult → FinancialResult
with_verification status document at method notes row = record row {
  trail = record {
    source_document_id = row.trail.source_document_id;
    verification_status = status;
    verification_document_id = some document;
    verified_at = some at;
    verification_method = some method;
    verification_notes = notes;
  };
}

-- `set_verification`: `none` is the ValueError of a row that is not found.
unfoldable pub set_verification :
    ℕ
    → VerificationStatus
    → ℕ
    → ℕ
    → VerificationMethod
    → Option ℕ
    → List FinancialResult
    → Option (FinancialResult × List FinancialResult)
set_verification id status document at method notes table = do
  row ← get_result id table
  some (
    with_verification status document at method notes row,
    assign_result id (with_verification status document at method notes) table,
  )

abbrev pub with_timestamp : ℕ → ℕ → FinancialResult → FinancialResult
with_timestamp published available row = record row {
  published_at = some published;
  available_at = available;
  timestamp_precision = TimestampPrecision.exact;
}

-- `upgrade_timestamp_precision`
unfoldable pub upgrade_timestamp_precision :
    ℕ → ℕ → ℕ → List FinancialResult → Option (FinancialResult × List FinancialResult)
upgrade_timestamp_precision id published available table = do
  row ← get_result id table
  some (
    with_timestamp published available row,
    assign_result id (with_timestamp published available) table,
  )

-- `list_by_company`
unfoldable pub list_by_company : ℕ → List FinancialResult → List FinancialResult
list_by_company company table = filter (λ r. r.company_id == company && r.is_latest) table

-- `list_latest_by_period`
unfoldable pub list_latest_by_period :
    ℕ → StatementScope → ReportingBasis → List FinancialResult → List FinancialResult
list_latest_by_period period scope basis table =
    filter
      (λ r.
        r.period_id == period
        && same_scope r.statement_scope scope
        && same_basis r.reporting_basis basis
        && r.is_latest)
      table

abbrev pub least : Option ℕ → ℕ → Option ℕ
least none t = some t
least (some s) t = if ltb t s then some t else some s

unfoldable pub least_available : Option ℕ → List FinancialResult → Option ℕ
least_available found [] = found
least_available found (r ∷ rs) = least_available (least found r.available_at) rs

-- `get_earliest_available_at`
unfoldable pub get_earliest_available_at : ℕ → List FinancialResult → Option ℕ
get_earliest_available_at period table =
    least_available none (filter (λ r. r.period_id == period) table)

-- `FinancialPeriod`
pub record FinancialPeriod : Type 0 where
  pub id : ℕ
  pub company_id : ℕ
  pub period_type : ℕ
  pub fiscal_year : ℕ
  pub quarter : Option ℕ
  pub period_start : Option ℕ
  pub period_end : ℕ
  pub label : ℕ

-- `get_or_create` of the repository of periods: `none` is the exception of more than one row.
unfoldable pub get_or_create :
    ℕ
    → ℕ
    → ℕ
    → ℕ
    → Option ℕ
    → ℕ
    → ℕ
    → Option ℕ
    → List FinancialPeriod
    → Option (FinancialPeriod × List FinancialPeriod)
get_or_create id company period_type fiscal_year quarter period_end label period_start table = do
  existing ← scalar_one_or_none (
      filter
        (λ p.
          p.company_id == company
          && p.period_type == period_type
          && p.fiscal_year == fiscal_year
          && same_value p.quarter quarter)
        table)
  elim existing [
    | some period ↦ some (period, table)
    | none ↦
        let period : FinancialPeriod = record {
          id = id;
          company_id = company;
          period_type = period_type;
          fiscal_year = fiscal_year;
          quarter = quarter;
          period_start = period_start;
          period_end = period_end;
          label = label;
        } in
        some (period, table ++ (period ∷ []))
  ]

map_some {ℓ} : {A : Type ℓ} → (A → A) → Option A → Option A
map_some f none = none
map_some f (some a) = some (f a)

first_if {ℓ} : {A : Type ℓ} → A → List A → Bool → Option A
first_if x xs b = first (if b then x ∷ xs else xs)

first-assign {ℓ} :
    {A : Type ℓ} (p : A → Bool) (f : A → A) (xs : List A) (a : A)
    → ((x : A) → p (f x) ≡ p x)
    → first (filter p xs) ≡ some a
    → first (filter p (map (λ x. if p x then f x else x) xs)) ≡ some (f a)
unfolding first_if map_some
first-assign p f [] a keep h = cc
first-assign p f (x ∷ xs) a keep h = elim (Bool-cases (p x)) [
  | inl e ↦
      let same : some x ≡ some a = sym (ap (first_if x (filter p xs)) e) ∙ h in
      rw (e, keep x, e) (ap (map_some f) same)
  | inr e ↦
      let rest : first (filter p xs) ≡ some a = sym (ap (first_if x (filter p xs)) e) ∙ h in
      rw (e, e) (first-assign p f xs a keep rest)
]

-- A row is found after an assignment to it.
pub get_result-assign_result :
    (id : ℕ) (f : FinancialResult → FinancialResult) (table : List FinancialResult)
    (row : FinancialResult)
    → ((r : FinancialResult) → (f r).id ≡ r.id)
    → get_result id table ≡ some row
    → get_result id (assign_result id f table) ≡ some (f row)
unfolding get_result assign_result
get_result-assign_result id f table row keep h =
    first-assign (λ r. r.id == id) f table row (λ r. ap (λ i. i == id) (keep r)) h
