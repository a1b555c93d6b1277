-- ===== src/Facts/Verification.antt =====
-- investing_agent/services/verification.py: a fact is verified against a primary document or a
-- second source.
use nse_agent.Common.{
  ℕ, Bool, true, false, not, ◌&&◌, ◌⊎◌, inl, inr, Option, none, some, List, [], ◌∷◌, ◌++◌, ℤ, pos,
  ◌-ℤ◌, ◌*ℤ◌, abs_ℤ, leb_ℤ, eqb_ℤ, if◌then◌else◌, ◌==◌, filter,
}
use nse_agent.Common.Decimals.{Context}
use nse_agent.Facts.Versions.{first}
use nse_agent.Facts.Financial.{
  VerificationStatus, VerificationMethod, VerificationTrail, Figures, FinancialResult,
  FinancialResultCreate, same_value,
}
use nse_agent.Facts.Corrections.{get_result, set_verification, upgrade_timestamp_precision}

-- The columns of a source document that are read.
pub record SourceDocument : Type 0 where
  pub id : ℕ
  pub company_id : ℕ
  pub source_type : ℕ
  pub source_url : Option ℕ
  pub published_at : Option ℕ
  pub available_at : ℕ

unfoldable pub get_document : ℕ → List SourceDocument → Option SourceDocument
get_document id documents = first (filter (λ d. d.id == id) documents)

-- The labels of the compared fields.
pub data Field : Type 0 where
  revenue : Field
  pat : Field
  eps_diluted : Field

-- The entries of the list of mismatches.
pub data Mismatch : Type 0 where
  no_stored_value : Field → ℤ → Mismatch
  differs : Field → ℤ → ℤ → Mismatch

-- The causes of a ValueError.
pub data ValueError : Type 0 where
  result_not_found : ValueError
  document_not_found : ValueError
  different_company : ValueError
  json_hint_source : ValueError
  nothing_reported : ValueError

pub record ManualVerificationOutcome : Type 0 where
  pub result : FinancialResult
  pub matched : Bool
  pub checked_fields : List Field
  pub mismatches : List Mismatch
  pub timestamp_upgraded : Bool

abbrev pub no_entries {ℓ} : {A : Type ℓ} → List A → Bool
no_entries [] = true
no_entries (_ ∷ _) = false

abbrev pub or_raise {ℓ} :
    {A : Type ℓ} {B : Type ℓ} → ValueError → Option A → (A → ValueError ⊎ B) → ValueError ⊎ B
or_raise e none f = inl e
or_raise e (some a) f = f a

module _ (ctx : Context) where
  -- `_within_tolerance`
  unfoldable pub within_tolerance : ℤ → ℤ → ℤ → Bool
  within_tolerance stored reported tolerance_pct =
      if eqb_ℤ stored (pos 0)
      then eqb_ℤ reported (pos 0)
      else leb_ℤ
          (ctx.product (abs_ℤ (ctx.quotient (reported -ℤ stored) stored)) (pos 100 *ℤ ctx.one))
          tolerance_pct

  -- One round of the loop over the comparisons.
  unfoldable pub compare_field :
      ℤ → Field → Option ℤ → Option ℤ → List Field × List Mismatch → List Field × List Mismatch
  compare_field tolerance_pct label stored none state = state
  compare_field tolerance_pct label none (some value) (checked, mismatches) =
      (checked, mismatches ++ (Mismatch.no_stored_value label value ∷ []))
  compare_field tolerance_pct label (some stored) (some value) (checked, mismatches) =
      if not (within_tolerance stored value tolerance_pct)
      then (checked ++ (label ∷ []), mismatches ++ (Mismatch.differs label stored value ∷ []))
      else (checked ++ (label ∷ []), mismatches)

  -- The loop over the comparisons.
  unfoldable pub compare_figures :
      Figures → Option ℤ → Option ℤ → Option ℤ → ℤ → List Field × List Mismatch
  compare_figures figures reported_revenue reported_pat reported_eps_diluted tolerance_pct =
      compare_field tolerance_pct Field.eps_diluted figures.eps_diluted reported_eps_diluted (
        compare_field tolerance_pct Field.pat figures.pat reported_pat
          (compare_field tolerance_pct Field.revenue figures.revenue reported_revenue ([], [])))

  -- The writes, once the fields have been compared. `note` is the text of the notes.
  unfoldable pub record_verdict :
      (List Field → List Mismatch → ℕ)
      → ℕ
      → ℕ
      → SourceDocument
      → List Field × List Mismatch
      → List FinancialResult
      → ValueError ⊎ (ManualVerificationOutcome × List FinancialResult)
  record_verdict note now result_id document (checked, mismatches) table =
      let matched = no_entries mismatches in
      or_raise ValueError.result_not_found
        (set_verification result_id
          (if matched then VerificationStatus.verified else VerificationStatus.disputed) document.id
          now VerificationMethod.manual_primary_document (some (note checked mismatches)) table)
        (λ (updated, table'). elim document.published_at [
          | none ↦ inr (
            record {
              result = updated;
              matched = matched;
              checked_fields = checked;
              mismatches = mismatches;
              timestamp_upgraded = false;
            },
            table',
          )
          | some published ↦
              or_raise ValueError.result_not_found
                (upgrade_timestamp_precision result_id published published table')
                (λ (upgraded, table''). inr (
                  record {
                    result = upgraded;
                    matched = matched;
                    checked_fields = checked;
                    mismatches = mismatches;
                    timestamp_upgraded = true;
                  },
                  table'',
                ))
        ])

  -- `verify_financial_result_manual`. `json_hint` is the source type "nse_json_hint".
  unfoldable pub verify_financial_result_manual :
      (List Field → List Mismatch → ℕ)
      → ℕ
      → ℕ
      → ℕ
      → ℕ
      → Option ℤ
      → Option ℤ
      → Option ℤ
      → ℤ
      → List SourceDocument
      → List FinancialResult
      → ValueError ⊎ (ManualVerificationOutcome × List FinancialResult)
  verify_financial_result_manual note json_hint now result_id document_id reported_revenue
        reported_pat reported_eps_diluted tolerance_pct documents table =
      or_raise ValueError.result_not_found (get_result result_id table) (λ row.
        or_raise ValueError.document_not_found (get_document document_id documents) (λ document.
          if not (document.company_id == row.company_id)
          then inl ValueError.different_company
          else (if document.source_type == json_hint
              then inl ValueError.json_hint_source
              else (let found =
                    compare_figures row.figures reported_revenue reported_pat reported_eps_diluted
                      tolerance_pct in
                  if no_entries found.0 && no_entries found.1
                  then inl ValueError.nothing_reported
                  else record_verdict note now result_id document found table))))

-- The figures differ where both are known.
abbrev pub amounts_differ : Option ℤ → Option ℤ → Bool
amounts_differ (some a) (some b) = not (eqb_ℤ a b)
amounts_differ _ _ = false

abbrev pub verified_trail : ℕ → ℕ → VerificationTrail → VerificationTrail
verified_trail now notes trail = record trail {
  verification_status = VerificationStatus.verified;
  verification_method = some VerificationMethod.cross_source;
  verified_at = some now;
  verification_notes = some notes;
}

-- `verify_financial_result_cross_source`. `note` is the text that names the source.
unfoldable pub verify_financial_result_cross_source :
    (ℕ → ℕ) → ℕ → FinancialResultCreate → List FinancialResultCreate → FinancialResultCreate
verify_financial_result_cross_source note now primary [] = primary
verify_financial_result_cross_source note now primary (candidate ∷ candidates) =
    let rest = verify_financial_result_cross_source note now primary candidates in
    if candidate.source_type == primary.source_type
    then rest
    else (if not (same_value candidate.figures.result_date primary.figures.result_date)
        then rest
        else (if amounts_differ primary.figures.pat candidate.figures.pat
            then rest
            else record primary {
              trail = verified_trail now (note candidate.source_type) primary.trail;
            }))
