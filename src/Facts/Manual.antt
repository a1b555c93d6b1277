-- ===== src/Facts/Manual.antt =====
-- The verdict of a manual verification, `verify_financial_result_manual` of
-- investing_agent/services/verification.py.
use nse_agent.Common.{
  ℕ, ◌≡◌, refl, ap, ◌∙◌, Bool, true, false, not, ◌&&◌, ◌||◌, ◌⊎◌, inl, inr, Option, none, some,
  List, [], ℤ, if◌then◌else◌, ◌==◌, is_some, arith, Bool-cases, Option-cases,
}
use nse_agent.Common.Decimals.{Context}
use nse_agent.Facts.Financial.{VerificationStatus, Figures, FinancialResult, VerificationMethod}
use nse_agent.Facts.Corrections.{
  get_result, set_verification, upgrade_timestamp_precision, get_result-assign_result,
  assign_result, with_verification, with_timestamp,
}
use nse_agent.Facts.Verification.{
  SourceDocument, Field, Mismatch, ValueError, ManualVerificationOutcome, get_document, no_entries,
  within_tolerance, compare_field, compare_figures, record_verdict, verify_financial_result_manual,
}

module _ (ctx : Context) where
  -- What a human reports of a field is within the tolerance of what is stored, or not reported.
  unfoldable pub agrees : ℤ → Option ℤ → Option ℤ → Bool
  agrees tolerance_pct stored none = true
  agrees tolerance_pct none (some value) = false
  agrees tolerance_pct (some stored) (some value) = within_tolerance ctx stored value tolerance_pct

  unfoldable pub all_agree : Figures → Option ℤ → Option ℤ → Option ℤ → ℤ → Bool
  all_agree figures revenue pat eps tolerance_pct =
      agrees tolerance_pct figures.revenue revenue
      && agrees tolerance_pct figures.pat pat
      && agrees tolerance_pct figures.eps_diluted eps

  mismatches-compare_field :
      (tolerance_pct : ℤ) (label : Field) (stored reported : Option ℤ)
      (state : List Field × List Mismatch)
      → no_entries (compare_field ctx tolerance_pct label stored reported state).1
        ≡ (no_entries state.1 && agrees tolerance_pct stored reported)
  unfolding compare_field agrees
  mismatches-compare_field tol label stored reported (checked, mismatches) = ground arith

  entries-compare_field :
      (tolerance_pct : ℤ) (label : Field) (stored reported : Option ℤ)
      (state : List Field × List Mismatch)
      → (no_entries (compare_field ctx tolerance_pct label stored reported state).0
          && no_entries (compare_field ctx tolerance_pct label stored reported state).1)
        ≡ (no_entries state.0 && no_entries state.1 && not (is_some reported))
  unfolding compare_field
  entries-compare_field tol label stored reported (checked, mismatches) = ground arith

  mismatches-compare_figures :
      (figures : Figures) (revenue pat eps : Option ℤ) (tolerance_pct : ℤ)
      → no_entries (compare_figures ctx figures revenue pat eps tolerance_pct).1
        ≡ all_agree figures revenue pat eps tolerance_pct
  unfolding compare_figures all_agree
  mismatches-compare_figures figures revenue pat eps tol =
      let first = compare_field ctx tol Field.revenue figures.revenue revenue ([], []) in
      let second = compare_field ctx tol Field.pat figures.pat pat first in
      rw
        (
          mismatches-compare_field tol Field.eps_diluted figures.eps_diluted eps second,
          mismatches-compare_field tol Field.pat figures.pat pat first,
          mismatches-compare_field tol Field.revenue figures.revenue revenue ([], []),
        )
        refl

  entries-compare_figures :
      (figures : Figures) (revenue pat eps : Option ℤ) (tolerance_pct : ℤ)
      → (no_entries (compare_figures ctx figures revenue pat eps tolerance_pct).0
          && no_entries (compare_figures ctx figures revenue pat eps tolerance_pct).1)
        ≡ (not (is_some revenue) && not (is_some pat) && not (is_some eps))
  unfolding compare_figures
  entries-compare_figures figures revenue pat eps tol =
      let first = compare_field ctx tol Field.revenue figures.revenue revenue ([], []) in
      let second = compare_field ctx tol Field.pat figures.pat pat first in
      rw
        (
          entries-compare_field tol Field.eps_diluted figures.eps_diluted eps second,
          entries-compare_field tol Field.pat figures.pat pat first,
          entries-compare_field tol Field.revenue figures.revenue revenue ([], []),
        )
        refl

  abbrev status_of : Bool → VerificationStatus
  status_of matched = if matched then VerificationStatus.verified else VerificationStatus.disputed

  -- The writes succeed, and the stored row has the status that is returned.
  record_verdict-succeeds :
      (note : List Field → List Mismatch → ℕ) (now result_id : ℕ) (document : SourceDocument)
      (found : List Field × List Mismatch) (table : List FinancialResult) (row : FinancialResult)
      → get_result result_id table ≡ some row
      → (outcome : ManualVerificationOutcome) × (after : List FinancialResult) × (record_verdict ctx
            note now result_id document found table
          ≡ inr (outcome, after))
        × (get_result result_id after ≡ some outcome.result)
        × (outcome.result.trail.verification_status ≡ status_of (no_entries found.1))
  unfolding record_verdict set_verification upgrade_timestamp_precision
  record_verdict-succeeds note now result_id document (checked, mismatches) table row h =
      let mark : FinancialResult → FinancialResult =
        with_verification (status_of (no_entries mismatches)) document.id now
          VerificationMethod.manual_primary_document (some (note checked mismatches)) in
      let marked : get_result result_id (assign_result result_id mark table) ≡ some (mark row) =
        get_result-assign_result result_id mark table row (λ r. refl) h in
      let outcome : FinancialResult → Bool → ManualVerificationOutcome = λ result upgraded. record {
        result = result;
        matched = no_entries mismatches;
        checked_fields = checked;
        mismatches = mismatches;
        timestamp_upgraded = upgraded;
      } in
      elim (Option-cases document.published_at) [
        | inl e ↦ (
          outcome (mark row) false,
          assign_result result_id mark table,
          rw (h, e) refl,
          marked,
          refl,
        )
        | inr (published, e) ↦ (
          outcome (with_timestamp published published (mark row)) true,
          assign_result result_id (with_timestamp published published)
              (assign_result result_id mark table),
          rw (h, e, marked) refl,
          get_result-assign_result result_id (with_timestamp published published)
              (assign_result result_id mark table) (mark row) (λ r. refl) marked,
          refl,
        )
      ]

  -- If the result and the document are there, the document belongs to the company of the result
  -- and is not the JSON hint: where no field is reported, the verification raises an error; where
  -- one is, it succeeds, and the stored row is verified if all reported fields agree with the
  -- stored ones within the tolerance, and disputed otherwise.
  pub verify_financial_result_manual-verdict :
      (note : List Field → List Mismatch → ℕ) (json_hint now result_id document_id : ℕ)
      (revenue pat eps : Option ℤ) (tolerance_pct : ℤ) (documents : List SourceDocument)
      (table : List FinancialResult) (row : FinancialResult) (document : SourceDocument)
      → get_result result_id table ≡ some row
      → get_document document_id documents ≡ some document
      → (document.company_id == row.company_id) ≡ true
      → (document.source_type == json_hint) ≡ false
      → (((is_some revenue || is_some pat || is_some eps) ≡ false)
          × (verify_financial_result_manual ctx note json_hint now result_id document_id revenue pat
                eps tolerance_pct documents table
              ≡ inl ValueError.nothing_reported))
        ⊎ (((is_some revenue || is_some pat || is_some eps) ≡ true)
            × (outcome : ManualVerificationOutcome) × (after : List FinancialResult)
            × (verify_financial_result_manual ctx note json_hint now result_id document_id revenue
                  pat eps tolerance_pct documents table
                ≡ inr (outcome, after))
            × (get_result result_id after ≡ some outcome.result)
            × (outcome.result.trail.verification_status ≡ (
                if all_agree row.figures revenue pat eps tolerance_pct
                then VerificationStatus.verified
                else VerificationStatus.disputed)))
  unfolding verify_financial_result_manual
  verify_financial_result_manual-verdict note json_hint now result_id document_id revenue pat eps
        tol documents table row document h g c s =
      let found = compare_figures ctx row.figures revenue pat eps tol in
      let empty : (no_entries found.0 && no_entries found.1)
          ≡ (not (is_some revenue) && not (is_some pat) && not (is_some eps)) =
        entries-compare_figures row.figures revenue pat eps tol in
      elim (Bool-cases (is_some revenue || is_some pat || is_some eps)) [
        | inl e ↦
            let (outcome, after, d, stored, status) =
              record_verdict-succeeds note now result_id document found table row h in
            let some_entry : (no_entries found.0 && no_entries found.1) ≡ false =
              empty ∙ ground arith in
            inr (
              e,
              outcome,
              after,
              rw (h, g, c, s, some_entry) d,
              stored,
              status ∙ ap status_of (mismatches-compare_figures row.figures revenue pat eps tol),
            )
        | inr e ↦
            let no_entry : (no_entries found.0 && no_entries found.1) ≡ true =
              empty ∙ ground arith in
            inl (e, rw (h, g, c, s, no_entry) refl)
      ]
