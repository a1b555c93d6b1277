-- ===== src/Facts/Tests.antt =====
-- Tests of the fact tables and their verification, and witnesses of their theorems.
use nse_agent.Common.{
  ℕ, ◌≡◌, refl, Bool, true, false, ◌⊎◌, inl, inr, ◌||◌, none, some, List, [], ◌∷◌, ◌++◌, map, ◌/◌,
  ◌*◌, filter, any, ℤ, pos, ◌*ℤ◌, pos_part, if◌then◌else◌, ◌==◌, Bool-cases,
}
use nse_agent.Common.Decimals.{Context}
use nse_agent.Common.Sorting.{sort_by, insert_by}
use nse_agent.Facts.Versions.{
  first, in_group, get_latest, upsert_versioned, get_as_of, list_by_company_as_of, write_version,
  add, update_current, scalar_one_or_none,
}
use nse_agent.Facts.Histories.{IsVersioned}
use nse_agent.Facts.Financial.{
  StatementScope, ReportingBasis, VerificationStatus, FinancialResult, ResultKey, same_figures,
  Figures, result_row, reload, financial_results,
}
use nse_agent.Facts.Results.{
  upsert_result-IsVersioned, reported, reported-upsert_result,
  list_by_company_as_of-get_result_as_of,
}
use nse_agent.Facts.Reload.{get_latest-upsert_result}
use nse_agent.Facts.Corrections.{get_result}
use nse_agent.Facts.Verification.{
  ValueError, ManualVerificationOutcome, get_document, verify_financial_result_manual,
  verify_financial_result_cross_source,
}
use nse_agent.Facts.Actions.{
  ActionType, CorporateActionCreate, verify_corporate_action_cross_source,
}
use nse_agent.Facts.CrossSource.{
  corroborates, corroborates_result, IsVerifiedCopy, IsVerifiedResult, cross_source-IsVerified,
}
use nse_agent.Facts.Manual.{all_agree, verify_financial_result_manual-verdict}
use nse_agent.Facts.TestData.{figures_with, unverified_trail, filing, first_row, annual_filing}

abbrev whole : Context
whole = record { one = pos 1; product = ◌*ℤ◌; quotient = λ a b. pos (pos_part a / pos_part b) }

abbrev one_result : List FinancialResult
one_result = first_row ∷ []

abbrev bel : ResultKey
bel = (7, StatementScope.standalone, ReportingBasis.quarter, 9)

one_result-IsVersioned : IsVersioned financial_results one_result
unfolding IsVersioned
one_result-IsVersioned k = elim (Bool-cases (in_group financial_results k first_row)) [
  | inl e ↦ rw e (refl, refl, tt)
  | inr e ↦ rw e tt
]

abbrev restated_row : FinancialResult
restated_row = result_row 2 60 (filing (pos 210) (some 30)) (some first_row)

abbrev two_results : List FinancialResult
two_results = record first_row { is_latest = false } ∷ restated_row ∷ []

restated :
    upsert_versioned financial_results 2 60 (filing (pos 210) (some 30)) one_result
    ≡ some (restated_row, true, two_results)
unfolding upsert_versioned get_latest write_version add update_current scalar_one_or_none
    same_figures
restated = refl

upsert_result-IsVersioned_example :
    (row : FinancialResult) × (added : Bool) × (after : List FinancialResult) × (upsert_versioned
        financial_results 2 60
        (filing (pos 210) (some 30))
        one_result
      ≡ some (row, added, after))
    × IsVersioned financial_results after
upsert_result-IsVersioned_example =
    upsert_result-IsVersioned 2 60 (filing (pos 210) (some 30)) one_result one_result-IsVersioned

-- Columns that hold revenue in tens.
abbrev in_tens : Figures → Figures
in_tens f = record f {
  revenue = elim f.revenue [ none ↦ none | some v ↦ some (pos (pos_part v / 10 * 10)) ];
}

get_latest-upsert_result_example :
    (get_latest financial_results bel (reload in_tens two_results) ≡ some (some restated_row))
    × (same_figures (figures_with (pos 210)) (figures_with (pos 210)) ≡ true)
    × (upsert_versioned financial_results 3 70
          (filing (pos 210) (some 30))
          (reload in_tens two_results)
        ≡ some (restated_row, false, reload in_tens two_results))
get_latest-upsert_result_example =
    get_latest-upsert_result in_tens 2 60 3 70 (filing (pos 210) (some 30)) one_result restated_row
      true two_results refl (refl, tt) one_result-IsVersioned restated

-- Revenue of 215 is read back as 210, so a later session writes the same data as a new version.
inexact_again :
    upsert_versioned financial_results 3 70
      (filing (pos 215) (some 30))
      (reload in_tens (result_row 1 50 (filing (pos 215) (some 20)) none ∷ []))
    ≡ some (
      result_row 3 70
          (filing (pos 215) (some 30))
          (some (result_row 1 50 (filing (pos 210) (some 20)) none)),
      true,
      record (result_row 1 50 (filing (pos 210) (some 20)) none) { is_latest = false }
          ∷ result_row 3 70
              (filing (pos 215) (some 30))
              (some (result_row 1 50 (filing (pos 210) (some 20)) none))
          ∷ [],
    )
unfolding reload upsert_versioned get_latest write_version add update_current scalar_one_or_none
    same_figures
inexact_again = refl

reported-upsert_result_example :
    map reported two_results ≡ map reported one_result ++ (reported restated_row ∷ [])
reported-upsert_result_example =
    reported-upsert_result 2 60 (filing (pos 210) (some 30)) one_result restated_row true
      two_results one_result-IsVersioned restated

list_by_company_as_of-get_result_as_of_example :
    first (
      filter
        (in_group financial_results bel)
        (list_by_company_as_of financial_results (λ r. r.company_id == 3) 25 two_results))
    ≡ get_as_of financial_results bel 25 two_results
list_by_company_as_of-get_result_as_of_example =
    list_by_company_as_of-get_result_as_of 3 bel 25 two_results ((λ _. refl), ((λ _. refl), tt))

as_of_before_the_restatement :
    get_as_of financial_results bel 25 two_results ≡ some (record first_row { is_latest = false })
unfolding get_as_of sort_by insert_by
as_of_before_the_restatement = refl

verify_financial_result_manual-verdict_example :
    (((true || true || false) ≡ false)
      × (verify_financial_result_manual whole
            (λ _ _. 0)
            8
            90
            1
            11
            (some (pos 201))
            (some (pos 40))
            none
            (pos 1)
            (annual_filing ∷ [])
            one_result
          ≡ inl ValueError.nothing_reported))
    ⊎ (((true || true || false) ≡ true)
        × (outcome : ManualVerificationOutcome) × (after : List FinancialResult)
        × (verify_financial_result_manual whole
              (λ _ _. 0)
              8
              90
              1
              11
              (some (pos 201))
              (some (pos 40))
              none
              (pos 1)
              (annual_filing ∷ [])
              one_result
            ≡ inr (outcome, after))
        × (get_result 1 after ≡ some outcome.result)
        × (outcome.result.trail.verification_status ≡ (
            if all_agree whole
              (figures_with (pos 200))
              (some (pos 201))
              (some (pos 40))
              none
              (pos 1)
            then VerificationStatus.verified
            else VerificationStatus.disputed)))
unfolding get_result get_document
verify_financial_result_manual-verdict_example =
    verify_financial_result_manual-verdict whole (λ _ _. 0) 8 90 1 11 (some (pos 201))
      (some (pos 40)) none (pos 1) (annual_filing ∷ []) one_result first_row annual_filing refl refl
      refl refl

abbrev dividend_from : ℕ → ℤ → CorporateActionCreate
dividend_from source amount = record {
  company_id = 3;
  symbol = 5;
  action_type = ActionType.dividend;
  announced_date = none;
  event_date = 120;
  terms = record {
    ex_date = some 120;
    record_date = none;
    payment_date = none;
    agm_date = none;
    amount = some amount;
    amount_currency = some 1;
    ratio = none;
    dividend_type = none;
    is_confirmed = true;
    board_meeting_announced_at = none;
    board_meeting_date = none;
    expected_result_date = none;
    actual_result_published_at = none;
  };
  details = none;
  source_type = source;
  source_url = none;
  published_at = none;
  data_category = 0;
  confidence = none;
  trail = unverified_trail;
}

abbrev other_sources : List CorporateActionCreate
other_sources = dividend_from 1 (pos 2) ∷ dividend_from 2 (pos 3) ∷ dividend_from 2 (pos 2) ∷ []

cross_source-IsVerified_example :
    (((any (corroborates (dividend_from 1 (pos 2))) other_sources ≡ true)
        × IsVerifiedCopy (dividend_from 1 (pos 2)) (
            verify_corporate_action_cross_source
              (λ s. s)
              90
              (dividend_from 1 (pos 2))
              other_sources))
      ⊎ ((any (corroborates (dividend_from 1 (pos 2))) other_sources ≡ false)
          × (verify_corporate_action_cross_source
                (λ s. s)
                90
                (dividend_from 1 (pos 2))
                other_sources
              ≡ dividend_from 1 (pos 2))))
    × (((any (corroborates_result (filing (pos 200) none)) [] ≡ true)
          × IsVerifiedResult
              (filing (pos 200) none)
              (verify_financial_result_cross_source (λ s. s) 90 (filing (pos 200) none) []))
        ⊎ ((any (corroborates_result (filing (pos 200) none)) [] ≡ false)
            × (verify_financial_result_cross_source (λ s. s) 90 (filing (pos 200) none) []
                ≡ filing (pos 200) none)))
cross_source-IsVerified_example =
    cross_source-IsVerified (λ s. s) 90 (dividend_from 1 (pos 2)) other_sources
      (filing (pos 200) none) []

-- The first two candidates do not corroborate the dividend, the third does.
corroborated : any (corroborates (dividend_from 1 (pos 2))) other_sources ≡ true
unfolding corroborates
corroborated = refl
