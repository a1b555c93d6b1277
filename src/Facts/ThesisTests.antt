-- ===== src/Facts/ThesisTests.antt =====
-- Tests of the theses, and witnesses of their theorems.
use nse_agent.Common.{◌≡◌, refl, inl, inr, none, some, List, [], ◌∷◌}
use nse_agent.Common.Sorting.{sort_by, insert_by, sorted_set}
use nse_agent.Facts.Financial.{VerificationStatus, FinancialResult}
use nse_agent.Recommend.Types.{Company}
use nse_agent.Recommend.Generate.{find_company}
use nse_agent.Facts.Theses.{
  Status, EvidenceRef, InvestmentThesis, active_thesis, update_thesis, thesis_of, successor_of,
}
use nse_agent.Facts.Evidence.{
  ThesisEvidenceError, ThesisText, EvidenceTables, create_active_thesis, gather_evidence,
  cite_results, cite_documents, write_thesis, new_payload, update_payload,
}
use nse_agent.Facts.Succession.{Succeeds, create_active_thesis-Succeeds}
use nse_agent.Facts.Citations.{IsEvidence, create_active_thesis-IsEvidence}
use nse_agent.Facts.TestData.{unverified_trail, first_row, annual_filing}

abbrev verified_row : FinancialResult
verified_row = record first_row {
  trail = record unverified_trail { verification_status = VerificationStatus.verified };
}

abbrev case_for : ThesisText
case_for = record {
  thesis = 1;
  drivers = 2 ∷ [];
  risks = 3 ∷ [];
  catalysts = 4 ∷ [];
  invalidation_conditions = 5 ∷ [];
}

abbrev tables : EvidenceTables
tables = record {
  companies = record { id = 3; symbol = 5 } ∷ [];
  results = verified_row ∷ [];
  documents = annual_filing ∷ [];
}

abbrev refs : List EvidenceRef
refs = EvidenceRef.financial_result 1 none 20 ∷ EvidenceRef.source_document 11 none 18 ∷ []

abbrev old_thesis : InvestmentThesis
old_thesis = thesis_of (λ s. s) 70 6 (new_payload 0 (record { id = 3; symbol = 5 }) 15 case_for [])

abbrev new_thesis : InvestmentThesis
new_thesis = successor_of 71 old_thesis (update_payload 0 25 case_for refs)

created :
    create_active_thesis (λ s. s) 0 71 6 5 25 case_for (1 ∷ []) (11 ∷ []) tables (old_thesis ∷ [])
    ≡ inr (new_thesis, old_thesis ∷ new_thesis ∷ [])
unfolding create_active_thesis find_company gather_evidence cite_results cite_documents write_thesis
    update_thesis active_thesis sort_by insert_by sorted_set
created = refl

create_active_thesis-Succeeds_example :
    Succeeds 6 5 (old_thesis ∷ []) (new_thesis, old_thesis ∷ new_thesis ∷ [])
    × (Status.active ≡ Status.active)
create_active_thesis-Succeeds_example =
    create_active_thesis-Succeeds (λ s. s) 0 71 6 5 25 case_for (1 ∷ []) (11 ∷ []) tables
      (old_thesis ∷ []) (new_thesis, old_thesis ∷ new_thesis ∷ []) (λ _. refl) (refl, tt) (refl, tt)
      created

create_active_thesis-IsEvidence_example :
    (company : Company) × (cited : List EvidenceRef) × (find_company 5 tables.companies
      ≡ some company)
    × (some refs ≡ some cited)
    × IsEvidence company.id 25 (1 ∷ []) (11 ∷ []) tables cited
create_active_thesis-IsEvidence_example =
    create_active_thesis-IsEvidence (λ s. s) 0 71 6 5 25 case_for (1 ∷ []) (11 ∷ []) tables
      (old_thesis ∷ []) (new_thesis, old_thesis ∷ new_thesis ∷ []) created

-- A result that became available after the cutoff cannot be cited.
too_late :
    create_active_thesis (λ s. s) 0 71 6 5 19 case_for (1 ∷ []) (11 ∷ []) tables (old_thesis ∷ [])
    ≡ inl ThesisEvidenceError.financial_result_not_pit_valid_at_as_of
unfolding create_active_thesis find_company gather_evidence cite_results cite_documents write_thesis
    update_thesis active_thesis sort_by insert_by sorted_set
too_late = refl
