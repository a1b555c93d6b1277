-- ===== src/Facts/Evidence.antt =====
-- `create_active_thesis` of investing_agent/services/active_theses.py.
use nse_agent.Common.{
  ℕ, ◌≡◌, Bool, true, false, not, ◌&&◌, ◌||◌, ◌⊎◌, inl, inr, Option, none, some, List, [], ◌∷◌,
  ◌++◌, filter, any, length, if◌then◌else◌, ◌==◌, ltb, refl, Bool-cases, Option-cases,
}
use nse_agent.Common.Sorting.{sorted_set}
use nse_agent.Facts.Financial.{VerificationStatus, FinancialResult}
use nse_agent.Facts.Verification.{SourceDocument, no_entries}
use nse_agent.Recommend.Types.{Company}
use nse_agent.Recommend.Generate.{find_company}
use nse_agent.Facts.Theses.{
  Status, EvidenceRef, InvestmentThesis, InvestmentThesisCreate, InvestmentThesisUpdate,
  active_thesis, create_thesis, update_thesis,
}

-- `ThesisEvidenceError`, by its text
pub data ThesisEvidenceError : Type 0 where
  company_not_resolved : ThesisEvidenceError
  drivers_risks_catalysts_and_invalidation_conditions_are_all_required : ThesisEvidenceError
  at_least_one_verified_financial_result_is_required : ThesisEvidenceError
  financial_result_not_found : ThesisEvidenceError
  financial_result_must_be_verified_and_belong_to_company : ThesisEvidenceError
  financial_result_not_pit_valid_at_as_of : ThesisEvidenceError
  source_document_not_found : ThesisEvidenceError
  source_document_must_belong_to_company : ThesisEvidenceError
  source_document_not_pit_valid_at_as_of : ThesisEvidenceError

-- The arguments that are copied to the thesis.
pub record ThesisText : Type 0 where
  pub thesis : ℕ
  pub drivers : List ℕ
  pub risks : List ℕ
  pub catalysts : List ℕ
  pub invalidation_conditions : List ℕ

-- The tables that are read.
pub record EvidenceTables : Type 0 where
  pub companies : List Company
  pub results : List FinancialResult
  pub documents : List SourceDocument

-- An exception ends the function.
infixl 5 ◌>>=ᵉ◌
abbrev pub ◌>>=ᵉ◌ {ℓ} :
    {A B : Type ℓ}
    → ThesisEvidenceError ⊎ A
    → (A → ThesisEvidenceError ⊎ B)
    → ThesisEvidenceError ⊎ B
inl e >>=ᵉ f = inl e
inr a >>=ᵉ f = f a

abbrev pub is_verified : VerificationStatus → Bool
is_verified VerificationStatus.verified = true
is_verified _ = false

abbrev pub result_ref : FinancialResult → EvidenceRef
result_ref r = EvidenceRef.financial_result r.id r.trail.source_document_id r.available_at

abbrev pub document_ref : SourceDocument → EvidenceRef
document_ref d = EvidenceRef.source_document d.id d.source_url d.available_at

-- `select(...).where(id.in_(ids))`
abbrev pub results_in : List ℕ → List FinancialResult → List FinancialResult
results_in ids table = filter (λ r. any (λ i. i == r.id) ids) table

abbrev pub documents_in : List ℕ → List SourceDocument → List SourceDocument
documents_in ids table = filter (λ d. any (λ i. i == d.id) ids) table

-- The loop over the results, which appends to `evidence_refs`.
unfoldable pub cite_results :
    ℕ → ℕ → List EvidenceRef → List FinancialResult → ThesisEvidenceError ⊎ List EvidenceRef
cite_results company as_of refs [] = inr refs
cite_results company as_of refs (r ∷ rs) =
    let rest = cite_results company as_of (refs ++ (result_ref r ∷ [])) rs in
    if not (r.company_id == company) || not (is_verified r.trail.verification_status)
    then inl ThesisEvidenceError.financial_result_must_be_verified_and_belong_to_company
    else (if ltb as_of r.available_at
        then inl ThesisEvidenceError.financial_result_not_pit_valid_at_as_of
        else rest)

-- The loop over the documents.
unfoldable pub cite_documents :
    ℕ → ℕ → List EvidenceRef → List SourceDocument → ThesisEvidenceError ⊎ List EvidenceRef
cite_documents company as_of refs [] = inr refs
cite_documents company as_of refs (d ∷ ds) =
    let rest = cite_documents company as_of (refs ++ (document_ref d ∷ [])) ds in
    if not (d.company_id == company)
    then inl ThesisEvidenceError.source_document_must_belong_to_company
    else (if ltb as_of d.available_at
        then inl ThesisEvidenceError.source_document_not_pit_valid_at_as_of
        else rest)

-- The queries and checks of the evidence.
unfoldable pub gather_evidence :
    ℕ → ℕ → List ℕ → List ℕ → EvidenceTables → ThesisEvidenceError ⊎ List EvidenceRef
gather_evidence company as_of result_ids document_ids tables =
    let results = results_in result_ids tables.results in
    if not (length results == length (sorted_set result_ids))
    then inl ThesisEvidenceError.financial_result_not_found
    else (cite_results company as_of [] results >>=ᵉ λ refs.
        let documents =
          if no_entries document_ids then [] else documents_in document_ids tables.documents in
        if not (length documents == length (sorted_set document_ids))
        then inl ThesisEvidenceError.source_document_not_found
        else cite_documents company as_of refs documents)

-- The payload of a new thesis and of a successor; `model` is THESIS_MODEL_VERSION. The update has
-- no company and no symbol.
abbrev pub new_payload : ℕ → Company → ℕ → ThesisText → List EvidenceRef → InvestmentThesisCreate
new_payload model company as_of text refs = record {
  symbol = company.symbol;
  status = Status.active;
  thesis = some text.thesis;
  buy_reasons = some text.drivers;
  risk_factors = some text.risks;
  catalysts = some text.catalysts;
  invalidation_conditions = some text.invalidation_conditions;
  target_price_low = none;
  target_price_base = none;
  target_price_high = none;
  horizon_months = none;
  entry_price = none;
  company_id = some company.id;
  as_of = some as_of;
  thesis_model_version = model;
  evidence_refs = some refs;
}

abbrev pub update_payload : ℕ → ℕ → ThesisText → List EvidenceRef → InvestmentThesisUpdate
update_payload model as_of text refs = record {
  status = some Status.active;
  thesis = some text.thesis;
  buy_reasons = some text.drivers;
  risk_factors = some text.risks;
  catalysts = some text.catalysts;
  invalidation_conditions = some text.invalidation_conditions;
  target_price_low = none;
  target_price_base = none;
  target_price_high = none;
  horizon_months = none;
  exit_price = none;
  outcome_notes = none;
  as_of = some as_of;
  thesis_model_version = some model;
  evidence_refs = some refs;
}

-- The end of `create_active_thesis`: a successor of the active thesis, or a first one.
unfoldable pub write_thesis :
    (ℕ → ℕ)
    → ℕ
    → ℕ
    → ℕ
    → Company
    → ℕ
    → ThesisText
    → List EvidenceRef
    → Option InvestmentThesis
    → List InvestmentThesis
    → InvestmentThesis × List InvestmentThesis
write_thesis upper model id user company as_of text refs none table =
    create_thesis upper id user (new_payload model company as_of text refs) table
write_thesis upper model id user company as_of text refs (some current) table =
    update_thesis id current (update_payload model as_of text refs) table

abbrev pub has_all : ThesisText → Bool
has_all text =
    not (no_entries text.drivers)
    && not (no_entries text.risks)
    && not (no_entries text.catalysts)
    && not (no_entries text.invalidation_conditions)

-- `create_active_thesis`: the thesis and the table of theses. The database generates `id`.
unfoldable pub create_active_thesis :
    (ℕ → ℕ)
    → ℕ
    → ℕ
    → ℕ
    → ℕ
    → ℕ
    → ThesisText
    → List ℕ
    → List ℕ
    → EvidenceTables
    → List InvestmentThesis
    → ThesisEvidenceError ⊎ (InvestmentThesis × List InvestmentThesis)
create_active_thesis upper model id user symbol as_of text result_ids document_ids tables table =
    elim (find_company (upper symbol) tables.companies) [
      | none ↦ inl ThesisEvidenceError.company_not_resolved
      | some company ↦
          if not (has_all text)
          then inl
              ThesisEvidenceError.drivers_risks_catalysts_and_invalidation_conditions_are_all_required
          else (if no_entries result_ids
              then inl ThesisEvidenceError.at_least_one_verified_financial_result_is_required
              else (gather_evidence company.id as_of result_ids document_ids tables >>=ᵉ λ refs.
                  inr (
                    write_thesis upper model id user company as_of text refs
                      (active_thesis user (upper company.symbol) table) table)))
    ]

pub >>=ᵉ-eq-inr {ℓ} :
    {A B : Type ℓ} (m : ThesisEvidenceError ⊎ A) (f : A → ThesisEvidenceError ⊎ B) (b : B)
    → (m >>=ᵉ f) ≡ inr b
    → (a : A) × (m ≡ inr a) × (f a ≡ inr b)
>>=ᵉ-eq-inr (inl e) f b h = cc
>>=ᵉ-eq-inr (inr a) f b h = (a, refl, h)

-- What has been checked when a thesis is created.
pub create_active_thesis-eq-inr :
    (upper : ℕ → ℕ) (model id user symbol as_of : ℕ) (text : ThesisText)
    (result_ids document_ids : List ℕ) (tables : EvidenceTables) (table : List InvestmentThesis)
    (created : InvestmentThesis × List InvestmentThesis)
    → create_active_thesis upper model id user symbol as_of text result_ids document_ids tables
        table
      ≡ inr created
    → (company : Company) × (refs : List EvidenceRef) × (find_company
          (upper symbol)
          tables.companies
        ≡ some company)
      × (gather_evidence company.id as_of result_ids document_ids tables ≡ inr refs)
      × (write_thesis upper model id user company as_of text refs
            (active_thesis user (upper company.symbol) table)
            table
          ≡ created)
unfolding create_active_thesis
create_active_thesis-eq-inr upper model id user symbol as_of text result_ids document_ids tables
      table created h =
    elim (Option-cases (find_company (upper symbol) tables.companies)) [
      | inl e ↦ let wrong : _ ≡ inr created = rw (create_active_thesis, e) at h in cc
      | inr (company, e) ↦ elim (Bool-cases (has_all text)) [
        | inr f ↦ let wrong : _ ≡ inr created = rw (create_active_thesis, e, f) at h in cc
        | inl f ↦ elim (Bool-cases (no_entries result_ids)) [
          | inl g ↦ let wrong : _ ≡ inr created = rw (create_active_thesis, e, f, g) at h in cc
          | inr g ↦
              let (refs, k, l) =
                >>=ᵉ-eq-inr (gather_evidence company.id as_of result_ids document_ids tables) _
                  created (rw (create_active_thesis, e, f, g) at h) in
              (company, refs, e, k, cc)
        ]
      ]
    ]
