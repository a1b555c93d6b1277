-- ===== src/Facts/Citations.antt =====
-- What an active thesis cites: `create_active_thesis` of
-- investing_agent/services/active_theses.py admits no evidence that was not known in time.
use nse_agent.Common.{
  ℕ, ◌≡◌, ◌≤◌, refl, sym, ap, ◌∙◌, Bool, true, false, not, ◌||◌, inl, inr, Option, none, some, List,
  [], ◌∷◌, ◌++◌, map, length, if◌then◌else◌, ◌==◌, ==→≡, ltb, arith, All, Bool-cases,
}
use nse_agent.Common.Sorting.{sorted_set}
use nse_agent.Facts.Rows.{append_assoc, nil_append}
use nse_agent.Facts.Financial.{VerificationStatus, FinancialResult}
use nse_agent.Facts.Verification.{SourceDocument, no_entries}
use nse_agent.Recommend.Types.{Company}
use nse_agent.Recommend.Generate.{find_company}
use nse_agent.Facts.Theses.{
  EvidenceRef, InvestmentThesis, active_thesis, create_thesis, update_thesis,
}
use nse_agent.Facts.Evidence.{
  ThesisText, EvidenceTables, >>=ᵉ-eq-inr, is_verified, result_ref, document_ref, results_in,
  documents_in, cite_results, cite_documents, gather_evidence, write_thesis, create_active_thesis,
  create_active_thesis-eq-inr,
}

-- A result of the company that is verified and was available in time.
abbrev pub IsCitable : ℕ → ℕ → FinancialResult → Type 0
IsCitable company as_of r =
    (r.company_id ≡ company)
    × (r.trail.verification_status ≡ VerificationStatus.verified)
    × (r.available_at ≤ as_of)

-- A document of the company that was available in time.
abbrev pub IsCitableDocument : ℕ → ℕ → SourceDocument → Type 0
IsCitableDocument company as_of d = (d.company_id ≡ company) × (d.available_at ≤ as_of)

verified_of : (s : VerificationStatus) → is_verified s ≡ true → s ≡ VerificationStatus.verified
verified_of VerificationStatus.unverified h = cc
verified_of VerificationStatus.verified h = refl
verified_of VerificationStatus.disputed h = cc

neither : (a b : Bool) → (not a || not b) ≡ false → (a ≡ true) × (b ≡ true)
neither true true h = (refl, refl)
neither true false h = cc
neither false b h = cc

not_late : (a b : ℕ) → ltb a b ≡ false → b ≤ a
not_late a b h = ground arith

cite_results-eq-inr :
    (company as_of : ℕ) (refs out : List EvidenceRef) (rs : List FinancialResult)
    → cite_results company as_of refs rs ≡ inr out
    → All (IsCitable company as_of) rs × (out ≡ refs ++ map result_ref rs)
unfolding cite_results
cite_results-eq-inr company as_of refs out [] h =
    let same : refs ≡ out = cc in (tt, sym same ∙ nil_append refs)
cite_results-eq-inr company as_of refs out (r ∷ rs) h =
    elim (Bool-cases
      (not (r.company_id == company) || not (is_verified r.trail.verification_status))) [
        | inl e ↦ let wrong : _ ≡ inr out = rw (cite_results, e) at h in cc
        | inr e ↦ elim (Bool-cases (ltb as_of r.available_at)) [
          | inl f ↦ let wrong : _ ≡ inr out = rw (cite_results, e, f) at h in cc
          | inr f ↦
              let (c, v) =
                neither (r.company_id == company) (is_verified r.trail.verification_status) e in
              let (all, same) =
                cite_results-eq-inr company as_of (refs ++ (result_ref r ∷ [])) out rs
                  (rw (cite_results, e, f) at h) in
              (
                (
                  (
                    ==→≡ r.company_id company c,
                    verified_of r.trail.verification_status v,
                    not_late as_of r.available_at f,
                  ),
                  all,
                ),
                same ∙ append_assoc refs (result_ref r ∷ []) (map result_ref rs),
              )
        ]
      ]

cite_documents-eq-inr :
    (company as_of : ℕ) (refs out : List EvidenceRef) (ds : List SourceDocument)
    → cite_documents company as_of refs ds ≡ inr out
    → All (IsCitableDocument company as_of) ds × (out ≡ refs ++ map document_ref ds)
unfolding cite_documents
cite_documents-eq-inr company as_of refs out [] h =
    let same : refs ≡ out = cc in (tt, sym same ∙ nil_append refs)
cite_documents-eq-inr company as_of refs out (d ∷ ds) h =
    elim (Bool-cases (d.company_id == company)) [
      | inr e ↦ let wrong : _ ≡ inr out = rw (cite_documents, e) at h in cc
      | inl e ↦ elim (Bool-cases (ltb as_of d.available_at)) [
        | inl f ↦ let wrong : _ ≡ inr out = rw (cite_documents, e, f) at h in cc
        | inr f ↦
            let (all, same) =
              cite_documents-eq-inr company as_of (refs ++ (document_ref d ∷ [])) out ds
                (rw (cite_documents, e, f) at h) in
            (
              ((==→≡ d.company_id company e, not_late as_of d.available_at f), all),
              same ∙ append_assoc refs (document_ref d ∷ []) (map document_ref ds),
            )
      ]
    ]

no_documents : (ds : List SourceDocument) → documents_in [] ds ≡ []
no_documents [] = refl
no_documents (d ∷ ds) = no_documents ds

named_documents :
    (ids : List ℕ) (ds : List SourceDocument)
    → (if no_entries ids then [] else documents_in ids ds) ≡ documents_in ids ds
named_documents [] ds = sym (no_documents ds)
named_documents (i ∷ ids) ds = refl

-- What the references of a company's thesis are, by the ids that are given.
abbrev pub IsEvidence : ℕ → ℕ → List ℕ → List ℕ → EvidenceTables → List EvidenceRef → Type 0
IsEvidence company as_of result_ids document_ids tables refs =
    (refs
      ≡ map result_ref (results_in result_ids tables.results)
        ++ map document_ref (documents_in document_ids tables.documents))
    × All (IsCitable company as_of) (results_in result_ids tables.results)
    × All (IsCitableDocument company as_of) (documents_in document_ids tables.documents)
    × ((length (results_in result_ids tables.results) == length (sorted_set result_ids)) ≡ true)
    × ((length (documents_in document_ids tables.documents) == length (sorted_set document_ids))
        ≡ true)

gather_evidence-eq-inr :
    (company as_of : ℕ) (result_ids document_ids : List ℕ) (tables : EvidenceTables)
    (refs : List EvidenceRef)
    → gather_evidence company as_of result_ids document_ids tables ≡ inr refs
    → IsEvidence company as_of result_ids document_ids tables refs
unfolding gather_evidence
gather_evidence-eq-inr company as_of result_ids document_ids tables refs h =
    let results = results_in result_ids tables.results in
    let documents = documents_in document_ids tables.documents in
    elim (Bool-cases (length results == length (sorted_set result_ids))) [
      | inr e ↦ let wrong : _ ≡ inr refs = rw (gather_evidence, e) at h in cc
      | inl e ↦
          let (cited, k, l) =
            >>=ᵉ-eq-inr (cite_results company as_of [] results) _ refs
              (rw (gather_evidence, e, named_documents document_ids tables.documents) at h) in
          elim (Bool-cases (length documents == length (sorted_set document_ids))) [
            | inr f ↦ let wrong : _ ≡ inr refs = rw f at l in cc
            | inl f ↦
                let (results-citable, first) =
                  cite_results-eq-inr company as_of [] cited results k in
                let (documents-citable, both) =
                  cite_documents-eq-inr company as_of cited refs documents (rw f at l) in
                (
                  both ∙ ap (λ t. t ++ map document_ref documents) first,
                  results-citable,
                  documents-citable,
                  e,
                  f,
                )
          ]
    ]

thesis-evidence_refs :
    (upper : ℕ → ℕ) (model id user as_of : ℕ) (company : Company) (text : ThesisText)
    (refs : List EvidenceRef) (current : Option InvestmentThesis) (table : List InvestmentThesis)
    → (write_thesis upper model id user company as_of text refs current table).0.evidence_refs
      ≡ some refs
unfolding write_thesis create_thesis update_thesis
thesis-evidence_refs upper model id user as_of company text refs none table = refl
thesis-evidence_refs upper model id user as_of company text refs (some current) table = refl

-- If an active thesis is created, then for the company of its symbol its references are those of
-- the results with the given ids, then of the documents with the given ids, as many of each as
-- there are different ids; each result is of the company, verified and available by the cutoff,
-- and each document is of the company and available by the cutoff.
pub create_active_thesis-IsEvidence :
    (upper : ℕ → ℕ) (model id user symbol as_of : ℕ) (text : ThesisText)
    (result_ids document_ids : List ℕ) (tables : EvidenceTables) (table : List InvestmentThesis)
    (created : InvestmentThesis × List InvestmentThesis)
    → create_active_thesis upper model id user symbol as_of text result_ids document_ids tables
        table
      ≡ inr created
    → (company : Company) × (refs : List EvidenceRef) × (find_company
          (upper symbol)
          tables.companies
        ≡ some company)
      × (created.0.evidence_refs ≡ some refs)
      × IsEvidence company.id as_of result_ids document_ids tables refs
create_active_thesis-IsEvidence upper model id user symbol as_of text result_ids document_ids tables
      table created h =
    let (company, refs, e, k, w) =
      create_active_thesis-eq-inr upper model id user symbol as_of text result_ids document_ids
        tables table created h in
    (
      company,
      refs,
      e,
      rw (← w) (
          thesis-evidence_refs upper model id user as_of company text refs
            (active_thesis user (upper company.symbol) table) table),
      gather_evidence-eq-inr company.id as_of result_ids document_ids tables refs k,
    )
