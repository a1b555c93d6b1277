-- ===== src/Facts/Results.antt =====
-- The repository of financial results, investing_agent/db/repositories/financial.py, and its versions.
use nse_agent.Common.{
  ℕ, ◌≡◌, refl, Bool, true, some, List, [], ◌∷◌, ◌++◌, map, filter, if◌then◌else◌, ◌==◌, All,
}
use nse_agent.Facts.Versions.{first, in_group, upsert_versioned, get_as_of, list_by_company_as_of}
use nse_agent.Facts.Histories.{IsVersioned}
use nse_agent.Facts.Versioning.{upsert-IsVersioned, map-upsert}
use nse_agent.Facts.AsOf.{list_by_company_as_of-get_as_of}
use nse_agent.Facts.Financial.{
  Figures, FinancialResult, FinancialResultCreate, ResultKey, financial_results,
}
use nse_agent.Facts.ResultLaws.{financial_results-Laws}

-- Where the versions of each group are 1, 2, 3, … in the order of writing and exactly the last is
-- the latest one, an upsert of a financial result raises nothing and leaves such a table.
pub upsert_result-IsVersioned :
    (id now : ℕ) (d : FinancialResultCreate) (table : List FinancialResult)
    → IsVersioned financial_results table
    → (row : FinancialResult) × (added : Bool) × (after : List FinancialResult) × (upsert_versioned
          financial_results id now d table
        ≡ some (row, added, after))
      × IsVersioned financial_results after
upsert_result-IsVersioned = upsert-IsVersioned financial_results financial_results-Laws

-- What no upsert may change of a row.
unfoldable pub reported : FinancialResult → ℕ × ResultKey × ℕ × Figures
reported r = (r.id, financial_results.key r, r.version, r.figures)

-- In such a table, an upsert deletes no row and overwrites neither the key, the version nor the
-- figures of any row: it only adds its row at the end, if it writes a new version.
pub reported-upsert_result :
    (id now : ℕ) (d : FinancialResultCreate) (table : List FinancialResult) (row : FinancialResult)
    (added : Bool) (after : List FinancialResult)
    → IsVersioned financial_results table
    → upsert_versioned financial_results id now d table ≡ some (row, added, after)
    → map reported after ≡ map reported table ++ (if added then reported row ∷ [] else [])
unfolding reported
reported-upsert_result id now d table row added after h u =
    map-upsert financial_results financial_results-Laws reported id now d table row added after
      (λ r. refl) (λ r. refl) h u

-- If the rows of a group belong to the company, the listing of the company as of an instant has
-- for the group the row that get_as_of finds, and has none where that finds none.
pub list_by_company_as_of-get_result_as_of :
    (company : ℕ) (k : ResultKey) (as_of : ℕ) (table : List FinancialResult)
    → All (λ r. in_group financial_results k r ≡ true → (r.company_id == company) ≡ true) table
    → first (
        filter
          (in_group financial_results k)
          (list_by_company_as_of financial_results (λ r. r.company_id == company) as_of table))
      ≡ get_as_of financial_results k as_of table
list_by_company_as_of-get_result_as_of company =
    list_by_company_as_of-get_as_of financial_results financial_results-Laws
      (λ r. r.company_id == company)
