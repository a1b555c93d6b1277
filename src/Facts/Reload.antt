-- ===== src/Facts/Reload.antt =====
-- What a later session reads of the financial results that an earlier one wrote: the columns of
-- `FinancialResult` in investing_agent/db/models.py round figures to 2 or 4 places.
use nse_agent.Common.{
  ℕ, ◌≡◌, refl, sym, ap, ◌∙◌, Bool, true, false, inl, inr, some, List, [], ◌∷◌, ◌++◌, map, All,
  if◌then◌else◌,
}
use mathlib.Core.Path.{subst}
use nse_agent.Facts.Rows.{some→≡, append_nil}
use nse_agent.Facts.Versions.{get_latest, upsert_versioned}
use nse_agent.Facts.Histories.{IsVersioned}
use nse_agent.Facts.Upserts.{upsert-cases}
use nse_agent.Facts.Versioning.{get_latest-upsert, upsert-upsert, map-upsert}
use nse_agent.Facts.Financial.{
  Figures, FinancialResult, FinancialResultCreate, same_figures, financial_results, reload,
}
use nse_agent.Facts.ResultLaws.{financial_results-Laws}

module _ (stored : Figures → Figures) where
  -- The columns hold the figures as they are.
  abbrev pub IsExact : Figures → Type 0
  IsExact f = stored f ≡ f

  reload-unchanged :
      (rows : List FinancialResult)
      → All IsExact (map (λ r. r.figures) rows)
      → reload stored rows ≡ rows
  unfolding reload
  reload-unchanged [] h = refl
  reload-unchanged (r ∷ rows) h =
      let same : record r { figures = stored r.figures } ≡ r =
        ap (λ f. record r { figures = f }) h.0 in
      rw same (ap (λ t. r ∷ t) (reload-unchanged rows h.1))

  All-last {ℓ κ} :
      {A : Type ℓ} (P : A → Type κ) (xs : List A) (x : A) → All P xs → P x → All P (xs ++ x ∷ [])
  All-last P [] x h p = (p, tt)
  All-last P (y ∷ ys) x h p = (h.0, All-last P ys x h.1 p)

  module _ (id now : ℕ) (d : FinancialResultCreate) (table : List FinancialResult)
      (row : FinancialResult) (added : Bool) (after : List FinancialResult)
      (h : IsVersioned financial_results table)
      (u : upsert_versioned financial_results id now d table ≡ some (row, added, after)) where
    -- A row that is added has the figures of the data.
    abbrev IsTaken : FinancialResult × Bool × List FinancialResult → Type 0
    IsTaken (r, true, _) = r.figures ≡ d.figures
    IsTaken (r, false, _) = Unit

    figures-added : IsTaken (row, added, after)
    figures-added = elim (upsert-cases financial_results financial_results-Laws id now d table h) [
      | inl (e, f) ↦ subst IsTaken (some→≡ (sym f ∙ u)) refl
      | inr (e, f, n, inl (q, g)) ↦ subst IsTaken (some→≡ (sym g ∙ u)) tt
      | inr (e, f, n, inr (q, g)) ↦ subst IsTaken (some→≡ (sym g ∙ u)) refl
    ]

    IsExact-after :
        (b : Bool)
        → IsTaken (row, b, after)
        → IsExact d.figures
        → All IsExact (map (λ r. r.figures) table)
        → All IsExact (map (λ r. r.figures) table ++ (if b then row.figures ∷ [] else []))
    IsExact-after true t e a = All-last IsExact (map (λ r. r.figures) table) row.figures a (rw t e)
    IsExact-after false t e a = rw (append_nil (map (λ r. r.figures) table)) a

    reload-after :
        IsExact d.figures → All IsExact (map (λ r. r.figures) table) → reload stored after ≡ after
    reload-after e a =
        let seen =
          map-upsert financial_results financial_results-Laws (λ r. r.figures) id now d table row
            added after (λ r. refl) (λ r. refl) h u in
        reload-unchanged after (rw seen (IsExact-after added figures-added e a))

  -- Where the columns hold the figures of the data and of all rows as they are, and the versions of
  -- each group are 1, 2, 3, … of which exactly the last is the latest: a later session finds under
  -- the key of the data the row that an upsert returned, with the figures of the data, and when it
  -- ingests the same data again, it gets this row and no new version, and leaves the table as it is.
  pub get_latest-upsert_result :
      (id now id' now' : ℕ) (d : FinancialResultCreate) (table : List FinancialResult)
      (row : FinancialResult) (added : Bool) (after : List FinancialResult)
      → IsExact d.figures
      → All IsExact (map (λ r. r.figures) table)
      → IsVersioned financial_results table
      → upsert_versioned financial_results id now d table ≡ some (row, added, after)
      → (get_latest financial_results (financial_results.key_of d) (reload stored after)
          ≡ some (some row))
        × (same_figures row.figures d.figures ≡ true)
        × (upsert_versioned financial_results id' now' d (reload stored after)
            ≡ some (row, false, reload stored after))
  get_latest-upsert_result id now id' now' d table row added after e a h u =
      let (found, equal, _) =
        get_latest-upsert financial_results financial_results-Laws id now d table row added after h
          u in
      rw (reload-after id now d table row added after h u e a) (
        found,
        equal,
        upsert-upsert financial_results financial_results-Laws id now id' now' d table row added
            after h u,
      )
