-- ===== src/Reconstruction/Reports.antt =====
-- What a reconciliation report says.
use nse_agent.Common.{
  ℕ, ◌≡◌, refl, Bool, true, false, not, Option, some, List, [], ◌∷◌, map, filter, any,
  if◌then◌else◌, leb, ◌==◌, arith, Bool-cases, inl, inr, All, All-filter, ==→≡, ◌∙◌, sym,
}
use nse_agent.Common.Options.{>>=-eq-some}
use nse_agent.Common.Sorting.{sorted_set, insert_by}
use nse_agent.Common.Decimals.{Context}
use nse_agent.Fifo.Types.{Symbol, Date, CorporateActionEvent, OpeningPositionAdjustment}
use nse_agent.Reconstruction.Trades.{HistoricalTrade}
use nse_agent.Reconstruction.Snapshot.{PositionAsOf, not_empty}
use nse_agent.Reconstruction.Positions.{any-insert_by, not_empty-filter}
use nse_agent.Reconstruction.Reconcile.{
  PnlStatement, HoldingsStatement, ReconciliationRowDiff, OverallStatus, ReconciliationReport,
  Parsed, Progress, is_in, start_progress, divergent_of, report_of, reconcile_pnl_files,
  reconcile_holdings_files, reconcile_account,
}

any-sorted_set : (s : ℕ) (xs : List ℕ) → any (λ y. y == s) (sorted_set xs) ≡ any (λ y. y == s) xs
unfolding sorted_set
any-sorted_set s [] = refl
any-sorted_set s (x ∷ xs) = elim (Bool-cases (any (λ r. r == x) (sorted_set xs))) [
  | inl e ↦ elim (Bool-cases (x == s)) [
    | inl same ↦
        let hit : any (λ y. y == s) (sorted_set xs) ≡ true = rw (← ==→≡ x s same) e in
        rw (sorted_set, e, same) hit
    | inr other ↦ rw (sorted_set, e, other) (any-sorted_set s xs)
  ]
  | inr e ↦ rw (sorted_set, e, any-insert_by s x (sorted_set xs), any-sorted_set s xs)
]

not_empty-insert_by : (x : ℕ) (xs : List ℕ) → not_empty (insert_by leb x xs) ≡ true
unfolding insert_by
not_empty-insert_by x [] = refl
not_empty-insert_by x (y ∷ ys) = ground arith

not_empty-any {ℓ} :
    {A : Type ℓ} (p : A → Bool) (xs : List A) → any p xs ≡ true → not_empty xs ≡ true
not_empty-any p [] e = e
not_empty-any p (x ∷ xs) e = refl

not_empty-sorted_set : (xs : List ℕ) → not_empty (sorted_set xs) ≡ not_empty xs
unfolding sorted_set
not_empty-sorted_set [] = refl
not_empty-sorted_set (x ∷ xs) = elim (Bool-cases (any (λ r. r == x) (sorted_set xs))) [
  | inl e ↦ rw (sorted_set, e) (not_empty-any (λ r. r == x) (sorted_set xs) e)
  | inr e ↦ rw (sorted_set, e) (not_empty-insert_by x (sorted_set xs))
]

any-symbols :
    (p : Symbol → Bool) (ds : List ReconciliationRowDiff)
    → any p (map (λ d. d.symbol) ds) ≡ any (λ d. p d.symbol) ds
any-symbols p [] = refl
any-symbols p (d ∷ ds) = rw (any-symbols p ds)

All-imply {ℓ} :
    {A : Type ℓ} (p q : A → Bool) (xs : List A)
    → ((x : A) → p x ≡ true → q x ≡ false)
    → All (λ x. p x ≡ true) xs
    → All (λ x. q x ≡ false) xs
All-imply p q [] f h = tt
All-imply p q (x ∷ xs) f h = (f x h.0, All-imply p q xs f h.1)

not-true : (b : Bool) → not b ≡ true → b ≡ false
not-true b e = ground arith

-- The status is clean exactly without differences, and none is of a symbol with an expected gap.
abbrev pub IsTidy : ReconciliationReport → Type 0
IsTidy r =
    (r.overall_status
      ≡ (if not_empty r.row_diffs then OverallStatus.divergent else OverallStatus.clean))
    × All (λ d. is_in r.expected_gaps_corporate_action d.symbol ≡ false) r.row_diffs

divergent-not_empty :
    (p : Progress)
    → not_empty (divergent_of p) ≡ not_empty (filter (λ d. not (is_in p.gaps d.symbol)) p.diffs)
unfolding divergent_of
divergent-not_empty p =
    not_empty-sorted_set (filter (λ s. not (is_in p.gaps s)) (map (λ d. d.symbol) p.diffs))
    ∙ not_empty-filter (λ s. not (is_in p.gaps s)) (map (λ d. d.symbol) p.diffs)
    ∙ any-symbols (λ s. not (is_in p.gaps s)) p.diffs
    ∙ sym (not_empty-filter (λ d. not (is_in p.gaps d.symbol)) p.diffs)

report_of-IsTidy : (p : Progress) → IsTidy (report_of p)
unfolding report_of
report_of-IsTidy p = (
  rw (divergent-not_empty p),
  All-imply (λ d. not (is_in p.gaps d.symbol)) (λ d. is_in (sorted_set p.gaps) d.symbol)
      (filter (λ d. not (is_in p.gaps d.symbol)) p.diffs)
      (λ d e. any-sorted_set d.symbol p.gaps ∙ not-true (is_in p.gaps d.symbol) e)
      (All-filter (λ d. not (is_in p.gaps d.symbol)) p.diffs),
)

module _ (ctx : Context) (trades : List HistoricalTrade) (actions : List CorporateActionEvent)
    (adjustments : List OpeningPositionAdjustment)
    (positions_at : Date → Option (List PositionAsOf)) where
  -- A report is clean exactly if it shows no difference, and it shows none of a symbol that it
  -- lists as an expected gap.
  pub reconcile_account-IsTidy :
      (pnl_files : List (Parsed PnlStatement)) (holdings_files : List (Parsed HoldingsStatement))
      (r : ReconciliationReport)
      → reconcile_account ctx trades actions adjustments positions_at pnl_files holdings_files
        ≡ some r
      → IsTidy r
  unfolding reconcile_account
  reconcile_account-IsTidy pnl_files holdings_files r h =
      let (p, _, k) =
        >>=-eq-some
          (reconcile_pnl_files ctx trades actions adjustments positions_at pnl_files start_progress)
          _ h in
      let (q, _, e) =
        >>=-eq-some
          (reconcile_holdings_files ctx trades actions adjustments positions_at holdings_files p) _
          k in
      let same : report_of q ≡ r = cc in rw (← same) (report_of-IsTidy q)
