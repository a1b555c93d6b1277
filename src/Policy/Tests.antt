-- ===== src/Policy/Tests.antt =====
-- Tests of the candidate policies, and a witness of the theorem on folds.
use nse_agent.Common.{
  ℕ, ◌/◌, ◌≡◌, refl, true, none, some, List, [], ◌∷◌, ◌++◌, map, filter, pos, ◌*ℤ◌, pos_part, leb,
  arith,
}
use nse_agent.Common.Decimals.{Context}
use nse_agent.Common.Sorting.{insert_by, sorted_set}
use nse_agent.WalkForward.Decisions.{Action, DataQualityStatus}
use nse_agent.WalkForward.Outcomes.{OutcomeStatus}
use nse_agent.WalkForward.Aggregation.{AuditRow, BenchmarkKind}
use nse_agent.Policy.Governed.{RuleId, CandidateSpec, expanding_folds, folds_at, fold_at}
use nse_agent.Policy.Folds.{expanding_folds-later}

abbrev whole : Context
whole = record { one = pos 1; product = ◌*ℤ◌; quotient = λ a b. pos (pos_part a / pos_part b) }

abbrev row_of_year : ℕ → AuditRow
row_of_year year = record {
  symbol = 7;
  action = Action.add;
  data_quality_status = DataQualityStatus.clean;
  outcome_status = OutcomeStatus.partial;
  quantity_held = pos 10;
  hold_quantity_held = none;
  holding_age_days = some 800;
  concentration_pct = none;
  calendar_year = year;
  entry_price = none;
  stock_return = λ h. some (pos 2);
  benchmark_return = λ h. none;
  excess_return = λ h. some (pos 1);
  benchmark_tri_return = λ h. none;
  excess_return_tri = λ h. none;
  max_drawdown_pct = none;
  included_in_aggregate = true;
  exclusion_reason = none;
}

abbrev long_held : CandidateSpec
long_held = record {
  rule_id = RuleId.long_held_thesis_review;
  matches = λ row. true;
  complexity = 1;
}

abbrev rows : List AuditRow
rows = row_of_year 2021 ∷ row_of_year 2022 ∷ row_of_year 2021 ∷ row_of_year 2023 ∷ []

expanding_folds-later_example :
    filter
      (λ f. leb f.validation_year 2023)
      (expanding_folds whole
        (rows ++ (row_of_year 2024 ∷ row_of_year 2025 ∷ []))
        long_held
        BenchmarkKind.price_index)
    ≡ filter
        (λ f. leb f.validation_year 2023)
        (expanding_folds whole rows long_held BenchmarkKind.price_index)
expanding_folds-later_example =
    expanding_folds-later whole long_held BenchmarkKind.price_index rows
      (row_of_year 2024 ∷ row_of_year 2025 ∷ []) 2023 (omega arith, (omega arith, tt))

-- The first year has nothing to train on.
years_of_folds :
    map (λ f. f.validation_year) (expanding_folds whole rows long_held BenchmarkKind.price_index)
    ≡ 2022 ∷ 2023 ∷ []
unfolding expanding_folds folds_at fold_at sorted_set insert_by
years_of_folds = refl
