-- ===== src/Policy/Governed.antt =====
-- investing_agent/services/governed_policy.py: fixed candidates are evaluated over audit rows, with
-- folds that train on earlier years and validate on a later one.
use nse_agent.Common.{
  ℕ, ◌-◌, ◌*◌, ◌/◌, ◌%◌, Bool, true, false, not, ◌&&◌, ◌||◌, Option, none, some, List, [], ◌∷◌,
  ◌++◌, map, filter, length, count_if, get_or, ℤ, pos, ◌+ℤ◌, ◌-ℤ◌, ◌*ℤ◌, abs_ℤ, sum_ℤ, min_ℤ, ltb_ℤ,
  leb_ℤ, if◌then◌else◌, ◌==◌, leb, ltb, is_some,
}
use nse_agent.Common.Sorting.{sort_by, sorted_set}
use nse_agent.Common.Decimals.{Context}
use nse_agent.WalkForward.Decisions.{Action}
use nse_agent.WalkForward.Aggregation.{
  AuditRow, Horizon, BenchmarkKind, known, is_positive, decimal, decision_dollar_impact,
  excess_return_of, group_by,
}

pub data RuleId : Type 0 where
  add_after_6_to_12m_review : RuleId
  long_held_thesis_review : RuleId
  high_concentration_add_penalty : RuleId

-- A candidate: its id, its test of rows and its complexity; its texts for display are left out.
pub record CandidateSpec : Type 0 where
  pub rule_id : RuleId
  pub matches : AuditRow → Bool
  pub complexity : ℕ

pub record Metrics : Type 0 where
  pub n : ℕ
  pub median_stock_return_pct : Option ℤ
  pub median_benchmark_return_pct : Option ℤ
  pub median_excess_return_pct : Option ℤ
  pub median_decision_dollar_impact : Option ℤ
  pub hit_rate_pct : Option ℤ
  pub benchmark_outperformance_rate_pct : Option ℤ
  pub median_drawdown_pct : Option ℤ
  pub turnover_inr : ℤ
  pub median_concentration_pct : Option ℤ
  pub interventions : ℕ

pub record ValidationFold : Type 0 where
  pub train_end_year : ℕ
  pub validation_year : ℕ
  pub train : Metrics
  pub validation : Metrics

pub data RejectionReason : Type 0 where
  full_history_sample : RejectionReason
  excluding_2020_sample : RejectionReason
  too_few_folds : RejectionReason
  no_benchmark_relative_result : RejectionReason
  no_positive_excess_return : RejectionReason
  depends_on_one_symbol : RejectionReason
  drawdown_degradation : ℕ → RejectionReason
  complexity_penalty : RejectionReason

pub data EvaluationStatus : Type 0 where
  backtested : EvaluationStatus
  rejected : EvaluationStatus

pub record CandidateEvaluation : Type 0 where
  pub spec : CandidateSpec
  pub benchmark_kind : BenchmarkKind
  pub full_history : Metrics
  pub excluding_2020 : Metrics
  pub folds : List ValidationFold
  pub status : EvaluationStatus
  pub evaluation_confidence : Option ℤ
  pub rejection_reasons : List RejectionReason

abbrev pub is_add : Action → Bool
is_add Action.add = true
is_add _ = false

abbrev pub known_and {ℓ} : {A : Type ℓ} → (A → Bool) → Option A → Bool
known_and test none = false
known_and test (some v) = test v

abbrev pub is_none_left {ℓ} : {A : Type ℓ} → List A → Bool
is_none_left [] = true
is_none_left (_ ∷ _) = false

-- The rows of a cohort.
abbrev pub cohort : List AuditRow → CandidateSpec → List AuditRow
cohort rows spec =
    filter
      (λ r. r.included_in_aggregate && spec.matches r && is_some (r.stock_return Horizon.months_12))
      rows

abbrev pub benchmark_of : BenchmarkKind → AuditRow → Option ℤ
benchmark_of BenchmarkKind.tri row = row.benchmark_tri_return Horizon.months_12
benchmark_of BenchmarkKind.price_index row = row.benchmark_return Horizon.months_12

-- `max` of the counts of the groups
unfoldable pub largest_group {ℓ κ} : {K : Type ℓ} {A : Type κ} → List (K × List A) → ℕ
largest_group [] = 0
largest_group ((_, rows) ∷ groups) =
    let rest = largest_group groups in if ltb rest (length rows) then length rows else rest

module _ (ctx : Context) where
  -- `candidate_specs`
  abbrev pub candidate_specs : List CandidateSpec
  candidate_specs =
      record {
        rule_id = RuleId.add_after_6_to_12m_review;
        matches = λ row.
            is_add row.action && known_and (λ d. leb 182 d && ltb d 365) row.holding_age_days;
        complexity = 1;
      }
      ∷ record {
        rule_id = RuleId.long_held_thesis_review;
        matches = λ row. known_and (λ d. leb 730 d) row.holding_age_days;
        complexity = 1;
      }
      ∷ record {
        rule_id = RuleId.high_concentration_add_penalty;
        matches = λ row.
            is_add row.action && known_and (λ c. leb_ℤ ctx.one (pos 2 *ℤ c)) row.concentration_pct;
        complexity = 1;
      }
      ∷ []

  -- `_median`
  unfoldable pub median_of : List ℤ → Option ℤ
  median_of [] = none
  median_of (v ∷ values) =
      let ordered = sort_by leb_ℤ (v ∷ values) in
      let middle = length ordered / 2 in
      some (
        if length ordered % 2 == 1
        then get_or ordered middle (pos 0)
        else ctx.quotient (get_or ordered (middle - 1) (pos 0) +ℤ get_or ordered middle (pos 0))
            (decimal ctx 2))

  -- `_pct`
  unfoldable pub pct : List ℤ → (ℤ → Bool) → Option ℤ
  pct [] predicate = none
  pct (v ∷ values) predicate = some (
      ctx.quotient (ctx.product (decimal ctx (count_if predicate (v ∷ values))) (decimal ctx 100))
        (decimal ctx (length (v ∷ values))))

  -- `_median(values) * 100 if values else None`
  unfoldable pub median_pct : List ℤ → Option ℤ
  median_pct values = elim (median_of values) [
    | none ↦ none
    | some v ↦ some (ctx.product v (decimal ctx 100))
  ]

  -- The terms of the turnover.
  unfoldable pub traded_value : AuditRow → Option ℤ
  traded_value row = elim row.hold_quantity_held [
    | none ↦ none
    | some hold ↦ elim row.entry_price [
      | none ↦ none
      | some price ↦ some (ctx.product (abs_ℤ (row.quantity_held -ℤ hold)) price)
    ]
  ]

  unfoldable pub summarize : List AuditRow → CandidateSpec → BenchmarkKind → Metrics
  summarize rows spec benchmark_kind =
      let matched = cohort rows spec in
      let excess = known (λ r. excess_return_of r Horizon.months_12 benchmark_kind) matched in
      let returns = known (λ r. r.stock_return Horizon.months_12) matched in
      record {
        n = length matched;
        median_stock_return_pct = median_pct returns;
        median_benchmark_return_pct = median_pct (known (benchmark_of benchmark_kind) matched);
        median_excess_return_pct = median_pct excess;
        median_decision_dollar_impact =
            median_of (known (decision_dollar_impact ctx Horizon.months_12) matched);
        hit_rate_pct = pct returns is_positive;
        benchmark_outperformance_rate_pct = pct excess is_positive;
        median_drawdown_pct = median_pct (known (λ r. r.max_drawdown_pct) matched);
        turnover_inr = sum_ℤ (known traded_value matched);
        median_concentration_pct = median_pct (known (λ r. r.concentration_pct) matched);
        interventions = length matched;
      }

  -- One round of the loop over the years: the fold, unless a side is empty.
  unfoldable pub fold_at : List AuditRow → CandidateSpec → BenchmarkKind → ℕ → List ValidationFold
  fold_at rows spec benchmark_kind year =
      let train = filter (λ r. ltb r.calendar_year year) rows in
      let validation = filter (λ r. r.calendar_year == year) rows in
      if is_none_left train || is_none_left validation
      then []
      else record {
        train_end_year = year - 1;
        validation_year = year;
        train = summarize train spec benchmark_kind;
        validation = summarize validation spec benchmark_kind;
      }
        ∷ []

  unfoldable pub folds_at :
      List AuditRow → CandidateSpec → BenchmarkKind → List ℕ → List ValidationFold
  folds_at rows spec benchmark_kind [] = []
  folds_at rows spec benchmark_kind (year ∷ years) =
      fold_at rows spec benchmark_kind year ++ folds_at rows spec benchmark_kind years

  -- The folds of `validate_expanding`.
  unfoldable pub expanding_folds :
      List AuditRow → CandidateSpec → BenchmarkKind → List ValidationFold
  expanding_folds rows spec benchmark_kind =
      folds_at rows spec benchmark_kind (sorted_set (map (λ r. r.calendar_year) rows))

  abbrev pub reason_if : Bool → RejectionReason → List RejectionReason
  reason_if test reason = if test then reason ∷ [] else []

  -- The validation drawdown is worse than that of training by more than ten points.
  abbrev pub has_degraded : ValidationFold → Bool
  has_degraded fold = elim fold.train.median_drawdown_pct [
    | none ↦ false
    | some train ↦ elim fold.validation.median_drawdown_pct [
      | none ↦ false
      | some validation ↦ ltb_ℤ validation (train -ℤ decimal ctx 10)
    ]
  ]

  -- The loop over the valid folds, which stops at the first that has degraded.
  unfoldable pub degradation : List ValidationFold → List RejectionReason
  degradation [] = []
  degradation (fold ∷ folds) =
      let rest = degradation folds in
      if has_degraded fold
      then RejectionReason.drawdown_degradation fold.validation_year ∷ []
      else rest

  unfoldable pub rejection_reasons_of :
      List AuditRow → CandidateSpec → Metrics → Metrics → List ValidationFold → List RejectionReason
  rejection_reasons_of rows spec full_history excluding_2020 folds =
      let valid_folds = filter (λ f. leb 5 f.train.n && leb 5 f.validation.n) folds in
      let matched = filter (λ r. r.included_in_aggregate && spec.matches r) rows in
      let symbols = group_by (λ a b. a == b) matched (λ r. r.symbol) in
      reason_if (ltb full_history.n 5) RejectionReason.full_history_sample
      ++ reason_if (ltb excluding_2020.n 5) RejectionReason.excluding_2020_sample
      ++ reason_if (ltb (length valid_folds) 2) RejectionReason.too_few_folds
      ++ elim excluding_2020.median_excess_return_pct [
        | none ↦ RejectionReason.no_benchmark_relative_result ∷ []
        | some excess ↦ reason_if (leb_ℤ excess (pos 0)) RejectionReason.no_positive_excess_return
      ]
      ++ reason_if (not (is_none_left matched) && ltb (length matched) (2 * largest_group symbols))
          RejectionReason.depends_on_one_symbol
      ++ degradation valid_folds
      ++ reason_if
          (known_and (λ v. leb_ℤ v (decimal ctx spec.complexity))
            excluding_2020.median_excess_return_pct)
          RejectionReason.complexity_penalty

  -- `min(Decimal("0.90"), Decimal(n) / Decimal(100))`
  abbrev pub backtest_confidence : ℕ → ℤ
  backtest_confidence n =
      min_ℤ (ctx.quotient (decimal ctx 90) (decimal ctx 100))
        (ctx.quotient (decimal ctx n) (decimal ctx 100))

  -- `validate_expanding`
  unfoldable pub validate_expanding :
      List AuditRow → CandidateSpec → BenchmarkKind → CandidateEvaluation
  validate_expanding rows spec benchmark_kind =
      let full_history = summarize rows spec benchmark_kind in
      let excluding_2020 =
        summarize (filter (λ r. not (r.calendar_year == 2020)) rows) spec benchmark_kind in
      let folds = expanding_folds rows spec benchmark_kind in
      let reasons = rejection_reasons_of rows spec full_history excluding_2020 folds in
      record {
        spec = spec;
        benchmark_kind = benchmark_kind;
        full_history = full_history;
        excluding_2020 = excluding_2020;
        folds = folds;
        status =
            if is_none_left reasons then EvaluationStatus.backtested else EvaluationStatus.rejected;
        evaluation_confidence =
            if is_none_left reasons then some (backtest_confidence full_history.n) else none;
        rejection_reasons = reasons;
      }
