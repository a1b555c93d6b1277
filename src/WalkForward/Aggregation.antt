-- ===== src/WalkForward/Aggregation.antt =====
-- Aggregation over audit rows: aggregation.py of investing_agent/services/walkforward, with the
-- exclusion rules of audit.py.
use nse_agent.Common.{
  ℕ, ◌-◌, ◌/◌, ◌%◌, Bool, Option, none, some, List, [], ◌∷◌, ◌++◌, map, ℤ, pos, ◌+ℤ◌, ◌-ℤ◌, ◌*ℤ◌,
  sum_ℤ, ltb_ℤ, leb_ℤ, filter, length, get_or, count_if, if◌then◌else◌, ltb, ◌==◌,
}
use nse_agent.Common.Sorting.{sort_by}
use nse_agent.Common.Decimals.{Context}
use nse_agent.Fifo.Types.{Symbol}
use nse_agent.WalkForward.Decisions.{Action, DataQualityStatus}
use nse_agent.WalkForward.Outcomes.{OutcomeStatus}

-- "1m", "3m", "6m" and "12m"
pub data Horizon : Type 0 where
  months_1 months_3 months_6 months_12 : Horizon

pub data BenchmarkKind : Type 0 where
  price_index tri : BenchmarkKind

pub data ExclusionReason : Type 0 where
  reconstruction_warning unscorable_no_entry_price unscorable_no_horizon_data : ExclusionReason
  wash_trade_hold : ExclusionReason

-- The columns of `AuditRow` that aggregation reads. A dict over the horizons is a function.
pub record AuditRow : Type 0 where
  pub symbol : Symbol
  pub action : Action
  pub data_quality_status : DataQualityStatus
  pub outcome_status : OutcomeStatus
  pub quantity_held : ℤ
  pub hold_quantity_held : Option ℤ
  pub holding_age_days : Option ℕ
  pub concentration_pct : Option ℤ
  pub calendar_year : ℕ
  pub entry_price : Option ℤ
  pub stock_return : Horizon → Option ℤ
  pub benchmark_return : Horizon → Option ℤ
  pub excess_return : Horizon → Option ℤ
  pub benchmark_tri_return : Horizon → Option ℤ
  pub excess_return_tri : Horizon → Option ℤ
  pub max_drawdown_pct : Option ℤ
  pub included_in_aggregate : Bool
  pub exclusion_reason : Option ExclusionReason

-- `_exclusion_reason` of audit.py
unfoldable pub exclusion_reason_of :
    DataQualityStatus → OutcomeStatus → Option ℤ → Action → Option ExclusionReason
exclusion_reason_of DataQualityStatus.reconstruction_warning status entry_price action =
    some ExclusionReason.reconstruction_warning
exclusion_reason_of DataQualityStatus.clean OutcomeStatus.unscorable none action =
    some ExclusionReason.unscorable_no_entry_price
exclusion_reason_of DataQualityStatus.clean OutcomeStatus.unscorable (some _) action =
    some ExclusionReason.unscorable_no_horizon_data
exclusion_reason_of DataQualityStatus.clean _ entry_price Action.hold =
    some ExclusionReason.wash_trade_hold
exclusion_reason_of DataQualityStatus.clean _ entry_price _ = none

unfoldable pub excess_return_of : AuditRow → Horizon → BenchmarkKind → Option ℤ
excess_return_of row horizon BenchmarkKind.tri = row.excess_return_tri horizon
excess_return_of row horizon BenchmarkKind.price_index = row.excess_return horizon

pub data AgeBucket : Type 0 where
  age_unknown below_3m from_3m_to_6m from_6m_to_12m from_12m_to_24m from_24m : AgeBucket

unfoldable pub holding_age_bucket : Option ℕ → AgeBucket
holding_age_bucket none = AgeBucket.age_unknown
holding_age_bucket (some days) =
    if ltb days 90
    then AgeBucket.below_3m
    else (if ltb days 182
        then AgeBucket.from_3m_to_6m
        else (if ltb days 365
            then AgeBucket.from_6m_to_12m
            else (if ltb days 730 then AgeBucket.from_12m_to_24m else AgeBucket.from_24m)))

-- `[v for r in rows if (v := f(r)) is not None]`
unfoldable pub known {ℓ} : {A : Type ℓ} → (A → Option ℤ) → List A → List ℤ
known f [] = []
known f (x ∷ xs) = let rest = known f xs in elim (f x) [ none ↦ rest | some v ↦ v ∷ rest ]

abbrev pub is_positive : ℤ → Bool
is_positive v = ltb_ℤ (pos 0) v

-- The dict that `summarize_horizon` returns.
pub record Summary : Type 0 where
  pub n_included : ℕ
  pub n_excluded : ℕ
  pub n_scored_this_horizon : ℕ
  pub n_unscored_this_horizon : ℕ
  pub median_stock_return_pct : Option ℤ
  pub mean_stock_return_pct : Option ℤ
  pub median_excess_return_pct : Option ℤ
  pub mean_excess_return_pct : Option ℤ
  pub positive_return_rate_pct : Option ℤ
  pub benchmark_outperform_rate_pct : Option ℤ
  pub decision_dollar_impact_median : Option ℤ
  pub decision_dollar_impact_mean : Option ℤ
  pub decision_dollar_impact_positive_rate_pct : Option ℤ
  pub decision_dollar_impact_n : ℕ

-- `groups.setdefault(key, []).append(r)`
unfoldable pub add_to_group {ℓ κ} :
    {K : Type ℓ} {A : Type κ} → (K → K → Bool) → K → A → List (K × List A) → List (K × List A)
add_to_group same key r [] = (key, r ∷ []) ∷ []
add_to_group same key r ((k, rs) ∷ groups) =
    let rest = add_to_group same key r groups in
    if same k key then (k, rs ++ (r ∷ [])) ∷ groups else (k, rs) ∷ rest

unfoldable pub group_into {ℓ κ} :
    {K : Type ℓ} {A : Type κ}
    → (K → K → Bool)
    → (A → K)
    → List (K × List A)
    → List A
    → List (K × List A)
group_into same key_fn groups [] = groups
group_into same key_fn groups (r ∷ rows) =
    group_into same key_fn (add_to_group same (key_fn r) r groups) rows

unfoldable pub group_by {ℓ κ} :
    {K : Type ℓ} {A : Type κ} → (K → K → Bool) → List A → (A → K) → List (K × List A)
group_by same rows key_fn = group_into same key_fn [] rows

module _ (ctx : Context) where
  -- `Decimal(n)`
  abbrev pub decimal : ℕ → ℤ
  decimal n = pos n *ℤ ctx.one

  unfoldable pub mean : List ℤ → Option ℤ
  mean [] = none
  mean (v ∷ values) = some (ctx.quotient (sum_ℤ (v ∷ values)) (decimal (length (v ∷ values))))

  unfoldable pub median : List ℤ → Option ℤ
  median [] = none
  median (v ∷ values) =
      let ordered = sort_by leb_ℤ (v ∷ values) in
      let n = length ordered in
      let mid = n / 2 in
      some (
        if n % 2 == 1
        then get_or ordered mid (pos 0)
        else ctx.quotient (get_or ordered (mid - 1) (pos 0) +ℤ get_or ordered mid (pos 0))
            (decimal 2))

  unfoldable pub rate_pct : List ℤ → (ℤ → Bool) → Option ℤ
  rate_pct [] predicate = none
  rate_pct (v ∷ values) predicate = some (
      ctx.product
        (ctx.quotient (decimal (count_if predicate (v ∷ values))) (decimal (length (v ∷ values))))
        (decimal 100))

  -- `(m * _HUNDRED) if m is not None else None`
  abbrev pub in_percent : Option ℤ → Option ℤ
  in_percent none = none
  in_percent (some m) = some (ctx.product m (decimal 100))

  unfoldable pub decision_dollar_impact : Horizon → AuditRow → Option ℤ
  decision_dollar_impact horizon row = elim row.hold_quantity_held [
    | none ↦ none
    | some hold ↦ elim row.entry_price [
      | none ↦ none
      | some entry_price ↦ elim (row.stock_return horizon) [
        | none ↦ none
        | some ret ↦ some (ctx.product (row.quantity_held -ℤ hold) (ctx.product entry_price ret))
      ]
    ]
  ]

  unfoldable pub summarize_horizon : List AuditRow → Horizon → BenchmarkKind → Summary
  summarize_horizon rows horizon benchmark_kind =
      let included = filter (λ r. r.included_in_aggregate) rows in
      let stock = known (λ r. r.stock_return horizon) included in
      let excess = known (λ r. excess_return_of r horizon benchmark_kind) included in
      let impacts = known (decision_dollar_impact horizon) included in
      record {
        n_included = length included;
        n_excluded = length rows - length included;
        n_scored_this_horizon = length stock;
        n_unscored_this_horizon = length included - length stock;
        median_stock_return_pct = in_percent (median stock);
        mean_stock_return_pct = in_percent (mean stock);
        median_excess_return_pct = in_percent (median excess);
        mean_excess_return_pct = in_percent (mean excess);
        positive_return_rate_pct = rate_pct stock is_positive;
        benchmark_outperform_rate_pct = rate_pct excess is_positive;
        decision_dollar_impact_median = median impacts;
        decision_dollar_impact_mean = mean impacts;
        decision_dollar_impact_positive_rate_pct = rate_pct impacts is_positive;
        decision_dollar_impact_n = length impacts;
      }

  unfoldable pub aggregate_by {ℓ} :
      {K : Type ℓ}
      → (K → K → Bool)
      → List AuditRow
      → (AuditRow → K)
      → Horizon
      → BenchmarkKind
      → List (K × Summary)
  aggregate_by same rows key_fn horizon benchmark_kind =
      map (λ g. (g.0, summarize_horizon g.1 horizon benchmark_kind)) (group_by same rows key_fn)
