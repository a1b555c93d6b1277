-- ===== src/WalkForward/Report.antt =====
-- The assembled report of investing_agent/services/walkforward/aggregation.py.
use nse_agent.Common.{
  ℕ, suc, Option, none, some, List, [], ◌∷◌, map, filter, length, count_if, ℤ, pos, ◌*ℤ◌, min_ℤ,
  max_ℤ, ltb_ℤ, if◌then◌else◌, ◌==◌,
}
use nse_agent.Common.Decimals.{Context}
use nse_agent.WalkForward.Decisions.{Action, DataQualityStatus}
use nse_agent.WalkForward.Outcomes.{OutcomeStatus}
use nse_agent.WalkForward.Aggregation.{
  AuditRow, Horizon, BenchmarkKind, ExclusionReason, AgeBucket, Summary, known, median, mean,
  decimal, holding_age_bucket, summarize_horizon, aggregate_by,
}

pub data ConcentrationBucket : Type 0 where
  concentration_unknown : ConcentrationBucket
  below_10_pct : ConcentrationBucket
  from_10_to_25_pct : ConcentrationBucket
  from_25_to_50_pct : ConcentrationBucket
  from_50_pct : ConcentrationBucket

-- Codes of the keys, by which they are compared.
abbrev pub action_code : Action → ℕ
action_code Action.buy = 0
action_code Action.add = 1
action_code Action.hold = 2
action_code Action.reduce = 3
action_code Action.exit = 4
action_code Action.insufficient_evidence = 5

abbrev pub age_code : AgeBucket → ℕ
age_code AgeBucket.age_unknown = 0
age_code AgeBucket.below_3m = 1
age_code AgeBucket.from_3m_to_6m = 2
age_code AgeBucket.from_6m_to_12m = 3
age_code AgeBucket.from_12m_to_24m = 4
age_code AgeBucket.from_24m = 5

abbrev pub concentration_code : ConcentrationBucket → ℕ
concentration_code ConcentrationBucket.concentration_unknown = 0
concentration_code ConcentrationBucket.below_10_pct = 1
concentration_code ConcentrationBucket.from_10_to_25_pct = 2
concentration_code ConcentrationBucket.from_25_to_50_pct = 3
concentration_code ConcentrationBucket.from_50_pct = 4

-- The keys of `data_quality_counts`.
pub data CountKey : Type 0 where
  data_quality_of : DataQualityStatus → CountKey
  outcome_status_of : OutcomeStatus → CountKey
  exclusion_of : Option ExclusionReason → CountKey

abbrev pub count_key_code : CountKey → ℕ
count_key_code (CountKey.data_quality_of DataQualityStatus.clean) = 0
count_key_code (CountKey.data_quality_of DataQualityStatus.reconstruction_warning) = 1
count_key_code (CountKey.outcome_status_of OutcomeStatus.scored) = 2
count_key_code (CountKey.outcome_status_of OutcomeStatus.partial) = 3
count_key_code (CountKey.outcome_status_of OutcomeStatus.unscorable) = 4
count_key_code (CountKey.exclusion_of none) = 5
count_key_code (CountKey.exclusion_of (some ExclusionReason.reconstruction_warning)) = 6
count_key_code (CountKey.exclusion_of (some ExclusionReason.unscorable_no_entry_price)) = 7
count_key_code (CountKey.exclusion_of (some ExclusionReason.unscorable_no_horizon_data)) = 8
count_key_code (CountKey.exclusion_of (some ExclusionReason.wash_trade_hold)) = 9

-- `counts.setdefault(key, 0); counts[key] += 1`
unfoldable pub count_key : CountKey → List (CountKey × ℕ) → List (CountKey × ℕ)
count_key key [] = (key, 1) ∷ []
count_key key ((k, n) ∷ counts) =
    let rest = count_key key counts in
    if count_key_code k == count_key_code key then (k, suc n) ∷ counts else (k, n) ∷ rest

unfoldable pub count_rows : List (CountKey × ℕ) → List AuditRow → List (CountKey × ℕ)
count_rows counts [] = counts
count_rows counts (r ∷ rs) =
    count_rows
      (count_key (CountKey.exclusion_of r.exclusion_reason) (
        count_key (CountKey.outcome_status_of r.outcome_status)
          (count_key (CountKey.data_quality_of r.data_quality_status) counts)))
      rs

unfoldable pub data_quality_counts : List AuditRow → List (CountKey × ℕ)
data_quality_counts rows = count_rows [] rows

-- Python's `min` and `max` of a list that is not empty, from its first value on.
unfoldable pub least_value : ℤ → List ℤ → ℤ
least_value v [] = v
least_value v (w ∷ ws) = least_value (min_ℤ v w) ws

unfoldable pub greatest_value : ℤ → List ℤ → ℤ
greatest_value v [] = v
greatest_value v (w ∷ ws) = greatest_value (max_ℤ v w) ws

pub record DrawdownDistribution : Type 0 where
  pub n : ℕ
  pub median_pct : Option ℤ
  pub mean_pct : Option ℤ
  pub worst_pct : Option ℤ
  pub best_pct : Option ℤ

-- The entry of a horizon in the report.
pub record HorizonReport : Type 0 where
  pub overall : Summary
  pub by_action : List (Action × Summary)
  pub by_year : List (ℕ × Summary)
  pub by_holding_age : List (AgeBucket × Summary)
  pub by_concentration : List (ConcentrationBucket × Summary)

pub record WalkForwardReport : Type 0 where
  pub n_events_total : ℕ
  pub n_events_included : ℕ
  pub by_horizon : List (Horizon × HorizonReport)
  pub by_horizon_tri : List (Horizon × HorizonReport)
  pub drawdowns : DrawdownDistribution
  pub quality_counts : List (CountKey × ℕ)

abbrev pub all_horizons : List Horizon
all_horizons = Horizon.months_1 ∷ Horizon.months_3 ∷ Horizon.months_6 ∷ Horizon.months_12 ∷ []

module _ (ctx : Context) where
  -- The bounds are compared after a multiplication by a hundred.
  unfoldable pub concentration_bucket : Option ℤ → ConcentrationBucket
  concentration_bucket none = ConcentrationBucket.concentration_unknown
  concentration_bucket (some pct) =
      let hundredfold = pos 100 *ℤ pct in
      if ltb_ℤ hundredfold (decimal ctx 10)
      then ConcentrationBucket.below_10_pct
      else (if ltb_ℤ hundredfold (decimal ctx 25)
          then ConcentrationBucket.from_10_to_25_pct
          else (if ltb_ℤ hundredfold (decimal ctx 50)
              then ConcentrationBucket.from_25_to_50_pct
              else ConcentrationBucket.from_50_pct))

  unfoldable pub distribution_of : List ℤ → DrawdownDistribution
  distribution_of [] = record {
    n = 0;
    median_pct = none;
    mean_pct = none;
    worst_pct = none;
    best_pct = none;
  }
  distribution_of (v ∷ values) = record {
    n = length (v ∷ values);
    median_pct = median ctx (v ∷ values);
    mean_pct = mean ctx (v ∷ values);
    worst_pct = some (least_value v values);
    best_pct = some (greatest_value v values);
  }

  unfoldable pub drawdown_distribution : List AuditRow → DrawdownDistribution
  drawdown_distribution rows = distribution_of (
      map (λ d. ctx.product d (decimal ctx 100))
        (known (λ r. r.max_drawdown_pct) (filter (λ r. r.included_in_aggregate) rows)))

  unfoldable pub horizon_report : List AuditRow → BenchmarkKind → Horizon → HorizonReport
  horizon_report rows kind horizon = record {
    overall = summarize_horizon ctx rows horizon kind;
    by_action =
        aggregate_by ctx (λ a b. action_code a == action_code b) rows (λ r. r.action) horizon kind;
    by_year = aggregate_by ctx (λ a b. a == b) rows (λ r. r.calendar_year) horizon kind;
    by_holding_age =
        aggregate_by ctx (λ a b. age_code a == age_code b) rows
          (λ r. holding_age_bucket r.holding_age_days) horizon kind;
    by_concentration =
        aggregate_by ctx (λ a b. concentration_code a == concentration_code b) rows
          (λ r. concentration_bucket r.concentration_pct) horizon kind;
  }

  -- `_build_horizon_report`
  unfoldable pub build_horizon_report :
      List AuditRow → BenchmarkKind → List (Horizon × HorizonReport)
  build_horizon_report rows kind = map (λ h. (h, horizon_report rows kind h)) all_horizons

  unfoldable pub build_report : List AuditRow → WalkForwardReport
  build_report rows = record {
    n_events_total = length rows;
    n_events_included = count_if (λ r. r.included_in_aggregate) rows;
    by_horizon = build_horizon_report rows BenchmarkKind.price_index;
    by_horizon_tri = build_horizon_report rows BenchmarkKind.tri;
    drawdowns = drawdown_distribution rows;
    quality_counts = data_quality_counts rows;
  }
