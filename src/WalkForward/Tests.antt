-- ===== src/WalkForward/Tests.antt =====
-- The theorems on walk-forward simulation at concrete accounts.
use native.Mathlib.Omega.{arith}
use nse_agent.Common.{
  ℕ, ◌/◌, ◌==◌, ◌<ℤ◌, ◌≡◌, ◌≢◌, refl, neg_ℤ, Bool, true, false, none, some, List, [], ◌∷◌, ℤ, pos,
  pos_part, ◌*ℤ◌, ◌+ℤ◌, ◌-ℤ◌, Option, sum_ℤ, ◌+◌, ◌-◌, ◌*◌, or_default, is_some, map, ==_refl,
}
use nse_agent.Common.Sorting.{sort_by, insert_by}
use nse_agent.Common.Decimals.{Context, divide}
use nse_agent.Fifo.Types.{Symbol, Warning, TradeSide, CorporateActionType, CorporateActionEvent}
use nse_agent.Fifo.Steps.{open_lot, lot_of_buy, queue_of}
use nse_agent.Fifo.Run.{apply_trade}
use nse_agent.Fifo.Timeline.{
  entry_le, numbered, payloads, timeline, apply_payload, run_entries, replay_fifo, open_lots,
  symbols_with_open_lots, first_symbols,
}
use nse_agent.Reconstruction.Trades.{
  HistoricalTrade, event_of, moment_of, event_le, trades_to_events, replay_trades, Caveat,
}
use nse_agent.Reconstruction.Snapshot.{
  PortfolioSnapshotAsOf, PriceSource, total_quantity, total_cost, average_cost_of, first_some,
  position_of, positions_of, build_snapshot, find_position,
}
use nse_agent.Reconstruction.Store.{
  Store, trades_up_to, latest_versions, list_corporate_actions, load_corporate_action_events,
  replay_as_of, get_portfolio_as_of,
}
use nse_agent.Reconstruction.PointInTime.{with_later}
use nse_agent.WalkForward.Decisions.{
  Action, DecisionSource, DataQualityStatus, FrozenEvidence, FrozenSource, WalkForwardDecision,
  classify_actual_action, symbol_data_quality, prior_date_of, get_by_natural_key,
  create_if_not_exists, trades_on, snapshot_at, actual_row, row_of_source, freeze_decision,
  baseline_row,
}
use nse_agent.WalkForward.Returns.{
  multiply_factors, cumulative_split_factor, split_adjusted_return, drawdown_loop, max_drawdown_pct,
}
use nse_agent.WalkForward.Prices.{
  DailyPrice, earliest, get_nearest_on_or_before, get_nearest_on_or_after, get_latest_trading_date,
  resolve_entry_price, resolve_horizon_price,
}
use nse_agent.WalkForward.Outcomes.{
  Calendar, HorizonFields, OutcomeStatus, PriceTables, WalkForwardOutcome, horizon_months,
  add_months, list_between, status_of_count, stock_return_of, adjusted_closes, compute_max_drawdown,
  fields_of, notes_of, record_horizon, score_horizons, start_scoring, outcome_of, compute_outcome,
  get_by_decision_id, store_outcome,
}
use nse_agent.WalkForward.Scores.{
  price_index_outcome, tri_columns, compute_outcome-status, store_outcome-existing,
}
use nse_agent.WalkForward.Horizons.{is_insufficient, resolve_horizon_price-reason}
use nse_agent.WalkForward.Drawdown.{
  highest, lowest, falls, max_drawdown_pct-lowest, cumulative_split_factor-append,
}
use nse_agent.Recommend.Generate.{latest}
use nse_agent.WalkForward.Aggregation.{
  AuditRow, Horizon, BenchmarkKind, group_by, summarize_horizon, aggregate_by,
}
use nse_agent.WalkForward.Groups.{
  count_groups, count-group_by, IsKeyed, group_by-IsKeyed, total_included,
  total_included-aggregate_by,
}
use nse_agent.WalkForward.Actions.{classify_actual_action-Describes, baseline_row-action}
use nse_agent.WalkForward.Frozen.{freeze_decision-twice, freeze_decision-later}

abbrev whole : Context
whole = record { one = pos 1; product = ◌*ℤ◌; quotient = λ a b. pos (pos_part a / pos_part b) }

abbrev no_decimal : List ℕ → Option ℤ
no_decimal text = none

-- A warning names one symbol.
abbrev mentions : Warning → Symbol → Bool
mentions (Warning.opening_position_adjustment_applied a) symbol = a.symbol == symbol
mentions (Warning.synthetic_lot_suspected s _ _ _) symbol = s == symbol

abbrev bought_on : ℕ → HistoricalTrade
bought_on date = record {
  id = 31;
  dedupe_key = 1;
  symbol = 7;
  isin = none;
  company_id = some 2;
  trade_date = date;
  trade_datetime = none;
  side = TradeSide.buy;
  quantity = pos 10;
  price = pos 100;
}

abbrev account : Store
account = record {
  strategy_profile = 1;
  trades = bought_on 10 ∷ [];
  cash_flows = [];
  corporate_actions = [];
  opening_adjustments = [];
}

classify_actual_action-Describes_example : (pos 0 ≡ pos 0) × (pos 0 <ℤ pos 10)
unfolding classify_actual_action
classify_actual_action-Describes_example =
    classify_actual_action-Describes (pos 0) (pos 10) (bought_on 10 ∷ []) (omega arith)
      (omega arith) refl

abbrev snapshot : PortfolioSnapshotAsOf
snapshot = record {
  broker_account_id = 3;
  as_of_date = 9;
  strategy_profile = 1;
  positions =
      record {
        symbol = 7;
        isin = none;
        company_id = some 2;
        quantity_held = pos 10;
        average_cost = pos 100;
        invested_capital = pos 1000;
        price_at_date = none;
        price_source = PriceSource.unavailable;
        unrealized_pnl = none;
        realized_pnl_cumulative = pos 0;
        open_lot_count = 1;
        corporate_action_flag = false;
      }
      ∷ [];
  cash_balance_partial = pos 0;
  cash_balance_caveat = Caveat.no_ledger;
  cash_balance_ledger_coverage_start = none;
  invested_capital_total = pos 1000;
  unrealized_pnl_total = none;
  realized_pnl_cumulative_total = pos 0;
  warnings = Warning.synthetic_lot_suspected 8 (pos 1) 4 (pos 1) ∷ [];
  corporate_action_adjustments = [];
}

baseline_row-action_example :
    (baseline_row whole no_decimal mentions account 1 3 7 10 9 snapshot).action ≡ Action.hold
unfolding find_position
baseline_row-action_example =
    baseline_row-action whole no_decimal mentions account 1 3 7 10 9 snapshot

abbrev frozen : WalkForwardDecision
frozen = record {
  run_id = 1;
  broker_account_id = 3;
  company_id = some 2;
  symbol = 7;
  decision_at = 10;
  feature_cutoff_at = 950_399_999_999;
  decision_source = DecisionSource.actual;
  action = Action.buy;
  confidence = none;
  reasoning = none;
  evidence = FrozenEvidence.historical_trade 31 ∷ [];
  quantity_held = pos 10;
  average_cost = pos 100;
  invested_capital = pos 1000;
  reconstruction_warnings = [];
  data_quality_status = DataQualityStatus.clean;
}

abbrev result : WalkForwardDecision × List WalkForwardDecision
result = (frozen, frozen ∷ [])

freeze_run :
    freeze_decision whole no_decimal mentions account 1 3 7 10 FrozenSource.of_actual []
    ≡ some result
unfolding freeze_decision prior_date_of snapshot_at get_portfolio_as_of replay_as_of replay_trades
    replay_fifo load_corporate_action_events list_corporate_actions latest_versions trades_to_events
    trades_up_to event_le event_of moment_of create_if_not_exists get_by_natural_key row_of_source
    actual_row find_position classify_actual_action symbol_data_quality trades_on sort_by insert_by
    timeline payloads numbered entry_le run_entries apply_payload apply_trade open_lot lot_of_buy
    queue_of build_snapshot positions_of position_of total_quantity total_cost average_cost_of
    first_some symbols_with_open_lots first_symbols open_lots sum_ℤ ◌+ℤ◌ ◌-ℤ◌ ◌*ℤ◌
freeze_run = refl

freeze_again :
    freeze_decision whole no_decimal mentions
      (with_later account (bought_on 10 ∷ []) (λ _. false) [])
      1
      3
      7
      10
      FrozenSource.of_actual
      (frozen ∷ [])
    ≡ some result
unfolding freeze_decision prior_date_of snapshot_at get_portfolio_as_of replay_as_of replay_trades
    replay_fifo load_corporate_action_events list_corporate_actions latest_versions trades_to_events
    trades_up_to event_le event_of moment_of create_if_not_exists get_by_natural_key row_of_source
    actual_row find_position classify_actual_action symbol_data_quality trades_on sort_by insert_by
    timeline payloads numbered entry_le run_entries apply_payload apply_trade open_lot lot_of_buy
    queue_of build_snapshot positions_of position_of total_quantity total_cost average_cost_of
    first_some symbols_with_open_lots first_symbols open_lots sum_ℤ ◌+ℤ◌ ◌-ℤ◌ ◌*ℤ◌
freeze_again = refl

freeze_decision-twice_example : result ≡ result
freeze_decision-twice_example =
    freeze_decision-twice whole no_decimal mentions 1 3 7 10 account
      (with_later account (bought_on 10 ∷ []) (λ _. false) []) FrozenSource.of_actual [] result
      result freeze_run freeze_again

freeze_decision-later_example :
    freeze_decision whole no_decimal mentions
      (with_later account (bought_on 11 ∷ []) (λ _. true) [])
      1
      3
      7
      10
      FrozenSource.of_actual
      []
    ≡ freeze_decision whole no_decimal mentions account 1 3 7 10 FrozenSource.of_actual []
freeze_decision-later_example =
    freeze_decision-later whole no_decimal mentions 1 3 7 10 account FrozenSource.of_actual []
      (bought_on 11 ∷ []) (λ _. true) [] (omega arith, tt) tt

abbrev calendar : Calendar
calendar = record {
  year = λ d. 1;
  month = λ d. 1;
  day = λ d. d;
  monthrange = λ y m. 30;
  date = λ y m d. (y - 1) * 360 + (m - 1) * 30 + d;
}

abbrev row : ℕ → ℕ → DailyPrice
row date close = record { symbol = 7; trading_date = date; close = pos close }

-- A price on the day of the decision, and one after a month.
abbrev tables : PriceTables
tables = record { daily = row 10 100 ∷ row 41 300 ∷ []; benchmark = [] }

abbrev nothing : WalkForwardOutcome
nothing = record {
  decision_id = 0;
  entry_price = none;
  entry_price_date = none;
  horizons = [];
  max_drawdown_pct = none;
  outcome_status = OutcomeStatus.unscorable;
  data_quality_notes = [];
}

abbrev with_tri : List HorizonFields → List HorizonFields
with_tri [] = []
with_tri (f ∷ fs) = record f { benchmark_tri_return = some (pos 3) } ∷ fs

abbrev outcome : WalkForwardOutcome
outcome = or_default (compute_outcome whole calendar tables 7 10 [] 4) nothing

compute_outcome-status_example :
    (map (λ f. f.months) outcome.horizons ≡ horizon_months)
    × (outcome.outcome_status ≡ OutcomeStatus.partial)
unfolding compute_outcome outcome_of score_horizons record_horizon fields_of notes_of start_scoring
    stock_return_of cumulative_split_factor multiply_factors split_adjusted_return divide
    compute_max_drawdown list_between adjusted_closes max_drawdown_pct drawdown_loop status_of_count
    add_months resolve_entry_price resolve_horizon_price get_nearest_on_or_before
    get_nearest_on_or_after get_latest_trading_date earliest latest sort_by insert_by ◌-ℤ◌
compute_outcome-status_example = compute_outcome-status whole calendar tables 7 10 [] 4 outcome refl

-- The outcome with a total-return benchmark for its first horizon, and another decision's.
abbrev rescored : WalkForwardOutcome
rescored = record outcome { horizons = with_tri outcome.horizons }

abbrev stored_outcomes : List WalkForwardOutcome
stored_outcomes = nothing ∷ outcome ∷ []

store_outcome-existing_example :
    (map price_index_outcome (store_outcome rescored stored_outcomes).1
      ≡ map price_index_outcome stored_outcomes)
    × (get_by_decision_id 4 (store_outcome rescored stored_outcomes).1
        ≡ some (store_outcome rescored stored_outcomes).0)
    × ((other : ℕ)
        → other ≢ 4
        → get_by_decision_id other (store_outcome rescored stored_outcomes).1
          ≡ get_by_decision_id other stored_outcomes)
    × (map tri_columns (store_outcome rescored stored_outcomes).0.horizons
        ≡ map tri_columns rescored.horizons)
unfolding get_by_decision_id compute_outcome outcome_of score_horizons record_horizon fields_of
    notes_of start_scoring stock_return_of cumulative_split_factor multiply_factors
    split_adjusted_return divide compute_max_drawdown list_between adjusted_closes max_drawdown_pct
    drawdown_loop status_of_count add_months resolve_entry_price resolve_horizon_price
    get_nearest_on_or_before get_nearest_on_or_after get_latest_trading_date earliest latest sort_by
    insert_by ◌-ℤ◌
store_outcome-existing_example = store_outcome-existing rescored outcome stored_outcomes refl refl

resolve_horizon_price-reason_example :
    (is_some (resolve_horizon_price tables.daily 7 40 10).price ≡ true)
    × (is_insufficient (resolve_horizon_price tables.daily 7 40 10).reason ≡ false)
resolve_horizon_price-reason_example = resolve_horizon_price-reason tables.daily 7 40 10

abbrev split_on : ℕ → CorporateActionEvent
split_on date = record {
  symbol = 7;
  event_type = CorporateActionType.split;
  event_date = date;
  ratio_new = pos 2;
  ratio_old = pos 1;
  source = 0;
}

-- The split on the start of the window does not count, the one on its end does.
cumulative_split_factor-append_example :
    (cumulative_split_factor whole [] 10 20 ≡ some (pos 1))
    × (cumulative_split_factor whole (split_on 10 ∷ split_on 12 ∷ split_on 20 ∷ []) 10 20
        ≡ some (pos 4))
unfolding cumulative_split_factor multiply_factors divide ◌*ℤ◌
cumulative_split_factor-append_example =
    cumulative_split_factor-append whole (split_on 10 ∷ split_on 12 ∷ []) (split_on 20) 10 20

-- Quotients in percent, rounded towards zero.
abbrev percent : Context
percent = record whole { quotient = λ a b. neg_ℤ (pos (pos_part (neg_ℤ a) * 100 / pos_part b)) }

max_drawdown_pct-lowest_example :
    (max_drawdown_pct percent (pos 5 ∷ []) ≡ none)
    × (max_drawdown_pct percent (pos 5 ∷ pos 8 ∷ pos 2 ∷ pos 6 ∷ []) ≡ some (neg_ℤ (pos 75)))
unfolding lowest falls highest ◌-ℤ◌ neg_ℤ
max_drawdown_pct-lowest_example =
    max_drawdown_pct-lowest percent (pos 5) (pos 8) (pos 2 ∷ pos 6 ∷ [])

abbrev audit_row : ℕ → Bool → Option ℤ → AuditRow
audit_row year included stock_return = record {
  symbol = 7;
  action = Action.buy;
  data_quality_status = DataQualityStatus.clean;
  outcome_status = OutcomeStatus.partial;
  quantity_held = pos 10;
  hold_quantity_held = none;
  holding_age_days = none;
  concentration_pct = none;
  calendar_year = year;
  entry_price = none;
  stock_return = λ h. stock_return;
  excess_return = λ h. none;
  benchmark_return = λ h. none;
  benchmark_tri_return = λ h. none;
  excess_return_tri = λ h. none;
  max_drawdown_pct = none;
  included_in_aggregate = included;
  exclusion_reason = none;
}

abbrev rows : List AuditRow
rows =
    audit_row 2021 true (some (pos 2)) ∷ audit_row 2022 true none ∷ audit_row 2021 false none ∷ []

count-group_by_example :
    count_groups ◌==◌
      (λ r. r.calendar_year)
      (λ r. r.included_in_aggregate)
      (group_by ◌==◌ rows (λ r. r.calendar_year))
    ≡ 2
count-group_by_example =
    count-group_by ◌==◌ (λ r. r.calendar_year) (λ r. r.included_in_aggregate) rows

group_by-IsKeyed_example :
    IsKeyed ◌==◌ (λ r. r.calendar_year) (group_by ◌==◌ rows (λ r. r.calendar_year))
group_by-IsKeyed_example = group_by-IsKeyed ◌==◌ (λ r. r.calendar_year) rows ==_refl

total_included-aggregate_by_example :
    total_included
      (aggregate_by whole ◌==◌ rows (λ r. r.calendar_year) Horizon.months_3 BenchmarkKind.tri)
    ≡ (summarize_horizon whole rows Horizon.months_3 BenchmarkKind.tri).n_included
total_included-aggregate_by_example =
    total_included-aggregate_by whole ◌==◌ (λ r. r.calendar_year) Horizon.months_3 BenchmarkKind.tri
      rows
