-- ===== src/WalkForward/Decisions.antt =====
-- Freezing decisions: decisions.py of investing_agent/services/walkforward, with the table of
-- decisions of db/repositories/walkforward.py. Dates are ordinals, which start at 1.
use nse_agent.Common.{
  ℕ, ◌+◌, ◌-◌, ◌*◌, Bool, true, false, ◌&&◌, not, Option, none, some, List, [], ◌∷◌, ◌++◌, map, ℤ,
  pos, eqb_ℤ, ltb_ℤ, leb_ℤ, filter, if◌then◌else◌, ltb, ◌==◌,
}
use nse_agent.Common.Options.{◌>>=◌}
use nse_agent.Common.Decimals.{Context}
use nse_agent.Fifo.Types.{Symbol, Date, Warning}
use nse_agent.Reconstruction.Trades.{HistoricalTrade}
use nse_agent.Reconstruction.Snapshot.{
  PositionAsOf, PortfolioSnapshotAsOf, find_position, quantity_of, not_empty,
}
use nse_agent.Reconstruction.Store.{Store, trades_up_to, get_portfolio_as_of}

pub data DecisionSource : Type 0 where
  actual hold_baseline agent : DecisionSource

pub data Action : Type 0 where
  buy add hold reduce exit insufficient_evidence : Action

pub data DataQualityStatus : Type 0 where
  clean reconstruction_warning : DataQualityStatus

-- The texts of the reasons of the deterministic baseline.
pub data BaselineReason : Type 0 where
  unresolved_warnings no_clean_position corporate_action_flagged clean_position : BaselineReason

pub data FrozenEvidence : Type 0 where
  historical_trade : ℕ → FrozenEvidence
  deterministic_baseline : Date → ℤ → BaselineReason → FrozenEvidence

pub record WalkForwardDecision : Type 0 where
  pub run_id : ℕ
  pub broker_account_id : ℕ
  pub company_id : Option ℕ
  pub symbol : Symbol
  pub decision_at : Date
  pub feature_cutoff_at : ℕ
  pub decision_source : DecisionSource
  pub action : Action
  pub confidence : Option ℤ
  pub reasoning : Option BaselineReason
  pub evidence : List FrozenEvidence
  pub quantity_held : ℤ
  pub average_cost : ℤ
  pub invested_capital : ℤ
  pub reconstruction_warnings : List Warning
  pub data_quality_status : DataQualityStatus

unfoldable pub classify_actual_action : ℤ → ℤ → List HistoricalTrade → Action
classify_actual_action prior_quantity post_quantity trades_on_date =
    if not (not_empty trades_on_date)
    then Action.hold
    else (if eqb_ℤ prior_quantity (pos 0) && ltb_ℤ (pos 0) post_quantity
        then Action.buy
        else (if eqb_ℤ post_quantity (pos 0) && ltb_ℤ (pos 0) prior_quantity
            then Action.exit
            else (if ltb_ℤ prior_quantity post_quantity
                then Action.add
                else (if ltb_ℤ post_quantity prior_quantity then Action.reduce else Action.hold))))

abbrev pub status_of : List Warning → DataQualityStatus
status_of [] = DataQualityStatus.clean
status_of (_ ∷ _) = DataQualityStatus.reconstruction_warning

-- `mentions w s` is `s in w`, on the texts.
unfoldable pub symbol_data_quality :
    (Warning → Symbol → Bool) → PortfolioSnapshotAsOf → Symbol → DataQualityStatus × List Warning
symbol_data_quality mentions snapshot symbol =
    let matching = filter (λ w. mentions w symbol) snapshot.warnings in
    (status_of matching, matching)

-- The last microsecond of the day.
abbrev pub cutoff_of : Date → ℕ
cutoff_of decision_at = decision_at * 86_400_000_000 + 86_399_999_999

-- `decision_at - timedelta(days=1)`, which raises at the first date
unfoldable pub prior_date_of : Date → Option Date
prior_date_of decision_at = if ltb 1 decision_at then some (decision_at - 1) else none

abbrev pub cost_of : Option PositionAsOf → ℤ
cost_of none = pos 0
cost_of (some p) = p.average_cost

abbrev pub capital_of : Option PositionAsOf → ℤ
capital_of none = pos 0
capital_of (some p) = p.invested_capital

abbrev pub company_of : Option PositionAsOf → Option ℕ
company_of none = none
company_of (some p) = p.company_id

abbrev pub same_source : DecisionSource → DecisionSource → Bool
same_source DecisionSource.actual DecisionSource.actual = true
same_source DecisionSource.hold_baseline DecisionSource.hold_baseline = true
same_source DecisionSource.agent DecisionSource.agent = true
same_source _ _ = false

abbrev pub has_natural_key : ℕ → Symbol → Date → DecisionSource → WalkForwardDecision → Bool
has_natural_key run_id symbol decision_at source d =
    d.run_id == run_id
    && d.symbol == symbol
    && d.decision_at == decision_at
    && same_source d.decision_source source

unfoldable pub get_by_natural_key :
    ℕ → Symbol → Date → DecisionSource → List WalkForwardDecision → Option WalkForwardDecision
get_by_natural_key run_id symbol decision_at source [] = none
get_by_natural_key run_id symbol decision_at source (d ∷ ds) =
    if has_natural_key run_id symbol decision_at source d
    then some d
    else get_by_natural_key run_id symbol decision_at source ds

-- The row and the table after the call.
unfoldable pub create_if_not_exists :
    WalkForwardDecision → List WalkForwardDecision → WalkForwardDecision × List WalkForwardDecision
create_if_not_exists row table =
    elim (get_by_natural_key row.run_id row.symbol row.decision_at row.decision_source table) [
      | some existing ↦ (existing, table)
      | none ↦ (row, table ++ (row ∷ []))
    ]

unfoldable pub trades_on : Store → Symbol → Date → List HistoricalTrade
trades_on store symbol decision_at =
    filter (λ t. t.trade_date == decision_at && t.symbol == symbol)
      (trades_up_to decision_at store.trades)

-- The branch of the deterministic baseline.
unfoldable pub baseline_choice : DataQualityStatus → Option PositionAsOf → Action × BaselineReason
baseline_choice DataQualityStatus.reconstruction_warning position =
    (Action.insufficient_evidence, BaselineReason.unresolved_warnings)
baseline_choice DataQualityStatus.clean none =
    (Action.insufficient_evidence, BaselineReason.no_clean_position)
baseline_choice DataQualityStatus.clean (some p) =
    if leb_ℤ p.quantity_held (pos 0)
    then (Action.insufficient_evidence, BaselineReason.no_clean_position)
    else (if p.corporate_action_flag
        then (Action.insufficient_evidence, BaselineReason.corporate_action_flagged)
        else (Action.hold, BaselineReason.clean_position))

-- The two sources that `freeze_decision` takes.
pub data FrozenSource : Type 0 where
  of_actual of_hold_baseline : FrozenSource

module _ (ctx : Context) (to_decimal : List ℕ → Option ℤ) (mentions : Warning → Symbol → Bool)
    (store : Store) (run_id account : ℕ) (symbol : Symbol) (decision_at : Date) where
  -- `get_portfolio_as_of` at the cutoff of the decision.
  unfoldable pub snapshot_at : Date → Option PortfolioSnapshotAsOf
  snapshot_at as_of =
      get_portfolio_as_of ctx to_decimal (some store) account as_of none
        (some (cutoff_of decision_at))

  unfoldable pub actual_row : PortfolioSnapshotAsOf → PortfolioSnapshotAsOf → WalkForwardDecision
  actual_row at prior =
      let position = find_position at.positions symbol in
      let trades_on_date = trades_on store symbol decision_at in
      let (quality, warnings) = symbol_data_quality mentions at symbol in
      record {
        run_id = run_id;
        broker_account_id = account;
        company_id = company_of position;
        symbol = symbol;
        decision_at = decision_at;
        feature_cutoff_at = cutoff_of decision_at;
        decision_source = DecisionSource.actual;
        action =
            classify_actual_action (quantity_of (find_position prior.positions symbol))
              (quantity_of position) trades_on_date;
        confidence = none;
        reasoning = none;
        evidence = map (λ t. FrozenEvidence.historical_trade t.id) trades_on_date;
        quantity_held = quantity_of position;
        average_cost = cost_of position;
        invested_capital = capital_of position;
        reconstruction_warnings = warnings;
        data_quality_status = quality;
      }

  unfoldable pub hold_row : PortfolioSnapshotAsOf → WalkForwardDecision
  hold_row prior =
      let position = find_position prior.positions symbol in
      let (quality, warnings) = symbol_data_quality mentions prior symbol in
      record {
        run_id = run_id;
        broker_account_id = account;
        company_id = company_of position;
        symbol = symbol;
        decision_at = decision_at;
        feature_cutoff_at = cutoff_of decision_at;
        decision_source = DecisionSource.hold_baseline;
        action = Action.hold;
        confidence = none;
        reasoning = none;
        evidence = [];
        quantity_held = quantity_of position;
        average_cost = cost_of position;
        invested_capital = capital_of position;
        reconstruction_warnings = warnings;
        data_quality_status = quality;
      }

  unfoldable pub row_of_source :
      FrozenSource → PortfolioSnapshotAsOf → PortfolioSnapshotAsOf → WalkForwardDecision
  row_of_source FrozenSource.of_actual at prior = actual_row at prior
  row_of_source FrozenSource.of_hold_baseline at prior = hold_row prior

  -- The frozen row and the table after the call. `none` is an exception.
  unfoldable pub freeze_decision :
      FrozenSource
      → List WalkForwardDecision
      → Option (WalkForwardDecision × List WalkForwardDecision)
  freeze_decision source table = do
    prior_date ← prior_date_of decision_at
    at ← snapshot_at decision_at
    prior ← snapshot_at prior_date
    some (create_if_not_exists (row_of_source source at prior) table)

  unfoldable pub baseline_row : Date → PortfolioSnapshotAsOf → WalkForwardDecision
  baseline_row prior_date snapshot =
      let position = find_position snapshot.positions symbol in
      let (quality, warnings) = symbol_data_quality mentions snapshot symbol in
      let (action, reason) = baseline_choice quality position in
      record {
        run_id = run_id;
        broker_account_id = account;
        company_id = company_of position;
        symbol = symbol;
        decision_at = decision_at;
        feature_cutoff_at = cutoff_of decision_at;
        decision_source = DecisionSource.agent;
        action = action;
        confidence = none;
        reasoning = some reason;
        evidence =
            FrozenEvidence.deterministic_baseline prior_date (quantity_of position) reason ∷ [];
        quantity_held = quantity_of position;
        average_cost = cost_of position;
        invested_capital = capital_of position;
        reconstruction_warnings = warnings;
        data_quality_status = quality;
      }

  unfoldable pub freeze_deterministic_baseline_decision :
      List WalkForwardDecision → Option (WalkForwardDecision × List WalkForwardDecision)
  freeze_deterministic_baseline_decision table = do
    prior_date ← prior_date_of decision_at
    snapshot ← snapshot_at prior_date
    some (create_if_not_exists (baseline_row prior_date snapshot) table)
