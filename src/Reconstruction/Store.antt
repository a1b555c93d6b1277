-- ===== src/Reconstruction/Store.antt =====
-- `get_portfolio_as_of` of investing_agent/services/reconstruction/service.py over the rows that
-- its repositories read: db/repositories/broker_history.py and corporate_action.py, and the loaders
-- of reconstruction/corporate_actions.py.
use nse_agent.Common.{
  ℕ, Bool, true, false, ◌&&◌, Option, none, some, List, [], ◌∷◌, map, ℤ, filter, if◌then◌else◌, ltb,
  leb, ◌==◌,
}
use nse_agent.Common.Options.{◌>>=◌}
use nse_agent.Common.Sorting.{sort_by}
use nse_agent.Common.Decimals.{Context}
use nse_agent.Fifo.Types.{
  Symbol, Date, CorporateActionType, CorporateActionEvent, OpeningPositionAdjustment, Replay,
}
use nse_agent.Reconstruction.Trades.{
  HistoricalTrade, HistoricalCashFlow, replay_trades, compute_cash_breakdown,
}
use nse_agent.Reconstruction.Snapshot.{PriceProvider, PortfolioSnapshotAsOf, build_snapshot}

-- A row of the table of corporate actions whose type is split or bonus.
pub record CorporateAction : Type 0 where
  pub symbol : Symbol
  pub action_type : CorporateActionType
  pub event_date : Date
  pub source_type : ℕ
  pub ratio : Option (List ℕ)
  pub version : ℕ
  pub is_latest : Bool
  pub available_at : ℕ

-- The rows of one broker account, and the corporate actions of all companies.
pub record Store : Type 0 where
  pub strategy_profile : ℕ
  pub trades : List HistoricalTrade
  pub cash_flows : List (Date × HistoricalCashFlow)
  pub corporate_actions : List CorporateAction
  pub opening_adjustments : List OpeningPositionAdjustment

-- `text.split(":", 1)`, if there is a colon
unfoldable pub split_colon : List ℕ → Option (List ℕ × List ℕ)
split_colon [] = none
split_colon (c ∷ cs) =
    let rest = split_colon cs in
    if c == b':' then some ([], cs) else (do (before, after) ← rest; some (c ∷ before, after))

-- `parse_ratio`: (ratio_old, ratio_new). `to_decimal` is `Decimal(text.strip())`.
unfoldable pub parse_ratio : (List ℕ → Option ℤ) → Option (List ℕ) → Option (ℤ × ℤ)
parse_ratio to_decimal none = none
parse_ratio to_decimal (some text) = do
  (old, new) ← split_colon text
  ratio_old ← to_decimal old
  ratio_new ← to_decimal new
  some (ratio_old, ratio_new)

abbrev pub same_action : CorporateActionType → CorporateActionType → Bool
same_action CorporateActionType.split CorporateActionType.split = true
same_action CorporateActionType.bonus CorporateActionType.bonus = true
same_action _ _ = false

-- `(symbol, action_type, event_date, source_type)` of both rows are the same
abbrev pub same_group : CorporateAction → CorporateAction → Bool
same_group a b =
    a.symbol == b.symbol
    && same_action a.action_type b.action_type
    && a.event_date == b.event_date
    && a.source_type == b.source_type

-- `latest_per_group[key] = row`, if the version is higher
unfoldable pub keep_latest : CorporateAction → List CorporateAction → List CorporateAction
keep_latest row [] = row ∷ []
keep_latest row (current ∷ rows) =
    if same_group current row
    then (if ltb current.version row.version then row ∷ rows else current ∷ rows)
    else current ∷ keep_latest row rows

unfoldable pub latest_versions : List CorporateAction → List CorporateAction → List CorporateAction
latest_versions kept [] = kept
latest_versions kept (row ∷ rows) = latest_versions (keep_latest row kept) rows

-- `list_all_splits_and_bonuses` and `list_all_splits_and_bonuses_as_of`
unfoldable pub list_corporate_actions : Option ℕ → List CorporateAction → List CorporateAction
list_corporate_actions none rows =
    sort_by (λ a b. leb a.event_date b.event_date) (filter (λ r. r.is_latest) rows)
list_corporate_actions (some as_of) rows =
    sort_by (λ a b. leb a.event_date b.event_date)
      (latest_versions [] (filter (λ r. leb r.available_at as_of) rows))

unfoldable pub load_corporate_action_events :
    (List ℕ → Option ℤ) → List CorporateAction → List CorporateActionEvent
load_corporate_action_events to_decimal [] = []
load_corporate_action_events to_decimal (row ∷ rows) =
    let rest = load_corporate_action_events to_decimal rows in
    elim (parse_ratio to_decimal row.ratio) [
      | none ↦ rest
      | some (ratio_old, ratio_new) ↦
          record {
            symbol = row.symbol;
            event_type = row.action_type;
            event_date = row.event_date;
            ratio_new = ratio_new;
            ratio_old = ratio_old;
            source = row.source_type;
          }
          ∷ rest
    ]

-- `HistoricalTradeRepository.list_up_to`
unfoldable pub trades_up_to : Date → List HistoricalTrade → List HistoricalTrade
trades_up_to as_of trades =
    sort_by
      (λ a b.
        if a.trade_date == b.trade_date
        then leb a.dedupe_key b.dedupe_key
        else leb a.trade_date b.trade_date)
      (filter (λ t. leb t.trade_date as_of) trades)

-- `HistoricalCashFlowRepository.list_up_to`
unfoldable pub cash_flows_up_to : Date → List (Date × HistoricalCashFlow) → List HistoricalCashFlow
cash_flows_up_to as_of flows = map (λ f. f.1) (filter (λ f. leb f.0 as_of) flows)

-- `HistoricalCashFlowRepository.earliest_date`
unfoldable pub earliest_flow : List (Date × HistoricalCashFlow) → Option Date
earliest_flow [] = none
earliest_flow ((d, _) ∷ flows) = elim (earliest_flow flows) [
  | none ↦ some d
  | some e ↦ some (if ltb e d then e else d)
]

module _ (ctx : Context) (to_decimal : List ℕ → Option ℤ) where
  -- The replay of an account up to a date. `none` is an exception of the decimal arithmetic.
  unfoldable pub replay_as_of : Store → Date → Option ℕ → Option Replay
  replay_as_of store as_of cutoff =
      replay_trades ctx (trades_up_to as_of store.trades)
        (load_corporate_action_events to_decimal
          (list_corporate_actions cutoff store.corporate_actions))
        store.opening_adjustments

  -- `store` is `none` where there is no such account, which raises too.
  unfoldable pub get_portfolio_as_of :
      Option Store → ℕ → Date → PriceProvider → Option ℕ → Option PortfolioSnapshotAsOf
  get_portfolio_as_of none account as_of provider cutoff = none
  get_portfolio_as_of (some store) account as_of provider cutoff = do
    replay ← replay_as_of store as_of cutoff
    let cash =
        compute_cash_breakdown ctx (trades_up_to as_of store.trades)
          (cash_flows_up_to as_of store.cash_flows) (earliest_flow store.cash_flows)
    some (build_snapshot ctx account store.strategy_profile as_of replay cash provider)
