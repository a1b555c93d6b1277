-- ===== src/Reconstruction/Tests.antt =====
-- The theorems on reconstruction at a concrete account.
use native.Mathlib.Omega.{arith}
use nse_agent.Common.{
  refl, neg_ℤ, ℕ, ◌-◌, ◌/◌, ◌≡◌, none, some, List, [], ◌∷◌, ℤ, pos, pos_part, ◌*ℤ◌, ◌+ℤ◌, ◌-ℤ◌,
  sum_ℤ, Option, leb, ◌&&◌, if◌then◌else◌, Bool, true,
}
use nse_agent.Common.Sorting.{insert_by, sorted_set, sort_by, sort_by-perm}
use nse_agent.Common.Decimals.{Context}
use nse_agent.Fifo.Types.{TradeSide, CorporateActionType, Replay}
use nse_agent.Fifo.Steps.{open_lot, lot_of_buy}
use nse_agent.Fifo.Timeline.{no_lots}
use nse_agent.Fifo.Totals.{total_by}
use nse_agent.Reconstruction.Trades.{
  HistoricalTrade, HistoricalCashFlow, event_of, cash_balance_partial, compute_cash_breakdown,
}
use nse_agent.Reconstruction.Cash.{proceeds, costs, cash_balance_partial-proceeds}
use nse_agent.Reconstruction.Snapshot.{positions_of, find_position, quantity_of}
use nse_agent.Reconstruction.Positions.{quantity-find_position}
use nse_agent.Reconstruction.Store.{Store, CorporateAction, get_portfolio_as_of}
use nse_agent.Reconstruction.Reconcile.{
  HoldingsStatement, ReconciliationReport, OverallStatus, DiffField, LikelyCause, Parsed,
  holdings_diffs, reconcile_holdings_rows, divergent_of, report_of, reconcile_pnl_files,
  reconcile_holdings_files, reconcile_account,
}
use nse_agent.Reconstruction.Reports.{IsTidy, reconcile_account-IsTidy}
use nse_agent.Reconstruction.PointInTime.{with_later, get_portfolio_as_of-later}

abbrev whole : Context
whole = record { one = pos 1; product = ◌*ℤ◌; quotient = λ a b. pos (pos_part a / pos_part b) }

-- One digit.
abbrev to_decimal : List ℕ → Option ℤ
to_decimal (c ∷ []) = if leb b'0' c && leb c b'9' then some (pos (c - b'0')) else none
to_decimal _ = none

abbrev trade_on : ℕ → TradeSide → ℕ → ℕ → HistoricalTrade
trade_on date side quantity price = record {
  id = date;
  dedupe_key = date;
  symbol = 7;
  isin = some 1;
  company_id = some 2;
  trade_date = date;
  trade_datetime = none;
  side = side;
  quantity = pos quantity;
  price = pos price;
}

abbrev trades : List HistoricalTrade
trades = trade_on 40 TradeSide.sell 4 70 ∷ trade_on 10 TradeSide.buy 10 100 ∷ []

abbrev flows : List HistoricalCashFlow
flows = record { amount = pos 5000 } ∷ []

abbrev bonus : ℕ → ℕ → CorporateAction
bonus version available_at = record {
  symbol = 7;
  action_type = CorporateActionType.bonus;
  event_date = 20;
  source_type = 0;
  ratio = some (b'1' ∷ b':' ∷ b'2' ∷ []);
  version = version;
  is_latest = true;
  available_at = available_at;
}

abbrev account : Store
account = record {
  strategy_profile = 1;
  trades = trades;
  cash_flows = (5, record { amount = pos 5000 }) ∷ [];
  corporate_actions = bonus 1 21 ∷ [];
  opening_adjustments = [];
}

abbrev bought : Replay
bought = open_lot (lot_of_buy (event_of (trade_on 10 TradeSide.buy 10 100))) no_lots

by_id : HistoricalTrade → HistoricalTrade → Bool
by_id a b = leb a.id b.id

cash_balance_partial-proceeds_example :
    cash_balance_partial (compute_cash_breakdown whole (sort_by by_id trades) flows (some 5))
    ≡ pos 4280
unfolding proceeds costs sum_ℤ ◌+ℤ◌ ◌-ℤ◌ ◌*ℤ◌
cash_balance_partial-proceeds_example =
    cash_balance_partial-proceeds whole trades (sort_by by_id trades) flows (some 5)
      (sort_by-perm by_id trades)

quantity-find_position_example :
    quantity_of (find_position (positions_of whole none 50 bought) 7) ≡ pos 10
unfolding open_lot lot_of_buy event_of total_by ◌+ℤ◌
quantity-find_position_example = quantity-find_position whole none 50 bought 7

get_portfolio_as_of-later_example :
    get_portfolio_as_of whole to_decimal
      (some
        (with_later account (trade_on 60 TradeSide.sell 1 80 ∷ []) (λ _. true) (bonus 2 61 ∷ [])))
      3
      50
      none
      (some 55)
    ≡ get_portfolio_as_of whole to_decimal (some account) 3 50 none (some 55)
get_portfolio_as_of-later_example =
    get_portfolio_as_of-later whole to_decimal account 3 50 55 none
      (trade_on 60 TradeSide.sell 1 80 ∷ []) (λ _. true) (bonus 2 61 ∷ []) (omega arith, tt)
      (omega arith, tt)

abbrev holdings : HoldingsStatement
holdings = record {
  file_name = 2;
  as_of_date = 50;
  rows = record { symbol = 7; quantity_available = pos 3; average_price = pos 100 } ∷ [];
}

abbrev report : ReconciliationReport
report = record {
  overall_status = OverallStatus.divergent;
  total_symbols_checked = 1;
  divergent_symbols = 7 ∷ [];
  expected_gaps_corporate_action = [];
  row_diffs =
      record {
        statement_file = 2;
        symbol = 7;
        field = DiffField.quantity_held;
        expected = pos 3;
        actual = pos 0;
        delta = neg_ℤ (pos 3);
        likely_cause = LikelyCause.no_open_lots;
      }
      ∷ [];
  warnings = 1 ∷ [];
  pnl_rows_checked = 0;
  holdings_rows_checked = 1;
  qty_mismatches = 1;
  cost_mismatches = 0;
  realized_mismatches = 0;
}

reconcile_account-IsTidy_example : IsTidy report
unfolding reconcile_account reconcile_pnl_files reconcile_holdings_files reconcile_holdings_rows
    holdings_diffs find_position report_of divergent_of sorted_set insert_by
reconcile_account-IsTidy_example =
    reconcile_account-IsTidy whole trades [] [] (λ d. some []) (Parsed.failed 1 ∷ [])
      (Parsed.parsed holdings ∷ []) report refl
