-- ===== src/Reconstruction/Reconcile.antt =====
-- reconciliation.py of investing_agent/services/reconstruction: statements of the broker against
-- the replayed account. A statement is a parsed file, or the error of its parser.
use nse_agent.Common.{
  ℕ, ◌+◌, Bool, true, false, ◌&&◌, ◌||◌, not, Option, none, some, List, [], ◌∷◌, ◌++◌, map, ℤ, pos,
  ◌-ℤ◌, neg_ℤ, abs_ℤ, ltb_ℤ, eqb_ℤ, filter, any, count_if, length, if◌then◌else◌, ltb, leb, ◌==◌,
}
use nse_agent.Common.Options.{◌>>=◌}
use nse_agent.Common.Maps.{Dict, find_or}
use nse_agent.Common.Sorting.{sorted_set}
use nse_agent.Common.Decimals.{Context}
use nse_agent.Fifo.Types.{Symbol, Date, CorporateActionEvent, OpeningPositionAdjustment}
use nse_agent.Fifo.Timeline.{replay_fifo}
use nse_agent.Reconstruction.Trades.{HistoricalTrade, trades_to_events}
use nse_agent.Reconstruction.Snapshot.{PositionAsOf, find_position, not_empty}

-- The columns that are compared.
pub record PnlStatementRow : Type 0 where
  pub symbol : Symbol
  pub realized_pnl : ℤ
  pub open_quantity : ℤ
  pub unrealized_pnl : ℤ

pub record PnlStatement : Type 0 where
  pub file_name : ℕ
  pub period_start : Date
  pub period_end : Date
  pub rows : List PnlStatementRow

pub record HoldingsRow : Type 0 where
  pub symbol : Symbol
  pub quantity_available : ℤ
  pub average_price : ℤ

pub record HoldingsStatement : Type 0 where
  pub file_name : ℕ
  pub as_of_date : Date
  pub rows : List HoldingsRow

pub data DiffField : Type 0 where
  realized_pnl quantity_held average_cost : DiffField

pub data LikelyCause : Type 0 where
  action_or_charges no_open_lots untracked_action charges_or_action : LikelyCause

pub record ReconciliationRowDiff : Type 0 where
  pub statement_file : ℕ
  pub symbol : Symbol
  pub field : DiffField
  pub expected : ℤ
  pub actual : ℤ
  pub delta : ℤ
  pub likely_cause : LikelyCause

pub data OverallStatus : Type 0 where
  clean divergent : OverallStatus

-- The report, with the rows checked and mismatched of which the percentages are taken.
pub record ReconciliationReport : Type 0 where
  pub overall_status : OverallStatus
  pub total_symbols_checked : ℕ
  pub divergent_symbols : List Symbol
  pub expected_gaps_corporate_action : List Symbol
  pub row_diffs : List ReconciliationRowDiff
  pub warnings : List ℕ
  pub pnl_rows_checked : ℕ
  pub holdings_rows_checked : ℕ
  pub qty_mismatches : ℕ
  pub cost_mismatches : ℕ
  pub realized_mismatches : ℕ

-- A parsed file, or the text of the error.
pub data Parsed {ℓ} (A : Type ℓ) : Type ℓ where
  failed : ℕ → Parsed A
  parsed : A → Parsed A

-- The variables of the loops of `reconcile_account`.
pub record Progress : Type 0 where
  pub diffs : List ReconciliationRowDiff
  pub gaps : List Symbol
  pub warnings : List ℕ
  pub symbols : List Symbol
  pub pnl_rows_checked : ℕ
  pub holdings_rows_checked : ℕ

abbrev pub is_in : List Symbol → Symbol → Bool
is_in symbols s = any (λ t. t == s) symbols

abbrev pub in_period : Date → Date → Symbol → HistoricalTrade → Bool
in_period period_start period_end s t =
    t.symbol == s && leb period_start t.trade_date && leb t.trade_date period_end

-- `period_realized[symbol] = delta`, for the symbols of the replay
unfoldable pub period_deltas : (Symbol → Bool) → Dict ℤ → Dict ℤ → Dict ℤ
period_deltas in_window baseline [] = []
period_deltas in_window baseline ((s, total) ∷ rest) =
    let deltas = period_deltas in_window baseline rest in
    let delta = total -ℤ find_or s (pos 0) baseline in
    if not (eqb_ℤ delta (pos 0)) || in_window s then (s, delta) ∷ deltas else deltas

abbrev pub start_progress : Progress
start_progress = record {
  diffs = [];
  gaps = [];
  warnings = [];
  symbols = [];
  pnl_rows_checked = 0;
  holdings_rows_checked = 0;
}

abbrev pub count_field : (DiffField → Bool) → List ReconciliationRowDiff → ℕ
count_field is_field diffs = count_if (λ d. is_field d.field) diffs

abbrev pub is_quantity : DiffField → Bool
is_quantity f = elim f [ DiffField.quantity_held ↦ true | _ ↦ false ]

abbrev pub is_cost : DiffField → Bool
is_cost f = elim f [ DiffField.average_cost ↦ true | _ ↦ false ]

abbrev pub is_realized : DiffField → Bool
is_realized f = elim f [ DiffField.realized_pnl ↦ true | _ ↦ false ]

unfoldable pub divergent_of : Progress → List Symbol
divergent_of p = sorted_set (filter (λ s. not (is_in p.gaps s)) (map (λ d. d.symbol) p.diffs))

unfoldable pub report_of : Progress → ReconciliationReport
report_of p =
    let divergent = divergent_of p in
    let diffs = filter (λ d. not (is_in p.gaps d.symbol)) p.diffs in
    record {
      overall_status = if not_empty divergent then OverallStatus.divergent else OverallStatus.clean;
      total_symbols_checked = length (sorted_set p.symbols);
      divergent_symbols = divergent;
      expected_gaps_corporate_action = sorted_set p.gaps;
      row_diffs = diffs;
      warnings = p.warnings;
      pnl_rows_checked = p.pnl_rows_checked;
      holdings_rows_checked = p.holdings_rows_checked;
      qty_mismatches = count_field is_quantity diffs;
      cost_mismatches = count_field is_cost diffs;
      realized_mismatches = count_field is_realized diffs;
    }

module _ (ctx : Context) where
  -- `abs(delta) > _TOLERANCE`
  unfoldable pub is_off : ℤ → Bool
  is_off delta = ltb_ℤ ctx.one (abs_ℤ delta)

  unfoldable pub period_realized_pnl_by_symbol :
      List HistoricalTrade
      → Date
      → Date
      → List CorporateActionEvent
      → List OpeningPositionAdjustment
      → Option (Dict ℤ)
  period_realized_pnl_by_symbol trades period_start period_end actions adjustments = do
    result ←
        replay_fifo ctx (trades_to_events (filter (λ t. leb t.trade_date period_end) trades))
          actions adjustments
    baseline ←
        replay_fifo ctx (trades_to_events (filter (λ t. ltb t.trade_date period_start) trades))
          actions adjustments
    some (
        period_deltas (λ s. any (in_period period_start period_end s) trades)
          baseline.realized_pnl_by_symbol result.realized_pnl_by_symbol)

  unfoldable pub is_expected_gap : List HistoricalTrade → PnlStatementRow → Bool
  is_expected_gap trades row =
      not (any (λ t. t.symbol == row.symbol) trades)
      && (not (eqb_ℤ row.open_quantity (pos 0)) || not (eqb_ℤ row.unrealized_pnl (pos 0)))

  unfoldable pub pnl_diffs : ℕ → Dict ℤ → PnlStatementRow → List ReconciliationRowDiff
  pnl_diffs file period_realized row =
      let actual = find_or row.symbol (pos 0) period_realized in
      let delta = actual -ℤ row.realized_pnl in
      if is_off delta
      then record {
        statement_file = file;
        symbol = row.symbol;
        field = DiffField.realized_pnl;
        expected = row.realized_pnl;
        actual = actual;
        delta = delta;
        likely_cause = LikelyCause.action_or_charges;
      }
        ∷ []
      else []

  -- The loop over the rows of a statement of profit and loss.
  unfoldable pub reconcile_pnl_rows :
      ℕ → List HistoricalTrade → Dict ℤ → List PnlStatementRow → Progress → Progress
  reconcile_pnl_rows file trades realized [] p = p
  reconcile_pnl_rows file trades realized (row ∷ rows) p =
      reconcile_pnl_rows file trades realized rows (
        if is_expected_gap trades row then record p { gaps = row.symbol ∷ p.gaps } else record p {
          diffs = p.diffs ++ pnl_diffs file realized row;
          pnl_rows_checked = 1 + p.pnl_rows_checked;
        })

  abbrev pub held_diff : ℕ → Symbol → DiffField → ℤ → ℤ → LikelyCause → List ReconciliationRowDiff
  held_diff file symbol field expected actual cause =
      if is_off (actual -ℤ expected)
      then record {
        statement_file = file;
        symbol = symbol;
        field = field;
        expected = expected;
        actual = actual;
        delta = actual -ℤ expected;
        likely_cause = cause;
      }
        ∷ []
      else []

  unfoldable pub holdings_diffs : ℕ → HoldingsRow → Option PositionAsOf → List ReconciliationRowDiff
  holdings_diffs file row none =
      record {
        statement_file = file;
        symbol = row.symbol;
        field = DiffField.quantity_held;
        expected = row.quantity_available;
        actual = pos 0;
        delta = neg_ℤ row.quantity_available;
        likely_cause = LikelyCause.no_open_lots;
      }
      ∷ []
  holdings_diffs file row (some position) =
      held_diff file row.symbol DiffField.quantity_held row.quantity_available
        position.quantity_held LikelyCause.untracked_action
      ++ held_diff file row.symbol DiffField.average_cost row.average_price position.average_cost
          LikelyCause.charges_or_action

  -- The loop over the rows of a statement of holdings.
  unfoldable pub reconcile_holdings_rows :
      ℕ → List PositionAsOf → List HoldingsRow → Progress → Progress
  reconcile_holdings_rows file positions [] p = p
  reconcile_holdings_rows file positions (row ∷ rows) p =
      reconcile_holdings_rows file positions rows (
        if is_in p.gaps row.symbol then p else record p {
          diffs = p.diffs ++ holdings_diffs file row (find_position positions row.symbol);
          holdings_rows_checked = 1 + p.holdings_rows_checked;
        })

  module _ (trades : List HistoricalTrade) (actions : List CorporateActionEvent)
      (adjustments : List OpeningPositionAdjustment)
      (positions_at : Date → Option (List PositionAsOf)) where
    unfoldable pub reconcile_pnl_files : List (Parsed PnlStatement) → Progress → Option Progress
    reconcile_pnl_files [] p = some p
    reconcile_pnl_files (Parsed.failed why ∷ files) p =
        reconcile_pnl_files files (record p { warnings = p.warnings ++ (why ∷ []) })
    reconcile_pnl_files (Parsed.parsed pnl ∷ files) p =
        let known = filter (λ t. leb t.trade_date pnl.period_end) trades in
        period_realized_pnl_by_symbol known pnl.period_start pnl.period_end actions adjustments
        >>= λ realized.
            let done = reconcile_pnl_rows pnl.file_name known realized pnl.rows p in
            reconcile_pnl_files files
              (record done { symbols = map (λ r. r.symbol) pnl.rows ++ done.symbols })

    unfoldable pub reconcile_holdings_files :
        List (Parsed HoldingsStatement) → Progress → Option Progress
    reconcile_holdings_files [] p = some p
    reconcile_holdings_files (Parsed.failed why ∷ files) p =
        reconcile_holdings_files files (record p { warnings = p.warnings ++ (why ∷ []) })
    reconcile_holdings_files (Parsed.parsed holdings ∷ files) p =
        positions_at holdings.as_of_date >>= λ positions.
        let done = reconcile_holdings_rows holdings.file_name positions holdings.rows p in
        reconcile_holdings_files files
          (record done { symbols = map (λ r. r.symbol) holdings.rows ++ done.symbols })

    -- `reconcile_account`: `positions_at` are the positions of `get_portfolio_as_of`.
    unfoldable pub reconcile_account :
        List (Parsed PnlStatement) → List (Parsed HoldingsStatement) → Option ReconciliationReport
    reconcile_account pnl_files holdings_files = do
      p ← reconcile_pnl_files pnl_files start_progress
      q ← reconcile_holdings_files holdings_files p
      some (report_of q)
