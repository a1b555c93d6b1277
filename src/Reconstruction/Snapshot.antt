-- ===== src/Reconstruction/Snapshot.antt =====
-- `_build_snapshot` of investing_agent/services/reconstruction/service.py: the positions of a
-- replay. The price provider and the account are arguments.
use nse_agent.Common.{
  ℕ, Bool, true, false, ◌&&◌, Option, none, some, List, [], ◌∷◌, map, ℤ, pos, ◌-ℤ◌, eqb_ℤ, sum_ℤ,
  length, any, all, if◌then◌else◌, leb, ◌==◌, is_some, or_default,
}
use nse_agent.Common.Maps.{find_or}
use nse_agent.Common.Sorting.{sort_by}
use nse_agent.Common.Decimals.{Context}
use nse_agent.Fifo.Types.{Symbol, Date, Lot, Warning, Replay, CorporateActionAdjustmentApplied}
use nse_agent.Fifo.Timeline.{open_lots, symbols_with_open_lots, realized_pnl_total}
use nse_agent.Reconstruction.Trades.{Caveat, CashBreakdown, cash_balance_partial}

pub data PriceSource : Type 0 where
  statement_derived unavailable : PriceSource

pub record PositionAsOf : Type 0 where
  pub symbol : Symbol
  pub isin : Option ℕ
  pub company_id : Option ℕ
  pub quantity_held : ℤ
  pub average_cost : ℤ
  pub invested_capital : ℤ
  pub price_at_date : Option ℤ
  pub price_source : PriceSource
  pub unrealized_pnl : Option ℤ
  pub realized_pnl_cumulative : ℤ
  pub open_lot_count : ℕ
  pub corporate_action_flag : Bool

pub record PortfolioSnapshotAsOf : Type 0 where
  pub broker_account_id : ℕ
  pub as_of_date : Date
  pub strategy_profile : ℕ
  pub positions : List PositionAsOf
  pub cash_balance_partial : ℤ
  pub cash_balance_caveat : Caveat
  pub cash_balance_ledger_coverage_start : Option Date
  pub invested_capital_total : ℤ
  pub unrealized_pnl_total : Option ℤ
  pub realized_pnl_cumulative_total : ℤ
  pub warnings : List Warning
  pub corporate_action_adjustments : List CorporateActionAdjustmentApplied

-- `price_provider.get_close`, or no provider
abbrev pub PriceProvider : Type 0
PriceProvider = Option (Symbol → Option ℕ → Date → Option ℤ)

abbrev pub close_at : PriceProvider → Symbol → Option ℕ → Date → Option ℤ
close_at none symbol isin as_of = none
close_at (some get_close) symbol isin as_of = get_close symbol isin as_of

-- `for lot in open_lots: value = value or lot.value`
unfoldable pub first_some : (Lot → Option ℕ) → List Lot → Option ℕ
first_some f [] = none
first_some f (l ∷ ls) = let rest = first_some f ls in elim (f l) [ none ↦ rest | some v ↦ some v ]

abbrev pub source_of : Option ℤ → PriceSource
source_of none = PriceSource.unavailable
source_of (some _) = PriceSource.statement_derived

unfoldable pub total_quantity : List Lot → ℤ
total_quantity lots = sum_ℤ (map (λ l. l.quantity_remaining) lots)

abbrev pub not_empty {ℓ} : {A : Type ℓ} → List A → Bool
not_empty [] = false
not_empty (_ ∷ _) = true

-- The sum of the unrealized profits, unless one is missing or there is no position.
unfoldable pub unrealized_total : List PositionAsOf → Option ℤ
unrealized_total positions =
    if all (λ p. is_some p.unrealized_pnl) positions && not_empty positions
    then some (sum_ℤ (map (λ p. or_default p.unrealized_pnl (pos 0)) positions))
    else none

module _ (ctx : Context) where
  unfoldable pub total_cost : List Lot → ℤ
  total_cost lots = sum_ℤ (map (λ l. ctx.product l.quantity_remaining l.cost_price) lots)

  -- `invested_capital / quantity_held if quantity_held else 0`
  unfoldable pub average_cost_of : ℤ → ℤ → ℤ
  average_cost_of invested quantity =
      if eqb_ℤ quantity (pos 0) then pos 0 else ctx.quotient invested quantity

  abbrev pub unrealized_of : ℤ → ℤ → Option ℤ → Option ℤ
  unrealized_of quantity average none = none
  unrealized_of quantity average (some price) = some (ctx.product quantity (price -ℤ average))

  -- The position of one symbol.
  unfoldable pub position_of : PriceProvider → Date → Replay → Symbol → PositionAsOf
  position_of provider as_of replay symbol =
      let lots = open_lots (some symbol) replay in
      let quantity = total_quantity lots in
      let invested = total_cost lots in
      let average = average_cost_of invested quantity in
      let isin = first_some (λ l. l.isin) lots in
      let price = close_at provider symbol isin as_of in
      record {
        symbol = symbol;
        isin = isin;
        company_id = first_some (λ l. l.company_id) lots;
        quantity_held = quantity;
        average_cost = average;
        invested_capital = invested;
        price_at_date = price;
        price_source = source_of price;
        unrealized_pnl = unrealized_of quantity average price;
        realized_pnl_cumulative = find_or symbol (pos 0) replay.realized_pnl_by_symbol;
        open_lot_count = length lots;
        corporate_action_flag = any (λ l. l.is_synthetic && l.symbol == symbol) replay.all_lots;
      }

  -- `sorted(replay.symbols_with_open_lots())`
  unfoldable pub positions_of : PriceProvider → Date → Replay → List PositionAsOf
  positions_of provider as_of replay =
      map (position_of provider as_of replay) (sort_by leb (symbols_with_open_lots replay))

  unfoldable pub build_snapshot :
      ℕ → ℕ → Date → Replay → CashBreakdown → PriceProvider → PortfolioSnapshotAsOf
  build_snapshot account profile as_of replay cash provider =
      let positions = positions_of provider as_of replay in
      record {
        broker_account_id = account;
        as_of_date = as_of;
        strategy_profile = profile;
        positions = positions;
        cash_balance_partial = cash_balance_partial cash;
        cash_balance_caveat = cash.caveat;
        cash_balance_ledger_coverage_start = cash.cash_ledger_coverage_start;
        invested_capital_total = sum_ℤ (map (λ p. p.invested_capital) positions);
        unrealized_pnl_total = unrealized_total positions;
        realized_pnl_cumulative_total = realized_pnl_total replay;
        warnings = replay.warnings;
        corporate_action_adjustments = replay.corporate_action_adjustments;
      }

-- `_find_position` of investing_agent/services/walkforward/decisions.py
unfoldable pub find_position : List PositionAsOf → Symbol → Option PositionAsOf
find_position [] symbol = none
find_position (p ∷ ps) symbol = if p.symbol == symbol then some p else find_position ps symbol

-- `position.quantity_held if position else 0`
abbrev pub quantity_of : Option PositionAsOf → ℤ
quantity_of none = pos 0
quantity_of (some p) = p.quantity_held
