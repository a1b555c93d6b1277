-- ===== src/Fifo/Run.antt =====
-- The sale, the corporate action and the whole replay of fifo.py.
use nse_agent.Common.{
  ℕ, suc, true, ◌||◌, Option, none, some, List, [], ◌∷◌, ◌++◌, map, ℤ, pos, ◌+ℤ◌, ltb_ℤ, eqb_ℤ,
  sum_ℤ, length, get_elem?, set, if◌then◌else◌, ◌==◌,
}
use nse_agent.Common.Maps.{insert, find_or}
use nse_agent.Common.Options.{◌>>=◌}
use nse_agent.Common.Decimals.{Context, divide}
use nse_agent.Fifo.Types.{
  Symbol, TradeSide, LotOrigin, DedupeKey, TradeEvent, CorporateActionEvent, Lot, Warning, Replay,
}
use nse_agent.Fifo.Steps.{queue_of, open_lot, lot_of_buy, Matching, match_loop}

-- The lots at the positions of a queue.
unfoldable pub lots_at : List ℕ → List Lot → List Lot
lots_at [] lots = []
lots_at (i ∷ queue) lots =
    let rest = lots_at queue lots in elim (get_elem? lots i) [ none ↦ rest | some l ↦ l ∷ rest ]

-- The replay after the loop, before an oversell is looked at.
unfoldable pub after_matching : TradeEvent → Matching → Replay → Replay
after_matching event m r = record r {
  all_lots = m.lots;
  open_lots_by_symbol = insert event.symbol m.queue r.open_lots_by_symbol;
}

-- `realized_pnl_by_symbol[symbol] = realized_pnl_by_symbol.get(symbol, 0) + realized_delta`
unfoldable pub credit : Symbol → Replay × ℤ → Replay
credit symbol (r, delta) = record r {
  realized_pnl_by_symbol =
      insert symbol (find_or symbol (pos 0) r.realized_pnl_by_symbol +ℤ delta)
        r.realized_pnl_by_symbol;
}

unfoldable pub start_matching : TradeEvent → Replay → Matching
unfolding queue_of
start_matching event r = record {
  lots = r.all_lots;
  queue = queue_of event.symbol r;
  remaining_to_sell = event.quantity;
  realized_delta = pos 0;
}

module _ (ctx : Context) where
  -- The lot that absorbs what a sale has left.
  unfoldable pub oversell_lot : TradeEvent → ℤ → Lot
  oversell_lot event left = record {
    symbol = event.symbol;
    isin = event.isin;
    company_id = event.company_id;
    opened_date = event.trade_date;
    quantity_opened = left;
    quantity_remaining = pos 0;
    cost_price = pos 0;
    opening_trade_dedupe_key = DedupeKey.of_trade event.dedupe_key;
    closed_date = some event.trade_date;
    realized_pnl = ctx.product left event.price;
    is_synthetic = true;
    lot_origin = LotOrigin.oversell_synthetic;
  }

  -- `if remaining_to_sell > 0: ...`, with the profit of the sale
  unfoldable pub absorb_oversell : TradeEvent → ℤ → ℤ → Replay → Replay × ℤ
  absorb_oversell event left delta r =
      if ltb_ℤ (pos 0) left
      then (
        record r {
          all_lots = r.all_lots ++ oversell_lot event left ∷ [];
          warnings =
              r.warnings
              ++ Warning.synthetic_lot_suspected event.symbol event.quantity event.trade_date left
                ∷ [];
        },
        delta +ℤ ctx.product left event.price,
      )
      else (r, delta)

  -- One more round than the queue has lots is enough fuel.
  unfoldable pub run_matching : TradeEvent → Replay → Matching
  unfolding queue_of start_matching match_loop
  run_matching event r =
      match_loop ctx (suc (length (queue_of event.symbol r))) event (start_matching event r)

  unfoldable pub apply_sell : TradeEvent → Replay → Replay
  unfolding after_matching absorb_oversell credit
  apply_sell event r =
      let m = run_matching event r in
      credit event.symbol
        (absorb_oversell event m.remaining_to_sell m.realized_delta (after_matching event m r))

  abbrev pub trade_by_side : TradeSide → TradeEvent → Replay → Replay
  trade_by_side TradeSide.buy event r = open_lot (lot_of_buy event) r
  trade_by_side TradeSide.sell event r = apply_sell event r

  unfoldable pub apply_trade : TradeEvent → Replay → Replay
  unfolding open_lot lot_of_buy apply_sell
  apply_trade event r = trade_by_side event.side event r

  -- One lot scaled by a factor; a factor of zero raises.
  unfoldable pub scale_lot : ℤ → Lot → Option Lot
  scale_lot factor lot = do
    cost ← divide ctx lot.cost_price factor
    some (record lot {
      quantity_opened = ctx.product lot.quantity_opened factor;
      quantity_remaining = ctx.product lot.quantity_remaining factor;
      cost_price = cost;
    })

  abbrev pub scale_at : ℤ → ℕ → List Lot → Option Lot → Option (List Lot)
  scale_at factor i lots none = some lots
  scale_at factor i lots (some lot) = do lot' ← scale_lot factor lot; some (set lots i lot')

  -- `for lot in open_lots: ...`
  unfoldable pub scale_lots : ℤ → List ℕ → List Lot → Option (List Lot)
  scale_lots factor [] lots = some lots
  scale_lots factor (i ∷ queue) lots = do
    lots' ← scale_at factor i lots (get_elem? lots i)
    scale_lots factor queue lots'

  unfoldable pub adjust_open_lots : CorporateActionEvent → List ℕ → ℤ → Replay → Option Replay
  adjust_open_lots ca queue old_quantity r = do
    let old_cost_value =
        sum_ℤ (map (λ l. ctx.product l.quantity_remaining l.cost_price) (lots_at queue r.all_lots))
    old_cost_per_share ← divide ctx old_cost_value old_quantity
    factor ← divide ctx ca.ratio_new ca.ratio_old
    lots ← scale_lots factor queue r.all_lots
    adjusted ← divide ctx old_cost_per_share factor
    some (record r {
      all_lots = lots;
      corporate_action_adjustments =
          r.corporate_action_adjustments
          ++ record {
            symbol = ca.symbol;
            event_type = ca.event_type;
            event_date = ca.event_date;
            ratio_new = ca.ratio_new;
            ratio_old = ca.ratio_old;
            old_quantity = old_quantity;
            new_quantity = ctx.product old_quantity factor;
            old_cost_per_share = old_cost_per_share;
            adjusted_cost_per_share = adjusted;
            source = ca.source;
          }
            ∷ [];
    })

  unfoldable pub apply_corporate_action : CorporateActionEvent → Replay → Option Replay
  apply_corporate_action ca r =
      let queue = queue_of ca.symbol r in
      let old_quantity = sum_ℤ (map (λ l. l.quantity_remaining) (lots_at queue r.all_lots)) in
      if length queue == 0 || eqb_ℤ old_quantity (pos 0)
      then some r
      else adjust_open_lots ca queue old_quantity r
