-- ===== src/Fifo/Steps.antt =====
-- The three handlers of fifo.py, `_apply_opening_adjustment`, `_apply_corporate_action` and
-- `_apply_trade`, on a replay state. `none` is an exception of the decimal arithmetic.
use nse_agent.Common.{
  ℕ, zero, suc, Bool, true, false, ◌&&◌, Option, none, some, List, [], ◌∷◌, ◌++◌, ℤ, pos, ◌+ℤ◌,
  ◌-ℤ◌, ltb_ℤ, eqb_ℤ, min_ℤ, length, get_elem?, set, if◌then◌else◌, ltb,
}
use nse_agent.Common.Maps.{insert, find_or}
use nse_agent.Common.Decimals.{Context}
use nse_agent.Fifo.Types.{
  Symbol, LotOrigin, DedupeKey, TradeEvent, OpeningPositionAdjustment, Lot, Warning, Replay,
}

-- `open_lots_by_symbol.get(symbol, [])`, also after a `setdefault`
unfoldable pub queue_of : Symbol → Replay → List ℕ
queue_of symbol r = find_or symbol [] r.open_lots_by_symbol

-- `open_lots_by_symbol.setdefault(lot.symbol, []).append(lot)` and `result.all_lots.append(lot)`
unfoldable pub open_lot : Lot → Replay → Replay
unfolding queue_of
open_lot lot r = record r {
  all_lots = r.all_lots ++ lot ∷ [];
  open_lots_by_symbol =
      insert lot.symbol (queue_of lot.symbol r ++ length r.all_lots ∷ []) r.open_lots_by_symbol;
}

unfoldable pub lot_of_opening : OpeningPositionAdjustment → Lot
lot_of_opening adj = record {
  symbol = adj.symbol;
  isin = adj.isin;
  company_id = adj.company_id;
  opened_date = adj.opening_date;
  quantity_opened = adj.quantity;
  quantity_remaining = adj.quantity;
  cost_price = adj.cost_price;
  opening_trade_dedupe_key = DedupeKey.of_opening adj.symbol adj.opening_date;
  closed_date = none;
  realized_pnl = pos 0;
  is_synthetic = true;
  lot_origin = LotOrigin.opening_adjustment;
}

unfoldable pub apply_opening_adjustment : OpeningPositionAdjustment → Replay → Replay
unfolding open_lot lot_of_opening
apply_opening_adjustment adj r =
    let r' = open_lot (lot_of_opening adj) r in
    record r' { warnings = r'.warnings ++ Warning.opening_position_adjustment_applied adj ∷ [] }

unfoldable pub lot_of_buy : TradeEvent → Lot
lot_of_buy event = record {
  symbol = event.symbol;
  isin = event.isin;
  company_id = event.company_id;
  opened_date = event.trade_date;
  quantity_opened = event.quantity;
  quantity_remaining = event.quantity;
  cost_price = event.price;
  opening_trade_dedupe_key = DedupeKey.of_trade event.dedupe_key;
  closed_date = none;
  realized_pnl = pos 0;
  is_synthetic = false;
  lot_origin = LotOrigin.trade;
}

-- The variables of the matching loop: the lots, the queue of the symbol, what is left to sell
-- and the profit so far.
pub record Matching : Type 0 where
  pub lots : List Lot
  pub queue : List ℕ
  pub remaining_to_sell : ℤ
  pub realized_delta : ℤ

-- `matched_qty = min(lot.quantity_remaining, remaining_to_sell)`
abbrev pub matched_qty : Lot → ℤ → ℤ
matched_qty lot remaining = min_ℤ lot.quantity_remaining remaining

-- `remaining_to_sell > 0 and open_lots`
abbrev pub keeps_matching : Matching → Bool
keeps_matching m = ltb_ℤ (pos 0) m.remaining_to_sell && ltb 0 (length m.queue)

module _ (ctx : Context) where
  -- `lot_realized = matched_qty * (event.price - lot.cost_price)`
  unfoldable pub lot_realized : Lot → ℤ → ℤ → ℤ
  lot_realized lot price matched = ctx.product matched (price -ℤ lot.cost_price)

  -- The lot after the sale of `matched` shares of it.
  unfoldable pub consume : TradeEvent → Lot → ℤ → Lot
  consume event lot matched =
      let left = lot.quantity_remaining -ℤ matched in
      record lot {
        realized_pnl = lot.realized_pnl +ℤ lot_realized lot event.price matched;
        quantity_remaining = left;
        closed_date = if eqb_ℤ left (pos 0) then some event.trade_date else lot.closed_date;
      }

  -- One round of the loop, at the lot in position `i` and the rest of the queue.
  unfoldable pub match_lot : TradeEvent → Lot → ℕ → List ℕ → Matching → Matching
  match_lot event lot i rest m =
      let matched = matched_qty lot m.remaining_to_sell in
      let lot' = consume event lot matched in
      record {
        lots = set m.lots i lot';
        queue = if eqb_ℤ lot'.quantity_remaining (pos 0) then rest else i ∷ rest;
        remaining_to_sell = m.remaining_to_sell -ℤ matched;
        realized_delta = m.realized_delta +ℤ lot_realized lot event.price matched;
      }

  abbrev pub match_at : TradeEvent → Option Lot → ℕ → List ℕ → Matching → Matching
  match_at event none i rest m = record m { queue = rest }
  match_at event (some lot) i rest m = match_lot event lot i rest m

  abbrev pub match_head : TradeEvent → List ℕ → Matching → Matching
  match_head event [] m = m
  match_head event (i ∷ rest) m = match_at event (get_elem? m.lots i) i rest m

  -- The `while` loop, on fuel.
  unfoldable pub match_loop : ℕ → TradeEvent → Matching → Matching
  match_loop zero event m = m
  match_loop (suc fuel) event m = elim (keeps_matching m) [
    | true ↦ match_loop fuel event (match_head event m.queue m)
    | false ↦ m
  ]
