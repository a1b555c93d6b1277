-- ===== src/Fifo/Tests.antt =====
-- Small runs of the replay, and its theorems at concrete inputs.
use mathlib.Core.List.{Perm}
use native.Mathlib.Omega.{arith}
use nse_agent.Common.{
  ℕ, ◌+◌, ◌-◌, ◌/◌, ◌≡◌, refl, none, some, List, [], ◌∷◌, ◌++◌, map, ℤ, pos, negsuc, pos_part, ◌*ℤ◌,
  ◌+ℤ◌, ◌-ℤ◌, ◌<ℤ◌, Option, length, sum_ℤ, false,
}
use nse_agent.Common.Maps.{total}
use nse_agent.Common.Sorting.{AllPairs, insert_by, sort_by}
use nse_agent.Common.Decimals.{Context, IsPositive, divide}
use nse_agent.Fifo.Types.{
  TradeSide, CorporateActionType, TradeEvent, CorporateActionEvent, Replay, Warning,
}
use nse_agent.Fifo.Steps.{
  queue_of, open_lot, lot_of_buy, consume, lot_realized, match_lot, match_loop, keeps_matching,
}
use nse_agent.Fifo.Run.{
  start_matching, run_matching, after_matching, absorb_oversell, oversell_lot, credit, apply_sell,
  apply_trade, lots_at, scale_lot, scale_lots, adjust_open_lots, apply_corporate_action,
}
use nse_agent.Fifo.Timeline.{
  Payload, Entry, entry_le, numbered, payloads, timeline, no_lots, apply_payload, run_entries,
  replay_fifo, realized_pnl_total,
}
use nse_agent.Fifo.Queues.{IsQueued, open_positions}
use nse_agent.Fifo.Totals.{total_by, held}
use nse_agent.Fifo.Loop.{loop_ends}
use nse_agent.Fifo.Oversell.{warnings-apply_sell}
use nse_agent.Fifo.Replays.{IsConsistent, held-apply_trade, replay_fifo-IsConsistent}
use nse_agent.Fifo.Order.{IsCounted, ComesBefore, timeline-IsSortedBy}

-- Whole units, with quotients of positive numbers rounded up.
abbrev whole : Context
whole = record {
  one = pos 1;
  product = ◌*ℤ◌;
  quotient = λ a b. pos ((pos_part a + pos_part b - 1) / pos_part b);
}

whole-product_pos : (a b : ℤ) → pos 0 <ℤ a → pos 0 <ℤ b → pos 0 <ℤ a *ℤ b
unfolding ◌*ℤ◌
whole-product_pos (pos a) (pos b) p q = grind arith
whole-product_pos (pos a) (negsuc b) p q = absurd (omega arith)
whole-product_pos (negsuc a) b p q = absurd (omega arith)

whole-quotient_pos : (a b : ℤ) → pos 0 <ℤ a → pos 0 <ℤ b → pos 0 <ℤ whole.quotient a b
whole-quotient_pos a b p q = grind arith

whole-IsPositive : IsPositive whole
whole-IsPositive = record { product_pos = whole-product_pos; quotient_pos = whole-quotient_pos }

abbrev trade_on : ℕ → TradeSide → ℕ → ℕ → TradeEvent
trade_on date side quantity price = record {
  dedupe_key = date;
  symbol = 7;
  isin = none;
  company_id = none;
  trade_date = date;
  trade_datetime = none;
  side = side;
  quantity = pos quantity;
  price = pos price;
}

-- Bought 10 at 100 and 10 at 120, split one to two, sold 45 at 70.
abbrev events : List TradeEvent
events =
    trade_on 40 TradeSide.sell 45 70
    ∷ trade_on 10 TradeSide.buy 10 100
    ∷ trade_on 20 TradeSide.buy 10 120
    ∷ []

abbrev splits : List CorporateActionEvent
splits =
    record {
      symbol = 7;
      event_type = CorporateActionType.split;
      event_date = 30;
      ratio_new = pos 2;
      ratio_old = pos 1;
      source = 0;
    }
    ∷ []

abbrev outcome : Option Replay → Option (List ℤ × ℤ × ℕ)
outcome none = none
outcome (some r) =
    some (map (λ l. l.realized_pnl) r.all_lots, realized_pnl_total r, length r.warnings)

-- The lots give 20 * (70 - 50), 20 * (70 - 60) and, for the excess of 5, 5 * 70.
replay_run :
    outcome (replay_fifo whole events splits [])
    ≡ some (pos 400 ∷ pos 200 ∷ pos 350 ∷ [], pos 950, 1)
unfolding replay_fifo timeline numbered payloads entry_le sort_by insert_by run_entries
    apply_payload apply_trade apply_sell run_matching start_matching queue_of match_loop match_lot
    consume lot_realized after_matching absorb_oversell oversell_lot credit open_lot lot_of_buy
    apply_corporate_action adjust_open_lots lots_at scale_lots scale_lot divide realized_pnl_total
    sum_ℤ total ◌*ℤ◌ ◌+ℤ◌ ◌-ℤ◌
replay_run = refl

replay_fifo-IsConsistent_example :
    (r : Replay) × (replay_fifo whole events splits [] ≡ some r) × IsConsistent r
replay_fifo-IsConsistent_example =
    replay_fifo-IsConsistent whole events splits [] whole-IsPositive (omega arith) (omega arith) tt

abbrev one_lot : Replay
one_lot = open_lot (lot_of_buy (trade_on 10 TradeSide.buy 10 100)) no_lots

one_lot-IsQueued : IsQueued one_lot
unfolding open_lot lot_of_buy queue_of open_positions
one_lot-IsQueued s = ground arith

held-apply_trade_example :
    held 7 (apply_trade whole (trade_on 40 TradeSide.sell 4 70) one_lot).all_lots ≡ pos 6
unfolding open_lot lot_of_buy total_by ◌+ℤ◌ ◌-ℤ◌
held-apply_trade_example =
    held-apply_trade whole (trade_on 40 TradeSide.sell 4 70) one_lot 7 one_lot-IsQueued
      (omega arith)

warnings-apply_sell_example :
    (apply_sell whole (trade_on 40 TradeSide.sell 15 70) one_lot).warnings
    ≡ Warning.synthetic_lot_suspected 7 (pos 15) 40 (pos 5) ∷ []
unfolding open_lot lot_of_buy total_by ◌+ℤ◌ ◌-ℤ◌
warnings-apply_sell_example =
    warnings-apply_sell whole (trade_on 40 TradeSide.sell 15 70) one_lot one_lot-IsQueued
      (omega arith)

timeline-IsSortedBy_example :
    (entries : List Entry) × (map (λ e. e.payload) entries
      ≡ map Payload.corporate_action splits ++ map Payload.trade events)
    × IsCounted 0 (map (λ e. e.seq) entries)
    × Perm (timeline events splits []) entries
    × AllPairs ComesBefore (timeline events splits [])
timeline-IsSortedBy_example = timeline-IsSortedBy events splits []

loop_ends_example :
    keeps_matching (
      match_loop whole 1
        (trade_on 40 TradeSide.sell 15 70)
        (start_matching (trade_on 40 TradeSide.sell 15 70) one_lot))
    ≡ false
unfolding start_matching queue_of open_lot lot_of_buy
loop_ends_example =
    loop_ends whole (trade_on 40 TradeSide.sell 15 70) 1
      (start_matching (trade_on 40 TradeSide.sell 15 70) one_lot) (omega arith)
