-- ===== src/Fifo/Timeline.antt =====
-- `replay_fifo` of fifo.py: the three inputs merged into one timeline, and the handlers run along
-- it; and the queries of `FifoReplayResult`.
use nse_agent.Common.{
  ℕ, suc, Bool, true, false, ◌&&◌, ◌||◌, Option, none, some, List, [], ◌∷◌, ◌++◌, map, ℤ, pos,
  ltb_ℤ, filter, any, ltb, leb, ◌==◌,
}
use nse_agent.Common.Maps.{total}
use nse_agent.Common.Options.{◌>>=◌}
use nse_agent.Common.Sorting.{sort_by}
use nse_agent.Common.Decimals.{Context}
use nse_agent.Fifo.Types.{
  Symbol, Date, TradeEvent, CorporateActionEvent, OpeningPositionAdjustment, Lot, Replay,
}
use nse_agent.Fifo.Steps.{apply_opening_adjustment}
use nse_agent.Fifo.Run.{apply_corporate_action, apply_trade}

pub data Payload : Type 0 where
  opening : OpeningPositionAdjustment → Payload
  corporate_action : CorporateActionEvent → Payload
  trade : TradeEvent → Payload

-- `(date, priority, seq, kind, payload)`
pub record Entry : Type 0 where
  pub date : Date
  pub priority : ℕ
  pub seq : ℕ
  pub payload : Payload

abbrev pub date_of : Payload → Date
date_of (Payload.opening adj) = adj.opening_date
date_of (Payload.corporate_action ca) = ca.event_date
date_of (Payload.trade event) = event.trade_date

abbrev pub priority_of : Payload → ℕ
priority_of (Payload.opening _) = 0
priority_of (Payload.corporate_action _) = 1
priority_of (Payload.trade _) = 2

abbrev pub entry_of : ℕ → Payload → Entry
entry_of seq p = record { date = date_of p; priority = priority_of p; seq = seq; payload = p }

-- The entries of a list of payloads, numbered from `seq`.
unfoldable pub numbered : ℕ → List Payload → List Entry
numbered seq [] = []
numbered seq (p ∷ ps) = entry_of seq p ∷ numbered (suc seq) ps

-- Opening adjustments, then corporate actions, then trades.
unfoldable pub payloads :
    List TradeEvent → List CorporateActionEvent → List OpeningPositionAdjustment → List Payload
payloads events cas adjs =
    map Payload.opening adjs ++ (map Payload.corporate_action cas ++ map Payload.trade events)

-- `(a.date, a.priority, a.seq) <= (b.date, b.priority, b.seq)`
unfoldable pub entry_le : Entry → Entry → Bool
entry_le a b =
    ltb a.date b.date
    || a.date == b.date
      && (ltb a.priority b.priority || a.priority == b.priority && leb a.seq b.seq)

unfoldable pub timeline :
    List TradeEvent → List CorporateActionEvent → List OpeningPositionAdjustment → List Entry
unfolding numbered payloads entry_le sort_by
timeline events cas adjs = sort_by entry_le (numbered 0 (payloads events cas adjs))

-- `FifoReplayResult()` and an empty `open_lots_by_symbol`
abbrev pub no_lots : Replay
no_lots = record {
  all_lots = [];
  realized_pnl_by_symbol = [];
  warnings = [];
  corporate_action_adjustments = [];
  open_lots_by_symbol = [];
}

module _ (ctx : Context) where
  unfoldable pub apply_payload : Payload → Replay → Option Replay
  unfolding apply_opening_adjustment apply_corporate_action apply_trade
  apply_payload (Payload.opening adj) r = some (apply_opening_adjustment adj r)
  apply_payload (Payload.corporate_action ca) r = apply_corporate_action ctx ca r
  apply_payload (Payload.trade event) r = some (apply_trade ctx event r)

  unfoldable pub run_entries : List Entry → Replay → Option Replay
  unfolding apply_payload
  run_entries [] r = some r
  run_entries (e ∷ es) r = do r' ← apply_payload e.payload r; run_entries es r'

  unfoldable pub replay_fifo :
      List TradeEvent → List CorporateActionEvent → List OpeningPositionAdjustment → Option Replay
  unfolding timeline run_entries
  replay_fifo events cas adjs = run_entries (timeline events cas adjs) no_lots

-- `lot.quantity_remaining > 0 and (symbol is None or lot.symbol == symbol)`
abbrev pub is_open_lot : Option Symbol → Lot → Bool
is_open_lot none lot = ltb_ℤ (pos 0) lot.quantity_remaining
is_open_lot (some symbol) lot = ltb_ℤ (pos 0) lot.quantity_remaining && lot.symbol == symbol

unfoldable pub open_lots : Option Symbol → Replay → List Lot
open_lots symbol r = filter (is_open_lot symbol) r.all_lots

-- The symbols of the lots, each at its first place; `seen` are those already listed.
unfoldable pub first_symbols : List Symbol → List Lot → List Symbol
first_symbols seen [] = []
first_symbols seen (l ∷ ls) = elim (any (λ s. s == l.symbol) seen) [
  | true ↦ first_symbols seen ls
  | false ↦ l.symbol ∷ first_symbols (l.symbol ∷ seen) ls
]

unfoldable pub symbols_with_open_lots : Replay → List Symbol
unfolding open_lots first_symbols
symbols_with_open_lots r = first_symbols [] (open_lots none r)

unfoldable pub realized_pnl_total : Replay → ℤ
realized_pnl_total r = total r.realized_pnl_by_symbol
