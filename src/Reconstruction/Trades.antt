-- ===== src/Reconstruction/Trades.antt =====
-- replay.py of investing_agent/services/reconstruction: trades as an ordered event stream, and the
-- partial cash balance.
use nse_agent.Common.{
  ℕ, ◌*◌, ◌≡◌, ◌<◌, ◌≤◌, ◌⊎◌, Bool, Option, none, some, List, [], ◌∷◌, ◌&&◌, ◌||◌, map, ℤ, pos,
  ◌+ℤ◌, neg_ℤ, sum_ℤ, ltb, leb, ◌==◌, or_default,
}
use nse_agent.Common.Sorting.{sort_by}
use nse_agent.Common.Decimals.{Context}
use nse_agent.Fifo.Types.{
  Symbol, Date, TradeSide, TradeEvent, CorporateActionEvent, OpeningPositionAdjustment, Replay,
}
use nse_agent.Fifo.Timeline.{replay_fifo}

-- The columns of `HistoricalTrade` that reconstruction reads.
pub record HistoricalTrade : Type 0 where
  pub id : ℕ
  pub dedupe_key : ℕ
  pub symbol : Symbol
  pub isin : Option ℕ
  pub company_id : Option ℕ
  pub trade_date : Date
  pub trade_datetime : Option ℕ
  pub side : TradeSide
  pub quantity : ℤ
  pub price : ℤ

pub record HistoricalCashFlow : Type 0 where
  pub amount : ℤ

unfoldable pub event_of : HistoricalTrade → TradeEvent
event_of t = record {
  dedupe_key = t.dedupe_key;
  symbol = t.symbol;
  isin = t.isin;
  company_id = t.company_id;
  trade_date = t.trade_date;
  trade_datetime = t.trade_datetime;
  side = t.side;
  quantity = t.quantity;
  price = t.price;
}

-- `e.trade_datetime or datetime.combine(e.trade_date, time.min)`, in microseconds
unfoldable pub moment_of : TradeEvent → ℕ
moment_of e = or_default e.trade_datetime (e.trade_date * 86_400_000_000)

-- `(trade_date, trade_datetime, dedupe_key)`, compared as a tuple
unfoldable pub event_le : TradeEvent → TradeEvent → Bool
event_le a b =
    ltb a.trade_date b.trade_date
    || a.trade_date == b.trade_date
      && (ltb (moment_of a) (moment_of b)
          || moment_of a == moment_of b && leb a.dedupe_key b.dedupe_key)

unfoldable pub trades_to_events : List HistoricalTrade → List TradeEvent
trades_to_events trades = sort_by event_le (map event_of trades)

unfoldable pub replay_trades :
    Context
    → List HistoricalTrade
    → List CorporateActionEvent
    → List OpeningPositionAdjustment
    → Option Replay
replay_trades ctx trades cas adjs = replay_fifo ctx (trades_to_events trades) cas adjs

-- The two texts of the caveat.
pub data Caveat : Type 0 where
  cash_ledger_coverage : Date → Caveat
  no_ledger : Caveat

pub record CashBreakdown : Type 0 where
  pub cash_from_trades_only : ℤ
  pub cash_ledger_delta : ℤ
  pub cash_ledger_coverage_start : Option Date
  pub caveat : Caveat

unfoldable pub cash_balance_partial : CashBreakdown → ℤ
cash_balance_partial c = c.cash_from_trades_only +ℤ c.cash_ledger_delta

-- `-signed_value if t.side == "BUY" else signed_value`
abbrev pub cash_by_side : TradeSide → ℤ → ℤ
cash_by_side TradeSide.buy value = neg_ℤ value
cash_by_side TradeSide.sell value = value

unfoldable pub cash_of_trade : Context → HistoricalTrade → ℤ
cash_of_trade ctx t = cash_by_side t.side (ctx.product t.quantity t.price)

-- The loop over the trades, with its accumulator.
unfoldable pub cash_from_trades : Context → ℤ → List HistoricalTrade → ℤ
cash_from_trades ctx cash [] = cash
cash_from_trades ctx cash (t ∷ ts) = cash_from_trades ctx (cash +ℤ cash_of_trade ctx t) ts

abbrev pub caveat_of : Option Date → Caveat
caveat_of none = Caveat.no_ledger
caveat_of (some start) = Caveat.cash_ledger_coverage start

unfoldable pub compute_cash_breakdown :
    Context → List HistoricalTrade → List HistoricalCashFlow → Option Date → CashBreakdown
compute_cash_breakdown ctx trades cash_flows start = record {
  cash_from_trades_only = cash_from_trades ctx (pos 0) trades;
  cash_ledger_delta = sum_ℤ (map (λ cf. cf.amount) cash_flows);
  cash_ledger_coverage_start = start;
  caveat = caveat_of start;
}

-- The time of a trade or, where none is given, the start of its day, in microseconds.
abbrev pub time_of : Option ℕ → Date → ℕ
time_of (some time) day = time
time_of none day = day * 86_400_000_000

-- An earlier day; on one day an earlier time; and at one time a key that is not greater.
abbrev pub ComesBefore : TradeEvent → TradeEvent → Type 0
ComesBefore a b =
    (a.trade_date < b.trade_date)
    ⊎ ((a.trade_date ≡ b.trade_date)
        × ((time_of a.trade_datetime a.trade_date < time_of b.trade_datetime b.trade_date)
            ⊎ ((time_of a.trade_datetime a.trade_date ≡ time_of b.trade_datetime b.trade_date)
                × (a.dedupe_key ≤ b.dedupe_key))))
