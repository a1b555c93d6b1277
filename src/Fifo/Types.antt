-- ===== src/Fifo/Types.antt =====
-- The data of investing_agent/services/reconstruction/fifo.py: the three kinds of event, the lots,
-- and the result of a replay with the queues of open lots beside it.
use nse_agent.Common.{ℕ, Bool, Option, List, ℤ}
use nse_agent.Common.Maps.{Dict}

-- Symbols, ISINs, companies, sources and dedupe keys are only compared, so they are numbers. A
-- date is its ordinal, and a datetime a count of microseconds.
abbrev pub Symbol : Type 0
Symbol = ℕ

abbrev pub Date : Type 0
Date = ℕ

pub data TradeSide : Type 0 where
  buy sell : TradeSide

pub data CorporateActionType : Type 0 where
  split bonus : CorporateActionType

pub data LotOrigin : Type 0 where
  trade oversell_synthetic opening_adjustment : LotOrigin

-- The key of a lot: that of its trade, or the text that names an opening adjustment.
pub data DedupeKey : Type 0 where
  of_trade : ℕ → DedupeKey
  of_opening : Symbol → Date → DedupeKey

pub record TradeEvent : Type 0 where
  pub dedupe_key : ℕ
  pub symbol : Symbol
  pub isin : Option ℕ
  pub company_id : Option ℕ
  pub trade_date : Date
  pub trade_datetime : Option ℕ
  pub side : TradeSide
  pub quantity : ℤ
  pub price : ℤ

pub record CorporateActionEvent : Type 0 where
  pub symbol : Symbol
  pub event_type : CorporateActionType
  pub event_date : Date
  pub ratio_new : ℤ
  pub ratio_old : ℤ
  pub source : ℕ

pub record OpeningPositionAdjustment : Type 0 where
  pub symbol : Symbol
  pub isin : Option ℕ
  pub company_id : Option ℕ
  pub opening_date : Date
  pub quantity : ℤ
  pub cost_price : ℤ
  pub source : ℕ
  pub confidence : ℕ
  pub reason : ℕ

pub record CorporateActionAdjustmentApplied : Type 0 where
  pub symbol : Symbol
  pub event_type : CorporateActionType
  pub event_date : Date
  pub ratio_new : ℤ
  pub ratio_old : ℤ
  pub old_quantity : ℤ
  pub new_quantity : ℤ
  pub old_cost_per_share : ℤ
  pub adjusted_cost_per_share : ℤ
  pub source : ℕ

pub record Lot : Type 0 where
  pub symbol : Symbol
  pub isin : Option ℕ
  pub company_id : Option ℕ
  pub opened_date : Date
  pub quantity_opened : ℤ
  pub quantity_remaining : ℤ
  pub cost_price : ℤ
  pub opening_trade_dedupe_key : DedupeKey
  pub closed_date : Option Date
  pub realized_pnl : ℤ
  pub is_synthetic : Bool
  pub lot_origin : LotOrigin

-- The two warnings, with the values that their texts show.
pub data Warning : Type 0 where
  opening_position_adjustment_applied : OpeningPositionAdjustment → Warning
  synthetic_lot_suspected : Symbol → ℤ → Date → ℤ → Warning

-- `FifoReplayResult` and, last, the local `open_lots_by_symbol`. The source shares one lot object
-- between `all_lots` and a queue; here `all_lots` is the store, which only grows, and a queue
-- holds positions in it.
pub record Replay : Type 0 where
  pub all_lots : List Lot
  pub realized_pnl_by_symbol : Dict ℤ
  pub warnings : List Warning
  pub corporate_action_adjustments : List CorporateActionAdjustmentApplied
  pub open_lots_by_symbol : Dict (List ℕ)
