-- ===== src/WalkForward/Prices.antt =====
-- Price resolution: prices.py of investing_agent/services/walkforward, with the queries of
-- db/repositories/prices.py. Daily prices and benchmark prices are queried alike; a row's symbol
-- is a benchmark's code in the second table.
use nse_agent.Common.{
  ℕ, ◌+◌, Bool, true, ◌&&◌, Option, none, some, List, [], ◌∷◌, ℤ, filter, if◌then◌else◌, ltb, leb,
  ◌==◌,
}
use nse_agent.Fifo.Types.{Symbol, Date}
use nse_agent.Recommend.Generate.{latest}

pub record DailyPrice : Type 0 where
  pub symbol : Symbol
  pub trading_date : Date
  pub close : ℤ

-- The texts of the reasons, with the dates that they show.
pub data PriceReason : Type 0 where
  no_price_before : Date → PriceReason
  insufficient_horizon : Date → PriceReason
  data_gap : ℕ → Date → PriceReason

pub record ResolvedPrice : Type 0 where
  pub price : Option ℤ
  pub trading_date : Option Date
  pub reason : Option PriceReason

abbrev pub default_max_lookahead_days : ℕ
default_max_lookahead_days = 10

-- `.order_by(trading_date.asc()).limit(1)`
unfoldable pub earliest : List DailyPrice → Option DailyPrice
earliest [] = none
earliest (p ∷ ps) = elim (earliest ps) [
  | none ↦ some p
  | some q ↦ some (if ltb q.trading_date p.trading_date then q else p)
]

unfoldable pub get_nearest_on_or_before : List DailyPrice → Symbol → Date → Option DailyPrice
get_nearest_on_or_before rows symbol target_date =
    latest (λ p. p.trading_date)
      (filter (λ p. p.symbol == symbol && leb p.trading_date target_date) rows)

unfoldable pub get_nearest_on_or_after : List DailyPrice → Symbol → Date → ℕ → Option DailyPrice
get_nearest_on_or_after rows symbol target_date days = earliest (
    filter
      (λ p.
        p.symbol == symbol
        && leb target_date p.trading_date
        && leb p.trading_date (target_date + days))
      rows)

abbrev pub date_of : Option DailyPrice → Option Date
date_of none = none
date_of (some p) = some p.trading_date

-- `func.max(trading_date)`
unfoldable pub get_latest_trading_date : List DailyPrice → Symbol → Option Date
get_latest_trading_date rows symbol =
    date_of (latest (λ p. p.trading_date) (filter (λ p. p.symbol == symbol) rows))

abbrev pub resolved : DailyPrice → ResolvedPrice
resolved row = record {
  price = some row.close;
  trading_date = some row.trading_date;
  reason = none;
}

abbrev pub unresolved : PriceReason → ResolvedPrice
unresolved why = record { price = none; trading_date = none; reason = some why }

-- `resolve_entry_price` and `resolve_benchmark_entry_price`
unfoldable pub resolve_entry_price : List DailyPrice → Symbol → Date → ResolvedPrice
resolve_entry_price rows symbol decision_at =
    elim (get_nearest_on_or_before rows symbol decision_at) [
      | none ↦ unresolved (PriceReason.no_price_before decision_at)
      | some row ↦ resolved row
    ]

abbrev pub is_before : Option Date → Date → Bool
is_before none target_date = true
is_before (some date) target_date = ltb date target_date

-- `resolve_horizon_price` and `resolve_benchmark_horizon_price`
unfoldable pub resolve_horizon_price : List DailyPrice → Symbol → Date → ℕ → ResolvedPrice
resolve_horizon_price rows symbol target_date days =
    elim (get_nearest_on_or_after rows symbol target_date days) [
      | some row ↦ resolved row
      | none ↦
          if is_before (get_latest_trading_date rows symbol) target_date
          then unresolved (PriceReason.insufficient_horizon target_date)
          else unresolved (PriceReason.data_gap days target_date)
    ]
