-- ===== src/WalkForward/Outcomes.antt =====
-- Scoring a frozen decision: outcomes.py of investing_agent/services/walkforward, with the table of
-- outcomes of db/repositories/walkforward.py. The `datetime` and `calendar` libraries are an
-- argument. The outer `Option` of a result is an exception of the decimal arithmetic.
use nse_agent.Common.{
  ℕ, ◌+◌, ◌-◌, ◌/◌, ◌%◌, ◌&&◌, Option, none, some, List, [], ◌∷◌, ◌++◌, ℤ, ◌-ℤ◌, filter, length,
  if◌then◌else◌, ltb, leb, ◌==◌, is_some,
}
use nse_agent.Common.Options.{◌>>=◌}
use nse_agent.Common.Sorting.{sort_by}
use nse_agent.Common.Decimals.{Context, divide}
use nse_agent.Fifo.Types.{Symbol, Date, CorporateActionEvent}
use nse_agent.WalkForward.Returns.{
  cumulative_split_factor, split_adjusted_return, simple_return, max_drawdown_pct,
}
use nse_agent.WalkForward.Prices.{
  DailyPrice, PriceReason, ResolvedPrice, default_max_lookahead_days, resolve_entry_price,
  resolve_horizon_price,
}

-- What the code uses of the libraries: the parts of a date, the length of a month, and the date
-- with given parts.
pub record Calendar : Type 0 where
  pub year : Date → ℕ
  pub month : Date → ℕ
  pub day : Date → ℕ
  pub monthrange : ℕ → ℕ → ℕ
  pub date : ℕ → ℕ → ℕ → Date

pub data OutcomeStatus : Type 0 where
  scored partial unscorable : OutcomeStatus

-- The notes; a horizon's notes carry its number of months.
pub data Note : Type 0 where
  entry entry_benchmark entry_benchmark_tri : PriceReason → Note
  horizon horizon_benchmark horizon_benchmark_tri : ℕ → PriceReason → Note
  zero_entry : ℕ → Note

-- The columns of one horizon.
pub record HorizonFields : Type 0 where
  pub months : ℕ
  pub price : Option ℤ
  pub price_date : Option Date
  pub stock_return : Option ℤ
  pub benchmark_return : Option ℤ
  pub excess_return : Option ℤ
  pub benchmark_tri_return : Option ℤ
  pub excess_return_tri : Option ℤ

pub record WalkForwardOutcome : Type 0 where
  pub decision_id : ℕ
  pub entry_price : Option ℤ
  pub entry_price_date : Option Date
  pub horizons : List HorizonFields
  pub max_drawdown_pct : Option ℤ
  pub outcome_status : OutcomeStatus
  pub data_quality_notes : List Note

-- Daily prices, and those of the benchmarks.
pub record PriceTables : Type 0 where
  pub daily : List DailyPrice
  pub benchmark : List DailyPrice

abbrev pub benchmark_code : ℕ
benchmark_code = 50

abbrev pub tri_benchmark_code : ℕ
tri_benchmark_code = 51

abbrev pub horizon_months : List ℕ
horizon_months = 1 ∷ 3 ∷ 6 ∷ 12 ∷ []

unfoldable pub add_months : Calendar → Date → ℕ → Date
add_months calendar d months =
    let month_index = calendar.month d - 1 + months in
    let year = calendar.year d + month_index / 12 in
    let month = month_index % 12 + 1 in
    let last = calendar.monthrange year month in
    calendar.date year month (if ltb last (calendar.day d) then last else calendar.day d)

abbrev pub note_if : Option PriceReason → (PriceReason → Note) → List Note
note_if none note = []
note_if (some why) note = note why ∷ []

-- `a - b`, where both are known
abbrev pub difference : Option ℤ → Option ℤ → Option ℤ
difference (some a) (some b) = some (a -ℤ b)
difference _ _ = none

abbrev pub later_date : Option Date → Option Date → Option Date
later_date (some d) none = some d
later_date (some d) (some widest) = some (if ltb widest d then d else widest)
later_date none widest = widest

-- `list_between`, ordered by the date
unfoldable pub list_between : List DailyPrice → Symbol → Date → Date → List DailyPrice
list_between rows symbol start_date end_date =
    sort_by (λ a b. leb a.trading_date b.trading_date)
      (filter
        (λ p. p.symbol == symbol && leb start_date p.trading_date && leb p.trading_date end_date)
        rows)

unfoldable pub status_of_count : Option ℤ → ℕ → OutcomeStatus
status_of_count none scored_count = OutcomeStatus.unscorable
status_of_count (some entry_price) scored_count =
    if scored_count == length horizon_months
    then OutcomeStatus.scored
    else (if ltb 0 scored_count then OutcomeStatus.partial else OutcomeStatus.unscorable)

-- The variables of the loop over the horizons.
pub record Scoring : Type 0 where
  pub scored_count : ℕ
  pub widest_end_date : Option Date
  pub fields : List HorizonFields
  pub notes : List Note

module _ (ctx : Context) where
  abbrev pub simple_return_of : Option ℤ → Option ℤ → Option ℤ
  simple_return_of (some start) (some end_value) = simple_return ctx start end_value
  simple_return_of _ _ = none

  -- The stock return of a horizon, where its prices are known.
  unfoldable pub stock_return_of :
      List CorporateActionEvent → Date → Option ℤ → ResolvedPrice → Option (Option ℤ)
  stock_return_of events decision_at none resolved = some none
  stock_return_of events decision_at (some entry_price) resolved = elim resolved.price [
    | none ↦ some none
    | some price ↦ elim resolved.trading_date [
      | none ↦ some none
      | some trading_date ↦
          cumulative_split_factor ctx events decision_at trading_date >>= λ factor.
          split_adjusted_return ctx entry_price price factor
    ]
  ]

  -- Whether the return is undefined although the prices are known.
  abbrev pub zero_note : ℕ → Option ℤ → ResolvedPrice → Option ℤ → List Note
  zero_note months (some entry_price) resolved none =
      if is_some resolved.price && is_some resolved.trading_date
      then Note.zero_entry months ∷ []
      else []
  zero_note months _ resolved _ = []

  -- The adjusted closes up to the end date.
  unfoldable pub adjusted_closes :
      List CorporateActionEvent → Date → List DailyPrice → Option (List ℤ)
  adjusted_closes events end_date [] = some []
  adjusted_closes events end_date (row ∷ rows) = do
    factor ← cumulative_split_factor ctx events row.trading_date end_date
    close ← divide ctx row.close factor
    rest ← adjusted_closes events end_date rows
    some (close ∷ rest)

  unfoldable pub compute_max_drawdown :
      List DailyPrice → Symbol → Date → Option Date → List CorporateActionEvent → Option (Option ℤ)
  compute_max_drawdown rows symbol decision_at none events = some none
  compute_max_drawdown rows symbol decision_at (some end_date) events =
      let between = list_between rows symbol decision_at end_date in
      if ltb (length between) 2
      then some none
      else (adjusted_closes events end_date between >>= λ closes.
          some (max_drawdown_pct ctx closes))

  module _ (calendar : Calendar) (tables : PriceTables) (symbol : Symbol) (decision_at : Date)
      (events : List CorporateActionEvent) where
    abbrev pub stock_entry : ResolvedPrice
    stock_entry = resolve_entry_price tables.daily symbol decision_at

    abbrev pub benchmark_entry : ℕ → ResolvedPrice
    benchmark_entry code = resolve_entry_price tables.benchmark code decision_at

    abbrev pub horizon_price : ℕ → ResolvedPrice
    horizon_price months =
        resolve_horizon_price tables.daily symbol (add_months calendar decision_at months)
          default_max_lookahead_days

    abbrev pub benchmark_price : ℕ → ℕ → ResolvedPrice
    benchmark_price code months =
        resolve_horizon_price tables.benchmark code (add_months calendar decision_at months)
          default_max_lookahead_days

    unfoldable pub fields_of : ℕ → Option ℤ → HorizonFields
    fields_of months stock_return =
        let benchmark_return =
          simple_return_of (benchmark_entry benchmark_code).price
            (benchmark_price benchmark_code months).price in
        let benchmark_tri_return =
          simple_return_of (benchmark_entry tri_benchmark_code).price
            (benchmark_price tri_benchmark_code months).price in
        record {
          months = months;
          price = (horizon_price months).price;
          price_date = (horizon_price months).trading_date;
          stock_return = stock_return;
          benchmark_return = benchmark_return;
          excess_return = difference stock_return benchmark_return;
          benchmark_tri_return = benchmark_tri_return;
          excess_return_tri = difference stock_return benchmark_tri_return;
        }

    unfoldable pub notes_of : ℕ → Option ℤ → List Note
    notes_of months stock_return =
        note_if (horizon_price months).reason (Note.horizon months)
        ++ note_if (benchmark_price benchmark_code months).reason (Note.horizon_benchmark months)
        ++ note_if (benchmark_price tri_benchmark_code months).reason
            (Note.horizon_benchmark_tri months)
        ++ zero_note months stock_entry.price (horizon_price months) stock_return

    -- One round of the loop, with the stock return that it computes.
    unfoldable pub record_horizon : ℕ → Option ℤ → Scoring → Scoring
    record_horizon months stock_return s = record {
      scored_count = (if is_some stock_return then 1 else 0) + s.scored_count;
      widest_end_date =
          (if is_some stock_return
            then later_date (horizon_price months).trading_date s.widest_end_date
            else s.widest_end_date);
      fields = s.fields ++ (fields_of months stock_return ∷ []);
      notes = s.notes ++ notes_of months stock_return;
    }

    unfoldable pub score_horizons : List ℕ → Scoring → Option Scoring
    score_horizons [] s = some s
    score_horizons (months ∷ rest) s =
        stock_return_of events decision_at stock_entry.price (horizon_price months)
        >>= λ stock_return. score_horizons rest (record_horizon months stock_return s)

    unfoldable pub start_scoring : Scoring
    start_scoring = record {
      scored_count = 0;
      widest_end_date = none;
      fields = [];
      notes =
          note_if stock_entry.reason Note.entry
          ++ note_if (benchmark_entry benchmark_code).reason Note.entry_benchmark
          ++ note_if (benchmark_entry tri_benchmark_code).reason Note.entry_benchmark_tri;
    }

    unfoldable pub outcome_of : ℕ → Scoring → Option ℤ → WalkForwardOutcome
    outcome_of decision_id s drawdown = record {
      decision_id = decision_id;
      entry_price = stock_entry.price;
      entry_price_date = stock_entry.trading_date;
      horizons = s.fields;
      max_drawdown_pct = drawdown;
      outcome_status = status_of_count stock_entry.price s.scored_count;
      data_quality_notes = s.notes;
    }

    -- The row that `score_outcome` computes.
    unfoldable pub compute_outcome : ℕ → Option WalkForwardOutcome
    compute_outcome decision_id = do
      s ← score_horizons horizon_months start_scoring
      drawdown ← compute_max_drawdown tables.daily symbol decision_at s.widest_end_date events
      some (outcome_of decision_id s drawdown)

-- `get_by_decision_id`
unfoldable pub get_by_decision_id : ℕ → List WalkForwardOutcome → Option WalkForwardOutcome
get_by_decision_id decision_id [] = none
get_by_decision_id decision_id (o ∷ os) =
    if o.decision_id == decision_id then some o else get_by_decision_id decision_id os

-- The columns of the total-return benchmark, set from new ones.
unfoldable pub backfill_fields : List HorizonFields → List HorizonFields → List HorizonFields
backfill_fields [] new = []
backfill_fields (f ∷ fs) [] = f ∷ fs
backfill_fields (f ∷ fs) (g ∷ gs) =
    record f {
      benchmark_tri_return = g.benchmark_tri_return;
      excess_return_tri = g.excess_return_tri;
    }
    ∷ backfill_fields fs gs

unfoldable pub backfill_tri_returns : WalkForwardOutcome → List HorizonFields → WalkForwardOutcome
backfill_tri_returns outcome new = record outcome {
  horizons = backfill_fields outcome.horizons new;
}

unfoldable pub replace_outcome :
    WalkForwardOutcome → List WalkForwardOutcome → List WalkForwardOutcome
replace_outcome row [] = []
replace_outcome row (o ∷ os) =
    if o.decision_id == row.decision_id then row ∷ os else o ∷ replace_outcome row os

-- The row and the table after scoring: a stored row gets the columns of the total-return
-- benchmark, and otherwise the computed row is added.
unfoldable pub store_outcome :
    WalkForwardOutcome → List WalkForwardOutcome → WalkForwardOutcome × List WalkForwardOutcome
store_outcome row table = elim (get_by_decision_id row.decision_id table) [
  | some existing ↦
      let updated = backfill_tri_returns existing row.horizons in
      (updated, replace_outcome updated table)
  | none ↦ (row, table ++ (row ∷ []))
]

-- `all_events` are the corporate actions that are known when the outcome is scored.
unfoldable pub score_outcome :
    Context
    → Calendar
    → PriceTables
    → List CorporateActionEvent
    → Symbol
    → Date
    → ℕ
    → List WalkForwardOutcome
    → Option (WalkForwardOutcome × List WalkForwardOutcome)
score_outcome ctx calendar tables all_events symbol decision_at decision_id table = do
  row ←
      compute_outcome ctx calendar tables symbol decision_at
        (filter (λ e. e.symbol == symbol) all_events) decision_id
  some (store_outcome row table)
