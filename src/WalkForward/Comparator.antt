-- ===== src/WalkForward/Comparator.antt =====
-- The report of investing_agent/services/walkforward/comparator.py: decisions of the agent beside
-- the hold baseline and what was actually done.
use nse_agent.Common.{
  ℕ, ◌-◌, Bool, true, false, not, ◌&&◌, Option, none, some, List, [], ◌∷◌, ◌++◌, map, filter,
  length, count_if, ℤ, pos, ◌-ℤ◌, eqb_ℤ, if◌then◌else◌, ◌==◌, is_some,
}
use nse_agent.Common.Options.{◌>>=◌}
use nse_agent.Common.Decimals.{Context}
use nse_agent.WalkForward.Decisions.{Action, DecisionSource, same_source}
use nse_agent.WalkForward.Aggregation.{Horizon, known, median, in_percent, group_by}
use nse_agent.WalkForward.Report.{action_code, all_horizons}

-- The columns of a decision and its outcome that the comparator reads.
pub record ComparatorEntry : Type 0 where
  pub symbol : ℕ
  pub decision_at : ℕ
  pub decision_source : DecisionSource
  pub action : Action
  pub quantity_held : ℤ
  pub entry_price : Option ℤ
  pub stock_return : Horizon → Option ℤ
  pub excess_return_tri : Horizon → Option ℤ
  pub max_drawdown_pct : Option ℤ

pub record HorizonComparison : Type 0 where
  pub outcome_scoreable : ℕ
  pub outcome_unscoreable : ℕ
  pub baseline_eligible : ℕ
  pub median_stock_return_pct : Option ℤ
  pub median_excess_tri_pct : Option ℤ
  pub median_drawdown_pct : Option ℤ
  pub median_agent_vs_hold_impact_inr : Option ℤ
  pub median_actual_vs_hold_impact_inr : Option ℤ

-- The report; the texts by which the actions are sorted are left out.
pub record ComparatorReport : Type 0 where
  pub events : ℕ
  pub action_distribution : List (Action × ℕ)
  pub policy_scoreable : ℕ
  pub policy_unscoreable : ℕ
  pub comparisons : List (Horizon × HorizonComparison)

abbrev pub is_unscoreable : Action → Bool
is_unscoreable Action.insufficient_evidence = true
is_unscoreable _ = false

-- The entry of a source in `by_key[key]`: a later one replaces an earlier.
unfoldable pub source_entry : DecisionSource → List ComparatorEntry → Option ComparatorEntry
source_entry source [] = none
source_entry source (e ∷ es) = elim (source_entry source es) [
  | some later ↦ some later
  | none ↦ if same_source e.decision_source source then some e else none
]

abbrev pub same_event : ℕ × ℕ → ℕ × ℕ → Bool
same_event (s, d) (s', d') = s == s' && d == d'

-- `by_key`, in the order of the first entries
unfoldable pub by_event : List ComparatorEntry → List ((ℕ × ℕ) × List ComparatorEntry)
by_event entries = group_by same_event entries (λ e. (e.symbol, e.decision_at))

unfoldable pub agent_rows_of : List ((ℕ × ℕ) × List ComparatorEntry) → List ComparatorEntry
agent_rows_of [] = []
agent_rows_of ((_, entries) ∷ events) =
    let rest = agent_rows_of events in
    elim (source_entry DecisionSource.agent entries) [ none ↦ rest | some e ↦ e ∷ rest ]

-- `not value`, for a value that may be None: zero counts as missing.
abbrev pub is_falsy : Option ℤ → Bool
is_falsy none = true
is_falsy (some v) = eqb_ℤ v (pos 0)

module _ (ctx : Context) where
  -- (quantity - held) * (entry_price * return): a missing price raises.
  abbrev pub impact : ℤ → ℤ → Option ℤ → Option ℤ → Option ℤ
  impact quantity held (some price) (some ret) =
      some (ctx.product (quantity -ℤ held) (ctx.product price ret))
  impact quantity held _ _ = none

  -- The impacts of one event: of the agent and of what was done, if it is compared.
  unfoldable pub event_impacts : Horizon → List ComparatorEntry → Option (List ℤ × List ℤ)
  event_impacts horizon entries = elim (source_entry DecisionSource.agent entries) [
    | none ↦ some ([], [])
    | some agent ↦ elim (source_entry DecisionSource.hold_baseline entries) [
      | none ↦ some ([], [])
      | some hold ↦ if is_falsy (agent.stock_return horizon) then some ([], []) else (do
        ours ←
            impact agent.quantity_held hold.quantity_held agent.entry_price
              (agent.stock_return horizon)
        some (
          ours ∷ [],
          elim (source_entry DecisionSource.actual entries) [
            | none ↦ []
            | some actual ↦
                if is_falsy actual.entry_price
                then []
                else elim (impact actual.quantity_held hold.quantity_held actual.entry_price
                    (actual.stock_return horizon)) [ none ↦ [] | some theirs ↦ theirs ∷ [] ]
          ],
        ))
    ]
  ]

  unfoldable pub all_impacts :
      Horizon → List ((ℕ × ℕ) × List ComparatorEntry) → Option (List ℤ × List ℤ)
  all_impacts horizon [] = some ([], [])
  all_impacts horizon ((_, entries) ∷ events) = do
    (ours, theirs) ← event_impacts horizon entries
    (ours', theirs') ← all_impacts horizon events
    some (ours ++ ours', theirs ++ theirs')

  -- One round of the loop over the horizons.
  unfoldable pub compare_horizon :
      List ((ℕ × ℕ) × List ComparatorEntry) → Horizon → Option HorizonComparison
  compare_horizon events horizon =
      let agent_rows = agent_rows_of events in
      let scored = filter (λ r. is_some (r.stock_return horizon)) agent_rows in
      let eligible = filter (λ r. not (is_unscoreable r.action)) scored in
      do
        (impacts, actual_impacts) ← all_impacts horizon events
        some (record {
          outcome_scoreable = length scored;
          outcome_unscoreable = length agent_rows - length scored;
          baseline_eligible = length eligible;
          median_stock_return_pct =
              in_percent ctx (median ctx (known (λ r. r.stock_return horizon) eligible));
          median_excess_tri_pct =
              in_percent ctx (median ctx (known (λ r. r.excess_return_tri horizon) eligible));
          median_drawdown_pct =
              in_percent ctx (median ctx (known (λ r. r.max_drawdown_pct) eligible));
          median_agent_vs_hold_impact_inr = median ctx impacts;
          median_actual_vs_hold_impact_inr = median ctx actual_impacts;
        })

  unfoldable pub compare_horizons :
      List ((ℕ × ℕ) × List ComparatorEntry)
      → List Horizon
      → Option (List (Horizon × HorizonComparison))
  compare_horizons events [] = some []
  compare_horizons events (h ∷ hs) = do
    comparison ← compare_horizon events h
    rest ← compare_horizons events hs
    some ((h, comparison) ∷ rest)

  -- `build_comparator_report`
  unfoldable pub build_comparator_report : List ComparatorEntry → Option ComparatorReport
  build_comparator_report entries =
      let events = by_event entries in
      let agent_rows = agent_rows_of events in
      do
        comparisons ← compare_horizons events all_horizons
        some (record {
          events = length agent_rows;
          action_distribution =
              map (λ g. (g.0, length g.1))
                (group_by (λ a b. action_code a == action_code b) agent_rows (λ r. r.action));
          policy_scoreable = count_if (λ r. not (is_unscoreable r.action)) agent_rows;
          policy_unscoreable = count_if (λ r. is_unscoreable r.action) agent_rows;
          comparisons = comparisons;
        })
