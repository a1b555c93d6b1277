-- ===== src/WalkForward/ReportTests.antt =====
-- Tests of the report and of the comparator.
use nse_agent.Common.{◌/◌, ◌≡◌, refl, none, some, List, [], ◌∷◌, ℤ, pos, ◌-ℤ◌, ◌*ℤ◌, pos_part}
use nse_agent.Common.Decimals.{Context}
use nse_agent.WalkForward.Decisions.{Action, DecisionSource}
use nse_agent.WalkForward.Aggregation.{Horizon, group_by, group_into, add_to_group}
use nse_agent.WalkForward.Report.{
  ConcentrationBucket, concentration_bucket, least_value, greatest_value,
}
use nse_agent.WalkForward.Comparator.{
  ComparatorEntry, source_entry, by_event, event_impacts, all_impacts,
}

abbrev whole : Context
whole = record { one = pos 1; product = ◌*ℤ◌; quotient = λ a b. pos (pos_part a / pos_part b) }

a_quarter_is_in_the_upper_bucket :
    concentration_bucket
      (record { one = pos 100; product = ◌*ℤ◌; quotient = λ a b. a })
      (some (pos 25))
    ≡ ConcentrationBucket.from_25_to_50_pct
unfolding concentration_bucket ◌*ℤ◌
a_quarter_is_in_the_upper_bucket = refl

worst_of_three : least_value (pos 3) (pos 1 ∷ pos 2 ∷ []) ≡ pos 1
unfolding least_value
worst_of_three = refl

best_of_three : greatest_value (pos 2) (pos 3 ∷ pos 1 ∷ []) ≡ pos 3
unfolding greatest_value
best_of_three = refl

abbrev entry : DecisionSource → ℤ → ℤ → ComparatorEntry
entry source quantity ret = record {
  symbol = 1;
  decision_at = 10;
  decision_source = source;
  action = Action.hold;
  quantity_held = quantity;
  entry_price = some (pos 5);
  stock_return = λ h. some ret;
  excess_return_tri = λ h. none;
  max_drawdown_pct = none;
}

abbrev event : ℤ → List ComparatorEntry
event ret =
    entry DecisionSource.actual (pos 9) ret
    ∷ entry DecisionSource.hold_baseline (pos 7) ret
    ∷ entry DecisionSource.agent (pos 10) ret
    ∷ []

both_are_compared :
    all_impacts whole Horizon.months_1 (by_event (event (pos 2))) ≡ some (pos 30 ∷ [], pos 20 ∷ [])
unfolding all_impacts event_impacts source_entry by_event group_by group_into add_to_group ◌*ℤ◌ ◌-ℤ◌
both_are_compared = refl

-- An event whose price has not moved is left out as if it had no return.
no_move_is_left_out : all_impacts whole Horizon.months_1 (by_event (event (pos 0))) ≡ some ([], [])
unfolding all_impacts event_impacts source_entry by_event group_by group_into add_to_group ◌*ℤ◌ ◌-ℤ◌
no_move_is_left_out = refl
