-- ===== src/Estimation/Tests.antt =====
-- Tests of the estimator, and witnesses of its theorems.
use nse_agent.Common.{
  ℕ, suc, ◌*◌, ◌/◌, ◌≡◌, ◌≤◌, refl, true, false, none, some, List, [], ◌∷◌, ℤ, pos, negsuc, ◌+ℤ◌,
  ◌-ℤ◌, ◌*ℤ◌, ◌≤ℤ◌, pos_part, min_ℤ, max_ℤ, arith,
}
use native.Mathlib.Nat.{mul-le-mul_left}
use nse_agent.Common.Int.{sub_ℕ}
use nse_agent.Common.Decimals.{Context}
use nse_agent.Common.Sorting.{sort_by, insert_by}
use nse_agent.Estimation.Types.{HistoricalFinancialPoint, FeatureSnapshot}
use nse_agent.Estimation.Deterministic.{
  percent, half, blend_anchor, growth_basis, anchor_in, recent_in, estimate_revenue,
  growth_estimate, guide_revenue, grown, growth_samples, quarter_samples, pair_samples, consecutive,
  last_where,
}
use nse_agent.WalkForward.Aggregation.{group_by, group_into, add_to_group}
use nse_agent.Estimation.Derived.{estimate_confidence, settle}
use nse_agent.Estimation.RevenueBand.{estimate_revenue-IsBand}
use nse_agent.Estimation.Bands.{IsMonotone, IsBand, Covers}
use nse_agent.Estimation.Confidence.{estimate_confidence-bounds}

-- Exact products, and quotients by a positive number that are rounded down.
abbrev times : ℤ → ℤ → ℤ
times (pos n) (pos m) = pos (n * m)
times (pos n) (negsuc m) = sub_ℕ 0 (n * suc m)
times (negsuc n) (pos m) = sub_ℕ 0 (suc n * m)
times (negsuc n) (negsuc m) = pos (suc n * suc m)

abbrev floor : ℤ → ℤ → ℤ
floor (pos n) b = pos (n / pos_part b)
floor (negsuc n) b = negsuc (n / pos_part b)

abbrev rounded_down : Context
rounded_down = record { one = pos 1; product = times; quotient = floor }

times_mono : (a b c : ℤ) → pos 0 ≤ℤ a → b ≤ℤ c → times a b ≤ℤ times a c
times_mono (negsuc n) b c h le = omega (arith, h)
times_mono (pos n) (pos m) (pos k) h le =
    let more : n * m ≤ n * k = mul-le-mul_left n (omega (arith, le)) in omega (arith, more)
times_mono (pos n) (negsuc m) (pos k) h le = ground arith
times_mono (pos n) (pos m) (negsuc k) h le = omega (arith, le)
times_mono (pos n) (negsuc m) (negsuc k) h le =
    let more : n * suc k ≤ n * suc m = mul-le-mul_left n (omega (arith, le)) in ground (arith, more)

floor_mono : (a b : ℤ) → a ≤ℤ b → percent rounded_down a ≤ℤ percent rounded_down b
unfolding ◌*ℤ◌
floor_mono (pos n) (pos m) h = omega (arith, h)
floor_mono (negsuc n) (pos m) h = omega (arith, h)
floor_mono (pos n) (negsuc m) h = omega (arith, h)
floor_mono (negsuc n) (negsuc m) h = omega (arith, h)

half_above : (a b : ℤ) → min_ℤ a b ≤ℤ half rounded_down (a +ℤ b)
unfolding ◌*ℤ◌ ◌+ℤ◌
half_above (pos n) (pos m) = ground arith
half_above (negsuc n) (pos m) = ground arith
half_above (pos n) (negsuc m) = ground arith
half_above (negsuc n) (negsuc m) = ground arith

half_below : (a b : ℤ) → half rounded_down (a +ℤ b) ≤ℤ max_ℤ a b
unfolding ◌*ℤ◌ ◌+ℤ◌
half_below (pos n) (pos m) = ground arith
half_below (negsuc n) (pos m) = ground arith
half_below (pos n) (negsuc m) = ground arith
half_below (negsuc n) (negsuc m) = ground arith

rounded_down-IsMonotone : IsMonotone rounded_down
rounded_down-IsMonotone = record {
  product_mono = times_mono;
  percent_mono = floor_mono;
  half_low = half_above;
  half_high = half_below;
}

abbrev point : ℕ → ℤ → HistoricalFinancialPoint
point year revenue = record {
  fiscal_year = year;
  quarter = some 1;
  period_end = year * 365;
  revenue = some revenue;
  ebitda_margin_pct = none;
  pat = some (pos 30);
  eps_diluted = some (pos 3);
}

abbrev history : List HistoricalFinancialPoint
history = point 2021 (pos 100) ∷ point 2022 (pos 200) ∷ point 2023 (pos 400) ∷ []

abbrev snapshot : FeatureSnapshot
snapshot = record {
  target_fiscal_year = 2024;
  target_quarter = some 1;
  historical_financials = history;
  guidance = [];
}

-- Stand-ins for the functions of the statistics library: the first value, and one unit.
abbrev middle : List ℤ → ℤ
middle [] = pos 0
middle (x ∷ xs) = x

abbrev deviation : List ℤ → ℤ
deviation xs = pos 1

estimate_revenue-IsBand_example :
    IsBand
      (estimate_revenue rounded_down middle deviation snapshot history (some (pos 100, pos 300))).0
    × Covers rounded_down
        (some (pos 100, pos 300))
        (blend_anchor
          (growth_basis rounded_down history (anchor_in snapshot history) (recent_in history))
          (anchor_in snapshot history)
          (recent_in history))
        (estimate_revenue rounded_down middle deviation snapshot history
          (some (pos 100, pos 300))).0
estimate_revenue-IsBand_example =
    estimate_revenue-IsBand rounded_down middle deviation rounded_down-IsMonotone snapshot history
      (some (pos 100, pos 300)) (λ xs. omega arith) (omega arith, (omega arith, (omega arith, tt)))
      (omega arith)

estimate_confidence-bounds_example :
    (pos 500 ≤ℤ estimate_confidence 2 0 true true)
    × (estimate_confidence 2 0 true true ≤ℤ pos 8500)
    × (estimate_confidence 2 0 true true ≤ℤ estimate_confidence 6 0 true true)
estimate_confidence-bounds_example = estimate_confidence-bounds 2 6 0 true true (omega arith)

confident : estimate_confidence 6 3 false true ≡ pos 8500
unfolding estimate_confidence settle ◌+ℤ◌ ◌-ℤ◌
confident = refl

-- Growth of 100% a year around the revenue of 400, with a deviation of 100%.
revenue_of_next_year :
    (estimate_revenue rounded_down middle deviation snapshot history none).0
    ≡ record { low = some (pos 400); base = some (pos 800); high = some (pos 1200) }
unfolding estimate_revenue growth_basis growth_estimate guide_revenue grown growth_samples
    quarter_samples pair_samples consecutive group_by group_into add_to_group sort_by insert_by
    last_where ◌+ℤ◌ ◌-ℤ◌ ◌*ℤ◌
revenue_of_next_year = refl
