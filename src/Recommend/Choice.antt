-- ===== src/Recommend/Choice.antt =====
-- When the engine recommends to buy, to add, and when it fails.
use nse_agent.Common.{
  ℕ, ◌≡◌, Bool, true, false, ◌&&◌, not, Option, none, some, ℤ, pos, eqb_ℤ, any, is_some, arith,
}
use nse_agent.Common.Decimals.{Context}
use nse_agent.Fifo.Types.{Symbol}
use nse_agent.Recommend.Types.{Holding, BaseAction, Evidence, RecommendationDecision}
use nse_agent.Recommend.Policy.{
  is_hard, is_stale, is_watching, is_supportive, is_confident, is_small, lacks_price, choose,
  choose_held, choose_new, weight_of, decide,
}

-- The decision is to buy.
abbrev pub buys : Option RecommendationDecision → Bool
buys none = false
buys (some d) = elim d.base_action [ BaseAction.buy ↦ true | _ ↦ false ]

abbrev pub adds : Option RecommendationDecision → Bool
adds none = false
adds (some d) = elim d.base_action [ BaseAction.add ↦ true | _ ↦ false ]

-- All that a purchase of a symbol that is not held needs.
abbrev pub allows_initiation : ℕ → Evidence → Bool
allows_initiation as_of e =
    not (any is_hard e.risks)
    && not (is_some e.holding)
    && is_some e.thesis
    && not (is_watching e.thesis)
    && not (is_stale as_of e.valuation)
    && is_some e.estimate
    && is_supportive e.valuation

-- What a larger position needs, besides its weight.
abbrev pub allows_addition : ℕ → Evidence → Bool
allows_addition as_of e =
    not (any is_hard e.risks)
    && is_some e.thesis
    && not (is_stale as_of e.valuation)
    && is_supportive e.valuation
    && is_confident e.estimate

-- The weight that the code computes for the held position is below the limit. It is zero where
-- the total value is zero.
abbrev pub has_small_weight : Context → ℤ → Option Holding → Bool
has_small_weight ctx total none = false
has_small_weight ctx total (some h) = elim (weight_of ctx total h) [
  | none ↦ false
  | some w ↦ is_small ctx total w
]

-- The weight of a held position whose price is missing is needed.
abbrev pub needs_missing_price : ℤ → ℕ → Evidence → Bool
needs_missing_price total as_of e =
    not (any is_hard e.risks)
    && lacks_price e.holding
    && is_some e.thesis
    && not (is_stale as_of e.valuation)
    && not (eqb_ℤ total (pos 0))

module _ (ctx : Context) (total : ℤ) (as_of : ℕ) (symbol : Symbol) where
  -- The decision is to buy exactly where there is no active risk of high or critical severity,
  -- no position, a thesis that is not merely watched, a fresh valuation below its fair value, and
  -- an estimate.
  pub decide-buys :
      (e : Evidence) → buys (decide ctx total as_of symbol e) ≡ allows_initiation as_of e
  unfolding decide choose choose_held choose_new
  decide-buys e = ground arith

  -- The decision is to add exactly where the weight that the code computes for a held position is
  -- below a tenth (it is zero where the total value is zero), and there are a thesis, a fresh
  -- valuation below its fair value, a confident estimate and no active risk of high or critical
  -- severity.
  pub decide-adds :
      (e : Evidence)
      → adds (decide ctx total as_of symbol e)
        ≡ (allows_addition as_of e && has_small_weight ctx total e.holding)
  unfolding decide choose choose_held choose_new
  decide-adds e = ground arith

  -- The code fails exactly where the weight of a held position is needed, the total value of
  -- the portfolio is not zero and the value of the position is missing.
  pub decide-fails :
      (e : Evidence)
      → is_some (decide ctx total as_of symbol e) ≡ not (needs_missing_price total as_of e)
  unfolding decide choose choose_held choose_new weight_of
  decide-fails e = ground arith
