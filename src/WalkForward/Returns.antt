-- ===== src/WalkForward/Returns.antt =====
-- Return arithmetic: returns.py of investing_agent/services/walkforward. The outer `Option` of a
-- result is an exception of the decimal arithmetic, the inner one the source's None.
use nse_agent.Common.{
  Bool, true, false, ◌&&◌, Option, none, some, List, [], ◌∷◌, ℤ, pos, ◌-ℤ◌, eqb_ℤ, min_ℤ, max_ℤ,
  if◌then◌else◌, ltb, leb,
}
use nse_agent.Common.Options.{◌>>=◌}
use nse_agent.Common.Decimals.{Context, divide}
use nse_agent.Fifo.Types.{Date, CorporateActionEvent}

abbrev pub in_window : Date → Date → CorporateActionEvent → Bool
in_window start_date end_date event =
    ltb start_date event.event_date && leb event.event_date end_date

module _ (ctx : Context) where
  -- `factor *= event.ratio_new / event.ratio_old` for the events in the window.
  unfoldable pub multiply_factors : Date → Date → ℤ → List CorporateActionEvent → Option ℤ
  multiply_factors start_date end_date factor [] = some factor
  multiply_factors start_date end_date factor (event ∷ events) =
      elim (in_window start_date end_date event) [
        | true ↦ divide ctx event.ratio_new event.ratio_old >>= λ ratio.
            multiply_factors start_date end_date (ctx.product factor ratio) events
        | false ↦ multiply_factors start_date end_date factor events
      ]

  unfoldable pub cumulative_split_factor : List CorporateActionEvent → Date → Date → Option ℤ
  cumulative_split_factor events start_date end_date =
      multiply_factors start_date end_date ctx.one events

  unfoldable pub split_adjusted_return : ℤ → ℤ → ℤ → Option (Option ℤ)
  split_adjusted_return start_price end_price factor =
      if eqb_ℤ start_price (pos 0) then some none else (do
        adjusted_start_price ← divide ctx start_price factor
        some (
            if eqb_ℤ adjusted_start_price (pos 0)
            then none
            else some (ctx.quotient end_price adjusted_start_price -ℤ ctx.one)))

  unfoldable pub simple_return : ℤ → ℤ → Option ℤ
  simple_return start_value end_value =
      if eqb_ℤ start_value (pos 0)
      then none
      else some (ctx.quotient (end_value -ℤ start_value) start_value)

  -- The loop over the later prices, with its running maximum and worst drawdown.
  unfoldable pub drawdown_loop : ℤ → ℤ → List ℤ → ℤ
  drawdown_loop running_max worst [] = worst
  drawdown_loop running_max worst (price ∷ prices) =
      let peak = max_ℤ running_max price in
      drawdown_loop peak
        (if eqb_ℤ peak (pos 0) then worst else min_ℤ worst (ctx.quotient (price -ℤ peak) peak))
        prices

  unfoldable pub max_drawdown_pct : List ℤ → Option ℤ
  max_drawdown_pct [] = none
  max_drawdown_pct (_ ∷ []) = none
  max_drawdown_pct (first ∷ price ∷ prices) = some (drawdown_loop first (pos 0) (price ∷ prices))
