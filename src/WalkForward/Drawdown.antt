-- ===== src/WalkForward/Drawdown.antt =====
-- The drawdown and the split factor of walkforward/returns.py, without their loops.
use nse_agent.Common.{
  ◌≡◌, refl, sym, ap, ◌∙◌, Bool, true, false, ◌&&◌, none, some, List, [], ◌∷◌, ◌++◌, ℤ, pos, ◌≤ℤ◌,
  ◌-ℤ◌, if◌then◌else◌, ltb, leb, Bool-cases, Option-cases, inl, inr, int_laws, min_ℤ, max_ℤ, eqb_ℤ,
}
use nse_agent.Common.Options.{◌>>=◌}
use nse_agent.Common.Decimals.{Context, divide}
use nse_agent.Fifo.Types.{Date, CorporateActionEvent}
use nse_agent.WalkForward.Returns.{
  in_window, multiply_factors, cumulative_split_factor, drawdown_loop, max_drawdown_pct,
}

-- The highest of a price and the prices before it.
unfoldable pub highest : ℤ → List ℤ → ℤ
highest price [] = price
highest price (p ∷ before) = max_ℤ p (highest price before)

-- The lowest of the numbers and zero.
unfoldable pub lowest : List ℤ → ℤ
lowest [] = pos 0
lowest (x ∷ xs) = min_ℤ x (lowest xs)

module _ (ctx : Context) where
  -- How far a price is below a peak, as a part of the peak, with a negative sign.
  abbrev pub fall_from : ℤ → ℤ → ℤ
  fall_from peak price = if eqb_ℤ peak (pos 0) then pos 0 else ctx.quotient (price -ℤ peak) peak

  -- For each price, how far it is below the highest price up to it. `before` are the earlier
  -- prices, the last one first.
  unfoldable pub falls : List ℤ → List ℤ → List ℤ
  unfolding highest
  falls before [] = []
  falls before (price ∷ prices) =
      fall_from (highest price before) price ∷ falls (price ∷ before) prices

  highest-step :
      (peak price : ℤ) (before : List ℤ)
      → ((p : ℤ) → highest p before ≡ max_ℤ peak p)
      → (p : ℤ) → highest p (price ∷ before) ≡ max_ℤ (max_ℤ peak price) p
  unfolding highest
  highest-step peak price before h p = rw (h p) (max_swap peak price p)
    where
      max_swap : (a b c : ℤ) → max_ℤ b (max_ℤ a c) ≡ max_ℤ (max_ℤ a b) c
      max_swap a b c = grind int_laws

  worst-step :
      (zero : Bool) (worst fall rest : ℤ)
      → worst ≤ℤ pos 0
      → min_ℤ (if zero then worst else min_ℤ worst fall) rest
        ≡ min_ℤ worst (min_ℤ (if zero then pos 0 else fall) rest)
  worst-step true worst fall rest w = grind int_laws
  worst-step false worst fall rest w = grind int_laws

  worst-le :
      (zero : Bool) (worst fall : ℤ)
      → worst ≤ℤ pos 0
      → (if zero then worst else min_ℤ worst fall) ≤ℤ pos 0
  worst-le true worst fall w = w
  worst-le false worst fall w = grind int_laws

  worst-lowest : (worst : ℤ) → worst ≤ℤ pos 0 → worst ≡ min_ℤ worst (pos 0)
  worst-lowest worst w = grind int_laws

  drawdown_loop-eq-lowest :
      (peak worst : ℤ) (before prices : List ℤ)
      → ((p : ℤ) → highest p before ≡ max_ℤ peak p)
      → worst ≤ℤ pos 0
      → drawdown_loop ctx peak worst prices ≡ min_ℤ worst (lowest (falls before prices))
  unfolding drawdown_loop falls lowest
  drawdown_loop-eq-lowest peak worst before [] h w = worst-lowest worst w
  drawdown_loop-eq-lowest peak worst before (price ∷ prices) h w =
      let top : ℤ = max_ℤ peak price in
      let zero : Bool = eqb_ℤ top (pos 0) in
      let fall : ℤ = ctx.quotient (price -ℤ top) top in
      drawdown_loop-eq-lowest top (if zero then worst else min_ℤ worst fall) (price ∷ before) prices
        (highest-step peak price before h) (worst-le zero worst fall w)
      ∙ worst-step zero worst fall (lowest (falls (price ∷ before) prices)) w
      ∙ ap (λ t. min_ℤ worst (min_ℤ (fall_from t price) (lowest (falls (price ∷ before) prices))))
          (sym (h price))

  lowest-le : (xs : List ℤ) → min_ℤ (pos 0) (lowest xs) ≡ lowest xs
  unfolding lowest
  lowest-le [] = grind int_laws
  lowest-le (x ∷ xs) = min_swap x (lowest xs) (lowest-le xs)
    where
      min_swap : (a b : ℤ) → min_ℤ (pos 0) b ≡ b → min_ℤ (pos 0) (min_ℤ a b) ≡ min_ℤ a b
      min_swap a b h = grind int_laws

  -- One price has no drawdown. The drawdown of more is the lowest of zero and, for each price
  -- after the first, its distance below the highest price up to it, as a part of that highest
  -- price (zero where that is zero).
  pub max_drawdown_pct-lowest :
      (first second : ℤ) (prices : List ℤ)
      → (max_drawdown_pct ctx (first ∷ []) ≡ none)
        × (max_drawdown_pct ctx (first ∷ second ∷ prices)
            ≡ some (lowest (falls (first ∷ []) (second ∷ prices))))
  unfolding max_drawdown_pct highest
  max_drawdown_pct-lowest first second prices = (
    refl,
    ap some (
        drawdown_loop-eq-lowest first (pos 0) (first ∷ []) (second ∷ prices) (λ p. refl)
          (omega int_laws)
        ∙ lowest-le (falls (first ∷ []) (second ∷ prices))),
  )

  multiply_factors-append :
      (start_date end_date : Date) (factor : ℤ) (events : List CorporateActionEvent)
      (event : CorporateActionEvent)
      → multiply_factors ctx start_date end_date factor (events ++ event ∷ []) ≡ (
          multiply_factors ctx start_date end_date factor events >>= λ f.
          if ltb start_date event.event_date && leb event.event_date end_date
          then (divide ctx event.ratio_new event.ratio_old >>= λ ratio. some (ctx.product f ratio))
          else some f)
  unfolding multiply_factors
  multiply_factors-append start_date end_date factor [] event =
      elim (Bool-cases (in_window start_date end_date event)) [
        | inl e ↦ elim (Option-cases (divide ctx event.ratio_new event.ratio_old)) [
          | inl f ↦ rw (multiply_factors, e, f)
          | inr (_, f) ↦ rw (multiply_factors, e, f)
        ]
        | inr e ↦ rw (multiply_factors, e)
      ]
  multiply_factors-append start_date end_date factor (e ∷ events) event =
      elim (Bool-cases (in_window start_date end_date e)) [
        | inl h ↦ elim (Option-cases (divide ctx e.ratio_new e.ratio_old)) [
          | inl f ↦ rw (multiply_factors, h, f)
          | inr (ratio, f) ↦
              rw (multiply_factors, h, f)
                (multiply_factors-append start_date end_date (ctx.product factor ratio) events
                  event)
        ]
        | inr h ↦
            rw (multiply_factors, h)
              (multiply_factors-append start_date end_date factor events event)
      ]

  -- The factor of no events is one. A further event, the last of the list, multiplies the factor
  -- by its ratio if it is after the start and up to the end, and leaves it otherwise.
  pub cumulative_split_factor-append :
      (events : List CorporateActionEvent) (event : CorporateActionEvent)
      (start_date end_date : Date)
      → (cumulative_split_factor ctx [] start_date end_date ≡ some ctx.one)
        × (cumulative_split_factor ctx (events ++ event ∷ []) start_date end_date ≡ (
            cumulative_split_factor ctx events start_date end_date >>= λ factor.
            if ltb start_date event.event_date && leb event.event_date end_date
            then (divide ctx event.ratio_new event.ratio_old >>= λ ratio.
                some (ctx.product factor ratio))
            else some factor))
  unfolding cumulative_split_factor multiply_factors
  cumulative_split_factor-append events event start_date end_date =
      (refl, multiply_factors-append start_date end_date ctx.one events event)
