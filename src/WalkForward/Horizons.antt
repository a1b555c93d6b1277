-- ===== src/WalkForward/Horizons.antt =====
-- What the prices of the horizons say of the price table.
use nse_agent.Common.{
  ℕ, ◌+◌, ◌≡◌, refl, Bool, true, false, ◌&&◌, not, Option, none, some, List, [], ◌∷◌, filter, any,
  leb, ◌==◌, is_some, arith, ap, ◌∙◌,
}
use nse_agent.Fifo.Types.{Symbol, Date}
use nse_agent.Recommend.Generate.{latest}
use nse_agent.Reconstruction.Snapshot.{not_empty}
use nse_agent.Reconstruction.Positions.{not_empty-filter}
use nse_agent.WalkForward.Prices.{
  DailyPrice, PriceReason, date_of, earliest, get_nearest_on_or_after, get_latest_trading_date,
  is_before, resolve_horizon_price,
}

any-filter {ℓ} :
    {A : Type ℓ} (p q : A → Bool) (xs : List A) → any q (filter p xs) ≡ any (λ x. p x && q x) xs
any-filter p q [] = refl
any-filter p q (x ∷ xs) = ground (arith, any-filter p q xs)

is_some-earliest : (xs : List DailyPrice) → is_some (earliest xs) ≡ not_empty xs
unfolding earliest
is_some-earliest [] = refl
is_some-earliest (x ∷ xs) = ground arith

-- The latest date is before a date where no row is on or after it.
is_before-latest :
    (target : Date) (xs : List DailyPrice)
    → is_before (date_of (latest (λ p. p.trading_date) xs)) target
      ≡ not (any (λ p. leb target p.trading_date) xs)
unfolding latest
is_before-latest target [] = refl
is_before-latest target (x ∷ xs) = ground (arith, is_before-latest target xs)

abbrev pub is_insufficient : Option PriceReason → Bool
is_insufficient none = false
is_insufficient (some why) = elim why [ PriceReason.insufficient_horizon _ ↦ true | _ ↦ false ]

module _ (rows : List DailyPrice) (symbol : Symbol) (target : Date) (days : ℕ) where
  abbrev pub in_lookahead : DailyPrice → Bool
  in_lookahead p =
      p.symbol == symbol && leb target p.trading_date && leb p.trading_date (target + days)

  abbrev pub from_target : DailyPrice → Bool
  from_target p = p.symbol == symbol && leb target p.trading_date

  any-in_lookahead : (ps : List DailyPrice) → any in_lookahead ps ≡ true → any from_target ps ≡ true
  any-in_lookahead [] e = e
  any-in_lookahead (p ∷ ps) e = ground (arith, any-in_lookahead ps)

  is_some-nearest :
      is_some (get_nearest_on_or_after rows symbol target days) ≡ any in_lookahead rows
  unfolding get_nearest_on_or_after
  is_some-nearest = is_some-earliest (filter in_lookahead rows) ∙ not_empty-filter in_lookahead rows

  latest-before :
      is_before (get_latest_trading_date rows symbol) target ≡ not (any from_target rows)
  unfolding get_latest_trading_date
  latest-before =
      is_before-latest target (filter (λ p. p.symbol == symbol) rows)
      ∙ ap not (any-filter (λ p. p.symbol == symbol) (λ p. leb target p.trading_date) rows)

  -- A horizon has a price exactly where the symbol has a row in the lookahead from the target
  -- date, and the reason is an insufficient horizon exactly where it has no row from the target
  -- date on.
  pub resolve_horizon_price-reason :
      (is_some (resolve_horizon_price rows symbol target days).price ≡ any in_lookahead rows)
      × (is_insufficient (resolve_horizon_price rows symbol target days).reason
          ≡ not (any from_target rows))
  unfolding resolve_horizon_price
  resolve_horizon_price-reason =
      ground (arith, is_some-nearest, latest-before, any-in_lookahead rows)
