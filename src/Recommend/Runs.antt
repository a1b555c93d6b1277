-- ===== src/Recommend/Runs.antt =====
-- What a run of the engine decides: one decision for each symbol, unless one of them fails, from
-- the valuations and estimates up to its instant.
use nse_agent.Common.{
  ℕ, ◌≡◌, ◌<◌, refl, false, ◌&&◌, not, Option, none, some, List, [], ◌∷◌, ◌++◌, map, ℤ, any,
  is_some, arith, All, filter-none, Option-cases, inl, inr, leb, ◌==◌,
}
use nse_agent.Common.Options.{>>=-eq-some}
use nse_agent.Common.Maps.{Dict}
use nse_agent.Common.Decimals.{Context}
use nse_agent.Fifo.Types.{Symbol}
use nse_agent.Recommend.Types.{
  ValuationSnapshot, EstimateRun, Company, Holding, Evidence, RecommendationDecision,
}
use nse_agent.Recommend.Policy.{choose, decide}
use nse_agent.Recommend.Generate.{
  Tables, AccountContext, PortfolioSnapshot, gather, held_of, symbols_of, total_of, decide_all,
  generate, latest_valuation, latest_estimate, active_risks, get_active, find_company,
}
use nse_agent.Recommend.Choice.{needs_missing_price, decide-fails}

symbol-decide :
    (ctx : Context) (total : ℤ) (as_of s : ℕ) (e : Evidence) (d : RecommendationDecision)
    → decide ctx total as_of s e ≡ some d
    → d.symbol ≡ s
unfolding decide
symbol-decide ctx total as_of s e d h =
    let (c, _, k) = >>=-eq-some (choose ctx total as_of e) _ h in ground (arith, k)

module _ (ctx : Context) (total : ℤ) (as_of : ℕ) (t : Tables) (held : Dict Holding) where
  decide_all-fails :
      (ss : List Symbol)
      → is_some (decide_all ctx total as_of t held ss)
        ≡ not (any (λ s. needs_missing_price total as_of (gather t as_of held s)) ss)
  unfolding decide_all
  decide_all-fails [] = refl
  decide_all-fails (s ∷ ss) =
      ground (arith, decide-fails ctx total as_of s (gather t as_of held s), decide_all-fails ss)

  decide_all-symbols :
      (ss : List Symbol) (ds : List RecommendationDecision)
      → decide_all ctx total as_of t held ss ≡ some ds
      → map (λ d. d.symbol) ds ≡ ss
  unfolding decide_all
  decide_all-symbols [] ds h = cc
  decide_all-symbols (s ∷ ss) ds h =
      let (d, e, k) = >>=-eq-some (decide ctx total as_of s (gather t as_of held s)) _ h in
      let (rest, f, g) = >>=-eq-some (decide_all ctx total as_of t held ss) _ k in
      let head = symbol-decide ctx total as_of s (gather t as_of held s) d e in
      let tail = decide_all-symbols ss rest f in ground (arith, head, tail, g)

module _ (ctx : Context) (t : Tables) (as_of : ℕ) (symbols : Option (List Symbol))
    (account : Option AccountContext) (snapshot : Option PortfolioSnapshot) where
  -- A run fails exactly if, for one of its symbols, the weight of a held position is needed, the
  -- total value is not zero and the value of the position is missing.
  pub generate-fails :
      is_some (generate ctx t as_of symbols account snapshot)
      ≡ not (
          any
            (λ s.
              needs_missing_price
                (total_of account snapshot)
                as_of
                (gather t as_of (held_of account snapshot) s))
            (symbols_of t symbols account (held_of account snapshot)))
  unfolding generate
  generate-fails =
      decide_all-fails ctx (total_of account snapshot) as_of t (held_of account snapshot)
        (symbols_of t symbols account (held_of account snapshot))

  -- A run that does not fail has one decision for each of its symbols, in their order.
  pub generate-symbols :
      (ds : List RecommendationDecision)
      → generate ctx t as_of symbols account snapshot ≡ some ds
      → map (λ d. d.symbol) ds ≡ symbols_of t symbols account (held_of account snapshot)
  unfolding generate
  generate-symbols ds h =
      decide_all-symbols ctx (total_of account snapshot) as_of t (held_of account snapshot)
        (symbols_of t symbols account (held_of account snapshot)) ds h

-- The tables with later rows added.
abbrev pub with_later : Tables → List ValuationSnapshot → List EstimateRun → Tables
with_later t valuations estimates = record t {
  valuations = t.valuations ++ valuations;
  estimates = t.estimates ++ estimates;
}

module _ (t : Tables) (as_of : ℕ) (vs : List ValuationSnapshot) (es : List EstimateRun) where
  valuation-later :
      (c : Company)
      → All (λ v. as_of < v.as_of) vs
      → latest_valuation (with_later t vs es) as_of c ≡ latest_valuation t as_of c
  unfolding latest_valuation
  valuation-later c h =
      rw (filter-none (λ v. v.company_id == c.id && leb v.as_of as_of) t.valuations vs (late vs h))
    where
      late :
          (xs : List ValuationSnapshot)
          → All (λ v. as_of < v.as_of) xs
          → All (λ v. (v.company_id == c.id && leb v.as_of as_of) ≡ false) xs
      late [] h = tt
      late (x ∷ xs) h = (ground arith, late xs h.1)

  estimate-later :
      (c : Company)
      → All (λ e. as_of < e.cutoff_at) es
      → latest_estimate (with_later t vs es) as_of c ≡ latest_estimate t as_of c
  unfolding latest_estimate
  estimate-later c h =
      rw (
        filter-none (λ e. e.company_id == c.id && leb e.cutoff_at as_of) t.estimates es (late es h))
    where
      late :
          (xs : List EstimateRun)
          → All (λ e. as_of < e.cutoff_at) xs
          → All (λ e. (e.company_id == c.id && leb e.cutoff_at as_of) ≡ false) xs
      late [] h = tt
      late (x ∷ xs) h = (ground arith, late xs h.1)

  gather-later :
      (held : Dict Holding) (s : Symbol)
      → All (λ v. as_of < v.as_of) vs
      → All (λ e. as_of < e.cutoff_at) es
      → gather (with_later t vs es) as_of held s ≡ gather t as_of held s
  unfolding gather get_active active_risks
  gather-later held s hv he = elim (Option-cases (find_company s t.companies)) [
    | inl e ↦ rw (gather, e)
    | inr (c, e) ↦ rw (gather, e, valuation-later c hv, estimate-later c he)
  ]

  decide_all-later :
      (ctx : Context) (total : ℤ) (held : Dict Holding) (ss : List Symbol)
      → All (λ v. as_of < v.as_of) vs
      → All (λ e. as_of < e.cutoff_at) es
      → decide_all ctx total as_of (with_later t vs es) held ss
        ≡ decide_all ctx total as_of t held ss
  unfolding decide_all
  decide_all-later ctx total held [] hv he = refl
  decide_all-later ctx total held (s ∷ ss) hv he =
      rw (gather-later held s hv he, decide_all-later ctx total held ss hv he)

symbols-later :
    (t : Tables) (vs : List ValuationSnapshot) (es : List EstimateRun)
    (symbols : Option (List Symbol)) (account : Option AccountContext) (held : Dict Holding)
    → symbols_of (with_later t vs es) symbols account held ≡ symbols_of t symbols account held
unfolding symbols_of
symbols-later t vs es (some symbols) account held = refl
symbols-later t vs es none (some account) held = refl
symbols-later t vs es none none held = refl

-- The decisions of a run do not depend on valuations as of a later instant, nor on estimates with
-- a later cutoff.
pub generate-later :
    (ctx : Context) (t : Tables) (as_of : ℕ) (symbols : Option (List Symbol))
    (account : Option AccountContext) (snapshot : Option PortfolioSnapshot)
    (vs : List ValuationSnapshot) (es : List EstimateRun)
    → All (λ v. as_of < v.as_of) vs
    → All (λ e. as_of < e.cutoff_at) es
    → generate ctx (with_later t vs es) as_of symbols account snapshot
      ≡ generate ctx t as_of symbols account snapshot
unfolding generate
generate-later ctx t as_of symbols account snapshot vs es hv he =
    rw (symbols-later t vs es symbols account (held_of account snapshot)) (
      decide_all-later t as_of vs es ctx (total_of account snapshot) (held_of account snapshot)
        (symbols_of t symbols account (held_of account snapshot)) hv he)
