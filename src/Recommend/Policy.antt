-- ===== src/Recommend/Policy.antt =====
-- The decision for one symbol: the body of the loop of `generate`.
use nse_agent.Common.{
  ℕ, ◌-◌, ◌/◌, Bool, true, false, ◌&&◌, ◌||◌, not, Option, none, some, List, [], ◌∷◌, ◌++◌, map, ℤ,
  pos, ◌*ℤ◌, eqb_ℤ, ltb_ℤ, any, length, if◌then◌else◌, ltb, ◌==◌, is_some,
}
use nse_agent.Common.Options.{◌>>=◌}
use nse_agent.Common.Decimals.{Context}
use nse_agent.Fifo.Types.{Symbol}
use nse_agent.Recommend.Types.{
  ThesisStatus, Thesis, Company, ValuationSnapshot, EstimateRun, RiskObservation, Holding,
  BaseAction, DataGap, Reason, EvidenceLink, Evidence, RecommendationDecision,
}

abbrev pub stale_valuation_days : ℕ
stale_valuation_days = 90

abbrev pub microseconds_of_day : ℕ
microseconds_of_day = 86_400_000_000

-- `valuation is None or (as_of - valuation.as_of).days > STALE_VALUATION_DAYS`
unfoldable pub is_stale : ℕ → Option ValuationSnapshot → Bool
is_stale as_of none = true
is_stale as_of (some v) = ltb stale_valuation_days ((as_of - v.as_of) / microseconds_of_day)

unfoldable pub same_text : List ℕ → List ℕ → Bool
same_text [] [] = true
same_text [] (_ ∷ _) = false
same_text (_ ∷ _) [] = false
same_text (c ∷ cs) (d ∷ ds) = let rest = same_text cs ds in c == d && rest

unfoldable pub is_hard : RiskObservation → Bool
is_hard r =
    same_text r.severity (b'h' ∷ b'i' ∷ b'g' ∷ b'h' ∷ [])
    || same_text r.severity (b'c' ∷ b'r' ∷ b'i' ∷ b't' ∷ b'i' ∷ b'c' ∷ b'a' ∷ b'l' ∷ [])

abbrev pub is_watching : Option Thesis → Bool
is_watching none = false
is_watching (some t) = elim t.status [ ThesisStatus.watching ↦ true | _ ↦ false ]

abbrev pub below : Option ℤ → Option ℤ → Bool
below (some price) (some fair) = ltb_ℤ price fair
below _ _ = false

-- `valuation.current_price < valuation.fair_value_mid`, where both are known
abbrev pub is_supportive : Option ValuationSnapshot → Bool
is_supportive none = false
is_supportive (some v) = below v.current_price v.fair_value_mid

-- `estimate and estimate.confidence is not None`
abbrev pub is_confident : Option EstimateRun → Bool
is_confident none = false
is_confident (some e) = is_some e.confidence

abbrev pub lacks_price : Option Holding → Bool
lacks_price none = false
lacks_price (some h) = not (is_some h.current_value)

abbrev pub gap_if : Bool → DataGap → List DataGap
gap_if true g = g ∷ []
gap_if false g = []

unfoldable pub gaps_of : ℕ → Evidence → List DataGap
gaps_of as_of e =
    gap_if (not (is_some e.company)) DataGap.company_not_resolved
    ++ gap_if (not (is_some e.thesis)) DataGap.active_thesis_missing
    ++ gap_if (lacks_price e.holding) DataGap.portfolio_market_price_unavailable
    ++ gap_if (not (is_some e.estimate)) DataGap.pit_estimate_missing
    ++ gap_if (is_stale as_of e.valuation) DataGap.validated_valuation_missing_or_stale

module _ (ctx : Context) (total : ℤ) where
  -- `(holding.current_value / total) if total else 0`, where the division of `None` raises
  unfoldable pub weight_of : Holding → Option ℤ
  weight_of h =
      if eqb_ℤ total (pos 0)
      then some (pos 0)
      else elim h.current_value [ none ↦ none | some v ↦ some (ctx.quotient v total) ]

  -- `weight < Decimal("0.10")`
  unfoldable pub is_small : ℤ → Bool
  is_small weight = ltb_ℤ (pos 10 *ℤ weight) ctx.one

  -- The branch of a held symbol.
  unfoldable pub choose_held : ℕ → Evidence → Holding → Option (BaseAction × List Reason)
  choose_held as_of e h =
      if not (is_some e.thesis)
      then some (BaseAction.insufficient_evidence, Reason.cannot_assess_held ∷ [])
      else (if is_stale as_of e.valuation
          then some (BaseAction.hold, Reason.valuation_cannot_support ∷ [])
          else (do
            weight ← weight_of h
            some (
                if is_supportive e.valuation && is_small weight && is_confident e.estimate
                then (BaseAction.add, Reason.supportive_for_add ∷ [])
                else (BaseAction.hold, Reason.no_add_trigger ∷ []))))

  -- The branches of a symbol that is not held.
  unfoldable pub choose_new : ℕ → Evidence → BaseAction × List Reason
  choose_new as_of e =
      if is_some e.thesis
        && not (is_stale as_of e.valuation)
        && is_some e.estimate
        && is_supportive e.valuation
      then (BaseAction.buy, Reason.supportive_for_buy ∷ [])
      else (if is_some e.company
          then (
            elim (gaps_of as_of e) [
              | [] ↦ BaseAction.watch
              | _ ∷ _ ↦ BaseAction.insufficient_evidence
            ],
            Reason.insufficient_for_initiation ∷ [],
          )
          else (BaseAction.insufficient_evidence, []))

  unfoldable pub choose : ℕ → Evidence → Option (BaseAction × List Reason)
  choose as_of e =
      if any is_hard e.risks
      then some (
        if is_some e.holding then BaseAction.reduce else BaseAction.avoid,
        Reason.hard_risk_observed ∷ [],
      )
      else (if is_watching e.thesis && not (is_some e.holding)
          then some (BaseAction.watch, Reason.watching_thesis ∷ [])
          else elim e.holding [ some h ↦ choose_held as_of e h | none ↦ some (choose_new as_of e) ])

  -- `holding.current_value / total * 100`, where both are known
  unfoldable pub concentration_of : Option Holding → ℤ
  concentration_of none = pos 0
  concentration_of (some h) = if eqb_ℤ total (pos 0) then pos 0 else elim h.current_value [
    | none ↦ pos 0
    | some v ↦ ctx.product (ctx.quotient v total) (pos 100 *ℤ ctx.one)
  ]

abbrev pub link_of {ℓ} : {A : Type ℓ} → (A → EvidenceLink) → Option A → List EvidenceLink
link_of f none = []
link_of f (some a) = f a ∷ []

unfoldable pub links_of : Evidence → List EvidenceLink
links_of e =
    link_of (λ t. EvidenceLink.thesis_link t.id) e.thesis
    ++ link_of (λ r. EvidenceLink.estimate_link r.id) e.estimate
    ++ link_of (λ v. EvidenceLink.valuation_link v.id) e.valuation
    ++ map (λ r. EvidenceLink.risk_link r.id) e.risks

abbrev pub company_id_of : Option Company → Option ℕ
company_id_of none = none
company_id_of (some c) = some c.id

abbrev pub confidence_of : Option EstimateRun → Option ℤ
confidence_of none = none
confidence_of (some e) = e.confidence

-- The decision for a symbol. `none` is a TypeError.
unfoldable pub decide : Context → ℤ → ℕ → Symbol → Evidence → Option RecommendationDecision
decide ctx total as_of symbol e = do
  (action, reasons) ← choose ctx total as_of e
  some record {
    company_id = company_id_of e.company;
    symbol = symbol;
    base_action = action;
    final_action = action;
    confidence = confidence_of e.estimate;
    data_gaps = gaps_of as_of e;
    evidence_summary = reasons;
    active_risks = length e.risks;
    hard_risk = any is_hard e.risks;
    is_held = is_some e.holding;
    concentration_pct = concentration_of ctx total e.holding;
    evidence_links = links_of e;
  }
