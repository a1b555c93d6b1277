-- ===== src/Facts/CrossSource.antt =====
-- Verification against another source, in investing_agent/services/verification.py.
use nse_agent.Common.{
  ℕ, ◌≡◌, refl, Bool, true, false, not, ◌&&◌, ◌⊎◌, inl, inr, List, [], ◌∷◌, any, ◌==◌, Bool-cases,
}
use nse_agent.Facts.Financial.{VerificationStatus, FinancialResultCreate, same_value}
use nse_agent.Facts.Verification.{amounts_differ, verify_financial_result_cross_source}
use nse_agent.Facts.Actions.{CorporateActionCreate, same_type, verify_corporate_action_cross_source}

-- Another source describes the same action on the same day, with the same amount if both give one.
unfoldable pub corroborates : CorporateActionCreate → CorporateActionCreate → Bool
corroborates primary candidate =
    not (candidate.source_type == primary.source_type)
    && same_type candidate.action_type primary.action_type
    && same_value candidate.terms.ex_date primary.terms.ex_date
    && not (amounts_differ primary.terms.amount candidate.terms.amount)

-- Another source reports on the same day, with the same profit if both give one.
unfoldable pub corroborates_result : FinancialResultCreate → FinancialResultCreate → Bool
corroborates_result primary candidate =
    not (candidate.source_type == primary.source_type)
    && same_value candidate.figures.result_date primary.figures.result_date
    && not (amounts_differ primary.figures.pat candidate.figures.pat)

-- What a verification may change of an action.
abbrev pub IsVerifiedCopy : CorporateActionCreate → CorporateActionCreate → Type 0
IsVerifiedCopy primary out =
    (out.trail.verification_status ≡ VerificationStatus.verified)
    × (record out { trail = primary.trail } ≡ primary)

abbrev pub IsVerifiedResult : FinancialResultCreate → FinancialResultCreate → Type 0
IsVerifiedResult primary out =
    (out.trail.verification_status ≡ VerificationStatus.verified)
    × (record out { trail = primary.trail } ≡ primary)

action-cases :
    (note : ℕ → ℕ) (now : ℕ) (primary : CorporateActionCreate)
    (candidates : List CorporateActionCreate)
    → ((any (corroborates primary) candidates ≡ true)
        × IsVerifiedCopy primary (verify_corporate_action_cross_source note now primary candidates))
      ⊎ ((any (corroborates primary) candidates ≡ false)
          × (verify_corporate_action_cross_source note now primary candidates ≡ primary))
unfolding verify_corporate_action_cross_source corroborates
action-cases note now primary [] = inr (refl, refl)
action-cases note now primary (c ∷ cs) =
    let rest = action-cases note now primary cs in
    elim (Bool-cases (c.source_type == primary.source_type)) [
      | inl e ↦ rw e rest
      | inr e ↦ elim (Bool-cases (same_type c.action_type primary.action_type)) [
        | inr f ↦ rw (e, f) rest
        | inl f ↦ elim (Bool-cases (same_value c.terms.ex_date primary.terms.ex_date)) [
          | inr g ↦ rw (e, f, g) rest
          | inl g ↦ elim (Bool-cases (amounts_differ primary.terms.amount c.terms.amount)) [
            | inl h ↦ rw (e, f, g, h) rest
            | inr h ↦ rw (e, f, g, h) (inl (refl, (refl, refl)))
          ]
        ]
      ]
    ]

result-cases :
    (note : ℕ → ℕ) (now : ℕ) (primary : FinancialResultCreate)
    (candidates : List FinancialResultCreate)
    → ((any (corroborates_result primary) candidates ≡ true)
        × IsVerifiedResult primary
            (verify_financial_result_cross_source note now primary candidates))
      ⊎ ((any (corroborates_result primary) candidates ≡ false)
          × (verify_financial_result_cross_source note now primary candidates ≡ primary))
unfolding verify_financial_result_cross_source corroborates_result
result-cases note now primary [] = inr (refl, refl)
result-cases note now primary (c ∷ cs) =
    let rest = result-cases note now primary cs in
    elim (Bool-cases (c.source_type == primary.source_type)) [
      | inl e ↦ rw e rest
      | inr e ↦ elim (Bool-cases (same_value c.figures.result_date primary.figures.result_date)) [
        | inr g ↦ rw (e, g) rest
        | inl g ↦ elim (Bool-cases (amounts_differ primary.figures.pat c.figures.pat)) [
          | inl h ↦ rw (e, g, h) rest
          | inr h ↦ rw (e, g, h) (inl (refl, (refl, refl)))
        ]
      ]
    ]

-- Both verifications against other sources mark a fact as verified, and change nothing of it but
-- its verification trail, if some candidate corroborates it; if none does, they return it as it is.
pub cross_source-IsVerified :
    (note : ℕ → ℕ) (now : ℕ) (action : CorporateActionCreate) (actions : List CorporateActionCreate)
    (result : FinancialResultCreate) (results : List FinancialResultCreate)
    → (((any (corroborates action) actions ≡ true)
          × IsVerifiedCopy action (verify_corporate_action_cross_source note now action actions))
        ⊎ ((any (corroborates action) actions ≡ false)
            × (verify_corporate_action_cross_source note now action actions ≡ action)))
      × (((any (corroborates_result result) results ≡ true)
            × IsVerifiedResult result
                (verify_financial_result_cross_source note now result results))
          ⊎ ((any (corroborates_result result) results ≡ false)
              × (verify_financial_result_cross_source note now result results ≡ result)))
cross_source-IsVerified note now action actions result results =
    (action-cases note now action actions, result-cases note now result results)
