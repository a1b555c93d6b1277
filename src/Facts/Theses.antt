-- ===== src/Facts/Theses.antt =====
-- Investment theses: investing_agent/db/repositories/thesis.py, whose rows are never changed, and
-- investing_agent/services/active_theses.py, which lets a thesis cite only facts known by then.
use nse_agent.Common.{
  ℕ, ◌+◌, Bool, true, false, not, ◌&&◌, Option, none, some, List, [], ◌∷◌, ◌++◌, filter, any, ℤ,
  ◌==◌, leb,
}
use nse_agent.Common.Sorting.{sort_by}
use nse_agent.Facts.Versions.{first}

pub data Status : Type 0 where
  active : Status
  watching : Status
  exited : Status
  avoided : Status

-- An entry of `evidence_refs`.
pub data EvidenceRef : Type 0 where
  financial_result : ℕ → Option ℕ → ℕ → EvidenceRef
  source_document : ℕ → Option ℕ → ℕ → EvidenceRef

-- `InvestmentThesis`; lists of texts are lists of numbers.
pub record InvestmentThesis : Type 0 where
  pub id : ℕ
  pub user_id : ℕ
  pub company_id : Option ℕ
  pub symbol : ℕ
  pub status : Status
  pub thesis : Option ℕ
  pub buy_reasons : Option (List ℕ)
  pub risk_factors : Option (List ℕ)
  pub catalysts : Option (List ℕ)
  pub invalidation_conditions : Option (List ℕ)
  pub target_price_low : Option ℤ
  pub target_price_base : Option ℤ
  pub target_price_high : Option ℤ
  pub horizon_months : Option ℕ
  pub entry_price : Option ℤ
  pub exit_price : Option ℤ
  pub outcome_notes : Option ℕ
  pub thesis_version : ℕ
  pub thesis_model_version : ℕ
  pub as_of : Option ℕ
  pub evidence_refs : Option (List EvidenceRef)
  pub supersedes_thesis_id : Option ℕ

-- `InvestmentThesisCreate`
pub record InvestmentThesisCreate : Type 0 where
  pub symbol : ℕ
  pub status : Status
  pub thesis : Option ℕ
  pub buy_reasons : Option (List ℕ)
  pub risk_factors : Option (List ℕ)
  pub catalysts : Option (List ℕ)
  pub invalidation_conditions : Option (List ℕ)
  pub target_price_low : Option ℤ
  pub target_price_base : Option ℤ
  pub target_price_high : Option ℤ
  pub horizon_months : Option ℕ
  pub entry_price : Option ℤ
  pub company_id : Option ℕ
  pub as_of : Option ℕ
  pub thesis_model_version : ℕ
  pub evidence_refs : Option (List EvidenceRef)

-- `InvestmentThesisUpdate`: what is None is not changed.
pub record InvestmentThesisUpdate : Type 0 where
  pub status : Option Status
  pub thesis : Option ℕ
  pub buy_reasons : Option (List ℕ)
  pub risk_factors : Option (List ℕ)
  pub catalysts : Option (List ℕ)
  pub invalidation_conditions : Option (List ℕ)
  pub target_price_low : Option ℤ
  pub target_price_base : Option ℤ
  pub target_price_high : Option ℤ
  pub horizon_months : Option ℕ
  pub exit_price : Option ℤ
  pub outcome_notes : Option ℕ
  pub as_of : Option ℕ
  pub thesis_model_version : Option ℕ
  pub evidence_refs : Option (List EvidenceRef)

abbrev pub is_open : Status → Bool
is_open Status.active = true
is_open Status.watching = true
is_open _ = false

abbrev pub is_successor : ℕ → InvestmentThesis → Bool
is_successor id successor = elim successor.supersedes_thesis_id [
  | none ↦ false
  | some superseded ↦ superseded == id
]

-- The rows that `get_active` selects, for a symbol in upper case.
abbrev pub is_candidate : ℕ → ℕ → List InvestmentThesis → InvestmentThesis → Bool
is_candidate user symbol table t =
    t.user_id == user
    && t.symbol == symbol
    && is_open t.status
    && not (any (is_successor t.id) table)

-- `get_active`
unfoldable pub active_thesis : ℕ → ℕ → List InvestmentThesis → Option InvestmentThesis
active_thesis user symbol table = first (
    sort_by (λ a b. leb b.thesis_version a.thesis_version)
      (filter (is_candidate user symbol table) table))

-- A value given by `changes` replaces the old one.
abbrev pub changed {ℓ} : {A : Type ℓ} → Option A → A → A
changed none old = old
changed (some new) old = new

abbrev pub changed_some {ℓ} : {A : Type ℓ} → Option A → Option A → Option A
changed_some none old = old
changed_some (some new) old = some new

-- The successor that `update` appends.
abbrev pub successor_of : ℕ → InvestmentThesis → InvestmentThesisUpdate → InvestmentThesis
successor_of id thesis changes = record {
  id = id;
  user_id = thesis.user_id;
  company_id = thesis.company_id;
  symbol = thesis.symbol;
  status = changed changes.status thesis.status;
  thesis = changed_some changes.thesis thesis.thesis;
  buy_reasons = changed_some changes.buy_reasons thesis.buy_reasons;
  risk_factors = changed_some changes.risk_factors thesis.risk_factors;
  catalysts = changed_some changes.catalysts thesis.catalysts;
  invalidation_conditions =
      changed_some changes.invalidation_conditions thesis.invalidation_conditions;
  target_price_low = changed_some changes.target_price_low thesis.target_price_low;
  target_price_base = changed_some changes.target_price_base thesis.target_price_base;
  target_price_high = changed_some changes.target_price_high thesis.target_price_high;
  horizon_months = changed_some changes.horizon_months thesis.horizon_months;
  entry_price = thesis.entry_price;
  exit_price = changed_some changes.exit_price thesis.exit_price;
  outcome_notes = changed_some changes.outcome_notes thesis.outcome_notes;
  thesis_version = thesis.thesis_version + 1;
  thesis_model_version = changed changes.thesis_model_version thesis.thesis_model_version;
  as_of = changed_some changes.as_of thesis.as_of;
  evidence_refs = changed_some changes.evidence_refs thesis.evidence_refs;
  supersedes_thesis_id = some thesis.id;
}

-- The row that `create` adds. `upper` is `str.upper`.
abbrev pub thesis_of : (ℕ → ℕ) → ℕ → ℕ → InvestmentThesisCreate → InvestmentThesis
thesis_of upper id user d = record {
  id = id;
  user_id = user;
  company_id = d.company_id;
  symbol = upper d.symbol;
  status = d.status;
  thesis = d.thesis;
  buy_reasons = d.buy_reasons;
  risk_factors = d.risk_factors;
  catalysts = d.catalysts;
  invalidation_conditions = d.invalidation_conditions;
  target_price_low = d.target_price_low;
  target_price_base = d.target_price_base;
  target_price_high = d.target_price_high;
  horizon_months = d.horizon_months;
  entry_price = d.entry_price;
  exit_price = none;
  outcome_notes = none;
  thesis_version = 1;
  thesis_model_version = d.thesis_model_version;
  as_of = d.as_of;
  evidence_refs = d.evidence_refs;
  supersedes_thesis_id = none;
}

unfoldable pub create_thesis :
    (ℕ → ℕ)
    → ℕ
    → ℕ
    → InvestmentThesisCreate
    → List InvestmentThesis
    → InvestmentThesis × List InvestmentThesis
create_thesis upper id user d table =
    (thesis_of upper id user d, table ++ (thesis_of upper id user d ∷ []))

unfoldable pub update_thesis :
    ℕ
    → InvestmentThesis
    → InvestmentThesisUpdate
    → List InvestmentThesis
    → InvestmentThesis × List InvestmentThesis
update_thesis id thesis changes table =
    (successor_of id thesis changes, table ++ (successor_of id thesis changes ∷ []))
