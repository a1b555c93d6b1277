-- ===== src/Facts/ResultLaws.antt =====
-- The table of financial results obeys the laws of versioning: `_values_equal` is reflexive, and
-- `_refresh_provenance` of investing_agent/db/repositories/financial.py is idempotent.
use nse_agent.Common.{
  ℕ, ◌≡◌, refl, Bool, true, false, ◌&&◌, Option, none, some, ℤ, ◌==◌, ==_refl, ==→≡, arith, eqb_ℤ,
  or_default,
}
use nse_agent.Facts.Versions.{Laws}
use nse_agent.Facts.Financial.{
  StatementScope, ReportingBasis, Figures, FinancialResult, FinancialResultCreate, ResultKey,
  same_scope, same_basis, same_value, same_decimal, same_bool, same_figures, result_row,
  refresh_provenance, or_else, financial_results,
}

same_scope_refl : (s : StatementScope) → same_scope s s ≡ true
same_scope_refl StatementScope.standalone = refl
same_scope_refl StatementScope.consolidated = refl
same_scope_refl StatementScope.unresolved = refl

same_scope→≡ : (s t : StatementScope) → same_scope s t ≡ true → s ≡ t
same_scope→≡ StatementScope.standalone StatementScope.standalone h = refl
same_scope→≡ StatementScope.consolidated StatementScope.consolidated h = refl
same_scope→≡ StatementScope.unresolved StatementScope.unresolved h = refl
same_scope→≡ _ _ h = cc

same_basis_refl : (s : ReportingBasis) → same_basis s s ≡ true
same_basis_refl ReportingBasis.quarter = refl
same_basis_refl ReportingBasis.ytd = refl
same_basis_refl ReportingBasis.annual = refl

same_basis→≡ : (s t : ReportingBasis) → same_basis s t ≡ true → s ≡ t
same_basis→≡ ReportingBasis.quarter ReportingBasis.quarter h = refl
same_basis→≡ ReportingBasis.ytd ReportingBasis.ytd h = refl
same_basis→≡ ReportingBasis.annual ReportingBasis.annual h = refl
same_basis→≡ _ _ h = cc

pub same_value_refl : (a : Option ℕ) → same_value a a ≡ true
same_value_refl none = refl
same_value_refl (some a) = ==_refl a

eqb_ℤ_refl : (a : ℤ) → eqb_ℤ a a ≡ true
eqb_ℤ_refl a = ground arith

pub same_decimal_refl : (a : Option ℤ) → same_decimal a a ≡ true
same_decimal_refl none = refl
same_decimal_refl (some a) = eqb_ℤ_refl a

pub same_bool_refl : (b : Bool) → same_bool b b ≡ true
same_bool_refl true = refl
same_bool_refl false = refl

same_figures_refl : (a : Figures) → same_figures a a ≡ true
unfolding same_figures
same_figures_refl a = simp (==_refl, same_value_refl, same_decimal_refl, same_bool_refl)

same_key_refl : (k : ResultKey) → financial_results.same k k ≡ true
same_key_refl (p, s, b, t) = simp (==_refl, same_scope_refl, same_basis_refl)

pub both : (a b : Bool) → (a && b) ≡ true → (a ≡ true) × (b ≡ true)
both true b h = (refl, h)
both false b h = cc

same_key→≡ : (j k : ResultKey) → financial_results.same j k ≡ true → j ≡ k
same_key→≡ (p, s, b, t) (p', s', b', t') h =
    let (h', ht) = both (p == p' && same_scope s s' && same_basis b b') (t == t') h in
    let (h'', hb) = both (p == p' && same_scope s s') (same_basis b b') h' in
    let (hp, hs) = both (p == p') (same_scope s s') h'' in
    let ep : p ≡ p' = ==→≡ p p' hp in
    let es : s ≡ s' = same_scope→≡ s s' hs in
    let eb : b ≡ b' = same_basis→≡ b b' hb in let et : t ≡ t' = ==→≡ t t' ht in cc

or_default_twice : (o : Option ℕ) (x : ℕ) → or_default o (or_default o x) ≡ or_default o x
or_default_twice none x = refl
or_default_twice (some y) x = refl

or_else_twice : (o p : Option ℕ) → or_else o (or_else o p) ≡ or_else o p
or_else_twice none p = refl
or_else_twice (some y) p = refl

or_else_itself : (o : Option ℕ) → or_else o o ≡ o
or_else_itself none = refl
or_else_itself (some y) = refl

refresh_twice :
    (r : FinancialResult) (d : FinancialResultCreate)
    → refresh_provenance (refresh_provenance r d) d ≡ refresh_provenance r d
refresh_twice r d =
    rw (or_default_twice d.available_at r.available_at, or_else_twice d.published_at r.published_at)
      refl

refresh_fresh :
    (id now : ℕ) (d : FinancialResultCreate) (e : Option FinancialResult)
    → refresh_provenance (result_row id now d e) d ≡ result_row id now d e
refresh_fresh id now d e =
    rw (or_default_twice d.available_at now, or_else_itself d.published_at) refl

pub financial_results-Laws : Laws financial_results
financial_results-Laws = record {
  same_refl = same_key_refl;
  same→≡ = same_key→≡;
  key-row_of = λ id now d e. refl;
  is_latest-row_of = λ id now d e. refl;
  first_version = λ id now d. refl;
  next_version = λ id now d e. refl;
  values_equal-row_of = λ id now d e. same_figures_refl d.figures;
  values_equal-refresh = λ r d d'. refl;
  refresh-row_of = refresh_fresh;
  refresh-refresh = refresh_twice;
  key-retire = λ r. refl;
  version-retire = λ r. refl;
  is_latest-retire = λ r. refl;
  key-refresh = λ r d. refl;
  version-refresh = λ r d. refl;
  is_latest-refresh = λ r d. refl;
}
