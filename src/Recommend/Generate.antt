-- ===== src/Recommend/Generate.antt =====
-- `generate` of investing_agent/services/current_recommendations.py over the tables it reads, with
-- `get_active` of db/repositories/thesis.py.
use nse_agent.Common.{
  ℕ, Bool, true, false, ◌&&◌, not, Option, none, some, List, [], ◌∷◌, ◌++◌, map, ℤ, pos, filter,
  any, if◌then◌else◌, ltb, leb, ◌==◌, or_default,
}
use nse_agent.Common.Options.{◌>>=◌}
use nse_agent.Common.Maps.{Dict, lookup, insert}
use nse_agent.Common.Sorting.{sorted_set}
use nse_agent.Common.Decimals.{Context}
use nse_agent.Fifo.Types.{Symbol}
use nse_agent.Recommend.Types.{
  ThesisStatus, Thesis, Company, ValuationSnapshot, EstimateRun, RiskObservation, Holding, Evidence,
  RecommendationDecision,
}
use nse_agent.Recommend.Policy.{decide}

-- The tables, and of those of users, the rows of one user.
pub record Tables : Type 0 where
  pub companies : List Company
  pub valuations : List ValuationSnapshot
  pub estimates : List EstimateRun
  pub risks : List RiskObservation
  pub theses : List Thesis
  pub watchlist : List Symbol

-- The parts of `RecommendationAccountContext` that decisions depend on.
pub record AccountContext : Type 0 where
  pub holdings : Dict Holding
  pub watchlist_symbols : List Symbol
  pub total_market_value : Option ℤ

-- The parts of `PortfolioSnapshot` that decisions depend on.
pub record PortfolioSnapshot : Type 0 where
  pub holdings : List Holding
  pub total_value : Option ℤ

-- `.order_by(key.desc()).limit(1)`
unfoldable pub latest {ℓ} : {A : Type ℓ} → (A → ℕ) → List A → Option A
latest key [] = none
latest key (x ∷ xs) = elim (latest key xs) [
  | none ↦ some x
  | some y ↦ some (if ltb (key x) (key y) then y else x)
]

unfoldable pub find_company : Symbol → List Company → Option Company
find_company symbol [] = none
find_company symbol (c ∷ cs) = if c.symbol == symbol then some c else find_company symbol cs

abbrev pub is_current : ThesisStatus → Bool
is_current ThesisStatus.active = true
is_current ThesisStatus.watching = true
is_current (ThesisStatus.other _) = false

abbrev pub supersedes : ℕ → Thesis → Bool
supersedes id successor = elim successor.supersedes_thesis_id [
  | none ↦ false
  | some superseded ↦ superseded == id
]

unfoldable pub get_active : Tables → Symbol → Option Thesis
get_active t symbol =
    latest (λ v. v.thesis_version)
      (filter
        (λ v. v.symbol == symbol && is_current v.status && not (any (supersedes v.id) t.theses))
        t.theses)

unfoldable pub latest_valuation : Tables → ℕ → Company → Option ValuationSnapshot
latest_valuation t as_of c =
    latest (λ v. v.as_of) (filter (λ v. v.company_id == c.id && leb v.as_of as_of) t.valuations)

unfoldable pub latest_estimate : Tables → ℕ → Company → Option EstimateRun
latest_estimate t as_of c =
    latest (λ e. e.cutoff_at)
      (filter (λ e. e.company_id == c.id && leb e.cutoff_at as_of) t.estimates)

unfoldable pub active_risks : Tables → Company → List RiskObservation
active_risks t c = filter (λ r. r.company_id == c.id && r.is_active) t.risks

unfoldable pub gather : Tables → ℕ → Dict Holding → Symbol → Evidence
gather t as_of held symbol =
    let holding = lookup symbol held in
    let thesis = get_active t symbol in
    elim (find_company symbol t.companies) [
      | none ↦ record {
        company = none;
        holding = holding;
        thesis = thesis;
        valuation = none;
        estimate = none;
        risks = [];
      }
      | some c ↦ record {
        company = some c;
        holding = holding;
        thesis = thesis;
        valuation = latest_valuation t as_of c;
        estimate = latest_estimate t as_of c;
        risks = active_risks t c;
      }
    ]

-- `{h.symbol.upper(): h for h in holdings}`: the last holding of a symbol stands.
unfoldable pub by_symbol : Dict Holding → List Holding → Dict Holding
by_symbol d [] = d
by_symbol d (h ∷ hs) = by_symbol (insert h.symbol h d) hs

unfoldable pub held_of : Option AccountContext → Option PortfolioSnapshot → Dict Holding
held_of (some account) snapshot = account.holdings
held_of none (some snapshot) = by_symbol [] snapshot.holdings
held_of none none = []

-- The symbols are in upper case already.
unfoldable pub symbols_of :
    Tables → Option (List Symbol) → Option AccountContext → Dict Holding → List Symbol
symbols_of t (some symbols) account held = sorted_set symbols
symbols_of t none (some account) held =
    sorted_set (map (λ h. h.0) account.holdings ++ account.watchlist_symbols)
symbols_of t none none held = sorted_set (map (λ h. h.0) held ++ t.watchlist)

abbrev pub snapshot_total : Option PortfolioSnapshot → ℤ
snapshot_total none = pos 0
snapshot_total (some snapshot) = or_default snapshot.total_value (pos 0)

-- `snapshot` is read only where there is no account context.
unfoldable pub total_of : Option AccountContext → Option PortfolioSnapshot → ℤ
total_of none snapshot = snapshot_total snapshot
total_of (some account) snapshot = elim account.total_market_value [
  | none ↦ pos 0
  | some total ↦ total
]

unfoldable pub decide_all :
    Context → ℤ → ℕ → Tables → Dict Holding → List Symbol → Option (List RecommendationDecision)
decide_all ctx total as_of t held [] = some []
decide_all ctx total as_of t held (s ∷ ss) = do
  d ← decide ctx total as_of s (gather t as_of held s)
  ds ← decide_all ctx total as_of t held ss
  some (d ∷ ds)

-- The decisions of the run. `none` is an exception, after which nothing is committed.
unfoldable pub generate :
    Context
    → Tables
    → ℕ
    → Option (List Symbol)
    → Option AccountContext
    → Option PortfolioSnapshot
    → Option (List RecommendationDecision)
generate ctx t as_of symbols account snapshot =
    let held = held_of account snapshot in
    decide_all ctx (total_of account snapshot) as_of t held (symbols_of t symbols account held)
