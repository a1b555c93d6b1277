-- ===== src/WalkForward/Actions.antt =====
-- The actions of frozen decisions.
use nse_agent.Common.{
  ℕ, ◌≡◌, refl, Bool, true, false, ◌&&◌, not, Option, none, some, List, [], ◌∷◌, ℤ, pos, ◌<ℤ◌, ◌≤ℤ◌,
  ltb_ℤ, filter, any, if◌then◌else◌, arith,
}
use nse_agent.Common.Decimals.{Context}
use nse_agent.Fifo.Types.{Symbol, Date, Warning}
use nse_agent.Reconstruction.Trades.{HistoricalTrade}
use nse_agent.Reconstruction.Snapshot.{
  PositionAsOf, PortfolioSnapshotAsOf, find_position, not_empty,
}
use nse_agent.Reconstruction.Store.{Store}
use nse_agent.WalkForward.Decisions.{
  Action, DataQualityStatus, classify_actual_action, symbol_data_quality, baseline_choice,
  baseline_row, status_of,
}

-- What an action says of the quantities before and after it.
abbrev pub Describes : Action → ℤ → ℤ → Type 0
Describes Action.buy prior post = (prior ≡ pos 0) × (pos 0 <ℤ post)
Describes Action.add prior post = (pos 0 <ℤ prior) × (prior <ℤ post)
Describes Action.hold prior post = prior ≡ post
Describes Action.reduce prior post = (pos 0 <ℤ post) × (post <ℤ prior)
Describes Action.exit prior post = (pos 0 <ℤ prior) × (post ≡ pos 0)
Describes Action.insufficient_evidence prior post = ⊥

-- On a day with trades, the action of an actual decision says how the quantity, which is not
-- negative before and after, has changed.
pub classify_actual_action-Describes :
    (prior post : ℤ) (trades : List HistoricalTrade)
    → pos 0 ≤ℤ prior
    → pos 0 ≤ℤ post
    → not_empty trades ≡ true
    → Describes (classify_actual_action prior post trades) prior post
unfolding classify_actual_action
classify_actual_action-Describes prior post trades p q e = ground arith

-- A snapshot from which the baseline preserves a position: no warning that names the symbol, and
-- a position of a positive quantity without a corporate-action flag.
abbrev pub keeps_position : Option PositionAsOf → Bool
keeps_position none = false
keeps_position (some p) = ltb_ℤ (pos 0) p.quantity_held && not p.corporate_action_flag

status_of-filter :
    (p : Warning → Bool) (ws : List Warning)
    → status_of (filter p ws)
      ≡ (if any p ws then DataQualityStatus.reconstruction_warning else DataQualityStatus.clean)
status_of-filter p [] = refl
status_of-filter p (w ∷ ws) = ground (arith, status_of-filter p ws)

-- The deterministic baseline holds where no warning names the symbol and it has a position of a
-- positive quantity without a corporate-action flag, and otherwise reports insufficient evidence;
-- it never trades.
pub baseline_row-action :
    (ctx : Context) (to_decimal : List ℕ → Option ℤ) (mentions : Warning → Symbol → Bool)
    (store : Store) (run_id account : ℕ) (symbol : Symbol) (decision_at prior_date : Date)
    (snapshot : PortfolioSnapshotAsOf)
    → (baseline_row ctx to_decimal mentions store run_id account symbol decision_at prior_date
        snapshot).action
      ≡ (if not (any (λ w. mentions w symbol) snapshot.warnings)
            && keeps_position (find_position snapshot.positions symbol)
          then Action.hold
          else Action.insufficient_evidence)
unfolding baseline_row symbol_data_quality baseline_choice
baseline_row-action ctx to_decimal mentions store run_id account symbol decision_at prior_date
      snapshot =
    rw (status_of-filter (λ w. mentions w symbol) snapshot.warnings) (ground arith)
