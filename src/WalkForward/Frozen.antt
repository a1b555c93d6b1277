-- ===== src/WalkForward/Frozen.antt =====
-- Frozen decisions do not change, and do not depend on later data.
use nse_agent.Common.{
  ℕ, ◌≡◌, ◌<◌, ◌≤◌, refl, Bool, true, false, Option, none, some, List, [], ◌∷◌, ◌++◌, ℤ, All,
  filter-none, arith, Option-cases, inl, inr, leb, ◌∙◌, sym, ap,
}
use nse_agent.Common.Options.{>>=-eq-some}
use nse_agent.Common.Decimals.{Context}
use nse_agent.Fifo.Types.{Symbol, Date, Warning}
use nse_agent.Reconstruction.Trades.{HistoricalTrade}
use nse_agent.Reconstruction.Snapshot.{PortfolioSnapshotAsOf}
use nse_agent.Reconstruction.Store.{Store, CorporateAction, trades_up_to}
use nse_agent.Reconstruction.PointInTime.{with_later, get_portfolio_as_of-later}
use nse_agent.WalkForward.Decisions.{
  DecisionSource, FrozenSource, WalkForwardDecision, same_source, cutoff_of, prior_date_of,
  get_by_natural_key, create_if_not_exists, trades_on, snapshot_at, actual_row, hold_row,
  row_of_source, freeze_decision,
}

same_source_refl : (s : DecisionSource) → same_source s s ≡ true
same_source_refl DecisionSource.actual = refl
same_source_refl DecisionSource.hold_baseline = refl
same_source_refl DecisionSource.agent = refl

-- A row that is added is found under its key.
get-added :
    (row : WalkForwardDecision) (table : List WalkForwardDecision)
    → get_by_natural_key row.run_id row.symbol row.decision_at row.decision_source table ≡ none
    → get_by_natural_key row.run_id row.symbol row.decision_at row.decision_source
        (table ++ (row ∷ []))
      ≡ some row
unfolding get_by_natural_key
get-added row [] e = ground (arith, same_source_refl row.decision_source)
get-added row (d ∷ ds) e = ground (arith, get-added row ds)

-- The row that the table holds under the key of a row.
unfoldable stored : WalkForwardDecision → List WalkForwardDecision → Option WalkForwardDecision
stored row table =
    get_by_natural_key row.run_id row.symbol row.decision_at row.decision_source table

create-existing :
    (row existing : WalkForwardDecision) (table : List WalkForwardDecision)
    → stored row table ≡ some existing
    → create_if_not_exists row table ≡ (existing, table)
unfolding create_if_not_exists stored
create-existing row existing table e = rw (create_if_not_exists, e)

create-new :
    (row : WalkForwardDecision) (table : List WalkForwardDecision)
    → stored row table ≡ none
    → create_if_not_exists row table ≡ (row, table ++ (row ∷ []))
unfolding create_if_not_exists stored
create-new row table e = rw (create_if_not_exists, e)

stored-same_key :
    (row later : WalkForwardDecision) (table : List WalkForwardDecision)
    → row.run_id ≡ later.run_id
    → row.symbol ≡ later.symbol
    → row.decision_at ≡ later.decision_at
    → row.decision_source ≡ later.decision_source
    → stored later table ≡ stored row table
unfolding stored
stored-same_key row later table e f g h = simp (e, f, g, h)

stored-added :
    (row : WalkForwardDecision) (table : List WalkForwardDecision)
    → stored row table ≡ none
    → stored row (table ++ (row ∷ [])) ≡ some row
unfolding stored
stored-added row table e = get-added row table e

-- A row with the same key finds what an earlier call returned, and leaves the table.
create-twice :
    (row later : WalkForwardDecision) (table : List WalkForwardDecision)
    → row.run_id ≡ later.run_id
    → row.symbol ≡ later.symbol
    → row.decision_at ≡ later.decision_at
    → row.decision_source ≡ later.decision_source
    → create_if_not_exists later (create_if_not_exists row table).1 ≡ create_if_not_exists row table
create-twice row later table e f g h = elim (Option-cases (stored row table)) [
  | inl missing ↦ rw (create-new row table missing) (
      create-existing later row (table ++ (row ∷ []))
        (stored-same_key row later (table ++ (row ∷ [])) e f g h ∙ stored-added row table missing))
  | inr (existing, found) ↦
      rw (create-existing row existing table found)
        (create-existing later existing table (stored-same_key row later table e f g h ∙ found))
]

source_of_row : FrozenSource → DecisionSource
source_of_row FrozenSource.of_actual = DecisionSource.actual
source_of_row FrozenSource.of_hold_baseline = DecisionSource.hold_baseline

All-late :
    (as_of : Date) (ts : List HistoricalTrade)
    → All (λ t. as_of < t.trade_date) ts
    → All (λ t. leb t.trade_date as_of ≡ false) ts
All-late as_of [] h = tt
All-late as_of (t ∷ ts) h = (ground arith, All-late as_of ts h.1)

All-weaken :
    (as_of bound : Date) (ts : List HistoricalTrade)
    → as_of ≤ bound
    → All (λ t. bound < t.trade_date) ts
    → All (λ t. as_of < t.trade_date) ts
All-weaken as_of bound [] le h = tt
All-weaken as_of bound (t ∷ ts) le h = (omega (arith, h.0), All-weaken as_of bound ts le h.1)

trades_on-later :
    (symbol : Symbol) (decision_at : Date) (store : Store) (trades : List HistoricalTrade)
    (superseded : CorporateAction → Bool) (actions : List CorporateAction)
    → All (λ t. decision_at < t.trade_date) trades
    → trades_on (with_later store trades superseded actions) symbol decision_at
      ≡ trades_on store symbol decision_at
unfolding trades_on trades_up_to
trades_on-later symbol decision_at store trades superseded actions ht = rw (
    filter-none (λ t. leb t.trade_date decision_at) store.trades trades
      (All-late decision_at trades ht))

module _ (ctx : Context) (to_decimal : List ℕ → Option ℤ) (mentions : Warning → Symbol → Bool)
    (run_id account : ℕ) (symbol : Symbol) (decision_at : Date) where
  key-row_of_source :
      (store : Store) (source : FrozenSource) (at prior : PortfolioSnapshotAsOf)
      → ((row_of_source ctx to_decimal mentions store run_id account symbol decision_at source at
            prior).run_id
          ≡ run_id)
        × ((row_of_source ctx to_decimal mentions store run_id account symbol decision_at source at
              prior).symbol
            ≡ symbol)
        × ((row_of_source ctx to_decimal mentions store run_id account symbol decision_at source at
              prior).decision_at
            ≡ decision_at)
        × ((row_of_source ctx to_decimal mentions store run_id account symbol decision_at source at
              prior).decision_source
            ≡ source_of_row source)
  unfolding row_of_source actual_row hold_row source_of_row
  key-row_of_source store FrozenSource.of_actual at prior = (refl, refl, refl, refl)
  key-row_of_source store FrozenSource.of_hold_baseline at prior = (refl, refl, refl, refl)

  freeze_decision-row :
      (store : Store) (source : FrozenSource) (table : List WalkForwardDecision)
      (frozen : WalkForwardDecision × List WalkForwardDecision)
      → freeze_decision ctx to_decimal mentions store run_id account symbol decision_at source table
        ≡ some frozen
      → (at : PortfolioSnapshotAsOf) × (prior : PortfolioSnapshotAsOf) × (create_if_not_exists
            (row_of_source ctx to_decimal mentions store run_id account symbol decision_at source at
              prior)
            table
          ≡ frozen)
  unfolding freeze_decision
  freeze_decision-row store source table frozen h =
      let (prior_date, _, h1) = >>=-eq-some (prior_date_of decision_at) _ h in
      let (at, _, h2) =
        >>=-eq-some
          (snapshot_at ctx to_decimal mentions store run_id account symbol decision_at decision_at)
          _ h1 in
      let (prior, _, h3) =
        >>=-eq-some
          (snapshot_at ctx to_decimal mentions store run_id account symbol decision_at prior_date) _
          h2 in
      (at, prior, cc)

  -- A decision that was frozen is returned unchanged, and the table left as it is, when it is
  -- frozen again, whatever rows the account has by then.
  pub freeze_decision-twice :
      (store store' : Store) (source : FrozenSource) (table : List WalkForwardDecision)
      (frozen again : WalkForwardDecision × List WalkForwardDecision)
      → freeze_decision ctx to_decimal mentions store run_id account symbol decision_at source table
        ≡ some frozen
      → freeze_decision ctx to_decimal mentions store' run_id account symbol decision_at source
          frozen.1
        ≡ some again
      → again ≡ frozen
  freeze_decision-twice store store' source table frozen again h k =
      let (at, prior, e) = freeze_decision-row store source table frozen h in
      let (at', prior', f) = freeze_decision-row store' source frozen.1 again k in
      let (p, q, r, u) = key-row_of_source store source at prior in
      let (p', q', r', u') = key-row_of_source store' source at' prior' in
      let same =
        create-twice
          (row_of_source ctx to_decimal mentions store run_id account symbol decision_at source at
            prior)
          (row_of_source ctx to_decimal mentions store' run_id account symbol decision_at source at'
            prior')
          table (p ∙ sym p') (q ∙ sym q') (r ∙ sym r') (u ∙ sym u') in
      sym f
      ∙ ap
          (λ t.
            create_if_not_exists
              (row_of_source ctx to_decimal mentions store' run_id account symbol decision_at source
                at' prior')
              t.1)
          (sym e)
      ∙ same
      ∙ e

  prior_date-le :
      (prior_date : Date) → prior_date_of decision_at ≡ some prior_date → prior_date ≤ decision_at
  unfolding prior_date_of
  prior_date-le prior_date e = ground arith

  snapshot_at-later :
      (store : Store) (as_of : Date) (trades : List HistoricalTrade)
      (superseded : CorporateAction → Bool) (actions : List CorporateAction)
      → All (λ t. as_of < t.trade_date) trades
      → All (λ a. cutoff_of decision_at < a.available_at) actions
      → snapshot_at ctx to_decimal mentions
          (with_later store trades superseded actions)
          run_id
          account
          symbol
          decision_at
          as_of
        ≡ snapshot_at ctx to_decimal mentions store run_id account symbol decision_at as_of
  unfolding snapshot_at
  snapshot_at-later store as_of trades superseded actions ht ha =
      get_portfolio_as_of-later ctx to_decimal store account as_of (cutoff_of decision_at) none
        trades superseded actions ht ha

  row_of_source-later :
      (store : Store) (source : FrozenSource) (at prior : PortfolioSnapshotAsOf)
      (trades : List HistoricalTrade) (superseded : CorporateAction → Bool)
      (actions : List CorporateAction)
      → All (λ t. decision_at < t.trade_date) trades
      → row_of_source ctx to_decimal mentions
          (with_later store trades superseded actions)
          run_id
          account
          symbol
          decision_at
          source
          at
          prior
        ≡ row_of_source ctx to_decimal mentions store run_id account symbol decision_at source at
            prior
  unfolding row_of_source actual_row hold_row
  row_of_source-later store FrozenSource.of_hold_baseline at prior trades superseded actions ht =
      refl
  row_of_source-later store FrozenSource.of_actual at prior trades superseded actions ht =
      let same : trades_on (with_later store trades superseded actions) symbol decision_at
          ≡ trades_on store symbol decision_at =
        trades_on-later symbol decision_at store trades superseded actions ht in
      rw same

  -- What freezing a decision writes is the same whatever trades are dated after the decision and
  -- whatever versions of corporate actions become available after the end of its day, whichever
  -- rows they supersede.
  pub freeze_decision-later :
      (store : Store) (source : FrozenSource) (table : List WalkForwardDecision)
      (trades : List HistoricalTrade) (superseded : CorporateAction → Bool)
      (actions : List CorporateAction)
      → All (λ t. decision_at < t.trade_date) trades
      → All (λ a. cutoff_of decision_at < a.available_at) actions
      → freeze_decision ctx to_decimal mentions
          (with_later store trades superseded actions)
          run_id
          account
          symbol
          decision_at
          source
          table
        ≡ freeze_decision ctx to_decimal mentions store run_id account symbol decision_at source
            table
  unfolding freeze_decision
  freeze_decision-later store source table trades superseded actions ht ha =
      elim (Option-cases (prior_date_of decision_at)) [
        | inl e ↦ rw e
        | inr (prior_date, e) ↦
            let at-later = snapshot_at-later store decision_at trades superseded actions ht ha in
            let prior-later =
              snapshot_at-later store prior_date trades superseded actions
                (All-weaken prior_date decision_at trades (prior_date-le prior_date e) ht) ha in
            elim (Option-cases (
              snapshot_at ctx to_decimal mentions store run_id account symbol decision_at
                decision_at)) [
                  | inl f ↦ rw (e, at-later, f)
                  | inr (at, f) ↦
                      elim (Option-cases (
                        snapshot_at ctx to_decimal mentions store run_id account symbol decision_at
                          prior_date)) [
                            | inl g ↦ rw (e, at-later, f, prior-later, g)
                            | inr (prior, g) ↦ rw (
                              e,
                              at-later,
                              f,
                              prior-later,
                              g,
                              row_of_source-later store source at prior trades superseded actions
                                  ht,
                            )
                          ]
                ]
      ]
