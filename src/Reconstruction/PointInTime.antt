-- ===== src/Reconstruction/PointInTime.antt =====
-- What a portfolio as of a date depends on. A new version of a corporate action clears `is_latest`
-- on the row it supersedes: `upsert_versioned` of db/repositories/corporate_action.py.
use nse_agent.Common.{
  ℕ, ◌≡◌, refl, ◌<◌, Bool, false, Option, some, List, [], ◌∷◌, ◌++◌, map, filter, ℤ, All,
  if◌then◌else◌, ltb, leb, arith, filter-none, Bool-cases, Option-cases, inl, inr, ap, ◌∙◌,
}
use nse_agent.Common.Sorting.{insert_by, sort_by}
use nse_agent.Common.Decimals.{Context}
use nse_agent.Reconstruction.Trades.{HistoricalTrade}
use nse_agent.Reconstruction.Snapshot.{PriceProvider}
use nse_agent.Reconstruction.Store.{
  Store, CorporateAction, same_group, parse_ratio, keep_latest, latest_versions,
  list_corporate_actions, load_corporate_action_events, trades_up_to, replay_as_of,
  get_portfolio_as_of,
}

late :
    (as_of : ℕ) (ts : List HistoricalTrade)
    → All (λ t. as_of < t.trade_date) ts
    → All (λ t. leb t.trade_date as_of ≡ false) ts
late as_of [] h = tt
late as_of (t ∷ ts) h = (ground arith, late as_of ts h.1)

unavailable :
    (cutoff : ℕ) (rs : List CorporateAction)
    → All (λ a. cutoff < a.available_at) rs
    → All (λ a. leb a.available_at cutoff ≡ false) rs
unavailable cutoff [] h = tt
unavailable cutoff (a ∷ rs) h = (ground arith, unavailable cutoff rs h.1)

abbrev earlier_event : CorporateAction → CorporateAction → Bool
earlier_event a b = leb a.event_date b.event_date

-- The row with `is_latest` cleared, if a later version supersedes it.
abbrev pub supersede : (CorporateAction → Bool) → CorporateAction → CorporateAction
supersede superseded r = record r { is_latest = if superseded r then false else r.is_latest }

-- The account with later rows added: trades, and versions of corporate actions, which clear
-- `is_latest` on the rows that they supersede.
abbrev pub with_later :
    Store → List HistoricalTrade → (CorporateAction → Bool) → List CorporateAction → Store
with_later store trades superseded actions = record store {
  trades = store.trades ++ trades;
  corporate_actions = map (supersede superseded) store.corporate_actions ++ actions;
}

module _ (superseded : CorporateAction → Bool) where
  abbrev flagged : List CorporateAction → List CorporateAction
  flagged = map (supersede superseded)

  filter-flagged :
      (cutoff : ℕ) (rows : List CorporateAction)
      → filter (λ r. leb r.available_at cutoff) (flagged rows)
        ≡ flagged (filter (λ r. leb r.available_at cutoff) rows)
  filter-flagged cutoff [] = refl
  filter-flagged cutoff (r ∷ rs) = elim (Bool-cases (leb r.available_at cutoff)) [
    | inl e ↦ rw (e, filter-flagged cutoff rs)
    | inr e ↦ rw (e, filter-flagged cutoff rs)
  ]

  keep_latest-flagged :
      (row : CorporateAction) (rows : List CorporateAction)
      → keep_latest (supersede superseded row) (flagged rows) ≡ flagged (keep_latest row rows)
  unfolding keep_latest
  keep_latest-flagged row [] = refl
  keep_latest-flagged row (r ∷ rs) = elim (Bool-cases (same_group r row)) [
    | inl e ↦ elim (Bool-cases (ltb r.version row.version)) [
      | inl f ↦ rw (e, f)
      | inr f ↦ rw (e, f)
    ]
    | inr e ↦ rw (e, keep_latest-flagged row rs)
  ]

  latest_versions-flagged :
      (kept rows : List CorporateAction)
      → latest_versions (flagged kept) (flagged rows) ≡ flagged (latest_versions kept rows)
  unfolding latest_versions
  latest_versions-flagged kept [] = refl
  latest_versions-flagged kept (r ∷ rs) =
      ap (λ t. latest_versions t (flagged rs)) (keep_latest-flagged r kept)
      ∙ latest_versions-flagged (keep_latest r kept) rs

  insert_by-flagged :
      (row : CorporateAction) (rows : List CorporateAction)
      → insert_by earlier_event (supersede superseded row) (flagged rows)
        ≡ flagged (insert_by earlier_event row rows)
  unfolding insert_by
  insert_by-flagged row [] = refl
  insert_by-flagged row (r ∷ rs) = elim (Bool-cases (leb row.event_date r.event_date)) [
    | inl e ↦ rw e
    | inr e ↦ rw (e, insert_by-flagged row rs)
  ]

  sort_by-flagged :
      (rows : List CorporateAction)
      → sort_by earlier_event (flagged rows) ≡ flagged (sort_by earlier_event rows)
  unfolding sort_by
  sort_by-flagged [] = refl
  sort_by-flagged (r ∷ rs) =
      rw (sort_by-flagged rs) (insert_by-flagged r (sort_by earlier_event rs))

  load-flagged :
      (to_decimal : List ℕ → Option ℤ) (rows : List CorporateAction)
      → load_corporate_action_events to_decimal (flagged rows)
        ≡ load_corporate_action_events to_decimal rows
  unfolding load_corporate_action_events
  load-flagged to_decimal [] = refl
  load-flagged to_decimal (r ∷ rs) = elim (Option-cases (parse_ratio to_decimal r.ratio)) [
    | inl e ↦ rw (load_corporate_action_events, e) (load-flagged to_decimal rs)
    | inr (_, e) ↦ rw (load_corporate_action_events, e, load-flagged to_decimal rs)
  ]

  -- The events of a cutoff are those of before the later versions.
  load-later :
      (to_decimal : List ℕ → Option ℤ) (cutoff : ℕ) (rows actions : List CorporateAction)
      → All (λ a. cutoff < a.available_at) actions
      → load_corporate_action_events to_decimal
          (list_corporate_actions (some cutoff) (flagged rows ++ actions))
        ≡ load_corporate_action_events to_decimal (list_corporate_actions (some cutoff) rows)
  unfolding list_corporate_actions
  load-later to_decimal cutoff rows actions ha =
      let available : List CorporateAction = filter (λ r. leb r.available_at cutoff) rows in
      rw
        (
          filter-none (λ a. leb a.available_at cutoff) (flagged rows) actions
              (unavailable cutoff actions ha),
          filter-flagged cutoff rows,
          latest_versions-flagged [] available,
          sort_by-flagged (latest_versions [] available),
        )
        (load-flagged to_decimal (sort_by earlier_event (latest_versions [] available)))

-- At a cutoff, a portfolio as of a date is the same whatever trades are dated after the date and
-- whatever versions of corporate actions become available after the cutoff, whichever rows they
-- supersede.
pub get_portfolio_as_of-later :
    (ctx : Context) (to_decimal : List ℕ → Option ℤ) (store : Store) (account as_of cutoff : ℕ)
    (provider : PriceProvider) (trades : List HistoricalTrade) (superseded : CorporateAction → Bool)
    (actions : List CorporateAction)
    → All (λ t. as_of < t.trade_date) trades
    → All (λ a. cutoff < a.available_at) actions
    → get_portfolio_as_of ctx to_decimal
        (some (with_later store trades superseded actions))
        account
        as_of
        provider
        (some cutoff)
      ≡ get_portfolio_as_of ctx to_decimal (some store) account as_of provider (some cutoff)
unfolding get_portfolio_as_of replay_as_of trades_up_to
get_portfolio_as_of-later ctx to_decimal store account as_of cutoff provider trades superseded
      actions ht ha =
    rw (
      filter-none (λ t. leb t.trade_date as_of) store.trades trades (late as_of trades ht),
      load-later superseded to_decimal cutoff store.corporate_actions actions ha,
    )
