-- ===== src/WalkForward/Scores.antt =====
-- What the outcomes of decisions say.
use nse_agent.Common.{
  ℕ, ◌+◌, ◌≡◌, ◌≢◌, refl, Bool, ==→≡, Bool-cases, inl, inr, Option, none, some, List, [], ◌∷◌, ◌++◌,
  map, ℤ, length, if◌then◌else◌, ltb, ◌==◌, is_some, count_if, arith, sym, ap, ◌∙◌, ==_refl, true,
}
use mathlib.Core.List.{append-nil}
use nse_agent.Common.Options.{>>=-eq-some}
use nse_agent.Common.Decimals.{Context}
use nse_agent.Fifo.Types.{Symbol, Date, CorporateActionEvent}
use nse_agent.WalkForward.Prices.{ResolvedPrice}
use nse_agent.WalkForward.Outcomes.{
  Calendar, PriceTables, HorizonFields, WalkForwardOutcome, OutcomeStatus, Scoring, horizon_months,
  status_of_count, stock_return_of, stock_entry, horizon_price, fields_of, record_horizon,
  score_horizons, start_scoring, compute_max_drawdown, outcome_of, compute_outcome, backfill_fields,
  backfill_tri_returns, replace_outcome, store_outcome, get_by_decision_id,
}

abbrev pub has_return : HorizonFields → Bool
has_return f = is_some f.stock_return

-- How many horizons of an outcome have a stock return.
abbrev pub returns_known : List HorizonFields → ℕ
returns_known fields = count_if has_return fields

count-append :
    (fs : List HorizonFields) (g : HorizonFields)
    → returns_known (fs ++ (g ∷ [])) ≡ (if has_return g then 1 else 0) + returns_known fs
count-append [] g = ground arith
count-append (f ∷ fs) g = ground (arith, count-append fs g)

months-append :
    (fs : List HorizonFields) (g : HorizonFields)
    → map (λ f. f.months) (fs ++ (g ∷ [])) ≡ map (λ f. f.months) fs ++ (g.months ∷ [])
months-append [] g = refl
months-append (f ∷ fs) g = rw (months-append fs g)

append-snoc : (xs : List ℕ) (m : ℕ) (ms : List ℕ) → (xs ++ (m ∷ [])) ++ ms ≡ xs ++ (m ∷ ms)
append-snoc [] m ms = refl
append-snoc (x ∷ xs) m ms = rw (append-snoc xs m ms)

-- The status, from the count alone, where no entry price means that nothing was counted.
status_of_count-known :
    (entry_price : Option ℤ) (n : ℕ)
    → (entry_price ≡ none → n ≡ 0)
    → status_of_count entry_price n ≡ (
        if n == length horizon_months
        then OutcomeStatus.scored
        else (if ltb 0 n then OutcomeStatus.partial else OutcomeStatus.unscorable))
unfolding status_of_count
status_of_count-known none n h = rw (h refl)
status_of_count-known (some entry_price) n h = refl

module _ (ctx : Context) (calendar : Calendar) (tables : PriceTables) (symbol : Symbol)
    (decision_at : Date) (events : List CorporateActionEvent) where
  count-record_horizon :
      (m : ℕ) (r : Option ℤ) (s : Scoring)
      → s.scored_count ≡ returns_known s.fields
      → (record_horizon ctx calendar tables symbol decision_at events m r s).scored_count
        ≡ returns_known (record_horizon ctx calendar tables symbol decision_at events m r s).fields
  unfolding record_horizon fields_of
  count-record_horizon m r s e =
      rw (count-append s.fields (fields_of ctx calendar tables symbol decision_at events m r), e)

  months-record_horizon :
      (m : ℕ) (r : Option ℤ) (s : Scoring) (ms : List ℕ)
      → map
            (λ f. f.months)
            (record_horizon ctx calendar tables symbol decision_at events m r s).fields
          ++ ms
        ≡ map (λ f. f.months) s.fields ++ (m ∷ ms)
  unfolding record_horizon fields_of
  months-record_horizon m r s ms =
      rw (months-append s.fields (fields_of ctx calendar tables symbol decision_at events m r))
        (append-snoc (map (λ f. f.months) s.fields) m ms)

  nothing-recorded :
      (m : ℕ) (r : Option ℤ) (s : Scoring)
      → r ≡ none
      → s.scored_count ≡ 0
      → (record_horizon ctx calendar tables symbol decision_at events m r s).scored_count ≡ 0
  unfolding record_horizon
  nothing-recorded m r s e f = rw (e, f)

  -- The loop counts the returns that it records, and goes through the horizons in order.
  score_horizons-count :
      (months : List ℕ) (s t : Scoring)
      → s.scored_count ≡ returns_known s.fields
      → score_horizons ctx calendar tables symbol decision_at events months s ≡ some t
      → (t.scored_count ≡ returns_known t.fields)
        × (map (λ f. f.months) t.fields ≡ map (λ f. f.months) s.fields ++ months)
  unfolding score_horizons
  score_horizons-count [] s t e h =
      let same : s ≡ t = cc in rw (← same) (e, sym (append-nil (map (λ f. f.months) s.fields)))
  score_horizons-count (m ∷ ms) s t e h =
      let (r, _, k) =
        >>=-eq-some
          (stock_return_of ctx events decision_at
            (stock_entry ctx calendar tables symbol decision_at events).price
            (horizon_price ctx calendar tables symbol decision_at events m))
          _ h in
      let (counted, months) =
        score_horizons-count ms (record_horizon ctx calendar tables symbol decision_at events m r s)
          t (count-record_horizon m r s e) k in
      (counted, months ∙ months-record_horizon m r s ms)

  no_entry-return :
      (entry_price : Option ℤ) (price : ResolvedPrice) (r : Option ℤ)
      → entry_price ≡ none
      → stock_return_of ctx events decision_at entry_price price ≡ some r
      → r ≡ none
  unfolding stock_return_of
  no_entry-return none price r e h = cc
  no_entry-return (some entry_price) price r e h = cc

  -- Without an entry price the loop counts nothing.
  score_horizons-no_entry :
      (months : List ℕ) (s t : Scoring)
      → (stock_entry ctx calendar tables symbol decision_at events).price ≡ none
      → s.scored_count ≡ 0
      → score_horizons ctx calendar tables symbol decision_at events months s ≡ some t
      → t.scored_count ≡ 0
  unfolding score_horizons
  score_horizons-no_entry [] s t n e h = let same : s ≡ t = cc in rw (← same) e
  score_horizons-no_entry (m ∷ ms) s t n e h =
      let (r, f, k) =
        >>=-eq-some
          (stock_return_of ctx events decision_at
            (stock_entry ctx calendar tables symbol decision_at events).price
            (horizon_price ctx calendar tables symbol decision_at events m))
          _ h in
      score_horizons-no_entry ms
        (record_horizon ctx calendar tables symbol decision_at events m r s) t n
        (nothing-recorded m r s
          (no_entry-return (stock_entry ctx calendar tables symbol decision_at events).price
            (horizon_price ctx calendar tables symbol decision_at events m) r n f)
          e)
        k

  -- An outcome has one entry for each horizon, in order, and its status says how many of them
  -- have a stock return: all, some, or none.
  pub compute_outcome-status :
      (decision_id : ℕ) (o : WalkForwardOutcome)
      → compute_outcome ctx calendar tables symbol decision_at events decision_id ≡ some o
      → (map (λ f. f.months) o.horizons ≡ horizon_months)
        × (o.outcome_status ≡ (
            if returns_known o.horizons == length horizon_months
            then OutcomeStatus.scored
            else (if ltb 0 (returns_known o.horizons)
                then OutcomeStatus.partial
                else OutcomeStatus.unscorable)))
  unfolding compute_outcome outcome_of start_scoring
  compute_outcome-status decision_id o h =
      let (s, run, k) =
        >>=-eq-some
          (score_horizons ctx calendar tables symbol decision_at events horizon_months
            (start_scoring ctx calendar tables symbol decision_at events))
          _ h in
      let (drawdown, _, e) =
        >>=-eq-some
          (compute_max_drawdown ctx tables.daily symbol decision_at s.widest_end_date events) _ k in
      let (counted, months) =
        score_horizons-count horizon_months
          (start_scoring ctx calendar tables symbol decision_at events) s refl run in
      let status =
        status_of_count-known (stock_entry ctx calendar tables symbol decision_at events).price
          s.scored_count
          (λ n.
            score_horizons-no_entry horizon_months
              (start_scoring ctx calendar tables symbol decision_at events) s n refl run) in
      let same : outcome_of ctx calendar tables symbol decision_at events decision_id s drawdown
          ≡ o =
        cc in
      rw (← same) (months, rw (← counted) status)

-- The columns that are not those of the total-return benchmark.
abbrev pub price_index_fields : HorizonFields → HorizonFields
price_index_fields f = record f { benchmark_tri_return = none; excess_return_tri = none }

backfill_fields-rest :
    (fs gs : List HorizonFields)
    → map price_index_fields (backfill_fields fs gs) ≡ map price_index_fields fs
unfolding backfill_fields
backfill_fields-rest [] gs = refl
backfill_fields-rest (f ∷ fs) [] = refl
backfill_fields-rest (f ∷ fs) (g ∷ gs) = rw (backfill_fields-rest fs gs)

-- An outcome without its columns of the total-return benchmark.
abbrev pub price_index_outcome : WalkForwardOutcome → WalkForwardOutcome
price_index_outcome o = record o { horizons = map price_index_fields o.horizons }

backfill_tri_returns-rest :
    (o : WalkForwardOutcome) (new : List HorizonFields)
    → price_index_outcome (backfill_tri_returns o new) ≡ price_index_outcome o
unfolding backfill_tri_returns
backfill_tri_returns-rest o new = rw (backfill_fields-rest o.horizons new)

-- The row that replaces the stored one is found instead of it, and no other row is touched.
replace_outcome-found :
    (id : ℕ) (existing updated : WalkForwardOutcome) (table : List WalkForwardOutcome)
    → updated.decision_id ≡ id
    → get_by_decision_id id table ≡ some existing
    → price_index_outcome updated ≡ price_index_outcome existing
    → (map price_index_outcome (replace_outcome updated table) ≡ map price_index_outcome table)
      × (get_by_decision_id id (replace_outcome updated table) ≡ some updated)
      × ((other : ℕ)
          → other ≢ id
          → get_by_decision_id other (replace_outcome updated table)
            ≡ get_by_decision_id other table)
unfolding get_by_decision_id replace_outcome
replace_outcome-found id existing updated [] u e p = cc
replace_outcome-found id existing updated (o ∷ os) u e p =
    let id_of : (o.decision_id == updated.decision_id) ≡ (o.decision_id == id) =
      ap (λ n. o.decision_id == n) u in
    elim (Bool-cases (o.decision_id == id)) [
      | inl h ↦
          let here : get_by_decision_id id (o ∷ os) ≡ some o = rw h refl in
          let same : o ≡ existing = cc in
          let hit : (updated.decision_id == id) ≡ true = rw u (==_refl id) in
          rw (id_of ∙ h) (
            ap (λ t. t ∷ map price_index_outcome os) (p ∙ ap price_index_outcome (sym same)),
            rw hit refl,
            λ other n. ground (arith, u, ==→≡ o.decision_id id h, n),
          )
      | inr h ↦
          let there : get_by_decision_id id os ≡ some existing = ground (arith, e) in
          let (kept, found, others) = replace_outcome-found id existing updated os u there p in
          rw (id_of ∙ h) (
            ap (λ ts. price_index_outcome o ∷ ts) kept,
            rw h found,
            λ other n. ap (λ x. if o.decision_id == other then some o else x) (others other n),
          )
    ]

get-decision_id :
    (id : ℕ) (existing : WalkForwardOutcome) (table : List WalkForwardOutcome)
    → get_by_decision_id id table ≡ some existing
    → existing.decision_id ≡ id
unfolding get_by_decision_id
get-decision_id id existing [] e = cc
get-decision_id id existing (o ∷ os) e = elim (Bool-cases (o.decision_id == id)) [
  | inl h ↦
      let here : get_by_decision_id id (o ∷ os) ≡ some o = rw h refl in
      let same : o ≡ existing = cc in rw (← same) (==→≡ o.decision_id id h)
  | inr h ↦ get-decision_id id existing os (ground (arith, e))
]

-- The columns of the total-return benchmark.
abbrev pub tri_columns : HorizonFields → Option ℤ × Option ℤ
tri_columns f = (f.benchmark_tri_return, f.excess_return_tri)

backfill_fields-tri :
    (fs gs : List HorizonFields)
    → length fs ≡ length gs
    → map tri_columns (backfill_fields fs gs) ≡ map tri_columns gs
unfolding backfill_fields
backfill_fields-tri [] [] h = refl
backfill_fields-tri [] (g ∷ gs) h = absurd (omega (arith, h))
backfill_fields-tri (f ∷ fs) [] h = absurd (omega (arith, h))
backfill_fields-tri (f ∷ fs) (g ∷ gs) h =
    ap (λ t. tri_columns g ∷ t) (backfill_fields-tri fs gs (omega (arith, h)))

-- Scoring again a decision whose outcome is stored, with as many horizons as the new one, adds and
-- removes no row, changes nothing of any row but the columns of the total-return benchmark, and
-- these only in the outcome of the decision, which is the row that is returned and takes them from
-- the new outcome.
pub store_outcome-existing :
    (row existing : WalkForwardOutcome) (table : List WalkForwardOutcome)
    → get_by_decision_id row.decision_id table ≡ some existing
    → length existing.horizons ≡ length row.horizons
    → (map price_index_outcome (store_outcome row table).1 ≡ map price_index_outcome table)
      × (get_by_decision_id row.decision_id (store_outcome row table).1
          ≡ some (store_outcome row table).0)
      × ((other : ℕ)
          → other ≢ row.decision_id
          → get_by_decision_id other (store_outcome row table).1 ≡ get_by_decision_id other table)
      × (map tri_columns (store_outcome row table).0.horizons ≡ map tri_columns row.horizons)
unfolding store_outcome backfill_tri_returns
store_outcome-existing row existing table e same =
    let (kept, found, others) =
      replace_outcome-found row.decision_id existing (backfill_tri_returns existing row.horizons)
        table (get-decision_id row.decision_id existing table e) e
        (backfill_tri_returns-rest existing row.horizons) in
    rw (store_outcome, e)
      (kept, found, others, backfill_fields-tri existing.horizons row.horizons same)
