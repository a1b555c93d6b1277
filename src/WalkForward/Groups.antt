-- ===== src/WalkForward/Groups.antt =====
-- The groups of an aggregation split its rows, and so do the counts of the summaries.
use nse_agent.Common.{
  ℕ, ◌+◌, ◌≡◌, refl, Bool, true, Option, List, [], ◌∷◌, ◌++◌, map, ℤ, filter, length, count_if,
  if◌then◌else◌, is_some, arith, All, All-append, Bool-cases, inl, inr, length-filter, count_if-le,
}
use nse_agent.Common.Decimals.{Context}
use nse_agent.WalkForward.Aggregation.{
  AuditRow, Horizon, BenchmarkKind, Summary, known, add_to_group, group_into, group_by,
  summarize_horizon, aggregate_by,
}

count-snoc {ℓ} :
    {A : Type ℓ} (p : A → Bool) (xs : List A) (x : A)
    → count_if p (xs ++ (x ∷ [])) ≡ (if p x then 1 else 0) + count_if p xs
count-snoc p [] x = ground arith
count-snoc p (y ∷ ys) x = ground (arith, count-snoc p ys x)

module _ {ℓ κ} {K : Type ℓ} {A : Type κ} (same : K → K → Bool) (key_fn : A → K) where
  -- How many rows of all groups satisfy a test.
  abbrev pub count_groups : (A → Bool) → List (K × List A) → ℕ
  count_groups p [] = 0
  count_groups p ((_, rs) ∷ groups) = count_if p rs + count_groups p groups

  count-add_to_group :
      (p : A → Bool) (r : A) (k : K) (groups : List (K × List A))
      → count_groups p (add_to_group same k r groups)
        ≡ (if p r then 1 else 0) + count_groups p groups
  unfolding add_to_group
  count-add_to_group p r k [] = ground arith
  count-add_to_group p r k ((j, rs) ∷ groups) =
      ground (arith, count-snoc p rs r, count-add_to_group p r k groups)

  count-group_into :
      (p : A → Bool) (groups : List (K × List A)) (rows : List A)
      → count_groups p (group_into same key_fn groups rows)
        ≡ count_groups p groups + count_if p rows
  unfolding group_into
  count-group_into p groups [] = omega arith
  count-group_into p groups (r ∷ rows) = ground (
    arith,
    count-group_into p (add_to_group same (key_fn r) r groups) rows,
    count-add_to_group p r (key_fn r) groups,
  )

  -- Whatever the keys and the test on keys, as many rows of all the groups satisfy a test as rows
  -- that were grouped: no row is lost or doubled.
  pub count-group_by :
      (p : A → Bool) (rows : List A) → count_groups p (group_by same rows key_fn) ≡ count_if p rows
  unfolding group_by
  count-group_by p rows = omega (arith, count-group_into p [] rows)

  -- Every row of a group has the key of the group.
  abbrev pub IsKeyed : List (K × List A) → Type 0
  IsKeyed groups = All (λ g. All (λ r. same g.0 (key_fn r) ≡ true) g.1) groups

  add_to_group-IsKeyed :
      (r : A) (groups : List (K × List A))
      → ((k : K) → same k k ≡ true)
      → IsKeyed groups
      → IsKeyed (add_to_group same (key_fn r) r groups)
  unfolding add_to_group
  add_to_group-IsKeyed r [] reflexive h = ((reflexive (key_fn r), tt), tt)
  add_to_group-IsKeyed r ((j, rs) ∷ groups) reflexive h = elim (Bool-cases (same j (key_fn r))) [
    | inl e ↦ rw e (All-append (λ x. same j (key_fn x) ≡ true) rs (r ∷ []) h.0 (e, tt), h.1)
    | inr e ↦ rw e (h.0, add_to_group-IsKeyed r groups reflexive h.1)
  ]

  group_into-IsKeyed :
      (groups : List (K × List A)) (rows : List A)
      → ((k : K) → same k k ≡ true)
      → IsKeyed groups
      → IsKeyed (group_into same key_fn groups rows)
  unfolding group_into
  group_into-IsKeyed groups [] reflexive h = h
  group_into-IsKeyed groups (r ∷ rows) reflexive h =
      group_into-IsKeyed (add_to_group same (key_fn r) r groups) rows reflexive
        (add_to_group-IsKeyed r groups reflexive h)

  -- Where the test on keys is reflexive, every row of a group has the key of the group.
  pub group_by-IsKeyed :
      (rows : List A) → ((k : K) → same k k ≡ true) → IsKeyed (group_by same rows key_fn)
  unfolding group_by
  group_by-IsKeyed rows reflexive = group_into-IsKeyed [] rows reflexive tt

length-known {ℓ} :
    {A : Type ℓ} (f : A → Option ℤ) (xs : List A)
    → length (known f xs) ≡ count_if (λ x. is_some (f x)) xs
unfolding known
length-known f [] = refl
length-known f (x ∷ xs) = ground (arith, length-known f xs)

-- The counts of a summary: the included rows are those marked so, and the scored ones those with
-- a return at the horizon; with the excluded and the unscored they add up.
pub summarize_horizon-counts :
    (ctx : Context) (rows : List AuditRow) (horizon : Horizon) (kind : BenchmarkKind)
    → ((summarize_horizon ctx rows horizon kind).n_included
        ≡ count_if (λ r. r.included_in_aggregate) rows)
      × ((summarize_horizon ctx rows horizon kind).n_included
            + (summarize_horizon ctx rows horizon kind).n_excluded
          ≡ length rows)
      × ((summarize_horizon ctx rows horizon kind).n_scored_this_horizon
          ≡ count_if
              (λ r. is_some (r.stock_return horizon))
              (filter (λ r. r.included_in_aggregate) rows))
      × ((summarize_horizon ctx rows horizon kind).n_scored_this_horizon
            + (summarize_horizon ctx rows horizon kind).n_unscored_this_horizon
          ≡ (summarize_horizon ctx rows horizon kind).n_included)
unfolding summarize_horizon
summarize_horizon-counts ctx rows horizon kind =
    let included = filter (λ r. r.included_in_aggregate) rows in
    let a = length-filter (λ r. r.included_in_aggregate) rows in
    let b = count_if-le (λ r. r.included_in_aggregate) rows in
    let c = length-known (λ r. r.stock_return horizon) included in
    let d = count_if-le (λ r. is_some (r.stock_return horizon)) included in
    (a, omega (arith, a, b), c, omega (arith, c, d))

-- The sum of the included rows of all groups.
abbrev pub total_included {ℓ} : {K : Type ℓ} → List (K × Summary) → ℕ
total_included [] = 0
total_included ((_, s) ∷ groups) = s.n_included + total_included groups

module _ {ℓ} {K : Type ℓ} (ctx : Context) (same : K → K → Bool) (key_fn : AuditRow → K)
    (horizon : Horizon) (kind : BenchmarkKind) where
  total_included-groups :
      (groups : List (K × List AuditRow))
      → total_included (map (λ g. (g.0, summarize_horizon ctx g.1 horizon kind)) groups)
        ≡ count_groups same key_fn (λ r. r.included_in_aggregate) groups
  total_included-groups [] = refl
  total_included-groups ((k, rs) ∷ groups) =
      let head = (summarize_horizon-counts ctx rs horizon kind).0 in
      omega (arith, head, total_included-groups groups)

  -- The groups of an aggregation include, together, as many rows as the overall summary.
  pub total_included-aggregate_by :
      (rows : List AuditRow)
      → total_included (aggregate_by ctx same rows key_fn horizon kind)
        ≡ (summarize_horizon ctx rows horizon kind).n_included
  unfolding aggregate_by
  total_included-aggregate_by rows =
      let groups = total_included-groups (group_by same rows key_fn) in
      let counted = count-group_by same key_fn (λ r. r.included_in_aggregate) rows in
      let overall = (summarize_horizon-counts ctx rows horizon kind).0 in
      omega (arith, groups, counted, overall)
