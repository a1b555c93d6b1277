-- ===== src/Policy/Folds.antt =====
-- No fold of investing_agent/services/governed_policy.py looks at a later year.
use nse_agent.Common.{
  ℕ, ◌≡◌, ◌≤◌, ◌<◌, refl, sym, ap, ◌∙◌, inl, inr, ◌⊎◌, Bool, true, false, ◌||◌, List, [], ◌∷◌, ◌++◌,
  map, filter, any, if◌then◌else◌, leb, ltb, ◌==◌, arith, All, Bool-cases, filter-none,
}
use nse_agent.Common.Sorting.{insert_by, sorted_set, IsSortedBy, insert_by-IsSortedBy}
use nse_agent.Common.Decimals.{Context}
use nse_agent.WalkForward.Aggregation.{AuditRow, BenchmarkKind}
use nse_agent.Policy.Governed.{CandidateSpec, is_none_left, fold_at, folds_at, expanding_folds}
use nse_agent.Facts.Rows.{filter-append}

module _ (bound : ℕ) where
  -- Whether a year is not after the bound.
  abbrev in_time : ℕ → Bool
  in_time year = leb year bound

  late-filter : (years : List ℕ) → All (λ y. bound < y) years → filter in_time years ≡ []
  late-filter [] h = refl
  late-filter (y ∷ ys) h = let rest = late-filter ys h.1 in ground (arith, h.0)

  above-All :
      (x : ℕ) (ys : List ℕ) → bound < x → All (λ y. leb x y ≡ true) ys → All (λ y. bound < y) ys
  above-All x [] b h = tt
  above-All x (y ∷ ys) b h = (ground (arith, h.0), above-All x ys b h.1)

  filter-insert_out :
      (s : ℕ) (ys : List ℕ)
      → in_time s ≡ false
      → filter in_time (insert_by leb s ys) ≡ filter in_time ys
  unfolding insert_by
  filter-insert_out s [] h = rw h refl
  filter-insert_out s (y ∷ ys) h = ground (arith, filter-insert_out s ys h)

  filter-insert_in :
      (s : ℕ) (ys : List ℕ)
      → in_time s ≡ true
      → IsSortedBy leb ys
      → filter in_time (insert_by leb s ys) ≡ insert_by leb s (filter in_time ys)
  unfolding insert_by
  filter-insert_in s [] h o = rw h refl
  filter-insert_in s (y ∷ ys) h o = elim (Bool-cases (leb s y)) [
    | inl before ↦ elim (Bool-cases (in_time y)) [
      | inl k ↦ rw (before, h, k, before) refl
      | inr k ↦
          let late : filter in_time ys ≡ [] =
            late-filter ys (above-All y ys (ground (arith, k)) o.0) in
          rw (before, h, k, late) refl
    ]
    | inr after ↦
        let k : in_time y ≡ true = ground (arith, h, after) in
        rw (after, k, after, filter-insert_in s ys h o.1) refl
  ]

  any-in_time :
      (s : ℕ) (ys : List ℕ)
      → in_time s ≡ true
      → any (λ r. r == s) ys ≡ any (λ r. r == s) (filter in_time ys)
  any-in_time s [] h = refl
  any-in_time s (y ∷ ys) h = let rest : _ ≡ _ = any-in_time s ys h in ground (arith, rest)

leb_total : (a b : ℕ) → (leb a b ≡ true) ⊎ (leb b a ≡ true)
leb_total a b = elim (Bool-cases (leb a b)) [ inl h ↦ inl h | inr h ↦ inr (ground arith) ]

sorted_set-IsSortedBy : (xs : List ℕ) → IsSortedBy leb (sorted_set xs)
unfolding sorted_set
sorted_set-IsSortedBy [] = tt
sorted_set-IsSortedBy (x ∷ xs) = elim (Bool-cases (any (λ r. r == x) (sorted_set xs))) [
  | inl e ↦ rw e (sorted_set-IsSortedBy xs)
  | inr e ↦ rw e (
      insert_by-IsSortedBy leb leb_total (λ a b c h k. ground arith) x (sorted_set xs)
        (sorted_set-IsSortedBy xs))
]

module _ (bound : ℕ) (x : ℕ) (zs : List ℕ) where
  sorted_set-out :
      in_time bound x ≡ false
      → filter (in_time bound) (sorted_set (x ∷ zs)) ≡ filter (in_time bound) (sorted_set zs)
  unfolding sorted_set
  sorted_set-out h = elim (Bool-cases (any (λ r. r == x) (sorted_set zs))) [
    | inl e ↦ rw e refl
    | inr e ↦ rw e (filter-insert_out bound x (sorted_set zs) h)
  ]

  sorted_set-in :
      in_time bound x ≡ true
      → filter (in_time bound) (sorted_set (x ∷ zs)) ≡ (
          if any (λ r. r == x) (filter (in_time bound) (sorted_set zs))
          then filter (in_time bound) (sorted_set zs)
          else insert_by leb x (filter (in_time bound) (sorted_set zs)))
  unfolding sorted_set
  sorted_set-in h =
      let same : _ ≡ _ = any-in_time bound x (sorted_set zs) h in
      elim (Bool-cases (any (λ r. r == x) (sorted_set zs))) [
        | inl e ↦ let f : _ ≡ true = sym same ∙ e in rw (e, f) refl
        | inr e ↦
            let f : _ ≡ false = sym same ∙ e in
            rw (e, f) (filter-insert_in bound x (sorted_set zs) h (sorted_set-IsSortedBy zs))
      ]

late_set :
    (bound : ℕ) (ys : List ℕ)
    → All (λ y. bound < y) ys
    → filter (in_time bound) (sorted_set ys) ≡ []
unfolding sorted_set
late_set bound [] h = refl
late_set bound (y ∷ ys) h = sorted_set-out bound y ys (ground (arith, h.0)) ∙ late_set bound ys h.1

-- The years up to a bound are the same whatever later years there are.
sorted_set-later :
    (bound : ℕ) (xs ys : List ℕ)
    → All (λ y. bound < y) ys
    → filter (in_time bound) (sorted_set (xs ++ ys)) ≡ filter (in_time bound) (sorted_set xs)
sorted_set-later bound [] ys h = late_set bound ys h ∙ sym (late_set bound [] tt)
sorted_set-later bound (x ∷ xs) ys h =
    let same : _ ≡ _ = sorted_set-later bound xs ys h in
    elim (Bool-cases (in_time bound x)) [
      | inr dropped ↦
          sorted_set-out bound x (xs ++ ys) dropped ∙ same ∙ sym (sorted_set-out bound x xs dropped)
      | inl kept ↦
          sorted_set-in bound x (xs ++ ys) kept
          ∙ ap (λ t. if any (λ r. r == x) t then t else insert_by leb x t) same
          ∙ sym (sorted_set-in bound x xs kept)
    ]

not_before :
    (year : ℕ) (rows : List AuditRow)
    → All (λ r. year < r.calendar_year) rows
    → All (λ r. ltb r.calendar_year year ≡ false) rows
not_before year [] h = tt
not_before year (r ∷ rs) h = (ground (arith, h.0), not_before year rs h.1)

not_during :
    (year : ℕ) (rows : List AuditRow)
    → All (λ r. year < r.calendar_year) rows
    → All (λ r. (r.calendar_year == year) ≡ false) rows
not_during year [] h = tt
not_during year (r ∷ rs) h = (ground (arith, h.0), not_during year rs h.1)

sooner :
    (year bound : ℕ) (rows : List AuditRow)
    → year ≤ bound
    → All (λ r. bound < r.calendar_year) rows
    → All (λ r. year < r.calendar_year) rows
sooner year bound [] le h = tt
sooner year bound (r ∷ rs) le h = (omega (arith, h.0), sooner year bound rs le h.1)

late_years :
    (bound : ℕ) (rows : List AuditRow)
    → All (λ r. bound < r.calendar_year) rows
    → All (λ y. bound < y) (map (λ r. r.calendar_year) rows)
late_years bound [] h = tt
late_years bound (r ∷ rs) h = (h.0, late_years bound rs h.1)

years-append :
    (rows later : List AuditRow)
    → map (λ r. r.calendar_year) (rows ++ later)
      ≡ map (λ r. r.calendar_year) rows ++ map (λ r. r.calendar_year) later
years-append [] later = refl
years-append (r ∷ rs) later = ap (λ t. r.calendar_year ∷ t) (years-append rs later)

module _ (ctx : Context) (spec : CandidateSpec) (kind : BenchmarkKind) where
  -- A fold reads no row of a later year.
  fold_at-later :
      (rows later : List AuditRow) (year : ℕ)
      → All (λ r. year < r.calendar_year) later
      → fold_at ctx (rows ++ later) spec kind year ≡ fold_at ctx rows spec kind year
  unfolding fold_at
  fold_at-later rows later year h =
      let earlier : _ ≡ _ =
        filter-none (λ r. ltb r.calendar_year year) rows later (not_before year later h) in
      let during : _ ≡ _ =
        filter-none (λ r. r.calendar_year == year) rows later (not_during year later h) in
      rw (fold_at, earlier, during) refl

  filter-fold_at :
      (rows : List AuditRow) (bound year : ℕ)
      → filter (λ f. in_time bound f.validation_year) (fold_at ctx rows spec kind year)
        ≡ (if in_time bound year then fold_at ctx rows spec kind year else [])
  unfolding fold_at
  filter-fold_at rows bound year =
      let train = filter (λ r. ltb r.calendar_year year) rows in
      let validation = filter (λ r. r.calendar_year == year) rows in
      elim (Bool-cases (is_none_left train || is_none_left validation)) [
        | inl e ↦ elim (Bool-cases (in_time bound year)) [
          | inl k ↦ rw (fold_at, e, k) refl
          | inr k ↦ rw (fold_at, e, k) refl
        ]
        | inr e ↦ elim (Bool-cases (in_time bound year)) [
          | inl k ↦ rw (fold_at, e, k) refl
          | inr k ↦ rw (fold_at, e, k) refl
        ]
      ]

  filter-folds_at :
      (rows : List AuditRow) (bound : ℕ) (years : List ℕ)
      → filter (λ f. in_time bound f.validation_year) (folds_at ctx rows spec kind years)
        ≡ folds_at ctx rows spec kind (filter (in_time bound) years)
  unfolding folds_at
  filter-folds_at rows bound [] = refl
  filter-folds_at rows bound (y ∷ ys) =
      let head : _ ≡ _ = filter-fold_at rows bound y in
      let rest : _ ≡ _ = filter-folds_at rows bound ys in
      let parts : _ ≡ _ =
        filter-append (λ f. in_time bound f.validation_year) (fold_at ctx rows spec kind y)
          (folds_at ctx rows spec kind ys) in
      elim (Bool-cases (in_time bound y)) [
        | inl e ↦ rw (parts, head, e, rest) refl
        | inr e ↦ rw (parts, head, e, rest) refl
      ]

  folds_at-later :
      (rows later : List AuditRow) (bound : ℕ) (years : List ℕ)
      → All (λ r. bound < r.calendar_year) later
      → folds_at ctx (rows ++ later) spec kind (filter (in_time bound) years)
        ≡ folds_at ctx rows spec kind (filter (in_time bound) years)
  unfolding folds_at
  folds_at-later rows later bound [] h = refl
  folds_at-later rows later bound (y ∷ ys) h = elim (Bool-cases (in_time bound y)) [
    | inl e ↦
        let head : _ ≡ _ =
          fold_at-later rows later y (sooner y bound later (ground (arith, e)) h) in
        rw (e, head, folds_at-later rows later bound ys h) refl
    | inr e ↦ rw e (folds_at-later rows later bound ys h)
  ]

  -- The folds that validate a year up to a bound are the same whatever rows of years after the
  -- bound are added.
  pub expanding_folds-later :
      (rows later : List AuditRow) (bound : ℕ)
      → All (λ r. bound < r.calendar_year) later
      → filter (λ f. leb f.validation_year bound) (expanding_folds ctx (rows ++ later) spec kind)
        ≡ filter (λ f. leb f.validation_year bound) (expanding_folds ctx rows spec kind)
  unfolding expanding_folds
  expanding_folds-later rows later bound h =
      let years : List AuditRow → List ℕ = map (λ r. r.calendar_year) in
      let all_years : years (rows ++ later) ≡ years rows ++ years later = years-append rows later in
      filter-folds_at (rows ++ later) bound (sorted_set (years (rows ++ later)))
      ∙ folds_at-later rows later bound (sorted_set (years (rows ++ later))) h
      ∙ ap (λ t. folds_at ctx rows spec kind (filter (in_time bound) (sorted_set t))) all_years
      ∙ ap (folds_at ctx rows spec kind)
          (sorted_set-later bound (years rows) (years later) (late_years bound later h))
      ∙ sym (filter-folds_at rows bound (sorted_set (years rows)))
