-- ===== src/Facts/AsOf.antt =====
-- The two point-in-time queries of a fact table: the loop that keeps the highest version of each
-- group, and the query that sorts one group.
use nse_agent.Common.{
  ℕ, ◌≡◌, refl, sym, ap, ◌∙◌, Bool, true, false, ◌&&◌, inl, inr, Option, none, some, List, [], ◌∷◌,
  filter, if◌then◌else◌, ltb, leb, arith, Bool-cases, All,
}
use nse_agent.Common.Sorting.{insert_by, sort_by}
use nse_agent.Facts.Versions.{
  Versioned, Laws, first, in_group, get_as_of, keep_higher, latest_per_group, list_by_company_as_of,
}

module _ {Row Data Key : Type 0} (T : Versioned Row Data Key) where
  -- The row with the higher version, the earlier one on ties.
  abbrev better : Option Row → Row → Option Row
  better none r = some r
  better (some c) r = if ltb (T.version c) (T.version r) then some r else some c

  abbrev prefer : Row → Option Row → Option Row
  prefer c none = some c
  prefer c (some r) = if leb (T.version r) (T.version c) then some c else some r

  abbrev best : Option Row → List Row → Option Row
  best c [] = c
  best c (r ∷ rs) = best (better c r) rs

  prefer-better :
      (c r : Row) (b : Option Row)
      → prefer c (prefer r b) ≡ (if ltb (T.version c) (T.version r) then prefer r b else prefer c b)
  prefer-better c r none = ground arith
  prefer-better c r (some s) = ground arith

  best-prefer : (c : Row) (rs : List Row) → best (some c) rs ≡ prefer c (best none rs)
  best-prefer c [] = refl
  best-prefer c (r ∷ rs) =
      let onward : prefer c (best (some r) rs) ≡ prefer c (prefer r (best none rs)) =
        ap (prefer c) (best-prefer r rs) in
      elim (Bool-cases (ltb (T.version c) (T.version r))) [
        | inl h ↦
            rw h (best-prefer r rs ∙ sym (onward ∙ rw (prefer-better c r (best none rs), h) refl))
        | inr h ↦
            rw h (best-prefer c rs ∙ sym (onward ∙ rw (prefer-better c r (best none rs), h) refl))
      ]

  first-insert_by :
      (r : Row) (rs : List Row)
      → first (insert_by (λ a b. leb (T.version b) (T.version a)) r rs) ≡ prefer r (first rs)
  unfolding insert_by
  first-insert_by r [] = refl
  first-insert_by r (x ∷ rs) = ground arith

  first-sort_by :
      (rs : List Row) → first (sort_by (λ a b. leb (T.version b) (T.version a)) rs) ≡ best none rs
  unfolding sort_by
  first-sort_by [] = refl
  first-sort_by (r ∷ rs) =
      first-insert_by r (sort_by (λ a b. leb (T.version b) (T.version a)) rs)
      ∙ ap (prefer r) (first-sort_by rs)
      ∙ sym (best-prefer r rs)

  both_filters :
      (of_company : Row → Bool) (k : Key) (as_of : ℕ) (table : List Row)
      → All (λ r. in_group T k r ≡ true → of_company r ≡ true) table
      → filter (in_group T k) (filter (λ r. of_company r && leb (T.available_at r) as_of) table)
        ≡ filter (λ r. in_group T k r && leb (T.available_at r) as_of) table
  both_filters of_company k as_of [] h = refl
  both_filters of_company k as_of (r ∷ rs) h =
      let rest : _ ≡ _ = both_filters of_company k as_of rs h.1 in
      elim (Bool-cases (in_group T k r)) [
        | inl g ↦
            let o : of_company r ≡ true = h.0 g in
            elim (Bool-cases (leb (T.available_at r) as_of)) [
              | inl l ↦ rw (g, o, l, g, rest) refl
              | inr l ↦ rw (g, o, l, rest) refl
            ]
        | inr g ↦ elim (Bool-cases (of_company r && leb (T.available_at r) as_of)) [
          | inl l ↦ rw (g, l, g, rest) refl
          | inr l ↦ rw (g, l, rest) refl
        ]
      ]

  module _ (L : Laws T) where
    first-keep_higher :
        (k : Key) (row : Row) (kept : List Row)
        → first (filter (in_group T k) (keep_higher T row kept)) ≡ (
            if in_group T k row
            then better (first (filter (in_group T k) kept)) row
            else first (filter (in_group T k) kept))
    unfolding keep_higher
    first-keep_higher k row [] = ground arith
    first-keep_higher k row (c ∷ kept) = elim (Bool-cases (in_group T (T.key row) c)) [
      | inl g ↦
          let moved : in_group T k c ≡ in_group T k row =
            ap (λ j. T.same j k) (L.same→≡ (T.key c) (T.key row) g) in
          ground (arith, moved)
      | inr g ↦ elim (Bool-cases (in_group T k c)) [
        | inl i ↦
            let apart : in_group T k row ≡ false = elim (Bool-cases (in_group T k row)) [
              | inl o ↦
                  let same_key : T.key c ≡ T.key row =
                    L.same→≡ (T.key c) k i ∙ sym (L.same→≡ (T.key row) k o) in
                  let itself : in_group T (T.key row) c ≡ true =
                    ap (λ j. T.same j (T.key row)) same_key ∙ L.same_refl (T.key row) in
                  cc
              | inr o ↦ o
            ] in
            rw (g, i, apart) refl
        | inr i ↦ rw (g, i) (first-keep_higher k row kept)
      ]
    ]

    first-latest_per_group :
        (k : Key) (kept rows : List Row)
        → first (filter (in_group T k) (latest_per_group T kept rows))
          ≡ best (first (filter (in_group T k) kept)) (filter (in_group T k) rows)
    unfolding latest_per_group
    first-latest_per_group k kept [] = refl
    first-latest_per_group k kept (r ∷ rows) =
        let step : _ ≡ _ = first-keep_higher k r kept in
        elim (Bool-cases (in_group T k r)) [
          | inl g ↦ rw g (
              first-latest_per_group k (keep_higher T r kept) rows
              ∙ ap (λ c. best c (filter (in_group T k) rows)) (step ∙ rw g refl))
          | inr g ↦ rw g (
              first-latest_per_group k (keep_higher T r kept) rows
              ∙ ap (λ c. best c (filter (in_group T k) rows)) (step ∙ rw g refl))
        ]

    -- Where the rows of a group belong to the company, the two queries find the same row of it.
    pub list_by_company_as_of-get_as_of :
        (of_company : Row → Bool) (k : Key) (as_of : ℕ) (table : List Row)
        → All (λ r. in_group T k r ≡ true → of_company r ≡ true) table
        → first (filter (in_group T k) (list_by_company_as_of T of_company as_of table))
          ≡ get_as_of T k as_of table
    unfolding list_by_company_as_of get_as_of
    list_by_company_as_of-get_as_of of_company k as_of table h =
        first-latest_per_group k []
          (filter (λ r. of_company r && leb (T.available_at r) as_of) table)
        ∙ ap (best none) (both_filters of_company k as_of table h)
        ∙ sym (first-sort_by (filter (λ r. in_group T k r && leb (T.available_at r) as_of) table))
