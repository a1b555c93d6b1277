-- ===== src/Facts/Assignments.antt =====
-- The two assignments of an upsert to a table: to retire the latest row of a group, and to refresh
-- it.
use nse_agent.Common.{
  ◌+◌, ◌≡◌, refl, sym, ap, ◌∙◌, true, inl, inr, some, List, [], ◌∷◌, ◌++◌, map, filter, length,
  arith, Bool-cases,
}
use mathlib.Core.Path.{subst}
use nse_agent.Facts.Rows.{
  filter-filter, filter-append, scalar-one, one_row, map-unchanged, append_nil,
}
use nse_agent.Facts.Versions.{
  Versioned, Laws, scalar_one_or_none, in_group, is_current, get_latest, update_current,
}
use nse_agent.Facts.Histories.{
  IsHistory, IsVersioned, assign, IsHistory-successor, IsHistory-assign, group-update_current,
  others-update_current,
}

module _ {Row Data Key : Type 0} (T : Versioned Row Data Key) (L : Laws T) where
  -- A table whose groups are histories stays one when a row is appended to a group whose latest
  -- row has been retired.
  pub IsVersioned-successor :
      (k : Key) (row : Row) (table : List Row)
      → T.key row ≡ k
      → T.version row ≡ 1 + length (filter (in_group T k) table)
      → T.is_latest row ≡ true
      → IsVersioned T table
      → IsVersioned T (update_current T k T.retire table ++ (row ∷ []))
  unfolding IsVersioned
  IsVersioned-successor k row table o n l h j =
      let old = filter (in_group T k) table in
      let parts : _ ≡ _ =
        filter-append (in_group T j) (update_current T k T.retire table) (row ∷ []) in
      elim (Bool-cases (T.same k j)) [
        | inl e ↦
            let one : filter (in_group T j) (row ∷ []) ≡ row ∷ [] =
              rw (ap (λ i. T.same i j) o ∙ e) refl in
            rw (parts, one)
              (subst
                (λ i.
                  IsHistory T 1
                    (filter (in_group T i) (update_current T k T.retire table) ++ (row ∷ [])))
                (L.same→≡ k j e)
                (rw (group-update_current T L k T.retire table L.key-retire)
                  (IsHistory-successor T L 1 old row (h k) n l)))
        | inr e ↦
            let nothing : filter (in_group T j) (row ∷ []) ≡ [] =
              rw (ap (λ i. T.same i j) o ∙ e) refl in
            rw
              (
                parts,
                nothing,
                others-update_current T L k j T.retire table e L.key-retire,
                append_nil (filter (in_group T j) table),
              )
              (h j)
      ]

  pub IsVersioned-refresh :
      (k : Key) (d : Data) (table : List Row)
      → IsVersioned T table
      → IsVersioned T (update_current T k (λ r. T.refresh r d) table)
  unfolding IsVersioned
  IsVersioned-refresh k d table h j = elim (Bool-cases (T.same k j)) [
    | inl e ↦
        subst
          (λ i.
            IsHistory T 1 (filter (in_group T i) (update_current T k (λ r. T.refresh r d) table)))
          (L.same→≡ k j e)
          (rw (group-update_current T L k (λ r. T.refresh r d) table (λ r. L.key-refresh r d)) (
            IsHistory-assign T (λ r. T.refresh r d) 1 (filter (in_group T k) table)
              (λ r. L.version-refresh r d) (λ r. L.is_latest-refresh r d) (h k)))
    | inr e ↦
        rw (others-update_current T L k j (λ r. T.refresh r d) table e (λ r. L.key-refresh r d))
          (h j)
  ]

  -- Where a group has no rows, there is no current row to assign to.
  pub update_current-none :
      (k : Key) (f : Row → Row) (table : List Row)
      → filter (in_group T k) table ≡ []
      → update_current T k f table ≡ table
  unfolding update_current
  update_current-none k f table e =
      map-unchanged (is_current T k) f table
        (rw (filter-filter (in_group T k) T.is_latest table, e) tt)

  retired : (rs : List Row) → filter T.is_latest (assign T T.retire rs) ≡ []
  unfolding assign
  retired [] = refl
  retired (r ∷ rs) = ground (arith, retired rs, L.is_latest-retire r)

  latest-assign :
      (f : Row → Row) (rs : List Row)
      → ((r : Row) → T.is_latest (f r) ≡ T.is_latest r)
      → filter T.is_latest (assign T f rs) ≡ map f (filter T.is_latest rs)
  unfolding assign
  latest-assign f [] h = refl
  latest-assign f (r ∷ rs) h = ground (arith, latest-assign f rs h, h r)

  pub current-successor :
      (k : Key) (row : Row) (table : List Row)
      → T.key row ≡ k
      → T.is_latest row ≡ true
      → get_latest T k (update_current T k T.retire table ++ (row ∷ [])) ≡ some (some row)
  unfolding get_latest scalar_one_or_none
  current-successor k row table o l =
      let after = update_current T k T.retire table ++ (row ∷ []) in
      let one : filter (in_group T k) (row ∷ []) ≡ row ∷ [] =
        rw (ap (λ i. T.same i k) o ∙ L.same_refl k) refl in
      rw
        (
          filter-filter (in_group T k) T.is_latest after,
          filter-append (in_group T k) (update_current T k T.retire table) (row ∷ []),
          one,
          group-update_current T L k T.retire table L.key-retire,
          filter-append T.is_latest (assign T T.retire (filter (in_group T k) table)) (row ∷ []),
          retired (filter (in_group T k) table),
          l,
        )
        refl

  pub current-refresh :
      (k : Key) (d : Data) (e : Row) (table : List Row)
      → get_latest T k table ≡ some (some e)
      → get_latest T k (update_current T k (λ r. T.refresh r d) table) ≡ some (some (T.refresh e d))
  unfolding get_latest
  current-refresh k d e table f =
      let refresh : Row → Row = λ r. T.refresh r d in
      let only : filter T.is_latest (filter (in_group T k) table) ≡ e ∷ [] =
        sym (filter-filter (in_group T k) T.is_latest table)
        ∙ scalar-one (filter (is_current T k) table) e f in
      let after : filter (is_current T k) (update_current T k refresh table) ≡ refresh e ∷ [] =
        filter-filter (in_group T k) T.is_latest (update_current T k refresh table)
        ∙ ap (λ t. filter T.is_latest t)
            (group-update_current T L k refresh table (λ r. L.key-refresh r d))
        ∙ latest-assign refresh (filter (in_group T k) table) (λ r. L.is_latest-refresh r d)
        ∙ ap (λ t. map refresh t) only in
      one_row (filter (is_current T k) (update_current T k refresh table)) (refresh e) after
