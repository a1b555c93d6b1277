-- ===== src/Facts/Versioning.antt =====
-- What versioning promises of any fact table: groups stay histories, what is written is found, and
-- what is written again changes nothing.
use nse_agent.Common.{
  ℕ, ◌≡◌, refl, sym, ap, ◌∙◌, Bool, true, false, inl, inr, none, some, List, [], ◌∷◌, ◌++◌, map,
  filter, if◌then◌else◌, arith,
}
use mathlib.Core.Path.{subst}
use nse_agent.Facts.Rows.{scalar-one, some→≡, map-unchanged, map-seen, map-append, append_nil}
use nse_agent.Facts.Versions.{
  Versioned, Laws, is_current, get_latest, update_current, write_version, upsert_versioned,
}
use nse_agent.Facts.Histories.{IsVersioned}
use nse_agent.Facts.Assignments.{
  IsVersioned-successor, IsVersioned-refresh, update_current-none, current-successor,
  current-refresh,
}
use nse_agent.Facts.Upserts.{upsert-cases}

module _ {Row Data Key : Type 0} (T : Versioned Row Data Key) (L : Laws T) where
  pub upsert-IsVersioned :
      (id now : ℕ) (d : Data) (table : List Row)
      → IsVersioned T table
      → (row : Row) × (added : Bool) × (after : List Row) × (upsert_versioned T id now d table
          ≡ some (row, added, after))
        × IsVersioned T after
  upsert-IsVersioned id now d table h = elim (upsert-cases T L id now d table h) [
    | inl (e, f) ↦ (
      T.row_of id now d none,
      true,
      table ++ (T.row_of id now d none ∷ []),
      f,
      subst (λ t. IsVersioned T (t ++ (T.row_of id now d none ∷ [])))
          (update_current-none T L (T.key_of d) T.retire table e)
          (IsVersioned-successor T L (T.key_of d) (T.row_of id now d none) table
            (L.key-row_of id now d none) (L.first_version id now d ∙ rw e refl)
            (L.is_latest-row_of id now d none) h),
    )
    | inr (e, f, n, inl (q, u)) ↦ (
      T.refresh e d,
      false,
      update_current T (T.key_of d) (λ r. T.refresh r d) table,
      u,
      IsVersioned-refresh T L (T.key_of d) d table h,
    )
    | inr (e, f, n, inr (q, u)) ↦ (
      T.row_of id now d (some e),
      true,
      update_current T (T.key_of d) T.retire table ++ (T.row_of id now d (some e) ∷ []),
      u,
      IsVersioned-successor T L (T.key_of d) (T.row_of id now d (some e)) table
          (L.key-row_of id now d (some e)) (L.next_version id now d e ∙ omega (arith, n))
          (L.is_latest-row_of id now d (some e)) h,
    )
  ]

  -- The row is the latest of its group, with the values of the data.
  abbrev Written : Data → Row × Bool × List Row → Type 0
  Written d (row, _, after) =
      (get_latest T (T.key_of d) after ≡ some (some row))
      × (T.values_equal row d ≡ true)
      × (T.refresh row d ≡ row)

  Written-outcome :
      (d : Data) {out : Row × Bool × List Row} (out' : Row × Bool × List Row)
      → Written d out
      → some out ≡ some out'
      → Written d out'
  Written-outcome d out' w e = subst (Written d) (some→≡ e) w

  -- The row that is written is the latest of its group, with the values of the data.
  pub get_latest-upsert :
      (id now : ℕ) (d : Data) (table : List Row) (row : Row) (added : Bool) (after : List Row)
      → IsVersioned T table
      → upsert_versioned T id now d table ≡ some (row, added, after)
      → Written d (row, added, after)
  get_latest-upsert id now d table row added after h u =
      let k = T.key_of d in
      elim (upsert-cases T L id now d table h) [
        | inl (e, f) ↦
            let new = T.row_of id now d none in
            let found : get_latest T k (table ++ (new ∷ [])) ≡ some (some new) =
              subst (λ t. get_latest T k (t ++ (new ∷ [])) ≡ some (some new))
                (update_current-none T L k T.retire table e)
                (current-successor T L k new table (L.key-row_of id now d none)
                  (L.is_latest-row_of id now d none)) in
            Written-outcome d _
              (found, L.values_equal-row_of id now d none, L.refresh-row_of id now d none)
              (sym f ∙ u)
        | inr (e, f, n, inl (q, g)) ↦
            Written-outcome d _
              (
                current-refresh T L k d e table f,
                L.values_equal-refresh e d d ∙ q,
                L.refresh-refresh e d,
              )
              (sym g ∙ u)
        | inr (e, f, n, inr (q, g)) ↦
            Written-outcome d _
              (
                current-successor T L k (T.row_of id now d (some e)) table
                    (L.key-row_of id now d (some e)) (L.is_latest-row_of id now d (some e)),
                L.values_equal-row_of id now d (some e),
                L.refresh-row_of id now d (some e),
              )
              (sym g ∙ u)
      ]

  -- Writing the data again finds the row, and changes nothing.
  pub upsert-upsert :
      (id now id' now' : ℕ) (d : Data) (table : List Row) (row : Row) (added : Bool)
      (after : List Row)
      → IsVersioned T table
      → upsert_versioned T id now d table ≡ some (row, added, after)
      → upsert_versioned T id' now' d after ≡ some (row, false, after)
  unfolding upsert_versioned write_version update_current get_latest
  upsert-upsert id now id' now' d table row added after h u =
      let (found, equal, fresh) = get_latest-upsert id now d table row added after h u in
      let only : filter (is_current T (T.key_of d)) after ≡ row ∷ [] = scalar-one _ row found in
      let same_table : update_current T (T.key_of d) (λ r. T.refresh r d) after ≡ after =
        map-unchanged (is_current T (T.key_of d)) (λ r. T.refresh r d) after
          (rw only (fresh, tt)) in
      rw (found, equal, fresh, same_table) refl

  abbrev Seen {κ} : {A : Type κ} → (Row → A) → List Row → Row × Bool × List Row → Type κ
  Seen g table (row, added, after) = map g after ≡ map g table ++ (if added then g row ∷ [] else [])

  Seen-outcome {κ} :
      {A : Type κ} (g : Row → A) (table : List Row) {out : Row × Bool × List Row}
      (out' : Row × Bool × List Row)
      → Seen g table out
      → some out ≡ some out'
      → Seen g table out'
  Seen-outcome g table out' w e = subst (Seen g table) (some→≡ e) w

  -- What an upsert does not change of a row stays as it is in every row, and new rows come last.
  pub map-upsert {κ} :
      {A : Type κ} (g : Row → A) (id now : ℕ) (d : Data) (table : List Row) (row : Row)
      (added : Bool) (after : List Row)
      → ((r : Row) → g (T.retire r) ≡ g r)
      → ((r : Row) → g (T.refresh r d) ≡ g r)
      → IsVersioned T table
      → upsert_versioned T id now d table ≡ some (row, added, after)
      → Seen g table (row, added, after)
  unfolding update_current
  map-upsert g id now d table row added after gr gf h u = elim (upsert-cases T L id now d table h) [
    | inl (e, f) ↦
        Seen-outcome g table _ (map-append g table (T.row_of id now d none ∷ [])) (sym f ∙ u)
    | inr (e, f, n, inl (q, k)) ↦
        Seen-outcome g table _
          (map-seen (is_current T (T.key_of d)) (λ r. T.refresh r d) g table gf
            ∙ sym (append_nil (map g table)))
          (sym k ∙ u)
    | inr (e, f, n, inr (q, k)) ↦
        Seen-outcome g table _
          (map-append g (update_current T (T.key_of d) T.retire table)
              (T.row_of id now d (some e) ∷ [])
            ∙ ap (λ t. t ++ (g (T.row_of id now d (some e)) ∷ []))
                (map-seen (is_current T (T.key_of d)) T.retire g table gr))
          (sym k ∙ u)
  ]
