-- ===== src/Facts/Upserts.antt =====
-- What `upsert_versioned` does to a table whose groups are histories.
use nse_agent.Common.{
  ℕ, suc, ◌+◌, ◌≡◌, refl, ◌∙◌, true, false, ◌&&◌, ◌⊎◌, inl, inr, none, some, List, [], ◌∷◌, ◌++◌,
  filter, any, length, ◌==◌, arith, Bool-cases,
}
use nse_agent.Facts.Rows.{filter-filter, any-filter}
use nse_agent.Facts.Versions.{
  Versioned, Laws, scalar_one_or_none, in_group, get_latest, update_current, add, write_version,
  upsert_versioned,
}
use nse_agent.Facts.Histories.{IsVersioned, find-latest, no_version}

module _ {Row Data Key : Type 0} (T : Versioned Row Data Key) (L : Laws T) where
  -- The group of a key has no rows, or a latest one.
  pub current-cases :
      (k : Key) (table : List Row)
      → IsVersioned T table
      → ((filter (in_group T k) table ≡ []) × (get_latest T k table ≡ some none))
        ⊎ ((e : Row) × (get_latest T k table ≡ some (some e))
            × (suc (T.version e) ≡ 1 + length (filter (in_group T k) table)))
  unfolding IsVersioned get_latest scalar_one_or_none
  current-cases k table h =
      let split : _ ≡ _ = filter-filter (in_group T k) T.is_latest table in
      elim (find-latest T 1 (filter (in_group T k) table) (h k)) [
        | inl (e, f) ↦ inl (e, rw (split, f) refl)
        | inr (e, f, n) ↦ inr (e, rw (split, f) refl, n)
      ]

  add-succeeds :
      (row : Row) (table : List Row)
      → IsVersioned T table
      → T.version row ≡ 1 + length (filter (in_group T (T.key row)) table)
      → add T row table ≡ some (table ++ (row ∷ []))
  unfolding add IsVersioned
  add-succeeds row table h n =
      let free : any (λ r. in_group T (T.key row) r && T.version r == T.version row) table ≡ false =
        any-filter (in_group T (T.key row)) (λ r. T.version r == T.version row) table
        ∙ no_version T 1 (T.version row) (filter (in_group T (T.key row)) table) (h (T.key row))
            n in
      rw free refl

  -- The three ways an upsert goes.
  pub upsert-cases :
      (id now : ℕ) (d : Data) (table : List Row)
      → IsVersioned T table
      → ((filter (in_group T (T.key_of d)) table ≡ [])
          × (upsert_versioned T id now d table
              ≡ some (T.row_of id now d none, true, table ++ (T.row_of id now d none ∷ []))))
        ⊎ ((e : Row) × (get_latest T (T.key_of d) table ≡ some (some e))
            × (suc (T.version e) ≡ 1 + length (filter (in_group T (T.key_of d)) table))
            × (((T.values_equal e d ≡ true)
                  × (upsert_versioned T id now d table
                      ≡ some (
                        T.refresh e d,
                        false,
                        update_current T (T.key_of d) (λ r. T.refresh r d) table,
                      )))
                ⊎ ((T.values_equal e d ≡ false)
                    × (upsert_versioned T id now d table
                        ≡ some (
                          T.row_of id now d (some e),
                          true,
                          update_current T (T.key_of d) T.retire table
                              ++ (T.row_of id now d (some e) ∷ []),
                        )))))
  unfolding upsert_versioned write_version
  upsert-cases id now d table h = elim (current-cases (T.key_of d) table h) [
    | inl (e, f) ↦
        let added : add T (T.row_of id now d none) table
            ≡ some (table ++ (T.row_of id now d none ∷ [])) =
          add-succeeds (T.row_of id now d none) table h
            (L.first_version id now d ∙ rw (L.key-row_of id now d none, e) refl) in
        inl (e, rw (f, added) refl)
    | inr (e, f, n) ↦
        let added : add T (T.row_of id now d (some e)) table
            ≡ some (table ++ (T.row_of id now d (some e) ∷ [])) =
          add-succeeds (T.row_of id now d (some e)) table h
            (L.next_version id now d e ∙ rw (L.key-row_of id now d (some e)) (omega (arith, n))) in
        inr (
          e,
          f,
          n,
          elim (Bool-cases (T.values_equal e d)) [
            | inl g ↦ inl (g, rw (f, g) refl)
            | inr g ↦ inr (g, rw (f, g, added) refl)
          ],
        )
  ]
