-- ===== src/Facts/Histories.antt =====
-- The histories of a versioned table: what `upsert_versioned` keeps and what it does.
use nse_agent.Common.{
  ℕ, suc, ◌+◌, ◌≡◌, refl, sym, ap, ◌∙◌, Bool, true, false, ◌⊎◌, inl, inr, List, [], ◌∷◌, ◌++◌, map,
  filter, any, length, if◌then◌else◌, ◌==◌, arith, Bool-cases,
}
use nse_agent.Facts.Versions.{Versioned, Laws, in_group, update_current}

abbrev pub is_empty {ℓ} : {A : Type ℓ} → List A → Bool
is_empty [] = true
is_empty (_ ∷ _) = false

module _ {Row Data Key : Type 0} (T : Versioned Row Data Key) where
  -- The versions count up from `v`, and exactly the last row is the latest one.
  abbrev pub IsHistory : ℕ → List Row → Type 0
  IsHistory v [] = Unit
  IsHistory v (r ∷ rs) = (T.version r ≡ v) × (T.is_latest r ≡ is_empty rs) × IsHistory (suc v) rs

  -- In each group the versions are 1, 2, 3, … in the order in which they were written, and exactly
  -- the last is the latest one.
  unfoldable pub IsVersioned : List Row → Type 0
  IsVersioned table = (k : Key) → IsHistory 1 (filter (in_group T k) table)

  -- An assignment to the latest of the rows of a group.
  unfoldable pub assign : (Row → Row) → List Row → List Row
  assign f rs = map (λ r. if T.is_latest r then f r else r) rs

  pub find-latest :
      (v : ℕ) (rs : List Row)
      → IsHistory v rs
      → ((rs ≡ []) × (filter T.is_latest rs ≡ []))
        ⊎ ((e : Row) × (filter T.is_latest rs ≡ e ∷ []) × (suc (T.version e) ≡ v + length rs))
  find-latest v [] h = inl (refl, refl)
  find-latest v (r ∷ []) (hv, hl, _) = inr (r, rw hl, omega (arith, hv))
  find-latest v (r ∷ s ∷ rs) (hv, hl, h) = elim (find-latest (suc v) (s ∷ rs) h) [
    | inl (e, _) ↦ cc
    | inr (e, f, n) ↦ inr (e, rw hl f, omega (arith, n))
  ]

  pub no_version :
      (v n : ℕ) (rs : List Row)
      → IsHistory v rs
      → n ≡ v + length rs
      → any (λ r. T.version r == n) rs ≡ false
  no_version v n [] h e = refl
  no_version v n (r ∷ rs) (hv, hl, h) e =
      ground (arith, no_version (suc v) n rs h (omega (arith, e)))

  -- A new version after a history whose latest row has been retired.
  pub IsHistory-successor :
      (L : Laws T) (v : ℕ) (rs : List Row) (row : Row)
      → IsHistory v rs
      → T.version row ≡ v + length rs
      → T.is_latest row ≡ true
      → IsHistory v (assign T.retire rs ++ (row ∷ []))
  unfolding assign
  IsHistory-successor L v [] row h e l = (omega (arith, e), l, tt)
  IsHistory-successor L v (r ∷ []) row (hv, hl, _) e l =
      rw hl (L.version-retire r ∙ hv, L.is_latest-retire r, (omega (arith, e), l, tt))
  IsHistory-successor L v (r ∷ s ∷ rs) row (hv, hl, h) e l =
      rw hl (hv, hl, IsHistory-successor L (suc v) (s ∷ rs) row h (omega (arith, e)) l)

  -- An assignment that leaves the version and the mark as they are.
  pub IsHistory-assign :
      (f : Row → Row) (v : ℕ) (rs : List Row)
      → ((r : Row) → T.version (f r) ≡ T.version r)
      → ((r : Row) → T.is_latest (f r) ≡ T.is_latest r)
      → IsHistory v rs
      → IsHistory v (assign f rs)
  unfolding assign
  IsHistory-assign f v [] ev el h = tt
  IsHistory-assign f v (r ∷ []) ev el (hv, hl, _) = rw hl (ev r ∙ hv, el r ∙ hl, tt)
  IsHistory-assign f v (r ∷ s ∷ rs) ev el (hv, hl, h) =
      rw hl (hv, hl, IsHistory-assign f (suc v) (s ∷ rs) ev el h)

  module _ (L : Laws T) where
    same_group : (k j : Key) (r : Row) → in_group T k r ≡ true → in_group T j r ≡ true → k ≡ j
    same_group k j r h g = sym (L.same→≡ (T.key r) k h) ∙ L.same→≡ (T.key r) j g

    -- An assignment to the current row of a group, seen from that group and from another.
    pub group-update_current :
        (k : Key) (f : Row → Row) (table : List Row)
        → ((r : Row) → T.key (f r) ≡ T.key r)
        → filter (in_group T k) (update_current T k f table)
          ≡ assign f (filter (in_group T k) table)
    unfolding update_current assign
    group-update_current k f [] e = refl
    group-update_current k f (r ∷ rs) e =
        let rest : _ ≡ _ = group-update_current k f rs e in
        let moved : in_group T k (f r) ≡ in_group T k r = ap (λ j. T.same j k) (e r) in
        ground (arith, rest, moved)

    pub others-update_current :
        (k j : Key) (f : Row → Row) (table : List Row)
        → T.same k j ≡ false
        → ((r : Row) → T.key (f r) ≡ T.key r)
        → filter (in_group T j) (update_current T k f table) ≡ filter (in_group T j) table
    unfolding update_current
    others-update_current k j f [] n e = refl
    others-update_current k j f (r ∷ rs) n e =
        let rest : _ ≡ _ = others-update_current k j f rs n e in
        let moved : in_group T j (f r) ≡ in_group T j r = ap (λ i. T.same i j) (e r) in
        elim (Bool-cases (in_group T k r)) [
          | inl g ↦
              let other : in_group T j r ≡ false =
                ap (λ i. T.same i j) (L.same→≡ (T.key r) k g) ∙ n in
              ground (arith, rest, moved, other)
          | inr g ↦ ground (arith, rest)
        ]
