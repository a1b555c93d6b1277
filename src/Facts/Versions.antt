-- ===== src/Facts/Versions.antt =====
-- The versioning of fact tables, which investing_agent/db/repositories/financial.py and
-- corporate_action.py share: the queries and the upsert, over what a table says of its rows.
use nse_agent.Common.{
  ℕ, ◌+◌, ◌≡◌, Bool, true, false, ◌&&◌, Option, none, some, List, [], ◌∷◌, ◌++◌, map, filter, any,
  if◌then◌else◌, ltb, leb, ◌==◌,
}
use nse_agent.Common.Options.{◌>>=◌}
use nse_agent.Common.Sorting.{sort_by}

-- `Result.scalar_one_or_none()`: more than one row raises.
unfoldable pub scalar_one_or_none {ℓ} : {A : Type ℓ} → List A → Option (Option A)
scalar_one_or_none [] = some none
scalar_one_or_none (r ∷ []) = some (some r)
scalar_one_or_none (_ ∷ _ ∷ _) = none

-- `Result.first()` of a query with `limit(1)`
abbrev pub first {ℓ} : {A : Type ℓ} → List A → Option A
first [] = none
first (r ∷ _) = some r

-- What a fact table is: its rows, the data that is ingested, and the columns that group versions.
-- `row_of id now data existing` is the row that is inserted for the data when `existing` is the
-- latest row of its group; the database generates its id and its default time.
pub record Versioned (Row Data Key : Type 0) : Type 0 where
  pub key : Row → Key
  pub key_of : Data → Key
  pub same : Key → Key → Bool
  pub version : Row → ℕ
  pub is_latest : Row → Bool
  pub available_at : Row → ℕ
  pub values_equal : Row → Data → Bool
  pub row_of : ℕ → ℕ → Data → Option Row → Row
  pub retire : Row → Row
  pub refresh : Row → Data → Row

-- What the versioning relies on.
pub record Laws {Row Data Key : Type 0} (T : Versioned Row Data Key) : Type 0 where
  pub same_refl : (k : Key) → T.same k k ≡ true
  pub same→≡ : (j k : Key) → T.same j k ≡ true → j ≡ k
  pub key-row_of :
      (id now : ℕ) (d : Data) (e : Option Row) → T.key (T.row_of id now d e) ≡ T.key_of d
  pub is_latest-row_of :
      (id now : ℕ) (d : Data) (e : Option Row) → T.is_latest (T.row_of id now d e) ≡ true
  pub first_version : (id now : ℕ) (d : Data) → T.version (T.row_of id now d none) ≡ 1
  pub next_version :
      (id now : ℕ) (d : Data) (e : Row) → T.version (T.row_of id now d (some e)) ≡ T.version e + 1
  pub values_equal-row_of :
      (id now : ℕ) (d : Data) (e : Option Row) → T.values_equal (T.row_of id now d e) d ≡ true
  pub values_equal-refresh :
      (r : Row) (d d' : Data) → T.values_equal (T.refresh r d') d ≡ T.values_equal r d
  pub refresh-row_of :
      (id now : ℕ) (d : Data) (e : Option Row)
      → T.refresh (T.row_of id now d e) d ≡ T.row_of id now d e
  pub refresh-refresh : (r : Row) (d : Data) → T.refresh (T.refresh r d) d ≡ T.refresh r d
  pub key-retire : (r : Row) → T.key (T.retire r) ≡ T.key r
  pub version-retire : (r : Row) → T.version (T.retire r) ≡ T.version r
  pub is_latest-retire : (r : Row) → T.is_latest (T.retire r) ≡ false
  pub key-refresh : (r : Row) (d : Data) → T.key (T.refresh r d) ≡ T.key r
  pub version-refresh : (r : Row) (d : Data) → T.version (T.refresh r d) ≡ T.version r
  pub is_latest-refresh : (r : Row) (d : Data) → T.is_latest (T.refresh r d) ≡ T.is_latest r

module _ {Row Data Key : Type 0} (T : Versioned Row Data Key) where
  abbrev pub in_group : Key → Row → Bool
  in_group k r = T.same (T.key r) k

  abbrev pub is_current : Key → Row → Bool
  is_current k r = in_group k r && T.is_latest r

  -- `get_latest`: `none` is an exception.
  unfoldable pub get_latest : Key → List Row → Option (Option Row)
  get_latest k table = scalar_one_or_none (filter (is_current k) table)

  -- An assignment to the object that `get_latest` has found.
  unfoldable pub update_current : Key → (Row → Row) → List Row → List Row
  update_current k f table = map (λ r. if is_current k r then f r else r) table

  -- `BaseRepository.add`, which flushes: the unique constraint on group and version raises.
  unfoldable pub add : Row → List Row → Option (List Row)
  add row table =
      if any (λ r. in_group (T.key row) r && T.version r == T.version row) table
      then none
      else some (table ++ (row ∷ []))

  -- the body of `upsert_versioned` after the query
  unfoldable pub write_version :
      ℕ → ℕ → Data → Option Row → List Row → Option (Row × Bool × List Row)
  write_version id now d none table = do
    added ← add (T.row_of id now d none) table
    some (T.row_of id now d none, true, added)
  write_version id now d (some e) table =
      if T.values_equal e d
      then some (T.refresh e d, false, update_current (T.key_of d) (λ r. T.refresh r d) table)
      else (do
        _ ← add (T.row_of id now d (some e)) table
        some (
          T.row_of id now d (some e),
          true,
          update_current (T.key_of d) T.retire table ++ (T.row_of id now d (some e) ∷ []),
        ))

  -- `upsert_versioned`: the row, whether it is a new version, and the table
  unfoldable pub upsert_versioned : ℕ → ℕ → Data → List Row → Option (Row × Bool × List Row)
  upsert_versioned id now d table = do
    existing ← get_latest (T.key_of d) table
    write_version id now d existing table

  -- `get_history`: all versions, oldest first
  unfoldable pub get_history : Key → List Row → List Row
  get_history k table = sort_by (λ a b. leb (T.version a) (T.version b)) (filter (in_group k) table)

  -- `get_as_of`: the highest version of a group that was available
  unfoldable pub get_as_of : Key → ℕ → List Row → Option Row
  get_as_of k as_of table = first (
      sort_by (λ a b. leb (T.version b) (T.version a))
        (filter (λ r. in_group k r && leb (T.available_at r) as_of) table))

  -- `latest_per_group[key] = row`, if there is none or its version is lower
  unfoldable pub keep_higher : Row → List Row → List Row
  keep_higher row [] = row ∷ []
  keep_higher row (current ∷ rest) =
      if in_group (T.key row) current
      then (if ltb (T.version current) (T.version row) then row ∷ rest else current ∷ rest)
      else current ∷ keep_higher row rest

  unfoldable pub latest_per_group : List Row → List Row → List Row
  latest_per_group kept [] = kept
  latest_per_group kept (row ∷ rows) = latest_per_group (keep_higher row kept) rows

  -- `list_by_company_as_of`: `of_company` tests the company of a row
  unfoldable pub list_by_company_as_of : (Row → Bool) → ℕ → List Row → List Row
  list_by_company_as_of of_company as_of table =
      latest_per_group [] (filter (λ r. of_company r && leb (T.available_at r) as_of) table)
