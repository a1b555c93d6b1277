-- ===== src/Facts/Calendars.antt =====
-- The calendars of investing_agent/db/repositories/corporate_action.py, and the versions of
-- corporate actions.
use nse_agent.Common.{
  ℕ, ◌+◌, ◌≡◌, Bool, true, false, ◌&&◌, Option, none, some, List, [], ◌∷◌, filter, any, ◌==◌, leb,
  or_default,
}
use nse_agent.Common.Sorting.{sort_by}
use nse_agent.Facts.Versions.{upsert_versioned}
use nse_agent.Facts.Histories.{IsVersioned}
use nse_agent.Facts.Versioning.{upsert-upsert}
use nse_agent.Facts.Actions.{
  ActionType, ActionRow, CorporateActionCreate, same_type, action_table, action_table-Laws,
}

-- `list_by_company` of corporate actions
unfoldable pub list_actions : ℕ → Option ActionType → List ActionRow → List ActionRow
list_actions company none table = filter (λ r. r.company_id == company && r.is_latest) table
list_actions company (some action_type) table =
    filter (λ r. r.company_id == company && r.is_latest && same_type r.action_type action_type)
      table

-- `if as_of:` and `if company_ids:`, which an empty list does not pass
abbrev pub available_by : Option ℕ → ActionRow → Bool
available_by none r = true
available_by (some as_of) r = leb r.available_at as_of

abbrev pub among : List ℕ → ℕ → Bool
among [] company = true
among (c ∷ cs) company = any (λ i. i == company) (c ∷ cs)

abbrev pub between : ℕ → ℕ → Option ℕ → Bool
between from until none = false
between from until (some day) = leb from day && leb day until

abbrev pub from_day : ℕ → Option ℕ → Bool
from_day from none = false
from_day from (some day) = leb from day

abbrev pub by_date : Option ℕ → Option ℕ → Bool
by_date a b = leb (or_default a 0) (or_default b 0)

module _ (date_of : ℕ → ℕ) where
  -- `get_dividend_calendar` at the instant `now`
  unfoldable pub get_dividend_calendar : ℕ → List ℕ → ℕ → Option ℕ → List ActionRow → List ActionRow
  get_dividend_calendar now company_ids days as_of table =
      let today = date_of (or_default as_of now) in
      sort_by (λ a b. by_date a.terms.ex_date b.terms.ex_date)
        (filter
          (λ r.
            same_type r.action_type ActionType.dividend
            && r.is_latest
            && between today (today + days) r.terms.ex_date
            && available_by as_of r
            && among company_ids r.company_id)
          table)

  -- `get_result_calendar` at the instant `now`
  unfoldable pub get_result_calendar : ℕ → List ℕ → Option ℕ → List ActionRow → List ActionRow
  get_result_calendar now company_ids as_of table =
      let today = date_of (or_default as_of now) in
      sort_by (λ a b. by_date a.terms.expected_result_date b.terms.expected_result_date)
        (filter
          (λ r.
            r.is_latest
            && from_day today r.terms.expected_result_date
            && available_by as_of r
            && among company_ids r.company_id)
          table)

-- Where the versions of each group are 1, 2, 3, … in the order of writing and exactly the last is
-- the latest one, ingesting a corporate action again returns its row, reports no new version and
-- leaves the table as it is.
pub upsert_action-twice :
    (id now id' now' : ℕ) (d : CorporateActionCreate) (table : List ActionRow) (row : ActionRow)
    (added : Bool) (after : List ActionRow)
    → IsVersioned action_table table
    → upsert_versioned action_table id now d table ≡ some (row, added, after)
    → upsert_versioned action_table id' now' d after ≡ some (row, false, after)
upsert_action-twice = upsert-upsert action_table action_table-Laws
