-- ===== src/Facts/Succession.antt =====
-- Theses succeed each other: what `create_active_thesis` of
-- investing_agent/services/active_theses.py does to the table of theses.
use nse_agent.Common.{
  ℕ, ◌+◌, ◌≡◌, ◌<◌, refl, ap, ◌∙◌, Bool, true, false, not, ◌&&◌, ◌||◌, inl, inr, Option, none, some,
  List, [], ◌∷◌, ◌++◌, filter, any, ◌==◌, ==_refl, ==→≡, arith, All, All-filter, Bool-cases,
  Option-cases,
}
use nse_agent.Facts.Rows.{filter-append, any-append, any-none, All-part, All-implies}
use nse_agent.Facts.ResultLaws.{both}
use nse_agent.Facts.Highest.{
  All-subset, newest, newest-append, newest-none, newest-bound, All-newest,
}
use nse_agent.Recommend.Types.{Company}
use nse_agent.Recommend.Generate.{find_company}
use nse_agent.Facts.Theses.{
  Status, EvidenceRef, InvestmentThesis, is_open, is_successor, is_candidate, active_thesis,
  create_thesis, update_thesis, successor_of, thesis_of,
}
use nse_agent.Facts.Evidence.{
  ThesisText, EvidenceTables, write_thesis, new_payload, update_payload, create_active_thesis,
  create_active_thesis-eq-inr,
}

fewer : (a b c : Bool) → (a && not (b || c)) ≡ true → (a && not b) ≡ true
fewer true true c h = cc
fewer true false c h = refl
fewer false b c h = cc

-- A thesis that nothing supersedes, with a higher version than all candidates, is the active one
-- once it is appended.
active-append :
    (user symbol : ℕ) (table : List InvestmentThesis) (t : InvestmentThesis)
    → ((t.user_id == user && t.symbol == symbol && is_open t.status) ≡ true)
    → All (λ r. is_successor t.id r ≡ false) table
    → is_successor t.id t ≡ false
    → All (λ r. r.thesis_version < t.thesis_version) (filter (is_candidate user symbol table) table)
    → active_thesis user symbol (table ++ (t ∷ [])) ≡ some t
unfolding active_thesis
active-append user symbol table t h fresh self low =
    let p = is_candidate user symbol table in
    let q = is_candidate user symbol (table ++ (t ∷ [])) in
    let unsuperseded : any (is_successor t.id) (table ++ (t ∷ [])) ≡ false =
      any-append (is_successor t.id) table (t ∷ [])
      ∙ ap (λ b. b || any (is_successor t.id) (t ∷ [])) (any-none (is_successor t.id) table fresh)
      ∙ ground (arith, self) in
    let chosen : q t ≡ true = rw (h, unsuperseded) refl in
    let last : filter q (t ∷ []) ≡ t ∷ [] = rw chosen refl in
    let before : filter q (table ++ (t ∷ [])) ≡ filter q table ++ (t ∷ []) =
      filter-append q table (t ∷ []) ∙ ap (λ ys. filter q table ++ ys) last in
    ap (newest (λ r. r.thesis_version)) before
    ∙ newest-append (λ r. r.thesis_version) (filter q table) t
        (All-subset (λ r. r.thesis_version < t.thesis_version) p q table
          (λ r e.
            fewer _ (any (is_successor r.id) table) (any (is_successor r.id) (t ∷ []))
              (rw (any-append (is_successor r.id) table (t ∷ [])) at e))
          low)

find_company-symbol :
    (symbol : ℕ) (companies : List Company) (c : Company)
    → find_company symbol companies ≡ some c
    → c.symbol ≡ symbol
unfolding find_company
find_company-symbol symbol [] c h = cc
find_company-symbol symbol (d ∷ ds) c h = elim (Bool-cases (d.symbol == symbol)) [
  | inl e ↦
      let same : some d ≡ some c = rw e at h in
      let itself : d ≡ c = cc in rw (← itself) (==→≡ d.symbol symbol e)
  | inr e ↦ find_company-symbol symbol ds c (rw e at h)
]

abbrev version_above : Option InvestmentThesis → ℕ
version_above none = 1
version_above (some current) = current.thesis_version + 1

abbrev id_above : Option InvestmentThesis → Option ℕ
id_above none = none
id_above (some current) = some current.id

-- The thesis is the next in the succession, and the table keeps all its rows.
abbrev pub Succeeds :
    ℕ → ℕ → List InvestmentThesis → InvestmentThesis × List InvestmentThesis → Type 0
Succeeds user symbol table (t, after) =
    (after ≡ table ++ (t ∷ []))
    × (active_thesis user symbol after ≡ some t)
    × (t.thesis_version ≡ version_above (active_thesis user symbol table))
    × (t.supersedes_thesis_id ≡ id_above (active_thesis user symbol table))

first-Succeeds :
    (upper : ℕ → ℕ) (model id user as_of : ℕ) (company : Company) (symbol : ℕ) (text : ThesisText)
    (refs : List EvidenceRef) (table : List InvestmentThesis)
    → upper company.symbol ≡ symbol
    → All (λ r. is_successor id r ≡ false) table
    → active_thesis user symbol table ≡ none
    → active_thesis user symbol
        (table ++ (thesis_of upper id user (new_payload model company as_of text refs) ∷ []))
      ≡ some (thesis_of upper id user (new_payload model company as_of text refs))
unfolding active_thesis
first-Succeeds upper model id user as_of company symbol text refs table u fresh e =
    let t = thesis_of upper id user (new_payload model company as_of text refs) in
    let empty : filter (is_candidate user symbol table) table ≡ [] =
      newest-none (λ r. r.thesis_version) (filter (is_candidate user symbol table) table) e in
    active-append user symbol table t (rw (==_refl user, u, ==_refl symbol) refl) fresh refl
      (rw empty tt)

next-Succeeds :
    (model id user as_of symbol : ℕ) (text : ThesisText) (refs : List EvidenceRef)
    (table : List InvestmentThesis) (current : InvestmentThesis)
    → All (λ r. is_successor id r ≡ false) table
    → All (λ r. (r.id == id) ≡ false) table
    → active_thesis user symbol table ≡ some current
    → active_thesis user symbol
        (table ++ (successor_of id current (update_payload model as_of text refs) ∷ []))
      ≡ some (successor_of id current (update_payload model as_of text refs))
unfolding active_thesis
next-Succeeds model id user as_of symbol text refs table current fresh ids e =
    let p = is_candidate user symbol table in
    let version : InvestmentThesis → ℕ = λ r. r.thesis_version in
    let t = successor_of id current (update_payload model as_of text refs) in
    let candidate : p current ≡ true =
      All-newest version (λ r. p r ≡ true) (filter p table) current (All-filter p table) e in
    let (mine, _) =
      both (current.user_id == user && current.symbol == symbol && is_open current.status) _
        candidate in
    let (here, _) = both (current.user_id == user && current.symbol == symbol) _ mine in
    let other : (current.id == id) ≡ false =
      All-newest version (λ r. (r.id == id) ≡ false) (filter p table) current
        (All-part (λ r. (r.id == id) ≡ false) p table ids) e in
    active-append user symbol table t (rw here refl) fresh other (
      All-implies _ (λ r. r.thesis_version < t.thesis_version) (filter p table)
        (λ r le. omega (arith, le)) (newest-bound version (filter p table) current e))

write_thesis-Succeeds :
    (upper : ℕ → ℕ) (model id user as_of : ℕ) (company : Company) (symbol : ℕ) (text : ThesisText)
    (refs : List EvidenceRef) (table : List InvestmentThesis)
    → upper company.symbol ≡ symbol
    → All (λ r. is_successor id r ≡ false) table
    → All (λ r. (r.id == id) ≡ false) table
    → Succeeds user symbol table (
        write_thesis upper model id user company as_of text refs
          (active_thesis user symbol table)
          table)
unfolding write_thesis create_thesis update_thesis
write_thesis-Succeeds upper model id user as_of company symbol text refs table u fresh ids =
    elim (Option-cases (active_thesis user symbol table)) [
      | inl e ↦ rw e (
        refl,
        first-Succeeds upper model id user as_of company symbol text refs table u fresh e,
        refl,
        refl,
      )
      | inr (current, e) ↦ rw e (
        refl,
        next-Succeeds model id user as_of symbol text refs table current fresh ids e,
        refl,
        refl,
      )
    ]

write_thesis-active :
    (upper : ℕ → ℕ) (model id user as_of : ℕ) (company : Company) (text : ThesisText)
    (refs : List EvidenceRef) (current : Option InvestmentThesis) (table : List InvestmentThesis)
    → (write_thesis upper model id user company as_of text refs current table).0.status
      ≡ Status.active
unfolding write_thesis create_thesis update_thesis
write_thesis-active upper model id user as_of company text refs none table = refl
write_thesis-active upper model id user as_of company text refs (some current) table = refl

-- If no thesis has or supersedes the id that the database generates, and the upper case of an upper
-- case is itself, then an active thesis that is created is appended to the table, no row of which
-- is changed; it is the one that get_active finds afterwards, its version is one above that of the
-- thesis that was active before, which it supersedes, and it is active; where none was active, its
-- version is 1 and it supersedes none.
pub create_active_thesis-Succeeds :
    (upper : ℕ → ℕ) (model id user symbol as_of : ℕ) (text : ThesisText)
    (result_ids document_ids : List ℕ) (tables : EvidenceTables) (table : List InvestmentThesis)
    (created : InvestmentThesis × List InvestmentThesis)
    → ((s : ℕ) → upper (upper s) ≡ upper s)
    → All (λ r. is_successor id r ≡ false) table
    → All (λ r. (r.id == id) ≡ false) table
    → create_active_thesis upper model id user symbol as_of text result_ids document_ids tables
        table
      ≡ inr created
    → Succeeds user (upper symbol) table created × (created.0.status ≡ Status.active)
unfolding create_active_thesis
create_active_thesis-Succeeds upper model id user symbol as_of text result_ids document_ids tables
      table created twice fresh ids h =
    let (company, refs, e, _, w) =
      create_active_thesis-eq-inr upper model id user symbol as_of text result_ids document_ids
        tables table created h in
    let named : company.symbol ≡ upper symbol =
      find_company-symbol (upper symbol) tables.companies company e in
    let upper_case : upper company.symbol ≡ upper symbol = ap upper named ∙ twice symbol in
    rw (← w, upper_case)
      (
        write_thesis-Succeeds upper model id user as_of company (upper symbol) text refs table
            upper_case fresh ids,
        write_thesis-active upper model id user as_of company text refs
            (active_thesis user (upper symbol) table) table,
      )
