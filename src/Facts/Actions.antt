-- ===== src/Facts/Actions.antt =====
-- The rows of investing_agent/db/repositories/corporate_action.py as a versioned table, and their
-- verification against another source in investing_agent/services/verification.py.
use nse_agent.Common.{
  ℕ, ◌+◌, ◌≡◌, refl, Bool, true, false, not, ◌&&◌, Option, none, some, List, [], ◌∷◌, ℤ,
  if◌then◌else◌, ◌==◌, ==_refl, ==→≡,
}
use nse_agent.Facts.Versions.{Versioned, Laws}
use nse_agent.Facts.Financial.{VerificationTrail, same_value, same_decimal, same_bool}
use nse_agent.Facts.ResultLaws.{same_value_refl, same_decimal_refl, same_bool_refl, both}
use nse_agent.Facts.Verification.{amounts_differ, verified_trail}

pub data ActionType : Type 0 where
  dividend : ActionType
  bonus : ActionType
  split : ActionType
  buyback : ActionType
  rights : ActionType
  agm : ActionType
  board_meeting : ActionType
  other : ActionType

abbrev pub same_type : ActionType → ActionType → Bool
same_type ActionType.dividend ActionType.dividend = true
same_type ActionType.bonus ActionType.bonus = true
same_type ActionType.split ActionType.split = true
same_type ActionType.buyback ActionType.buyback = true
same_type ActionType.rights ActionType.rights = true
same_type ActionType.agm ActionType.agm = true
same_type ActionType.board_meeting ActionType.board_meeting = true
same_type ActionType.other ActionType.other = true
same_type _ _ = false

-- `_COMPARE_FIELDS`
pub record Terms : Type 0 where
  pub ex_date : Option ℕ
  pub record_date : Option ℕ
  pub payment_date : Option ℕ
  pub agm_date : Option ℕ
  pub amount : Option ℤ
  pub amount_currency : Option ℕ
  pub ratio : Option ℕ
  pub dividend_type : Option ℕ
  pub is_confirmed : Bool
  pub board_meeting_announced_at : Option ℕ
  pub board_meeting_date : Option ℕ
  pub expected_result_date : Option ℕ
  pub actual_result_published_at : Option ℕ

-- `CorporateActionCreate`
pub record CorporateActionCreate : Type 0 where
  pub company_id : ℕ
  pub symbol : ℕ
  pub action_type : ActionType
  pub announced_date : Option ℕ
  pub event_date : ℕ
  pub terms : Terms
  pub details : Option ℕ
  pub source_type : ℕ
  pub source_url : Option ℕ
  pub published_at : Option ℕ
  pub data_category : ℕ
  pub confidence : Option ℤ
  pub trail : VerificationTrail

-- A row of the table `corporate_actions`.
pub record ActionRow : Type 0 where
  pub id : ℕ
  pub company_id : ℕ
  pub symbol : ℕ
  pub action_type : ActionType
  pub announced_date : Option ℕ
  pub event_date : ℕ
  pub terms : Terms
  pub details : Option ℕ
  pub version : ℕ
  pub is_latest : Bool
  pub supersedes_id : Option ℕ
  pub source_type : ℕ
  pub source_url : Option ℕ
  pub published_at : Option ℕ
  pub available_at : ℕ
  pub data_category : ℕ
  pub confidence : Option ℤ
  pub trail : VerificationTrail

abbrev pub ActionKey : Type 0
ActionKey = ℕ × ActionType × ℕ × ℕ

-- `_values_equal` of corporate actions
unfoldable pub same_terms : Terms → Terms → Bool
same_terms a b =
    same_value a.ex_date b.ex_date
    && same_value a.record_date b.record_date
    && same_value a.payment_date b.payment_date
    && same_value a.agm_date b.agm_date
    && same_decimal a.amount b.amount
    && same_value a.amount_currency b.amount_currency
    && same_value a.ratio b.ratio
    && same_value a.dividend_type b.dividend_type
    && same_bool a.is_confirmed b.is_confirmed
    && same_value a.board_meeting_announced_at b.board_meeting_announced_at
    && same_value a.board_meeting_date b.board_meeting_date
    && same_value a.expected_result_date b.expected_result_date
    && same_value a.actual_result_published_at b.actual_result_published_at

abbrev pub next_action_version : Option ActionRow → ℕ
next_action_version none = 1
next_action_version (some existing) = existing.version + 1

abbrev pub superseded_action : Option ActionRow → Option ℕ
superseded_action none = none
superseded_action (some existing) = some existing.id

-- `CorporateAction(...)`: the database generates `id` and the time of availability.
abbrev pub action_row : ℕ → ℕ → CorporateActionCreate → Option ActionRow → ActionRow
action_row id now d existing = record {
  id = id;
  company_id = d.company_id;
  symbol = d.symbol;
  action_type = d.action_type;
  announced_date = d.announced_date;
  event_date = d.event_date;
  terms = d.terms;
  details = d.details;
  version = next_action_version existing;
  is_latest = true;
  supersedes_id = superseded_action existing;
  source_type = d.source_type;
  source_url = d.source_url;
  published_at = d.published_at;
  available_at = now;
  data_category = d.data_category;
  confidence = d.confidence;
  trail = d.trail;
}

-- The versioned table of corporate actions: an unchanged row is returned as it is.
abbrev pub action_table : Versioned ActionRow CorporateActionCreate ActionKey
action_table = record {
  key = λ r. (r.company_id, r.action_type, r.event_date, r.source_type);
  key_of = λ d. (d.company_id, d.action_type, d.event_date, d.source_type);
  same = λ (c, a, e, s) (c', a', e', s'). c == c' && same_type a a' && e == e' && s == s';
  version = λ r. r.version;
  is_latest = λ r. r.is_latest;
  available_at = λ r. r.available_at;
  values_equal = λ r d. same_terms r.terms d.terms;
  row_of = action_row;
  retire = λ r. record r { is_latest = false };
  refresh = λ r d. r;
}

same_type_refl : (a : ActionType) → same_type a a ≡ true
same_type_refl ActionType.dividend = refl
same_type_refl ActionType.bonus = refl
same_type_refl ActionType.split = refl
same_type_refl ActionType.buyback = refl
same_type_refl ActionType.rights = refl
same_type_refl ActionType.agm = refl
same_type_refl ActionType.board_meeting = refl
same_type_refl ActionType.other = refl

same_type→≡ : (a b : ActionType) → same_type a b ≡ true → a ≡ b
same_type→≡ ActionType.dividend ActionType.dividend h = refl
same_type→≡ ActionType.bonus ActionType.bonus h = refl
same_type→≡ ActionType.split ActionType.split h = refl
same_type→≡ ActionType.buyback ActionType.buyback h = refl
same_type→≡ ActionType.rights ActionType.rights h = refl
same_type→≡ ActionType.agm ActionType.agm h = refl
same_type→≡ ActionType.board_meeting ActionType.board_meeting h = refl
same_type→≡ ActionType.other ActionType.other h = refl
same_type→≡ _ _ h = cc

same_action_key→≡ : (j k : ActionKey) → action_table.same j k ≡ true → j ≡ k
same_action_key→≡ (c, a, e, s) (c', a', e', s') h =
    let (h', hs) = both (c == c' && same_type a a' && e == e') (s == s') h in
    let (h'', he) = both (c == c' && same_type a a') (e == e') h' in
    let (hc, ha) = both (c == c') (same_type a a') h'' in
    let ec : c ≡ c' = ==→≡ c c' hc in
    let ea : a ≡ a' = same_type→≡ a a' ha in
    let ee : e ≡ e' = ==→≡ e e' he in let es : s ≡ s' = ==→≡ s s' hs in cc

same_action_key_refl : (k : ActionKey) → action_table.same k k ≡ true
same_action_key_refl (c, a, e, s) = simp (==_refl, same_type_refl)

same_terms_refl : (a : Terms) → same_terms a a ≡ true
unfolding same_terms
same_terms_refl a = simp (same_value_refl, same_decimal_refl, same_bool_refl)

pub action_table-Laws : Laws action_table
action_table-Laws = record {
  same_refl = same_action_key_refl;
  same→≡ = same_action_key→≡;
  key-row_of = λ id now d e. refl;
  is_latest-row_of = λ id now d e. refl;
  first_version = λ id now d. refl;
  next_version = λ id now d e. refl;
  values_equal-row_of = λ id now d e. same_terms_refl d.terms;
  values_equal-refresh = λ r d d'. refl;
  refresh-row_of = λ id now d e. refl;
  refresh-refresh = λ r d. refl;
  key-retire = λ r. refl;
  version-retire = λ r. refl;
  is_latest-retire = λ r. refl;
  key-refresh = λ r d. refl;
  version-refresh = λ r d. refl;
  is_latest-refresh = λ r d. refl;
}

-- `verify_corporate_action_cross_source`. `note` is the text that names the source.
unfoldable pub verify_corporate_action_cross_source :
    (ℕ → ℕ) → ℕ → CorporateActionCreate → List CorporateActionCreate → CorporateActionCreate
verify_corporate_action_cross_source note now primary [] = primary
verify_corporate_action_cross_source note now primary (candidate ∷ candidates) =
    let rest = verify_corporate_action_cross_source note now primary candidates in
    if candidate.source_type == primary.source_type
    then rest
    else (if not (same_type candidate.action_type primary.action_type)
        then rest
        else (if not (same_value candidate.terms.ex_date primary.terms.ex_date)
            then rest
            else (if amounts_differ primary.terms.amount candidate.terms.amount
                then rest
                else record primary {
                  trail = verified_trail now (note candidate.source_type) primary.trail;
                })))
