-- ===== src/Recommend/Tests.antt =====
-- The theorems on the recommendation engine at concrete tables.
use native.Mathlib.Omega.{arith}
use nse_agent.Common.{
  ℕ, ◌/◌, ◌≡◌, true, false, none, some, List, [], ◌∷◌, ℤ, pos, pos_part, ◌*ℤ◌, Option, is_some,
}
use nse_agent.Common.Sorting.{insert_by, sorted_set}
use nse_agent.Common.Decimals.{Context}
use nse_agent.Recommend.Types.{
  ThesisStatus, Thesis, ValuationSnapshot, EstimateRun, Holding, Evidence, RecommendationDecision,
  BaseAction, Reason, EvidenceLink,
}
use nse_agent.Recommend.Policy.{decide, is_stale, is_small, weight_of}
use nse_agent.Recommend.Generate.{
  Tables, AccountContext, gather, generate, held_of, total_of, symbols_of, get_active, latest,
  latest_valuation, latest_estimate, active_risks, find_company,
}
use nse_agent.Recommend.Choice.{buys, adds, decide-buys, decide-adds}
use nse_agent.Recommend.Runs.{with_later, generate-fails, generate-later}

abbrev whole : Context
whole = record { one = pos 1; product = ◌*ℤ◌; quotient = λ a b. pos (pos_part a / pos_part b) }

abbrev thesis : Thesis
thesis = record {
  id = 1;
  symbol = 7;
  status = ThesisStatus.active;
  thesis_version = 1;
  supersedes_thesis_id = none;
}

abbrev valuation : ℕ → ValuationSnapshot
valuation as_of = record {
  id = 2;
  company_id = 5;
  as_of = as_of;
  current_price = some (pos 80);
  fair_value_mid = some (pos 100);
}

abbrev estimate : ℕ → EstimateRun
estimate cutoff_at = record {
  id = 3;
  company_id = 5;
  cutoff_at = cutoff_at;
  confidence = some (pos 1);
}

abbrev holding : Option ℤ → Holding
holding value = record { symbol = 7; quantity = pos 10; current_value = value }

abbrev tables : Tables
tables = record {
  companies = record { id = 5; symbol = 7 } ∷ [];
  valuations = valuation 100 ∷ [];
  estimates = estimate 90 ∷ [];
  risks = [];
  theses = thesis ∷ [];
  watchlist = 7 ∷ [];
}

abbrev account : Option ℤ → AccountContext
account value = record {
  holdings = (7, holding value) ∷ [];
  watchlist_symbols = [];
  total_market_value = some (pos 50);
}

abbrev evidence : Option Holding → Evidence
evidence held = record {
  company = some record { id = 5; symbol = 7 };
  holding = held;
  thesis = some thesis;
  valuation = some (valuation 100);
  estimate = some (estimate 90);
  risks = [];
}

decide-buys_example : buys (decide whole (pos 50) 100 7 (evidence none)) ≡ true
unfolding is_stale
decide-buys_example = decide-buys whole (pos 50) 100 7 (evidence none)

decide-adds_example :
    adds (decide whole (pos 50) 100 7 (evidence (some (holding (some (pos 4)))))) ≡ true
unfolding is_stale weight_of is_small ◌*ℤ◌
decide-adds_example = decide-adds whole (pos 50) 100 7 (evidence (some (holding (some (pos 4)))))

generate-fails_example : is_some (generate whole tables 100 none (some (account none)) none) ≡ false
unfolding is_stale gather symbols_of sorted_set held_of total_of get_active latest latest_valuation
    latest_estimate active_risks find_company insert_by
generate-fails_example = generate-fails whole tables 100 none (some (account none)) none

abbrev bought : List RecommendationDecision
bought =
    record {
      company_id = some 5;
      symbol = 7;
      base_action = BaseAction.buy;
      final_action = BaseAction.buy;
      confidence = some (pos 1);
      data_gaps = [];
      evidence_summary = Reason.supportive_for_buy ∷ [];
      active_risks = 0;
      hard_risk = false;
      is_held = false;
      concentration_pct = pos 0;
      evidence_links =
          EvidenceLink.thesis_link 1
          ∷ EvidenceLink.estimate_link 3
          ∷ EvidenceLink.valuation_link 2
          ∷ [];
    }
    ∷ []

generate-later_example :
    generate whole (with_later tables (valuation 101 ∷ []) (estimate 102 ∷ [])) 100 none none none
    ≡ generate whole tables 100 none none none
generate-later_example =
    generate-later whole tables 100 none none none (valuation 101 ∷ []) (estimate 102 ∷ [])
      (omega arith, tt) (omega arith, tt)
