-- ===== src/Recommend/Coverage.antt =====
-- Which symbols a run of current_recommendations.py decides on.
use nse_agent.Common.{ℕ, Bool, false, ◌||◌, Option, none, some, List, any, ◌==◌}
use nse_agent.Common.Maps.{Dict}
use nse_agent.Fifo.Types.{Symbol}
use nse_agent.Recommend.Types.{Holding}
use nse_agent.Recommend.Generate.{Tables, AccountContext, PortfolioSnapshot}

module _ (s : ℕ) where
  abbrev is_it : ℕ → Bool
  is_it r = r == s

abbrev pub is_held : Symbol → Dict Holding → Bool
is_held s held = any (λ h. h.0 == s) held

abbrev pub is_listed : Symbol → List Symbol → Bool
is_listed s listed = any (λ r. r == s) listed

-- Whether the portfolio snapshot has a holding of the symbol.
abbrev pub is_in_snapshot : Symbol → Option PortfolioSnapshot → Bool
is_in_snapshot s none = false
is_in_snapshot s (some snapshot) = any (λ h. h.symbol == s) snapshot.holdings

-- Whether a run is to decide on a symbol: it is one of those asked for or, if none are named, it
-- is held or on a watchlist, by the account where there is one.
abbrev pub is_wanted :
    Tables → Option (List Symbol) → Option AccountContext → Option PortfolioSnapshot → Symbol → Bool
is_wanted t (some symbols) account snapshot s = is_listed s symbols
is_wanted t none (some account) snapshot s =
    is_held s account.holdings || is_listed s account.watchlist_symbols
is_wanted t none none snapshot s = is_in_snapshot s snapshot || is_listed s t.watchlist
