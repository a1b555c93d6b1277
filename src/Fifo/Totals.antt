-- ===== src/Fifo/Totals.antt =====
-- Sums over the lots of a replay: the quantity held of a symbol, and its realized profit.
use nse_agent.Common.{
  ℕ, zero, suc, ◌≡◌, refl, some, List, [], ◌∷◌, ◌++◌, map, ℤ, pos, ◌+ℤ◌, ◌≤ℤ◌, sum_ℤ, int_laws,
  get_elem?, set, filter, if◌then◌else◌, ◌==◌, arith,
}
use nse_agent.Fifo.Types.{Symbol, Lot, Replay}
use nse_agent.Fifo.Timeline.{is_open_lot, open_lots}
use nse_agent.Fifo.Queues.{open_positions}

-- The sum of a number of each lot.
unfoldable pub total_by : (Lot → ℤ) → List Lot → ℤ
total_by w [] = pos 0
total_by w (l ∷ ls) = w l +ℤ total_by w ls

pub total_by-set :
    (w : Lot → ℤ) (ls : List Lot) (i : ℕ) (lot lot' : Lot)
    → get_elem? ls i ≡ some lot
    → total_by w (set ls i lot') +ℤ w lot ≡ total_by w ls +ℤ w lot'
unfolding total_by
total_by-set w [] i lot lot' g = cc
total_by-set w (l ∷ ls) zero lot lot' g = grind int_laws
total_by-set w (l ∷ ls) (suc i) lot lot' g = grind (int_laws, total_by-set w ls i lot lot' g)

pub total_by-append :
    (w : Lot → ℤ) (ls : List Lot) (l : Lot) → total_by w (ls ++ l ∷ []) ≡ total_by w ls +ℤ w l
unfolding total_by
total_by-append w [] l = omega int_laws
total_by-append w (x ∷ ls) l = rw (total_by-append w ls l) (omega int_laws)

-- What a lot adds to the quantity held of a symbol.
abbrev pub open_part : Symbol → Lot → ℤ
open_part s l = if is_open_lot (some s) l then l.quantity_remaining else pos 0

-- The quantity held of a symbol.
abbrev pub held : Symbol → List Lot → ℤ
held s = total_by (open_part s)

sum-filter :
    (s : Symbol) (ls : List Lot)
    → sum_ℤ (map (λ l. l.quantity_remaining) (filter (is_open_lot (some s)) ls)) ≡ held s ls
unfolding total_by sum_ℤ
sum-filter s [] = refl
sum-filter s (l ∷ ls) = grind (int_laws, sum-filter s ls)

-- `sum((lot.quantity_remaining for lot in replay.open_lots(symbol)), Decimal("0"))`
pub held-open_lots :
    (s : Symbol) (r : Replay)
    → sum_ℤ (map (λ l. l.quantity_remaining) (open_lots (some s) r)) ≡ held s r.all_lots
unfolding open_lots
held-open_lots s r = sum-filter s r.all_lots

pub held_nonneg : (s : Symbol) (ls : List Lot) → pos 0 ≤ℤ held s ls
unfolding total_by
held_nonneg s [] = omega arith
held_nonneg s (l ∷ ls) = grind (int_laws, held_nonneg s ls)

pub held_none :
    (s : Symbol) (k : ℕ) (ls : List Lot) → open_positions s k ls ≡ [] → held s ls ≡ pos 0
unfolding total_by open_positions
held_none s k [] e = refl
held_none s k (l ∷ ls) e = grind (int_laws, held_none s (suc k) ls)

-- What a lot adds to the realized profit of a symbol.
abbrev pub realized_part : Symbol → Lot → ℤ
realized_part s l = if l.symbol == s then l.realized_pnl else pos 0

-- The realized profit of the lots of a symbol, open or closed.
abbrev pub realized : Symbol → List Lot → ℤ
realized s = total_by (realized_part s)
