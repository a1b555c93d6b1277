-- ===== src/Reconstruction/Cash.antt =====
-- The partial cash balance of replay.py of investing_agent/services/reconstruction, and its parts.
use mathlib.Core.List.{Perm, Permᴰ}
use mathlib.Core.Logic.{∥∥₁_elim}
use nse_agent.Common.{
  ◌≡◌, refl, Option, List, [], ◌∷◌, map, ℤ, pos, ◌+ℤ◌, ◌-ℤ◌, sum_ℤ, int_laws, ◌∙◌,
}
use nse_agent.Common.Decimals.{Context}
use nse_agent.Fifo.Types.{Date, TradeSide}
use nse_agent.Reconstruction.Trades.{
  HistoricalTrade, HistoricalCashFlow, cash_by_side, cash_of_trade, cash_from_trades,
  cash_balance_partial, compute_cash_breakdown,
}

-- The value of a trade, if it is a sale.
abbrev pub if_sold : TradeSide → ℤ → ℤ
if_sold TradeSide.sell value = value
if_sold TradeSide.buy value = pos 0

-- The value of a trade, if it is a purchase.
abbrev pub if_bought : TradeSide → ℤ → ℤ
if_bought TradeSide.buy value = value
if_bought TradeSide.sell value = pos 0

cash_by_side-eq-parts :
    (side : TradeSide) (value : ℤ)
    → cash_by_side side value ≡ if_sold side value -ℤ if_bought side value
cash_by_side-eq-parts TradeSide.buy value = omega int_laws
cash_by_side-eq-parts TradeSide.sell value = omega int_laws

module _ (ctx : Context) where
  unfoldable pub proceeds : List HistoricalTrade → ℤ
  proceeds [] = pos 0
  proceeds (t ∷ ts) = if_sold t.side (ctx.product t.quantity t.price) +ℤ proceeds ts

  unfoldable pub costs : List HistoricalTrade → ℤ
  costs [] = pos 0
  costs (t ∷ ts) = if_bought t.side (ctx.product t.quantity t.price) +ℤ costs ts

  -- The cash of all trades, as a plain sum.
  cash_sum : List HistoricalTrade → ℤ
  cash_sum [] = pos 0
  cash_sum (t ∷ ts) = cash_of_trade ctx t +ℤ cash_sum ts

  cash_from_trades-eq-sum :
      (cash : ℤ) (ts : List HistoricalTrade) → cash_from_trades ctx cash ts ≡ cash +ℤ cash_sum ts
  unfolding cash_from_trades cash_sum
  cash_from_trades-eq-sum cash [] = omega int_laws
  cash_from_trades-eq-sum cash (t ∷ ts) =
      rw (cash_from_trades-eq-sum (cash +ℤ cash_of_trade ctx t) ts) (omega int_laws)

  cash_sum-permᴰ : (xs ys : List HistoricalTrade) → Permᴰ xs ys → cash_sum xs ≡ cash_sum ys
  unfolding cash_sum
  cash_sum-permᴰ _ _ Permᴰ.nil = refl
  cash_sum-permᴰ (a ∷ xs) (b ∷ ys) (Permᴰ.cons e p) = rw (e, cash_sum-permᴰ xs ys p)
  cash_sum-permᴰ (a ∷ b ∷ xs) (a' ∷ b' ∷ ys) (Permᴰ.swap e f) = rw (e, f) (omega int_laws)
  cash_sum-permᴰ xs zs (Permᴰ.trans {l₂ = ys} p q) = cash_sum-permᴰ xs ys p ∙ cash_sum-permᴰ ys zs q

  cash_sum-eq-proceeds : (ts : List HistoricalTrade) → cash_sum ts ≡ proceeds ts -ℤ costs ts
  unfolding cash_sum proceeds costs cash_of_trade
  cash_sum-eq-proceeds [] = omega int_laws
  cash_sum-eq-proceeds (t ∷ ts) =
      rw (cash_by_side-eq-parts t.side (ctx.product t.quantity t.price), cash_sum-eq-proceeds ts)
        (omega int_laws)

  -- Whatever the order in which the trades are read, the partial cash balance is the value of the
  -- sales, less that of the purchases, with the amounts of all cash flows added.
  pub cash_balance_partial-proceeds :
      (trades read : List HistoricalTrade) (flows : List HistoricalCashFlow) (start : Option Date)
      → Perm read trades
      → cash_balance_partial (compute_cash_breakdown ctx read flows start)
        ≡ (proceeds trades -ℤ costs trades) +ℤ sum_ℤ (map (λ cf. cf.amount) flows)
  unfolding compute_cash_breakdown cash_balance_partial
  cash_balance_partial-proceeds trades read flows start p = ∥∥₁_elim p (hlevel) λ d.
      rw
        (
          cash_from_trades-eq-sum (pos 0) read,
          cash_sum-permᴰ read trades d,
          cash_sum-eq-proceeds trades,
        )
        (omega int_laws)
