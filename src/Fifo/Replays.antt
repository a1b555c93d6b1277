-- ===== src/Fifo/Replays.antt =====
-- The replay as a whole: it succeeds, and its queues and accounts are right at the end.
use nse_agent.Common.{
  ℕ, suc, ◌≡◌, refl, true, some, List, [], ◌∷◌, ◌++◌, ℤ, pos, ◌+ℤ◌, ◌-ℤ◌, ◌<ℤ◌, max_ℤ, ltb_ℤ,
  int_laws, length, All, All-append, All-map, map, if◌then◌else◌, ◌==◌, ==→≡, arith, Bool-cases,
  inl, inr, sym, lt→ltb_ℤ,
}
use mathlib.Core.List.{append-nil}
use nse_agent.Common.Maps.{find_or, find_or-insert}
use nse_agent.Common.Sorting.{All-sort_by}
use nse_agent.Common.Decimals.{Context, IsPositive}
use nse_agent.Fifo.Types.{
  Symbol, TradeSide, TradeEvent, CorporateActionEvent, OpeningPositionAdjustment, Lot, Replay,
}
use nse_agent.Fifo.Steps.{queue_of, open_lot, apply_opening_adjustment, lot_of_buy, lot_of_opening}
use nse_agent.Fifo.Run.{apply_trade, trade_by_side}
use nse_agent.Fifo.Timeline.{
  Payload, Entry, no_lots, apply_payload, run_entries, replay_fifo, timeline, numbered, payloads,
  entry_le,
}
use nse_agent.Fifo.Queues.{IsQueued, open_positions, positions-append}
use nse_agent.Fifo.Totals.{total_by, total_by-append, open_part, held, realized_part}
use nse_agent.Fifo.Oversell.{
  IsAccounted, apply_sell-IsQueued, apply_sell-IsAccounted, held-apply_sell, held-apply_sell_ne,
}
use nse_agent.Fifo.Scaling.{
  IsRatio, apply_corporate_action-IsQueued, apply_corporate_action-IsAccounted,
  apply_corporate_action-succeeds,
}

module _ (lot : Lot) (r : Replay) where
  open_lot-IsQueued :
      ltb_ℤ (pos 0) lot.quantity_remaining ≡ true → IsQueued r → IsQueued (open_lot lot r)
  unfolding open_lot queue_of
  open_lot-IsQueued o queued s =
      rw
        (
          find_or-insert lot.symbol s
              (find_or lot.symbol [] r.open_lots_by_symbol ++ length r.all_lots ∷ []) []
              r.open_lots_by_symbol,
          positions-append s r.all_lots lot,
        )
        (elim (Bool-cases (lot.symbol == s)) [
          | inl e ↦ rw (e, o, ← ==→≡ lot.symbol s e, ← queued lot.symbol)
          | inr e ↦ rw (e, o, ← queued s) (sym (append-nil (queue_of s r)))
        ])

  open_lot-IsAccounted : lot.realized_pnl ≡ pos 0 → IsAccounted r → IsAccounted (open_lot lot r)
  unfolding open_lot
  open_lot-IsAccounted z acc s =
      rw (total_by-append (realized_part s) r.all_lots lot, acc s) (grind int_laws)

  held-open_lot :
      (s : Symbol)
      → ltb_ℤ (pos 0) lot.quantity_remaining ≡ true
      → held s (open_lot lot r).all_lots
        ≡ held s r.all_lots +ℤ (if lot.symbol == s then lot.quantity_remaining else pos 0)
  unfolding open_lot
  held-open_lot s o = rw (total_by-append (open_part s) r.all_lots lot) (ground arith)

-- What a replay needs of an input to go through: positive quantities and ratios.
abbrev pub IsUsable : Payload → Type 0
IsUsable (Payload.opening adj) = pos 0 <ℤ adj.quantity
IsUsable (Payload.corporate_action ca) = IsRatio ca
IsUsable (Payload.trade event) = pos 0 <ℤ event.quantity

-- The queues and the accounts are right.
abbrev pub IsConsistent : Replay → Type 0
IsConsistent r = IsQueued r × IsAccounted r

-- The quantity after a trade of `q`.
abbrev pub traded : TradeSide → ℤ → ℤ → ℤ
traded TradeSide.buy before q = before +ℤ q
traded TradeSide.sell before q = max_ℤ (before -ℤ q) (pos 0)

held-by_side :
    (ctx : Context) (side : TradeSide) (event : TradeEvent) (r : Replay) (s : Symbol)
    → IsQueued r
    → pos 0 <ℤ event.quantity
    → held s (trade_by_side ctx side event r).all_lots ≡ (
        if event.symbol == s
        then traded side (held s r.all_lots) event.quantity
        else held s r.all_lots)
unfolding lot_of_buy
held-by_side ctx TradeSide.buy event r s queued positive =
    rw (held-open_lot (lot_of_buy event) r s (lt→ltb_ℤ (pos 0) event.quantity positive))
      (grind int_laws)
held-by_side ctx TradeSide.sell event r s queued positive = elim (Bool-cases (event.symbol == s)) [
  | inl e ↦ rw (e, ← ==→≡ event.symbol s e) (held-apply_sell ctx event r queued (omega arith))
  | inr e ↦ rw e (held-apply_sell_ne ctx event r queued s (ground arith))
]

-- A purchase adds its quantity to what is held of its symbol; a sale takes its quantity, down to
-- zero; and no trade changes what is held of another symbol. The queues must be right before.
pub held-apply_trade :
    (ctx : Context) (event : TradeEvent) (r : Replay) (s : Symbol)
    → IsQueued r
    → pos 0 <ℤ event.quantity
    → held s (apply_trade ctx event r).all_lots ≡ (
        if event.symbol == s
        then traded event.side (held s r.all_lots) event.quantity
        else held s r.all_lots)
unfolding apply_trade
held-apply_trade ctx event r s queued positive =
    held-by_side ctx event.side event r s queued positive

module _ (ctx : Context) where
  by_side-IsConsistent :
      (side : TradeSide) (event : TradeEvent) (r : Replay)
      → pos 0 <ℤ event.quantity
      → IsConsistent r
      → IsConsistent (trade_by_side ctx side event r)
  unfolding lot_of_buy
  by_side-IsConsistent TradeSide.buy event r u (q, a) = (
    open_lot-IsQueued (lot_of_buy event) r (lt→ltb_ℤ (pos 0) event.quantity u) q,
    open_lot-IsAccounted (lot_of_buy event) r refl a,
  )
  by_side-IsConsistent TradeSide.sell event r u (q, a) =
      (apply_sell-IsQueued ctx event r q, apply_sell-IsAccounted ctx event r q a)

  opening-IsConsistent :
      (adj : OpeningPositionAdjustment) (r : Replay)
      → pos 0 <ℤ adj.quantity
      → IsConsistent r
      → IsConsistent (apply_opening_adjustment adj r)
  unfolding apply_opening_adjustment lot_of_opening queue_of
  opening-IsConsistent adj r u (q, a) = (
    open_lot-IsQueued (lot_of_opening adj) r (lt→ltb_ℤ (pos 0) adj.quantity u) q,
    open_lot-IsAccounted (lot_of_opening adj) r refl a,
  )

  module _ (rounding : IsPositive ctx) where
    payload-IsConsistent :
        (p : Payload) (r : Replay)
        → IsUsable p
        → IsConsistent r
        → (r' : Replay) × (apply_payload ctx p r ≡ some r') × IsConsistent r'
    unfolding apply_payload apply_trade
    payload-IsConsistent (Payload.opening adj) r u c = (_, refl, opening-IsConsistent adj r u c)
    payload-IsConsistent (Payload.corporate_action ca) r u (q, a) =
        let (r', e) = apply_corporate_action-succeeds ctx rounding ca r u in
        (
          r',
          e,
          (
            apply_corporate_action-IsQueued ctx rounding ca r r' u q e,
            apply_corporate_action-IsAccounted ctx rounding ca r r' u q a e,
          ),
        )
    payload-IsConsistent (Payload.trade event) r u c =
        (_, refl, by_side-IsConsistent event.side event r u c)

    run_entries-IsConsistent :
        (es : List Entry) (r : Replay)
        → All (λ e. IsUsable e.payload) es
        → IsConsistent r
        → (r' : Replay) × (run_entries ctx es r ≡ some r') × IsConsistent r'
    unfolding run_entries
    run_entries-IsConsistent [] r u c = (r, refl, c)
    run_entries-IsConsistent (e ∷ es) r u c =
        let (mid, f, d) = payload-IsConsistent e.payload r u.0 c in
        let (r', g, h) = run_entries-IsConsistent es mid u.1 d in (r', rw f g, h)

numbered-IsUsable :
    (k : ℕ) (ps : List Payload) → All IsUsable ps → All (λ e. IsUsable e.payload) (numbered k ps)
unfolding numbered
numbered-IsUsable k [] u = tt
numbered-IsUsable k (p ∷ ps) u = (u.0, numbered-IsUsable (suc k) ps u.1)

payloads-IsUsable :
    (events : List TradeEvent) (cas : List CorporateActionEvent)
    (adjs : List OpeningPositionAdjustment)
    → All (λ e. pos 0 <ℤ e.quantity) events
    → All IsRatio cas
    → All (λ a. pos 0 <ℤ a.quantity) adjs
    → All IsUsable (payloads events cas adjs)
unfolding payloads
payloads-IsUsable events cas adjs ue uc ua =
    All-append IsUsable (map Payload.opening adjs) _ (All-map IsUsable Payload.opening adjs ua) (
      All-append IsUsable (map Payload.corporate_action cas) _
        (All-map IsUsable Payload.corporate_action cas uc)
        (All-map IsUsable Payload.trade events ue))

no_lots-IsConsistent : IsConsistent no_lots
unfolding queue_of open_positions total_by
no_lots-IsConsistent = (λ s. refl, λ s. refl)

-- If all quantities and ratios are positive and no positive product or quotient is rounded to
-- zero, a replay goes through. At its end every queue lists the open lots of its
-- symbol, oldest first, and the profit reported for each symbol is the sum over its lots.
pub replay_fifo-IsConsistent :
    (ctx : Context) (events : List TradeEvent) (cas : List CorporateActionEvent)
    (adjs : List OpeningPositionAdjustment)
    → IsPositive ctx
    → All (λ e. pos 0 <ℤ e.quantity) events
    → All IsRatio cas
    → All (λ a. pos 0 <ℤ a.quantity) adjs
    → (r : Replay) × (replay_fifo ctx events cas adjs ≡ some r) × IsConsistent r
unfolding replay_fifo timeline
replay_fifo-IsConsistent ctx events cas adjs rounding ue uc ua =
    run_entries-IsConsistent ctx rounding (timeline events cas adjs) no_lots
      (All-sort_by entry_le (λ e. IsUsable e.payload) (numbered 0 (payloads events cas adjs))
        (numbered-IsUsable 0 (payloads events cas adjs)
          (payloads-IsUsable events cas adjs ue uc ua)))
      no_lots-IsConsistent
