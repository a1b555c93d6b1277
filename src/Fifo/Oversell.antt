-- ===== src/Fifo/Oversell.antt =====
-- A whole sale, with the lot that absorbs an oversell.
use nse_agent.Common.{
  ◌≡◌, ◌≢◌, ◌⊎◌, true, false, List, [], ◌∷◌, ◌++◌, ℤ, pos, ◌+ℤ◌, ◌-ℤ◌, ◌≤ℤ◌, max_ℤ, ltb_ℤ, int_laws,
  if◌then◌else◌, ◌==◌, ==→≡, arith, Bool-cases, inl, inr, sym, ◌∙◌,
}
use mathlib.Core.List.{append-nil}
use nse_agent.Common.Maps.{find_or, find_or-insert}
use nse_agent.Common.Decimals.{Context}
use nse_agent.Fifo.Types.{Symbol, Lot, Replay, TradeEvent, Warning}
use nse_agent.Fifo.Steps.{queue_of, Matching}
use nse_agent.Fifo.Run.{run_matching, after_matching, absorb_oversell, oversell_lot, apply_sell}
use nse_agent.Fifo.Queues.{IsQueued, open_positions, open_positions-append}
use nse_agent.Fifo.Sell.{
  final-IsUntouched, final-IsCredited, final-IsBalanced, final-IsMatchable, exhausted,
}
use nse_agent.Fifo.Totals.{total_by-append, open_part, held, held_nonneg, realized_part, realized}

-- The profit that the replay reports for a symbol is that of its lots, for every symbol.
abbrev pub IsAccounted : Replay → Type 0
IsAccounted r = (s : Symbol) → find_or s (pos 0) r.realized_pnl_by_symbol ≡ realized s r.all_lots

plus_zero : (a : ℤ) → a +ℤ pos 0 ≡ a
plus_zero a = omega int_laws

down_to_zero :
    (h left d : ℤ)
    → h ≡ left +ℤ d
    → pos 0 ≤ℤ h
    → pos 0 ≤ℤ left
    → (left ≡ pos 0) ⊎ (h ≡ pos 0)
    → h ≡ max_ℤ d (pos 0)
down_to_zero h left d e p q (inl z) = grind int_laws
down_to_zero h left d e p q (inr z) = grind int_laws

excess_of :
    (h left before q : ℤ)
    → h ≡ left +ℤ (before -ℤ q)
    → pos 0 ≤ℤ h
    → pos 0 ≤ℤ left
    → (left ≡ pos 0) ⊎ (h ≡ pos 0)
    → left ≡ max_ℤ (q -ℤ before) (pos 0)
excess_of h left before q e p r (inl z) = grind int_laws
excess_of h left before q e p r (inr z) = grind int_laws

over_by : (q h : ℤ) → ltb_ℤ h q ≡ true → max_ℤ (q -ℤ h) (pos 0) ≡ q -ℤ h
over_by q h e = grind int_laws

over_pos : (q h : ℤ) → ltb_ℤ h q ≡ true → ltb_ℤ (pos 0) (q -ℤ h) ≡ true
over_pos q h e = grind int_laws

not_over : (q h : ℤ) → ltb_ℤ h q ≡ false → max_ℤ (q -ℤ h) (pos 0) ≡ pos 0
not_over q h e = grind int_laws

module _ (ctx : Context) (event : TradeEvent) (r : Replay) where
  -- The lots after a sale that left `left` unmatched.
  abbrev sold_lots : List Lot → ℤ → List Lot
  sold_lots lots left =
      if ltb_ℤ (pos 0) left then lots ++ oversell_lot ctx event left ∷ [] else lots

  abbrev excess_gain : ℤ → ℤ
  excess_gain left = if ltb_ℤ (pos 0) left then ctx.product left event.price else pos 0

  abbrev m : Matching
  m = run_matching ctx event r

  absorb-warnings :
      (left delta : ℤ) (s : Replay)
      → (absorb_oversell ctx event left delta s).0.warnings ≡ (
          if ltb_ℤ (pos 0) left
          then s.warnings
            ++ Warning.synthetic_lot_suspected event.symbol event.quantity event.trade_date left
              ∷ []
          else s.warnings)
  unfolding absorb_oversell
  absorb-warnings left delta s = ground arith

  sale-lots : (apply_sell ctx event r).all_lots ≡ sold_lots m.lots m.remaining_to_sell
  unfolding apply_sell
  sale-lots = ground arith

  sale-queue :
      (s : Symbol)
      → queue_of s (apply_sell ctx event r) ≡ (if event.symbol == s then m.queue else queue_of s r)
  unfolding apply_sell queue_of
  sale-queue s = ground (arith, find_or-insert event.symbol s m.queue [] r.open_lots_by_symbol)

  sale-realized :
      (s : Symbol)
      → find_or s (pos 0) (apply_sell ctx event r).realized_pnl_by_symbol ≡ (
          if event.symbol == s
          then find_or event.symbol (pos 0) r.realized_pnl_by_symbol
            +ℤ (m.realized_delta +ℤ excess_gain m.remaining_to_sell)
          else find_or s (pos 0) r.realized_pnl_by_symbol)
  unfolding apply_sell
  sale-realized s = elim (Bool-cases (ltb_ℤ (pos 0) m.remaining_to_sell)) [
    | inl e ↦ rw e (
        find_or-insert event.symbol s
          (find_or event.symbol (pos 0) r.realized_pnl_by_symbol
            +ℤ (m.realized_delta +ℤ ctx.product m.remaining_to_sell event.price))
          (pos 0) r.realized_pnl_by_symbol)
    | inr e ↦
        rw (e, plus_zero m.realized_delta)
          (find_or-insert event.symbol s
            (find_or event.symbol (pos 0) r.realized_pnl_by_symbol +ℤ m.realized_delta) (pos 0)
            r.realized_pnl_by_symbol)
  ]

  -- The lot of an oversell is closed at once, and carries the rest of the profit.
  sold-positions :
      (s : Symbol) (lots : List Lot) (left : ℤ)
      → open_positions s 0 (sold_lots lots left) ≡ open_positions s 0 lots
  unfolding oversell_lot
  sold-positions s lots left = elim (Bool-cases (ltb_ℤ (pos 0) left)) [
    | inl e ↦ rw (e, open_positions-append s 0 lots (oversell_lot ctx event left)) (append-nil _)
    | inr e ↦ rw e
  ]

  sold-held : (s : Symbol) (lots : List Lot) (left : ℤ) → held s (sold_lots lots left) ≡ held s lots
  unfolding oversell_lot
  sold-held s lots left = elim (Bool-cases (ltb_ℤ (pos 0) left)) [
    | inl e ↦
        rw (e, total_by-append (open_part s) lots (oversell_lot ctx event left)) (omega int_laws)
    | inr e ↦ rw e
  ]

  sold-realized :
      (s : Symbol) (lots : List Lot) (left : ℤ)
      → realized s (sold_lots lots left)
        ≡ realized s lots +ℤ (if event.symbol == s then excess_gain left else pos 0)
  unfolding oversell_lot
  sold-realized s lots left = elim (Bool-cases (ltb_ℤ (pos 0) left)) [
    | inl e ↦ rw (e, total_by-append (realized_part s) lots (oversell_lot ctx event left))
    | inr e ↦ rw e (grind int_laws)
  ]

  module _ (queued : IsQueued r) where
    -- A sale keeps every queue equal to the open lots of its symbol.
    pub apply_sell-IsQueued : IsQueued (apply_sell ctx event r)
    apply_sell-IsQueued s =
        rw (sale-queue s, sale-lots, sold-positions s m.lots m.remaining_to_sell)
          (elim (Bool-cases (event.symbol == s)) [
            | inl e ↦ rw (e, ← ==→≡ event.symbol s e) (final-IsMatchable ctx event r queued)
            | inr e ↦
                rw e (queued s ∙ sym (final-IsUntouched ctx event r queued s (ground arith)).0)
          ])

    pub apply_sell-IsAccounted : IsAccounted r → IsAccounted (apply_sell ctx event r)
    apply_sell-IsAccounted acc s =
        rw (sale-realized s, sale-lots, sold-realized s m.lots m.remaining_to_sell)
          (elim (Bool-cases (event.symbol == s)) [
            | inl e ↦
                rw
                  (
                    e,
                    ← ==→≡ event.symbol s e,
                    final-IsCredited ctx event r queued,
                    acc event.symbol,
                  )
                  (omega int_laws)
            | inr e ↦
                rw (e, (final-IsUntouched ctx event r queued s (ground arith)).2, acc s)
                  (omega int_laws)
          ])

    -- A sale takes what is sold from the quantity held, down to zero.
    pub held-apply_sell :
        pos 0 ≤ℤ event.quantity
        → held event.symbol (apply_sell ctx event r).all_lots
          ≡ max_ℤ (held event.symbol r.all_lots -ℤ event.quantity) (pos 0)
    held-apply_sell n =
        rw (sale-lots, sold-held event.symbol m.lots m.remaining_to_sell)
          (down_to_zero (held event.symbol m.lots) m.remaining_to_sell _
            (final-IsBalanced ctx event r queued n).0 (held_nonneg event.symbol m.lots)
            (final-IsBalanced ctx event r queued n).1 (exhausted ctx event r queued n))

    -- A sale leaves what is held of any other symbol alone.
    pub held-apply_sell_ne :
        (s : Symbol)
        → s ≢ event.symbol
        → held s (apply_sell ctx event r).all_lots ≡ held s r.all_lots
    held-apply_sell_ne s ne =
        rw (sale-lots, sold-held s m.lots m.remaining_to_sell)
          (final-IsUntouched ctx event r queued s ne).1

    excess :
        pos 0 ≤ℤ event.quantity
        → m.remaining_to_sell ≡ max_ℤ (event.quantity -ℤ held event.symbol r.all_lots) (pos 0)
    excess n =
        excess_of (held event.symbol m.lots) m.remaining_to_sell (held event.symbol r.all_lots)
          event.quantity (final-IsBalanced ctx event r queued n).0 (held_nonneg event.symbol m.lots)
          (final-IsBalanced ctx event r queued n).1 (exhausted ctx event r queued n)

    -- Where every queue is that of the open lots of its symbol and the quantity sold is not
    -- negative, a sale warns exactly if it exceeds what is held, and names the excess.
    pub warnings-apply_sell :
        pos 0 ≤ℤ event.quantity
        → (apply_sell ctx event r).warnings
          ≡ r.warnings
            ++ (if ltb_ℤ (held event.symbol r.all_lots) event.quantity
                then Warning.synthetic_lot_suspected event.symbol event.quantity event.trade_date
                    (event.quantity -ℤ held event.symbol r.all_lots)
                  ∷ []
                else [])
    unfolding apply_sell after_matching
    warnings-apply_sell n =
        elim (Bool-cases (ltb_ℤ (held event.symbol r.all_lots) event.quantity)) [
          | inl e ↦
              rw
                (
                  e,
                  absorb-warnings m.remaining_to_sell m.realized_delta (after_matching event m r),
                  excess n,
                  over_by event.quantity (held event.symbol r.all_lots) e,
                )
                (ground (arith, over_pos event.quantity (held event.symbol r.all_lots) e))
          | inr e ↦
              rw
                (
                  e,
                  absorb-warnings m.remaining_to_sell m.realized_delta (after_matching event m r),
                  excess n,
                  not_over event.quantity (held event.symbol r.all_lots) e,
                )
                (sym (append-nil r.warnings))
        ]
