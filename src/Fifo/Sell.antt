-- ===== src/Fifo/Sell.antt =====
-- What a sale does: to the symbol that is sold, to the other symbols, and to the profit.
use nse_agent.Common.{
  ℕ, suc, ◌≡◌, ◌≢◌, ◌⊎◌, refl, true, false, some, List, [], ◌∷◌, ℤ, pos, ◌+ℤ◌, ◌-ℤ◌, ◌≤ℤ◌,
  parts_of_eq, min_ℤ-le_right, replace_less, replace_more, replace_same, ltb_ℤ, int_laws, length,
  arith, Bool-cases, inl, inr, sym, ◌∙◌,
}
use nse_agent.Common.Decimals.{Context}
use nse_agent.Fifo.Types.{Symbol, Lot, Replay, TradeEvent}
use nse_agent.Fifo.Steps.{
  queue_of, Matching, match_lot, keeps_matching, matched_qty, consume, lot_realized,
}
use nse_agent.Fifo.Run.{run_matching, start_matching}
use nse_agent.Fifo.Timeline.{is_open_lot}
use nse_agent.Fifo.Queues.{IsQueued, open_positions, open_positions-set_same}
use nse_agent.Fifo.Loop.{IsMatchable, IsKept, loop_ends, loop_rule}
use nse_agent.Fifo.Totals.{total_by-set, open_part, held, held_none, realized_part, realized}

module _ (ctx : Context) (event : TradeEvent) where
  open_part-consume :
      (lot : Lot) (b : ℤ)
      → is_open_lot (some event.symbol) lot ≡ true
      → open_part event.symbol (consume ctx event lot (matched_qty lot b)) +ℤ matched_qty lot b
        ≡ open_part event.symbol lot
  unfolding consume
  open_part-consume lot b o = grind int_laws

  realized_part-consume :
      (lot : Lot) (b : ℤ)
      → is_open_lot (some event.symbol) lot ≡ true
      → realized_part event.symbol (consume ctx event lot b)
        ≡ realized_part event.symbol lot +ℤ lot_realized ctx lot event.price b
  unfolding consume
  realized_part-consume lot b o = ground arith

  -- What is held and what is left to sell fall together; neither falls below zero.
  abbrev pub IsBalanced : ℤ → Matching → Type 0
  IsBalanced gap m =
      (held event.symbol m.lots ≡ m.remaining_to_sell +ℤ gap) × (pos 0 ≤ℤ m.remaining_to_sell)

  round-IsBalanced : (gap : ℤ) → IsKept ctx event (IsBalanced gap)
  unfolding match_lot
  round-IsBalanced gap m i rest lot g o p (b, n) =
      let matched = matched_qty lot m.remaining_to_sell in
      let lot' = consume ctx event lot matched in
      let fell =
        replace_less _ _ _ _ matched (total_by-set (open_part event.symbol) m.lots i lot lot' g)
          (open_part-consume lot m.remaining_to_sell o) in
      (
        omega (int_laws, parts_of_eq _ _ fell, parts_of_eq _ _ b),
        omega (int_laws, min_ℤ-le_right lot.quantity_remaining m.remaining_to_sell),
      )

  -- The lots of another symbol.
  abbrev pub IsUntouched : Symbol → List Lot → Matching → Type 0
  IsUntouched s lots m =
      (open_positions s 0 m.lots ≡ open_positions s 0 lots)
      × (held s m.lots ≡ held s lots)
      × (realized s m.lots ≡ realized s lots)

  round-IsUntouched :
      (s : Symbol) (lots : List Lot) → s ≢ event.symbol → IsKept ctx event (IsUntouched s lots)
  unfolding match_lot consume
  round-IsUntouched s lots ne m i rest lot g o p (q, h, r) =
      let lot' = consume ctx event lot (matched_qty lot m.remaining_to_sell) in
      (
        open_positions-set_same s 0 i m.lots lot lot' g (ground arith) ∙ q,
        replace_same _ _ _ _ (total_by-set (open_part s) m.lots i lot lot' g) (ground arith) ∙ h,
        replace_same _ _ _ _ (total_by-set (realized_part s) m.lots i lot lot' g) (ground arith)
            ∙ r,
      )

  -- The profit of the lots and the profit of the sale rise together.
  abbrev pub IsCredited : ℤ → Matching → Type 0
  IsCredited before m = realized event.symbol m.lots ≡ before +ℤ m.realized_delta

  round-IsCredited : (before : ℤ) → IsKept ctx event (IsCredited before)
  unfolding match_lot
  round-IsCredited before m i rest lot g o p c =
      let matched = matched_qty lot m.remaining_to_sell in
      let lot' = consume ctx event lot matched in
      let gain = lot_realized ctx lot event.price matched in
      let rose =
        replace_more _ _ _ _ gain (total_by-set (realized_part event.symbol) m.lots i lot lot' g)
          (realized_part-consume lot matched o) in
      omega (int_laws, parts_of_eq _ _ rose, parts_of_eq _ _ c)

  -- The loop of a sale, run on a replay whose queues are right.
  module _ (r : Replay) (queued : IsQueued r) where
    final_lem {ℓ} :
        (P : Matching → Type ℓ)
        → IsKept ctx event P
        → P (start_matching event r)
        → IsMatchable ctx event (run_matching ctx event r) × P (run_matching ctx event r)
    unfolding run_matching start_matching
    final_lem P keep p =
        loop_rule ctx event P keep (suc (length (queue_of event.symbol r))) (start_matching event r)
          (queued event.symbol) p

    final_ends : keeps_matching (run_matching ctx event r) ≡ false
    unfolding run_matching start_matching
    final_ends =
        loop_ends ctx event (suc (length (queue_of event.symbol r))) (start_matching event r)
          (omega arith)

    pub final-IsUntouched :
        (s : Symbol) → s ≢ event.symbol → IsUntouched s r.all_lots (run_matching ctx event r)
    unfolding start_matching
    final-IsUntouched s ne =
        (final_lem (IsUntouched s r.all_lots) (round-IsUntouched s r.all_lots ne)
          (refl, refl, refl)).1

    pub final-IsCredited : IsCredited (realized event.symbol r.all_lots) (run_matching ctx event r)
    unfolding start_matching
    final-IsCredited =
        (final_lem (IsCredited (realized event.symbol r.all_lots))
          (round-IsCredited (realized event.symbol r.all_lots)) (omega int_laws)).1

    pub final-IsBalanced :
        pos 0 ≤ℤ event.quantity
        → IsBalanced (held event.symbol r.all_lots -ℤ event.quantity) (run_matching ctx event r)
    unfolding start_matching
    final-IsBalanced n =
        (final_lem (IsBalanced (held event.symbol r.all_lots -ℤ event.quantity))
          (round-IsBalanced (held event.symbol r.all_lots -ℤ event.quantity)) (omega int_laws, n)).1

    pub final-IsMatchable : IsMatchable ctx event (run_matching ctx event r)
    final-IsMatchable = (final_lem (λ _. Unit {0}) (λ m i rest lot g o p t. t) tt).0

    empty_queue :
        (q : List ℕ)
        → q ≡ (run_matching ctx event r).queue
        → length q ≡ 0
        → held event.symbol (run_matching ctx event r).lots ≡ pos 0
    empty_queue [] e z = held_none event.symbol 0 _ (sym final-IsMatchable ∙ sym e)
    empty_queue (i ∷ q) e z = absurd (omega arith)

    -- Either nothing is left to sell, or nothing is left to hold.
    pub exhausted :
        pos 0 ≤ℤ event.quantity
        → ((run_matching ctx event r).remaining_to_sell ≡ pos 0)
          ⊎ (held event.symbol (run_matching ctx event r).lots ≡ pos 0)
    exhausted n = elim (Bool-cases (ltb_ℤ (pos 0) (run_matching ctx event r).remaining_to_sell)) [
      | inl e ↦ inr (empty_queue _ refl (ground (arith, final_ends)))
      | inr e ↦ inl (ground (arith, (final-IsBalanced n).1))
    ]
