-- ===== src/Fifo/Loop.antt =====
-- The matching loop of `_apply_trade`: it ends by its test, and its invariant rule.
use nse_agent.Common.{
  ℕ, zero, suc, ◌+◌, ◌⊎◌, ◌≤◌, ◌<◌, ◌≡◌, refl, true, false, some, List, [], ◌∷◌, ℤ, pos, ltb_ℤ,
  eqb_ℤ, min_ℤ, ◌-ℤ◌, length, get_elem?, arith, sym, ◌∙◌, Bool-cases, Option-cases, inl, inr,
}
use nse_agent.Common.Decimals.{Context}
use nse_agent.Fifo.Types.{Symbol, Lot, TradeEvent}
use nse_agent.Fifo.Steps.{
  Matching, match_lot, match_head, keeps_matching, match_loop, matched_qty, consume,
}
use nse_agent.Fifo.Timeline.{is_open_lot}
use nse_agent.Fifo.Queues.{
  open_positions, head_lot, open_positions-set_same, open_positions-set_closed,
}

-- What a round leaves of a lot, and of the sale.
pub left_after : (a b : ℤ) → (a -ℤ min_ℤ a b ≡ pos 0) ⊎ (b -ℤ min_ℤ a b ≡ pos 0)
unfolding ◌-ℤ◌
left_after a b = ground arith

pub is_open-closed :
    (lot : Lot) (s : Symbol)
    → eqb_ℤ lot.quantity_remaining (pos 0) ≡ true
    → is_open_lot (some s) lot ≡ false
is_open-closed lot s e = ground arith

-- What a round leaves of an open lot is not negative.
pub left_pos :
    (a b : ℤ)
    → ltb_ℤ (pos 0) a ≡ true
    → eqb_ℤ (a -ℤ min_ℤ a b) (pos 0) ≡ false
    → ltb_ℤ (pos 0) (a -ℤ min_ℤ a b) ≡ true
unfolding ◌-ℤ◌
left_pos a b h e = ground arith

module _ (ctx : Context) (event : TradeEvent) where
  consume-remaining :
      (lot : Lot) (b : ℤ)
      → (consume ctx event lot b).quantity_remaining ≡ lot.quantity_remaining -ℤ b
  unfolding consume
  consume-remaining lot b = refl

  consume-symbol : (lot : Lot) (b : ℤ) → (consume ctx event lot b).symbol ≡ lot.symbol
  unfolding consume
  consume-symbol lot b = refl

  consume-open :
      (lot : Lot) (b : ℤ) (s : Symbol)
      → is_open_lot (some s) lot ≡ true
      → eqb_ℤ (consume ctx event lot (matched_qty lot b)).quantity_remaining (pos 0) ≡ false
      → is_open_lot (some s) (consume ctx event lot (matched_qty lot b)) ≡ true
  unfolding consume
  consume-open lot b s o e = ground (arith, left_pos lot.quantity_remaining b)

  -- A round takes the lot off the queue, or ends the sale.
  round_shrinks :
      (lot : Lot) (i : ℕ) (rest : List ℕ) (m : Matching)
      → let m' = match_lot ctx event lot i rest m in
        (m'.queue ≡ rest) ⊎ (m'.remaining_to_sell ≡ pos 0)
  unfolding match_lot
  round_shrinks lot i rest m = ground (
    arith,
    consume-remaining lot (matched_qty lot m.remaining_to_sell),
    left_after lot.quantity_remaining m.remaining_to_sell,
  )

  loop_stop : (fuel : ℕ) (m : Matching) → keeps_matching m ≡ false → match_loop ctx fuel event m ≡ m
  unfolding match_loop
  loop_stop zero m e = refl
  loop_stop (suc fuel) m e = ground arith

  loop_step :
      (fuel : ℕ) (m : Matching)
      → keeps_matching m ≡ true
      → match_loop ctx (suc fuel) event m
        ≡ match_loop ctx fuel event (match_head ctx event m.queue m)
  unfolding match_loop
  loop_step fuel m e = ground arith

  head_shrinks :
      (q : List ℕ) (m : Matching) (fuel : ℕ)
      → length q ≤ suc fuel
      → 0 < length q
      → let m' = match_head ctx event q m in
        (length m'.queue ≤ fuel) ⊎ (m'.remaining_to_sell ≡ pos 0)
  head_shrinks [] m fuel h k = absurd (omega arith)
  head_shrinks (i ∷ rest) m fuel h k = elim (Option-cases (get_elem? m.lots i)) [
    | inl e ↦ rw e (inl (omega arith))
    | inr (lot, e) ↦
        rw e
          (elim (round_shrinks lot i rest m) [ inl p ↦ inl (rw p (omega arith)) | inr z ↦ inr z ])
  ]

  ends_empty :
      (q : List ℕ) (m : Matching)
      → length m.queue ≤ 0
      → q ≡ m.queue
      → keeps_matching (match_loop ctx 0 event m) ≡ false
  unfolding match_loop
  ends_empty q m h e = ground arith

  -- With a round for each lot of the queue the loop ends by its own test.
  pub loop_ends :
      (fuel : ℕ) (m : Matching)
      → length m.queue ≤ fuel
      → keeps_matching (match_loop ctx fuel event m) ≡ false
  loop_ends zero m h = ends_empty m.queue m h refl
  loop_ends (suc fuel) m h = elim (Bool-cases (keeps_matching m)) [
    | inr e ↦ rw (loop_stop (suc fuel) m e) e
    | inl e ↦
        let m' = match_head ctx event m.queue m in
        rw (loop_step fuel m e) (elim (head_shrinks m.queue m fuel h (ground arith)) [
          | inl p ↦ loop_ends fuel m' p
          | inr z ↦
              let stop : keeps_matching m' ≡ false = ground arith in
              rw (loop_stop fuel m' stop) stop
        ])
  ]

  -- The queue of the loop lists the open lots of the symbol.
  abbrev pub IsMatchable : Matching → Type 0
  IsMatchable m = m.queue ≡ open_positions event.symbol 0 m.lots

  round-IsMatchable :
      (lot : Lot) (i : ℕ) (rest : List ℕ) (m : Matching)
      → m.queue ≡ i ∷ rest
      → get_elem? m.lots i ≡ some lot
      → is_open_lot (some event.symbol) lot ≡ true
      → ltb_ℤ (pos 0) m.remaining_to_sell ≡ true
      → IsMatchable m
      → IsMatchable (match_lot ctx event lot i rest m)
  unfolding match_lot
  round-IsMatchable lot i rest m q g o p h =
      let matched = matched_qty lot m.remaining_to_sell in
      let lot' = consume ctx event lot matched in
      let listed : open_positions event.symbol 0 m.lots ≡ (0 + i) ∷ rest = ground arith in
      elim (Bool-cases (eqb_ℤ lot'.quantity_remaining (pos 0))) [
        | inl e ↦ rw e (
            sym (
              open_positions-set_closed event.symbol 0 i m.lots rest lot' listed
                (is_open-closed lot' event.symbol e)))
        | inr e ↦ rw e (
            sym q
            ∙ h
            ∙ sym (
                open_positions-set_same event.symbol 0 i m.lots lot lot' g
                  (consume-open lot m.remaining_to_sell event.symbol o e ∙ sym o)))
      ]

  -- The invariant rule. A round may use that the lot at the head is in the store, is of the
  -- symbol and is open.
  abbrev pub IsKept {ℓ} : (Matching → Type ℓ) → Type ℓ
  IsKept P =
      (m : Matching) (i : ℕ) (rest : List ℕ) (lot : Lot)
      → get_elem? m.lots i ≡ some lot
      → is_open_lot (some event.symbol) lot ≡ true
      → ltb_ℤ (pos 0) m.remaining_to_sell ≡ true
      → P m
      → P (match_lot ctx event lot i rest m)

  head_rule {ℓ} :
      (P : Matching → Type ℓ)
      → IsKept P
      → (q : List ℕ) (m : Matching) → q ≡ m.queue
      → keeps_matching m ≡ true
      → IsMatchable m
      → P m
      → IsMatchable (match_head ctx event q m) × P (match_head ctx event q m)
  head_rule P keep [] m e k h p = (h, p)
  head_rule P keep (i ∷ rest) m e k h p =
      let (lot, g, o) = head_lot event.symbol 0 i m.lots rest (ground (arith)) in
      let more : ltb_ℤ (pos 0) m.remaining_to_sell ≡ true = ground arith in
      rw g (round-IsMatchable lot i rest m (sym e) g o more h, keep m i rest lot g o more p)

  pub loop_rule {ℓ} :
      (P : Matching → Type ℓ)
      → IsKept P
      → (fuel : ℕ) (m : Matching) → IsMatchable m
      → P m
      → IsMatchable (match_loop ctx fuel event m) × P (match_loop ctx fuel event m)
  unfolding match_loop
  loop_rule P keep zero m h p = (h, p)
  loop_rule P keep (suc fuel) m h p = elim (Bool-cases (keeps_matching m)) [
    | inr e ↦ rw (loop_stop (suc fuel) m e) (h, p)
    | inl e ↦
        let next = head_rule P keep m.queue m refl e h p in
        rw (loop_step fuel m e)
          (loop_rule P keep fuel (match_head ctx event m.queue m) next.0 next.1)
  ]
