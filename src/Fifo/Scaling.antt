-- ===== src/Fifo/Scaling.antt =====
-- What a corporate action does to the queues and the profit: nothing, whatever it scales.
use nse_agent.Common.{
  ℕ, zero, suc, ◌≡◌, refl, true, false, Option, none, some, List, [], ◌∷◌, ◌++◌, map, ◌||◌, eqb_ℤ,
  sum_ℤ, ℤ, pos, ◌<ℤ◌, ltb_ℤ, ltb_ℤ→lt, lt→ltb_ℤ, replace_same, length, get_elem?, set, All, ◌==◌,
  arith, Bool-cases, inl, inr, sym, ◌∙◌, length-append,
}
use mathlib.Core.List.{append_assoc}
use mathlib.Core.Option.{some-injective}
use nse_agent.Common.Options.{>>=-eq-some, >>=-succeeds}
use nse_agent.Common.Decimals.{Context, IsPositive, divide}
use nse_agent.Fifo.Types.{Symbol, Lot, Replay, CorporateActionEvent}
use nse_agent.Fifo.Steps.{queue_of}
use nse_agent.Fifo.Run.{
  scale_lot, scale_at, scale_lots, adjust_open_lots, apply_corporate_action, lots_at,
}
use nse_agent.Fifo.Timeline.{is_open_lot}
use nse_agent.Fifo.Queues.{IsQueued, open_positions, open_positions-set_same}
use nse_agent.Fifo.Totals.{total_by-set, realized_part, realized}
use nse_agent.Fifo.Oversell.{IsAccounted}

-- The position holds an open lot.
abbrev IsOpenAt : List Lot → ℕ → Type 0
IsOpenAt ls i =
    (lot : Lot) × (get_elem? ls i ≡ some lot) × (ltb_ℤ (pos 0) lot.quantity_remaining ≡ true)

IsOpenAt-set :
    (ls : List Lot) (i j : ℕ) (lot' : Lot)
    → ltb_ℤ (pos 0) lot'.quantity_remaining ≡ true
    → IsOpenAt ls j
    → IsOpenAt (set ls i lot') j
IsOpenAt-set [] i j lot' o (l, g, h) = (l, g, h)
IsOpenAt-set (x ∷ ls) zero zero lot' o h = (lot', refl, o)
IsOpenAt-set (x ∷ ls) zero (suc j) lot' o h = h
IsOpenAt-set (x ∷ ls) (suc i) zero lot' o h = h
IsOpenAt-set (x ∷ ls) (suc i) (suc j) lot' o h = IsOpenAt-set ls i j lot' o h

All-set :
    (q : List ℕ) (ls : List Lot) (i : ℕ) (lot' : Lot)
    → ltb_ℤ (pos 0) lot'.quantity_remaining ≡ true
    → All (IsOpenAt ls) q
    → All (IsOpenAt (set ls i lot')) q
All-set [] ls i lot' o h = tt
All-set (j ∷ q) ls i lot' o h = (IsOpenAt-set ls i j lot' o h.0, All-set q ls i lot' o h.1)

-- A lot scaled by a positive factor is open if it was, and keeps its symbol and its profit.
IsScaled : Lot → Lot → Type 0
IsScaled l l' =
    (ltb_ℤ (pos 0) l'.quantity_remaining ≡ true)
    × (l'.symbol ≡ l.symbol)
    × (l'.realized_pnl ≡ l.realized_pnl)

-- What the queues and the accounts see of the lots.
IsAlike : List Lot → List Lot → Type 0
IsAlike ls ls' =
    (s : Symbol)
    → (open_positions s 0 ls' ≡ open_positions s 0 ls) × (realized s ls' ≡ realized s ls)

set-IsAlike :
    (ls : List Lot) (i : ℕ) (l l' : Lot)
    → get_elem? ls i ≡ some l
    → ltb_ℤ (pos 0) l.quantity_remaining ≡ true
    → IsScaled l l'
    → IsAlike ls (set ls i l')
unfolding IsScaled IsAlike
set-IsAlike ls i l l' g o (o', y, p) s = (
  open_positions-set_same s 0 i ls l l' g (ground arith),
  replace_same _ _ _ _ (total_by-set (realized_part s) ls i l l' g) (ground arith),
)

module _ (ctx : Context) (rounding : IsPositive ctx) where
  scale_lot-IsScaled :
      (factor : ℤ) (l l' : Lot)
      → pos 0 <ℤ factor
      → ltb_ℤ (pos 0) l.quantity_remaining ≡ true
      → scale_lot ctx factor l ≡ some l'
      → IsScaled l l'
  unfolding scale_lot IsScaled
  scale_lot-IsScaled factor l l' p o e =
      let (cost, _, f) = >>=-eq-some (divide ctx l.cost_price factor) _ e in
      rw (← some-injective _ _ f) (
        lt→ltb_ℤ (pos 0) (ctx.product l.quantity_remaining factor) (
            rounding.product_pos l.quantity_remaining factor
              (ltb_ℤ→lt (pos 0) l.quantity_remaining o) p),
        refl,
        refl,
      )

  module _ (factor : ℤ) (positive : pos 0 <ℤ factor) where
    scale_at-lem :
        (q : List ℕ) (i : ℕ) (ls ls' : List Lot)
        → IsOpenAt ls i
        → All (IsOpenAt ls) q
        → scale_at ctx factor i ls (get_elem? ls i) ≡ some ls'
        → IsAlike ls ls' × All (IsOpenAt ls') q
    unfolding IsScaled
    scale_at-lem q i ls ls' (l, g, o) h e =
        let (l', sc, f) =
          >>=-eq-some (scale_lot ctx factor l) (λ x. some (set ls i x)) (rw g at e) in
        let scaled = scale_lot-IsScaled factor l l' positive o sc in
        rw (← some-injective _ _ f) (set-IsAlike ls i l l' g o scaled, All-set q ls i l' scaled.0 h)

    scale_lots-IsAlike :
        (q : List ℕ) (ls ls' : List Lot)
        → All (IsOpenAt ls) q
        → scale_lots ctx factor q ls ≡ some ls'
        → IsAlike ls ls'
    unfolding scale_lots IsAlike
    scale_lots-IsAlike [] ls ls' h e s = rw (some-injective _ _ e) (refl, refl)
    scale_lots-IsAlike (i ∷ q) ls ls' h e s =
        let (mid, f, k) = >>=-eq-some (scale_at ctx factor i ls (get_elem? ls i)) _ e in
        let (alike, opens) = scale_at-lem q i ls mid h.0 h.1 f in
        let rest = scale_lots-IsAlike q mid ls' opens k s in
        (rest.0 ∙ (alike s).0, rest.1 ∙ (alike s).1)

get_elem?-append_length :
    (before ls : List Lot) (l : Lot) → get_elem? (before ++ l ∷ ls) (length before) ≡ some l
get_elem?-append_length [] ls l = refl
get_elem?-append_length (b ∷ before) ls l = get_elem?-append_length before ls l

-- Every position of the list of open ones is open.
open_positions-open :
    (s : Symbol) (k : ℕ) (before ls : List Lot)
    → length before ≡ k
    → All (IsOpenAt (before ++ ls)) (open_positions s k ls)
unfolding open_positions
open_positions-open s k before [] e = tt
open_positions-open s k before (l ∷ ls) e =
    let counted : length (before ++ l ∷ []) ≡ suc k =
      omega (arith, length-append before (l ∷ [])) in
    let rest : All (IsOpenAt (before ++ l ∷ ls)) (open_positions s (suc k) ls) =
      rw append_assoc at (open_positions-open s (suc k) (before ++ l ∷ []) ls counted) in
    elim (Bool-cases (is_open_lot (some s) l)) [
      | inl o ↦ rw o ((l, rw (← e) (get_elem?-append_length before ls l), ground arith), rest)
      | inr c ↦ rw c rest
    ]

-- The ratio of a corporate action is positive.
abbrev pub IsRatio : CorporateActionEvent → Type 0
IsRatio ca = (pos 0 <ℤ ca.ratio_new) × (pos 0 <ℤ ca.ratio_old)

-- What a corporate action changes leaves the queues and the accounts as they are.
IsCalm : Replay → Replay → Type 0
IsCalm r r' =
    IsAlike r.all_lots r'.all_lots
    × (r'.open_lots_by_symbol ≡ r.open_lots_by_symbol)
    × (r'.realized_pnl_by_symbol ≡ r.realized_pnl_by_symbol)

IsCalm-refl : (r r' : Replay) → r ≡ r' → IsCalm r r'
unfolding IsCalm IsAlike
IsCalm-refl r r' e = rw (← e) (λ s. (refl, refl), refl, refl)

module _ (ctx : Context) (rounding : IsPositive ctx) (ca : CorporateActionEvent) where
  divide-pos : (a b q : ℤ) → pos 0 <ℤ a → pos 0 <ℤ b → divide ctx a b ≡ some q → pos 0 <ℤ q
  unfolding divide
  divide-pos a b q p r e = ground (arith, rounding.quotient_pos a b p r)

  adjust-IsCalm :
      (old_quantity : ℤ) (r r' : Replay)
      → IsRatio ca
      → IsQueued r
      → adjust_open_lots ctx ca (queue_of ca.symbol r) old_quantity r ≡ some r'
      → IsCalm r r'
  unfolding adjust_open_lots IsCalm
  adjust-IsCalm old r r' (p, q) queued e =
      let queue = queue_of ca.symbol r in
      let (per_share, _, e1) = >>=-eq-some (divide ctx _ old) _ e in
      let (factor, f, e2) = >>=-eq-some (divide ctx ca.ratio_new ca.ratio_old) _ e1 in
      let (lots, g, e3) = >>=-eq-some (scale_lots ctx factor queue r.all_lots) _ e2 in
      let (cost, _, e4) = >>=-eq-some (divide ctx per_share factor) _ e3 in
      let opens : All (IsOpenAt r.all_lots) queue =
        rw (queued ca.symbol) (open_positions-open ca.symbol 0 [] r.all_lots refl) in
      let scaled =
        scale_lots-IsAlike ctx rounding factor (divide-pos ca.ratio_new ca.ratio_old factor p q f)
          queue r.all_lots lots opens g in
      rw (← some-injective _ _ e4) (scaled, refl, refl)

  apply-IsCalm :
      (r r' : Replay)
      → IsRatio ca
      → IsQueued r
      → apply_corporate_action ctx ca r ≡ some r'
      → IsCalm r r'
  unfolding apply_corporate_action
  apply-IsCalm r r' ratio queued e =
      let queue = queue_of ca.symbol r in
      let old = sum_ℤ (map (λ (l : Lot). l.quantity_remaining) (lots_at queue r.all_lots)) in
      elim (Bool-cases (length queue == 0 || eqb_ℤ old (pos 0))) [
        | inl t ↦ IsCalm-refl r r' (some-injective _ _ (rw t at e))
        | inr t ↦ adjust-IsCalm old r r' ratio queued (rw t at e)
      ]

  pub apply_corporate_action-IsQueued :
      (r r' : Replay)
      → IsRatio ca
      → IsQueued r
      → apply_corporate_action ctx ca r ≡ some r'
      → IsQueued r'
  unfolding IsCalm IsAlike queue_of
  apply_corporate_action-IsQueued r r' ratio queued e s =
      let (alike, queues, _) = apply-IsCalm r r' ratio queued e in
      rw queues (queued s ∙ sym (alike s).0)

  pub apply_corporate_action-IsAccounted :
      (r r' : Replay)
      → IsRatio ca
      → IsQueued r
      → IsAccounted r
      → apply_corporate_action ctx ca r ≡ some r'
      → IsAccounted r'
  unfolding IsCalm IsAlike
  apply_corporate_action-IsAccounted r r' ratio queued acc e s =
      let (alike, _, profits) = apply-IsCalm r r' ratio queued e in
      rw profits (acc s ∙ sym (alike s).1)

  divide-succeeds : (a b : ℤ) → eqb_ℤ b (pos 0) ≡ false → divide ctx a b ≡ some (ctx.quotient a b)
  unfolding divide
  divide-succeeds a b e = rw e

  scale_lot-succeeds :
      (factor : ℤ) (l : Lot)
      → eqb_ℤ factor (pos 0) ≡ false
      → (l' : Lot) × (scale_lot ctx factor l ≡ some l')
  unfolding scale_lot
  scale_lot-succeeds factor l e = rw (divide-succeeds l.cost_price factor e) (_, refl)

  scale_at-succeeds :
      (factor : ℤ) (i : ℕ) (ls : List Lot) (o : Option Lot)
      → eqb_ℤ factor (pos 0) ≡ false
      → (ls' : List Lot) × (scale_at ctx factor i ls o ≡ some ls')
  scale_at-succeeds factor i ls none e = (ls, refl)
  scale_at-succeeds factor i ls (some l) e =
      let (l', f) = scale_lot-succeeds factor l e in rw f (_, refl)

  scale_lots-succeeds :
      (factor : ℤ) (q : List ℕ) (ls : List Lot)
      → eqb_ℤ factor (pos 0) ≡ false
      → (ls' : List Lot) × (scale_lots ctx factor q ls ≡ some ls')
  unfolding scale_lots
  scale_lots-succeeds factor [] ls e = (ls, refl)
  scale_lots-succeeds factor (i ∷ q) ls e =
      let (ls', f) = scale_at-succeeds factor i ls (get_elem? ls i) e in
      let (out, g) = scale_lots-succeeds factor q ls' e in (out, rw f g)

  adjust-succeeds :
      (q : List ℕ) (old : ℤ) (r : Replay)
      → IsRatio ca
      → eqb_ℤ old (pos 0) ≡ false
      → (r' : Replay) × (adjust_open_lots ctx ca q old r ≡ some r')
  unfolding adjust_open_lots
  adjust-succeeds q old r (p, d) e =
      let factor = ctx.quotient ca.ratio_new ca.ratio_old in
      let positive = rounding.quotient_pos ca.ratio_new ca.ratio_old p d in
      let nonzero : eqb_ℤ factor (pos 0) ≡ false = ground arith in
      let (lots, f) = scale_lots-succeeds factor q r.all_lots nonzero in
      >>=-succeeds _ _ _ (divide-succeeds _ old e) (
        >>=-succeeds _ _ factor (divide-succeeds ca.ratio_new ca.ratio_old (ground arith)) (
          >>=-succeeds _ _ lots f
            (>>=-succeeds _ _ _ (divide-succeeds _ factor nonzero) (_, refl))))

  pub apply_corporate_action-succeeds :
      (r : Replay) → IsRatio ca → (r' : Replay) × (apply_corporate_action ctx ca r ≡ some r')
  unfolding apply_corporate_action
  apply_corporate_action-succeeds r ratio =
      let queue = queue_of ca.symbol r in
      let old = sum_ℤ (map (λ (l : Lot). l.quantity_remaining) (lots_at queue r.all_lots)) in
      elim (Bool-cases (length queue == 0 || eqb_ℤ old (pos 0))) [
        | inl t ↦ (r, rw t)
        | inr t ↦ let (r', f) = adjust-succeeds queue old r ratio (ground arith) in (r', rw t f)
      ]
