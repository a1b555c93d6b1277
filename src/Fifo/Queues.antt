-- ===== src/Fifo/Queues.antt =====
-- The positions of the open lots of a symbol, and how they change with the lots.
use nse_agent.Common.{
  ℕ, zero, suc, ◌+◌, ◌≤◌, ◌≡◌, refl, true, false, some, List, [], ◌∷◌, ◌++◌, length, get_elem?, set,
  if◌then◌else◌, arith, Bool-cases, inl, inr,
}
use nse_agent.Fifo.Types.{Symbol, Lot, Replay}
use nse_agent.Fifo.Steps.{queue_of}
use nse_agent.Fifo.Timeline.{is_open_lot}

-- The positions of the open lots of `s`, counted from `k`.
unfoldable pub open_positions : Symbol → ℕ → List Lot → List ℕ
open_positions s k [] = []
open_positions s k (l ∷ ls) =
    let rest = open_positions s (suc k) ls in if is_open_lot (some s) l then k ∷ rest else rest

-- Every queue lists exactly the open lots of its symbol, oldest first.
abbrev pub IsQueued : Replay → Type 0
IsQueued r = (s : Symbol) → queue_of s r ≡ open_positions s 0 r.all_lots

pub open_positions-append :
    (s : Symbol) (k : ℕ) (ls : List Lot) (l : Lot)
    → open_positions s k (ls ++ l ∷ [])
      ≡ open_positions s k ls ++ (if is_open_lot (some s) l then (k + length ls) ∷ [] else [])
unfolding open_positions
open_positions-append s k [] l = ground arith
open_positions-append s k (x ∷ ls) l = ground (arith, open_positions-append s (suc k) ls l)

pub positions-append :
    (s : Symbol) (ls : List Lot) (l : Lot)
    → open_positions s 0 (ls ++ l ∷ [])
      ≡ open_positions s 0 ls ++ (if is_open_lot (some s) l then length ls ∷ [] else [])
positions-append s ls l = ground (arith, open_positions-append s 0 ls l)

-- A position that is not below the start is never listed.
pub not-low :
    (s : Symbol) (k i : ℕ) (ls : List Lot) {rest : List ℕ}
    → open_positions s k ls ≡ i ∷ rest
    → k ≤ i
unfolding open_positions
not-low s k i [] e = cc
not-low s k i (l ∷ ls) {rest} e = ground (arith, not-low s (suc k) i ls {rest = rest})

-- The lot at the head of a queue is in the store, is of the symbol, and is open.
pub head_lot :
    (s : Symbol) (k i : ℕ) (ls : List Lot) (rest : List ℕ)
    → open_positions s k ls ≡ (k + i) ∷ rest
    → (lot : Lot) × (get_elem? ls i ≡ some lot) × (is_open_lot (some s) lot ≡ true)
unfolding open_positions
head_lot s k i [] rest e = cc
head_lot s k zero (l ∷ ls) rest e = elim (Bool-cases (is_open_lot (some s) l)) [
  | inl o ↦ (l, refl, o)
  | inr c ↦ absurd (omega (arith, not-low s (suc k) (k + 0) ls (rw c at e)))
]
head_lot s k (suc i) (l ∷ ls) rest e = elim (Bool-cases (is_open_lot (some s) l)) [
  | inl o ↦ ground arith
  | inr c ↦ head_lot s (suc k) i ls rest (ground arith)
]

-- A lot that stays as it was for the test leaves the positions alone.
pub open_positions-set_same :
    (s : Symbol) (k i : ℕ) (ls : List Lot) (lot lot' : Lot)
    → get_elem? ls i ≡ some lot
    → is_open_lot (some s) lot' ≡ is_open_lot (some s) lot
    → open_positions s k (set ls i lot') ≡ open_positions s k ls
unfolding open_positions
open_positions-set_same s k i [] lot lot' g e = refl
open_positions-set_same s k zero (l ∷ ls) lot lot' g e = ground arith
open_positions-set_same s k (suc i) (l ∷ ls) lot lot' g e =
    rw (open_positions-set_same s (suc k) i ls lot lot' g e)

-- To close the lot at the head of the queue takes it off the queue.
pub open_positions-set_closed :
    (s : Symbol) (k i : ℕ) (ls : List Lot) (rest : List ℕ) (lot' : Lot)
    → open_positions s k ls ≡ (k + i) ∷ rest
    → is_open_lot (some s) lot' ≡ false
    → open_positions s k (set ls i lot') ≡ rest
unfolding open_positions
open_positions-set_closed s k i [] rest lot' e c = cc
open_positions-set_closed s k zero (l ∷ ls) rest lot' e c =
    elim (Bool-cases (is_open_lot (some s) l)) [
      | inl o ↦ ground arith
      | inr n ↦ absurd (omega (arith, not-low s (suc k) (k + 0) ls (rw n at e)))
    ]
open_positions-set_closed s k (suc i) (l ∷ ls) rest lot' e c =
    elim (Bool-cases (is_open_lot (some s) l)) [
      | inl o ↦ ground arith
      | inr n ↦ rw n (open_positions-set_closed s (suc k) i ls rest lot' (ground arith) c)
    ]
