-- ===== src/Fifo/Order.antt =====
-- The order in which a replay handles its inputs.
use mathlib.Core.List.{Perm}
use nse_agent.Common.{
  ℕ, suc, ◌≡◌, refl, ◌⊎◌, inl, inr, ◌<◌, ◌≤◌, true, ◌&&◌, ◌||◌, ltb, leb, ◌==◌, List, [], ◌∷◌, ◌++◌,
  map, ap, All, arith, Bool-cases,
}
use nse_agent.Common.Sorting.{AllPairs, sort_by-perm, sort_by-AllPairs}
use nse_agent.Fifo.Types.{Date, TradeEvent, CorporateActionEvent, OpeningPositionAdjustment}
use nse_agent.Fifo.Timeline.{
  Payload, Entry, date_of, priority_of, entry_le, timeline, numbered, payloads,
}

entry_le_total : (a b : Entry) → (entry_le a b ≡ true) ⊎ (entry_le b a ≡ true)
unfolding entry_le
entry_le_total a b = ground arith

entry_le_trans : (a b c : Entry) → entry_le a b ≡ true → entry_le b c ≡ true → entry_le a c ≡ true
unfolding entry_le
entry_le_trans a b c p q = ground arith

-- The input takes effect on the day.
abbrev pub IsOn : Payload → Date → Type 0
IsOn (Payload.opening adj) day = adj.opening_date ≡ day
IsOn (Payload.corporate_action ca) day = ca.event_date ≡ day
IsOn (Payload.trade event) day = event.trade_date ≡ day

-- On one day, opening adjustments go before corporate actions and these before trades; two inputs
-- of one kind, numbered `m` and `n`, go in the order of their numbers.
abbrev pub IsInTurn : Payload → Payload → ℕ → ℕ → Type 0
IsInTurn (Payload.opening _) (Payload.opening _) m n = m ≤ n
IsInTurn (Payload.opening _) _ m n = Unit
IsInTurn (Payload.corporate_action _) (Payload.opening _) m n = ⊥
IsInTurn (Payload.corporate_action _) (Payload.corporate_action _) m n = m ≤ n
IsInTurn (Payload.corporate_action _) (Payload.trade _) m n = Unit
IsInTurn (Payload.trade _) (Payload.trade _) m n = m ≤ n
IsInTurn (Payload.trade _) _ m n = ⊥

abbrev pub ComesBefore : Entry → Entry → Type 0
ComesBefore a b =
    IsOn a.payload a.date
    × IsOn b.payload b.date
    × ((a.date < b.date) ⊎ ((a.date ≡ b.date) × IsInTurn a.payload b.payload a.seq b.seq))

priority-IsInTurn :
    (p q : Payload) (m n : ℕ)
    → (ltb (priority_of p) (priority_of q) || priority_of p == priority_of q && leb m n) ≡ true
    → IsInTurn p q m n
priority-IsInTurn (Payload.opening _) (Payload.opening _) m n h = ground arith
priority-IsInTurn (Payload.opening _) (Payload.corporate_action _) m n h = tt
priority-IsInTurn (Payload.opening _) (Payload.trade _) m n h = tt
priority-IsInTurn (Payload.corporate_action _) (Payload.opening _) m n h = ground arith
priority-IsInTurn (Payload.corporate_action _) (Payload.corporate_action _) m n h = ground arith
priority-IsInTurn (Payload.corporate_action _) (Payload.trade _) m n h = tt
priority-IsInTurn (Payload.trade _) (Payload.opening _) m n h = ground arith
priority-IsInTurn (Payload.trade _) (Payload.corporate_action _) m n h = ground arith
priority-IsInTurn (Payload.trade _) (Payload.trade _) m n h = ground arith

-- The date and the priority of an entry are those of its input.
abbrev IsMade : Entry → Type 0
IsMade e = IsOn e.payload e.date × (e.priority ≡ priority_of e.payload)

date_of-IsOn : (p : Payload) → IsOn p (date_of p)
date_of-IsOn (Payload.opening adj) = refl
date_of-IsOn (Payload.corporate_action ca) = refl
date_of-IsOn (Payload.trade event) = refl

numbered-IsMade : (seq : ℕ) (ps : List Payload) → All IsMade (numbered seq ps)
unfolding numbered
numbered-IsMade seq [] = tt
numbered-IsMade seq (p ∷ ps) = ((date_of-IsOn p, refl), numbered-IsMade (suc seq) ps)

entry_le-ComesBefore : (a b : Entry) → IsMade a → IsMade b → entry_le a b ≡ true → ComesBefore a b
unfolding entry_le
entry_le-ComesBefore a b (oa, pa) (ob, pb) h = (
  oa,
  ob,
  elim (Bool-cases (ltb a.date b.date)) [
    | inl e ↦ inl (ground arith)
    | inr e ↦ inr (
      ground arith,
      priority-IsInTurn a.payload b.payload a.seq b.seq (rw (← pa, ← pb) (ground arith)),
    )
  ],
)

-- The numbers count up from `n`.
abbrev pub IsCounted : ℕ → List ℕ → Type 0
IsCounted n [] = Unit
IsCounted n (m ∷ ms) = (m ≡ n) × IsCounted (suc n) ms

numbered-IsCounted : (n : ℕ) (ps : List Payload) → IsCounted n (map (λ e. e.seq) (numbered n ps))
unfolding numbered
numbered-IsCounted n [] = tt
numbered-IsCounted n (p ∷ ps) = (refl, numbered-IsCounted (suc n) ps)

payload-numbered : (n : ℕ) (ps : List Payload) → map (λ e. e.payload) (numbered n ps) ≡ ps
unfolding numbered
payload-numbered n [] = refl
payload-numbered n (p ∷ ps) = ap (λ t. p ∷ t) (payload-numbered (suc n) ps)

-- The timeline holds every input once, numbered in the order given, and it is in the order of
-- dates; on one date, opening adjustments come first, then corporate actions, then trades, each in
-- the order in which they were given.
pub timeline-IsSortedBy :
    (events : List TradeEvent) (cas : List CorporateActionEvent)
    (adjs : List OpeningPositionAdjustment)
    → (entries : List Entry) × (map (λ e. e.payload) entries
        ≡ map Payload.opening adjs
          ++ (map Payload.corporate_action cas ++ map Payload.trade events))
      × IsCounted 0 (map (λ e. e.seq) entries)
      × Perm (timeline events cas adjs) entries
      × AllPairs ComesBefore (timeline events cas adjs)
unfolding timeline payloads
timeline-IsSortedBy events cas adjs = (
  numbered 0 (payloads events cas adjs),
  payload-numbered 0 (payloads events cas adjs),
  numbered-IsCounted 0 (payloads events cas adjs),
  sort_by-perm entry_le (numbered 0 (payloads events cas adjs)),
  sort_by-AllPairs entry_le entry_le_total entry_le_trans IsMade ComesBefore
      (numbered 0 (payloads events cas adjs)) entry_le-ComesBefore
      (numbered-IsMade 0 (payloads events cas adjs)),
)
