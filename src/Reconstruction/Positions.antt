-- ===== src/Reconstruction/Positions.antt =====
-- The positions of a snapshot show what the lots of the replay hold.
use nse_agent.Common.{
  Bool, ℕ, ◌≡◌, refl, true, false, ◌||◌, none, List, [], ◌∷◌, map, pos, filter, any, if◌then◌else◌,
  leb, ◌==◌, ==→≡, arith, Bool-cases, inl, inr, sym, ◌∙◌, int_laws,
}
use mathlib.Core.Bool.{false≢true}
use nse_agent.Common.Sorting.{insert_by, sort_by}
use nse_agent.Common.Decimals.{Context}
use nse_agent.Fifo.Types.{Symbol, Date, Lot, Replay}
use nse_agent.Fifo.Timeline.{is_open_lot, open_lots, first_symbols, symbols_with_open_lots}
use nse_agent.Fifo.Totals.{total_by, held, held-open_lots}
use nse_agent.Reconstruction.Snapshot.{
  not_empty, PriceProvider, total_quantity, position_of, positions_of, find_position, quantity_of,
}

pub any-insert_by :
    (s x : ℕ) (xs : List ℕ) → any (λ y. y == s) (insert_by leb x xs) ≡ any (λ y. y == s) (x ∷ xs)
unfolding insert_by
any-insert_by s x [] = refl
any-insert_by s x (y ∷ ys) = ground (arith, any-insert_by s x ys)

pub not_empty-filter {ℓ} :
    {A : Type ℓ} (p : A → Bool) (xs : List A) → not_empty (filter p xs) ≡ any p xs
not_empty-filter p [] = refl
not_empty-filter p (x ∷ xs) = ground (arith, not_empty-filter p xs)

any-sort_by : (s : ℕ) (xs : List ℕ) → any (λ y. y == s) (sort_by leb xs) ≡ any (λ y. y == s) xs
unfolding sort_by
any-sort_by s [] = refl
any-sort_by s (x ∷ xs) = ground (arith, any-insert_by s x (sort_by leb xs), any-sort_by s xs)

first_symbols-old :
    (seen : List Symbol) (l : Lot) (ls : List Lot)
    → any (λ y. y == l.symbol) seen ≡ true
    → first_symbols seen (l ∷ ls) ≡ first_symbols seen ls
unfolding first_symbols
first_symbols-old seen l ls e = rw (e, first_symbols)

first_symbols-new :
    (seen : List Symbol) (l : Lot) (ls : List Lot)
    → any (λ y. y == l.symbol) seen ≡ false
    → first_symbols seen (l ∷ ls) ≡ l.symbol ∷ first_symbols (l.symbol ∷ seen) ls
unfolding first_symbols
first_symbols-new seen l ls e = rw (e, first_symbols)

-- A symbol that is not among the first ones is not among the lots.
first_symbols-misses :
    (s : Symbol) (seen : List Symbol) (ls : List Lot)
    → any (λ y. y == s) seen ≡ false
    → any (λ y. y == s) (first_symbols seen ls) ≡ false
    → any (λ l. l.symbol == s) ls ≡ false
first_symbols-misses s seen [] n e = refl
first_symbols-misses s seen (l ∷ ls) n e = elim (Bool-cases (any (λ y. y == l.symbol) seen)) [
  | inl old ↦
      let rest = first_symbols-misses s seen ls n (rw (first_symbols-old seen l ls old) at e) in
      elim (Bool-cases (l.symbol == s)) [
        | inl same ↦
            let hit : any (λ y. y == s) seen ≡ true = rw (← ==→≡ l.symbol s same) old in
            absurd (false≢true (sym n ∙ hit))
        | inr other ↦ rw (other, rest)
      ]
  | inr new ↦
      let split : (l.symbol == s || any (λ y. y == s) (first_symbols (l.symbol ∷ seen) ls))
          ≡ false =
        rw (first_symbols-new seen l ls new) at e in
      let miss : (l.symbol == s) ≡ false = ground arith in
      rw miss (first_symbols-misses s (l.symbol ∷ seen) ls (rw miss n) (rw miss at split))
]

held-misses :
    (s : Symbol) (ls : List Lot)
    → any (λ l. l.symbol == s) (filter (is_open_lot none) ls) ≡ false
    → held s ls ≡ pos 0
unfolding total_by
held-misses s [] e = refl
held-misses s (l ∷ ls) e = grind (int_laws, held-misses s ls)

module _ (ctx : Context) (provider : PriceProvider) (as_of : Date) (r : Replay) where
  quantity-position_of :
      (s : Symbol) → (position_of ctx provider as_of r s).quantity_held ≡ held s r.all_lots
  unfolding position_of total_quantity
  quantity-position_of s = held-open_lots s r

  symbol-position_of : (s : Symbol) → (position_of ctx provider as_of r s).symbol ≡ s
  unfolding position_of
  symbol-position_of s = refl

  -- Looking a symbol up among the positions of a list of symbols.
  find-positions :
      (s : Symbol) (xs : List Symbol)
      → quantity_of (find_position (map (position_of ctx provider as_of r) xs) s)
        ≡ (if any (λ y. y == s) xs then held s r.all_lots else pos 0)
  unfolding find_position
  find-positions s [] = refl
  find-positions s (x ∷ xs) = rw (symbol-position_of x) (elim (Bool-cases (x == s)) [
    | inl e ↦ rw (e, quantity-position_of x, ==→≡ x s e)
    | inr e ↦ rw e (find-positions s xs)
  ])

  -- The position found for a symbol holds what the lots of the replay hold of it; where no
  -- position is found, they hold nothing.
  pub quantity-find_position :
      (s : Symbol)
      → quantity_of (find_position (positions_of ctx provider as_of r) s) ≡ held s r.all_lots
  unfolding positions_of symbols_with_open_lots open_lots
  quantity-find_position s =
      let symbols = first_symbols [] (filter (is_open_lot none) r.all_lots) in
      rw (find-positions s (sort_by leb symbols), any-sort_by s symbols)
        (elim (Bool-cases (any (λ y. y == s) symbols)) [
          | inl e ↦ rw e
          | inr e ↦ rw e (
              sym (
                held-misses s r.all_lots
                  (first_symbols-misses s [] (filter (is_open_lot none) r.all_lots) refl e)))
        ])
