-- ===== src/Common/Maps.antt =====
-- A Python dict keyed by numbers, in insertion order.
use mathlib.Core.Path.{◌≡◌, refl}
use mathlib.Core.List.{List, [], ◌∷◌}
use mathlib.Core.Option.{Option, none, some}
use Prim.Native.Nat.{ℕ}
use native.Mathlib.Omega.{arith}
use nse_agent.Common.Tests.{◌==◌, if◌then◌else◌, or_default}
use nse_agent.Common.Int.{ℤ, pos, ◌+ℤ◌, int_laws}

abbrev pub Dict {ℓ} : Type ℓ → Type ℓ
Dict V = List (ℕ × V)

module _ {ℓ} {V : Type ℓ} where
  abbrev pub lookup : ℕ → Dict V → Option V
  lookup k [] = none
  lookup k ((j, v) ∷ d) = if j == k then some v else lookup k d

  -- `d[k] = v`
  abbrev pub insert : ℕ → V → Dict V → Dict V
  insert k v [] = (k, v) ∷ []
  insert k v ((j, w) ∷ d) = if j == k then (k, v) ∷ d else (j, w) ∷ insert k v d

  -- `d.get(k, default)`
  abbrev pub find_or : ℕ → V → Dict V → V
  find_or k v d = or_default (lookup k d) v

  pub lookup-insert :
      (k j : ℕ) (v : V) (d : Dict V)
      → lookup j (insert k v d) ≡ (if k == j then some v else lookup j d)
  lookup-insert k j v [] = refl
  lookup-insert k j v ((i, w) ∷ d) = ground (arith, lookup-insert k j v d)

  pub find_or-insert :
      (k j : ℕ) (v e : V) (d : Dict V)
      → find_or j e (insert k v d) ≡ (if k == j then v else find_or j e d)
  find_or-insert k j v e d = ground (arith, lookup-insert k j v d)

-- `sum(d.values(), Decimal("0"))`
unfoldable pub total : Dict ℤ → ℤ
total [] = pos 0
total ((_, v) ∷ d) = v +ℤ total d

pub total-insert :
    (k : ℕ) (v : ℤ) (d : Dict ℤ) → total (insert k v d) +ℤ find_or k (pos 0) d ≡ total d +ℤ v
unfolding total
total-insert k v [] = omega int_laws
total-insert k v ((j, w) ∷ d) = grind (int_laws, total-insert k v d)
