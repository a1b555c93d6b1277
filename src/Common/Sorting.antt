-- ===== src/Common/Sorting.antt =====
-- Python's `sorted`, which is stable, by a Boolean order.
use mathlib.Core.Path.{◌≡◌}
use mathlib.Core.Logic.{◌⊎◌, inl, inr}
use mathlib.Core.Bool.{Bool, true}
use mathlib.Core.List.{List, [], ◌∷◌, Perm}
use mathlib.Core.List.Perm
use Prim.Native.Nat.{ℕ}
use nse_agent.Common.Tests.{if◌then◌else◌, Bool-cases, leb, ◌==◌}
use nse_agent.Common.Lists.{All, any}

-- Each element is in the relation with every later one.
abbrev pub AllPairs {ℓ κ} : {A : Type ℓ} → (A → A → Type κ) → List A → Type κ
AllPairs R [] = Unit
AllPairs R (x ∷ xs) = All (R x) xs × AllPairs R xs

module _ {ℓ} {A : Type ℓ} (le : A → A → Bool) where
  -- before the first element that is not smaller
  unfoldable pub insert_by : A → List A → List A
  insert_by x [] = x ∷ []
  insert_by x (y ∷ ys) = if le x y then x ∷ y ∷ ys else y ∷ insert_by x ys

  unfoldable pub sort_by : List A → List A
  unfolding insert_by
  sort_by [] = []
  sort_by (x ∷ xs) = insert_by x (sort_by xs)

  abbrev pub IsSortedBy : List A → Type ℓ
  IsSortedBy [] = Unit
  IsSortedBy (x ∷ xs) = All (λ y. le x y ≡ true) xs × IsSortedBy xs

  insert_by-perm : (x : A) (xs : List A) → Perm (insert_by x xs) (x ∷ xs)
  unfolding insert_by
  insert_by-perm x [] = Perm.refl (x ∷ [])
  insert_by-perm x (y ∷ ys) = elim (Bool-cases (le x y)) [
    | inl h ↦ rw h (Perm.refl (x ∷ y ∷ ys))
    | inr h ↦ rw h (Perm.trans (Perm.cons y (insert_by-perm x ys)) (Perm.swap x y ys))
  ]

  pub sort_by-perm : (xs : List A) → Perm (sort_by xs) xs
  unfolding sort_by
  sort_by-perm [] = Perm.refl []
  sort_by-perm (x ∷ xs) = Perm.trans (insert_by-perm x (sort_by xs)) (Perm.cons x (sort_by-perm xs))

  All-insert_by {κ} :
      (P : A → Type κ) (x : A) (xs : List A) → P x → All P xs → All P (insert_by x xs)
  unfolding insert_by
  All-insert_by P x [] p h = (p, tt)
  All-insert_by P x (y ∷ ys) p h = elim (Bool-cases (le x y)) [
    | inl e ↦ rw e (p, h)
    | inr e ↦ rw e (h.0, All-insert_by P x ys p h.1)
  ]

  pub All-sort_by {κ} : (P : A → Type κ) (xs : List A) → All P xs → All P (sort_by xs)
  unfolding sort_by
  All-sort_by P [] h = tt
  All-sort_by P (x ∷ xs) h = All-insert_by P x (sort_by xs) h.0 (All-sort_by P xs h.1)

  module _ (le_total : (a b : A) → (le a b ≡ true) ⊎ (le b a ≡ true))
      (le_trans : (a b c : A) → le a b ≡ true → le b c ≡ true → le a c ≡ true) where
    below-All :
        (x y : A) (ys : List A)
        → le x y ≡ true
        → All (λ z. le y z ≡ true) ys
        → All (λ z. le x z ≡ true) ys
    below-All x y [] h a = tt
    below-All x y (z ∷ zs) h a = (le_trans x y z h a.0, below-All x y zs h a.1)

    pub insert_by-IsSortedBy : (x : A) (xs : List A) → IsSortedBy xs → IsSortedBy (insert_by x xs)
    unfolding insert_by
    insert_by-IsSortedBy x [] s = (tt, tt)
    insert_by-IsSortedBy x (y ∷ ys) s = elim (Bool-cases (le x y)) [
      | inl h ↦ rw h ((h, below-All x y ys h s.0), s)
      | inr h ↦ rw h (
        All-insert_by (λ z. le y z ≡ true) x ys (elim (le_total x y) [ inl k ↦ cc | inr k ↦ k ])
            s.0,
        insert_by-IsSortedBy x ys s.1,
      )
    ]

    pub sort_by-IsSortedBy : (xs : List A) → IsSortedBy (sort_by xs)
    unfolding sort_by
    sort_by-IsSortedBy [] = tt
    sort_by-IsSortedBy (x ∷ xs) = insert_by-IsSortedBy x (sort_by xs) (sort_by-IsSortedBy xs)

    -- Of any two elements, the one that comes first is below the other.
    pub sort_by-AllPairs {κ ι} :
        (P : A → Type κ) (R : A → A → Type ι) (xs : List A)
        → ((a b : A) → P a → P b → le a b ≡ true → R a b)
        → All P xs
        → AllPairs R (sort_by xs)
    sort_by-AllPairs P R xs f h = pairs (sort_by xs) (All-sort_by P xs h) (sort_by-IsSortedBy xs)
      where
        related :
            (x : A) (ys : List A) → P x → All P ys → All (λ y. le x y ≡ true) ys → All (R x) ys
        related x [] p q r = tt
        related x (y ∷ ys) p q r = (f x y p q.0 r.0, related x ys p q.1 r.1)

        pairs : (ys : List A) → All P ys → IsSortedBy ys → AllPairs R ys
        pairs [] q s = tt
        pairs (y ∷ ys) q s = (related y ys q.0 q.1 s.0, pairs ys q.1 s.1)

-- `sorted(set(xs))`
unfoldable pub sorted_set : List ℕ → List ℕ
sorted_set [] = []
sorted_set (s ∷ ss) =
    let rest = sorted_set ss in if any (λ r. r == s) rest then rest else insert_by leb s rest
