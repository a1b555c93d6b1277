-- ===== src/Facts/Highest.antt =====
-- The first row of a query that sorts by version, the highest first.
use nse_agent.Common.{
  ℕ, ◌≡◌, ◌≤◌, ◌<◌, refl, sym, ap, ◌∙◌, Bool, true, inl, inr, Option, none, some, List, [], ◌∷◌,
  ◌++◌, filter, if◌then◌else◌, leb, arith, All, Option-cases, Bool-cases,
}
use nse_agent.Common.Sorting.{insert_by, sort_by, All-sort_by}
use nse_agent.Facts.Versions.{first}

pub All-subset {ℓ κ} :
    {A : Type ℓ} (P : A → Type κ) (p q : A → Bool) (xs : List A)
    → ((x : A) → q x ≡ true → p x ≡ true)
    → All P (filter p xs)
    → All P (filter q xs)
All-subset P p q [] w h = tt
All-subset P p q (x ∷ xs) w h = elim (Bool-cases (q x)) [
  | inl e ↦
      let both : All P (x ∷ filter p xs) = rw (w x e) at h in
      rw e (both.0, All-subset P p q xs w both.1)
  | inr e ↦ rw e (elim (Bool-cases (p x)) [
    | inl f ↦ let both : All P (x ∷ filter p xs) = rw f at h in All-subset P p q xs w both.1
    | inr f ↦ let rest : All P (filter p xs) = rw f at h in All-subset P p q xs w rest
  ])
]

pub All-first {ℓ κ} :
    {A : Type ℓ} (P : A → Type κ) (xs : List A) (a : A) → All P xs → first xs ≡ some a → P a
All-first P [] a h e = cc
All-first P (x ∷ xs) a h e = let same : x ≡ a = cc in rw (← same) h.0

module _ {ℓ} {A : Type ℓ} (version : A → ℕ) where
  abbrev pub newest : List A → Option A
  newest xs = first (sort_by (λ a b. leb (version b) (version a)) xs)

  abbrev pub or_newer : A → Option A → Option A
  or_newer c none = some c
  or_newer c (some r) = if leb (version r) (version c) then some c else some r

  first-insert_by :
      (r : A) (rs : List A)
      → first (insert_by (λ a b. leb (version b) (version a)) r rs) ≡ or_newer r (first rs)
  unfolding insert_by
  first-insert_by r [] = refl
  first-insert_by r (x ∷ rs) = ground arith

  newest_step : (x : A) (xs : List A) → newest (x ∷ xs) ≡ or_newer x (newest xs)
  unfolding sort_by
  newest_step x xs = first-insert_by x (sort_by (λ a b. leb (version b) (version a)) xs)

  pub newest-append :
      (xs : List A) (t : A) → All (λ x. version x < version t) xs → newest (xs ++ (t ∷ [])) ≡ some t
  unfolding sort_by insert_by
  newest-append [] t h = refl
  newest-append (x ∷ xs) t h =
      newest_step x (xs ++ (t ∷ []))
      ∙ ap (or_newer x) (newest-append xs t h.1)
      ∙ ground (arith, h.0)

  pub newest-none : (xs : List A) → newest xs ≡ none → xs ≡ []
  newest-none [] e = refl
  newest-none (x ∷ xs) e =
      let step : or_newer x (newest xs) ≡ none = sym (newest_step x xs) ∙ e in
      elim (Option-cases (newest xs)) [
        | inl f ↦ let wrong : or_newer x none ≡ none = sym (ap (or_newer x) f) ∙ step in cc
        | inr (b, f) ↦
            let wrong : or_newer x (some b) ≡ none = sym (ap (or_newer x) f) ∙ step in ground arith
      ]

  All-le :
      (b c : A) (xs : List A)
      → version b ≤ version c
      → All (λ x. version x ≤ version b) xs
      → All (λ x. version x ≤ version c) xs
  All-le b c [] le h = tt
  All-le b c (x ∷ xs) le h = (omega (arith, h.0), All-le b c xs le h.1)

  or_newer-bound :
      (x b c : A) → or_newer x (some b) ≡ some c → (version x ≤ version c) × (version b ≤ version c)
  or_newer-bound x b c h = elim (Bool-cases (leb (version b) (version x))) [
    | inl e ↦
        let same : some x ≡ some c = rw e at h in
        let itself : x ≡ c = cc in rw (← itself) (omega arith, ground arith)
    | inr e ↦
        let same : some b ≡ some c = rw e at h in
        let itself : b ≡ c = cc in rw (← itself) (ground arith, omega arith)
  ]

  pub newest-bound :
      (xs : List A) (c : A) → newest xs ≡ some c → All (λ x. version x ≤ version c) xs
  newest-bound [] c e = tt
  newest-bound (x ∷ xs) c e =
      let step : or_newer x (newest xs) ≡ some c = sym (newest_step x xs) ∙ e in
      elim (Option-cases (newest xs)) [
        | inl f ↦
            let only : xs ≡ [] = newest-none xs f in
            let same : or_newer x none ≡ some c = sym (ap (or_newer x) f) ∙ step in
            let itself : x ≡ c = cc in rw (only, itself) (omega arith, tt)
        | inr (b, f) ↦
            let same : or_newer x (some b) ≡ some c = sym (ap (or_newer x) f) ∙ step in
            let (le, rest) = or_newer-bound x b c same in
            (le, All-le b c xs rest (newest-bound xs b f))
      ]

  pub All-newest {κ} : (P : A → Type κ) (xs : List A) (c : A) → All P xs → newest xs ≡ some c → P c
  All-newest P xs c h e =
      All-first P (sort_by (λ a b. leb (version b) (version a)) xs) c
        (All-sort_by (λ a b. leb (version b) (version a)) P xs h) e
