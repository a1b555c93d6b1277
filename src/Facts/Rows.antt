-- ===== src/Facts/Rows.antt =====
-- Lemmas on the rows of a table: what filters, assignments and single results keep.
use nse_agent.Common.{
  ◌≡◌, refl, ap, Bool, false, ◌&&◌, ◌||◌, inl, inr, some, List, [], ◌∷◌, ◌++◌, map, filter, any,
  if◌then◌else◌, arith, All, Bool-cases,
}
use mathlib.Core.Path.{subst}
use nse_agent.Facts.Versions.{scalar_one_or_none}

pub filter-filter {ℓ} :
    {A : Type ℓ} (p q : A → Bool) (xs : List A)
    → filter (λ x. p x && q x) xs ≡ filter q (filter p xs)
filter-filter p q [] = refl
filter-filter p q (x ∷ xs) = ground (arith, filter-filter p q xs)

pub filter-append {ℓ} :
    {A : Type ℓ} (p : A → Bool) (xs ys : List A) → filter p (xs ++ ys) ≡ filter p xs ++ filter p ys
filter-append p [] ys = refl
filter-append p (x ∷ xs) ys = ground (arith, filter-append p xs ys)

pub any-filter {ℓ} :
    {A : Type ℓ} (p q : A → Bool) (xs : List A) → any (λ x. p x && q x) xs ≡ any q (filter p xs)
any-filter p q [] = refl
any-filter p q (x ∷ xs) = ground (arith, any-filter p q xs)

pub scalar-one {ℓ} :
    {A : Type ℓ} (xs : List A) (a : A) → scalar_one_or_none xs ≡ some (some a) → xs ≡ a ∷ []
unfolding scalar_one_or_none
scalar-one [] a h = cc
scalar-one (x ∷ []) a h = cc
scalar-one (x ∷ y ∷ xs) a h = cc

pub some→≡ {ℓ} : {A : Type ℓ} {a b : A} → some a ≡ some b → a ≡ b
some→≡ e = cc

pub one_row {ℓ} :
    {A : Type ℓ} (xs : List A) (a : A) → xs ≡ a ∷ [] → scalar_one_or_none xs ≡ some (some a)
unfolding scalar_one_or_none
one_row xs a h = rw h refl

-- An assignment that leaves the rows it is made to as they are.
pub map-unchanged {ℓ} :
    {A : Type ℓ} (p : A → Bool) (f : A → A) (xs : List A)
    → All (λ x. f x ≡ x) (filter p xs)
    → map (λ x. if p x then f x else x) xs ≡ xs
map-unchanged p f [] h = refl
map-unchanged p f (x ∷ xs) h = elim (Bool-cases (p x)) [
  | inl e ↦
      let both : All (λ y. f y ≡ y) (x ∷ filter p xs) =
        subst (λ b. All (λ y. f y ≡ y) (if b then x ∷ filter p xs else filter p xs)) e h in
      rw (e, both.0) (ap (λ ys. x ∷ ys) (map-unchanged p f xs both.1))
  | inr e ↦
      let rest : All (λ y. f y ≡ y) (filter p xs) =
        subst (λ b. All (λ y. f y ≡ y) (if b then x ∷ filter p xs else filter p xs)) e h in
      rw e (ap (λ ys. x ∷ ys) (map-unchanged p f xs rest))
]

pub map-seen {ℓ κ} :
    {A : Type ℓ} {B : Type κ} (p : A → Bool) (f : A → A) (g : A → B) (xs : List A)
    → ((x : A) → g (f x) ≡ g x)
    → map g (map (λ x. if p x then f x else x) xs) ≡ map g xs
map-seen p f g [] h = refl
map-seen p f g (x ∷ xs) h = elim (Bool-cases (p x)) [
  | inl e ↦ rw (e, h x, map-seen p f g xs h) refl
  | inr e ↦ rw (e, map-seen p f g xs h) refl
]

pub map-append {ℓ κ} :
    {A : Type ℓ} {B : Type κ} (g : A → B) (xs ys : List A) → map g (xs ++ ys) ≡ map g xs ++ map g ys
map-append g [] ys = refl
map-append g (x ∷ xs) ys = rw (map-append g xs ys) refl

pub append_nil {ℓ} : {A : Type ℓ} (xs : List A) → xs ++ [] ≡ xs
append_nil [] = refl
append_nil (x ∷ xs) = ap (λ ys. x ∷ ys) (append_nil xs)

pub any-append {ℓ} :
    {A : Type ℓ} (q : A → Bool) (xs ys : List A) → any q (xs ++ ys) ≡ (any q xs || any q ys)
any-append q [] ys = refl
any-append q (x ∷ xs) ys = ground (arith, any-append q xs ys)

pub any-none {ℓ} :
    {A : Type ℓ} (q : A → Bool) (xs : List A) → All (λ x. q x ≡ false) xs → any q xs ≡ false
any-none q [] h = refl
any-none q (x ∷ xs) h = rw h.0 (any-none q xs h.1)

pub All-part {ℓ κ} :
    {A : Type ℓ} (P : A → Type κ) (p : A → Bool) (xs : List A) → All P xs → All P (filter p xs)
All-part P p [] h = tt
All-part P p (x ∷ xs) h = elim (Bool-cases (p x)) [
  | inl e ↦ rw e (h.0, All-part P p xs h.1)
  | inr e ↦ rw e (All-part P p xs h.1)
]

pub All-implies {ℓ κ ι} :
    {A : Type ℓ} (P : A → Type κ) (Q : A → Type ι) (xs : List A)
    → ((x : A) → P x → Q x)
    → All P xs
    → All Q xs
All-implies P Q [] w h = tt
All-implies P Q (x ∷ xs) w h = (w x h.0, All-implies P Q xs w h.1)

pub append_assoc {ℓ} : {A : Type ℓ} (xs ys zs : List A) → (xs ++ ys) ++ zs ≡ xs ++ (ys ++ zs)
append_assoc [] ys zs = refl
append_assoc (x ∷ xs) ys zs = ap (λ t. x ∷ t) (append_assoc xs ys zs)

pub nil_append {ℓ} : {A : Type ℓ} (xs : List A) → xs ≡ xs ++ []
nil_append [] = refl
nil_append (x ∷ xs) = ap (λ t. x ∷ t) (nil_append xs)
