-- ===== src/Prelude/Sorting.antt =====
-- Python's `sorted`, as a stable insertion sort by a Boolean order, and what it keeps.
use mathlib.Core.Bool.{Bool, true, false}
use mathlib.Core.List.{List, [], ◌∷◌}
use Prim.Native.Nat.{Ordering}
use Prim.Native.String.{String, compare}
use der_flex.Prelude.Tests.{if◌then◌else◌, Bool-cases}
use der_flex.Prelude.Lists.{All}
use mathlib.Core.Logic.{inl, inr}

-- Texts are compared by code points.
abbrev pub text_leb : String → String → Bool
text_leb s t = elim (compare s t) [ Ordering.gt ↦ false | _ ↦ true ]

module _ {ℓ} {A : Type ℓ} (leq : A → A → Bool) where
  unfoldable pub insert_sorted : A → List A → List A
  insert_sorted a [] = a ∷ []
  insert_sorted a (x ∷ xs) = if leq a x then a ∷ x ∷ xs else x ∷ insert_sorted a xs

  unfoldable pub sorted : List A → List A
  unfolding insert_sorted
  sorted [] = []
  sorted (x ∷ xs) = insert_sorted x (sorted xs)

module _ {ℓ κ} {A : Type ℓ} (leq : A → A → Bool) (P : A → Type κ) where
  All-insert_sorted : (a : A) (xs : List A) → P a → All P xs → All P (insert_sorted leq a xs)
  unfolding insert_sorted
  All-insert_sorted a [] p h = (p, tt)
  All-insert_sorted a (x ∷ xs) p h = elim (Bool-cases (leq a x)) [
    | inl e ↦ rw e (p, h)
    | inr e ↦ rw e (h.0, All-insert_sorted a xs p h.1)
  ]

  pub All-sorted : (xs : List A) → All P xs → All P (sorted leq xs)
  unfolding sorted
  All-sorted [] h = tt
  All-sorted (x ∷ xs) h = All-insert_sorted x (sorted leq xs) h.0 (All-sorted xs h.1)

-- `R` holds between each item and those behind it.
abbrev pub Pairwise {ℓ κ} : {A : Type ℓ} → (A → A → Type κ) → List A → Type κ
Pairwise R [] = Unit
Pairwise R (x ∷ xs) = All (R x) xs × Pairwise R xs

module _ {ℓ κ} {A : Type ℓ} (leq : A → A → Bool) (R : A → A → Type κ)
    (symmetric : (x y : A) → R x y → R y x) where
  All-flip : (a : A) (xs : List A) → All (R a) xs → All (λ x. R x a) xs
  All-flip a [] h = tt
  All-flip a (x ∷ xs) h = (symmetric a x h.0, All-flip a xs h.1)

  Pairwise-insert_sorted :
      (a : A) (xs : List A) → All (R a) xs → Pairwise R xs → Pairwise R (insert_sorted leq a xs)
  unfolding insert_sorted
  Pairwise-insert_sorted a [] h p = (tt, tt)
  Pairwise-insert_sorted a (x ∷ xs) h p = elim (Bool-cases (leq a x)) [
    | inl e ↦ rw e (h, p)
    | inr e ↦ rw e (
      All-insert_sorted leq (R x) a xs (symmetric a x h.0) p.0,
      Pairwise-insert_sorted a xs h.1 p.1,
    )
  ]

  pub Pairwise-sorted : (xs : List A) → Pairwise R xs → Pairwise R (sorted leq xs)
  unfolding sorted
  Pairwise-sorted [] p = tt
  Pairwise-sorted (x ∷ xs) p =
      Pairwise-insert_sorted x (sorted leq xs) (All-sorted leq (R x) xs p.0)
        (Pairwise-sorted xs p.1)
