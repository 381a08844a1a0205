-- ===== src/Prelude/Tables.antt =====
-- Statements on a table, which is the list of its rows: the first row of a selection, its first rows,
-- and an update of the rows that a condition selects.
use Prim.Native.Nat.{ℕ, zero, suc}
use mathlib.Core.Path.{◌≡◌, refl, subst}
use mathlib.Core.Logic.{inl, inr}
use mathlib.Core.Bool.{Bool, true, false, ◌&&◌}
use mathlib.Core.Option.{Option, none, some}
use mathlib.Core.List.{List, [], ◌∷◌, ◌++◌, map}
use native.Mathlib.Omega.{arith}
use der_flex.Prelude.Tests.{if◌then◌else◌, Bool-cases, ltb}
use der_flex.Prelude.Lists.{All, any, filter, contains, length}
use der_flex.Prelude.Classes.{Eq, ◌==◌, ==_iff}

module _ {ℓ} {A : Type ℓ} where
  -- `fetchone`
  abbrev pub find : (A → Bool) → List A → Option A
  find p [] = none
  find p (x ∷ xs) = if p x then some x else find p xs

  -- `LIMIT`
  abbrev pub take : ℕ → List A → List A
  take zero xs = []
  take (suc n) [] = []
  take (suc n) (x ∷ xs) = x ∷ take n xs

  -- `UPDATE ... WHERE`
  abbrev pub update_where : (A → Bool) → (A → A) → List A → List A
  update_where p f [] = []
  update_where p f (x ∷ xs) = (if p x then f x else x) ∷ update_where p f xs

module _ {ℓ κ} {A : Type ℓ} where
  pub All-take : (P : A → Type κ) (n : ℕ) (xs : List A) → All P xs → All P (take n xs)
  All-take P zero xs h = tt
  All-take P (suc n) [] h = tt
  All-take P (suc n) (x ∷ xs) h = (h.0, All-take P n xs h.1)

  -- What the rows of a selection satisfy.
  pub All-filtered :
      (P : A → Type κ) (p : A → Bool) (xs : List A)
      → All (λ x. p x ≡ true → P x) xs
      → All P (filter p xs)
  All-filtered P p [] h = tt
  All-filtered P p (x ∷ xs) h = elim (Bool-cases (p x)) [
    | inl e ↦ rw e (h.0 e, All-filtered P p xs h.1)
    | inr e ↦ rw e (All-filtered P p xs h.1)
  ]

  pub All-each : (P : A → Type κ) (xs : List A) → ((x : A) → P x) → All P xs
  All-each P [] h = tt
  All-each P (x ∷ xs) h = (h x, All-each P xs h)

  pub All-find :
      (P : A → Type κ) (p : A → Bool) (xs : List A) (x : A)
      → All P xs
      → find p xs ≡ some x
      → P x × (p x ≡ true)
  All-find P p [] x h e = absurd (cc e)
  All-find P p (y ∷ xs) x h e = elim (Bool-cases (p y)) [
    | inl t ↦ subst (λ z. P z × (p z ≡ true)) (ground (arith)) (h.0, t)
    | inr t ↦ All-find P p xs x h.1 (ground (arith))
  ]

  -- What holds of the rows that an update changes and of those that it leaves.
  pub All-updated :
      (P : A → Type κ) (p : A → Bool) (f : A → A) (xs : List A)
      → ((x : A) → p x ≡ true → P (f x))
      → ((x : A) → p x ≡ false → P x)
      → All P (update_where p f xs)
  All-updated P p f [] h k = tt
  All-updated P p f (x ∷ xs) h k = elim (Bool-cases (p x)) [
    | inl e ↦ rw e (h x e, All-updated P p f xs h k)
    | inr e ↦ rw e (k x e, All-updated P p f xs h k)
  ]

  pub All-update_where :
      (P : A → Type κ) (p : A → Bool) (f : A → A) (xs : List A)
      → ((x : A) → p x ≡ true → P x → P (f x))
      → All P xs
      → All P (update_where p f xs)
  All-update_where P p f [] h k = tt
  All-update_where P p f (x ∷ xs) h k = elim (Bool-cases (p x)) [
    | inl e ↦ rw e (h x e k.0, All-update_where P p f xs h k.1)
    | inr e ↦ rw e (k.0, All-update_where P p f xs h k.1)
  ]

module _ {ℓ} {A : Type ℓ} where
  -- An update keeps a row that passes a test, if it keeps the test.
  pub any-update_where :
      (q p : A → Bool) (f : A → A) (xs : List A)
      → ((x : A) → p x ≡ true → q x ≡ true → q (f x) ≡ true)
      → any q xs ≡ true
      → any q (update_where p f xs) ≡ true
  any-update_where q p f [] h k = k
  any-update_where q p f (x ∷ xs) h k = ground (arith, h x, k, any-update_where q p f xs h)

  -- The same for what is known of the rows.
  pub any-update_rows :
      (q p : A → Bool) (f : A → A) (xs : List A)
      → All (λ x. p x ≡ true → q x ≡ true → q (f x) ≡ true) xs
      → any q xs ≡ true
      → any q (update_where p f xs) ≡ true
  any-update_rows q p f [] h k = k
  any-update_rows q p f (x ∷ xs) h k = ground (arith, h.0, k, any-update_rows q p f xs h.1)

  -- A selection by a test that an update keeps finds the updated row.
  pub find-update_where :
      (q p : A → Bool) (f : A → A) (xs : List A)
      → ((x : A) → q (f x) ≡ q x)
      → find q (update_where p f xs)
        ≡ elim (find q xs) [ none ↦ none | some x ↦ some (if p x then f x else x) ]
  find-update_where q p f [] h = refl
  find-update_where q p f (x ∷ xs) h = ground (arith, h x, find-update_where q p f xs h)

module _ {ℓ κ ι} {A : Type ℓ} {B : Type κ} where
  pub All-mapped :
      (P : B → Type ι) (f : A → B) (xs : List A) → All (λ x. P (f x)) xs → All P (map f xs)
  All-mapped P f [] h = tt
  All-mapped P f (x ∷ xs) h = (h.0, All-mapped P f xs h.1)

module _ {ℓ κ} {A : Type ℓ} ⦃e : Eq A⦄ where
  pub All-contains : (P : A → Type κ) (a : A) (xs : List A) → All P xs → contains a xs ≡ true → P a
  All-contains P a [] h k = absurd (cc k)
  All-contains P a (x ∷ xs) h k = elim (Bool-cases (a == x)) [
    | inl t ↦ subst P (ground (arith, ==_iff a x)) h.0
    | inr t ↦ All-contains P a xs h.1 (ground (arith))
  ]

module _ {ℓ} {A : Type ℓ} where
  pub find-append :
      (p : A → Bool) (xs ys : List A)
      → find p (xs ++ ys) ≡ elim (find p xs) [ none ↦ find p ys | some x ↦ some x ]
  find-append p [] ys = refl
  find-append p (x ∷ xs) ys = ground (arith, find-append p xs ys)

  pub any-filter : (q p : A → Bool) (xs : List A) → any q (filter p xs) ≡ any (λ x. p x && q x) xs
  any-filter q p [] = refl
  any-filter q p (x ∷ xs) = ground (arith, any-filter q p xs)

  -- What `find` finds is there.
  pub any-find :
      (q p : A → Bool) (xs : List A) (x : A) → find p xs ≡ some x → q x ≡ true → any q xs ≡ true
  any-find q p [] x f h = absurd (cc f)
  any-find q p (y ∷ xs) x f h = elim (Bool-cases (p y)) [
    | inl e ↦ ground (arith, h, f, e)
    | inr e ↦ ground (arith, any-find q p xs x (ground (arith, f, e)) h)
  ]

  pub length-filter-any :
      (p : A → Bool) (xs : List A) → any p xs ≡ true → ltb 0 (length (filter p xs)) ≡ true
  length-filter-any p [] h = absurd (cc h)
  length-filter-any p (x ∷ xs) h = elim (Bool-cases (p x)) [
    | inl e ↦ rw e (ground (arith))
    | inr e ↦ rw e (length-filter-any p xs (ground (arith, h, e)))
  ]
