-- ===== src/Prelude/Dict/Laws.antt =====
-- Predicates on the entries of a dictionary, and dictionaries with distinct keys.
use mathlib.Core.Path.{◌≡◌, refl, sym, subst, ap}
use mathlib.Core.Bool.{Bool, true, false, ◌||◌}
use mathlib.Core.Option.{Option, none, some, some-injective}
use mathlib.Core.List.{[], ◌∷◌}
use native.Mathlib.Omega.{arith}
use der_flex.Prelude.Tests.{if◌then◌else◌, Bool-cases}
use mathlib.Core.Logic.{◌≢◌, inl, inr}
use der_flex.Prelude.Classes.{Eq, ◌==◌, ==_iff}
use der_flex.Prelude.Lists.{All, All-map_pred}
use der_flex.Prelude.Dict.{Dict, get, set, set_default, has, map_values, get-set, get-map_values}

module _ {ℓ κ} {K : Type ℓ} {V : Type κ} ⦃e : Eq K⦄ where
  -- No key stands twice.
  abbrev pub HasUniqueKeys : Dict K V → Type κ
  HasUniqueKeys [] = Unit
  HasUniqueKeys ((k, v) ∷ d) = (get k d ≡ none) × HasUniqueKeys d

  pub has-set : (k j : K) (v : V) (d : Dict K V) → has j (set k v d) ≡ (k == j || has j d)
  has-set k j v d = ground (arith, get-set k j v d)

  pub has-set_mono : (k j : K) (v : V) (d : Dict K V) → has j d ≡ true → has j (set k v d) ≡ true
  has-set_mono k j v d h = ground (arith, get-set k j v d)

  pub has-set_self : (k : K) (v : V) (d : Dict K V) → has k (set k v d) ≡ true
  has-set_self k v d = ground (arith, get-set k k v d, ==_iff k k)

  pub get-set_self : (k : K) (v : V) (d : Dict K V) → get k (set k v d) ≡ some v
  get-set_self k v d = ground (arith, get-set k k v d, ==_iff k k)

  pub set-HasUniqueKeys :
      (k : K) (v : V) (d : Dict K V) → HasUniqueKeys d → HasUniqueKeys (set k v d)
  set-HasUniqueKeys k v [] h = (refl, tt)
  set-HasUniqueKeys k v ((j, w) ∷ d) h =
      ground (arith, ==_iff j k, ==_iff k j, get-set k j v d, set-HasUniqueKeys k v d h.1)

  -- Writing what is there changes nothing.
  pub set-same : (k : K) (v : V) (d : Dict K V) → get k d ≡ some v → set k v d ≡ d
  set-same k v [] h = cc
  set-same k v ((j, w) ∷ d) h = ground (arith, ==_iff j k, set-same k v d)

module _ {ℓ κ ι} {K : Type ℓ} {V : Type κ} ⦃e : Eq K⦄ where
  All-set_cons :
      (P : K × V → Type ι) (k j : K) (v w : V) (d : Dict K V)
      → (b : Bool) → (b ≡ true → j ≡ k)
      → P (k, v)
      → P (j, w)
      → All P d
      → All P (set k v d)
      → All P (if b then (j, v) ∷ d else (j, w) ∷ set k v d)
  All-set_cons P k j v w d true same pk pj pd ps = (subst (λ x. P (x, v)) (sym (same refl)) pk, pd)
  All-set_cons P k j v w d false same pk pj pd ps = (pj, ps)

  pub All-set :
      (P : K × V → Type ι) (k : K) (v : V) (d : Dict K V) → P (k, v) → All P d → All P (set k v d)
  All-set P k v [] pk h = (pk, tt)
  All-set P k v ((j, w) ∷ d) pk h =
      All-set_cons P k j v w d (j == k) (==_iff j k).0 pk h.0 h.1 (All-set P k v d pk h.1)

  All-get_cons :
      (P : K × V → Type ι) (k j : K) (v w : V) (o : Option V) (b : Bool)
      → (b ≡ true → j ≡ k)
      → P (j, w)
      → (o ≡ some v → P (k, v))
      → (if b then some w else o) ≡ some v
      → P (k, v)
  All-get_cons P k j v w o true same pj rest h =
      subst (λ x. P (x, v)) (same refl) (subst (λ x. P (j, x)) (some-injective w v h) pj)
  All-get_cons P k j v w o false same pj rest h = rest h

  pub All-get :
      (P : K × V → Type ι) (k : K) (v : V) (d : Dict K V) → All P d → get k d ≡ some v → P (k, v)
  All-get P k v [] h e = cc
  All-get P k v ((j, w) ∷ d) h e =
      All-get_cons P k j v w (get k d) (j == k) (==_iff j k).0 h.0 (All-get P k v d h.1) e

module _ {ℓ κ ι} {K : Type ℓ} {V : Type κ} where
  pub All-map_values :
      (P : K × V → Type ι) (f : V → V)
      → ((k : K) (v : V) → P (k, v) → P (k, f v))
      → (d : Dict K V) → All P d
      → All P (map_values f d)
  All-map_values P f step [] h = tt
  All-map_values P f step ((k, v) ∷ d) h = (step k v h.0, All-map_values P f step d h.1)

module _ {ℓ κ} {K : Type ℓ} {V : Type κ} ⦃e : Eq K⦄ where
  pub map_values-HasUniqueKeys :
      (f : V → V) (d : Dict K V) → HasUniqueKeys d → HasUniqueKeys (map_values f d)
  map_values-HasUniqueKeys f [] h = tt
  map_values-HasUniqueKeys f ((k, v) ∷ d) h =
      (ground (arith, get-map_values f k d, h.0), map_values-HasUniqueKeys f d h.1)

  pub set_default-HasUniqueKeys :
      (k : K) (v : V) (d : Dict K V) → HasUniqueKeys d → HasUniqueKeys (set_default k v d)
  set_default-HasUniqueKeys k v d h = elim (Bool-cases (has k d)) [
    | inl e ↦ rw e h
    | inr e ↦ rw e (set-HasUniqueKeys k v d h)
  ]

  has_get : (k : K) (v : V) (d : Dict K V) → get k d ≡ some v → (k' : K) → get k' d ≡ none → k' ≢ k
  has_get k v d h k' f same = cc (h, f, ap (λ x. get x d) same)

  -- With distinct keys, each entry is what its key gives.
  pub entries-get : (d : Dict K V) → HasUniqueKeys d → All (λ e. get e.0 d ≡ some e.1) d
  entries-get [] h = tt
  entries-get ((k, v) ∷ d) h = (
    ground (arith, ==_iff k k),
    All-map_pred _ _ (λ e g. ground (arith, g, ==_iff k e.0, has_get e.0 e.1 d g k h.0)) d
        (entries-get d h.1),
  )
