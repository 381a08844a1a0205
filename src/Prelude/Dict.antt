-- ===== src/Prelude/Dict.antt =====
-- Python's `dict`, as its entries in insertion order.
pub mod Laws
use mathlib.Core.Path.{◌≡◌, refl}
use mathlib.Core.Bool.{Bool, true, false}
use mathlib.Core.Option.{Option, none, some}
use mathlib.Core.Option
use mathlib.Core.List.{List, [], ◌∷◌}
use native.Mathlib.Omega.{arith}
use der_flex.Prelude.Tests.{if◌then◌else◌}
use der_flex.Prelude.Classes.{Eq, ◌==◌, ==_iff}

abbrev pub Dict {ℓ κ} : Type ℓ → Type κ → Type (ℓ ⊔ κ)
Dict K V = List (K × V)

module _ {ℓ κ} {K : Type ℓ} {V : Type κ} ⦃e : Eq K⦄ where
  -- `d.get(k)`
  abbrev pub get : K → Dict K V → Option V
  get k [] = none
  get k ((j, v) ∷ d) = if j == k then some v else get k d

  -- `d[k] = v`: a known key keeps its place.
  abbrev pub set : K → V → Dict K V → Dict K V
  set k v [] = (k, v) ∷ []
  set k v ((j, w) ∷ d) = if j == k then (j, v) ∷ d else (j, w) ∷ set k v d

  -- `del d[k]`, `d.pop(k)`
  abbrev pub del : K → Dict K V → Dict K V
  del k [] = []
  del k ((j, w) ∷ d) = if j == k then d else (j, w) ∷ del k d

  -- `k in d`
  abbrev pub has : K → Dict K V → Bool
  has k d = elim (get k d) [ none ↦ false | some v ↦ true ]

  -- `d.setdefault(k, v)`
  abbrev pub set_default : K → V → Dict K V → Dict K V
  set_default k v d = if has k d then d else set k v d

  pub get-set :
      (k j : K) (v : V) (d : Dict K V) → get j (set k v d) ≡ (if k == j then some v else get j d)
  get-set k j v [] = refl
  get-set k j v ((i, w) ∷ d) = ground (arith, ==_iff i k, ==_iff i j, ==_iff k j, get-set k j v d)

module _ {ℓ κ ι} {K : Type ℓ} {V : Type κ} {W : Type ι} where
  -- `for k, v in tuple(d.items()): d[k] = f(v)`
  abbrev pub map_values : (V → W) → Dict K V → Dict K W
  map_values f [] = []
  map_values f ((k, v) ∷ d) = (k, f v) ∷ map_values f d

module _ {ℓ κ} {K : Type ℓ} {V : Type κ} where
  -- `d.values()`
  abbrev pub values : Dict K V → List V
  values [] = []
  values ((k, v) ∷ d) = v ∷ values d

  -- `d.keys()`
  abbrev pub keys : Dict K V → List K
  keys [] = []
  keys ((k, v) ∷ d) = k ∷ keys d

module _ {ℓ κ} {K : Type ℓ} {V : Type κ} ⦃e : Eq K⦄ where
  pub get-map_values :
      (f : V → V) (k : K) (d : Dict K V) → get k (map_values f d) ≡ Option.map f (get k d)
  get-map_values f k [] = refl
  get-map_values f k ((j, w) ∷ d) = ground (arith, get-map_values f k d)
