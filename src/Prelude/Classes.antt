-- ===== src/Prelude/Classes.antt =====
-- Python's `==`, as an interface with one instance for each type that the program compares.
use Prim.Native.Nat.{ℕ}
use Prim.Native.String.{String}
use mathlib.Core.Path.{◌≡◌, refl}
use mathlib.Core.Logic.{◌↔◌}
use mathlib.Core.Bool.{Bool, true, ◌&&◌}
use native.Mathlib.Omega.{arith}
use text.Mathlib.Text.{◌==◌ as str_beq}
use text.Mathlib.TextEquality.{eq_iff}
use der_flex.Prelude.Tests.{nat_beq, nat_beq_iff}

pub record Eq {κ} (K : Type κ) : Type κ where
  pub beq : K → K → Bool
  pub beq_iff : (x y : K) → (beq x y ≡ true) ↔ (x ≡ y)

infix 50 ◌==◌
abbrev pub ◌==◌ {κ} : {K : Type κ} → ⦃q : Eq K⦄ → K → K → Bool
◌==◌ ⦃q⦄ x y = q.beq x y

module _ {κ} {K : Type κ} ⦃q : Eq K⦄ where
  pub ==_iff : (x y : K) → ((x == y) ≡ true) ↔ (x ≡ y)
  ==_iff = q.beq_iff

  pub ==_refl : (x : K) → (x == x) ≡ true
  ==_refl x = (q.beq_iff x x).1 refl

-- A pair of texts, such as a tenant and a resource.
abbrev pub pair_beq : String × String → String × String → Bool
pair_beq p q = str_beq p.0 q.0 && str_beq p.1 q.1

pub pair_beq_iff : (p q : String × String) → (pair_beq p q ≡ true) ↔ (p ≡ q)
pair_beq_iff p q = ground (arith, eq_iff p.0 q.0, eq_iff p.1 q.1)

instance abbrev pub pair_eq : Eq (String × String)
pair_eq = record { beq = pair_beq; beq_iff = pair_beq_iff }

instance abbrev pub string_eq : Eq String
string_eq = record { beq = str_beq; beq_iff = eq_iff }

instance abbrev pub nat_eq : Eq ℕ
nat_eq = record { beq = nat_beq; beq_iff = nat_beq_iff }
