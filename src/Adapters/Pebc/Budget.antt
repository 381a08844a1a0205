-- ===== src/Adapters/Pebc/Budget.antt =====
-- The energies that are allocated to the segments, beside the physical envelope
-- (src/der_flex/adapters/s2/pebc.py).
use der_flex.Prelude.{◌+◌, ◌-◌, ◌≤◌, List, [], ◌∷◌, arith, min}
use der_flex.Domain.Models.{Energy}
use der_flex.Adapters.Pebc.Energy.{least_of, future_budget, allocate_energy}

-- After each segment, what was given so far fits into the headroom at its end.
abbrev pub FitsIn : Energy → List Energy → List Energy → Type 0
FitsIn given headroom [] = Unit
FitsIn given [] (e ∷ energies) = ⊥
FitsIn given (h ∷ headroom) (e ∷ energies) = (given + e ≤ h) × FitsIn (given + e) headroom energies

-- What was given so far leaves the next budget nonnegative.
abbrev pub Leaves : Energy → List Energy → Type 0
Leaves given [] = Unit
Leaves given (b ∷ budget) = given ≤ b

future_budget-Leaves :
    (given h : Energy) (rest : List Energy) → given ≤ least_of h rest → Leaves given rest
future_budget-Leaves given h [] k = tt
future_budget-Leaves given h (b ∷ rest) k = ground (arith, k)

least_of-le : (h : Energy) (rest : List Energy) → least_of h rest ≤ h
least_of-le h [] = omega arith
least_of-le h (b ∷ rest) = ground (arith)

given-within : (given want b : Energy) → given ≤ b → given + min want (b - given) ≤ b
given-within given want b h = ground (arith, h)

pub allocate_energy-FitsIn :
    (given : Energy) (headroom wants : List Energy)
    → Leaves given (future_budget headroom)
    → FitsIn given headroom (allocate_energy given (future_budget headroom) wants)
unfolding allocate_energy future_budget
allocate_energy-FitsIn given [] wants h = tt
allocate_energy-FitsIn given (x ∷ headroom) [] h = tt
allocate_energy-FitsIn given (x ∷ headroom) (want ∷ wants) h =
    let later = future_budget headroom in
    let within = given-within given want (least_of x later) h in
    (
      ground (arith, within, least_of-le x later),
      allocate_energy-FitsIn (given + min want (least_of x later - given)) headroom wants
          (future_budget-Leaves (given + min want (least_of x later - given)) x later within),
    )

pub starts-Leaves : (budget : List Energy) → Leaves 0 budget
starts-Leaves [] = tt
starts-Leaves (b ∷ budget) = omega arith
