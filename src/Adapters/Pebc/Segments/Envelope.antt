-- ===== src/Adapters/Pebc/Segments/Envelope.antt =====
-- The segments of a forecast and the physical envelope of the resource
-- (src/der_flex/adapters/s2/pebc.py).
use der_flex.Prelude.{
  ℕ, ◌+◌, ◌*◌, ◌≤◌, ◌≡◌, inl, inr, List, [], ◌∷◌, arith, ok, All, nat_eq, Result-cases,
}
use Prim.Native.Nat.{◌/◌}
use native.Mathlib.Nat.{div-mul-le_self}
use mathlib.Core.Path.{subst}
use der_flex.Domain.Models.{Energy}
use der_flex.Durable.Steps.Outcomes.{bind-ok}
use der_flex.Adapters.Pebc.{Segment}
use der_flex.Adapters.Pebc.Energy.{
  duration, next_energy, end_energies, future_budget, upward_headroom, downward_headroom,
  upward_wants, downward_wants,
}
use der_flex.Adapters.Pebc.Budget.{FitsIn, allocate_energy-FitsIn, starts-Leaves}
use der_flex.Adapters.Pebc.Segments.{spread, budgeted_segments}

-- After each segment, what it and those before it deliver upward leaves the energy at the lowest
-- level or above.
abbrev pub StaysAbove : Energy → Energy → List Energy → List Segment → Type 0
StaysAbove low used energies [] = Unit
StaysAbove low used [] (s ∷ segments) = ⊥
StaysAbove low used (e ∷ energies) (s ∷ segments) =
    (low + (used + s.upward_w * duration s) ≤ e)
    × StaysAbove low (used + s.upward_w * duration s) energies segments

-- What they take downward leaves it at the highest level or below.
abbrev pub StaysBelow : Energy → Energy → List Energy → List Segment → Type 0
StaysBelow high used energies [] = Unit
StaysBelow high used [] (s ∷ segments) = ⊥
StaysBelow high used (e ∷ energies) (s ∷ segments) =
    (e + (used + s.downward_w * duration s) ≤ high)
    × StaysBelow high (used + s.downward_w * duration s) energies segments

next_energy-within :
    (low high energy e : Energy) (s : Segment)
    → low ≤ high
    → next_energy low high energy s ≡ ok e
    → (low ≤ e) × (e ≤ high)
next_energy-within low high energy e s h k = (ground (arith, h, k), ground (arith, h, k))

end_energies-within :
    (low high energy : Energy) (segments : List Segment) (energies : List Energy)
    → low ≤ high
    → end_energies low high energy segments ≡ ok energies
    → All (λ e. (low ≤ e) × (e ≤ high)) energies
unfolding end_energies
end_energies-within low high energy [] energies h k =
    let is : [] ≡ energies = ground (arith, k) in
    subst {A = List Energy} (All (λ e. (low ≤ e) × (e ≤ high))) is tt
end_energies-within low high energy (s ∷ rest) energies h k =
    let (e, f, g) = bind-ok (next_energy low high energy s) _ energies k in
    let (later, f', g') = bind-ok (end_energies low high e rest) _ energies g in
    let is : e ∷ later ≡ energies = ground (arith, g') in
    subst {A = List Energy} (All (λ x. (low ≤ x) × (x ≤ high))) is
      (next_energy-within low high energy e s h f, end_energies-within low high e rest later h f')

-- A power that spreads an energy delivers no more than it.
spread-le : (e d used given : ℕ) → used ≤ given → used + e / d * d ≤ given + e
spread-le e d used given h = omega (arith, div-mul-le_self e d)

abbrev spread_segment : Segment → Energy → Energy → Segment
spread_segment s up down = record s { upward_w = up / duration s; downward_w = down / duration s }

-- A spreading that succeeds spreads the first segment and the others.
spread-cons :
    (s : Segment) (rest : List Segment) (up down : Energy) (ups downs : List Energy)
    (result : List Segment)
    → spread (s ∷ rest) (up ∷ ups) (down ∷ downs) ≡ ok result
    → (later : List Segment) × (spread rest ups downs ≡ ok later)
      × (spread_segment s up down ∷ later ≡ result)
unfolding spread
spread-cons s rest up down ups downs result h = elim (Result-cases (spread rest ups downs)) [
  | inl (later, f) ↦ (later, f, ground (arith, h, f))
  | inr (e, f) ↦ absurd (ground (arith, h, f))
]

module _ (low high : Energy) where
  spread-StaysAbove :
      (used given : Energy) (energies : List Energy) (segments : List Segment)
      (ups downs : List Energy) (result : List Segment)
      → used ≤ given
      → All (λ e. (low ≤ e) × (e ≤ high)) energies
      → FitsIn given (upward_headroom low energies) ups
      → spread segments ups downs ≡ ok result
      → StaysAbove low used energies result
  unfolding spread
  spread-StaysAbove used given energies [] ups downs result u w f h =
      let is : [] ≡ result = ground (arith, h) in
      subst {A = List Segment} (StaysAbove low used energies) is tt
  spread-StaysAbove used given energies (s ∷ rest) [] downs result u w f h =
      let is : [] ≡ result = ground (arith, h) in
      subst {A = List Segment} (StaysAbove low used energies) is tt
  spread-StaysAbove used given energies (s ∷ rest) (up ∷ ups) [] result u w f h =
      let is : [] ≡ result = ground (arith, h) in
      subst {A = List Segment} (StaysAbove low used energies) is tt
  spread-StaysAbove used given [] (s ∷ rest) (up ∷ ups) (down ∷ downs) result u w f h = absurd f
  spread-StaysAbove used given (e ∷ energies) (s ∷ rest) (up ∷ ups) (down ∷ downs) result u w f h =
      let (later, k, is) = spread-cons s rest up down ups downs result h in
      let within = spread-le up (duration s) used given u in
      subst {A = List Segment} (StaysAbove low used (e ∷ energies)) is (
        ground (arith, within, w.0, f.0),
        spread-StaysAbove (used + up / duration s * duration s) (given + up) energies rest ups downs
            later within w.1 f.1 k,
      )

  spread-StaysBelow :
      (used given : Energy) (energies : List Energy) (segments : List Segment)
      (ups downs : List Energy) (result : List Segment)
      → used ≤ given
      → All (λ e. (low ≤ e) × (e ≤ high)) energies
      → FitsIn given (downward_headroom high energies) downs
      → spread segments ups downs ≡ ok result
      → StaysBelow high used energies result
  unfolding spread
  spread-StaysBelow used given energies [] ups downs result u w f h =
      let is : [] ≡ result = ground (arith, h) in
      subst {A = List Segment} (StaysBelow high used energies) is tt
  spread-StaysBelow used given energies (s ∷ rest) [] downs result u w f h =
      let is : [] ≡ result = ground (arith, h) in
      subst {A = List Segment} (StaysBelow high used energies) is tt
  spread-StaysBelow used given energies (s ∷ rest) (up ∷ ups) [] result u w f h =
      let is : [] ≡ result = ground (arith, h) in
      subst {A = List Segment} (StaysBelow high used energies) is tt
  spread-StaysBelow used given [] (s ∷ rest) (up ∷ ups) (down ∷ downs) result u w f h = absurd f
  spread-StaysBelow used given (e ∷ energies) (s ∷ rest) (up ∷ ups) (down ∷ downs) result u w f h =
      let (later, k, is) = spread-cons s rest up down ups downs result h in
      let within = spread-le down (duration s) used given u in
      subst {A = List Segment} (StaysBelow high used (e ∷ energies)) is (
        ground (arith, within, w.0, f.0),
        spread-StaysBelow (used + down / duration s * duration s) (given + down) energies rest ups
            downs later within w.1 f.1 k,
      )

  -- For a resource whose least energy is not above its greatest: whatever the forecast is, delivering
  -- the upward power of all segments up to any one leaves the energy of the baseline at its end at
  -- the least energy or above, and taking their downward power leaves it at the greatest or below.
  pub budgeted_segments-stay :
      (initial : Energy) (segments result : List Segment)
      → low ≤ high
      → budgeted_segments low high initial segments ≡ ok result
      → (energies : List Energy) × (end_energies low high initial segments ≡ ok energies)
        × StaysAbove low 0 energies result
        × StaysBelow high 0 energies result
  unfolding budgeted_segments
  budgeted_segments-stay initial segments result h k =
      let (energies, e, f) = bind-ok (end_energies low high initial segments) _ result k in
      let within = end_energies-within low high initial segments energies h e in
      let up = upward_headroom low energies in
      let down = downward_headroom high energies in
      (
        energies,
        e,
        spread-StaysAbove 0 0 energies segments _ _ result (omega arith) within
            (allocate_energy-FitsIn 0 up (upward_wants segments) (starts-Leaves (future_budget up)))
            f,
        spread-StaysBelow 0 0 energies segments _ _ result (omega arith) within
            (allocate_energy-FitsIn 0 down (downward_wants segments)
              (starts-Leaves (future_budget down)))
            f,
      )
