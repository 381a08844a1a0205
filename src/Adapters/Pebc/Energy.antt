-- ===== src/Adapters/Pebc/Energy.antt =====
-- The energy that the segments of a forecast share, in `normalize_pebc_offer`
-- (src/der_flex/adapters/s2/pebc.py).
use der_flex.Prelude.{
  ℕ, ◌+◌, ◌-◌, ◌*◌, ◌||◌, List, [], ◌∷◌, Result, ok, err, ◌>>=◌, ltb, if◌then◌else◌, map, min, max,
}
use der_flex.Prelude.Int.{pos_part, neg_part}
use der_flex.Domain.Models.{Energy, second}
use der_flex.Adapters.Pebc.{Segment, PebcError, baseline_energy}

-- `ENERGY_TOLERANCE_KWH`: 10⁻⁹ kWh.
abbrev pub energy_tolerance : Energy
energy_tolerance = 1000 * 3600 * second

abbrev pub duration : Segment → ℕ
duration s = s.end - s.start

-- The energy after a segment, kept within the envelope.
abbrev pub next_energy : Energy → Energy → Energy → Segment → Result PebcError Energy
next_energy low high energy s =
    let gained = energy + pos_part s.baseline_w * duration s in
    let lost = neg_part s.baseline_w * duration s in
    if ltb (gained + energy_tolerance) (low + lost) || ltb (high + energy_tolerance + lost) gained
    then err baseline_energy
    else ok (max low (min high (gained - lost)))

-- `baseline_end_energy`
unfoldable pub end_energies :
    Energy → Energy → Energy → List Segment → Result PebcError (List Energy)
end_energies low high energy [] = ok []
end_energies low high energy (s ∷ rest) = do
  energy' ← next_energy low high energy s
  later ← end_energies low high energy' rest
  ok (energy' ∷ later)

abbrev pub least_of : Energy → List Energy → Energy
least_of h [] = h
least_of h (b ∷ rest) = min h b

-- The loop backwards: the least headroom from a segment on.
unfoldable pub future_budget : List Energy → List Energy
future_budget [] = []
future_budget (h ∷ rest) = let later = future_budget rest in least_of h later ∷ later

abbrev pub upward_headroom : Energy → List Energy → List Energy
upward_headroom low energies = map (λ energy. energy - low) energies

abbrev pub downward_headroom : Energy → List Energy → List Energy
downward_headroom high energies = map (λ energy. high - energy) energies

-- The loop forwards: what each segment gets of its budget, when it wants `wants`.
unfoldable pub allocate_energy : Energy → List Energy → List Energy → List Energy
allocate_energy allocated [] wants = []
allocate_energy allocated (b ∷ budget) [] = []
allocate_energy allocated (b ∷ budget) (want ∷ wants) =
    let given = min want (b - allocated) in given ∷ allocate_energy (allocated + given) budget wants

abbrev pub upward_wants : List Segment → List Energy
upward_wants = map (λ s. s.upward_w * duration s)

abbrev pub downward_wants : List Segment → List Energy
downward_wants = map (λ s. s.downward_w * duration s)
