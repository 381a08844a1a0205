-- ===== src/Examples/Pebc.antt =====
-- The energies of a forecast of two segments: a charge and a discharge.
use der_flex.Prelude.{ℕ, ◌≡◌, List, [], ◌∷◌, Result, ok, err, refl, arith}
use der_flex.Prelude.Int.{pos, negsuc}
use der_flex.Adapters.Pebc.{Segment, PebcError}
use der_flex.Adapters.Pebc.Energy.{end_energies, future_budget, allocate_energy}
use der_flex.Adapters.Pebc.Segments.{spread, budgeted_segments}
use der_flex.Adapters.Pebc.Segments.Envelope.{StaysAbove, StaysBelow, budgeted_segments-stay}

abbrev segments : List Segment
segments =
    (record {
      start = 0;
      end = 10;
      baseline_w = pos 100;
      upward_w = 50;
      downward_w = 50;
      confidence = 1;
    })
    ∷ (record {
      start = 10;
      end = 20;
      baseline_w = negsuc 149;
      upward_w = 80;
      downward_w = 30;
      confidence = 1;
    })
    ∷ []

abbrev of_result : Result PebcError (List Segment) → List Segment
of_result (ok xs) = xs
of_result (err e) = []

abbrev result : List Segment
result = of_result (budgeted_segments 0 2500 1000 segments)

segments_fit : budgeted_segments 0 2500 1000 segments ≡ ok result
unfolding budgeted_segments end_energies future_budget allocate_energy spread
segments_fit = refl

budgeted_segments-stay_example :
    (energies : List ℕ) × (end_energies 0 2500 1000 segments ≡ ok energies)
    × StaysAbove 0 0 energies result
    × StaysBelow 2500 0 energies result
budgeted_segments-stay_example =
    budgeted_segments-stay 0 2500 1000 segments result (ground (arith)) segments_fit
