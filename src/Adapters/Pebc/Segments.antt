-- ===== src/Adapters/Pebc/Segments.antt =====
-- The segments that `normalize_pebc_offer` cuts into offers (src/der_flex/adapters/s2/pebc.py).
pub mod Envelope
use der_flex.Prelude.{
  ℕ, ◌+◌, ◌-◌, ◌*◌, Bool, true, false, ◌&&◌, ◌||◌, not, Option, none, some, List, [], ◌∷◌, Result,
  ok, err, ◌>>=◌, ltb, ◌==◌, nat_eq, if◌then◌else◌, leb,
}
use Prim.Native.Nat.{◌/◌}
use der_flex.Prelude.Int.{ℤ, ltb_ℤ}
use der_flex.Domain.Models.{Instant, second}
use der_flex.Domain.Resources.{ProvisionedResource}
use der_flex.Adapters.Pebc.{
  Segment, PebcError, LimitRange, PowerConstraints, PowerForecast, invalid_ramp, horizon_too_long,
  no_overlap, zero_division, check_clock, upper_ranges, lower_ranges, minimum_upper_w,
  maximum_lower_w, maximum_ramp_adjustment_w, raw_segments, invalid_power, invalid_energy,
}
use der_flex.Adapters.Pebc.Energy.{
  duration, end_energies, future_budget, upward_headroom, downward_headroom, allocate_energy,
  upward_wants, downward_wants,
}

-- The second loop forwards: the powers that spread the given energies over the segments.
unfoldable pub spread : List Segment → List ℕ → List ℕ → Result PebcError (List Segment)
spread (s ∷ rest) (up ∷ ups) (down ∷ downs) =
    let later = spread rest ups downs in
    if duration s == 0 then err zero_division else do
      segments ← later
      ok ((record s { upward_w = up / duration s; downward_w = down / duration s }) ∷ segments)
spread _ _ _ = ok []

-- The segments within the envelope of energies in 10⁻⁹ W·µs.
unfoldable pub budgeted_segments : ℕ → ℕ → ℕ → List Segment → Result PebcError (List Segment)
unfolding end_energies allocate_energy future_budget spread
budgeted_segments low high initial segments = do
  energies ← end_energies low high initial segments
  spread segments
      (allocate_energy 0 (future_budget (upward_headroom low energies)) (upward_wants segments))
      (allocate_energy 0 (future_budget (downward_headroom high energies))
        (downward_wants segments))

-- The times of the observation and the tolerances of the clock.
pub record Observation : Type 0 where
  pub observed_at : Instant
  pub received_at : Instant
  pub maximum_age : ℕ
  pub maximum_skew : ℕ
  pub response_time : ℕ

-- The segments of a forecast whose limits are known.
abbrev pub limited_segments :
    ProvisionedResource
    → Observation
    → PowerConstraints
    → Instant
    → PowerForecast
    → ℤ
    → ℤ
    → Result PebcError (List Segment)
limited_segments r o c valid_until forecast low high = if ltb_ℤ high low then err no_overlap else do
  raw ←
      raw_segments low high (maximum_ramp_adjustment_w r o.response_time) c.valid_from valid_until
        forecast.start_time forecast.elements
  budgeted_segments (r.min_energy_kwh * 1000) (r.max_energy_kwh * 1000)
      (r.initial_energy_kwh * 1000) raw

abbrev pub ranged_segments :
    ProvisionedResource
    → Observation
    → PowerConstraints
    → PowerForecast
    → List LimitRange
    → List LimitRange
    → Option Instant
    → Result PebcError (List Segment)
ranged_segments r o c forecast (x ∷ xs) (y ∷ ys) (some valid_until) =
    if ltb (c.valid_from + 86400 * second) valid_until
    then err horizon_too_long
    else limited_segments r o c valid_until forecast (minimum_upper_w r x xs)
        (maximum_lower_w r y ys)
ranged_segments r o c forecast _ _ _ = ok []

-- From the clock check on, for a record of the registry.
unfoldable pub normalized_segments :
    ProvisionedResource
    → Observation
    → PowerConstraints
    → PowerForecast
    → Result PebcError (List Segment)
unfolding check_clock raw_segments budgeted_segments
normalized_segments r o c forecast = do
  u ← check_clock o.observed_at o.received_at o.maximum_age o.maximum_skew
  if ltb_ℤ r.max_power_kw r.min_power_kw
      then err invalid_power
      else if not
          (leb r.min_energy_kwh r.initial_energy_kwh && leb r.initial_energy_kwh r.max_energy_kwh)
      then err invalid_energy
      else if o.response_time == 0
      then err invalid_ramp
      else ranged_segments r o c forecast (upper_ranges c) (lower_ranges c) c.valid_until
