-- ===== src/Adapters/Pebc.antt =====
-- `normalize_pebc_offer` up to its segments (src/der_flex/adapters/s2/pebc.py): the limits of the
-- constraints, the segments of the forecast, and the energy that they share.
--
-- A power is a whole number of 10⁻⁹ W and an energy one of 10⁻⁹ W·µs; quotients are rounded down.
-- The parsing of the S2 messages is s2python's; numbers that are not finite, which the code refuses, have no counterpart.
pub mod Energy
pub mod Budget
pub mod Segments
use der_flex.Prelude.{
  ℕ, ◌+◌, ◌-◌, ◌*◌, String, Bool, true, false, ◌&&◌, ◌||◌, not, Option, none, some, List, [], ◌∷◌,
  Result, ok, err, ◌>>=◌, leb, ltb, ◌==◌, nat_eq, if◌then◌else◌, filter, map, length, min, max,
}
use Prim.Native.Nat.{◌/◌}
use der_flex.Prelude.Int.{ℤ, pos, pos_part, neg_part, ltb_ℤ, leb_ℤ, ◌-ℤ◌}
use der_flex.Domain.Models.{Instant, Power, second}
use der_flex.Domain.Resources.{ProvisionedResource}
use der_flex.Adapters.Dispatch.{times_1000}

-- The ValueErrors, and the ZeroDivisionError of an element of no duration.
pub data PebcError : Type 0 where
  offer_clock_skew invalid_power invalid_energy invalid_ramp : PebcError
  horizon_too_long no_overlap : PebcError
  baseline_power baseline_energy zero_division : PebcError

-- An allowed limit range: of the supported quantity, an upper limit or a lower one.
pub record LimitRange : Type 0 where
  pub is_supported : Bool
  pub is_upper : Bool
  pub abnormal_condition_only : Bool
  pub start_of_range : ℤ
  pub end_of_range : ℤ

pub record PowerConstraints : Type 0 where
  pub allowed_limit_ranges : List LimitRange
  pub valid_from : Instant
  pub valid_until : Option Instant

pub record ForecastValue : Type 0 where
  pub is_supported : Bool
  pub value_expected : ℤ
  pub value_lower_95PPR : Option ℤ
  pub value_upper_95PPR : Option ℤ

pub record ForecastElement : Type 0 where
  pub duration_ms : ℕ
  pub power_values : List ForecastValue

pub record PowerForecast : Type 0 where
  pub start_time : Instant
  pub elements : List ForecastElement

pub record Segment : Type 0 where
  pub start : Instant
  pub end : Instant
  pub baseline_w : ℤ
  pub upward_w : Power
  pub downward_w : Power
  pub confidence : ℕ

abbrev pub one : ℕ
one = 1000000000

abbrev pub absolute : ℤ → ℕ
absolute z = pos_part z + neg_part z

-- `_confidence`, a whole number of 10⁻⁹.
abbrev pub confidence_between : ℤ → Option ℤ → Option ℤ → ℕ
confidence_between expected (some lower) (some upper) =
    let scale = max (absolute expected * 2) (1000 * one) in
    one - pos_part (upper -ℤ lower) * one / scale
confidence_between expected _ _ = one / 2

unfoldable pub confidence : ForecastValue → ℕ
confidence v = confidence_between v.value_expected v.value_lower_95PPR v.value_upper_95PPR

-- `observed_at` lies in the window around `received_at`.
unfoldable pub check_clock : Instant → Instant → ℕ → ℕ → Result PebcError (Unit {0})
check_clock observed_at received_at maximum_age maximum_skew =
    if ltb (observed_at + maximum_age) received_at || ltb (received_at + maximum_skew) observed_at
    then err offer_clock_skew
    else ok tt

abbrev pub min_ℤ : ℤ → ℤ → ℤ
min_ℤ a b = if leb_ℤ a b then a else b

abbrev pub max_ℤ : ℤ → ℤ → ℤ
max_ℤ a b = if leb_ℤ a b then b else a

abbrev pub least : ℤ → List LimitRange → ℤ
least a [] = a
least a (x ∷ xs) = least (min_ℤ a x.start_of_range) xs

abbrev pub greatest : ℤ → List LimitRange → ℤ
greatest a [] = a
greatest a (x ∷ xs) = greatest (max_ℤ a x.end_of_range) xs

abbrev pub upper_ranges : PowerConstraints → List LimitRange
upper_ranges c =
    filter (λ x. x.is_supported && x.is_upper && not x.abnormal_condition_only)
      c.allowed_limit_ranges

abbrev pub lower_ranges : PowerConstraints → List LimitRange
lower_ranges c =
    filter (λ x. x.is_supported && not x.is_upper && not x.abnormal_condition_only)
      c.allowed_limit_ranges

abbrev pub minimum_upper_w : ProvisionedResource → LimitRange → List LimitRange → ℤ
minimum_upper_w r x xs = max_ℤ (least x.start_of_range xs) (times_1000 r.min_power_kw)

abbrev pub maximum_lower_w : ProvisionedResource → LimitRange → List LimitRange → ℤ
maximum_lower_w r x xs = min_ℤ (greatest x.end_of_range xs) (times_1000 r.max_power_kw)

-- `maximum_ramp_adjustment_w` for a response time in microseconds.
abbrev pub maximum_ramp_adjustment_w : ProvisionedResource → ℕ → Power
maximum_ramp_adjustment_w r response_time =
    r.ramp_rate_kw_per_min * response_time * 1000 / (60 * second)

abbrev pub raw_segment : ℤ → ℤ → Power → Instant → Instant → ForecastValue → Segment
raw_segment low high ramp start end v = record {
  start = start;
  end = end;
  baseline_w = v.value_expected;
  upward_w = min (pos_part (v.value_expected -ℤ low)) ramp;
  downward_w = min (pos_part (high -ℤ v.value_expected)) ramp;
  confidence = confidence v;
}

-- The segment of an element with one supported value.
abbrev pub segment_of :
    ℤ → ℤ → Power → Instant → Instant → List ForecastValue → Result PebcError (List Segment)
segment_of low high ramp start end [] = ok []
segment_of low high ramp start end (v ∷ []) =
    if leb_ℤ low v.value_expected && leb_ℤ v.value_expected high
    then ok (raw_segment low high ramp start end v ∷ [])
    else err baseline_power
segment_of low high ramp start end (v ∷ other ∷ rest) = ok []

-- An element outside the validity of the constraints has none.
abbrev pub element_segment :
    ℤ
    → ℤ
    → Power
    → Instant
    → Instant
    → Instant
    → Instant
    → List ForecastValue
    → Result PebcError (List Segment)
element_segment low high ramp valid_from valid_until start end values =
    if leb valid_from start && leb end valid_until
    then segment_of low high ramp start end (filter (λ v. v.is_supported) values)
    else ok []

-- The loop over the elements of the forecast.
unfoldable pub raw_segments :
    ℤ
    → ℤ
    → Power
    → Instant
    → Instant
    → Instant
    → List ForecastElement
    → Result PebcError (List Segment)
unfolding confidence
raw_segments low high ramp valid_from valid_until cursor [] = ok []
raw_segments low high ramp valid_from valid_until cursor (element ∷ rest) =
    let end = cursor + element.duration_ms * 1000 in
    do
      here ← element_segment low high ramp valid_from valid_until cursor end element.power_values
      later ← raw_segments low high ramp valid_from valid_until end rest
      ok (elim here [ [] ↦ later | segment ∷ more ↦ segment ∷ later ])
