-- ===== src/Reservations/Allocate.antt =====
-- The allocation loop of `ReservationService.create` (src/der_flex/reservations/service.py).
pub mod Outcome
use der_flex.Prelude.{◌-◌, min, none, some, List, [], ◌∷◌, Result, ok, err, if◌then◌else◌, leb, ltb}
use der_flex.Domain.Models.{
  Power, FlexibilityDirection, upward, downward, FlexibilityOffer, tolerance,
}
use der_flex.Reservations.Records.{Allocation, ReservationError, key_error}
use der_flex.Reservations.Backend.{Backend, reserved_for_offer}

unfoldable pub capacity_of : FlexibilityDirection → FlexibilityOffer → Power
capacity_of upward o = o.upward_capacity_kw
capacity_of downward o = o.downward_capacity_kw

abbrev pub allocation_for : FlexibilityOffer → Power → Allocation
allocation_for o p = record {
  resource_id = o.resource_id;
  power_kw = p;
  baseline_power_kw = o.baseline_power_kw;
  source_version = o.source_version;
}

-- `if allocated > 0: allocations.append(...)`
abbrev pub prepend : FlexibilityOffer → Power → List Allocation → List Allocation
prepend o p rest = if ltb 0 p then allocation_for o p ∷ rest else rest

abbrev pub with_first :
    FlexibilityOffer
    → Power
    → Result ReservationError (List Allocation × Power)
    → Result ReservationError (List Allocation × Power)
with_first o p (ok (rest, remaining)) = ok (prepend o p rest, remaining)
with_first o p (err e) = err e

-- The loop over the offers with the power that remains: the allocations, in order, and what remains
-- after the loop. `max(0.0, capacity - reserved)` is the subtraction of naturals.
unfoldable pub allocate :
    Backend
    → FlexibilityDirection
    → List FlexibilityOffer
    → Power
    → Result ReservationError (List Allocation × Power)
unfolding capacity_of
allocate b direction [] remaining = ok ([], remaining)
allocate b direction (o ∷ offers) remaining = elim (reserved_for_offer b o direction) [
  | none ↦ err key_error
  | some reserved ↦
      (let allocated = min (capacity_of direction o - reserved) remaining in
        let rest = allocate b direction offers (remaining - allocated) in
        if leb (remaining - allocated) tolerance
        then ok (prepend o allocated [], remaining - allocated)
        else with_first o allocated rest)
]
