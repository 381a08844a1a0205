-- ===== src/Reservations/Allocate/Outcome.antt =====
-- What the allocation loop computes, against the capacity that each offer has left.
use der_flex.Prelude.{
  ◌+◌, ◌-◌, ◌≤◌, min, String, ◌≡◌, ◌≢◌, refl, ◌⊎◌, inl, inr, none, some, List, [], ◌∷◌, arith, ok,
  if◌then◌else◌, ◌==◌, ==_iff, string_eq, All, sum_of, Bool-cases, leb,
}
use der_flex.Domain.Models.{Power, FlexibilityDirection, FlexibilityOffer, tolerance}
use der_flex.Reservations.Records.{Allocation}
use der_flex.Reservations.Backend.{Backend, power_for, reserved_for_offer}
use der_flex.Reservations.Allocate.{capacity_of, prepend, allocate}

-- The resources of the offers are pairwise different.
abbrev pub AreDistinct : List FlexibilityOffer → Type 0
AreDistinct [] = Unit
AreDistinct (o ∷ offers) = All (λ x. x.resource_id ≢ o.resource_id) offers × AreDistinct offers

abbrev pub total_power : List Allocation → Power
total_power = sum_of (λ item. item.power_kw)

-- The allocated power, 0 where a lookup would fail.
unfoldable pub booked : Backend → FlexibilityDirection → FlexibilityOffer → Power
booked b direction o = elim (reserved_for_offer b o direction) [ none ↦ 0 | some p ↦ p ]

unfoldable pub available : Backend → FlexibilityDirection → FlexibilityOffer → Power
available b direction o = capacity_of direction o - booked b direction o

power_for-prepend :
    (resource : String) (o : FlexibilityOffer) (p : Power) (rest : List Allocation)
    → power_for resource (prepend o p rest)
      ≡ (if o.resource_id == resource then p else 0) + power_for resource rest
unfolding power_for
power_for-prepend resource o p rest = ground arith

total_power-prepend :
    (o : FlexibilityOffer) (p : Power) (rest : List Allocation)
    → total_power (prepend o p rest) ≡ p + total_power rest
total_power-prepend o p rest = ground arith

module _ (b : Backend) (direction : FlexibilityDirection) where
  -- The outcome of the loop over `offers`, from `power` to `left`.
  pub record Outcome (offers : List FlexibilityOffer) (power : Power)
      (allocations : List Allocation) (left : Power) : Type 0 where
    pub accounted : total_power allocations + left ≡ power
    pub within : total_power allocations ≤ sum_of (available b direction) offers
    pub exhausted : (left ≤ tolerance) ⊎ (left + sum_of (available b direction) offers ≡ power)
    pub absent :
        (resource : String)
        → All (λ o. o.resource_id ≢ resource) offers
        → power_for resource allocations ≡ 0
    pub bounded :
        AreDistinct offers
        → All (λ o. power_for o.resource_id allocations ≤ available b direction o) offers

  Outcome-nil : (power : Power) → Outcome [] power [] power
  unfolding power_for
  Outcome-nil power = record {
    accounted = omega arith;
    within = omega arith;
    exhausted = inr (omega arith);
    absent = λ resource h. refl;
    bounded = λ h. tt;
  }

  -- The other offers of a list keep their bound behind an allocation to `o`.
  bounded-prepend :
      (o : FlexibilityOffer) (p : Power) (rest : List Allocation) (offers : List FlexibilityOffer)
      → All (λ x. x.resource_id ≢ o.resource_id) offers
      → All (λ x. power_for x.resource_id rest ≤ available b direction x) offers
      → All (λ x. power_for x.resource_id (prepend o p rest) ≤ available b direction x) offers
  bounded-prepend o p rest [] ne h = tt
  bounded-prepend o p rest (x ∷ offers) ne h = (
    ground (
      arith,
      power_for-prepend x.resource_id o p rest,
      ==_iff o.resource_id x.resource_id,
      h.0,
      ne.0,
    ),
    bounded-prepend o p rest offers ne.1 h.1,
  )

  nothing_allocated :
      (offers : List FlexibilityOffer)
      → All (λ x. power_for x.resource_id [] ≤ available b direction x) offers
  unfolding power_for
  nothing_allocated [] = tt
  nothing_allocated (x ∷ offers) = (omega arith, nothing_allocated offers)

  -- The loop goes on behind `o`.
  Outcome-next :
      (o : FlexibilityOffer) (offers : List FlexibilityOffer) (power : Power)
      (rest : List Allocation) (left : Power)
      → Outcome offers (power - min (available b direction o) power) rest left
      → let p = min (available b direction o) power in
        Outcome (o ∷ offers) power (prepend o p rest) left
  Outcome-next o offers power rest left h =
      let p = min (available b direction o) power in
      let sums = total_power-prepend o p rest in
      record {
        accounted = omega (arith, sums, h.accounted);
        within = omega (arith, sums, h.within);
        exhausted = elim h.exhausted [ inl small ↦ inl small | inr spent ↦ grind (arith, spent) ];
        absent = λ resource ne. ground (
          arith,
          power_for-prepend resource o p rest,
          ==_iff o.resource_id resource,
          ne.0,
          h.absent resource ne.1,
        );
        bounded = λ d. (
          ground (
            arith,
            power_for-prepend o.resource_id o p rest,
            h.absent o.resource_id d.0,
            ==_iff o.resource_id o.resource_id,
          ),
          bounded-prepend o p rest offers d.0 (h.bounded d.1),
        );
      }

  -- The loop breaks behind `o`.
  Outcome-break :
      (o : FlexibilityOffer) (offers : List FlexibilityOffer) (power : Power)
      → power - min (available b direction o) power ≤ tolerance
      → let p = min (available b direction o) power in
        Outcome (o ∷ offers) power (prepend o p []) (power - p)
  Outcome-break o offers power small =
      let p = min (available b direction o) power in
      let sums = total_power-prepend o p [] in
      let none_else = Outcome-nil 0 in
      record {
        accounted = omega (arith, sums);
        within = omega (arith, sums);
        exhausted = inl small;
        absent = λ resource ne. ground (
          arith,
          power_for-prepend resource o p [],
          ==_iff o.resource_id resource,
          ne.0,
          none_else.absent resource tt,
        );
        bounded = λ d. (
          ground (
            arith,
            power_for-prepend o.resource_id o p [],
            none_else.absent o.resource_id tt,
            ==_iff o.resource_id o.resource_id,
          ),
          bounded-prepend o p [] offers d.0 (nothing_allocated offers),
        );
      }

  -- Where every lookup succeeds the loop returns, and its outcome is as described.
  pub allocate-Outcome :
      ((o : FlexibilityOffer) → reserved_for_offer b o direction ≡ some (booked b direction o))
      → (offers : List FlexibilityOffer) (power : Power)
      → (allocations : List Allocation) × (left : Power) × (allocate b direction offers power
          ≡ ok (allocations, left))
        × Outcome offers power allocations left
  unfolding allocate available
  allocate-Outcome known [] power = ([], power, refl, Outcome-nil power)
  allocate-Outcome known (o ∷ offers) power =
      let p = min (available b direction o) power in
      let (rest, left, e, h) = allocate-Outcome known offers (power - p) in
      elim (Bool-cases (leb (power - p) tolerance)) [
        | inl small ↦ (
          prepend o p [],
          power - p,
          ground (arith, known o),
          Outcome-break o offers power (ground arith),
        )
        | inr more ↦ (
          prepend o p rest,
          left,
          ground (arith, known o, e),
          Outcome-next o offers power rest left h,
        )
      ]
