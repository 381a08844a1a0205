-- ===== src/Reservations/Service/Capacity.antt =====
-- The power booked on an offer under each write, and what `create_new` promises of it.
use der_flex.Prelude.{
  nat_eq, ◌+◌, ◌≤◌, String, ◌≡◌, ◌↔◌, Bool, true, false, Option, none, some, List, arith, Result,
  ok, err, sum_of,
}
use der_flex.Prelude.Dict
use der_flex.Prelude.Dict.{get-set}
use der_flex.Prelude.Dict.Laws.{get-set_self}
use der_flex.Domain.Models.{
  Uuid, Instant, Power, FlexibilityDirection, FlexibilityOffer, Reservation, tolerance,
}
use der_flex.Reservations.Records.{Allocation, ReservationError, insufficient_capacity}
use der_flex.Reservations.Backend.{
  Backend, expire, get_reservation, power_for, save_reservation, reserved_for_offer,
}
use der_flex.Reservations.Backend.Booked.{
  Allocations, or_nil, share, reserved_total, reserved_total-expire-le, reserved_total-set_other,
  reserved_total-set_new,
}
use der_flex.Reservations.Backend.Invariant.{
  IsValid, expire-IsValid, save_reservation-IsValid, reserved_for_offer-defined,
}
use der_flex.Reservations.Allocate.Outcome.{booked, available, allocate-Outcome}
use der_flex.Reservations.Service.{
  RequestPayload, OfferSource, offers_for, participants, create_new,
}

module _ (direction : FlexibilityDirection) (o : FlexibilityOffer) where
  pub booked-eq-total :
      {b : Backend}
      → IsValid b
      → booked b direction o ≡ reserved_total o direction b.allocations b.reservations
  unfolding booked
  booked-eq-total v = ground (arith, reserved_for_offer-defined o direction v)

  -- Expiry books nothing.
  pub booked-expire-le :
      (now : Instant) {b : Backend}
      → IsValid b
      → booked (expire now b) direction o ≤ booked b direction o
  booked-expire-le now {b} v =
      rw (booked-eq-total v, booked-eq-total (expire-IsValid now v))
        (unfold expire in reserved_total-expire-le o direction now b.allocations b.reservations)

  pub share-le :
      (r : Reservation) (items : List Allocation)
      → share o direction r items ≤ power_for o.resource_id items
  unfolding share
  share-le r items = ground arith

  share_of_written :
      (r : Reservation) (items : List Allocation) (allocations : Allocations)
      → share o direction r
          (or_nil (Dict.get r.reservation_id (Dict.set r.reservation_id items allocations)))
        ≡ share o direction r items
  share_of_written r items allocations = rw (get-set_self r.reservation_id items allocations)

  -- A new reservation books its share.
  pub booked-save_reservation :
      (r : Reservation) (items : List Allocation) (key fp : String) (url : Option String)
      {b : Backend}
      → IsValid b
      → get_reservation b r.reservation_id ≡ none
      → booked (save_reservation r items key fp url b) direction o
        ≡ booked b direction o + share o direction r items
  booked-save_reservation r items key fp url {b} v fresh =
      rw (booked-eq-total v, booked-eq-total (save_reservation-IsValid r items key fp url v))
        (unfold save_reservation get_reservation in
          omega (
            arith,
            reserved_total-set_new o direction r.reservation_id r
                (Dict.set r.reservation_id items b.allocations) b.reservations fresh,
            reserved_total-set_other o direction r.reservation_id items b.allocations b.reservations
                fresh,
            share_of_written r items b.allocations,
          ))

-- In a valid state every lookup of the allocation loop succeeds.
pub reserved_for_offer-eq-booked :
    (b : Backend) (direction : FlexibilityDirection)
    → IsValid b
    → (o : FlexibilityOffer) → reserved_for_offer b o direction ≡ some (booked b direction o)
unfolding booked
reserved_for_offer-eq-booked b direction v o =
    ground (arith, reserved_for_offer-defined o direction v)

-- Did the call return?
abbrev pub is_ok {ℓ} : {A : Type ℓ} → Result ReservationError A → Bool
is_ok (ok a) = true
is_ok (err e) = false

module _ (src : OfferSource) (id correlation : Uuid) (now : Instant) (key : String)
    (p : RequestPayload) {b : Backend} (valid : IsValid b) where
  -- What the cohort can still give.
  abbrev pub free_power : Power
  free_power = sum_of (available b p.direction) (offers_for src p now)

  -- In a valid state, `create_new` confirms exactly when the cohort has the minimum of participants and its free
  -- capacity covers the power up to the tolerance.
  pub create_new-confirms : (is_ok (create_new src id correlation now key p b).0 ≡ true) ↔ (
      (src.minimum_participants ≤ participants (offers_for src p now))
      × (p.power_kw ≤ free_power + tolerance))
  unfolding create_new
  create_new-confirms =
      let (items, left, e, h) =
        allocate-Outcome b p.direction (reserved_for_offer-eq-booked b p.direction valid)
          (offers_for src p now) p.power_kw in
      ground (arith, e, h.accounted, h.within, h.exhausted)

  -- In a valid state, `create_new` reports insufficient capacity and changes nothing whenever it does
  -- not confirm.
  pub create_new-refuses :
      is_ok (create_new src id correlation now key p b).0 ≡ false
      → create_new src id correlation now key p b ≡ (err insufficient_capacity, b)
  unfolding create_new
  create_new-refuses refused =
      let (items, left, e, h) =
        allocate-Outcome b p.direction (reserved_for_offer-eq-booked b p.direction valid)
          (offers_for src p now) p.power_kw in
      ground (arith, e)
