-- ===== src/Reservations/Service/Effects.antt =====
-- How `cancel`, `activate` and the publication change what is booked on an offer.
use der_flex.Prelude.Dict
use der_flex.Prelude.Dict.Laws.{get-set_self}
use der_flex.Prelude.{
  inl, inr, ◌+◌, ◌≤◌, ◌≡◌, refl, Bool, true, some, List, [], ◌∷◌, arith, ok, nat_eq, filter, map,
  String, ℕ, Result-cases, ap,
}
use der_flex.Domain.Models.{
  Uuid, Instant, FlexibilityDirection, FlexibilityOffer, FlexibilityAggregate, Reservation,
  is_confirmed, cancelled,
}
use der_flex.Reservations.Records.{Allocation}
use der_flex.Reservations.Backend.{
  Backend, expire, get_reservation, get_allocations, power_for, same_product, update_reservation,
  save_activation, set_published_residual, suppress_public_cell,
}
use der_flex.Reservations.Backend.Booked.{
  share, or_nil, reserved_total-set_known, reserved_total-set_both,
}
use der_flex.Reservations.Backend.Invariant.{
  IsValid, SameLedger, SameLedger-IsValid, update_reservation-IsValid, save_activation-IsValid,
  expire-IsValid, get_reservation-id,
}
use der_flex.Reservations.Allocate.Outcome.{booked}
use der_flex.Reservations.Service.Capacity.{booked-eq-total}
use der_flex.Adapters.Dispatch.{build_pebc_instruction}
use der_flex.Reservations.Service.Activate.{
  ActivationContext, Pair, accepted_pairs, build_pairs, outcome, closed_reservation,
}
use der_flex.Reservations.Service.Residual.{publish_one}
use der_flex.Reservations.Service.Steps.{activated, found-some}
use der_flex.Reservations.Service.{cancel}

-- The publication touches no reservation.
pub publish_one-SameLedger :
    (a : FlexibilityAggregate) (b : Backend) → SameLedger b (publish_one a b).1
unfolding publish_one set_published_residual suppress_public_cell
publish_one-SameLedger a b = ground arith

-- The pairs hold the allocations, in order.
pub build_pairs-allocations :
    (c : ActivationContext) (r : Reservation) (index : ℕ) (items : List Allocation)
    (pairs : List Pair)
    → build_pairs c r index items ≡ ok pairs
    → map (λ p. p.0) pairs ≡ items
unfolding build_pairs
build_pairs-allocations c r index [] pairs e = ground arith
build_pairs-allocations c r index (item ∷ rest) pairs e =
    elim (Result-cases (build_pebc_instruction c.parses (c.instruction_ids index) item r)) [
      | inr (error, f) ↦ absurd (ground (arith, f))
      | inl (instruction, f) ↦ elim (Result-cases (build_pairs c r (index + 1) rest)) [
        | inr (error, g) ↦ absurd (ground (arith, f, g))
        | inl (later, g) ↦
            ground (arith, f, g, build_pairs-allocations c r (index + 1) rest later g)
      ]
    ]

power_for-accepted-le :
    (resource : String) (keep : Pair → Bool) (pairs : List Pair)
    → power_for resource (map (λ p. p.0) (filter keep pairs))
      ≤ power_for resource (map (λ p. p.0) pairs)
unfolding power_for
power_for-accepted-le resource keep [] = omega arith
power_for-accepted-le resource keep (p ∷ pairs) =
    ground (arith, power_for-accepted-le resource keep pairs)

module _ (direction : FlexibilityDirection) (o : FlexibilityOffer) where
  pub booked-SameLedger :
      {b b' : Backend} → SameLedger b b' → IsValid b → booked b' direction o ≡ booked b direction o
  booked-SameLedger {b} {b'} s v =
      rw (booked-eq-total direction o v, booked-eq-total direction o (SameLedger-IsValid s v))
        (rw (s.reservations, s.allocations))

  share-cancelled :
      (r : Reservation) (items : List Allocation)
      → share o direction (record r { status = cancelled }) items ≡ 0
  unfolding share
  share-cancelled r items = refl

  -- Writing the cancelled reservation frees what it held of the offer.
  pub booked-cancel :
      (r : Reservation) {b : Backend}
      → IsValid b
      → get_reservation b r.reservation_id ≡ some r
      → booked (update_reservation (record r { status = cancelled }) b) direction o
          + share o direction r (or_nil (get_allocations b r.reservation_id))
        ≡ booked b direction o
  booked-cancel r {b} v known =
      let r' : Reservation = record r { status = cancelled } in
      rw
        (
          booked-eq-total direction o v,
          booked-eq-total direction o (update_reservation-IsValid r' r known v),
        )
        (unfold update_reservation get_reservation get_allocations in
          omega (
            arith,
            reserved_total-set_known o direction r.reservation_id r' r b.allocations b.reservations
                known,
            share-cancelled r (or_nil (Dict.get r.reservation_id b.allocations)),
          ))

  -- In a valid state, the service cancels a reservation that is confirmed once the expiry has run: it
  -- answers with the reservation as cancelled, which then stands in the backend, and the power booked
  -- on any offer falls by exactly the share of the reservation.
  pub cancel_frees :
      (id : Uuid) (now : Instant) (r : Reservation) (b : Backend)
      → IsValid b
      → get_reservation (expire now b) id ≡ some r
      → is_confirmed r.status ≡ true
      → ((cancel id now b).0 ≡ ok (record r { status = cancelled }))
        × (get_reservation (cancel id now b).1 id ≡ some (record r { status = cancelled }))
        × (booked (cancel id now b).1 direction o
              + share o direction r (or_nil (get_allocations (expire now b) id))
            ≡ booked (expire now b) direction o)
  unfolding cancel
  cancel_frees id now r b v known good =
      let b' = expire now b in
      let v' = expire-IsValid now v in
      let own_id = get_reservation-id id r v' known in
      rw (found-some b' id r known, good)
        (
          refl,
          rw (← own_id) (
              unfold update_reservation get_reservation in
              get-set_self r.reservation_id (record r { status = cancelled }) b'.reservations),
          rw (← own_id) (booked-cancel r v' (rw (← own_id) at known)),
        )

  share-closed-le :
      (c : ActivationContext) (r : Reservation) (pairs : List Pair)
      → is_confirmed r.status ≡ true
      → share o direction (closed_reservation c r pairs) (map (λ p. p.0) (accepted_pairs c pairs))
        ≤ share o direction r (map (λ p. p.0) pairs)
  unfolding share closed_reservation same_product
  share-closed-le c r pairs good = ground (
    arith,
    power_for-accepted-le o.resource_id (λ p. c.resource_acceptor p.0.resource_id p.1) pairs,
  )

  -- An activation keeps at most what the reservation held.
  pub booked-activate-le :
      (c : ActivationContext) (id : Uuid) (r : Reservation) (items : List Allocation)
      (pairs : List Pair) {b : Backend}
      → IsValid b
      → get_reservation b r.reservation_id ≡ some r
      → is_confirmed r.status ≡ true
      → get_allocations b r.reservation_id ≡ some items
      → build_pairs c r 0 items ≡ ok pairs
      → booked (activated c id r pairs b) direction o ≤ booked b direction o
  booked-activate-le c id r items pairs {b} v known good allocated built =
      let r' = closed_reservation c r pairs in
      let kept = map (λ (p : Pair). p.0) (accepted_pairs c pairs) in
      let same : map (λ p. p.0) pairs ≡ items = build_pairs-allocations c r 0 items pairs built in
      rw
        (
          booked-eq-total direction o v,
          booked-eq-total direction o
              (save_activation-IsValid (outcome c id r pairs) r' kept (map (λ p. p.1) pairs) v),
        )
        (unfold save_activation get_reservation get_allocations closed_reservation in
          omega (
            arith,
            reserved_total-set_both o direction r.reservation_id r' r kept b.allocations
                b.reservations v.unique known,
            share-closed-le c r pairs good,
            ap (λ x. share o direction r (or_nil x)) allocated,
            ap (share o direction r) same,
          ))
