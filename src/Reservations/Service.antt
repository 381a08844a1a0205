-- ===== src/Reservations/Service.antt =====
-- `ReservationService` (src/der_flex/reservations/service.py) over the in-memory backend. A method
-- takes the state and returns it beside its result: what was written before a raise stays written.
-- Random identifiers, the clock and the callbacks are arguments.
pub mod Capacity
pub mod Create
pub mod Steps
pub mod Runs
pub mod Lifecycle
pub mod Idempotency
pub mod Activation
pub mod Once
pub mod Publication
pub mod Effects
pub mod Overbooking
pub mod Activate
pub mod Residual
use der_flex.Prelude.{
  ℕ, ◌+◌, ◌*◌, String, ◌&&◌, Option, none, some, List, Result, ok, err, if◌then◌else◌, leb, ltb,
  ◌==◌, string_eq, length, distinct, sum_of, map, min,
}
use Prim.Native.String.{◌++◌}
use der_flex.Prelude.Int.{pos}
use der_flex.Domain.Models.{
  Uuid, Instant, Power, kilowatt, tolerance, second, ConsequenceType, FlexibilityDirection,
  FlexibilityOffer, Reservation, confirmed, cancelled, is_confirmed, FloatInput, finite,
}
use der_flex.Reservations.Records.{
  Allocation, ReservationError, invalid_request, insufficient_capacity, idempotency_conflict,
  reservation_not_found, reservation_state_conflict,
}
use der_flex.Reservations.Backend.{
  Backend, expire, get_idempotency, get_reservation, save_reservation, update_reservation,
}
use der_flex.Reservations.Allocate.{allocate}

abbrev pub max_reservation_power_kw : Power
max_reservation_power_kw = 1000000 * kilowatt

-- The payload of a request, from which the fingerprint is made.
pub record RequestPayload : Type 0 where
  pub tenant_id : String
  pub zone_id : String
  pub interval_start : Instant
  pub interval_end : Instant
  pub direction : FlexibilityDirection
  pub power_kw : Power
  pub consequence_type : ConsequenceType
  pub callback_url : Option String

pub record CreateRequest : Type 0 where
  pub idempotency_key : String
  pub tenant_id : String
  pub zone_id : String
  pub interval_start : Instant
  pub interval_end : Instant
  pub direction : FlexibilityDirection
  pub power_kw : FloatInput
  pub consequence_type : ConsequenceType
  pub callback_url : Option String

-- What `create` uses of its surroundings: `OfferStore.eligible_offers` for tenant, zone, interval,
-- consequence and instant, `minimum_participants`, and the hash of a payload (JSON and SHA-256, which
-- are not part of the repository).
pub record OfferSource : Type 0 where
  pub eligible_offers :
      String → String → Instant → Instant → ConsequenceType → Instant → List FlexibilityOffer
  pub minimum_participants : ℕ
  pub fingerprint : RequestPayload → String

-- `power_kw`, if it is finite, positive and at most the maximum.
unfoldable pub checked_power : FloatInput → Option Power
checked_power (finite (pos p)) = if ltb 0 p && leb p max_reservation_power_kw then some p else none
checked_power _ = none

abbrev pub payload_of : CreateRequest → Power → RequestPayload
payload_of req p = record {
  tenant_id = req.tenant_id;
  zone_id = req.zone_id;
  interval_start = req.interval_start;
  interval_end = req.interval_end;
  direction = req.direction;
  power_kw = p;
  consequence_type = req.consequence_type;
  callback_url = req.callback_url;
}

-- `f"{tenant_id}:{idempotency_key}"`
unfoldable pub tenant_idempotency_key : String → String → String
tenant_idempotency_key tenant_id key = tenant_id ++ (":" ++ key)

abbrev pub offers_for : OfferSource → RequestPayload → Instant → List FlexibilityOffer
offers_for src p now =
    src.eligible_offers p.tenant_id p.zone_id p.interval_start p.interval_end p.consequence_type now

-- `len({offer.resource_id for offer in offers})`
unfoldable pub participants : List FlexibilityOffer → ℕ
participants offers = length (distinct (map (λ o. o.resource_id) offers))

abbrev pub new_reservation :
    Uuid → Uuid → Instant → RequestPayload → List FlexibilityOffer → List Allocation → Reservation
new_reservation id correlation now p offers allocations = record {
  reservation_id = id;
  correlation_id = correlation;
  zone_id = p.zone_id;
  interval_start = p.interval_start;
  interval_end = p.interval_end;
  direction = p.direction;
  requested_power_kw = p.power_kw;
  allocated_power_kw = sum_of (λ item. item.power_kw) allocations;
  participant_count = participants offers;
  consequence_type = p.consequence_type;
  status = confirmed;
  created_at = now;
  expires_at = min p.interval_start (now + 300 * second);
  tenant_id = p.tenant_id;
}

-- The end of `create`, from the outcome of the allocation loop.
abbrev pub confirm :
    OfferSource
    → Uuid
    → Uuid
    → Instant
    → String
    → RequestPayload
    → Result ReservationError (List Allocation × Power)
    → Backend
    → Result ReservationError Reservation × Backend
confirm src id correlation now key p (err e) b = (err e, b)
confirm src id correlation now key p (ok (allocations, remaining)) b =
    if ltb tolerance remaining
    then (err insufficient_capacity, b)
    else (let r = new_reservation id correlation now p (offers_for src p now) allocations in
        (ok r, save_reservation r allocations key (src.fingerprint p) p.callback_url b))

-- A request whose key is new.
unfoldable pub create_new :
    OfferSource
    → Uuid
    → Uuid
    → Instant
    → String
    → RequestPayload
    → Backend
    → Result ReservationError Reservation × Backend
create_new src id correlation now key p b =
    if ltb (participants (offers_for src p now)) src.minimum_participants
    then (err insufficient_capacity, b)
    else confirm src id correlation now key p
        (allocate b p.direction (offers_for src p now) p.power_kw) b

-- `state.get_reservation(id)`, or ReservationNotFound.
unfoldable pub found_reservation : Backend → Uuid → Result ReservationError Reservation
found_reservation b id = elim (get_reservation b id) [
  | none ↦ err reservation_not_found
  | some r ↦ ok r
]

-- The transaction of `create`, after the request has been checked and the state expired.
unfoldable pub create_checked :
    OfferSource
    → Uuid
    → Uuid
    → Instant
    → String
    → RequestPayload
    → Backend
    → Result ReservationError Reservation × Backend
create_checked src id correlation now key p b = elim (get_idempotency b key) [
  | none ↦ create_new src id correlation now key p b
  | some (previous, previous_id) ↦
      if previous == src.fingerprint p
      then (found_reservation b previous_id, b)
      else (err idempotency_conflict, b)
]

unfoldable pub create :
    OfferSource
    → Uuid
    → Uuid
    → Instant
    → CreateRequest
    → Backend
    → Result ReservationError Reservation × Backend
create src id correlation now req b = elim (checked_power req.power_kw) [
  | none ↦ (err invalid_request, b)
  | some p ↦
      if leb req.interval_end req.interval_start
      then (err invalid_request, b)
      else create_checked src id correlation now
          (tenant_idempotency_key req.tenant_id req.idempotency_key) (payload_of req p)
          (expire now b)
]

unfoldable pub get : Uuid → Instant → Backend → Result ReservationError Reservation × Backend
unfolding found_reservation
get id now b = (found_reservation (expire now b) id, expire now b)

abbrev pub cancel_found :
    Result ReservationError Reservation → Backend → Result ReservationError Reservation × Backend
cancel_found (err e) b = (err e, b)
cancel_found (ok r) b =
    if is_confirmed r.status
    then (let done : Reservation = record r { status = cancelled } in
        (ok done, update_reservation done b))
    else (err reservation_state_conflict, b)

unfoldable pub cancel : Uuid → Instant → Backend → Result ReservationError Reservation × Backend
unfolding found_reservation
cancel id now b = cancel_found (found_reservation (expire now b) id) (expire now b)
