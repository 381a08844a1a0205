-- ===== src/Reservations/Backend/Invariant.antt =====
-- The well-formedness of the backend, which every write keeps: each reservation stands once, under
-- its own identifier, with an entry in the allocations, and each activation that a reservation names
-- is there.
use der_flex.Prelude.{All-map_pred, ◌≡◌, refl, true, Option, some, List, arith, nat_eq, All, String}
use der_flex.Prelude.Dict
use der_flex.Prelude.Dict.{Dict}
use der_flex.Prelude.Dict.Laws.{
  HasUniqueKeys, has-set_self, has-set_mono, set-HasUniqueKeys, All-set, All-get, All-map_values,
  map_values-HasUniqueKeys,
}
use der_flex.Domain.Models.{
  Uuid, Instant, Reservation, Activation, FlexibilityOffer, FlexibilityDirection,
}
use der_flex.Reservations.Records.{Allocation, PebcInstruction}
use der_flex.Reservations.Backend.{
  Backend, empty, expire_one, expire, get_reservation, save_reservation, update_reservation,
  save_activation, reserved_for_offer,
}
use der_flex.Reservations.Backend.Booked.{reserved_total, reserved_in-eq-total}

abbrev pub HasOwnId : Uuid × Reservation → Type 0
HasOwnId e = e.1.reservation_id ≡ e.0

pub record IsValid (b : Backend) : Type 0 where
  pub unique : HasUniqueKeys b.reservations
  pub own_ids : All HasOwnId b.reservations
  pub allocated : All (λ e. Dict.has e.0 b.allocations ≡ true) b.reservations
  pub activated : All (λ e. Dict.has e.1 b.activations ≡ true) b.activation_by_reservation

pub empty-IsValid : IsValid empty
empty-IsValid = record { unique = tt; own_ids = tt; allocated = tt; activated = tt }

expire_one-id :
    (now : Instant) (r : Reservation) → (expire_one now r).reservation_id ≡ r.reservation_id
unfolding expire_one
expire_one-id now r = ground arith

pub expire-IsValid : (now : Instant) {b : Backend} → IsValid b → IsValid (expire now b)
unfolding expire
expire-IsValid now {b} v = record {
  unique = map_values-HasUniqueKeys (expire_one now) b.reservations v.unique;
  own_ids =
      All-map_values HasOwnId (expire_one now) (λ k r h. cc (expire_one-id now r)) b.reservations
        v.own_ids;
  allocated =
      All-map_values (λ e. Dict.has e.0 b.allocations ≡ true) (expire_one now) (λ k r h. h)
        b.reservations v.allocated;
  activated = v.activated;
}

pub save_reservation-IsValid :
    (r : Reservation) (items : List Allocation) (key fp : String) (url : Option String)
    {b : Backend}
    → IsValid b
    → IsValid (save_reservation r items key fp url b)
unfolding save_reservation
save_reservation-IsValid r items key fp url {b} v = record {
  unique = set-HasUniqueKeys r.reservation_id r b.reservations v.unique;
  own_ids = All-set HasOwnId r.reservation_id r b.reservations refl v.own_ids;
  allocated =
      All-set (λ e. Dict.has e.0 (Dict.set r.reservation_id items b.allocations) ≡ true)
        r.reservation_id r b.reservations (has-set_self r.reservation_id items b.allocations)
        (All-map_pred (λ e. Dict.has e.0 b.allocations ≡ true)
          (λ e. Dict.has e.0 (Dict.set r.reservation_id items b.allocations) ≡ true)
          (λ e h. has-set_mono r.reservation_id e.0 items b.allocations h) b.reservations
          v.allocated);
  activated = v.activated;
}

-- The new status of a reservation that is there.
pub update_reservation-IsValid :
    (r old : Reservation) {b : Backend}
    → get_reservation b r.reservation_id ≡ some old
    → IsValid b
    → IsValid (update_reservation r b)
unfolding update_reservation get_reservation
update_reservation-IsValid r old {b} known v = record {
  unique = set-HasUniqueKeys r.reservation_id r b.reservations v.unique;
  own_ids = All-set HasOwnId r.reservation_id r b.reservations refl v.own_ids;
  allocated =
      All-set (λ e. Dict.has e.0 b.allocations ≡ true) r.reservation_id r b.reservations
        (All-get (λ e. Dict.has e.0 b.allocations ≡ true) r.reservation_id old b.reservations
          v.allocated known)
        v.allocated;
  activated = v.activated;
}

pub save_activation-IsValid :
    (a : Activation) (r : Reservation) (items : List Allocation) (is : List PebcInstruction)
    {b : Backend}
    → IsValid b
    → IsValid (save_activation a r items is b)
unfolding save_activation
save_activation-IsValid a r items is {b} v = record {
  unique = set-HasUniqueKeys r.reservation_id r b.reservations v.unique;
  own_ids = All-set HasOwnId r.reservation_id r b.reservations refl v.own_ids;
  allocated =
      All-set (λ e. Dict.has e.0 (Dict.set r.reservation_id items b.allocations) ≡ true)
        r.reservation_id r b.reservations (has-set_self r.reservation_id items b.allocations)
        (All-map_pred (λ e. Dict.has e.0 b.allocations ≡ true)
          (λ e. Dict.has e.0 (Dict.set r.reservation_id items b.allocations) ≡ true)
          (λ e h. has-set_mono r.reservation_id e.0 items b.allocations h) b.reservations
          v.allocated);
  activated =
      All-set (λ e. Dict.has e.1 (Dict.set a.activation_id a b.activations) ≡ true) r.reservation_id
        a.activation_id b.activation_by_reservation (has-set_self a.activation_id a b.activations)
        (All-map_pred (λ e. Dict.has e.1 b.activations ≡ true)
          (λ e. Dict.has e.1 (Dict.set a.activation_id a b.activations) ≡ true)
          (λ e h. has-set_mono a.activation_id e.1 a b.activations h) b.activation_by_reservation
          v.activated);
}

-- In a valid state no lookup of `reserved_for_offer` fails.
pub reserved_for_offer-defined :
    {b : Backend} (o : FlexibilityOffer) (direction : FlexibilityDirection)
    → IsValid b
    → reserved_for_offer b o direction
      ≡ some (reserved_total o direction b.allocations b.reservations)
unfolding reserved_for_offer
reserved_for_offer-defined {b} o direction v =
    reserved_in-eq-total o direction b.allocations b.reservations v.allocated

-- A reservation that is found carries the identifier that it was asked by.
pub get_reservation-id :
    {b : Backend} (id : Uuid) (r : Reservation)
    → IsValid b
    → get_reservation b id ≡ some r
    → r.reservation_id ≡ id
unfolding get_reservation
get_reservation-id {b} id r v e = All-get HasOwnId id r b.reservations v.own_ids e

-- The parts of the state that the invariant reads are the same.
pub record SameLedger (b b' : Backend) : Type 0 where
  pub reservations : b'.reservations ≡ b.reservations
  pub allocations : b'.allocations ≡ b.allocations
  pub activations : b'.activations ≡ b.activations
  pub activation_by_reservation : b'.activation_by_reservation ≡ b.activation_by_reservation

pub SameLedger-IsValid : {b b' : Backend} → SameLedger b b' → IsValid b → IsValid b'
SameLedger-IsValid s v = record {
  unique = rw s.reservations v.unique;
  own_ids = rw s.reservations v.own_ids;
  allocated = rw (s.reservations, s.allocations) v.allocated;
  activated = rw (s.activation_by_reservation, s.activations) v.activated;
}
