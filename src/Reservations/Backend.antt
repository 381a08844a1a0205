-- ===== src/Reservations/Backend.antt =====
-- `InMemoryReservationBackend` (src/der_flex/reservations/backend.py): its nine dictionaries and
-- sets as a record, and each method as a function of that record. The lock serialises the
-- transactions, so a method sees the state that the one before it left.
pub mod Booked
pub mod Invariant
use mathlib.Core.Option
use der_flex.Prelude.{
  ◌+◌, String, Bool, true, false, ◌&&◌, Option, none, some, List, [], ◌∷◌, ◌==◌, nat_eq, string_eq,
  if◌then◌else◌, leb, filter, sum_of, add, contains,
}
use der_flex.Prelude.Dict
use der_flex.Prelude.Dict.{Dict}
use der_flex.Domain.Models.{
  Uuid, Instant, Power, FlexibilityDirection, FlexibilityOffer, Reservation, Activation,
  ProductCell, expired, is_confirmed, holds_capacity,
}
use der_flex.Domain.Equality.{consequence_eq, direction_eq, cell_eq}
use der_flex.Reservations.Records.{Allocation, PebcInstruction, Residual}

pub record Backend : Type 0 where
  pub reservations : Dict Uuid Reservation
  pub allocations : Dict Uuid (List Allocation)
  pub idempotency : Dict String (String × Uuid)
  pub activations : Dict Uuid Activation
  pub activation_by_reservation : Dict Uuid Uuid
  pub instructions : Dict Uuid (List PebcInstruction)
  pub callbacks : Dict Uuid String
  pub published_residuals : Dict ProductCell Residual
  pub suppressed_public_cells : List ProductCell

abbrev pub empty : Backend
empty = record {
  reservations = [];
  allocations = [];
  idempotency = [];
  activations = [];
  activation_by_reservation = [];
  instructions = [];
  callbacks = [];
  published_residuals = [];
  suppressed_public_cells = [];
}

-- One round of the loop of `expire`.
unfoldable pub expire_one : Instant → Reservation → Reservation
expire_one now r =
    if is_confirmed r.status && leb r.expires_at now then record r { status = expired } else r

unfoldable pub expire : Instant → Backend → Backend
expire now b = record b { reservations = Dict.map_values (expire_one now) b.reservations }

unfoldable pub get_idempotency : Backend → String → Option (String × Uuid)
get_idempotency b key = Dict.get key b.idempotency

unfoldable pub get_reservation : Backend → Uuid → Option Reservation
get_reservation b id = Dict.get id b.reservations

-- `none` is the KeyError of `self._allocations[reservation_id]`.
unfoldable pub get_allocations : Backend → Uuid → Option (List Allocation)
get_allocations b id = Dict.get id b.allocations

-- The reservation is for the product of the offer, in a direction. The tenant is not compared.
unfoldable pub same_product : FlexibilityOffer → FlexibilityDirection → Reservation → Bool
same_product offer direction r =
    r.zone_id == offer.zone_id
    && r.interval_start == offer.interval_start
    && r.interval_end == offer.interval_end
    && r.direction == direction
    && r.consequence_type == offer.consequence_type

-- The power that a list of allocations gives to one resource.
unfoldable pub power_for : String → List Allocation → Power
power_for resource_id items =
    sum_of (λ item. item.power_kw) (filter (λ item. item.resource_id == resource_id) items)

abbrev add_power : Option Power → Option Power → Option Power
add_power (some p) (some q) = some (p + q)
add_power _ _ = none

-- The loop of `reserved_for_offer` over the items of `_reservations`.
unfoldable pub reserved_in :
    Dict Uuid (List Allocation)
    → FlexibilityOffer
    → FlexibilityDirection
    → Dict Uuid Reservation
    → Option Power
reserved_in allocations offer direction [] = some 0
reserved_in allocations offer direction ((id, r) ∷ rest) =
    let later = reserved_in allocations offer direction rest in
    if holds_capacity r.status && same_product offer direction r
    then add_power (Option.map (power_for offer.resource_id) (Dict.get id allocations)) later
    else later

unfoldable pub reserved_for_offer : Backend → FlexibilityOffer → FlexibilityDirection → Option Power
unfolding reserved_in same_product power_for
reserved_for_offer b offer direction = reserved_in b.allocations offer direction b.reservations

-- `if callback_url`: neither None nor the empty text.
abbrev pub truthy : Option String → Bool
truthy none = false
truthy (some url) = if url == "" then false else true

abbrev set_callback : Uuid → Option String → Dict Uuid String → Dict Uuid String
set_callback id none d = d
set_callback id (some url) d = if truthy (some url) then Dict.set id url d else d

unfoldable pub save_reservation :
    Reservation → List Allocation → String → String → Option String → Backend → Backend
save_reservation r allocations idempotency_key fingerprint callback_url b = record b {
  reservations = Dict.set r.reservation_id r b.reservations;
  allocations = Dict.set r.reservation_id allocations b.allocations;
  idempotency = Dict.set idempotency_key (fingerprint, r.reservation_id) b.idempotency;
  callbacks = set_callback r.reservation_id callback_url b.callbacks;
}

unfoldable pub update_reservation : Reservation → Backend → Backend
update_reservation r b = record b { reservations = Dict.set r.reservation_id r b.reservations }

unfoldable pub callback_url : Backend → Uuid → Option String
callback_url b id = Dict.get id b.callbacks

unfoldable pub get_activation : Backend → Uuid → Option Activation
get_activation b id = Dict.get id b.activations

unfoldable pub activation_for_reservation : Backend → Uuid → Option Activation
activation_for_reservation b id = elim (Dict.get id b.activation_by_reservation) [
  | none ↦ none
  | some activation_id ↦ Dict.get activation_id b.activations
]

unfoldable pub save_activation :
    Activation → Reservation → List Allocation → List PebcInstruction → Backend → Backend
save_activation activation r allocations instructions b = record b {
  allocations = Dict.set r.reservation_id allocations b.allocations;
  instructions = Dict.set activation.activation_id instructions b.instructions;
  activations = Dict.set activation.activation_id activation b.activations;
  activation_by_reservation =
      Dict.set r.reservation_id activation.activation_id b.activation_by_reservation;
  reservations = Dict.set r.reservation_id r b.reservations;
}

-- `none` is the KeyError of `self._instructions[activation_id]`.
unfoldable pub instructions_for : Backend → Uuid → Option (List PebcInstruction)
instructions_for b id = Dict.get id b.instructions

unfoldable pub active_reservations : Backend → List Reservation
active_reservations b = filter (λ r. holds_capacity r.status) (Dict.values b.reservations)

unfoldable pub published_residual : Backend → ProductCell → Option Residual
published_residual b cell = Dict.get cell b.published_residuals

unfoldable pub set_published_residual : ProductCell → Residual → Backend → Backend
set_published_residual cell residual b = record b {
  published_residuals = Dict.set cell residual b.published_residuals;
}

unfoldable pub suppress_public_cell : ProductCell → Backend → Backend
suppress_public_cell cell b = record b {
  suppressed_public_cells = add cell b.suppressed_public_cells;
}

unfoldable pub public_cell_is_suppressed : Backend → ProductCell → Bool
public_cell_is_suppressed b cell = contains cell b.suppressed_public_cells
