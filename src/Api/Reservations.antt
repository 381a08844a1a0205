-- ===== src/Api/Reservations.antt =====
-- The handlers of single reservations and activations, and the check of the scope before each
-- (`require_access` in src/der_flex/api/app.py). Routing, the reading of the bearer header and the
-- HTTP encoding are not modelled.
pub mod Tenants
use der_flex.Prelude.{String, Result, ok, err}
use der_flex.Domain.Models.{Uuid, Instant, Reservation, Activation}
use der_flex.Reservations.Records.{ReservationError}
use der_flex.Reservations.Backend.{Backend}
use der_flex.Reservations.Service.{get, cancel}
use der_flex.Reservations.Service.Activate.{
  ActivationContext, ServiceState, activate, get_activation,
}
use der_flex.Api.Security.{
  AccessPrincipal, AuthorizationError, require_scope, require_tenant, require_zone,
}

pub data HandlerError : Type 0 where
  forbidden : AuthorizationError → HandlerError
  failed_request : ReservationError → HandlerError

-- `principal.require_tenant(...)` and `require_zone(...)` on the reservation that was read.
unfoldable pub authorised :
    AccessPrincipal → Result ReservationError Reservation → Result HandlerError Reservation
authorised p (err e) = err (failed_request e)
authorised p (ok r) = elim (require_tenant p r.tenant_id) [
  | err e ↦ err (forbidden e)
  | ok u ↦ elim (require_zone p r.zone_id) [ err e ↦ err (forbidden e) | ok v ↦ ok r ]
]

-- The start that the handlers of a reservation share: the scope, the reservation, its tenant and zone.
unfoldable pub open_reservation :
    AccessPrincipal → String → Uuid → Instant → Backend → Result HandlerError Reservation × Backend
open_reservation p scope id now b = elim (require_scope p scope) [
  | err e ↦ (err (forbidden e), b)
  | ok u ↦ (authorised p (get id now b).0, (get id now b).1)
]

unfoldable pub read_reservation :
    AccessPrincipal → Uuid → Instant → Backend → Result HandlerError Reservation × Backend
read_reservation p id now b = open_reservation p "reservation:read" id now b

abbrev pub answer_of {ℓ} : {A : Type ℓ} → Result ReservationError A → Result HandlerError A
answer_of (ok a) = ok a
answer_of (err e) = err (failed_request e)

unfoldable pub cancel_reservation :
    AccessPrincipal → Uuid → Instant → Instant → Backend → Result HandlerError Reservation × Backend
cancel_reservation p id now later b =
    let opened = open_reservation p "reservation:write" id now b in
    elim opened.0 [
      | err e ↦ (err e, opened.1)
      | ok r ↦ (answer_of (cancel id later opened.1).0, (cancel id later opened.1).1)
    ]

unfoldable pub activate_reservation :
    AccessPrincipal
    → ActivationContext
    → Uuid
    → Instant
    → ServiceState
    → Result HandlerError Activation × ServiceState
activate_reservation p c id now s =
    let opened = open_reservation p "activation:write" id now s.backend in
    let current : ServiceState = record s { backend = opened.1 } in
    elim opened.0 [
      | err e ↦ (err e, current)
      | ok r ↦ (answer_of (activate c id current).0, (activate c id current).1)
    ]

unfoldable pub read_activation :
    AccessPrincipal → Uuid → Instant → Backend → Result HandlerError Activation × Backend
read_activation p id now b = elim (require_scope p "activation:read") [
  | err e ↦ (err (forbidden e), b)
  | ok u ↦ elim (get_activation id b) [
    | err e ↦ (err (failed_request e), b)
    | ok a ↦ (
      elim (authorised p (get a.reservation_id now b).0) [ err e ↦ err e | ok r ↦ ok a ],
      (get a.reservation_id now b).1,
    )
  ]
]
