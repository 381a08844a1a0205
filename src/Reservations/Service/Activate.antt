-- ===== src/Reservations/Service/Activate.antt =====
-- `ReservationService.activate` over the in-memory backend, and `_notify`, `get_activation` and
-- `instructions_for` (src/der_flex/reservations/service.py).
use der_flex.Prelude.{
  ℕ, ◌+◌, ◌-◌, String, Bool, Option, none, some, List, [], ◌∷◌, Result, ok, err, ◌>>=◌,
  if◌then◌else◌, length, filter, map, sum_of, ltb,
}
use der_flex.Domain.Models.{
  Uuid, Instant, Reservation, Activation, ReservationStatus, ActivationStatus, is_confirmed,
}
use der_flex.Reservations.Records.{
  Allocation, PebcInstruction, ReservationError, reservation_not_found, reservation_state_conflict,
  key_error,
}
use der_flex.Reservations.Backend.{
  Backend, expire, get_allocations, callback_url, truthy, activation_for_reservation,
  save_activation,
}
use der_flex.Reservations.Backend
use der_flex.Adapters.Dispatch.{InstructionIds, build_pebc_instruction}
use der_flex.Adapters.Webhooks.{
  WebhookDispatcher, WebhookDelivery, WebhookPayload, of_reservation, of_activation, deliver,
}
use der_flex.Reservations.Service.{found_reservation}

-- What `activate` uses of its surroundings: the S2 parser, the random identifiers of the
-- instructions and of the activation, the acceptor of the resources, the dispatcher, and the clock
-- at its two readings.
pub record ActivationContext : Type 0 where
  pub parses : PebcInstruction → Bool
  pub instruction_ids : ℕ → InstructionIds
  pub activation_id : Uuid
  pub resource_acceptor : String → PebcInstruction → Bool
  pub webhooks : WebhookDispatcher
  pub now : Instant
  pub completed : Instant

pub record ServiceState : Type 0 where
  pub backend : Backend
  pub deliveries : List WebhookDelivery

abbrev pub Pair : Type 0
Pair = Allocation × PebcInstruction

unfoldable pub notify :
    WebhookDispatcher
    → Option String
    → String
    → WebhookPayload
    → List WebhookDelivery
    → List WebhookDelivery
notify w none event payload deliveries = deliveries
notify w (some url) event payload deliveries =
    if truthy (some url) then deliver w url event payload deliveries else deliveries

-- The pairs of an allocation and its instruction, from the given index on.
unfoldable pub build_pairs :
    ActivationContext → Reservation → ℕ → List Allocation → Result ReservationError (List Pair)
build_pairs c r index [] = ok []
build_pairs c r index (item ∷ rest) = do
  instruction ← build_pebc_instruction c.parses (c.instruction_ids index) item r
  pairs ← build_pairs c r (index + 1) rest
  ok ((item, instruction) ∷ pairs)

abbrev pub accepted_pairs : ActivationContext → List Pair → List Pair
accepted_pairs c = filter (λ p. c.resource_acceptor p.0.resource_id p.1)

-- "FAILED" if one instruction was rejected, or "COMPLETED".
unfoldable pub outcome : ActivationContext → Uuid → Reservation → List Pair → Activation
outcome c id r pairs =
    let rejected = length pairs - length (accepted_pairs c pairs) in
    record {
      activation_id = c.activation_id;
      reservation_id = id;
      correlation_id = r.correlation_id;
      status = if ltb 0 rejected then ActivationStatus.failed else ActivationStatus.completed;
      instruction_count = length pairs;
      accepted_instruction_count = length (accepted_pairs c pairs);
      rejected_instruction_count = rejected;
      created_at = c.completed;
      completed_at = some c.completed;
    }

unfoldable pub closed_reservation : ActivationContext → Reservation → List Pair → Reservation
closed_reservation c r pairs =
    let rejected = length pairs - length (accepted_pairs c pairs) in
    record r {
      status = if ltb 0 rejected then ReservationStatus.failed else ReservationStatus.completed;
      allocated_power_kw = sum_of (λ p. p.0.power_kw) (accepted_pairs c pairs);
    }

-- The writes and the last notification, once the instructions are built.
unfoldable pub finish :
    ActivationContext → Uuid → Reservation → Option String → List Pair → ServiceState → ServiceState
finish c id r url pairs s =
    let activation = outcome c id r pairs in
    let rejected = length pairs - length (accepted_pairs c pairs) in
    record {
      backend =
          save_activation activation (closed_reservation c r pairs)
            (map (λ p. p.0) (accepted_pairs c pairs)) (map (λ p. p.1) pairs) s.backend;
      deliveries =
          notify c.webhooks url
            (if ltb 0 rejected then "activation.failed" else "activation.completed")
            (of_activation activation) s.deliveries;
    }

-- A confirmed reservation: the two notifications, the instructions, and the rest.
unfoldable pub dispatch :
    ActivationContext
    → Uuid
    → Reservation
    → ServiceState
    → Result ReservationError Activation × ServiceState
dispatch c id r s =
    let url = callback_url s.backend id in
    let accepted = notify c.webhooks url "activation.accepted" (of_reservation r) s.deliveries in
    let started = notify c.webhooks url "activation.started" (of_reservation r) accepted in
    let notified : ServiceState = record s { deliveries = started } in
    elim (get_allocations s.backend id) [
      | none ↦ (err key_error, notified)
      | some items ↦ elim (build_pairs c r 0 items) [
        | err e ↦ (err e, notified)
        | ok pairs ↦ (ok (outcome c id r pairs), finish c id r url pairs notified)
      ]
    ]

unfoldable pub activate_known :
    ActivationContext
    → Uuid
    → Result ReservationError Reservation
    → ServiceState
    → Result ReservationError Activation × ServiceState
activate_known c id (err e) s = (err e, s)
activate_known c id (ok r) s =
    if is_confirmed r.status then dispatch c id r s else (err reservation_state_conflict, s)

unfoldable pub activate :
    ActivationContext → Uuid → ServiceState → Result ReservationError Activation × ServiceState
activate c id s = elim (activation_for_reservation s.backend id) [
  | some existing ↦ (ok existing, s)
  | none ↦
      (let current : ServiceState = record s { backend = expire c.now s.backend } in
        activate_known c id (found_reservation current.backend id) current)
]

unfoldable pub get_activation : Uuid → Backend → Result ReservationError Activation
get_activation id b = elim (Backend.get_activation b id) [
  | none ↦ err reservation_not_found
  | some a ↦ ok a
]

unfoldable pub instructions_for : Uuid → Backend → Result ReservationError (List PebcInstruction)
instructions_for id b = elim (Backend.instructions_for b id) [
  | none ↦ err key_error
  | some items ↦ ok items
]
