-- ===== src/Durable/Activate.antt =====
-- `ReservationService._activate_durable` (src/der_flex/reservations/service.py) over the durable
-- backend: one transaction that records a pending activation and its tasks. The `drain` behind it is
-- a run of the outbox, and the answer is the activation as it is read then.
use der_flex.Prelude.{
  ℕ, ◌+◌, String, Bool, Option, none, some, List, [], ◌∷◌, Result, ok, err, ◌>>=◌, if◌then◌else◌,
  length,
}
use der_flex.Domain.Models.{
  Uuid, Instant, Reservation, ReservationStatus, Activation, ActivationStatus, is_confirmed,
}
use der_flex.Reservations.Records.{
  Allocation, PebcInstruction, ReservationError, reservation_not_found, reservation_state_conflict,
}
use der_flex.Adapters.Dispatch.{InstructionIds, build_pebc_instruction}
use der_flex.Adapters.Webhooks.{of_reservation, of_instruction}
use der_flex.Outbox.{OutboxTask, TaskKind}
use der_flex.Durable.Tables.{SqlError, Database}
use Prim.Native.String.{◌++◌}
use der_flex.Durable.UnitOfWork.{
  expire, get_reservation, get_allocations, activation_for_reservation, save_activation,
  callback_url, enqueue_outbox,
}

-- What the transaction raises; it is rolled back then.
pub data TransactionError : Type 0 where
  service_error : ReservationError → TransactionError
  sql_error : SqlError → TransactionError

abbrev pub of_sql {ℓ} : {A : Type ℓ} → Result SqlError A → Result TransactionError A
of_sql (ok a) = ok a
of_sql (err e) = err (sql_error e)

abbrev pub of_service {ℓ} : {A : Type ℓ} → Result ReservationError A → Result TransactionError A
of_service (ok a) = ok a
of_service (err e) = err (service_error e)

-- The S2 parser, the random identifiers, `uuid5`, the clock of the service and that of the database.
pub record DurableContext : Type 0 where
  pub parses : PebcInstruction → Bool
  pub instruction_ids : ℕ → InstructionIds
  pub activation_id : Uuid
  pub event_id_of : Uuid → String → Uuid
  -- The text of an index in "resource:<index>".
  pub resource_suffix : ℕ → String
  pub now : Instant
  pub stamp : Instant

unfoldable pub build_instructions :
    DurableContext
    → Reservation
    → ℕ
    → List Allocation
    → Result ReservationError (List PebcInstruction)
build_instructions c r index [] = ok []
build_instructions c r index (item ∷ rest) = do
  instruction ← build_pebc_instruction c.parses (c.instruction_ids index) item r
  instructions ← build_instructions c r (index + 1) rest
  ok (instruction ∷ instructions)

abbrev pub pending_activation : DurableContext → Reservation → ℕ → Activation
pending_activation c r instruction_count = record {
  activation_id = c.activation_id;
  reservation_id = r.reservation_id;
  correlation_id = r.correlation_id;
  status = ActivationStatus.pending;
  instruction_count = instruction_count;
  accepted_instruction_count = 0;
  rejected_instruction_count = 0;
  created_at = c.now;
  completed_at = none;
}

abbrev pub event_task : DurableContext → Reservation → String → String → OutboxTask
event_task c r url event = record {
  event_id = c.event_id_of c.activation_id ("webhook:" ++ event);
  kind = TaskKind.webhook;
  destination = url;
  event_type = event;
  payload = of_reservation r;
  attempts = 0;
  activation_id = c.activation_id;
  reservation_id = r.reservation_id;
  allocation_index = none;
}

abbrev pub resource_task :
    DurableContext → Reservation → ℕ → Allocation → PebcInstruction → OutboxTask
resource_task c r index item instruction = record {
  event_id = c.event_id_of c.activation_id (c.resource_suffix index);
  kind = TaskKind.resource;
  destination = item.resource_id;
  event_type = "pebc.instruction";
  payload = of_instruction instruction;
  attempts = 0;
  activation_id = c.activation_id;
  reservation_id = r.reservation_id;
  allocation_index = some index;
}

abbrev pub enqueue_events :
    DurableContext → Reservation → Option String → Database → Result SqlError Database
enqueue_events c r none db = ok db
enqueue_events c r (some url) db = do
  accepted ← enqueue_outbox (event_task c r url "activation.accepted") c.now c.stamp db
  enqueue_outbox (event_task c r url "activation.started") c.now c.stamp accepted

-- The loop over `zip(allocations, instructions)`.
unfoldable pub enqueue_resources :
    DurableContext
    → Reservation
    → ℕ
    → List Allocation
    → List PebcInstruction
    → Database
    → Result SqlError Database
enqueue_resources c r index [] instructions db = ok db
enqueue_resources c r index (item ∷ items) [] db = ok db
enqueue_resources c r index (item ∷ items) (instruction ∷ instructions) db = do
  next ← enqueue_outbox (resource_task c r index item instruction) c.now c.stamp db
  enqueue_resources c r (index + 1) items instructions next

-- The transaction from the confirmed reservation on.
unfoldable pub start_activation :
    DurableContext → Uuid → Reservation → Database → Result TransactionError (Uuid × Database)
start_activation c id r db =
    let items = get_allocations db id in
    let activated : Reservation = record r { status = ReservationStatus.activated } in
    do
      instructions ← of_service (build_instructions c r 0 items)
      saved ← of_sql (
          save_activation (pending_activation c r (length instructions)) activated items
            instructions db)
      announced ← of_sql (enqueue_events c activated (callback_url saved id) saved)
      enqueued ← of_sql (enqueue_resources c r 0 items instructions announced)
      ok (c.activation_id, enqueued)

abbrev pub start_found :
    DurableContext
    → Uuid
    → Option Reservation
    → Database
    → Result TransactionError (Uuid × Database)
start_found c id none db = err (service_error reservation_not_found)
start_found c id (some r) db =
    if is_confirmed r.status
    then start_activation c id r db
    else err (service_error reservation_state_conflict)

unfoldable pub activate_durable :
    DurableContext → Uuid → Database → Result TransactionError (Uuid × Database)
activate_durable c id db = elim (activation_for_reservation db id) [
  | some existing ↦ ok (existing.activation_id, db)
  | none ↦ start_found c id (get_reservation (expire c.now db) id) (expire c.now db)
]
