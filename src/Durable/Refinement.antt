-- ===== src/Durable/Refinement.antt =====
-- Calls of the durable backend (src/der_flex/reservations/postgres.py) and of the in-memory one
-- (src/der_flex/reservations/backend.py): the expiry, a new reservation with its allocations, a new
-- status and power of a stored one, its activation, and a round of a publication. They are compared
-- by the reads of a reservation, its allocations, an idempotency key, an activation by its identifier
-- and by its reservation, a published residual and a suppression. `enqueue_outbox`, which does
-- nothing in memory, is not one of the calls, and `reserved_for_offer`, which in the in-memory
-- backend does not compare the tenant, is not compared.
pub mod Reads
pub mod Kept
pub mod Cells
pub mod Activations
pub mod Simulation
pub mod Starts
pub mod Run
use der_flex.Prelude.Dict
use der_flex.Prelude.{
  any, ℕ, String, ◌≡◌, inl, inr, Bool, true, false, Option, none, some, List, [], ◌∷◌, arith,
  Result, ok, err, ◌>>=◌, Bool-cases, Option-cases, nat_eq, string_eq, ◌==◌, ==_iff, refl,
  if◌then◌else◌, ◌||◌,
}
use mathlib.Core.Option
use mathlib.Core.Path.{subst, sym, ◌∙◌}
use der_flex.Prelude.Dict.{get-set, get-map_values}
use der_flex.Domain.Models.{
  Uuid, Instant, Power, Activation, Reservation, ReservationStatus, ProductCell,
  FlexibilityAggregate,
}
use der_flex.Domain.Equality.{cell_eq}
use der_flex.Reservations.Records.{Allocation, Residual, PebcInstruction}
use der_flex.Reservations.Backend
use der_flex.Reservations.Service.Residual.{publish_one, note_change, differs, cell_of, residual_of}
use der_flex.Durable.Tables.{SqlError, Database, empty_database}
use der_flex.Durable.UnitOfWork
use der_flex.Durable.Publish.{publish_durable}

-- The reads of an activation agree, and what the in-memory index names is in the table.
pub record AgreesOnActivations (db : Database) (b : Backend.Backend) : Type 0 where
  pub activations : (id : Uuid) → UnitOfWork.get_activation db id ≡ Backend.get_activation b id
  pub for_reservation :
      (id : Uuid)
      → UnitOfWork.activation_for_reservation db id ≡ Backend.activation_for_reservation b id
  pub indexed :
      (id known : Uuid)
      → Dict.get id b.activation_by_reservation ≡ some known
      → any (λ x. x.activation_id == known) db.activations ≡ true

-- The reads of a reservation, its allocations, a key, an activation, a residual and a suppression agree.
pub record Refines (db : Database) (b : Backend.Backend) : Type 0 where
  pub reservations : (id : Uuid) → UnitOfWork.get_reservation db id ≡ Backend.get_reservation b id
  pub idempotency :
      (key : String) → UnitOfWork.get_idempotency db key ≡ Backend.get_idempotency b key
  pub allocations :
      (id : Uuid) (items : List Allocation)
      → Backend.get_allocations b id ≡ some items
      → UnitOfWork.get_allocations db id ≡ items
  pub residuals :
      (cell : ProductCell)
      → UnitOfWork.published_residual db cell ≡ Backend.published_residual b cell
  pub suppressed :
      (cell : ProductCell)
      → UnitOfWork.public_cell_is_suppressed db cell ≡ Backend.public_cell_is_suppressed b cell
  pub started : AgreesOnActivations db b

-- The calls that write: an expiry, a new reservation, `model_copy(update=...)` of a stored one, the
-- activation of a stored one with its new status and power, and a publication.
pub data Call : Type 0 where
  expires : Instant → Call
  saves : Reservation → List Allocation → String → String → Option String → Call
  sets : Uuid → ReservationStatus → Power → Call
  starts : Activation → ReservationStatus → Power → List Allocation → List PebcInstruction → Call
  publishes : FlexibilityAggregate → Call

abbrev pub with_outcome : ReservationStatus → Power → Reservation → Reservation
with_outcome status power r = record r { status = status; allocated_power_kw = power }

unfoldable pub durable_call : Call → Database → Result SqlError Database
unfolding publish_durable
durable_call (expires now) db = ok (UnitOfWork.expire now db)
durable_call (saves r items key fingerprint url) db =
    UnitOfWork.save_reservation r items key fingerprint url db
durable_call (sets id status power) db = elim (UnitOfWork.get_reservation db id) [
  | none ↦ ok db
  | some r ↦ UnitOfWork.update_reservation (with_outcome status power r) db
]
durable_call (starts a status power items instructions) db =
    elim (UnitOfWork.get_reservation db a.reservation_id) [
      | none ↦ ok db
      | some r ↦ UnitOfWork.save_activation a (with_outcome status power r) items instructions db
    ]
durable_call (publishes a) db = ok (publish_durable a db).1

unfoldable pub memory_call : Call → Backend.Backend → Backend.Backend
memory_call (expires now) b = Backend.expire now b
memory_call (saves r items key fingerprint url) b =
    Backend.save_reservation r items key fingerprint url b
memory_call (sets id status power) b = elim (Backend.get_reservation b id) [
  | none ↦ b
  | some r ↦ Backend.update_reservation (with_outcome status power r) b
]
memory_call (starts a status power items instructions) b =
    elim (Backend.get_reservation b a.reservation_id) [
      | none ↦ b
      | some r ↦ Backend.save_activation a (with_outcome status power r) items instructions b
    ]
memory_call (publishes a) b = (publish_one a b).1

unfoldable pub durable_run : List Call → Database → Result SqlError Database
durable_run [] db = ok db
durable_run (call ∷ calls) db = durable_call call db >>= durable_run calls

unfoldable pub memory_run : List Call → Backend.Backend → Backend.Backend
memory_run [] b = b
memory_run (call ∷ calls) b = memory_run calls (memory_call call b)
