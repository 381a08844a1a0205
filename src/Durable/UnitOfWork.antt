-- ===== src/Durable/UnitOfWork.antt =====
-- `PostgresReservationUnitOfWork` (src/der_flex/reservations/postgres.py): each method as a function
-- of the tables. A writing method returns the tables or what the statement raises; the transaction
-- is the code between.
use der_flex.Prelude.{
  ℕ, ◌+◌, String, Bool, true, false, ◌&&◌, ◌||◌, not, Option, none, some, List, [], ◌∷◌, ◌++◌, leb,
  ◌==◌, nat_eq, string_eq, if◌then◌else◌, Result, ok, err, ◌>>=◌, any, all, filter, map, sum_of,
}
use mathlib.Core.Option
use der_flex.Prelude.Sorting.{sorted}
use der_flex.Prelude.Tables.{find, update_where}
use der_flex.Domain.Models.{
  Uuid, Instant, Power, FlexibilityDirection, FlexibilityOffer, Reservation, Activation,
  ProductCell, holds_capacity,
}
use der_flex.Domain.Equality.{consequence_eq, direction_eq, cell_eq}
use der_flex.Reservations.Records.{Allocation, PebcInstruction, Residual}
use der_flex.Reservations.Backend.{expire_one, truthy}
use der_flex.Outbox.{OutboxTask}
use der_flex.Durable.Tables.{
  SqlError, unique_violation, check_violation, foreign_key_violation, ReservationRow, AllocationRow,
  InstructionRow, ResidualRow, Database, reservation_check, allocation_check, activation_check,
  outbox_check, OutboxStatus, OutboxRow,
}

-- A statement fails unless the check holds.
abbrev pub guard {ℓ} : {A : Type ℓ} → Bool → SqlError → Result SqlError A → Result SqlError A
guard b e r = if b then r else err e

abbrev pub is_reservation : Uuid → ReservationRow → Bool
is_reservation id row = row.reservation.reservation_id == id

unfoldable pub expire_row : Instant → ReservationRow → ReservationRow
expire_row now row = record row { reservation = expire_one now row.reservation }

unfoldable pub expire : Instant → Database → Database
expire now db = record db { reservations = map (expire_row now) db.reservations }

unfoldable pub get_idempotency : Database → String → Option (String × Uuid)
get_idempotency db key =
    Option.map (λ row. (row.request_fingerprint, row.reservation.reservation_id))
      (find (λ row. row.idempotency_key == key) db.reservations)

unfoldable pub get_reservation : Database → Uuid → Option Reservation
get_reservation db id =
    Option.map (λ row. row.reservation) (find (is_reservation id) db.reservations)

abbrev pub of_reservation_id : Uuid → AllocationRow → Bool
of_reservation_id id a = a.reservation_id == id

unfoldable pub get_allocations : Database → Uuid → List Allocation
unfolding sorted
get_allocations db id =
    map (λ a. a.item)
      (sorted (λ a b. leb a.allocation_index b.allocation_index)
        (filter (of_reservation_id id) db.allocations))

-- The reservation side of the join of `reserved_for_offer`.
unfoldable pub holds_for : FlexibilityOffer → FlexibilityDirection → ReservationRow → Bool
holds_for offer direction row =
    row.reservation.tenant_id == offer.tenant_id
    && row.reservation.zone_id == offer.zone_id
    && row.reservation.interval_start == offer.interval_start
    && row.reservation.interval_end == offer.interval_end
    && row.reservation.direction == direction
    && row.reservation.consequence_type == offer.consequence_type
    && holds_capacity row.reservation.status

unfoldable pub reserved_for_offer : Database → FlexibilityOffer → FlexibilityDirection → Power
reserved_for_offer db offer direction =
    sum_of (λ a. a.item.power_kw)
      (filter
        (λ a.
          a.item.resource_id == offer.resource_id
          && any (λ row. is_reservation a.reservation_id row && holds_for offer direction row)
              db.reservations)
        db.allocations)

-- The rows of `enumerate(allocations)`.
unfoldable pub allocation_rows : Uuid → ℕ → List Allocation → List AllocationRow
allocation_rows id index [] = []
allocation_rows id index (item ∷ rest) =
    record { reservation_id = id; allocation_index = index; item = item }
    ∷ allocation_rows id (index + 1) rest

-- `_replace_allocations`
unfoldable pub replace_allocations : Uuid → List Allocation → Database → Result SqlError Database
unfolding allocation_rows
replace_allocations id items db = guard (all allocation_check items) check_violation (
    ok (record db {
      allocations =
          filter (λ a. not (of_reservation_id id a)) db.allocations ++ allocation_rows id 0 items;
    }))

unfoldable pub save_reservation :
    Reservation
    → List Allocation
    → String
    → String
    → Option String
    → Database
    → Result SqlError Database
unfolding replace_allocations
save_reservation r items key fingerprint callback db = guard (reservation_check r) check_violation (
    guard
      (not (
        any (λ row. is_reservation r.reservation_id row || row.idempotency_key == key)
          db.reservations))
      unique_violation
      (replace_allocations r.reservation_id items (record db {
        reservations =
            db.reservations
            ++ (record {
              reservation = r;
              idempotency_key = key;
              request_fingerprint = fingerprint;
              callback_url = callback;
            })
              ∷ [];
      })))

-- The columns that an update of a reservation sets.
abbrev pub set_outcome : Reservation → ReservationRow → ReservationRow
set_outcome r row = record row {
  reservation = record row.reservation {
    status = r.status;
    allocated_power_kw = r.allocated_power_kw;
  };
}

unfoldable pub update_reservation : Reservation → Database → Result SqlError Database
update_reservation r db =
    guard
      (all
        (λ row.
          not (is_reservation r.reservation_id row)
          || reservation_check (set_outcome r row).reservation)
        db.reservations)
      check_violation
      (ok (record db {
        reservations =
            update_where (is_reservation r.reservation_id) (set_outcome r) db.reservations;
      }))

abbrev pub present : Option ReservationRow → Option String
present none = none
present (some row) = if truthy row.callback_url then row.callback_url else none

unfoldable pub callback_url : Database → Uuid → Option String
callback_url db id = present (find (is_reservation id) db.reservations)

unfoldable pub activation_for_reservation : Database → Uuid → Option Activation
activation_for_reservation db id = find (λ a. a.reservation_id == id) db.activations

unfoldable pub get_activation : Database → Uuid → Option Activation
get_activation db id = find (λ a. a.activation_id == id) db.activations

unfoldable pub instruction_rows : Uuid → ℕ → List PebcInstruction → List InstructionRow
instruction_rows id index [] = []
instruction_rows id index (payload ∷ rest) =
    record { activation_id = id; instruction_index = index; payload = payload }
    ∷ instruction_rows id (index + 1) rest

-- The two INSERTs of `save_activation`.
unfoldable pub insert_activation :
    Activation → List PebcInstruction → Database → Result SqlError Database
unfolding instruction_rows
insert_activation a items db = guard (activation_check a) check_violation (
    guard
      (not (
        any (λ x. x.activation_id == a.activation_id || x.reservation_id == a.reservation_id)
          db.activations))
      unique_violation
      (guard (any (is_reservation a.reservation_id) db.reservations) foreign_key_violation (
        ok (record db {
          activations = db.activations ++ a ∷ [];
          instructions = db.instructions ++ instruction_rows a.activation_id 0 items;
        }))))

unfoldable pub save_activation :
    Activation
    → Reservation
    → List Allocation
    → List PebcInstruction
    → Database
    → Result SqlError Database
save_activation a r items instructions db = do
  replaced ← replace_allocations r.reservation_id items db
  updated ← update_reservation r replaced
  insert_activation a instructions updated

abbrev pub is_event : Uuid → OutboxRow → Bool
is_event id row = row.task.event_id == id

abbrev pub new_row : OutboxTask → Instant → Instant → OutboxRow
new_row task available_at stamp = record {
  task = record task { attempts = 0 };
  status = OutboxStatus.pending;
  available_at = available_at;
  locked_until = none;
  created_at = stamp;
  delivered_at = none;
  last_error = none;
}

-- A task whose event is known is left out. `stamp` is the clock of the database.
unfoldable pub enqueue_outbox : OutboxTask → Instant → Instant → Database → Result SqlError Database
enqueue_outbox task available_at stamp db = guard (outbox_check task) check_violation (
    if any (is_event task.event_id) db.outbox
    then ok db
    else guard
        (any (λ a. a.activation_id == task.activation_id) db.activations
          && any (is_reservation task.reservation_id) db.reservations)
        foreign_key_violation
        (ok (record db { outbox = db.outbox ++ new_row task available_at stamp ∷ [] })))

unfoldable pub instructions_for : Database → Uuid → List PebcInstruction
unfolding sorted
instructions_for db id =
    map (λ row. row.payload)
      (sorted (λ a b. leb a.instruction_index b.instruction_index)
        (filter (λ row. row.activation_id == id) db.instructions))

unfoldable pub active_reservations : Database → List Reservation
active_reservations db =
    filter (λ r. holds_capacity r.status) (map (λ row. row.reservation) db.reservations)

abbrev pub is_cell : ProductCell → ResidualRow → Bool
is_cell cell row = row.cell == cell

unfoldable pub published_residual : Database → ProductCell → Option Residual
published_residual db cell = Option.map (λ row. row.residual) (find (is_cell cell) db.residuals)

-- The insertion, or the update on conflict.
unfoldable pub set_published_residual : ProductCell → Residual → Database → Database
set_published_residual cell residual db =
    if any (is_cell cell) db.residuals
    then record db {
      residuals =
          update_where (is_cell cell) (λ row. record row { residual = residual }) db.residuals;
    }
    else record db {
      residuals =
          db.residuals ++ (record { cell = cell; residual = residual; suppressed = false }) ∷ [];
    }

-- Only a row that is there is marked.
unfoldable pub suppress_public_cell : ProductCell → Database → Database
suppress_public_cell cell db = record db {
  residuals = update_where (is_cell cell) (λ row. record row { suppressed = true }) db.residuals;
}

abbrev pub marked : Option ResidualRow → Bool
marked none = false
marked (some row) = row.suppressed

unfoldable pub public_cell_is_suppressed : Database → ProductCell → Bool
public_cell_is_suppressed db cell = marked (find (is_cell cell) db.residuals)
