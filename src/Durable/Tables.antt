-- ===== src/Durable/Tables.antt =====
-- The tables of SCHEMA_SQL (src/der_flex/reservations/postgres.py) as lists of rows, and the checks
-- that the schema makes of a row.
--
-- A column that another column decides is left out: `product_class` has one value. A payload is the
-- value that the text of the column encodes.
use der_flex.Prelude.{
  ℕ, ◌+◌, ◌*◌, String, Bool, true, false, ◌&&◌, not, Option, none, some, List, [], leb, ltb, ◌==◌,
  nat_eq, string_eq, if◌then◌else◌,
}
use der_flex.Prelude.Int.{leb_ℤ, pos, negsuc}
use der_flex.Domain.Models.{
  Uuid, Instant, Power, kilowatt, Reservation, Activation, ActivationStatus, ProductCell,
}
use der_flex.Reservations.Records.{Allocation, PebcInstruction, Residual}
use der_flex.Outbox.{OutboxTask, TaskError, is_webhook}

-- What a statement raises. The transaction around it is rolled back.
pub data SqlError : Type 0 where
  unique_violation check_violation foreign_key_violation : SqlError

pub record ReservationRow : Type 0 where
  pub reservation : Reservation
  pub idempotency_key : String
  pub request_fingerprint : String
  pub callback_url : Option String

pub record AllocationRow : Type 0 where
  pub reservation_id : Uuid
  pub allocation_index : ℕ
  pub item : Allocation

pub record InstructionRow : Type 0 where
  pub activation_id : Uuid
  pub instruction_index : ℕ
  pub payload : PebcInstruction

pub data OutboxStatus : Type 0 where
  pending processing retry delivered dead : OutboxStatus

-- The task of a row carries its number of attempts.
pub record OutboxRow : Type 0 where
  pub task : OutboxTask
  pub status : OutboxStatus
  pub available_at : Instant
  pub locked_until : Option Instant
  pub created_at : Instant
  pub delivered_at : Option Instant
  pub last_error : Option TaskError

pub record ResidualRow : Type 0 where
  pub cell : ProductCell
  pub residual : Residual
  pub suppressed : Bool

pub record Database : Type 0 where
  pub reservations : List ReservationRow
  pub allocations : List AllocationRow
  pub activations : List Activation
  pub instructions : List InstructionRow
  pub outbox : List OutboxRow
  pub residuals : List ResidualRow

abbrev pub empty_database : Database
empty_database = record {
  reservations = [];
  allocations = [];
  activations = [];
  instructions = [];
  outbox = [];
  residuals = [];
}

abbrev max_power : Power
max_power = 1000000 * kilowatt

abbrev max_baseline : Power
max_baseline = 100000000 * kilowatt

-- The checks of `der_flex_reservations` that the types do not make.
unfoldable pub reservation_check : Reservation → Bool
reservation_check r =
    not (r.tenant_id == "")
    && ltb r.interval_start r.interval_end
    && ltb 0 r.requested_power_kw
    && leb r.requested_power_kw max_power
    && leb r.allocated_power_kw r.requested_power_kw
    && ltb 0 r.participant_count

-- `der_flex_allocation_power`, `der_flex_allocation_baseline` and the version.
unfoldable pub allocation_check : Allocation → Bool
allocation_check a =
    ltb 0 a.power_kw
    && leb a.power_kw max_power
    && leb_ℤ a.baseline_power_kw (pos max_baseline)
    && leb_ℤ (negsuc 99999999999999999) a.baseline_power_kw
    && not (a.source_version == "")

abbrev pub is_pending : ActivationStatus → Bool
is_pending ActivationStatus.pending = true
is_pending s = false

abbrev completed_after : Instant → Option Instant → Bool
completed_after created none = false
completed_after created (some t) = leb created t

abbrev pub is_none {ℓ} : {A : Type ℓ} → Option A → Bool
is_none none = true
is_none (some a) = false

-- `der_flex_activation_counts` and `der_flex_activation_completion`.
unfoldable pub activation_check : Activation → Bool
activation_check a =
    let answered = a.accepted_instruction_count + a.rejected_instruction_count in
    leb answered a.instruction_count
    && (if is_pending a.status
        then is_none a.completed_at
        else completed_after a.created_at a.completed_at && answered == a.instruction_count)

-- The checks of `der_flex_outbox`: the texts, and `der_flex_outbox_allocation`.
unfoldable pub outbox_check : OutboxTask → Bool
outbox_check t =
    not (t.destination == "")
    && not (t.event_type == "")
    && (if is_webhook t.kind then is_none t.allocation_index else not (is_none t.allocation_index))
