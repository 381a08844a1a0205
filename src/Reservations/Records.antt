-- ===== src/Reservations/Records.antt =====
-- The records of src/der_flex/reservations/backend.py, the S2 instruction of
-- src/der_flex/adapters/s2/dispatch.py, and the errors of src/der_flex/reservations/service.py.
use der_flex.Prelude.{ℕ, String, Bool, true, ◌&&◌, ◌==◌, Eq, nat_eq, arith, ◌≡◌, ◌↔◌}
use der_flex.Prelude.Int.{ℤ}
use der_flex.Domain.Models.{Uuid, Instant, Power, Energy}

pub record Allocation : Type 0 where
  pub resource_id : String
  pub power_kw : Power
  pub baseline_power_kw : ℤ
  pub source_version : String

-- The part of a PEBC.Instruction that depends on the reservation: its three random identifiers, the
-- instant of execution, the constraints that it answers, and the one element of its envelope. The
-- limits are in 10⁻⁹ W.
pub record PebcInstruction : Type 0 where
  pub message_id : Uuid
  pub id : Uuid
  pub envelope_id : Uuid
  pub execution_time : Instant
  pub power_constraints_id : String
  pub duration : ℕ
  pub upper_limit : ℤ
  pub lower_limit : ℤ

-- The published residual: upward and downward capacity, upward and downward energy.
pub record Residual : Type 0 where
  pub upward_capacity_kw : Power
  pub downward_capacity_kw : Power
  pub upward_energy_kwh : Energy
  pub downward_energy_kwh : Energy

-- What the service raises. `invalid_request` is the ValueError of `create`, `key_error` a dictionary
-- that is read at a missing key, `invalid_instruction` the refusal of a generated message.
pub data ReservationError : Type 0 where
  invalid_request insufficient_capacity idempotency_conflict : ReservationError
  reservation_not_found reservation_state_conflict : ReservationError
  key_error invalid_instruction : ReservationError

abbrev pub residual_beq : Residual → Residual → Bool
residual_beq a b =
    a.upward_capacity_kw == b.upward_capacity_kw
    && a.downward_capacity_kw == b.downward_capacity_kw
    && a.upward_energy_kwh == b.upward_energy_kwh
    && a.downward_energy_kwh == b.downward_energy_kwh

pub residual_beq_iff : (a b : Residual) → (residual_beq a b ≡ true) ↔ (a ≡ b)
residual_beq_iff a b = ground arith

instance abbrev pub residual_eq : Eq Residual
residual_eq = record { beq = residual_beq; beq_iff = residual_beq_iff }
