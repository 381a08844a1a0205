-- ===== src/Domain/Models.antt =====
-- The data model (src/der_flex/domain/models.py).
--
-- Numbers. A power is a whole number of 10⁻⁹ kW and an energy a whole number of 10⁻⁹ kW·µs, so the
-- tolerance 1e-9 kW is one unit and power times duration is exact; a confidence is a whole number
-- of 10⁻⁹. Quantities with the constraint `ge=0` are naturals, a baseline is an integer. Binary
-- rounding of floats is not modelled. An instant is the microseconds since the epoch, in UTC, so a
-- datetime without a timezone has no counterpart here. Fields that admit one literal only
-- (`product_class`, `schema_version`) are left out.
use der_flex.Prelude.{ℕ, String, Bool, true, false, ◌&&◌, Option, ltb, leb}
use der_flex.Prelude.Int.{ℤ}

abbrev pub Uuid : Type 0
Uuid = ℕ

abbrev pub Instant : Type 0
Instant = ℕ

abbrev pub Power : Type 0
Power = ℕ

abbrev pub Energy : Type 0
Energy = ℕ

-- One kilowatt, and the tolerance 1e-9 of the comparisons of powers.
abbrev pub kilowatt : Power
kilowatt = 1000000000

abbrev pub tolerance : Power
tolerance = 1

abbrev pub second : ℕ
second = 1000000

pub data ConsequenceType : Type 0 where
  vanish defer : ConsequenceType

pub data FlexibilityDirection : Type 0 where
  upward downward : FlexibilityDirection

pub data ReservationStatus : Type 0 where
  confirmed activated completed cancelled expired failed : ReservationStatus

pub data ActivationStatus : Type 0 where
  pending completed failed : ActivationStatus

pub record FlexibilityOffer : Type 0 where
  pub resource_id : String
  pub zone_id : String
  pub interval_start : Instant
  pub interval_end : Instant
  pub baseline_power_kw : ℤ
  pub upward_capacity_kw : Power
  pub downward_capacity_kw : Power
  pub upward_energy_kwh : Energy
  pub downward_energy_kwh : Energy
  pub confidence : ℕ
  pub consequence_type : ConsequenceType
  pub source_version : String
  pub source_epoch : ℕ
  pub source_sequence : ℕ
  pub observed_at : Instant
  pub expires_at : Instant
  pub tenant_id : String

-- `validate_times`: the interval is not empty, and the offer lives to its end.
unfoldable pub validate_times : FlexibilityOffer → Bool
validate_times o = ltb o.interval_start o.interval_end && leb o.interval_end o.expires_at

pub record FlexibilityAggregate : Type 0 where
  pub zone_id : String
  pub interval_start : Instant
  pub interval_end : Instant
  pub baseline_power_kw : ℤ
  pub upward_capacity_kw : Power
  pub downward_capacity_kw : Power
  pub upward_energy_kwh : Energy
  pub downward_energy_kwh : Energy
  pub participant_count : ℕ
  pub confidence : ℕ
  pub consequence_type : ConsequenceType
  pub generated_at : Instant
  pub tenant_id : String

pub record Reservation : Type 0 where
  pub reservation_id : Uuid
  pub correlation_id : Uuid
  pub zone_id : String
  pub interval_start : Instant
  pub interval_end : Instant
  pub direction : FlexibilityDirection
  pub requested_power_kw : Power
  pub allocated_power_kw : Power
  pub participant_count : ℕ
  pub consequence_type : ConsequenceType
  pub status : ReservationStatus
  pub created_at : Instant
  pub expires_at : Instant
  pub tenant_id : String

pub record Activation : Type 0 where
  pub activation_id : Uuid
  pub reservation_id : Uuid
  pub correlation_id : Uuid
  pub status : ActivationStatus
  pub instruction_count : ℕ
  pub accepted_instruction_count : ℕ
  pub rejected_instruction_count : ℕ
  pub created_at : Instant
  pub completed_at : Option Instant

-- The cell of an aggregate: tenant, zone, interval and consequence.
pub record ProductCell : Type 0 where
  pub tenant_id : String
  pub zone_id : String
  pub interval_start : Instant
  pub interval_end : Instant
  pub consequence_type : ConsequenceType

-- `status == "CONFIRMED"`
abbrev pub is_confirmed : ReservationStatus → Bool
is_confirmed confirmed = true
is_confirmed s = false

-- `status in {"CONFIRMED", "ACTIVATED", "COMPLETED", "FAILED"}`: the capacity is taken.
abbrev pub holds_capacity : ReservationStatus → Bool
holds_capacity cancelled = false
holds_capacity expired = false
holds_capacity s = true

-- A number of the caller, which may be no finite number.
pub data FloatInput : Type 0 where
  finite : ℤ → FloatInput
  infinite negative_infinite not_a_number : FloatInput
