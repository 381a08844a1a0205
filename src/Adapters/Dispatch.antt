-- ===== src/Adapters/Dispatch.antt =====
-- `build_pebc_instruction` (src/der_flex/adapters/s2/dispatch.py). The S2 parser, which is not part
-- of the repository, is the argument `parses`; the random identifiers are the argument `ids`.
use der_flex.Prelude.{◌-◌, ◌*◌, ◌/◌, Bool, Result, ok, err, if◌then◌else◌, ◌+◌}
use der_flex.Prelude.Int.{ℤ, pos, negsuc, ◌+ℤ◌, ◌-ℤ◌}
use der_flex.Domain.Models.{Uuid, FlexibilityDirection, upward, downward, Reservation}
use der_flex.Reservations.Records.{
  Allocation, PebcInstruction, ReservationError, invalid_instruction,
}

pub record InstructionIds : Type 0 where
  pub message_id : Uuid
  pub id : Uuid
  pub envelope_id : Uuid

-- More generation means less consumption: the power is positive when the resource consumes.
unfoldable pub target_kw : FlexibilityDirection → Allocation → ℤ
target_kw upward a = a.baseline_power_kw -ℤ pos a.power_kw
target_kw downward a = a.baseline_power_kw +ℤ pos a.power_kw

abbrev pub times_1000 : ℤ → ℤ
times_1000 (pos n) = pos (n * 1000)
times_1000 (negsuc n) = negsuc (n * 1000 + 999)

unfoldable pub build_pebc_instruction :
    (PebcInstruction → Bool)
    → InstructionIds
    → Allocation
    → Reservation
    → Result ReservationError PebcInstruction
unfolding target_kw
build_pebc_instruction parses ids a r =
    let limit = times_1000 (target_kw r.direction a) in
    let payload : PebcInstruction = record {
      message_id = ids.message_id;
      id = ids.id;
      envelope_id = ids.envelope_id;
      execution_time = r.interval_start;
      power_constraints_id = a.source_version;
      duration = (r.interval_end - r.interval_start) / 1000;
      upper_limit = limit;
      lower_limit = limit;
    } in
    if parses payload then ok payload else err invalid_instruction
