-- ===== src/Examples/OpenAdr.antt =====
-- The OpenADR adapter: the theorems on a duration, a report and an event of two intervals.
use der_flex.Examples.Reservations.{held}
use der_flex.Adapters.OpenAdr.Report.{build_report, build_report-period}
use der_flex.Adapters.Webhooks.{deliver, attempt_loop}
use der_flex.Adapters.Dispatch.{build_pebc_instruction}
use der_flex.Reservations.Allocate.{allocate}
use der_flex.Reservations.Service.{
  create, checked_power, create_checked, create_new, participants, found_reservation,
  tenant_idempotency_key,
}
use der_flex.Prelude.{
  ◌≡◌, ◌≤◌, String, none, some, List, [], ◌∷◌, Result, ok, err, refl, arith, if◌then◌else◌, ◌==◌,
  nat_eq, All,
}
use der_flex.Prelude.Int.{ℤ, pos, negsuc}
use der_flex.Domain.Models.{finite, Activation, ActivationStatus}
use der_flex.Reservations.Backend.{
  empty, get_idempotency, expire, reserved_for_offer, get_allocations, get_reservation,
  save_activation, save_reservation, activation_for_reservation, callback_url, expire_one,
}
use der_flex.Reservations.Service.Activate.{
  ServiceState, activate, activate_known, build_pairs, dispatch, finish, notify, outcome,
  closed_reservation,
}
use der_flex.Adapters.OpenAdr.Duration.{Text, parse_duration, parse_groups, scan, iso_duration}
use der_flex.Adapters.OpenAdr.Duration.RoundTrip.{
  parse_duration-iso_duration, parse_duration-within,
}
use der_flex.Adapters.OpenAdr.Models.{
  number, ValuesMap, OpenAdrEvent, exactly_one_zone_target, zone_id,
}
use der_flex.Adapters.OpenAdr.Handler.{
  AdapterContext, AdapterError, OpenAdrEventResult, handle_event, duration_of, handle_intervals,
  request_of, dispatch_interval, dispatch_of,
}
use der_flex.Examples.Data.{source, context}

parse_duration-iso_duration_example : parse_duration (iso_duration 900) ≡ ok 900
parse_duration-iso_duration_example =
    parse_duration-iso_duration 900 (ground (arith)) (ground (arith))

-- "PT1H30M"
abbrev ninety_minutes : Text
ninety_minutes = 80 ∷ 84 ∷ 49 ∷ 72 ∷ 51 ∷ 48 ∷ 77 ∷ []

reads : parse_duration ninety_minutes ≡ ok 5400
unfolding parse_duration parse_groups scan
reads = refl

parse_duration-within_example : (1 ≤ 5400) × (5400 ≤ 86400)
parse_duration-within_example = parse_duration-within ninety_minutes 5400 reads

abbrev payload : ValuesMap
payload = record { kind = "DER_FLEX_UPWARD_KW"; values = number (finite (pos 7000000000)) ∷ [] }

-- The second interval follows the first.
abbrev event : OpenAdrEvent
event = record {
  id = "event";
  program_id = "program";
  targets = "ES-28001" ∷ "group" ∷ [];
  interval_period = some (record { start = 900000000; duration = 80 ∷ 84 ∷ 49 ∷ 53 ∷ 77 ∷ [] });
  intervals =
      (record { id = pos 0; interval_period = none; payloads = payload ∷ [] })
      ∷ (record { id = pos 1; interval_period = none; payloads = payload ∷ [] })
      ∷ [];
}

abbrev name_of : ℤ → String
name_of (pos n) = if n == 0 then "0" else "1"
name_of (negsuc n) = "negative"

abbrev adapter : AdapterContext
adapter = record {
  client_name = "der-flex-ven";
  source = source;
  reservation_id = λ i. i;
  correlation_id = λ i. i;
  now = λ i. 1000;
  activation = λ i. record context { activation_id = i };
  text_of_uuid = λ i. "id";
  text_of_int = name_of;
}

abbrev start : ServiceState
start = record { backend = empty; deliveries = [] }

abbrev of_answer : Result AdapterError (List OpenAdrEventResult) → List OpenAdrEventResult
of_answer (ok xs) = xs
of_answer (err e) = []

abbrev results : List OpenAdrEventResult
results = of_answer (handle_event adapter event start).0

event_succeeds : (handle_event adapter event start).0 ≡ ok results
unfolding handle_event exactly_one_zone_target zone_id duration_of parse_duration handle_intervals
    request_of dispatch_interval create checked_power create_checked get_idempotency expire
    create_new participants allocate reserved_for_offer activate activate_known build_pairs
    build_pebc_instruction dispatch dispatch_of finish found_reservation get_allocations
    get_reservation notify outcome closed_reservation save_activation save_reservation
    activation_for_reservation callback_url deliver attempt_loop build_report expire_one
    tenant_idempotency_key
event_succeeds = refl

abbrev done : Activation
done = record {
  activation_id = 5;
  reservation_id = 1;
  correlation_id = 2;
  status = ActivationStatus.completed;
  instruction_count = 2;
  accepted_instruction_count = 2;
  rejected_instruction_count = 0;
  created_at = 3000;
  completed_at = some 3000;
}

build_report-period_example :
    All
      (λ resource.
        (resource.interval_period.start ≡ 900000000)
        × (parse_duration resource.interval_period.duration ≡ ok 900))
      (build_report "ven" (λ i. "id") event (pos 0) held done).resources
build_report-period_example =
    build_report-period "ven" (λ i. "id") event (pos 0) held done 900 (ground (arith))
      (ground (arith)) (ground (arith))
