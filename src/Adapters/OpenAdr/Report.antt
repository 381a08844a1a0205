-- ===== src/Adapters/OpenAdr/Report.antt =====
-- `OpenADRAdapter._build_report` (src/der_flex/adapters/openadr/adapter.py).
use der_flex.Prelude.{ℕ, ◌+◌, ◌-◌, ◌*◌, ◌≡◌, ◌≤◌, String, none, some, [], ◌∷◌, arith, All, ok, refl}
use Prim.Native.Nat.{◌/◌}
use Prim.Native.String.{◌++◌}
use mathlib.Core.Path.{◌∙◌, ap}
use der_flex.Prelude.Int.{ℤ, pos}
use der_flex.Domain.Models.{Uuid, second, Reservation, Activation, ActivationStatus, finite}
use der_flex.Adapters.OpenAdr.Duration.{iso_duration, parse_duration}
use der_flex.Adapters.OpenAdr.Duration.RoundTrip.{parse_duration-iso_duration}
use der_flex.Adapters.OpenAdr.Models.{number, text, OpenAdrEvent, OpenAdrReportRequest}

abbrev pub status_text : ActivationStatus → String
status_text ActivationStatus.pending = "PENDING"
status_text ActivationStatus.completed = "COMPLETED"
status_text ActivationStatus.failed = "FAILED"

abbrev pub confidence_of : ActivationStatus → ℕ
confidence_of ActivationStatus.completed = 100
confidence_of s = 0

-- `text_of` is the text of an identifier.
unfoldable pub build_report :
    String → (Uuid → String) → OpenAdrEvent → ℤ → Reservation → Activation → OpenAdrReportRequest
build_report client_name text_of event interval_id r a = record {
  event_id = event.id;
  client_name = client_name;
  report_name = "DER Flex activation " ++ text_of a.activation_id;
  payload_descriptors =
      (record {
        payload_type = "DER_FLEX_ACCEPTED_KW";
        units = some "KW";
        confidence = some (confidence_of a.status);
      })
      ∷ (record { payload_type = "DER_FLEX_ACTIVATION_STATUS"; units = none; confidence = none })
      ∷ [];
  resources =
      (record {
        resource_name = "aggregate:" ++ r.zone_id;
        interval_period = record {
          start = r.interval_start;
          duration = iso_duration ((r.interval_end - r.interval_start) / second);
        };
        intervals =
            (record {
              id = interval_id;
              interval_period = none;
              payloads =
                  (record {
                    kind = "DER_FLEX_ACCEPTED_KW";
                    values = number (finite (pos r.allocated_power_kw)) ∷ [];
                  })
                  ∷ (record {
                    kind = "DER_FLEX_ACTIVATION_STATUS";
                    values = text (status_text a.status) ∷ [];
                  })
                  ∷ [];
            })
            ∷ [];
      })
      ∷ [];
}

-- The period of each resource of a report, read as the adapter reads a period, is the interval of the
-- reservation, when that is a whole number of seconds between one second and one day.
pub build_report-period :
    (client_name : String) (text_of : Uuid → String) (event : OpenAdrEvent) (interval_id : ℤ)
    (r : Reservation) (a : Activation) (n : ℕ)
    → r.interval_end ≡ r.interval_start + n * second
    → 1 ≤ n
    → n ≤ 86400
    → All
        (λ resource.
          (resource.interval_period.start ≡ r.interval_start)
          × (parse_duration resource.interval_period.duration ≡ ok n))
        (build_report client_name text_of event interval_id r a).resources
unfolding build_report
build_report-period client_name text_of event interval_id r a n whole low high =
    let seconds : (r.interval_end - r.interval_start) / second ≡ n = ground (arith, whole) in
    (
      (
        refl,
        ap (λ m. parse_duration (iso_duration m)) seconds ∙ parse_duration-iso_duration n low high,
      ),
      tt,
    )
