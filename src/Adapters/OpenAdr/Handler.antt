-- ===== src/Adapters/OpenAdr/Handler.antt =====
-- `OpenADRAdapter.handle_event` (src/der_flex/adapters/openadr/adapter.py). An event that raises has
-- reserved and activated what its intervals before asked for.
use der_flex.Prelude.{
  ℕ, ◌+◌, ◌*◌, String, Bool, true, false, Option, none, some, List, [], ◌∷◌, Result, ok, err, ◌>>=◌,
  ◌==◌, string_eq, if◌then◌else◌, filter, not,
}
use Prim.Native.String.{◌++◌}
use der_flex.Prelude.Int.{ℤ}
use der_flex.Domain.Models.{
  Uuid, Instant, second, FlexibilityDirection, upward, downward, defer, FloatInput, finite,
  Reservation, Activation,
}
use der_flex.Reservations.Records.{ReservationError}
use der_flex.Reservations.Service.{OfferSource, CreateRequest, create}
use der_flex.Reservations.Service.Activate.{ActivationContext, ServiceState, activate}
use der_flex.Adapters.OpenAdr.Duration.{DurationError, parse_duration}
use der_flex.Adapters.OpenAdr.Models.{
  Value, number, text, flag, ValuesMap, IntervalPeriod, Interval, OpenAdrEvent,
  OpenAdrReportRequest, exactly_one_zone_target, zone_id,
}
use der_flex.Adapters.OpenAdr.Report.{build_report}

-- The ValueErrors of the adapter, and what the service raises.
pub data AdapterError : Type 0 where
  invalid_event missing_period not_one_dispatch not_numeric not_finite : AdapterError
  invalid_duration : DurationError → AdapterError
  failed_call : ReservationError → AdapterError

pub record OpenAdrEventResult : Type 0 where
  pub reservation : Reservation
  pub activation : Activation
  pub report : OpenAdrReportRequest

-- What the adapter uses of its surroundings: the offers, the random identifiers and the clock for
-- the call of each index, and the texts of identifiers and numbers.
pub record AdapterContext : Type 0 where
  pub client_name : String
  pub source : OfferSource
  pub reservation_id : ℕ → Uuid
  pub correlation_id : ℕ → Uuid
  pub now : ℕ → Instant
  pub activation : ℕ → ActivationContext
  pub text_of_uuid : Uuid → String
  pub text_of_int : ℤ → String

-- `PAYLOAD_DIRECTIONS`
abbrev pub direction_of : String → Option FlexibilityDirection
direction_of kind =
    if kind == "DER_FLEX_UPWARD_KW"
    then some upward
    else if kind == "DER_FLEX_DOWNWARD_KW"
    then some downward
    else none

abbrev pub is_dispatch : ValuesMap → Bool
is_dispatch item = elim (direction_of item.kind) [ none ↦ false | some d ↦ true ]

abbrev pub power_of : Value → Result AdapterError FloatInput
power_of (number (finite x)) = ok (finite x)
power_of (number other) = err not_finite
power_of (text s) = err not_numeric
power_of (flag b) = err not_numeric

abbrev pub single_value :
    ValuesMap → List Value → Result AdapterError (FlexibilityDirection × FloatInput)
single_value item [] = err not_one_dispatch
single_value item (value ∷ []) = elim (direction_of item.kind) [
  | none ↦ err not_one_dispatch
  | some d ↦ do power ← power_of value; ok (d, power)
]
single_value item (value ∷ other ∷ rest) = err not_one_dispatch

-- Exactly one dispatch with one value.
unfoldable pub dispatch_of :
    List ValuesMap → Result AdapterError (FlexibilityDirection × FloatInput)
dispatch_of payloads = elim (filter is_dispatch payloads) [
  | [] ↦ err not_one_dispatch
  | item ∷ rest ↦ elim rest [
    | [] ↦ single_value item item.values
    | other ∷ more ↦ err not_one_dispatch
  ]
]

-- `parse_duration` of a period that is there.
unfoldable pub duration_of : Option IntervalPeriod → Result AdapterError (Option ℕ)
duration_of none = ok none
duration_of (some p) = elim (parse_duration p.duration) [
  | err e ↦ err (invalid_duration e)
  | ok n ↦ ok (some n)
]

abbrev pub start_of : Option IntervalPeriod → Option Instant → Option Instant
start_of none cursor = cursor
start_of (some p) cursor = some p.start

abbrev pub default_to : Option ℕ → Option ℕ → Option ℕ
default_to none other = other
default_to (some n) other = some n

abbrev pub both : Option Instant → Option ℕ → Result AdapterError (Instant × ℕ)
both (some start) (some duration) = ok (start, duration)
both _ _ = err missing_period

-- The request of one interval: what precedes the call of `create` in the loop.
unfoldable pub request_of :
    AdapterContext
    → OpenAdrEvent
    → String
    → Option Instant
    → Option ℕ
    → Interval
    → Result AdapterError CreateRequest
unfolding dispatch_of duration_of
request_of c event zone cursor default_duration interval = do
  own ← duration_of interval.interval_period
  (start, duration) ←
      both (start_of interval.interval_period cursor) (default_to own default_duration)
  (direction, power) ← dispatch_of interval.payloads
  ok (record {
    idempotency_key = "openadr:" ++ event.id ++ ":" ++ c.text_of_int interval.id;
    tenant_id = "development";
    zone_id = zone;
    interval_start = start;
    interval_end = start + duration * second;
    direction = direction;
    power_kw = power;
    consequence_type = defer;
    callback_url = none;
  })

-- The calls of `create` and `activate`, and the report.
unfoldable pub dispatch_interval :
    AdapterContext
    → OpenAdrEvent
    → ℕ
    → Interval
    → CreateRequest
    → ServiceState
    → Result AdapterError OpenAdrEventResult × ServiceState
dispatch_interval c event index interval request s =
    let created =
      create c.source (c.reservation_id index) (c.correlation_id index) (c.now index) request
        s.backend in
    let reserved : ServiceState = record s { backend = created.1 } in
    elim created.0 [
      | err e ↦ (err (failed_call e), reserved)
      | ok r ↦
          (let activated = activate (c.activation index) r.reservation_id reserved in
            elim activated.0 [
              | err e ↦ (err (failed_call e), activated.1)
              | ok a ↦ (
                ok (record {
                  reservation = r;
                  activation = a;
                  report = build_report c.client_name c.text_of_uuid event interval.id r a;
                }),
                activated.1,
              )
            ])
    ]

-- The loop over the intervals from a cursor on.
unfoldable pub handle_intervals :
    AdapterContext
    → OpenAdrEvent
    → String
    → Option ℕ
    → ℕ
    → Option Instant
    → List Interval
    → ServiceState
    → Result AdapterError (List OpenAdrEventResult) × ServiceState
handle_intervals c event zone default_duration index cursor [] s = (ok [], s)
handle_intervals c event zone default_duration index cursor (interval ∷ rest) s =
    elim (request_of c event zone cursor default_duration interval) [
      | err e ↦ (err e, s)
      | ok request ↦
          (let done = dispatch_interval c event index interval request s in
            let later =
              handle_intervals c event zone default_duration (index + 1) (some request.interval_end)
                rest done.1 in
            elim done.0 [
              | err e ↦ (err e, done.1)
              | ok result ↦ elim later.0 [
                | err e ↦ (err e, later.1)
                | ok results ↦ (ok (result ∷ results), later.1)
              ]
            ])
    ]

abbrev pub start_of_event : Option IntervalPeriod → Option Instant
start_of_event p = start_of p none

unfoldable pub handle_event :
    AdapterContext
    → OpenAdrEvent
    → ServiceState
    → Result AdapterError (List OpenAdrEventResult) × ServiceState
handle_event c event s =
    if not (exactly_one_zone_target event) then (err invalid_event, s) else elim (zone_id event) [
      | none ↦ (err invalid_event, s)
      | some zone ↦ elim (duration_of event.interval_period) [
        | err e ↦ (err e, s)
        | ok default_duration ↦
            handle_intervals c event zone default_duration 0 (start_of_event event.interval_period)
              event.intervals s
      ]
    ]
