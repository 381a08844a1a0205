-- ===== src/Adapters/OpenAdr/Models.antt =====
-- The OpenADR messages (src/der_flex/adapters/openadr/models.py). Fields that admit one literal only
-- are left out, as are the descriptors of an event, which nothing reads; the reading of JSON is
-- pydantic's.
use der_flex.Prelude.{ℕ, String, Bool, Option, List, ◌==◌, string_eq, nat_eq, filter, length}
use Prim.Native.String.{slice}
use der_flex.Prelude.Int.{ℤ}
use der_flex.Prelude.Tables.{find}
use der_flex.Domain.Models.{Instant, FloatInput}
use der_flex.Adapters.OpenAdr.Duration.{Text}

-- `float | int | str | bool`
pub data Value : Type 0 where
  number : FloatInput → Value
  text : String → Value
  flag : Bool → Value

pub record ValuesMap : Type 0 where
  pub kind : String
  pub values : List Value

pub record IntervalPeriod : Type 0 where
  pub start : Instant
  pub duration : Text

pub record Interval : Type 0 where
  pub id : ℤ
  pub interval_period : Option IntervalPeriod
  pub payloads : List ValuesMap

pub record OpenAdrEvent : Type 0 where
  pub id : String
  pub program_id : String
  pub targets : List String
  pub interval_period : Option IntervalPeriod
  pub intervals : List Interval

-- `target.startswith("ES-")`
abbrev pub is_zone : String → Bool
is_zone target = slice target 0 3 == "ES-"

unfoldable pub exactly_one_zone_target : OpenAdrEvent → Bool
exactly_one_zone_target event = length (filter is_zone event.targets) == 1

unfoldable pub zone_id : OpenAdrEvent → Option String
zone_id event = find is_zone event.targets

pub record ReportPayloadDescriptor : Type 0 where
  pub payload_type : String
  pub units : Option String
  pub confidence : Option ℕ

pub record ReportResource : Type 0 where
  pub resource_name : String
  pub interval_period : IntervalPeriod
  pub intervals : List Interval

pub record OpenAdrReportRequest : Type 0 where
  pub event_id : String
  pub client_name : String
  pub report_name : String
  pub payload_descriptors : List ReportPayloadDescriptor
  pub resources : List ReportResource
