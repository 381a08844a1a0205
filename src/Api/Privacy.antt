-- ===== src/Api/Privacy.antt =====
-- The publication policy (src/der_flex/privacy.py).
--
-- Resolutions are whole numbers of the units of Domain/Models. The slack 1e-12 that `_floor` adds is
-- below the unit of a power and of a confidence, and is `energy_slack` units of energy. All instants
-- carry a timezone, so `timezone_required` does not arise.
pub mod Coarse
use der_flex.Prelude.{
  ℕ, ◌+◌, ◌*◌, ◌/◌, ◌%◌, ◌-◌, Bool, true, false, ◌&&◌, ◌||◌, not, Option, none, some, List, [], ◌∷◌,
  Result, ok, err, if◌then◌else◌, leb, ltb, ◌==◌, nat_eq, any, all, max,
}
use der_flex.Prelude.Rounding.{round_to}
use der_flex.Domain.Models.{Instant, Power, Energy, FlexibilityAggregate, second}
use der_flex.Domain.Store.Query.{round_signed}

pub data PrivacyQueryRejected : Type 0 where
  invalid_window window_too_large window_not_aligned : PrivacyQueryRejected

pub record PrivacyPublicationPolicy : Type 0 where
  pub interval_minutes : ℕ
  pub minimum_participants : ℕ
  pub max_window_hours : ℕ
  pub queries_per_interval : ℕ
  pub power_resolution_kw : Power
  pub energy_resolution_kwh : Energy
  pub confidence_resolution : ℕ
  pub participant_bucket_size : ℕ

-- The defaults of the fields.
abbrev pub default_policy : PrivacyPublicationPolicy
default_policy = record {
  interval_minutes = 15;
  minimum_participants = 10;
  max_window_hours = 24;
  queries_per_interval = 60;
  power_resolution_kw = 1000000000;
  energy_resolution_kwh = 900000000000000000;
  confidence_resolution = 50000000;
  participant_bucket_size = 5;
}

-- `__post_init__`: whether it lets the policy pass.
unfoldable pub is_accepted : PrivacyPublicationPolicy → Bool
is_accepted p =
    all (λ value. ltb 0 value)
      (p.interval_minutes ∷ p.minimum_participants ∷ p.max_window_hours ∷ p.queries_per_interval
        ∷ p.power_resolution_kw ∷ p.energy_resolution_kwh ∷ p.confidence_resolution
        ∷ p.participant_bucket_size ∷ [])
    && leb 10 p.minimum_participants

abbrev pub one_minute : ℕ
one_minute = 60000000

abbrev pub one_hour : ℕ
one_hour = 3600000000

-- `utc.minute`
abbrev pub minute_of : Instant → ℕ
minute_of t = t / one_minute % 60

-- `utc.replace(minute=minute, second=0, microsecond=0)`
unfoldable pub publication_epoch : PrivacyPublicationPolicy → Instant → Instant
publication_epoch p now =
    let minute = minute_of now - minute_of now % p.interval_minutes in
    now / one_hour * one_hour + minute * one_minute

unfoldable pub aligned : PrivacyPublicationPolicy → Instant → Bool
aligned p t = minute_of t % p.interval_minutes == 0 && t / second % 60 == 0 && t % second == 0

unfoldable pub validate_window :
    PrivacyPublicationPolicy → Instant → Instant → Result PrivacyQueryRejected (Unit {0})
validate_window p start end =
    if leb end start
    then err invalid_window
    else if ltb (p.max_window_hours * one_hour) (end - start)
    then err window_too_large
    else if not (aligned p start) || not (aligned p end)
    then err window_not_aligned
    else ok tt

-- 1e-12 kWh, and 10⁻⁹ kWh.
abbrev pub energy_slack : ℕ
energy_slack = 3600000

abbrev pub energy_nano : ℕ
energy_nano = 3600000000

-- `_floor` on a power or a confidence, whose ninth decimal is the unit.
unfoldable pub floor_to : ℕ → ℕ → ℕ
floor_to value resolution = value / resolution * resolution

-- `_floor` on an energy.
unfoldable pub floor_energy : Energy → Energy → Energy
floor_energy value resolution =
    round_to energy_nano ((value + energy_slack) / resolution * resolution)

unfoldable pub sanitize :
    PrivacyPublicationPolicy → FlexibilityAggregate → Instant → FlexibilityAggregate
sanitize p a epoch = record a {
  baseline_power_kw = round_signed p.power_resolution_kw a.baseline_power_kw;
  upward_capacity_kw = floor_to a.upward_capacity_kw p.power_resolution_kw;
  downward_capacity_kw = floor_to a.downward_capacity_kw p.power_resolution_kw;
  upward_energy_kwh = floor_energy a.upward_energy_kwh p.energy_resolution_kwh;
  downward_energy_kwh = floor_energy a.downward_energy_kwh p.energy_resolution_kwh;
  participant_count =
      max 1 (a.participant_count / p.participant_bucket_size * p.participant_bucket_size);
  confidence = floor_to a.confidence p.confidence_resolution;
  generated_at = epoch;
}

unfoldable pub eligible : PrivacyPublicationPolicy → FlexibilityAggregate → Bool
eligible p a = leb p.minimum_participants a.participant_count
