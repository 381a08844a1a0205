-- ===== src/Domain/Resources.antt =====
-- The registry of provisioned resources (src/der_flex/domain/resources.py).
--
-- Powers and the ramp rate are integers of 10⁻⁹ kW, and all quantities are finite. The range
-- constraints of the single fields and the timezone of `provisioned_at` are left to the parameters.
pub mod Versions
use der_flex.Prelude.{
  ℕ, String, ◌≡◌, ◌↔◌, Bool, true, false, ◌&&◌, ◌||◌, not, Option, none, some, List, [], ◌∷◌, arith,
  if◌then◌else◌, leb, ltb, ◌==◌, Eq, ==_iff, nat_eq, string_eq, Result, ok, err,
}
use der_flex.Prelude.Int.{ℤ, ltb_ℤ}
use der_flex.Prelude.Dict
use der_flex.Prelude.Dict.{Dict}
use der_flex.Domain.Models.{Instant, Power, Energy}
use der_flex.Domain.Equality.{int_eq}

pub data ResourceRegistryError : Type 0 where
  unknown_resource disabled_resource resource_zone_mismatch : ResourceRegistryError
  provisioning_conflict stale_provisioning_record : ResourceRegistryError

pub data ResourceType : Type 0 where
  battery evse heat_pump : ResourceType

abbrev pub type_beq : ResourceType → ResourceType → Bool
type_beq battery battery = true
type_beq evse evse = true
type_beq heat_pump heat_pump = true
type_beq a b = false

pub record ProvisionedResource : Type 0 where
  pub resource_id : String
  pub zone_id : String
  pub resource_type : ResourceType
  pub min_power_kw : ℤ
  pub max_power_kw : ℤ
  pub min_energy_kwh : Energy
  pub max_energy_kwh : Energy
  pub initial_energy_kwh : Energy
  pub ramp_rate_kw_per_min : Power
  pub provisioning_version : ℕ
  pub provisioned_at : Instant
  pub enabled : Bool
  pub tenant_id : String

-- `validate_envelope`: whether it lets the record pass.
unfoldable pub validate_envelope : ProvisionedResource → Bool
validate_envelope r =
    not (ltb_ℤ r.max_power_kw r.min_power_kw)
    && leb r.min_energy_kwh r.initial_energy_kwh
    && leb r.initial_energy_kwh r.max_energy_kwh

abbrev pub resource_beq : ProvisionedResource → ProvisionedResource → Bool
resource_beq a b =
    a.resource_id == b.resource_id
    && a.zone_id == b.zone_id
    && type_beq a.resource_type b.resource_type
    && a.min_power_kw == b.min_power_kw
    && a.max_power_kw == b.max_power_kw
    && a.min_energy_kwh == b.min_energy_kwh
    && a.max_energy_kwh == b.max_energy_kwh
    && a.initial_energy_kwh == b.initial_energy_kwh
    && a.ramp_rate_kw_per_min == b.ramp_rate_kw_per_min
    && a.provisioning_version == b.provisioning_version
    && a.provisioned_at == b.provisioned_at
    && (if a.enabled then b.enabled else not b.enabled)
    && a.tenant_id == b.tenant_id

abbrev pub Registry : Type 0
Registry = Dict String ProvisionedResource

-- The branch of `register` on the current record.
unfoldable pub replace_record :
    Option ProvisionedResource
    → ProvisionedResource
    → Registry
    → Result ResourceRegistryError (Unit {0}) × Registry
replace_record none r registry = (ok tt, Dict.set r.resource_id r registry)
replace_record (some current) r registry =
    if ltb r.provisioning_version current.provisioning_version
    then (err stale_provisioning_record, registry)
    else if r.provisioning_version == current.provisioning_version
    then (if resource_beq r current then ok tt else err provisioning_conflict, registry)
    else (ok tt, Dict.set r.resource_id r registry)

unfoldable pub register :
    ProvisionedResource → Registry → Result ResourceRegistryError (Unit {0}) × Registry
unfolding replace_record
register r registry = replace_record (Dict.get r.resource_id registry) r registry

unfoldable pub require :
    Registry → String → String → String → Result ResourceRegistryError ProvisionedResource
require registry resource_id zone_id tenant_id = elim (Dict.get resource_id registry) [
  | none ↦ err unknown_resource
  | some r ↦
      if not r.enabled
      then err disabled_resource
      else if not (r.tenant_id == tenant_id)
      then err unknown_resource
      else if not (r.zone_id == zone_id)
      then err resource_zone_mismatch
      else ok r
]
