-- ===== src/Domain/Resources/Versions.antt =====
-- Provisioning versions over runs of registrations, and the answers of `require`
-- (src/der_flex/domain/resources.py).
use der_flex.Prelude.{
  ok, ◌≡◌, true, ◌↔◌, ℕ, ◌≤◌, String, inl, inr, none, some, List, [], ◌∷◌, arith, Option-cases,
  ==_iff, string_eq,
}
use der_flex.Prelude.Dict
use der_flex.Prelude.Dict.{get-set}
use der_flex.Domain.Resources.{ProvisionedResource, Registry, register, require}

-- The version that a registry holds for a resource, 0 before there is one.
abbrev pub version_of : String → Registry → ℕ
version_of resource_id registry = elim (Dict.get resource_id registry) [
  | none ↦ 0
  | some r ↦ r.provisioning_version
]

unfoldable pub register_all : List ProvisionedResource → Registry → Registry
register_all [] registry = registry
register_all (r ∷ rest) registry = register_all rest (register r registry).1

register-version :
    (r : ProvisionedResource) (registry : Registry) (resource_id : String)
    → version_of resource_id registry ≤ version_of resource_id (register r registry).1
unfolding register
register-version r registry resource_id = elim (Option-cases (Dict.get r.resource_id registry)) [
  | inl n ↦ rw n (
      ground
        (arith, get-set r.resource_id resource_id r registry, ==_iff r.resource_id resource_id))
  | inr (c, e) ↦ rw e (
      ground
        (arith, get-set r.resource_id resource_id r registry, ==_iff r.resource_id resource_id))
]

-- In any run of registrations, accepted or refused, the version of a resource never goes back.
pub version_never_back :
    (records : List ProvisionedResource) (registry : Registry) (resource_id : String)
    → version_of resource_id registry ≤ version_of resource_id (register_all records registry)
unfolding register_all
version_never_back [] registry resource_id = ground (arith)
version_never_back (r ∷ rest) registry resource_id = ground (
  arith,
  register-version r registry resource_id,
  version_never_back rest (register r registry).1 resource_id,
)

-- `require` returns a record exactly when it is the one of the resource, is enabled, and is of the
-- tenant and of the zone.
pub require_iff :
    (registry : Registry) (resource_id zone_id tenant_id : String) (r : ProvisionedResource)
    → (require registry resource_id zone_id tenant_id ≡ ok r) ↔ (
        (Dict.get resource_id registry ≡ some r)
        × (r.enabled ≡ true)
        × (r.tenant_id ≡ tenant_id)
        × (r.zone_id ≡ zone_id))
unfolding require
require_iff registry resource_id zone_id tenant_id r =
    elim (Option-cases (Dict.get resource_id registry)) [
      | inl n ↦ ground (arith)
      | inr (c, e) ↦ ground (arith, ==_iff c.tenant_id tenant_id, ==_iff c.zone_id zone_id)
    ]
