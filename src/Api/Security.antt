-- ===== src/Api/Security.antt =====
-- Principals and static bearer tokens (src/der_flex/security.py).
--
-- A set of strings is a list. `hmac.compare_digest` is equality of the strings.
pub mod Ownership
use der_flex.Prelude.{
  String, Bool, true, false, ◌&&◌, ◌||◌, not, Option, none, some, List, [], ◌∷◌, Result, ok, err,
  contains, any, if◌then◌else◌, ◌==◌, string_eq,
}
use der_flex.Prelude.Dict
use der_flex.Prelude.Dict.{Dict}

pub data AuthenticationError : Type 0 where
  missing_token invalid_token : AuthenticationError

pub data AuthorizationError : Type 0 where
  insufficient_scope tenant_boundary : AuthorizationError

pub record AccessPrincipal : Type 0 where
  pub subject : String
  pub tenant_id : String
  pub scopes : List String
  pub zone_ids : List String

abbrev Check : Type 0
Check = Result AuthorizationError (Unit {0})

unfoldable pub require_scope : AccessPrincipal → String → Check
require_scope p scope =
    if not (contains "*" p.scopes) && not (contains scope p.scopes)
    then err insufficient_scope
    else ok tt

unfoldable pub require_zone : AccessPrincipal → String → Check
require_zone p zone_id =
    if not (contains "*" p.zone_ids) && not (contains zone_id p.zone_ids)
    then err tenant_boundary
    else ok tt

unfoldable pub require_tenant : AccessPrincipal → String → Check
require_tenant p tenant_id = if p.tenant_id == tenant_id then ok tt else err tenant_boundary

-- `DevelopmentAuthenticator.principal`
abbrev pub development : AccessPrincipal
development = record {
  subject = "development";
  tenant_id = "development";
  scopes = "*" ∷ [];
  zone_ids = "*" ∷ [];
}

pub record StaticBearerAuthenticator : Type 0 where
  pub entries : Dict String AccessPrincipal

-- The inner loop of `__init__`: the zones of one principal are entered for its tenant.
unfoldable pub own_zones : String → List String → Dict String String → Option (Dict String String)
own_zones tenant_id [] owners = some owners
own_zones tenant_id (zone_id ∷ rest) owners =
    let owners' = Dict.set_default zone_id tenant_id owners in
    let later = own_zones tenant_id rest owners' in
    elim (Dict.get zone_id owners') [
      | none ↦ none
      | some previous ↦ if previous == tenant_id then later else none
    ]

-- The outer loop: `none` for a `ValueError`.
unfoldable pub own_all : List AccessPrincipal → Dict String String → Option (Dict String String)
own_all [] owners = some owners
own_all (p ∷ rest) owners =
    if contains "*" p.zone_ids then none else elim (own_zones p.tenant_id p.zone_ids owners) [
      | none ↦ none
      | some owners' ↦ own_all rest owners'
    ]

-- `StaticBearerAuthenticator(principals_by_token)`
unfoldable pub static_bearer : Dict String AccessPrincipal → Option StaticBearerAuthenticator
static_bearer [] = none
static_bearer (entry ∷ rest) =
    if any (λ token. token == "") (Dict.keys (entry ∷ rest))
    then none
    else elim (own_all (Dict.values (entry ∷ rest)) []) [
      | none ↦ none
      | some owners ↦ some (record { entries = entry ∷ rest })
    ]

-- The loop over the entries: all are compared, and the last match stands.
unfoldable pub last_match :
    String → Dict String AccessPrincipal → Option AccessPrincipal → Option AccessPrincipal
last_match token [] matched = matched
last_match token ((expected, principal) ∷ rest) matched =
    last_match token rest (if token == expected then some principal else matched)

unfoldable pub authenticate :
    StaticBearerAuthenticator → Option String → Result AuthenticationError AccessPrincipal
authenticate auth none = err missing_token
authenticate auth (some token) = elim (last_match token auth.entries none) [
  | none ↦ err invalid_token
  | some principal ↦ ok principal
]
