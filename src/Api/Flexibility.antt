-- ===== src/Api/Flexibility.antt =====
-- The handler `get_flexibility` (src/der_flex/api/app.py): authorisation, the privacy policy, the
-- offer store and the residual capacity, in the order of the code.
--
-- One clock reading stands for those of a request. The request validation of the framework, the
-- audit record and the HTTP encoding are not modelled.
pub mod Public
use der_flex.Prelude.{
  String, Bool, true, false, List, [], ◌∷◌, Result, ok, err, if◌then◌else◌, leb, filter, map,
}
use der_flex.Domain.Models.{Instant, FlexibilityAggregate}
use der_flex.Domain.Store.{InMemoryOfferStore}
use der_flex.Domain.Store.Query.{query}
use der_flex.Domain.Store.Snapshots.{consume_privacy_query, publish_privacy_snapshot}
use der_flex.Reservations.Backend.{Backend}
use der_flex.Reservations.Service.Residual.{public_residual_capacity}
use der_flex.Api.Security.{AccessPrincipal, AuthorizationError, require_scope, require_zone}
use der_flex.Api.Privacy.{
  PrivacyPublicationPolicy, PrivacyQueryRejected, publication_epoch, validate_window, eligible,
  sanitize,
}

pub data ApiError : Type 0 where
  denied : AuthorizationError → ApiError
  to_not_after_from : ApiError
  rejected : PrivacyQueryRejected → ApiError
  budget_exceeded : ApiError

pub record AppState : Type 0 where
  pub offer_store : InMemoryOfferStore
  pub reservations : Backend

abbrev pub Response : Type 0
Response = Result ApiError (List FlexibilityAggregate) × AppState

-- The guards before the budget is consumed.
unfoldable pub admit :
    PrivacyPublicationPolicy
    → AccessPrincipal
    → String
    → Instant
    → Instant
    → Result ApiError (Unit {0})
admit p principal zone_id start end = elim (require_scope principal "flexibility:read") [
  | err e ↦ err (denied e)
  | ok u ↦ elim (require_zone principal zone_id) [
    | err e ↦ err (denied e)
    | ok v ↦
        if leb end start
        then err to_not_after_from
        else elim (validate_window p start end) [ err e ↦ err (rejected e) | ok w ↦ ok tt ]
  ]
]

-- The aggregates that are offered for publication.
unfoldable pub candidates_of :
    PrivacyPublicationPolicy → Instant → List FlexibilityAggregate → List FlexibilityAggregate
candidates_of p epoch aggregates = map (λ a. sanitize p a epoch) (filter (eligible p) aggregates)

-- From the query to the response.
unfoldable pub publish :
    PrivacyPublicationPolicy → String → String → Instant → Instant → Instant → AppState → Response
publish p tenant_id zone_id start end now s =
    let epoch = publication_epoch p now in
    let (aggregates, queried) = query zone_id start end tenant_id now s.offer_store in
    let (public, noted) = public_residual_capacity aggregates now s.reservations in
    let (snapshot, stored) =
      publish_privacy_snapshot tenant_id zone_id epoch start end (candidates_of p epoch public)
        queried in
    (ok snapshot, record { offer_store = stored; reservations = noted })

unfoldable pub get_flexibility :
    PrivacyPublicationPolicy
    → AccessPrincipal
    → String
    → Instant
    → Instant
    → Instant
    → AppState
    → Response
get_flexibility p principal zone_id start end now s = elim (admit p principal zone_id start end) [
  | err e ↦ (err e, s)
  | ok u ↦
      (let (granted, counted) =
          consume_privacy_query
            (record { tenant_id = principal.tenant_id; window_start = publication_epoch p now })
            p.queries_per_interval s.offer_store in
        if granted
        then publish p principal.tenant_id zone_id start end now
            (record s { offer_store = counted })
        else (err budget_exceeded, record s { offer_store = counted }))
]
