-- ===== src/Api/Requests.antt =====
-- The request for a reservation, its validation, and the handler `create_reservation`
-- (src/der_flex/api/app.py). The reading of the JSON, of the URL and of the header is not modelled:
-- a URL comes in its parts, and `address_of` tells whether a host is an IP address and a global one.
use der_flex.Prelude.{
  ◌+◌, ◌*◌, ◌≡◌, ◌≢◌, refl, ==_iff, ◌<◌, ◌≤◌, String, Bool, true, false, ◌&&◌, not, Option, none,
  some, Result, ok, err, leb, ltb, ◌==◌, string_eq, nat_eq, if◌then◌else◌, arith, Bool-cases, inl,
  inr, Result-cases, ℕ,
}
use Prim.Native.String.{count}
use der_flex.Prelude.Int.{pos}
use der_flex.Domain.Models.{
  Uuid, Instant, Power, kilowatt, second, FlexibilityDirection, ConsequenceType, finite,
  Reservation,
}
use der_flex.Reservations.Backend.{Backend}
use der_flex.Reservations.Service.{OfferSource, CreateRequest, create}
use der_flex.Api.Security.{AccessPrincipal, require_scope, require_zone}
use der_flex.Api.Reservations.{HandlerError, forbidden, answer_of}

-- The parts of an HTTP URL, and its text.
pub record CallbackUrl : Type 0 where
  pub scheme : String
  pub has_credentials : Bool
  pub host : Option String
  pub text : String

pub record ReservationRequest : Type 0 where
  pub zone_id : String
  pub interval_start : Instant
  pub interval_end : Instant
  pub direction : FlexibilityDirection
  pub power_kw : Power
  pub consequence_type : ConsequenceType
  pub callback_url : Option CallbackUrl

pub record HostContext : Type 0 where
  pub lower : String → String
  -- `none` for a host that is no IP address, else `is_global`.
  pub address_of : String → Option Bool

abbrev pub is_public_address : Option Bool → Bool
is_public_address none = true
is_public_address (some is_global) = is_global

abbrev pub is_allowed_host : HostContext → Option String → Bool
is_allowed_host c none = false
is_allowed_host c (some host) =
    not (c.lower host == "localhost") && is_public_address (c.address_of host)

abbrev pub is_allowed_callback : HostContext → Option CallbackUrl → Bool
is_allowed_callback c none = true
is_allowed_callback c (some url) =
    url.scheme == "https" && not url.has_credentials && is_allowed_host c url.host

-- `min_length=1, max_length=n`
abbrev pub is_length_within : ℕ → String → Bool
is_length_within n text = ltb 0 (count text) && leb (count text) n

-- The constraints of the fields and `validate_request`.
unfoldable pub validate_request : HostContext → ReservationRequest → Bool
validate_request c r =
    is_length_within 64 r.zone_id
    && ltb 0 r.power_kw
    && leb r.power_kw (1000000 * kilowatt)
    && ltb r.interval_start r.interval_end
    && leb r.interval_end (r.interval_start + 86400 * second)
    && is_allowed_callback c r.callback_url

abbrev pub text_of : Option CallbackUrl → Option String
text_of none = none
text_of (some url) = some url.text

abbrev pub create_request : AccessPrincipal → String → ReservationRequest → CreateRequest
create_request p idempotency_key r = record {
  idempotency_key = idempotency_key;
  tenant_id = p.tenant_id;
  zone_id = r.zone_id;
  interval_start = r.interval_start;
  interval_end = r.interval_end;
  direction = r.direction;
  power_kw = finite (pos r.power_kw);
  consequence_type = r.consequence_type;
  callback_url = text_of r.callback_url;
}

pub data RequestError : Type 0 where
  unprocessable : RequestError
  refused : HandlerError → RequestError

abbrev pub or_refused {ℓ} : {A : Type ℓ} → Result HandlerError A → Result RequestError A
or_refused (ok a) = ok a
or_refused (err e) = err (refused e)

-- The scope, the request, the zone, and the call of the service.
unfoldable pub create_reservation :
    HostContext
    → OfferSource
    → AccessPrincipal
    → Uuid
    → Uuid
    → Instant
    → String
    → ReservationRequest
    → Backend
    → Result RequestError Reservation × Backend
create_reservation c src p id correlation now idempotency_key r b =
    elim (require_scope p "reservation:write") [
      | err e ↦ (err (refused (forbidden e)), b)
      | ok u ↦
          if not (validate_request c r && is_length_within 128 idempotency_key)
          then (err unprocessable, b)
          else elim (require_zone p r.zone_id) [
            | err e ↦ (err (refused (forbidden e)), b)
            | ok v ↦
                (let created =
                    create src id correlation now (create_request p idempotency_key r) b in
                  (or_refused (answer_of created.0), created.1))
          ]
    ]

-- A callback is absent, or an HTTPS URL without credentials, for a host that is not this machine and is
-- no address outside the global ones.
abbrev pub IsSafeCallback : HostContext → Option CallbackUrl → Type 0
IsSafeCallback c none = Unit
IsSafeCallback c (some url) =
    (url.scheme ≡ "https")
    × (url.has_credentials ≡ false)
    × ((host : String) × (url.host ≡ some host)
        × (c.lower host ≢ "localhost")
        × (c.address_of host ≢ some false))

allowed_host :
    (c : HostContext) (host : Option String)
    → is_allowed_host c host ≡ true
    → (name : String) × (host ≡ some name)
      × (c.lower name ≢ "localhost")
      × (c.address_of name ≢ some false)
allowed_host c none h = absurd (cc h)
allowed_host c (some name) h =
    (name, refl, ground (arith, h, ==_iff (c.lower name) "localhost"), ground (arith, h))

allowed-IsSafeCallback :
    (c : HostContext) (url : Option CallbackUrl)
    → is_allowed_callback c url ≡ true
    → IsSafeCallback c url
allowed-IsSafeCallback c none h = tt
allowed-IsSafeCallback c (some url) h = (
  ground (arith, h, ==_iff url.scheme "https"),
  ground (arith, h),
  allowed_host c url.host (ground (arith, h)),
)

-- A request that answers with a reservation was allowed by scope and zone. It asks for a positive
-- power of at most 1,000,000 kW, for an interval of at most one day, and for a callback that is
-- absent, or an HTTPS URL without credentials whose host is neither "localhost" nor an address that
-- is not global. Its answer and its writes are those of the service for a request with these fields
-- and the tenant of the principal.
pub create_reservation-allowed :
    (c : HostContext) (src : OfferSource) (p : AccessPrincipal) (id correlation : Uuid)
    (now : Instant) (key : String) (r : ReservationRequest) (b : Backend) (made : Reservation)
    → (create_reservation c src p id correlation now key r b).0 ≡ ok made
    → let sent : CreateRequest = record {
      idempotency_key = key;
      tenant_id = p.tenant_id;
      zone_id = r.zone_id;
      interval_start = r.interval_start;
      interval_end = r.interval_end;
      direction = r.direction;
      power_kw = finite (pos r.power_kw);
      consequence_type = r.consequence_type;
      callback_url = text_of r.callback_url;
    } in
      (require_scope p "reservation:write" ≡ ok tt)
      × (require_zone p r.zone_id ≡ ok tt)
      × (0 < r.power_kw)
      × (r.power_kw ≤ 1000000 * kilowatt)
      × (r.interval_start < r.interval_end)
      × (r.interval_end ≤ r.interval_start + 86400 * second)
      × IsSafeCallback c r.callback_url
      × ((create src id correlation now sent b).0 ≡ ok made)
      × ((create_reservation c src p id correlation now key r b).1
          ≡ (create src id correlation now sent b).1)
unfolding create_reservation validate_request
create_reservation-allowed c src p id correlation now key r b made h =
    elim (Result-cases (require_scope p "reservation:write")) [
      | inr (e, f) ↦ absurd (ground (arith, h, f))
      | inl (u, f) ↦ elim (Bool-cases (validate_request c r && is_length_within 128 key)) [
        | inr bad ↦ absurd (ground (arith, h, f, bad))
        | inl good ↦ elim (Result-cases (require_zone p r.zone_id)) [
          | inr (e, g) ↦ absurd (ground (arith, h, f, good, g))
          | inl (v, g) ↦
              let created = create src id correlation now (create_request p key r) b in
              elim (Result-cases created.0) [
                | inr (e, k) ↦ absurd (ground (arith, h, f, good, g, k))
                | inl (x, k) ↦ (
                  f,
                  g,
                  ground (arith, good),
                  ground (arith, good),
                  ground (arith, good),
                  ground (arith, good),
                  allowed-IsSafeCallback c r.callback_url (ground (arith, good)),
                  ground (arith, h, f, good, g, k),
                  ground (arith, f, good, g),
                )
              ]
        ]
      ]
    ]
