-- ===== src/Examples/Requests.antt =====
-- A request for a reservation at the HTTP boundary.
use der_flex.Reservations.Allocate.{allocate}
use der_flex.Prelude.{◌≡◌, ◌+◌, ◌*◌, ◌<◌, ◌≤◌, false, none, some, [], ◌∷◌, ok, refl}
use der_flex.Domain.Models.{second, upward, vanish, kilowatt, finite}
use der_flex.Prelude.Int.{pos}
use der_flex.Reservations.Backend.{empty, reserved_for_offer, get_idempotency, expire}
use der_flex.Reservations.Service.{
  CreateRequest, create, create_checked, create_new, checked_power, participants,
}
use der_flex.Api.Security.{AccessPrincipal, require_scope, require_zone}
use der_flex.Api.Requests.{
  ReservationRequest, HostContext, IsSafeCallback, create_reservation, create_reservation-allowed,
  validate_request,
}
use der_flex.Examples.Data.{source}
use der_flex.Examples.Reservations.{held}

abbrev principal : AccessPrincipal
principal = record {
  subject = "aggregator";
  tenant_id = "tenant";
  scopes = "reservation:write" ∷ [];
  zone_ids = "north" ∷ [];
}

abbrev hosts : HostContext
hosts = record { lower = λ host. host; address_of = λ host. none }

abbrev asked : ReservationRequest
asked = record {
  zone_id = "north";
  interval_start = 900000000;
  interval_end = 1800000000;
  direction = upward;
  power_kw = 7 * kilowatt;
  consequence_type = vanish;
  callback_url = some (record {
    scheme = "https";
    has_credentials = false;
    host = some "aggregator.example";
    text = "https://aggregator.example/hook";
  });
}

answered : (create_reservation hosts source principal 1 2 1000 "key" asked empty).0 ≡ ok held
unfolding create_reservation validate_request require_scope require_zone create create_checked
    create_new checked_power participants allocate reserved_for_offer get_idempotency expire
answered = refl

abbrev passed_on : CreateRequest
passed_on = record {
  idempotency_key = "key";
  tenant_id = "tenant";
  zone_id = "north";
  interval_start = 900000000;
  interval_end = 1800000000;
  direction = upward;
  power_kw = finite (pos 7000000000);
  consequence_type = vanish;
  callback_url = some "https://aggregator.example/hook";
}

create_reservation-allowed_example :
    (require_scope principal "reservation:write" ≡ ok tt)
    × (require_zone principal "north" ≡ ok tt)
    × (0 < 7 * kilowatt)
    × (7 * kilowatt ≤ 1000000 * kilowatt)
    × (900000000 < 1800000000)
    × (1800000000 ≤ 900000000 + 86400 * second)
    × IsSafeCallback hosts asked.callback_url
    × ((create source 1 2 1000 passed_on empty).0 ≡ ok held)
    × ((create_reservation hosts source principal 1 2 1000 "key" asked empty).1
        ≡ (create source 1 2 1000 passed_on empty).1)
create_reservation-allowed_example =
    create_reservation-allowed hosts source principal 1 2 1000 "key" asked empty held answered
