-- ===== src/Examples/Effects.antt =====
-- The rest: a cancellation, a webhook, the tenants of a zone, the registry and the outbox.
use der_flex.Prelude.{
  ◌⊎◌, ◌≤◌, ◌≡◌, ◌↔◌, ◌+◌, ◌++◌, refl, true, false, none, some, List, [], ◌∷◌, ok, String,
  string_eq, map,
}
use der_flex.Prelude.Int.{pos, negsuc}
use der_flex.Prelude.Dict
use der_flex.Prelude.Dict.{Dict}
use der_flex.Domain.Models.{upward, cancelled}
use der_flex.Domain.Resources.{ProvisionedResource, battery, Registry, require}
use der_flex.Domain.Resources.Versions.{version_of, register_all, version_never_back, require_iff}
use der_flex.Reservations.Backend.{
  get_allocations, get_reservation, expire, expire_one, save_reservation, reserved_for_offer,
  get_idempotency,
}
use der_flex.Reservations.Backend.Booked.{share, or_nil}
use der_flex.Reservations.Service.{
  cancel, create, create_checked, create_new, checked_power, participants,
}
use der_flex.Reservations.Allocate.{allocate}
use der_flex.Reservations.Allocate.Outcome.{booked}
use der_flex.Reservations.Service.Effects.{cancel_frees}
use der_flex.Adapters.Webhooks.{of_reservation, WebhookDelivery, deliver}
use der_flex.Adapters.Webhooks.Attempts.{IsFirstSuccess, deliver-IsFirstSuccess}
use der_flex.Api.Security.{
  AccessPrincipal, StaticBearerAuthenticator, static_bearer, own_all, own_zones, authenticate,
  last_match, require_zone,
}
use der_flex.Api.Security.Ownership.{zone_has_one_tenant}
use der_flex.Outbox.{
  OutboxTask, OutboxProcessor, resource, webhook, answered, is_webhook, deliver_task, run_tasks,
}
use der_flex.Outbox.Deliveries.{over, entry_of, deliver_task-error, run_tasks-deliveries}
use der_flex.Examples.Data.{first_offer, reserved, dispatcher}
use der_flex.Examples.Reservations.{held, reserved-IsValid}

held_then : get_reservation (expire 1500 reserved) 1 ≡ some held
unfolding create create_checked create_new checked_power participants allocate reserved_for_offer
    get_idempotency expire save_reservation expire_one get_reservation
held_then = refl

cancel_frees_example :
    ((cancel 1 1500 reserved).0 ≡ ok (record held { status = cancelled }))
    × (get_reservation (cancel 1 1500 reserved).1 1 ≡ some (record held { status = cancelled }))
    × (booked (cancel 1 1500 reserved).1 upward first_offer
          + share first_offer upward held (or_nil (get_allocations (expire 1500 reserved) 1))
        ≡ booked (expire 1500 reserved) upward first_offer)
cancel_frees_example =
    cancel_frees upward first_offer 1 1500 held reserved reserved-IsValid held_then refl

deliver-IsFirstSuccess_example :
    (d : WebhookDelivery) × (deliver dispatcher "https://aggregator.example" "reservation.confirmed"
        (of_reservation held)
        []
      ≡ [] ++ d ∷ [])
    × (d.event ≡ "reservation.confirmed")
    × (d.callback_url ≡ "https://aggregator.example")
    × IsFirstSuccess dispatcher "https://aggregator.example" "reservation.confirmed"
        (of_reservation held)
        0
        3
        (d.delivered, d.attempts)
deliver-IsFirstSuccess_example =
    deliver-IsFirstSuccess dispatcher "https://aggregator.example" "reservation.confirmed"
      (of_reservation held) []

abbrev reader : AccessPrincipal
reader = record { subject = "reader"; tenant_id = "tenant"; scopes = []; zone_ids = "north" ∷ [] }

abbrev writer : AccessPrincipal
writer = record reader { subject = "writer" }

abbrev table : Dict String AccessPrincipal
table = ("token-r", reader) ∷ ("token-w", writer) ∷ []

accepted_table : static_bearer table ≡ some (record { entries = table })
unfolding static_bearer own_all own_zones
accepted_table = refl

abbrev authenticator : StaticBearerAuthenticator
authenticator = record { entries = table }

reader_enters : authenticate authenticator (some "token-r") ≡ ok reader
unfolding authenticate last_match
reader_enters = refl

writer_enters : authenticate authenticator (some "token-w") ≡ ok writer
unfolding authenticate last_match
writer_enters = refl

reader_reaches : require_zone reader "north" ≡ ok tt
unfolding require_zone
reader_reaches = refl

writer_reaches : require_zone writer "north" ≡ ok tt
unfolding require_zone
writer_reaches = refl

zone_has_one_tenant_example : reader.tenant_id ≡ writer.tenant_id
zone_has_one_tenant_example =
    zone_has_one_tenant table authenticator accepted_table (some "token-r") (some "token-w") reader
      writer "north" reader_enters writer_enters reader_reaches writer_reaches

abbrev provisioned : ProvisionedResource
provisioned = record {
  resource_id = "a-battery";
  zone_id = "north";
  resource_type = battery;
  min_power_kw = negsuc 4999999999;
  max_power_kw = pos 5000000000;
  min_energy_kwh = 0;
  max_energy_kwh = 36000000000000000000;
  initial_energy_kwh = 18000000000000000000;
  ramp_rate_kw_per_min = 1000000000;
  provisioning_version = 2;
  provisioned_at = 0;
  enabled = true;
  tenant_id = "tenant";
}

abbrev registry : Registry
registry = ("a-battery", provisioned) ∷ []

version_never_back_example :
    version_of "a-battery" registry
    ≤ version_of "a-battery"
        (register_all (record provisioned { provisioning_version = 1 } ∷ []) registry)
version_never_back_example =
    version_never_back (record provisioned { provisioning_version = 1 } ∷ []) registry "a-battery"

require_iff_example : (require registry "a-battery" "north" "tenant" ≡ ok provisioned) ↔ (
    (Dict.get "a-battery" registry ≡ some provisioned)
    × (provisioned.enabled ≡ true)
    × (provisioned.tenant_id ≡ "tenant")
    × (provisioned.zone_id ≡ "north"))
require_iff_example = require_iff registry "a-battery" "north" "tenant" provisioned

-- A backend whose state is the queue: a claim takes all of it.
abbrev processor : OutboxProcessor (List OutboxTask)
processor = record {
  backend = record {
    claim_outbox = λ now limit lease queue. (queue, []);
    resolve_outbox = λ task r now max_attempts queue. queue;
  };
  webhook_dispatcher = dispatcher;
  dispatch_raises = λ task. none;
  resource_acceptor = λ destination payload. answered false;
  event_name = λ id. "event";
  max_attempts = 8;
  lease_seconds = 30;
}

abbrev task : OutboxTask
task = record {
  event_id = 1;
  kind = webhook;
  destination = "https://aggregator.example";
  event_type = "reservation.confirmed";
  payload = of_reservation held;
  attempts = 2;
  activation_id = 5;
  reservation_id = 1;
  allocation_index = none;
}

deliver_task-error_example :
    let r = deliver_task processor task in
    ((r.delivered ≡ true) ↔ (r.error ≡ none))
    × ((is_webhook task.kind ≡ false) ⊎ (r.retryable ≡ true))
deliver_task-error_example = deliver_task-error processor task

run_tasks-deliveries_example :
    (run_tasks processor 0 (task ∷ record task { kind = resource } ∷ []) ([], [])).1
    ≡ [] ++ map (entry_of processor) (over processor (task ∷ record task { kind = resource } ∷ []))
run_tasks-deliveries_example =
    run_tasks-deliveries processor 0 (task ∷ record task { kind = resource } ∷ []) [] []
