-- ===== src/Examples/Data.antt =====
-- The test data: two offers of one zone, a source that serves them, a request and its state.
use der_flex.Prelude.{String, true, some, [], ◌∷◌, ◌==◌, nat_eq, string_eq, if◌then◌else◌}
use der_flex.Prelude.Int.{pos}
use der_flex.Domain.Models.{FlexibilityOffer, FlexibilityAggregate, vanish, upward, finite}
use der_flex.Adapters.Webhooks.{WebhookDispatcher, status, os_error}
use der_flex.Reservations.Backend.{Backend, empty}
use der_flex.Reservations.Service.{OfferSource, CreateRequest, create}
use der_flex.Reservations.Service.Activate.{ActivationContext}

abbrev pub offer_of : String → FlexibilityOffer
offer_of resource_id = record {
  resource_id = resource_id;
  zone_id = "north";
  interval_start = 900000000;
  interval_end = 1800000000;
  baseline_power_kw = pos 2000000000;
  upward_capacity_kw = 5000000000;
  downward_capacity_kw = 3000000000;
  upward_energy_kwh = 4500000000000000000;
  downward_energy_kwh = 2700000000000000000;
  confidence = 900000000;
  consequence_type = vanish;
  source_version = "v1";
  source_epoch = 1;
  source_sequence = 1;
  observed_at = 0;
  expires_at = 1800000000;
  tenant_id = "tenant";
}

abbrev pub first_offer : FlexibilityOffer
first_offer = offer_of "a-battery"

-- The offer of the same battery for the next interval.
abbrev pub later_offer : FlexibilityOffer
later_offer = record first_offer { interval_start = 1800000000; interval_end = 2700000000 }

abbrev pub source : OfferSource
source = record {
  eligible_offers =
      λ tenant zone start end consequence now. offer_of "a-battery" ∷ offer_of "b-battery" ∷ [];
  minimum_participants = 2;
  fingerprint = λ p. if p.power_kw == 7000000000 then "seven" else "other";
}

abbrev pub request : CreateRequest
request = record {
  idempotency_key = "key";
  tenant_id = "tenant";
  zone_id = "north";
  interval_start = 900000000;
  interval_end = 1800000000;
  direction = upward;
  power_kw = finite (pos 7000000000);
  consequence_type = vanish;
  callback_url = some "https://aggregator.example/hook";
}

abbrev pub other_request : CreateRequest
other_request = record request { power_kw = finite (pos 1000000000) }

abbrev pub reserved : Backend
reserved = (create source 1 2 1000 request empty).1

abbrev pub dispatcher : WebhookDispatcher
dispatcher = record {
  dumps = λ payload. "{}";
  sign = λ body. "signature";
  sender = λ attempt request. if attempt == 1 then os_error else status 204;
  max_attempts = 3;
}

abbrev pub context : ActivationContext
context = record {
  parses = λ instruction. true;
  instruction_ids = λ index. record { message_id = 10; id = 11; envelope_id = 12 };
  activation_id = 5;
  resource_acceptor = λ resource_id instruction. resource_id == "a-battery";
  webhooks = dispatcher;
  now = 2000;
  completed = 3000;
}

abbrev pub aggregate : FlexibilityAggregate
aggregate = record {
  zone_id = "north";
  interval_start = 900000000;
  interval_end = 1800000000;
  baseline_power_kw = pos 4000000000;
  upward_capacity_kw = 10000000000;
  downward_capacity_kw = 6000000000;
  upward_energy_kwh = 9000000000000000000;
  downward_energy_kwh = 5400000000000000000;
  participant_count = 12;
  confidence = 900000000;
  consequence_type = vanish;
  generated_at = 1000;
  tenant_id = "tenant";
}
