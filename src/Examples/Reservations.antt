-- ===== src/Examples/Reservations.antt =====
-- Reservations: the theorems on creating, cancelling and activating, at the test data.
use der_flex.Adapters.Dispatch.{build_pebc_instruction}
use der_flex.Prelude.{
  ==_iff, string_eq, nat_eq, ◌≤◌, ◌≡◌, ◌↔◌, ◌+◌, refl, inr, true, false, none, some, [], ok, err,
  String, List, ◌∷◌, ◌⊎◌, ◌≢◌, All,
}
use der_flex.Domain.Models.{
  FlexibilityOffer, tolerance, confirmed, Reservation, Activation, upward, vanish, cancelled,
  failed,
}
use der_flex.Reservations.Backend.{
  Backend, get_allocations, update_reservation, reserved_for_offer, save_reservation,
  get_idempotency, save_reservation, reserved_for_offer, get_idempotency, empty, expire, expire_one,
  get_reservation, get_activation, activation_for_reservation,
}
use der_flex.Reservations.Backend.Invariant.{IsValid, empty-IsValid}
use der_flex.Reservations.Allocate.{allocate}
use der_flex.Reservations.Allocate.Outcome.{AreDistinct}
use der_flex.Reservations.Service.{
  OfferSource, CreateRequest, create, create_new, participants, offers_for, payload_of, cancel,
  found_reservation, get, create_checked, checked_power,
}
use der_flex.Reservations.Service.Create.{create-IsValid}
use der_flex.Reservations.Service.Steps.{here, next, cancels, gets}
use der_flex.Reservations.Service.Overbooking.{Stands}
use der_flex.Domain.Equality.{consequence_eq}
use der_flex.Domain.Store.{InMemoryOfferStore, key_of, eligible_offers}
use der_flex.Reservations.Service.Capacity.{
  is_ok, free_power, create_new-confirms, create_new-refuses,
}
use der_flex.Reservations.Service.Idempotency.{create_replays, create_conflicts, create-invalid}
use der_flex.Reservations.Records.{idempotency_conflict, insufficient_capacity, invalid_request}
use der_flex.Reservations.Service.Activate.{
  ServiceState, activate, activate_known, dispatch, build_pairs, outcome, finish,
}
use der_flex.Reservations.Service.Activation.{Dispatched, activate-Dispatched}
use der_flex.Reservations.Service.Once.{activate_once}
use der_flex.Reservations.Service.Runs.{Step-keeps}
use der_flex.Reservations.Service.Lifecycle.{IsValid-Keeps, closed_forever}
use der_flex.Examples.Data.{
  source, offer_of, later_offer, request, other_request, reserved, first_offer, context,
}

-- A store in which one battery has an offer for each of two intervals.
abbrev offer_store : InMemoryOfferStore
offer_store = record {
  minimum_participants = 2;
  offers =
      (key_of first_offer, first_offer)
      ∷ (key_of later_offer, later_offer)
      ∷ (key_of (offer_of "b-battery"), offer_of "b-battery")
      ∷ [];
  source_positions = [];
  disconnected_resources = [];
  published_cohorts = [];
  suppressed_cells = [];
  privacy_query_counts = [];
  privacy_snapshots = [];
}

abbrev store_source : OfferSource
store_source = record source { eligible_offers = eligible_offers offer_store }

abbrev IsServed : List FlexibilityOffer → Type 0
IsServed xs = AreDistinct xs × (Stands first_offer xs ⊎ All (λ x. x.resource_id ≢ "a-battery") xs)

abbrev booked_once : Backend
booked_once = (create store_source 1 2 1000 request empty).1

abbrev later_request : CreateRequest
later_request = record request {
  idempotency_key = "later";
  interval_start = 1800000000;
  interval_end = 2700000000;
}

create_new-confirms_example :
    (is_ok (create_new source 1 2 1000 "tenant:key" (payload_of request 7000000000) empty).0 ≡ true)
    ↔ ((source.minimum_participants
          ≤ participants (offers_for source (payload_of request 7000000000) 1000))
        × (7000000000
            ≤ free_power source 1 2 1000 "tenant:key" (payload_of request 7000000000) empty-IsValid
              + tolerance))
create_new-confirms_example =
    create_new-confirms source 1 2 1000 "tenant:key" (payload_of request 7000000000) empty-IsValid

abbrev pub held : Reservation
held = record {
  reservation_id = 1;
  correlation_id = 2;
  zone_id = "north";
  interval_start = 900000000;
  interval_end = 1800000000;
  direction = upward;
  requested_power_kw = 7000000000;
  allocated_power_kw = 7000000000;
  participant_count = 2;
  consequence_type = vanish;
  status = confirmed;
  created_at = 1000;
  expires_at = 300001000;
  tenant_id = "tenant";
}

created : (create source 1 2 1000 request empty).0 ≡ ok held
unfolding create create_checked create_new checked_power participants allocate reserved_for_offer
    get_idempotency expire save_reservation
created = refl

create_replays_example : create source 3 4 2000 request reserved ≡ (ok held, expire 2000 reserved)
unfolding expire_one
create_replays_example =
    create_replays source 1 2 3 4 1000 2000 request empty held empty-IsValid created

create_conflicts_example :
    create source 3 4 2000 other_request reserved ≡ (err idempotency_conflict, expire 2000 reserved)
unfolding checked_power
create_conflicts_example =
    create_conflicts source 1 2 3 4 1000 2000 request other_request 7000000000 1000000000 empty held
      empty-IsValid created refl refl refl refl
      (λ e. cc ((==_iff {K = String} "seven" "other").1 e))

create-invalid_example :
    create source 1 2 1000 (record request { interval_end = 0 }) empty
    ≡ (err invalid_request, empty)
create-invalid_example =
    create-invalid source 1 2 1000 (record request { interval_end = 0 }) empty (inr refl)

too_much :
    is_ok
      (create_new source 1 2 1000 "tenant:key"
        (record (payload_of request 11000000000) { zone_id = "south" })
        empty).0
    ≡ false
unfolding create_new participants allocate reserved_for_offer
too_much = refl

create_new-refuses_example :
    create_new source 1 2 1000 "tenant:key"
      (record (payload_of request 11000000000) { zone_id = "south" })
      empty
    ≡ (err insufficient_capacity, empty)
create_new-refuses_example =
    create_new-refuses source 1 2 1000 "tenant:key"
      (record (payload_of request 11000000000) { zone_id = "south" }) empty-IsValid too_much

pub reserved-IsValid : IsValid reserved
reserved-IsValid = create-IsValid source 1 2 1000 request empty-IsValid

abbrev activation : Activation
activation = record {
  activation_id = 5;
  reservation_id = 1;
  correlation_id = 2;
  status = failed;
  instruction_count = 2;
  accepted_instruction_count = 1;
  rejected_instruction_count = 1;
  created_at = 3000;
  completed_at = some 3000;
}

abbrev activated_state : ServiceState
activated_state = (activate context 1 (record { backend = reserved; deliveries = [] })).1

first_answer :
    (activate context 1 (record { backend = reserved; deliveries = [] })).0 ≡ ok activation
unfolding create create_checked create_new checked_power participants allocate reserved_for_offer
    get_idempotency expire save_reservation expire_one get_reservation get_allocations
    activation_for_reservation get_activation activate activate_known dispatch build_pairs
    build_pebc_instruction outcome finish found_reservation
first_answer = refl

pub held_stored : get_reservation reserved 1 ≡ some held
unfolding create create_checked create_new checked_power participants allocate reserved_for_offer
    get_idempotency expire save_reservation get_reservation
held_stored = refl

unused : get_activation reserved 5 ≡ none
unfolding create create_checked create_new checked_power participants allocate reserved_for_offer
    get_idempotency expire save_reservation get_activation
unused = refl

idle : activation_for_reservation reserved 1 ≡ none
unfolding create create_checked create_new checked_power participants allocate reserved_for_offer
    get_idempotency expire save_reservation activation_for_reservation
idle = refl

activate_once_example :
    activate
      (record context { now = 9000 })
      1
      (record { backend = activated_state.backend; deliveries = [] })
    ≡ (ok activation, record { backend = activated_state.backend; deliveries = [] })
activate_once_example =
    activate_once source context (record context { now = 9000 }) 1 activation
      (record { backend = reserved; deliveries = [] }) [] reserved-IsValid unused first_answer here

activate-Dispatched_example :
    Dispatched context 1 (expire 2000 reserved) activation activated_state.backend
activate-Dispatched_example =
    activate-Dispatched context 1 activation (record { backend = reserved; deliveries = [] })
      reserved-IsValid idle first_answer

stored : get_reservation (cancel 1 1500 reserved).1 1 ≡ some (record held { status = cancelled })
unfolding create create_checked create_new checked_power participants allocate reserved_for_offer
    get_idempotency expire save_reservation expire_one get_reservation cancel found_reservation
    update_reservation
stored = refl

closed_forever_example :
    get_reservation (get 1 2000 (cancel 1 1500 reserved).1).1 1
    ≡ some (record held { status = cancelled })
closed_forever_example =
    closed_forever source 1 (record held { status = cancelled }) refl
      (Step-keeps (IsValid-Keeps source) reserved (cancel 1 1500 reserved).1 (cancels 1 1500 refl)
        reserved-IsValid)
      stored (next here (gets 1 2000 refl))
