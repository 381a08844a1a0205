-- ===== src/Examples/Durable.antt =====
-- The durable backend: the theorems on a reservation that is saved, activated, claimed and resolved.
use der_flex.Prelude.{
  ◌≡◌, ◌≤◌, ◌+◌, ◌*◌, ◌&&◌, String, true, none, some, List, [], ◌∷◌, Result, ok, err, refl,
  if◌then◌else◌, ◌==◌, string_eq, nat_eq, arith, any, All, ◌≢◌,
}
use der_flex.Prelude.Int.{pos, negsuc, ◌+ℤ◌, ◌-ℤ◌}
use der_flex.Prelude.Sorting.{sorted, insert_sorted}
use der_flex.Domain.Models.{second, Uuid, Instant, Activation, ActivationStatus}
use der_flex.Adapters.Webhooks.{of_instruction}
use der_flex.Reservations.Records.{Allocation}
use der_flex.Outbox.{OutboxTask, Resolution, TaskKind}
use der_flex.Durable.Tables.{
  OutboxRow, Database, empty_database, reservation_check, allocation_check, activation_check,
  outbox_check, OutboxStatus,
}
use der_flex.Durable.UnitOfWork.{
  save_reservation, replace_allocations, allocation_rows, update_reservation, get_allocations,
  get_activation, expire, enqueue_outbox, get_reservation, callback_url, activation_for_reservation,
  insert_activation, instruction_rows, save_activation, expire_row,
}
use der_flex.Durable.Activate.{
  DurableContext, TransactionError, activate_durable, start_activation, enqueue_resources,
  build_instructions,
}
use der_flex.Durable.Outbox.{
  claim_outbox, claim_rows, candidates, event_rank, resolve_outbox, resolved_row, resolved_status,
  delay_seconds, finalize_activation, close_activation, is_task_of, is_claimable,
}
use der_flex.Durable.Outbox.Lease.{Holding, goes, claims-disjoint}
use der_flex.Durable.Outbox.Lease
use der_flex.Durable.Publish.{residual_capacity_durable}
use der_flex.Durable.Outbox.Final.{IsRow, over_forever}
use der_flex.Durable.Outbox.Rows.{AreSound, rows-AreSound}
use der_flex.Adapters.Dispatch.{build_pebc_instruction, target_kw}
use der_flex.Reservations.Backend.{expire_one}
use der_flex.Durable.Steps.{
  Step, expires, publishes, saves, activates, claims, resolves, here, next,
}
use der_flex.Durable.Progress.Activating.{IsReady}
use der_flex.Durable.Progress.Resolving.{IsClaimed}
use der_flex.Durable.Progress.Forever.{Works, rests, works, never_stuck}
use der_flex.Examples.Reservations.{held}

abbrev pub items : List Allocation
items =
    (record {
      resource_id = "a-battery";
      power_kw = 4000000000;
      baseline_power_kw = pos 1000000000;
      source_version = "v1";
    })
    ∷ (record {
      resource_id = "b-battery";
      power_kw = 3000000000;
      baseline_power_kw = pos 0;
      source_version = "v1";
    })
    ∷ []

abbrev event_id_of : Uuid → String → Uuid
event_id_of id suffix =
    if suffix == "resource:0"
    then 100
    else if suffix == "resource:1"
    then 101
    else if suffix == "webhook:activation.accepted"
    then 200
    else if suffix == "webhook:activation.started"
    then 201
    else 202

abbrev context : DurableContext
context = record {
  parses = λ i. true;
  instruction_ids = λ n. record { message_id = n; id = n; envelope_id = n };
  activation_id = 5;
  event_id_of = event_id_of;
  resource_suffix = λ n. if n == 0 then "resource:0" else "resource:1";
  now = 2000;
  stamp = 2000;
}

abbrev pub of_result : {E : Type 0} → Result E Database → Database
of_result (ok db) = db
of_result (err e) = empty_database

abbrev of_activation : Result TransactionError (Uuid × Database) → Database
of_activation (ok (id, db)) = db
of_activation (err e) = empty_database

abbrev saved : Database
saved =
    of_result
      (save_reservation held items "tenant:key" "seven" (some "https://callback") empty_database)

abbrev activated : Database
activated = of_activation (activate_durable context 1 saved)

abbrev claimed : Database
claimed = (claim_outbox 2000 10 30 activated).1

abbrev yes : Resolution
yes = record { delivered = true; retryable = true; error = none }

-- The first instruction, as it was claimed.
abbrev first_task : OutboxTask
first_task = record {
  event_id = 100;
  kind = TaskKind.resource;
  destination = "a-battery";
  event_type = "pebc.instruction";
  payload = of_instruction (record {
    message_id = 0;
    id = 0;
    envelope_id = 0;
    execution_time = 900000000;
    power_constraints_id = "v1";
    duration = 900000;
    upper_limit = negsuc 2999999999999;
    lower_limit = negsuc 2999999999999;
  });
  attempts = 1;
  activation_id = 5;
  reservation_id = 1;
  allocation_index = some 0;
}

abbrev resolved : Database
resolved = of_result (resolve_outbox event_id_of first_task yes 3000 3000 3 claimed)

saved_step : Step event_id_of 3 empty_database saved
unfolding save_reservation replace_allocations allocation_rows reservation_check allocation_check
saved_step = saves held items "tenant:key" "seven" (some "https://callback") refl

activated_step : Step event_id_of 3 saved activated
unfolding activate_durable start_activation enqueue_resources build_instructions save_activation
    activation_check outbox_check get_reservation get_allocations activation_for_reservation
    insert_activation instruction_rows enqueue_outbox callback_url expire expire_row expire_one
    update_reservation replace_allocations allocation_rows build_pebc_instruction target_kw
    reservation_check allocation_check save_reservation
activated_step = activates context 1 5 refl

claimed_step : Step event_id_of 3 activated claimed
claimed_step = claims 2000 10 30 refl

resolved_step : Step event_id_of 3 claimed resolved
unfolding activate_durable start_activation enqueue_resources build_instructions save_activation
    activation_check outbox_check get_reservation get_allocations activation_for_reservation
    insert_activation instruction_rows enqueue_outbox callback_url expire expire_row expire_one
    update_reservation replace_allocations allocation_rows build_pebc_instruction target_kw
    reservation_check allocation_check save_reservation claim_outbox claim_rows candidates
    event_rank sorted insert_sorted ◌+ℤ◌ ◌-ℤ◌ resolve_outbox resolved_row resolved_status
    delay_seconds finalize_activation close_activation
resolved_step = resolves first_task yes 3000 3000 refl

first-IsReady : IsReady context 1 saved
unfolding save_reservation replace_allocations allocation_rows get_allocations reservation_check
    allocation_check sorted insert_sorted
first-IsReady = record { unknown = refl; not_accepted = refl; not_started = refl }

first-IsClaimed : IsClaimed first_task claimed.outbox
unfolding activate_durable start_activation enqueue_resources build_instructions save_activation
    activation_check outbox_check get_reservation get_allocations activation_for_reservation
    insert_activation instruction_rows enqueue_outbox callback_url expire expire_row expire_one
    update_reservation replace_allocations allocation_rows build_pebc_instruction target_kw
    reservation_check allocation_check save_reservation claim_outbox claim_rows candidates
    event_rank sorted insert_sorted ◌+ℤ◌ ◌-ℤ◌
first-IsClaimed =
    (λ e. absurd (cc e), (λ e. absurd (cc e), (λ e. (refl, refl), (λ e. absurd (cc e), tt))))

work : Works event_id_of 3 empty_database resolved
unfolding saved_step activated_step claimed_step resolved_step claim_outbox
work =
    works (works (works (works rests saved_step tt) activated_step first-IsReady) claimed_step tt)
      resolved_step first-IsClaimed

abbrev pending : Activation
pending = record {
  activation_id = 5;
  reservation_id = 1;
  correlation_id = 2;
  status = ActivationStatus.pending;
  instruction_count = 2;
  accepted_instruction_count = 0;
  rejected_instruction_count = 0;
  created_at = 2000;
  completed_at = none;
}

pending_found : get_activation resolved 5 ≡ some pending
unfolding activate_durable start_activation enqueue_resources build_instructions save_activation
    activation_check outbox_check get_reservation get_allocations activation_for_reservation
    insert_activation instruction_rows enqueue_outbox callback_url expire expire_row expire_one
    update_reservation replace_allocations allocation_rows build_pebc_instruction target_kw
    reservation_check allocation_check save_reservation claim_outbox claim_rows candidates
    event_rank sorted insert_sorted ◌+ℤ◌ ◌-ℤ◌ resolve_outbox resolved_row resolved_status
    delay_seconds finalize_activation close_activation get_activation
pending_found = refl

never_stuck_example :
    (t : Instant) × ((now : Instant)
      → t ≤ now
      → any (λ row. is_task_of 5 row && is_claimable now row) resolved.outbox ≡ true)
never_stuck_example =
    never_stuck event_id_of 3 resolved 5 pending work pending_found refl (omega arith)

rows-AreSound_example : AreSound 3 resolved.outbox
rows-AreSound_example =
    rows-AreSound event_id_of 3 tt
      (next (next (next (next here saved_step) activated_step) claimed_step) resolved_step)

-- One worker takes one task; before its lease ends the reservations expire, a residual is published
-- and another worker takes the rest.
abbrev held_back : Database
held_back =
    (claim_outbox 2500 10 60
      (residual_capacity_durable [] 2200 (expire 2100 (claim_outbox 2000 1 30 activated).1)).1).1

holding :
    Holding
      (candidates 2000 1 activated)
      (2000 + 30 * second)
      event_id_of
      3
      (claim_outbox 2000 1 30 activated).1
      held_back
holding =
    goes (goes (goes Lease.rests (expires 2100 refl) tt) (publishes [] 2200 refl) tt)
      (claims 2500 10 60 refl) (omega arith)

claims-disjoint_example :
    All
      (λ u. All (λ t. t.event_id ≢ u.event_id) (claim_outbox 2000 1 30 activated).0)
      (claim_outbox 3000 10 60 held_back).0
claims-disjoint_example =
    claims-disjoint event_id_of 3 2000 3000 1 10 30 60 activated held_back holding (omega arith)

abbrev first_row : OutboxRow
first_row = record {
  task = first_task;
  status = OutboxStatus.delivered;
  available_at = 3000;
  locked_until = none;
  created_at = 2000;
  delivered_at = some 3000;
  last_error = none;
}

-- A second worker with the same lease finds the task over.
abbrev again : Database
again = (claim_outbox 40000000 10 30 resolved).1

first_row-IsRow : IsRow 100 first_row refl resolved.outbox
unfolding activate_durable start_activation enqueue_resources build_instructions save_activation
    activation_check outbox_check get_reservation get_allocations activation_for_reservation
    insert_activation instruction_rows enqueue_outbox callback_url expire expire_row expire_one
    update_reservation replace_allocations allocation_rows build_pebc_instruction target_kw
    reservation_check allocation_check save_reservation claim_outbox claim_rows candidates
    event_rank sorted insert_sorted ◌+ℤ◌ ◌-ℤ◌ resolve_outbox resolved_row resolved_status
    delay_seconds finalize_activation close_activation
first_row-IsRow = record {
  only = (λ e. absurd (cc e), (λ e. absurd (cc e), (λ e. refl, (λ e. absurd (cc e), tt))));
  there = refl;
}

over_forever_example : IsRow 100 first_row refl again.outbox
over_forever_example =
    over_forever 100 first_row refl event_id_of 3 first_row-IsRow
      (next here (claims 40000000 10 30 refl))
