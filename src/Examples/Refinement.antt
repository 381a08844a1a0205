-- ===== src/Examples/Refinement.antt =====
-- The durable backend and the in-memory one over the same calls.
use der_flex.Prelude.{◌≡◌, none, List, [], ◌∷◌, ok, refl}
use der_flex.Domain.Models.{Activation, ActivationStatus, ReservationStatus, failed}
use der_flex.Reservations.Backend
use der_flex.Reservations.Service.Residual.{publish_one}
use der_flex.Durable.Tables.{
  Database, empty_database, reservation_check, allocation_check, activation_check,
}
use der_flex.Durable.UnitOfWork
use der_flex.Durable.Publish.{publish_durable, note_durable}
use der_flex.Durable.Refinement.{
  Refines, Call, expires, saves, sets, starts, publishes, durable_call, durable_run, memory_run,
}
use der_flex.Durable.Refinement.Run.{empty-Refines, durable_run-Refines, publish-Refines}
use der_flex.Examples.Data.{aggregate}
use der_flex.Examples.Reservations.{held}
use der_flex.Examples.Durable.{items, of_result}

abbrev activation : Activation
activation = record {
  activation_id = 5;
  reservation_id = 1;
  correlation_id = 2;
  status = ActivationStatus.pending;
  instruction_count = 2;
  accepted_instruction_count = 0;
  rejected_instruction_count = 0;
  created_at = 2000;
  completed_at = none;
}

-- The second publication shows another residual, so the cell is suppressed.
abbrev calls : List Call
calls =
    saves held items "tenant:key" "seven" none
    ∷ publishes aggregate
    ∷ publishes (record aggregate { upward_capacity_kw = 3000000000 })
    ∷ starts activation ReservationStatus.activated 7000000000 items []
    ∷ sets 1 failed 0
    ∷ expires 2000
    ∷ []

abbrev durable : Database
durable = of_result (durable_run calls empty_database)

durable_run_commits : durable_run calls empty_database ≡ ok durable
unfolding durable_run durable_call publish_durable note_durable UnitOfWork.save_reservation
    UnitOfWork.replace_allocations UnitOfWork.allocation_rows UnitOfWork.get_reservation
    UnitOfWork.update_reservation UnitOfWork.expire UnitOfWork.published_residual
    UnitOfWork.public_cell_is_suppressed UnitOfWork.set_published_residual
    UnitOfWork.suppress_public_cell reservation_check allocation_check UnitOfWork.save_activation
    UnitOfWork.insert_activation UnitOfWork.instruction_rows activation_check
durable_run_commits = refl

durable_run-Refines_example : Refines durable (memory_run calls Backend.empty)
durable_run-Refines_example = durable_run-Refines calls empty-Refines durable_run_commits

agreeing : Refines durable (memory_run calls Backend.empty)
agreeing = durable_run-Refines calls empty-Refines durable_run_commits

publish-Refines_example :
    ((publish_durable aggregate durable).0
      ≡ (publish_one aggregate (memory_run calls Backend.empty)).0)
    × Refines
        (publish_durable aggregate durable).1
        (publish_one aggregate (memory_run calls Backend.empty)).1
publish-Refines_example = publish-Refines aggregate agreeing
