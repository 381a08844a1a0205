-- ===== src/Durable/Refinement/Run.antt =====
-- Runs of calls on the durable backend (src/der_flex/reservations/postgres.py) and on the in-memory one
-- (src/der_flex/reservations/backend.py), side by side.
use der_flex.Durable.Steps.Outcomes.{bind-ok}
use der_flex.Prelude.{◌≡◌, inl, inr, some, Bool-cases, Option-cases, refl, ok, List, [], ◌∷◌}
use mathlib.Core.Path.{◌∙◌, sym, subst}
use der_flex.Domain.Models.{FlexibilityAggregate}
use der_flex.Reservations.Backend
use der_flex.Reservations.Service.Residual.{publish_one, note_change, differs, cell_of, residual_of}
use der_flex.Durable.Tables.{Database, empty_database}
use der_flex.Durable.UnitOfWork
use der_flex.Durable.Publish.{note_durable, publish_durable}
use der_flex.Durable.Refinement.{
  Refines, Call, expires, saves, sets, starts, publishes, durable_call, memory_call, durable_run,
  memory_run, arith,
}
use der_flex.Durable.Refinement.Starts.{start-Refines}
use der_flex.Durable.Refinement.Simulation.{
  suppress-Refines, set-Refines, expire-Refines, save-Refines, update-Refines,
}

note-Refines :
    (a : FlexibilityAggregate) {db : Database} {b : Backend.Backend}
    → Refines db b
    → Refines (note_durable a db) (note_change a b)
unfolding note_durable note_change
note-Refines a {db} {b} same = elim (Option-cases (UnitOfWork.published_residual db (cell_of a))) [
  | inl n ↦ rw (sym (same.residuals (cell_of a)), n) same
  | inr (previous, f) ↦ elim (Bool-cases (differs (some previous) (residual_of a))) [
    | inl e ↦
        rw (sym (same.residuals (cell_of a)), f, e) (suppress-Refines (cell_of a) previous f same)
    | inr e ↦ rw (sym (same.residuals (cell_of a)), f, e) same
  ]
]

-- From states that agree on reservations, keys, allocations, residuals and suppressions, both backends
-- give the same answer to a publication of an aggregate, and they agree on the same reads after it.
pub publish-Refines :
    (a : FlexibilityAggregate) {db : Database} {b : Backend.Backend}
    → Refines db b
    → ((publish_durable a db).0 ≡ (publish_one a b).0)
      × Refines (publish_durable a db).1 (publish_one a b).1
unfolding publish_durable publish_one
publish-Refines a {db} {b} same =
    let noted = note-Refines a same in
    let agree = noted.suppressed (cell_of a) in
    elim (Bool-cases (UnitOfWork.public_cell_is_suppressed (note_durable a db) (cell_of a))) [
      | inl e ↦ rw (sym agree, e) (refl, noted)
      | inr e ↦ rw (sym agree, e) (refl, set-Refines (cell_of a) (residual_of a) noted)
    ]

call-Refines :
    (call : Call) {db db' : Database} {b : Backend.Backend}
    → durable_call call db ≡ ok db'
    → Refines db b
    → Refines db' (memory_call call b)
unfolding durable_call memory_call
call-Refines (expires now) {db} {db'} {b} h same =
    subst {A = Database} (λ d. Refines d (Backend.expire now b)) (ground (arith, h))
      (expire-Refines now same)
call-Refines (saves r items key fingerprint url) {db} {db'} {b} h same =
    save-Refines r items key fingerprint url h same
call-Refines (sets id status power) {db} {db'} {b} h same =
    elim (Option-cases (UnitOfWork.get_reservation db id)) [
      | inl n ↦
          let at = sym (same.reservations id) ∙ n in
          subst {A = Database} (λ d. Refines d (memory_call (sets id status power) b))
            (ground (arith, h, n))
            (subst {A = Backend.Backend} (Refines db) (ground (arith, at)) same)
      | inr (r, f) ↦
          let at = sym (same.reservations id) ∙ f in
          subst {A = Backend.Backend} (Refines db') (ground (arith, at))
            (update-Refines id status power r f (ground (arith, h, f)) same)
    ]
call-Refines (starts a status power items instructions) {db} {db'} {b} h same =
    elim (Option-cases (UnitOfWork.get_reservation db a.reservation_id)) [
      | inl n ↦
          let at = sym (same.reservations a.reservation_id) ∙ n in
          subst {A = Database}
            (λ d. Refines d (memory_call (starts a status power items instructions) b))
            (ground (arith, h, n))
            (subst {A = Backend.Backend} (Refines db) (ground (arith, at)) same)
      | inr (r, f) ↦
          let at = sym (same.reservations a.reservation_id) ∙ f in
          subst {A = Backend.Backend} (Refines db') (ground (arith, at))
            (start-Refines a status power r items instructions f (ground (arith, h, f)) same)
    ]
call-Refines (publishes a) {db} {db'} {b} h same =
    subst {A = Database} (λ d. Refines d (publish_one a b).1) (ground (arith, h))
      (publish-Refines a same).1

pub empty-Refines : Refines empty_database Backend.empty
unfolding UnitOfWork.get_reservation UnitOfWork.get_idempotency UnitOfWork.get_allocations
    UnitOfWork.published_residual UnitOfWork.public_cell_is_suppressed Backend.get_reservation
    Backend.get_idempotency Backend.get_allocations Backend.published_residual
    Backend.public_cell_is_suppressed UnitOfWork.get_activation
    UnitOfWork.activation_for_reservation Backend.get_activation Backend.activation_for_reservation
empty-Refines = record {
  reservations = λ id. refl;
  idempotency = λ key. refl;
  allocations = λ id items h. absurd (cc h);
  residuals = λ cell. refl;
  suppressed = λ cell. refl;
  started = record {
    activations = λ id. refl;
    for_reservation = λ id. refl;
    indexed = λ id known h. absurd (cc h);
  };
}

-- Let a durable and an in-memory state agree on the reads of a reservation, of an idempotency key, of
-- the allocations that the in-memory one has, of an activation by its identifier and by its
-- reservation, of a published residual and of a suppression. When the durable backend commits a
-- sequence of expiries, new reservations, changes of the status and power of a stored reservation,
-- activations of a stored reservation, and rounds of a publication, the same calls in memory end in a
-- state that agrees with it on these reads.
pub durable_run-Refines :
    (calls : List Call) {db db' : Database} {b : Backend.Backend}
    → Refines db b
    → durable_run calls db ≡ ok db'
    → Refines db' (memory_run calls b)
unfolding durable_run memory_run
durable_run-Refines [] {db} {db'} {b} same h =
    subst {A = Database} (λ d. Refines d b) (ground (arith, h)) same
durable_run-Refines (call ∷ calls) {db} {db'} {b} same h =
    let (d, e, f) = bind-ok (durable_call call db) _ db' h in
    durable_run-Refines calls (call-Refines call e same) f
