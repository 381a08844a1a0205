-- ===== src/Durable/Progress/Forever.antt =====
-- Runs of the transactions, and the activations that are pending after them
-- (src/der_flex/reservations/postgres.py, `_activate_durable` in
-- src/der_flex/reservations/service.py).
use der_flex.Prelude.{
  ℕ, String, ◌≡◌, ◌≤◌, ◌<◌, ◌&&◌, inl, inr, true, false, Option, none, some, List, [], ◌∷◌, arith,
  any, Bool-cases,
}
use mathlib.Core.Path.{subst, sym}
use der_flex.Domain.Models.{Uuid, Instant, Activation}
use der_flex.Durable.Tables.{OutboxRow, OutboxStatus, Database, is_pending, is_none, empty_database}
use der_flex.Durable.UnitOfWork.{get_activation}
use der_flex.Durable.Outbox.{is_task_of, is_over, is_due, is_claimable, not_after}
use der_flex.Durable.Outbox.Rows.{IsSound, AreSound, rows-AreSound}
use der_flex.Durable.Steps.{
  Step, expires, saves, updates, publishes, activates, claims, resolves, Reach, here, next,
}
use der_flex.Durable.Progress.{
  AreAlive, Grows-AreAlive, is_open, expire-Grows, claim-Grows, save_reservation-Grows,
  update_reservation-Grows, residual_capacity-Grows,
}
use der_flex.Durable.Progress.Resolving.{IsClaimed, resolve-AreAlive}
use der_flex.Durable.Progress.Activating.{IsReady, activate_durable-AreAlive}

module _ (event_id_of : Uuid → String → Uuid) (max_attempts : ℕ) where
  -- A worker resolves a task that it has claimed, and the event of the first task of a new activation
  -- is new, as `uuid5` makes it.
  abbrev pub IsOrderly : {db db' : Database} → Step event_id_of max_attempts db db' → Type 0
  IsOrderly (expires now h) = Unit {0}
  IsOrderly (saves r items key fingerprint callback h) = Unit {0}
  IsOrderly (updates r h) = Unit {0}
  IsOrderly (publishes aggregates now h) = Unit {0}
  IsOrderly {db} (activates c id a h) = IsReady c id db
  IsOrderly (claims now limit lease_seconds h) = Unit {0}
  IsOrderly {db} (resolves task r now stamp h) = IsClaimed task db.outbox

  -- A run of orderly steps.
  pub data Works (db : Database) : Database → Type 0 where
    rests : Works db db
    works :
        {d d' : Database}
        → Works db d
        → (s : Step event_id_of max_attempts d d') → IsOrderly s
        → Works db d'

  Works-Reach : {db db' : Database} → Works db db' → Reach event_id_of max_attempts db db'
  Works-Reach rests = here
  Works-Reach (works run s o) = next (Works-Reach run) s

  Step-AreAlive :
      {db db' : Database} (s : Step event_id_of max_attempts db db')
      → IsOrderly s
      → AreAlive db
      → AreAlive db'
  Step-AreAlive {db} {db'} (expires now h) o alive =
      subst {A = Database} AreAlive (sym h) (Grows-AreAlive (expire-Grows now db) alive)
  Step-AreAlive {db} {db'} (saves r items key fingerprint callback h) o alive =
      Grows-AreAlive (save_reservation-Grows r items key fingerprint callback db db' h) alive
  Step-AreAlive {db} {db'} (updates r h) o alive =
      Grows-AreAlive (update_reservation-Grows r db db' h) alive
  Step-AreAlive {db} {db'} (publishes aggregates now h) o alive =
      subst {A = Database} AreAlive (sym h)
        (Grows-AreAlive (residual_capacity-Grows aggregates now db) alive)
  Step-AreAlive {db} {db'} (activates c id a h) o alive =
      activate_durable-AreAlive c id a db db' o h alive
  Step-AreAlive {db} {db'} (claims now limit lease_seconds h) o alive =
      subst {A = Database} AreAlive (sym h)
        (Grows-AreAlive (claim-Grows now limit lease_seconds db) alive)
  Step-AreAlive {db} {db'} (resolves task r now stamp h) o alive =
      resolve-AreAlive task r now max_attempts db o event_id_of stamp db' h alive

  Works-AreAlive : {db db' : Database} → Works db db' → AreAlive db → AreAlive db'
  Works-AreAlive rests alive = alive
  Works-AreAlive (works run s o) alive = Step-AreAlive s o (Works-AreAlive run alive)

-- From when on a lease has run out.
lease_from :
    (locked_until : Option Instant)
    → is_none locked_until ≡ false
    → (t : Instant) × ((now : Instant) → t ≤ now → not_after locked_until now ≡ true)
lease_from none h = absurd (cc h)
lease_from (some t) h = (t, λ now later. ground (arith, later))

-- From when on a row that is not over is due.
due_from :
    (max_attempts : ℕ) (row : OutboxRow) (status : OutboxStatus)
    → IsSound max_attempts row status
    → is_over status ≡ false
    → (t : Instant) × ((now : Instant) → t ≤ now → is_due status row now ≡ true)
due_from max_attempts row OutboxStatus.pending sound o =
    (row.available_at, λ now later. ground (arith, later))
due_from max_attempts row OutboxStatus.retry sound o =
    (row.available_at, λ now later. ground (arith, later))
due_from max_attempts row OutboxStatus.processing sound o = lease_from row.locked_until sound.1
due_from max_attempts row OutboxStatus.delivered sound o = absurd (cc o)
due_from max_attempts row OutboxStatus.dead sound o = absurd (cc o)

due_task :
    (max_attempts : ℕ) (id : Uuid) (rows : List OutboxRow)
    → AreSound max_attempts rows
    → any (is_open id) rows ≡ true
    → (t : Instant) × ((now : Instant)
        → t ≤ now
        → any (λ row. is_task_of id row && is_claimable now row) rows ≡ true)
due_task max_attempts id [] sound h = absurd (cc h)
due_task max_attempts id (row ∷ rows) sound h = elim (Bool-cases (is_open id row)) [
  | inl e ↦
      let (t, due) = due_from max_attempts row row.status sound.0 (ground (arith, e)) in
      (t, λ now later. ground (arith, e, due now later))
  | inr e ↦
      let (t, due) = due_task max_attempts id rows sound.1 (ground (arith, e, h)) in
      (t, λ now later. ground (arith, due now later))
]

-- In every run from an empty database in which workers resolve only tasks that they have claimed, and
-- the event of the first task of each new activation is new, an activation that is pending and has an
-- instruction has a resource task that is due from some instant on: a claim at any later time may
-- take it, so the activation is not left with nothing to do, whichever workers stop in the middle of
-- a lease. An activation without instructions has no task.
pub never_stuck :
    (event_id_of : Uuid → String → Uuid) (max_attempts : ℕ) (db : Database) (id : Uuid)
    (a : Activation)
    → Works event_id_of max_attempts empty_database db
    → get_activation db id ≡ some a
    → is_pending a.status ≡ true
    → 0 < a.instruction_count
    → (t : Instant) × ((now : Instant)
        → t ≤ now
        → any (λ row. is_task_of id row && is_claimable now row) db.outbox ≡ true)
unfolding get_activation
never_stuck event_id_of max_attempts db id a run found pending some_instruction =
    let alive = Works-AreAlive event_id_of max_attempts run (λ i b f. absurd (cc f)) in
    due_task max_attempts id db.outbox
      (rows-AreSound event_id_of max_attempts tt (Works-Reach event_id_of max_attempts run))
      ((alive id a found).has_open pending (ground (arith)))
