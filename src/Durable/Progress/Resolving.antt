-- ===== src/Durable/Progress/Resolving.antt =====
-- `resolve_outbox` with the finalization in its transaction, and the activations after it
-- (src/der_flex/reservations/postgres.py).
use der_flex.Prelude.{
  ltb, ℕ, String, ◌≡◌, inl, inr, true, false, some, List, arith, ok, any, All, Bool-cases,
  Option-cases, nat_eq, ◌==◌, ==_iff, refl, filter, not, ◌&&◌, All-map_pred,
}
use mathlib.Core.Path.{subst, sym, ◌∙◌}
use der_flex.Prelude.Tables.{
  find, update_where, any-update_rows, find-update_where, All-find, All-each, any-filter, any-find,
  length-filter-any,
}
use der_flex.Domain.Models.{Uuid, Instant, Activation}
use der_flex.Outbox.{OutboxTask, Resolution, is_webhook}
use der_flex.Durable.Tables.{OutboxRow, Database, is_pending}
use der_flex.Durable.UnitOfWork.{is_reservation, is_event, get_activation}
use der_flex.Durable.Outbox.{
  finalize_activation, finalize_pending, resolve_outbox, is_task_of, is_over, resolved_row,
  resolved_status,
}
use der_flex.Durable.Steps.Outcomes.{resolve_outbox-cases}
use der_flex.Durable.Progress.{IsAlive, AreAlive, Grows, Grows-AreAlive, is_open}
use der_flex.Durable.Progress.Closing.{close_activation-AreAlive}

-- Every activation but the one of `id` is alive, and that one has its reservation.
pub record AreAliveBut (id : Uuid) (db : Database) : Type 0 where
  pub others :
      (other : Uuid) (b : Activation)
      → get_activation db other ≡ some b
      → (other == id) ≡ false
      → IsAlive db other b
  pub linked :
      (b : Activation)
      → get_activation db id ≡ some b
      → any (is_reservation b.reservation_id) db.reservations ≡ true

module _ {id : Uuid} {db : Database} (but : AreAliveBut id db) where
  -- All are alive when the one that was left out has an open task while it is pending.
  pub with_last :
      ((b : Activation)
        → get_activation db id ≡ some b
        → is_pending b.status ≡ true
        → ltb 0 b.instruction_count ≡ true
        → any (is_open id) db.outbox ≡ true)
      → AreAlive db
  with_last o other b found = elim (Bool-cases (other == id)) [
    | inr e ↦ but.others other b found e
    | inl e ↦
        let same : id ≡ other = sym ((==_iff other id).0 e) in
        subst {A = Uuid} (λ x. get_activation db x ≡ some b → IsAlive db x b) same
          (λ f. record { linked = but.linked b f; has_open = o b f }) found
  ]

  -- The activation that is pending and has its reservation.
  pending-AreAlive :
      (e : Uuid → String → Uuid) (now stamp : Instant) (db' : Database) (a : Activation)
      → get_activation db id ≡ some a
      → any (is_task_of id) db.outbox ≡ true
      → finalize_pending e now stamp a db ≡ ok db'
      → AreAlive db'
  unfolding get_activation
  pending-AreAlive e now stamp db' a f has h =
      let is_id =
        (==_iff a.activation_id id).0
          (All-find (λ x. Unit {0}) (λ x. x.activation_id == id) db.activations a
            (All-each _ _ (λ x. tt)) f).1 in
      let tasks = filter (is_task_of a.activation_id) db.outbox in
      let at_id : any (is_task_of a.activation_id) db.outbox ≡ true =
        subst {A = Uuid} (λ x. any (is_task_of x) db.outbox ≡ true) (sym is_id) has in
      let some_tasks = length-filter-any (is_task_of a.activation_id) db.outbox at_id in
      elim (Bool-cases (any (λ row. not (is_over row.status)) tasks)) [
        | inl wait ↦ subst {A = Database} AreAlive (ground (arith, h, wait)) (
            with_last (λ b found p n.
              subst {A = Uuid} (λ x. any (is_open x) db.outbox ≡ true) is_id
                (sym (
                    any-filter (λ row. not (is_over row.status)) (is_task_of a.activation_id)
                      db.outbox)
                  ∙ wait)))
        | inr close ↦
            close_activation-AreAlive e now stamp tasks a db db'
              (ground (arith, h, close, some_tasks))
              (λ other b found differs.
                but.others other b found
                  (subst {A = Uuid} (λ x. (other == x) ≡ false) is_id differs))
              (but.linked a f) (subst {A = Uuid} (λ x. get_activation db x ≡ some a) (sym is_id) f)
      ]

  finalize_activation-AreAlive :
      (e : Uuid → String → Uuid) (now stamp : Instant) (db' : Database)
      → any (is_task_of id) db.outbox ≡ true
      → finalize_activation e id now stamp db ≡ ok db'
      → AreAlive db'
  unfolding finalize_activation get_activation
  finalize_activation-AreAlive e now stamp db' has h =
      elim (Option-cases (find (λ a. a.activation_id == id) db.activations)) [
        | inl n ↦
            subst {A = Database} AreAlive (ground (arith, h, n))
              (with_last (λ b found p some_instruction. absurd (ground (arith, found, n))))
        | inr (a, f) ↦ elim (Bool-cases (is_pending a.status)) [
          | inr closed ↦
              subst {A = Database} AreAlive (ground (arith, h, f, closed))
                (with_last (λ b found p n. absurd (ground (arith, found, f, closed, p))))
          | inl pending ↦
              pending-AreAlive e now stamp db' a f has
                (ground (arith, h, f, pending, but.linked a f))
        ]
      ]

-- The rows with the identifier of the task are of its kind and its activation: the task is one that
-- was claimed.
abbrev pub IsClaimed : OutboxTask → List OutboxRow → Type 0
IsClaimed task = All (λ x.
    is_event task.event_id x ≡ true
    → (is_webhook x.task.kind ≡ is_webhook task.kind) × (x.task.activation_id ≡ task.activation_id))

module _ (task : OutboxTask) (r : Resolution) (now : Instant) (max_attempts : ℕ) (db : Database)
    (claimed : IsClaimed task db.outbox) where
  abbrev written : Database
  written = record db {
    outbox = update_where (is_event task.event_id) (resolved_row r now max_attempts) db.outbox;
  }

  -- The open tasks of an activation that the task is not one of stay.
  others-kept :
      (id : Uuid)
      → ((id == task.activation_id) && not (is_webhook task.kind)) ≡ false
      → any (is_open id) db.outbox ≡ true
      → any (is_open id) written.outbox ≡ true
  others-kept id differs =
      any-update_rows (is_open id) (is_event task.event_id) (resolved_row r now max_attempts)
        db.outbox
        (All-map_pred
          (λ x.
            is_event task.event_id x ≡ true
            → (is_webhook x.task.kind ≡ is_webhook task.kind)
              × (x.task.activation_id ≡ task.activation_id))
          (λ x.
            is_event task.event_id x ≡ true
            → is_open id x ≡ true
            → is_open id (resolved_row r now max_attempts x) ≡ true)
          (λ x own mine o. absurd (
            ground (
              arith,
              own mine,
              o,
              differs,
              ==_iff x.task.activation_id id,
              ==_iff id task.activation_id,
            )))
          db.outbox claimed)

  -- With the row that the task was claimed from.
  module _ (row : OutboxRow) (f : find (is_event task.event_id) db.outbox ≡ some row) where
    row_is_claimed :
        (is_webhook row.task.kind ≡ is_webhook task.kind)
        × (row.task.activation_id ≡ task.activation_id)
    row_is_claimed =
        let (own, mine) = All-find _ (is_event task.event_id) db.outbox row claimed f in own mine

    row_written :
        find (is_event task.event_id) written.outbox ≡ some (resolved_row r now max_attempts row)
    unfolding resolved_row
    row_written =
        let mine = (All-find _ (is_event task.event_id) db.outbox row claimed f).1 in
        let moved =
          find-update_where (is_event task.event_id) (is_event task.event_id)
            (resolved_row r now max_attempts) db.outbox (λ x. refl) in
        ground (arith, moved, f, mine)

    -- A task of the activation is there still.
    row_kept :
        is_webhook task.kind ≡ false → any (is_task_of task.activation_id) written.outbox ≡ true
    unfolding resolved_row
    row_kept resource =
        any-find (is_task_of task.activation_id) (is_event task.event_id) written.outbox
          (resolved_row r now max_attempts row) row_written
          (ground
            (arith, row_is_claimed, resource, ==_iff row.task.activation_id task.activation_id))

    -- A task that is to be tried again stays open.
    retry-Grows :
        (not (is_webhook task.kind) && is_over (resolved_status r row.task.attempts max_attempts))
          ≡ false
        → Grows db written
    unfolding resolved_row
    retry-Grows plain = record {
      same = refl;
      reservations = λ id k. k;
      tasks = λ id k. elim (Bool-cases ((id == task.activation_id) && not (is_webhook task.kind))) [
        | inr differs ↦ others-kept id differs k
        | inl mine ↦
            any-find (is_open id) (is_event task.event_id) written.outbox
              (resolved_row r now max_attempts row) row_written
              (ground (
                arith,
                row_is_claimed,
                plain,
                mine,
                ==_iff row.task.activation_id id,
                ==_iff id task.activation_id,
              ))
      ];
    }

  -- What the finalization starts from.
  written-AreAliveBut : AreAlive db → AreAliveBut task.activation_id written
  unfolding get_activation
  written-AreAliveBut alive = record {
    others = λ other b found differs.
        let before = alive other b found in
        record {
          linked = before.linked;
          has_open = λ p n. others-kept other (ground (arith, differs)) (before.has_open p n);
        };
    linked = λ b found. (alive task.activation_id b found).linked;
  }

  pub resolve-AreAlive :
      (e : Uuid → String → Uuid) (stamp : Instant) (db' : Database)
      → resolve_outbox e task r now stamp max_attempts db ≡ ok db'
      → AreAlive db
      → AreAlive db'
  resolve-AreAlive e stamp db' h alive =
      elim (resolve_outbox-cases e task r now stamp max_attempts db) [
        | inl same ↦ subst {A = Database} AreAlive (ground (arith, h, same)) alive
        | inr (row, f, current, inl (kept, plain)) ↦
            subst {A = Database} AreAlive (ground (arith, h, kept))
              (Grows-AreAlive (retry-Grows row f plain) alive)
        | inr (row, f, current, inr (final, resource)) ↦
            finalize_activation-AreAlive (written-AreAliveBut alive) e now stamp db'
              (row_kept row f resource) (sym final ∙ h)
      ]
