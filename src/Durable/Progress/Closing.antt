-- ===== src/Durable/Progress/Closing.antt =====
-- The end of a finalization, and the activations after it (src/der_flex/reservations/postgres.py).
use der_flex.Prelude.{
  String, ◌≡◌, ◌⊎◌, inl, inr, true, false, none, some, List, arith, ok, any, Bool-cases,
  Option-cases, nat_eq, ◌==◌, ==_iff, refl,
}
use mathlib.Core.Path.{subst}
use der_flex.Prelude.Tables.{
  find, update_where, any-update_where, find-update_where, All-find, All-each,
}
use der_flex.Domain.Models.{Uuid, Instant, Power, Activation, ReservationStatus}
use der_flex.Durable.Tables.{OutboxRow, AllocationRow, Database, is_pending}
use der_flex.Durable.UnitOfWork.{is_reservation, get_activation, callback_url}
use der_flex.Durable.Outbox.{
  close_activation, closed_activation, final_row, announce, completion_task,
}
use der_flex.Durable.Steps.Outcomes.{guard-ok}
use der_flex.Durable.Progress.{IsAlive, AreAlive, Grows, Grows-AreAlive, enqueue-Grows, Option}

pub Grows-refl : (db : Database) → Grows db db
Grows-refl db = record { same = refl; reservations = λ id h. h; tasks = λ id h. h }

announce-Grows :
    (e : Uuid → String → Uuid) (a : Activation) (url : Option String) (now stamp : Instant)
    (db db' : Database)
    → announce e a url now stamp db ≡ ok db'
    → Grows db db'
announce-Grows e a none now stamp db db' h =
    let same : db ≡ db' = ground (arith, h) in subst (Grows db) same (Grows-refl db)
announce-Grows e a (some url) now stamp db db' h =
    enqueue-Grows (completion_task e a url) now stamp db db' h

-- The tables in which the activations with the identifier of `a` are closed.
abbrev closed_tables :
    Instant
    → List OutboxRow
    → Activation
    → ReservationStatus
    → Power
    → List AllocationRow
    → Database
    → Database
closed_tables now tasks a status power kept db = record db {
  activations =
      update_where (λ x. x.activation_id == a.activation_id) (closed_activation now tasks)
        db.activations;
  reservations =
      update_where (is_reservation a.reservation_id) (final_row status power) db.reservations;
  allocations = kept;
}

closed-is_pending :
    (now : Instant) (tasks : List OutboxRow) (a : Activation)
    → is_pending (closed_activation now tasks a).status ≡ false
closed-is_pending now tasks a = ground (arith)

module _ (now : Instant) (tasks : List OutboxRow) (a : Activation) (status : ReservationStatus)
    (power : Power) (kept : List AllocationRow) (db : Database) where
  reservations-kept :
      (id : Uuid)
      → any (is_reservation id) db.reservations ≡ true
      → any (is_reservation id) (closed_tables now tasks a status power kept db).reservations ≡ true
  reservations-kept id h =
      any-update_where (is_reservation id) (is_reservation a.reservation_id)
        (final_row status power) db.reservations (λ row c o. o) h

  -- The activation of an identifier: the one that is closed, or one that is left.
  closed-found :
      (id : Uuid) (b : Activation)
      → get_activation (closed_tables now tasks a status power kept db) id ≡ some b
      → (x : Activation) × (get_activation db id ≡ some x)
        × (x.activation_id ≡ id)
        × ((((id == a.activation_id) ≡ true) × (b ≡ closed_activation now tasks x))
            ⊎ (((id == a.activation_id) ≡ false) × (b ≡ x)))
  unfolding get_activation
  closed-found id b h =
      let moved =
        find-update_where (λ x. x.activation_id == id) (λ x. x.activation_id == a.activation_id)
          (closed_activation now tasks) db.activations (λ x. refl) in
      elim (Option-cases (find (λ x. x.activation_id == id) db.activations)) [
        | inl n ↦ absurd (ground (arith, moved, h, n))
        | inr (x, f) ↦
            let is_id =
              (All-find (λ x. Unit {0}) (λ x. x.activation_id == id) db.activations x
                (All-each _ _ (λ x. tt)) f).1 in
            (
              x,
              f,
              (==_iff x.activation_id id).0 is_id,
              elim (Bool-cases (id == a.activation_id)) [
                | inl e ↦ inl (e, ground (arith, moved, h, f, e, is_id, ==_iff x.activation_id id))
                | inr e ↦ inr (e, ground (arith, moved, h, f, e, is_id, ==_iff x.activation_id id))
              ],
            )
      ]

  -- Each is alive: the closed one is not pending, and another is untouched.
  closed_tables-AreAlive :
      ((id : Uuid) (b : Activation)
        → get_activation db id ≡ some b
        → (id == a.activation_id) ≡ false
        → IsAlive db id b)
      → any (is_reservation a.reservation_id) db.reservations ≡ true
      → get_activation db a.activation_id ≡ some a
      → AreAlive (closed_tables now tasks a status power kept db)
  closed_tables-AreAlive others linked found id b h =
      let (x, f, is_id, which) = closed-found id b h in
      elim which [
        | inl (e, same) ↦ record {
          linked =
              reservations-kept b.reservation_id
                (ground (arith, linked, found, f, same, e, ==_iff id a.activation_id));
          has_open = λ p n. absurd (ground (arith, p, same, closed-is_pending now tasks x));
        }
        | inr (e, same) ↦
            let before = others id x f e in
            record {
              linked = reservations-kept b.reservation_id (ground (arith, before.linked, same));
              has_open = λ p n. before.has_open (ground (arith, p, same)) (ground (arith, n, same));
            }
      ]

-- The activation is alive in the closed tables: either it is the one that is closed, or it is
-- untouched.
pub close_activation-AreAlive :
    (e : Uuid → String → Uuid) (now stamp : Instant) (tasks : List OutboxRow) (a : Activation)
    (db db' : Database)
    → close_activation e now stamp tasks a db ≡ ok db'
    → ((id : Uuid) (b : Activation)
        → get_activation db id ≡ some b
        → (id == a.activation_id) ≡ false
        → IsAlive db id b)
    → any (is_reservation a.reservation_id) db.reservations ≡ true
    → get_activation db a.activation_id ≡ some a
    → AreAlive db'
unfolding close_activation
close_activation-AreAlive e now stamp tasks a db db' h others linked found =
    Grows-AreAlive
      (announce-Grows e (closed_activation now tasks a) (callback_url db a.reservation_id) now stamp
        _ db' (guard-ok _ _ _ db' h).1)
      (closed_tables-AreAlive now tasks a _ _ _ db others linked found)
