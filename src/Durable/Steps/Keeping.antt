-- ===== src/Durable/Steps/Keeping.antt =====
-- A predicate that the changes of the outbox keep holds in every run of the transactions of
-- src/der_flex/reservations/postgres.py.
use der_flex.Prelude.{
  ℕ, ◌+◌, ◌*◌, String, ◌≡◌, inl, inr, refl, Option, none, some, List, [], ◌∷◌, ◌++◌, arith, Result,
  ok, any, Bool-cases, Option-cases, nat_eq, length,
}
use mathlib.Core.Path.{subst, sym, ◌∙◌}
use der_flex.Domain.Models.{
  second, Uuid, Instant, Reservation, Activation, ReservationStatus, is_confirmed,
}
use der_flex.Reservations.Records.{Allocation, PebcInstruction}
use der_flex.Outbox.{OutboxTask, Resolution}
use der_flex.Durable.Tables.{SqlError, OutboxRow, Database}
use der_flex.Durable.UnitOfWork.{
  is_event, new_row, enqueue_outbox, expire, save_activation, activation_for_reservation,
  get_reservation, callback_url, get_allocations,
}
use der_flex.Durable.Outbox.{
  resolve_outbox, finalize_activation, close_activation, announce, closed_activation,
  completion_task,
}
use der_flex.Durable.Activate.{
  DurableContext, of_sql, of_service, activate_durable, start_activation, enqueue_events,
  enqueue_resources, event_task, resource_task, build_instructions, pending_activation,
}
use der_flex.Durable.Steps.{
  KeepsOutbox, IsAllowed, Step, expires, saves, updates, publishes, activates, claims, resolves,
  Reach, here, next,
}
use der_flex.Durable.Steps.Outcomes.{
  bind-ok, of_sql-ok, guard-ok, save_reservation-outbox, update_reservation-outbox,
  save_activation-outbox, residual_capacity-outbox, expires-outbox, claims-outbox,
  finalize_activation-cases, resolve_outbox-cases,
}

abbrev pub committed : Database → Result SqlError Database
committed db = ok db

module _ (Q : List OutboxRow → Type 0) where
  pub along : {d d' : Database} → committed d ≡ ok d' → Q d.outbox → Q d'.outbox
  along {d} {d'} h q =
      let same : d ≡ d' = ground (arith, h) in subst {A = Database} (λ x. Q x.outbox) same q

module _ {Q : List OutboxRow → Type 0} {max_attempts : ℕ} {may_claim : Instant → Type 0}
    {may_resolve : OutboxTask → Type 0}
    (keeps : KeepsOutbox max_attempts may_claim may_resolve Q) where
  pub enqueue-keeps :
      (task : OutboxTask) (available_at stamp : Instant) (db db' : Database)
      → enqueue_outbox task available_at stamp db ≡ ok db'
      → Q db.outbox
      → Q db'.outbox
  unfolding enqueue_outbox
  enqueue-keeps task available_at stamp db db' h q =
      elim (Bool-cases (any (is_event task.event_id) db.outbox)) [
        | inl e ↦ let same : committed db ≡ ok db' = ground (arith, h, e) in along Q same q
        | inr e ↦
            let added : Database = record db {
              outbox = db.outbox ++ new_row task available_at stamp ∷ [];
            } in
            let same : committed added ≡ ok db' = ground (arith, h, e) in
            along Q same (keeps.at_enqueue task available_at stamp db.outbox e q)
      ]

module _ {Q : List OutboxRow → Type 0} {max_attempts : ℕ} {may_claim : Instant → Type 0}
    {may_resolve : OutboxTask → Type 0}
    (keeps : KeepsOutbox max_attempts may_claim may_resolve Q) where
  enqueue_events-keeps :
      (c : DurableContext) (r : Reservation) (url : Option String) (db db' : Database)
      → enqueue_events c r url db ≡ ok db'
      → Q db.outbox
      → Q db'.outbox
  enqueue_events-keeps c r none db db' h q = along Q h q
  enqueue_events-keeps c r (some url) db db' h q =
      let first = event_task c r url "activation.accepted" in
      let (d, e, f) = bind-ok (enqueue_outbox first c.now c.stamp db) _ db' h in
      enqueue-keeps keeps (event_task c r url "activation.started") c.now c.stamp d db' f
        (enqueue-keeps keeps first c.now c.stamp db d e q)

  enqueue_resources-keeps :
      (c : DurableContext) (r : Reservation) (index : ℕ) (items : List Allocation)
      (instructions : List PebcInstruction) (db db' : Database)
      → enqueue_resources c r index items instructions db ≡ ok db'
      → Q db.outbox
      → Q db'.outbox
  unfolding enqueue_resources
  enqueue_resources-keeps c r index [] instructions db db' h q = along Q h q
  enqueue_resources-keeps c r index (item ∷ items) [] db db' h q = along Q h q
  enqueue_resources-keeps c r index (item ∷ items) (instruction ∷ instructions) db db' h q =
      let task = resource_task c r index item instruction in
      let (d, e, f) = bind-ok (enqueue_outbox task c.now c.stamp db) _ db' h in
      enqueue_resources-keeps c r (index + 1) items instructions d db' f
        (enqueue-keeps keeps task c.now c.stamp db d e q)

  start_activation-keeps :
      (c : DurableContext) (id a : Uuid) (r : Reservation) (db db' : Database)
      → start_activation c id r db ≡ ok (a, db')
      → Q db.outbox
      → Q db'.outbox
  unfolding start_activation
  start_activation-keeps c id a r db db' h q =
      let items = get_allocations db id in
      let active : Reservation = record r { status = ReservationStatus.activated } in
      let (instructions, e, f) =
        bind-ok (of_service (build_instructions c r 0 items)) _ (a, db') h in
      let (d, e', f') =
        bind-ok
          (of_sql (
            save_activation (pending_activation c r (length instructions)) active items instructions
              db))
          _ (a, db') f in
      let (d', e'', f'') =
        bind-ok (of_sql (enqueue_events c active (callback_url d id) d)) _ (a, db') f' in
      let (d'', g, k) =
        bind-ok (of_sql (enqueue_resources c r 0 items instructions d')) _ (a, db') f'' in
      let k' : committed d'' ≡ ok db' = ground (arith, k) in
      let saved =
        save_activation-outbox (pending_activation c r (length instructions)) active items
          instructions db d (of_sql-ok _ d e') in
      along Q k' (
        enqueue_resources-keeps c r 0 items instructions d' d'' (of_sql-ok _ d'' g) (
          enqueue_events-keeps c active (callback_url d id) d d' (of_sql-ok _ d' e'')
            (subst Q (sym saved) q)))

  announce-keeps :
      (e : Uuid → String → Uuid) (a : Activation) (url : Option String) (now stamp : Instant)
      (db db' : Database)
      → announce e a url now stamp db ≡ ok db'
      → Q db.outbox
      → Q db'.outbox
  announce-keeps e a none now stamp db db' h q = along Q h q
  announce-keeps e a (some url) now stamp db db' h q =
      enqueue-keeps keeps (completion_task e a url) now stamp db db' h q

  close_activation-keeps :
      (e : Uuid → String → Uuid) (now stamp : Instant) (tasks : List OutboxRow) (a : Activation)
      (db db' : Database)
      → close_activation e now stamp tasks a db ≡ ok db'
      → Q db.outbox
      → Q db'.outbox
  unfolding close_activation
  close_activation-keeps e now stamp tasks a db db' h q =
      announce-keeps e (closed_activation now tasks a) (callback_url db a.reservation_id) now stamp
        _ db' (guard-ok _ _ _ db' h).1 q

  finalize_activation-keeps :
      (e : Uuid → String → Uuid) (id : Uuid) (now stamp : Instant) (db db' : Database)
      → finalize_activation e id now stamp db ≡ ok db'
      → Q db.outbox
      → Q db'.outbox
  finalize_activation-keeps e id now stamp db db' h q =
      elim (finalize_activation-cases e id now stamp db) [
        | inl same ↦ along Q (sym same ∙ h) q
        | inr (a, found, f) ↦ close_activation-keeps e now stamp _ a db db' (sym f ∙ h) q
      ]

  resolve_outbox-keeps :
      (e : Uuid → String → Uuid) (task : OutboxTask) (r : Resolution) (now stamp : Instant)
      (db db' : Database)
      → may_resolve task
      → resolve_outbox e task r now stamp max_attempts db ≡ ok db'
      → Q db.outbox
      → Q db'.outbox
  resolve_outbox-keeps e task r now stamp db db' allowed h q =
      elim (resolve_outbox-cases e task r now stamp max_attempts db) [
        | inl same ↦ along Q (sym same ∙ h) q
        | inr (row, found, current, f) ↦
            let written = keeps.at_resolve task r now row db.outbox allowed found current q in
            elim f [
              | inl (plain, rest) ↦ along Q (sym plain ∙ h) written
              | inr (final, rest) ↦
                  finalize_activation-keeps e task.activation_id now stamp _ db' (sym final ∙ h)
                    written
            ]
      ]

  activate_durable-keeps :
      (c : DurableContext) (id a : Uuid) (db db' : Database)
      → activate_durable c id db ≡ ok (a, db')
      → Q db.outbox
      → Q db'.outbox
  unfolding activate_durable
  activate_durable-keeps c id a db db' h q =
      elim (Option-cases (activation_for_reservation db id)) [
        | inr (old, e) ↦ let same : committed db ≡ ok db' = ground (arith, h, e) in along Q same q
        | inl e ↦ elim (Option-cases (get_reservation (expire c.now db) id)) [
          | inl n ↦ absurd (ground (arith, h, e, n))
          | inr (r, f) ↦ elim (Bool-cases (is_confirmed r.status)) [
            | inr bad ↦ absurd (ground (arith, h, e, f, bad))
            | inl good ↦
                start_activation-keeps c id a r (expire c.now db) db'
                  (ground (arith, h, e, f, good)) (subst Q (sym (expires-outbox db c.now refl)) q)
          ]
        ]
      ]

  pub Step-keeps :
      {e : Uuid → String → Uuid} {db db' : Database} (s : Step e max_attempts db db')
      → IsAllowed e max_attempts may_claim may_resolve s
      → Q db.outbox
      → Q db'.outbox
  Step-keeps {e} {db} {db'} (expires now h) allowed q = subst Q (sym (expires-outbox db now h)) q
  Step-keeps {e} {db} {db'} (saves r items key fingerprint callback h) allowed q =
      subst Q (sym (save_reservation-outbox r items key fingerprint callback db db' h)) q
  Step-keeps {e} {db} {db'} (updates r h) allowed q =
      subst Q (sym (update_reservation-outbox r db db' h)) q
  Step-keeps {e} {db} {db'} (publishes aggregates now h) allowed q =
      subst Q (sym (residual_capacity-outbox aggregates now db db' h)) q
  Step-keeps {e} {db} {db'} (activates c id a h) allowed q =
      activate_durable-keeps c id a db db' h q
  Step-keeps {e} {db} {db'} (claims now limit lease_seconds h) allowed q =
      subst Q (sym (claims-outbox db now limit lease_seconds h))
        (keeps.at_claim now (now + lease_seconds * second) limit db allowed q)
  Step-keeps {e} {db} {db'} (resolves task r now stamp h) allowed q =
      resolve_outbox-keeps e task r now stamp db db' allowed h q

abbrev pub IsAnyClaim : Instant → Type 0
IsAnyClaim now = Unit {0}

abbrev pub IsAnyResolution : OutboxTask → Type 0
IsAnyResolution task = Unit {0}

module _ {Q : List OutboxRow → Type 0} {max_attempts : ℕ}
    (keeps : KeepsOutbox max_attempts IsAnyClaim IsAnyResolution Q) where
  Step-IsAllowed :
      {e : Uuid → String → Uuid} {db db' : Database} (s : Step e max_attempts db db')
      → IsAllowed e max_attempts IsAnyClaim IsAnyResolution s
  Step-IsAllowed (expires now h) = tt
  Step-IsAllowed (saves r items key fingerprint callback h) = tt
  Step-IsAllowed (updates r h) = tt
  Step-IsAllowed (publishes aggregates now h) = tt
  Step-IsAllowed (activates c id a h) = tt
  Step-IsAllowed (claims now limit lease_seconds h) = tt
  Step-IsAllowed (resolves task r now stamp h) = tt

  pub Reach-keeps :
      {e : Uuid → String → Uuid} {db db' : Database}
      → Reach e max_attempts db db'
      → Q db.outbox
      → Q db'.outbox
  Reach-keeps here q = q
  Reach-keeps (next r s) q = Step-keeps keeps s (Step-IsAllowed s) (Reach-keeps r q)
