-- ===== src/Durable/Progress/Activating.antt =====
-- `_activate_durable` (src/der_flex/reservations/service.py) and the tasks of the activation it makes.
use der_flex.Prelude.{
  ◌+◌, String, ◌≡◌, inl, inr, true, false, Option, none, some, List, [], ◌∷◌, arith, ok, any,
  Bool-cases, Option-cases, nat_eq, ◌==◌, refl, ltb, length, Result, err,
}
use Prim.Native.String.{◌++◌}
use mathlib.Core.Path.{subst}
use der_flex.Domain.Models.{Uuid, Activation, Reservation, ReservationStatus, is_confirmed}
use der_flex.Reservations.Records.{Allocation, PebcInstruction, ReservationError}
use der_flex.Durable.Tables.{Database}
use der_flex.Durable.UnitOfWork.{
  is_event, get_allocations, expire, save_activation, enqueue_outbox, activation_for_reservation,
  get_reservation, callback_url, get_activation,
}
use der_flex.Durable.Activate.{
  DurableContext, activate_durable, start_activation, enqueue_events, enqueue_resources, event_task,
  resource_task, build_instructions, pending_activation, of_sql, of_service,
}
use der_flex.Durable.Steps.Outcomes.{bind-ok, of_sql-ok, save_activation-outbox}
use der_flex.Durable.Progress.{AreAlive, Grows, Grows-AreAlive, is_open, expire-Grows}
use der_flex.Durable.Progress.Resolving.{with_last}
use der_flex.Durable.Progress.Starting.{
  Grows-AreAliveBut, save_activation-only, save_activation-AreAliveBut, enqueue_events-Grows,
  enqueue_resources-Grows, enqueue-open, enqueue-fresh,
}

-- The event of the first task of the activation is known neither to the outbox nor as one of the two
-- events that are enqueued before it.
pub record IsReady (c : DurableContext) (id : Uuid) (db : Database) : Type 0 where
  pub unknown :
      any (is_event (c.event_id_of c.activation_id (c.resource_suffix 0))) db.outbox ≡ false
  pub not_accepted :
      (c.event_id_of c.activation_id ("webhook:" ++ "activation.accepted")
        == c.event_id_of c.activation_id (c.resource_suffix 0))
      ≡ false
  pub not_started :
      (c.event_id_of c.activation_id ("webhook:" ++ "activation.started")
        == c.event_id_of c.activation_id (c.resource_suffix 0))
      ≡ false

of_service-ok {ℓ} :
    {A : Type ℓ} (m : Result ReservationError A) (a : A) → of_service m ≡ ok a → m ≡ ok a
of_service-ok (ok x) a h = ground (arith)
of_service-ok (err e) a h = absurd (cc h)

-- No allocation gets no instruction.
build_instructions-some :
    (c : DurableContext) (r : Reservation) (items : List Allocation)
    (instructions : List PebcInstruction)
    → build_instructions c r 0 items ≡ ok instructions
    → ltb 0 (length instructions) ≡ true
    → ltb 0 (length items) ≡ true
unfolding build_instructions
build_instructions-some c r [] instructions h k = absurd (ground (arith, h, k))
build_instructions-some c r (item ∷ items) instructions h k = ground (arith)

enqueue_events-fresh :
    (c : DurableContext) (r : Reservation) (id : Uuid) (url : Option String) (db db' : Database)
    → IsReady c id db
    → (d : Database) → enqueue_events c r url d ≡ ok db'
    → any (is_event (c.event_id_of c.activation_id (c.resource_suffix 0))) d.outbox ≡ false
    → any (is_event (c.event_id_of c.activation_id (c.resource_suffix 0))) db'.outbox ≡ false
enqueue_events-fresh c r id none db db' ready d h fresh = ground (arith, h, fresh)
enqueue_events-fresh c r id (some url) db db' ready d h fresh =
    let first = c.event_id_of c.activation_id (c.resource_suffix 0) in
    let task = event_task c r url "activation.accepted" in
    let (x, e, f) = bind-ok (enqueue_outbox task c.now c.stamp d) _ db' h in
    enqueue-fresh first (event_task c r url "activation.started") c.now c.stamp x db'
      ready.not_started f (enqueue-fresh first task c.now c.stamp d x ready.not_accepted e fresh)

enqueue_resources-open :
    (c : DurableContext) (r : Reservation) (items : List Allocation)
    (instructions : List PebcInstruction) (db db' : Database)
    → ltb 0 (length items) ≡ true
    → ltb 0 (length instructions) ≡ true
    → any (is_event (c.event_id_of c.activation_id (c.resource_suffix 0))) db.outbox ≡ false
    → enqueue_resources c r 0 items instructions db ≡ ok db'
    → any (is_open c.activation_id) db'.outbox ≡ true
unfolding enqueue_resources
enqueue_resources-open c r [] instructions db db' i j fresh h = absurd (cc i)
enqueue_resources-open c r (item ∷ items) [] db db' i j fresh h = absurd (cc j)
enqueue_resources-open c r (item ∷ items) (instruction ∷ instructions) db db' i j fresh h =
    let task = resource_task c r 0 item instruction in
    let (d, e, f) = bind-ok (enqueue_outbox task c.now c.stamp db) _ db' h in
    (enqueue_resources-Grows c r (0 + 1) items instructions d db' f).tasks c.activation_id
      (enqueue-open task c.now c.stamp db d fresh refl e)

-- The enqueued tasks leave the saved activation, so what is found for it counts its instructions.
counted :
    (c : DurableContext) (r : Reservation) (instructions : List PebcInstruction)
    (d d' d'' : Database) (b : Activation)
    → Grows d d'
    → Grows d' d''
    → (get_activation d c.activation_id ≡ some b → b ≡ pending_activation c r (length instructions))
    → get_activation d'' c.activation_id ≡ some b
    → ltb 0 b.instruction_count ≡ true
    → ltb 0 (length instructions) ≡ true
unfolding get_activation
counted c r instructions d d' d'' b g h only found n =
    subst {A = Activation} (λ x. ltb 0 x.instruction_count ≡ true)
      (only (ground (arith, found, g.same, h.same))) n

start_activation-AreAlive :
    (c : DurableContext) (id a : Uuid) (r : Reservation) (db db' : Database)
    → IsReady c id db
    → start_activation c id r db ≡ ok (a, db')
    → AreAlive db
    → AreAlive db'
unfolding start_activation
start_activation-AreAlive c id a r db db' ready h alive =
    let items = get_allocations db id in
    let active : Reservation = record r { status = ReservationStatus.activated } in
    let (instructions, e, f) = bind-ok (of_service (build_instructions c r 0 items)) _ (a, db') h in
    let pending = pending_activation c r (length instructions) in
    let (d, e', f') =
      bind-ok (of_sql (save_activation pending active items instructions db)) _ (a, db') f in
    let (d', e'', f'') =
      bind-ok (of_sql (enqueue_events c active (callback_url d id) d)) _ (a, db') f' in
    let (d'', g, k) =
      bind-ok (of_sql (enqueue_resources c r 0 items instructions d')) _ (a, db') f'' in
    let fresh : any (is_event (c.event_id_of c.activation_id (c.resource_suffix 0))) d.outbox
        ≡ false =
      ground (
        arith,
        ready.unknown,
        save_activation-outbox pending active items instructions db d (of_sql-ok _ d e'),
      ) in
    let has : ltb 0 (length instructions) ≡ true → any (is_open c.activation_id) d''.outbox ≡ true =
      λ k.
        enqueue_resources-open c r items instructions d' d''
          (build_instructions-some c r items instructions (of_service-ok _ _ e) k) k
          (enqueue_events-fresh c active id (callback_url d id) db d' ready d (of_sql-ok _ d' e'')
            fresh)
          (of_sql-ok _ d'' g) in
    let announces = enqueue_events-Grows c active (callback_url d id) d d' (of_sql-ok _ d' e'') in
    let enqueues = enqueue_resources-Grows c r 0 items instructions d' d'' (of_sql-ok _ d'' g) in
    let saved =
      save_activation-AreAliveBut pending active items instructions db d (of_sql-ok _ d e') alive in
    let announced =
      Grows-AreAliveBut
        (enqueue_events-Grows c active (callback_url d id) d d' (of_sql-ok _ d' e'')) saved in
    let enqueued =
      Grows-AreAliveBut
        (enqueue_resources-Grows c r 0 items instructions d' d'' (of_sql-ok _ d'' g)) announced in
    subst {A = Database} AreAlive (ground (arith, k)) (
      with_last enqueued (λ b found p n. has (
        counted c r instructions d d' d'' b announces enqueues
          (save_activation-only pending active items instructions db d b (of_sql-ok _ d e')) found
          n)))

IsReady-expire :
    (c : DurableContext) (id : Uuid) (db : Database)
    → IsReady c id db
    → IsReady c id (expire c.now db)
unfolding expire get_allocations
IsReady-expire c id db ready = record {
  unknown = ready.unknown;
  not_accepted = ready.not_accepted;
  not_started = ready.not_started;
}

pub activate_durable-AreAlive :
    (c : DurableContext) (id a : Uuid) (db db' : Database)
    → IsReady c id db
    → activate_durable c id db ≡ ok (a, db')
    → AreAlive db
    → AreAlive db'
unfolding activate_durable
activate_durable-AreAlive c id a db db' ready h alive =
    elim (Option-cases (activation_for_reservation db id)) [
      | inr (old, e) ↦ subst {A = Database} AreAlive (ground (arith, h, e)) alive
      | inl e ↦ elim (Option-cases (get_reservation (expire c.now db) id)) [
        | inl n ↦ absurd (ground (arith, h, e, n))
        | inr (r, f) ↦ elim (Bool-cases (is_confirmed r.status)) [
          | inr bad ↦ absurd (ground (arith, h, e, f, bad))
          | inl good ↦
              start_activation-AreAlive c id a r (expire c.now db) db'
                (IsReady-expire c id db ready) (ground (arith, h, e, f, good))
                (Grows-AreAlive (expire-Grows c.now db) alive)
        ]
      ]
    ]
