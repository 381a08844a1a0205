-- ===== src/Durable/Progress/Starting.antt =====
-- The writes of `_activate_durable` (src/der_flex/reservations/service.py), and the activations after
-- each.
use der_flex.Prelude.{
  ℕ, ◌+◌, String, ◌≡◌, ◌⊎◌, inl, inr, true, false, Option, none, some, List, [], ◌∷◌, ◌++◌, arith,
  ok, any, Option-cases, nat_eq, ◌==◌, ==_iff, ◌||◌, any-append,
}
use mathlib.Core.Path.{subst, ◌∙◌, refl}
use der_flex.Prelude.Tables.{find, find-append}
use der_flex.Domain.Models.{Uuid, Instant, Activation, Reservation}
use der_flex.Reservations.Records.{Allocation, PebcInstruction}
use der_flex.Outbox.{OutboxTask, is_webhook}
use der_flex.Durable.Tables.{Database}
use der_flex.Durable.UnitOfWork.{
  is_reservation, is_event, new_row, get_activation, insert_activation, replace_allocations,
  save_activation, update_reservation, enqueue_outbox,
}
use der_flex.Durable.Activate.{
  DurableContext, enqueue_events, enqueue_resources, event_task, resource_task,
}
use der_flex.Durable.Steps.Outcomes.{bind-ok}
use der_flex.Durable.Progress.{
  AreAlive, Grows, Grows-AreAlive, is_open, enqueue-Grows, update_reservation-Grows,
}
use der_flex.Durable.Progress.Closing.{Grows-refl}
use der_flex.Durable.Progress.Resolving.{AreAliveBut}

Grows-trans : {a b c : Database} → Grows a b → Grows b c → Grows a c
Grows-trans g h = record {
  same = h.same ∙ g.same;
  reservations = λ id k. h.reservations id (g.reservations id k);
  tasks = λ id k. h.tasks id (g.tasks id k);
}

replace_allocations-Grows :
    (id : Uuid) (items : List Allocation) (db db' : Database)
    → replace_allocations id items db ≡ ok db'
    → Grows db db'
unfolding replace_allocations
replace_allocations-Grows id items db db' h = record {
  same = ground (arith, h);
  reservations = λ other k. ground (arith, h, k);
  tasks = λ other k. ground (arith, h, k);
}

pub Grows-AreAliveBut :
    {id : Uuid} {db db' : Database} → Grows db db' → AreAliveBut id db → AreAliveBut id db'
unfolding get_activation
Grows-AreAliveBut {id} {db} {db'} g but = record {
  others = λ other b found differs.
      let before = but.others other b (ground (arith, found, g.same)) differs in
      record {
        linked = g.reservations b.reservation_id before.linked;
        has_open = λ p n. g.tasks other (before.has_open p n);
      };
  linked =
      λ b found. g.reservations b.reservation_id (but.linked b (ground (arith, found, g.same)));
}

-- What an insertion that succeeds has found and has written.
record IsInserted (a : Activation) (db db' : Database) : Type 0 where
  activations : db'.activations ≡ db.activations ++ a ∷ []
  reservations : db'.reservations ≡ db.reservations
  outbox : db'.outbox ≡ db.outbox
  unique :
      any
        (λ x. x.activation_id == a.activation_id || x.reservation_id == a.reservation_id)
        db.activations
      ≡ false
  parent : any (is_reservation a.reservation_id) db.reservations ≡ true

insert_activation-IsInserted :
    (a : Activation) (items : List PebcInstruction) (db db' : Database)
    → insert_activation a items db ≡ ok db'
    → IsInserted a db db'
unfolding insert_activation
insert_activation-IsInserted a items db db' h = record {
  activations = ground (arith, h);
  reservations = ground (arith, h);
  outbox = ground (arith, h);
  unique = ground (arith, h);
  parent = ground (arith, h);
}

-- An activation of the table after the insertion: one of before, or the inserted one.
inserted-found :
    (a : Activation) (db db' : Database) (id : Uuid) (b : Activation)
    → IsInserted a db db'
    → get_activation db' id ≡ some b
    → (get_activation db id ≡ some b) ⊎ ((b ≡ a) × (id ≡ a.activation_id))
unfolding get_activation
inserted-found a db db' id b new h =
    let split = find-append (λ x. x.activation_id == id) db.activations (a ∷ []) in
    elim (Option-cases (find (λ x. x.activation_id == id) db.activations)) [
      | inr (x, f) ↦ inl (ground (arith, h, f, split, new.activations))
      | inl n ↦ inr (
        ground (arith, h, n, split, new.activations, ==_iff a.activation_id id),
        ground (arith, h, n, split, new.activations, ==_iff a.activation_id id),
      )
    ]

inserted-AreAliveBut :
    (a : Activation) (db db' : Database)
    → IsInserted a db db'
    → AreAlive db
    → AreAliveBut a.activation_id db'
inserted-AreAliveBut a db db' new alive = record {
  others = λ other b found differs. elim (inserted-found a db db' other b new found) [
    | inr (same, own) ↦ absurd (ground (arith, own, differs, ==_iff other a.activation_id))
    | inl old ↦
        let before = alive other b old in
        record {
          linked = ground (arith, before.linked, new.reservations);
          has_open = λ p n. ground (arith, before.has_open p n, new.outbox);
        }
  ];
  linked = λ b found. elim (inserted-found a db db' a.activation_id b new found) [
    | inr (same, own) ↦ ground (arith, same, new.parent, new.reservations)
    | inl old ↦ ground (arith, (alive a.activation_id b old).linked, new.reservations)
  ];
}

pub save_activation-AreAliveBut :
    (a : Activation) (r : Reservation) (items : List Allocation)
    (instructions : List PebcInstruction) (db db' : Database)
    → save_activation a r items instructions db ≡ ok db'
    → AreAlive db
    → AreAliveBut a.activation_id db'
unfolding save_activation
save_activation-AreAliveBut a r items instructions db db' h alive =
    let (d, e, f) = bind-ok (replace_allocations r.reservation_id items db) _ db' h in
    let (d', e', f') = bind-ok (update_reservation r d) _ db' f in
    inserted-AreAliveBut a d' db' (insert_activation-IsInserted a instructions d' db' f') (
      Grows-AreAlive (update_reservation-Grows r d d' e')
        (Grows-AreAlive (replace_allocations-Grows r.reservation_id items db d e) alive))

none-found :
    (a : Activation) (xs : List Activation)
    → any (λ x. x.activation_id == a.activation_id || x.reservation_id == a.reservation_id) xs
      ≡ false
    → find (λ x. x.activation_id == a.activation_id) xs ≡ none
none-found a [] h = refl
none-found a (x ∷ xs) h = ground (arith, h, none-found a xs (ground (arith, h)))

-- What the table has for the identifier of the activation that is saved is that activation.
pub save_activation-only :
    (a : Activation) (r : Reservation) (items : List Allocation)
    (instructions : List PebcInstruction) (db db' : Database) (b : Activation)
    → save_activation a r items instructions db ≡ ok db'
    → get_activation db' a.activation_id ≡ some b
    → b ≡ a
unfolding save_activation get_activation
save_activation-only a r items instructions db db' b h found =
    let (d, e, f) = bind-ok (replace_allocations r.reservation_id items db) _ db' h in
    let (d', e', f') = bind-ok (update_reservation r d) _ db' f in
    let new = insert_activation-IsInserted a instructions d' db' f' in
    elim (inserted-found a d' db' a.activation_id b new found) [
      | inr (same, own) ↦ same
      | inl old ↦ absurd (cc (old, none-found a d'.activations new.unique))
    ]

pub enqueue_events-Grows :
    (c : DurableContext) (r : Reservation) (url : Option String) (db db' : Database)
    → enqueue_events c r url db ≡ ok db'
    → Grows db db'
enqueue_events-Grows c r none db db' h =
    subst {A = Database} (Grows db) (ground (arith, h)) (Grows-refl db)
enqueue_events-Grows c r (some url) db db' h =
    let first = event_task c r url "activation.accepted" in
    let (d, e, f) = bind-ok (enqueue_outbox first c.now c.stamp db) _ db' h in
    Grows-trans (enqueue-Grows first c.now c.stamp db d e)
      (enqueue-Grows (event_task c r url "activation.started") c.now c.stamp d db' f)

pub enqueue_resources-Grows :
    (c : DurableContext) (r : Reservation) (index : ℕ) (items : List Allocation)
    (instructions : List PebcInstruction) (db db' : Database)
    → enqueue_resources c r index items instructions db ≡ ok db'
    → Grows db db'
unfolding enqueue_resources
enqueue_resources-Grows c r index [] instructions db db' h =
    subst {A = Database} (Grows db) (ground (arith, h)) (Grows-refl db)
enqueue_resources-Grows c r index (item ∷ items) [] db db' h =
    subst {A = Database} (Grows db) (ground (arith, h)) (Grows-refl db)
enqueue_resources-Grows c r index (item ∷ items) (instruction ∷ instructions) db db' h =
    let task = resource_task c r index item instruction in
    let (d, e, f) = bind-ok (enqueue_outbox task c.now c.stamp db) _ db' h in
    Grows-trans (enqueue-Grows task c.now c.stamp db d e)
      (enqueue_resources-Grows c r (index + 1) items instructions d db' f)

-- A task of a new event is open when it is a resource's.
pub enqueue-open :
    (task : OutboxTask) (available_at stamp : Instant) (db db' : Database)
    → any (is_event task.event_id) db.outbox ≡ false
    → is_webhook task.kind ≡ false
    → enqueue_outbox task available_at stamp db ≡ ok db'
    → any (is_open task.activation_id) db'.outbox ≡ true
unfolding enqueue_outbox
enqueue-open task available_at stamp db db' fresh kind h = ground (
  arith,
  h,
  fresh,
  kind,
  ==_iff task.activation_id task.activation_id,
  any-append (is_open task.activation_id) db.outbox (new_row task available_at stamp ∷ []),
)

-- A task of another event does not make the event known.
pub enqueue-fresh :
    (id : Uuid) (task : OutboxTask) (available_at stamp : Instant) (db db' : Database)
    → (task.event_id == id) ≡ false
    → enqueue_outbox task available_at stamp db ≡ ok db'
    → any (is_event id) db.outbox ≡ false
    → any (is_event id) db'.outbox ≡ false
unfolding enqueue_outbox
enqueue-fresh id task available_at stamp db db' apart h fresh = ground (
  arith,
  h,
  fresh,
  apart,
  any-append (is_event id) db.outbox (new_row task available_at stamp ∷ []),
)
