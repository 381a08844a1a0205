-- ===== src/Durable/Refinement/Activations.antt =====
-- `save_activation` of both backends (src/der_flex/reservations/postgres.py,
-- src/der_flex/reservations/backend.py) and the reads of an activation.
use der_flex.Prelude.Dict
use der_flex.Prelude.{
  ◌≡◌, inl, inr, Bool, true, false, none, some, List, [], ◌∷◌, ◌++◌, arith, any, any-append,
  Bool-cases, Option-cases, ==_iff, nat_eq, ◌==◌, refl, ◌||◌,
}
use mathlib.Core.Path.{subst, sym}
use der_flex.Prelude.Dict.{get-set}
use der_flex.Prelude.Tables.{find, find-append}
use der_flex.Domain.Models.{Uuid, Activation}
use der_flex.Reservations.Records.{PebcInstruction}
use der_flex.Reservations.Backend
use der_flex.Durable.Tables.{Database}
use der_flex.Durable.UnitOfWork
use der_flex.Durable.Refinement.{AgreesOnActivations}

pub agree-along :
    {db db' : Database} {b b' : Backend.Backend}
    → AgreesOnActivations db b
    → db'.activations ≡ db.activations
    → b'.activations ≡ b.activations
    → b'.activation_by_reservation ≡ b.activation_by_reservation
    → AgreesOnActivations db' b'
unfolding UnitOfWork.get_activation UnitOfWork.activation_for_reservation Backend.get_activation
    Backend.activation_for_reservation
agree-along {db} {db'} {b} {b'} same rows known index = record {
  activations = λ id. rw (rows, known) (same.activations id);
  for_reservation = λ id. rw (rows, known, index) (same.for_reservation id);
  indexed = λ id k h. rw rows (same.indexed id k (rw index at h));
}

abbrev pub clashes : Activation → Activation → Bool
clashes a x = x.activation_id == a.activation_id || x.reservation_id == a.reservation_id

-- Without a clash the table has neither the identifier nor the reservation.
absent :
    (a : Activation) (rows : List Activation)
    → any (clashes a) rows ≡ false
    → (any (λ x. x.activation_id == a.activation_id) rows ≡ false)
      × (find (λ x. x.activation_id == a.activation_id) rows ≡ none)
      × (find (λ x. x.reservation_id == a.reservation_id) rows ≡ none)
absent a [] h = (refl, refl, refl)
absent a (x ∷ rows) h =
    let (p, q, r) = absent a rows (ground (arith, h)) in
    (ground (arith, h, p), ground (arith, h, q), ground (arith, h, r))

-- The tables of the activations in memory after a `save_activation`.
abbrev pub inserted : Activation → List PebcInstruction → Backend.Backend → Backend.Backend
inserted a instructions b = record b {
  instructions = Dict.set a.activation_id instructions b.instructions;
  activations = Dict.set a.activation_id a b.activations;
  activation_by_reservation = Dict.set a.reservation_id a.activation_id b.activation_by_reservation;
}

module _ (a : Activation) (instructions : List PebcInstruction) (db db' : Database)
    (b : Backend.Backend) (same : AgreesOnActivations db b)
    (rows : db'.activations ≡ db.activations ++ a ∷ [])
    (unique : any (clashes a) db.activations ≡ false) where
  inserted-activations :
      (id : Uuid)
      → UnitOfWork.get_activation db' id ≡ Backend.get_activation (inserted a instructions b) id
  unfolding UnitOfWork.get_activation Backend.get_activation
  inserted-activations id =
      let split = find-append (λ x. x.activation_id == id) db.activations (a ∷ []) in
      let set = get-set a.activation_id id a b.activations in
      elim (Bool-cases (a.activation_id == id)) [
        | inl e ↦
            let gone : find (λ x. x.activation_id == id) db.activations ≡ none =
              subst {A = Uuid} (λ i. find (λ x. x.activation_id == i) db.activations ≡ none)
                ((==_iff a.activation_id id).0 e) (absent a db.activations unique).1 in
            ground (arith, rows, split, set, gone, e)
        | inr e ↦ elim (Option-cases (find (λ x. x.activation_id == id) db.activations)) [
          | inl n ↦ ground (arith, rows, split, set, e, n, same.activations id)
          | inr (x, f) ↦ ground (arith, rows, split, set, e, f, same.activations id)
        ]
      ]

  other_known :
      (id known : Uuid)
      → Dict.get id b.activation_by_reservation ≡ some known
      → (a.activation_id == known) ≡ false
  other_known id known h = elim (Bool-cases (a.activation_id == known)) [
    | inr e ↦ e
    | inl e ↦
        let there =
          subst {A = Uuid} (λ i. any (λ x. x.activation_id == i) db.activations ≡ true)
            (sym ((==_iff a.activation_id known).0 e)) (same.indexed id known h) in
        absurd (cc (there, (absent a db.activations unique).0))
  ]

  inserted-for_reservation :
      (id : Uuid)
      → UnitOfWork.activation_for_reservation db' id
        ≡ Backend.activation_for_reservation (inserted a instructions b) id
  unfolding UnitOfWork.activation_for_reservation Backend.activation_for_reservation
  inserted-for_reservation id =
      let split = find-append (λ x. x.reservation_id == id) db.activations (a ∷ []) in
      let set = get-set a.reservation_id id a.activation_id b.activation_by_reservation in
      elim (Bool-cases (a.reservation_id == id)) [
        | inl e ↦
            let gone : find (λ x. x.reservation_id == id) db.activations ≡ none =
              subst {A = Uuid} (λ i. find (λ x. x.reservation_id == i) db.activations ≡ none)
                ((==_iff a.reservation_id id).0 e) (absent a db.activations unique).2 in
            ground (
              arith,
              rows,
              split,
              set,
              gone,
              e,
              get-set a.activation_id a.activation_id a b.activations,
              ==_iff a.activation_id a.activation_id,
            )
        | inr e ↦
            let plain : UnitOfWork.activation_for_reservation db' id
                ≡ UnitOfWork.activation_for_reservation db id =
              elim (Option-cases (find (λ x. x.reservation_id == id) db.activations)) [
                | inl n ↦ ground (arith, rows, split, e, n)
                | inr (x, f) ↦ ground (arith, rows, split, e, f)
              ] in
            elim (Option-cases (Dict.get id b.activation_by_reservation)) [
              | inl n ↦ ground (arith, plain, same.for_reservation id, n, set, e)
              | inr (k, f) ↦ ground (
                arith,
                plain,
                same.for_reservation id,
                f,
                set,
                e,
                get-set a.activation_id k a b.activations,
                other_known id k f,
              )
            ]
      ]

  inserted-indexed :
      (id known : Uuid)
      → Dict.get id (Dict.set a.reservation_id a.activation_id b.activation_by_reservation)
        ≡ some known
      → any (λ x. x.activation_id == known) db'.activations ≡ true
  inserted-indexed id known h =
      let set = get-set a.reservation_id id a.activation_id b.activation_by_reservation in
      let split = any-append (λ x. x.activation_id == known) db.activations (a ∷ []) in
      elim (Bool-cases (a.reservation_id == id)) [
        | inl e ↦ ground (arith, rows, set, h, e, split, ==_iff a.activation_id known)
        | inr e ↦
            let old = same.indexed id known (ground (arith, set, h, e)) in
            ground (arith, rows, split, old)
      ]

  pub inserted-Agrees : AgreesOnActivations db' (inserted a instructions b)
  inserted-Agrees = record {
    activations = inserted-activations;
    for_reservation = inserted-for_reservation;
    indexed = inserted-indexed;
  }
