-- ===== src/Durable/Refinement/Reads.antt =====
-- What the reads of `PostgresReservationUnitOfWork` (src/der_flex/reservations/postgres.py) return after
-- a write that succeeds.
use der_flex.Reservations.Records.{Allocation}
use der_flex.Prelude.{
  String, ◌≡◌, inl, inr, Bool, true, false, none, List, [], ◌∷◌, arith, any, map, Option-cases,
  Bool-cases, ==_iff, nat_eq, string_eq, ◌==◌, refl, ok, if◌then◌else◌, Option, some, ◌||◌,
}
use mathlib.Core.Option
use mathlib.Core.Path.{subst}
use der_flex.Prelude.Tables.{find, find-update_where, find-append}
use der_flex.Domain.Models.{Uuid, Instant, Reservation}
use der_flex.Domain.Equality.{cell_eq}
use der_flex.Reservations.Backend.{expire_one}
use der_flex.Durable.Tables.{Database, ReservationRow}
use der_flex.Durable.UnitOfWork.{
  is_reservation, expire, expire_row, get_reservation, get_idempotency, save_reservation,
  update_reservation, replace_allocations, set_outcome,
}

module _ {ℓ κ} {A : Type ℓ} {B : Type κ} where
  find-map :
      (p : B → Bool) (q : A → Bool) (f : A → B) (xs : List A)
      → ((x : A) → p (f x) ≡ q x)
      → find p (map f xs) ≡ Option.map f (find q xs)
  find-map p q f [] h = refl
  find-map p q f (x ∷ xs) h = ground (arith, h x, find-map p q f xs h)

module _ {ℓ} {A : Type ℓ} where
  find-none :
      (p q : A → Bool) (xs : List A)
      → ((x : A) → p x ≡ true → q x ≡ true)
      → any q xs ≡ false
      → find p xs ≡ none
  find-none p q [] h k = refl
  find-none p q (x ∷ xs) h k = ground (arith, h x, k, find-none p q xs h)

pub get_reservation-expire :
    (now : Instant) (db : Database) (id : Uuid)
    → get_reservation (expire now db) id ≡ Option.map (expire_one now) (get_reservation db id)
unfolding get_reservation expire expire_row expire_one
get_reservation-expire now db id =
    let moved =
      find-map (is_reservation id) (is_reservation id) (expire_row now) db.reservations
        (λ row. ground (arith)) in
    elim (Option-cases (find (is_reservation id) db.reservations)) [
      | inl n ↦ ground (arith, moved, n)
      | inr (row, f) ↦ ground (arith, moved, f)
    ]

pub get_idempotency-expire :
    (now : Instant) (db : Database) (key : String)
    → get_idempotency (expire now db) key ≡ get_idempotency db key
unfolding get_idempotency expire expire_row expire_one
get_idempotency-expire now db key =
    let moved =
      find-map (λ row. row.idempotency_key == key) (λ row. row.idempotency_key == key)
        (expire_row now) db.reservations (λ row. refl) in
    elim (Option-cases (find (λ row. row.idempotency_key == key) db.reservations)) [
      | inl n ↦ ground (arith, moved, n)
      | inr (row, f) ↦ ground (arith, moved, f)
    ]

-- The reads of a reservation that is saved.
pub get_reservation-save :
    (r : Reservation) (items : List Allocation) (key fingerprint : String)
    (callback : Option String) (db db' : Database) (id : Uuid)
    → save_reservation r items key fingerprint callback db ≡ ok db'
    → get_reservation db' id ≡ (if r.reservation_id == id then some r else get_reservation db id)
unfolding get_reservation save_reservation replace_allocations
get_reservation-save r items key fingerprint callback db db' id h =
    let added : ReservationRow = record {
      reservation = r;
      idempotency_key = key;
      request_fingerprint = fingerprint;
      callback_url = callback;
    } in
    let split = find-append (is_reservation id) db.reservations (added ∷ []) in
    let unknown =
      find-none (is_reservation r.reservation_id)
        (λ row. is_reservation r.reservation_id row || row.idempotency_key == key) db.reservations
        (λ row e. ground (arith, e)) (ground (arith, h)) in
    elim (Bool-cases (r.reservation_id == id)) [
      | inl e ↦
          let same = (==_iff r.reservation_id id).0 e in
          let gone =
            subst {A = Uuid} (λ x. find (is_reservation x) db.reservations ≡ none) same unknown in
          ground (arith, h, split, gone, e)
      | inr e ↦ elim (Option-cases (find (is_reservation id) db.reservations)) [
        | inl n ↦ ground (arith, h, split, n, e)
        | inr (row, f) ↦ ground (arith, h, split, f, e)
      ]
    ]

pub get_idempotency-save :
    (r : Reservation) (items : List Allocation) (key fingerprint : String)
    (callback : Option String) (db db' : Database) (other : String)
    → save_reservation r items key fingerprint callback db ≡ ok db'
    → get_idempotency db' other
      ≡ (if key == other then some (fingerprint, r.reservation_id) else get_idempotency db other)
unfolding get_idempotency save_reservation replace_allocations
get_idempotency-save r items key fingerprint callback db db' other h =
    let added : ReservationRow = record {
      reservation = r;
      idempotency_key = key;
      request_fingerprint = fingerprint;
      callback_url = callback;
    } in
    let split = find-append (λ row. row.idempotency_key == other) db.reservations (added ∷ []) in
    let unknown =
      find-none (λ row. row.idempotency_key == key)
        (λ row. is_reservation r.reservation_id row || row.idempotency_key == key) db.reservations
        (λ row e. ground (arith, e)) (ground (arith, h)) in
    elim (Bool-cases (key == other)) [
      | inl e ↦
          let same = (==_iff key other).0 e in
          let gone =
            subst {A = String} (λ x. find (λ row. row.idempotency_key == x) db.reservations ≡ none)
              same unknown in
          ground (arith, h, split, gone, e)
      | inr e ↦ elim (Option-cases (find (λ row. row.idempotency_key == other) db.reservations)) [
        | inl n ↦ ground (arith, h, split, n, e)
        | inr (row, f) ↦ ground (arith, h, split, f, e)
      ]
    ]

pub get_reservation-update :
    (r : Reservation) (db db' : Database) (id : Uuid)
    → update_reservation r db ≡ ok db'
    → get_reservation db' id
      ≡ Option.map
          (λ x.
            if x.reservation_id == r.reservation_id
            then record x { status = r.status; allocated_power_kw = r.allocated_power_kw }
            else x)
          (get_reservation db id)
unfolding get_reservation update_reservation
get_reservation-update r db db' id h =
    let moved =
      find-update_where (is_reservation id) (is_reservation r.reservation_id) (set_outcome r)
        db.reservations (λ row. refl) in
    elim (Option-cases (find (is_reservation id) db.reservations)) [
      | inl n ↦ ground (arith, h, moved, n)
      | inr (row, f) ↦ ground (arith, h, moved, f)
    ]

pub get_idempotency-update :
    (r : Reservation) (db db' : Database) (key : String)
    → update_reservation r db ≡ ok db'
    → get_idempotency db' key ≡ get_idempotency db key
unfolding get_idempotency update_reservation
get_idempotency-update r db db' key h =
    let moved =
      find-update_where (λ row. row.idempotency_key == key) (is_reservation r.reservation_id)
        (set_outcome r) db.reservations (λ row. refl) in
    elim (Option-cases (find (λ row. row.idempotency_key == key) db.reservations)) [
      | inl n ↦ ground (arith, h, moved, n)
      | inr (row, f) ↦ ground (arith, h, moved, f)
    ]
