-- ===== src/Durable/Refinement/Kept.antt =====
-- The allocations that `PostgresReservationUnitOfWork`
-- (src/der_flex/reservations/postgres.py) returns after a write that succeeds.
use der_flex.Prelude.{
  ℕ, ◌+◌, String, ◌≡◌, inl, inr, Bool, true, false, Option, List, [], ◌∷◌, ◌++◌, arith, ok, map,
  filter, Bool-cases, nat_eq, string_eq, ◌==◌, ==_iff, refl, if◌then◌else◌, leb, not,
}
use mathlib.Core.Path.{subst}
use der_flex.Prelude.Sorting.{sorted, insert_sorted}
use der_flex.Domain.Models.{Uuid, Reservation}
use der_flex.Domain.Equality.{cell_eq}
use der_flex.Reservations.Records.{Allocation}
use der_flex.Durable.Tables.{Database, AllocationRow}
use der_flex.Durable.UnitOfWork.{
  of_reservation_id, get_allocations, allocation_rows, replace_allocations, save_reservation,
}

module _ {ℓ} {A : Type ℓ} where
  filter-append : (p : A → Bool) (xs ys : List A) → filter p (xs ++ ys) ≡ filter p xs ++ filter p ys
  filter-append p [] ys = refl
  filter-append p (x ∷ xs) ys = elim (Bool-cases (p x)) [
    | inl e ↦ rw (e, filter-append p xs ys) refl
    | inr e ↦ rw (e, filter-append p xs ys) refl
  ]

  filter-filter_some :
      (p q : A → Bool) (xs : List A)
      → ((x : A) → p x ≡ true → q x ≡ true)
      → filter p (filter q xs) ≡ filter p xs
  filter-filter_some p q [] h = refl
  filter-filter_some p q (x ∷ xs) h = ground (arith, h x, filter-filter_some p q xs h)

  filter-filter_none :
      (p q : A → Bool) (xs : List A)
      → ((x : A) → q x ≡ true → p x ≡ false)
      → filter p (filter q xs) ≡ []
  filter-filter_none p q [] h = refl
  filter-filter_none p q (x ∷ xs) h = ground (arith, h x, filter-filter_none p q xs h)

filter-rows_own :
    (id : Uuid) (index : ℕ) (items : List Allocation)
    → filter (of_reservation_id id) (allocation_rows id index items)
      ≡ allocation_rows id index items
unfolding allocation_rows
filter-rows_own id index [] = refl
filter-rows_own id index (item ∷ items) =
    ground (arith, ==_iff id id, filter-rows_own id (index + 1) items)

filter-rows_other :
    (id other : Uuid) (index : ℕ) (items : List Allocation)
    → (id == other) ≡ false
    → filter (of_reservation_id other) (allocation_rows id index items) ≡ []
unfolding allocation_rows
filter-rows_other id other index [] h = refl
filter-rows_other id other index (item ∷ items) h =
    ground (arith, h, filter-rows_other id other (index + 1) items h)

-- The rows of `enumerate` are in order.
sorted-rows :
    (id : Uuid) (index : ℕ) (items : List Allocation)
    → sorted (λ a b. leb a.allocation_index b.allocation_index) (allocation_rows id index items)
      ≡ allocation_rows id index items
unfolding allocation_rows sorted insert_sorted
sorted-rows id index [] = refl
sorted-rows id index (item ∷ []) = refl
sorted-rows id index (item ∷ next ∷ items) =
    rw (sorted-rows id (index + 1) (next ∷ items)) (ground (arith))

map-rows :
    (id : Uuid) (index : ℕ) (items : List Allocation)
    → map (λ a. a.item) (allocation_rows id index items) ≡ items
unfolding allocation_rows
map-rows id index [] = refl
map-rows id index (item ∷ items) = ground (arith, map-rows id (index + 1) items)

append_nil {ℓ} : {A : Type ℓ} (xs : List A) → xs ++ [] ≡ xs
append_nil [] = refl
append_nil (x ∷ xs) = ground (arith, append_nil xs)

-- The allocations of a reservation in the table after a replacement.
filter-replaced :
    (id other : Uuid) (items : List Allocation) (old : List AllocationRow)
    → filter
        (of_reservation_id other)
        (filter (λ a. not (of_reservation_id id a)) old ++ allocation_rows id 0 items)
      ≡ (if id == other then allocation_rows id 0 items else filter (of_reservation_id other) old)
filter-replaced id other items old =
    let split =
      filter-append (of_reservation_id other) (filter (λ a. not (of_reservation_id id a)) old)
        (allocation_rows id 0 items) in
    elim (Bool-cases (id == other)) [
      | inl e ↦
          let same = (==_iff id other).0 e in
          let gone =
            filter-filter_none (of_reservation_id other) (λ a. not (of_reservation_id id a)) old
              (λ a k.
                ground
                  (arith, k, e, ==_iff a.reservation_id other, ==_iff a.reservation_id id, same)) in
          let own =
            subst {A = Uuid}
              (λ x.
                filter (of_reservation_id x) (allocation_rows id 0 items)
                ≡ allocation_rows id 0 items)
              same (filter-rows_own id 0 items) in
          ground (arith, split, gone, own, e)
      | inr e ↦
          let kept =
            filter-filter_some (of_reservation_id other) (λ a. not (of_reservation_id id a)) old
              (λ a k. ground (
                arith,
                k,
                e,
                ==_iff a.reservation_id other,
                ==_iff a.reservation_id id,
                ==_iff id other,
              )) in
          let none_of = filter-rows_other id other 0 items e in
          ground (arith, split, kept, none_of, e, append_nil (filter (of_reservation_id other) old))
    ]

pub get_allocations-save :
    (r : Reservation) (items : List Allocation) (key fingerprint : String)
    (callback : Option String) (db db' : Database) (id : Uuid)
    → save_reservation r items key fingerprint callback db ≡ ok db'
    → get_allocations db' id ≡ (if r.reservation_id == id then items else get_allocations db id)
unfolding get_allocations save_reservation replace_allocations
get_allocations-save r items key fingerprint callback db db' id h =
    let replaced = filter-replaced r.reservation_id id items db.allocations in
    let order = sorted-rows r.reservation_id 0 items in
    let listed = map-rows r.reservation_id 0 items in
    elim (Bool-cases (r.reservation_id == id)) [
      | inl e ↦ ground (arith, h, replaced, e, order, listed)
      | inr e ↦ ground (arith, h, replaced, e)
    ]

pub get_allocations-replace :
    (id other : Uuid) (items : List Allocation) (db db' : Database)
    → replace_allocations id items db ≡ ok db'
    → get_allocations db' other ≡ (if id == other then items else get_allocations db other)
unfolding get_allocations replace_allocations
get_allocations-replace id other items db db' h =
    let replaced = filter-replaced id other items db.allocations in
    let order = sorted-rows id 0 items in
    let listed = map-rows id 0 items in
    elim (Bool-cases (id == other)) [
      | inl e ↦ ground (arith, h, replaced, e, order, listed)
      | inr e ↦ ground (arith, h, replaced, e)
    ]
