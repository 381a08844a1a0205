-- ===== src/Reservations/Backend/Booked.antt =====
-- The power that is reserved on an offer (`reserved_for_offer`), as a total function, and how each
-- write to the reservations and the allocations changes it.
use der_flex.Prelude.{
  ◌+◌, ◌≤◌, ◌≡◌, refl, true, ◌&&◌, Option, none, some, List, [], ◌∷◌, arith, nat_eq, if◌then◌else◌,
  All, ==_iff,
}
use der_flex.Prelude.Dict
use der_flex.Prelude.Dict.{Dict, get-set}
use der_flex.Prelude.Dict.Laws.{HasUniqueKeys}
use der_flex.Domain.Models.{
  Uuid, Instant, Power, FlexibilityDirection, FlexibilityOffer, Reservation, holds_capacity,
}
use der_flex.Reservations.Records.{Allocation}
use der_flex.Reservations.Backend.{expire_one, same_product, power_for, reserved_in}

abbrev pub Allocations : Type 0
Allocations = Dict Uuid (List Allocation)

abbrev pub or_nil : Option (List Allocation) → List Allocation
or_nil none = []
or_nil (some items) = items

module _ (o : FlexibilityOffer) (direction : FlexibilityDirection) where
  -- What one reservation with the allocations `items` takes of the offer.
  unfoldable pub share : Reservation → List Allocation → Power
  share r items =
      if holds_capacity r.status && same_product o direction r
      then power_for o.resource_id items
      else 0

  unfoldable pub reserved_total : Allocations → Dict Uuid Reservation → Power
  reserved_total allocations [] = 0
  reserved_total allocations ((id, r) ∷ rest) =
      share r (or_nil (Dict.get id allocations)) + reserved_total allocations rest

  -- Every reservation has an entry in the allocations.
  abbrev pub AreAllocated : Allocations → Dict Uuid Reservation → Type 0
  AreAllocated allocations = All (λ e. Dict.has e.0 allocations ≡ true)

  pub reserved_in-eq-total :
      (allocations : Allocations) (rs : Dict Uuid Reservation)
      → AreAllocated allocations rs
      → reserved_in allocations o direction rs ≡ some (reserved_total allocations rs)
  unfolding reserved_total share reserved_in
  reserved_in-eq-total allocations [] h = refl
  reserved_in-eq-total allocations ((id, r) ∷ rest) h =
      ground (arith, reserved_in-eq-total allocations rest h.1)

  -- Expiry only frees capacity.
  share-expire_one-le :
      (now : Instant) (r : Reservation) (items : List Allocation)
      → share (expire_one now r) items ≤ share r items
  unfolding share expire_one same_product
  share-expire_one-le now r items = ground arith

  pub reserved_total-expire-le :
      (now : Instant) (allocations : Allocations) (rs : Dict Uuid Reservation)
      → reserved_total allocations (Dict.map_values (expire_one now) rs)
        ≤ reserved_total allocations rs
  unfolding reserved_total
  reserved_total-expire-le now allocations [] = omega arith
  reserved_total-expire-le now allocations ((id, r) ∷ rest) = omega (
    arith,
    share-expire_one-le now r (or_nil (Dict.get id allocations)),
    reserved_total-expire-le now allocations rest,
  )

  -- A write of the allocations at a key that no reservation has.
  pub reserved_total-set_other :
      (id : Uuid) (items : List Allocation) (allocations : Allocations) (rs : Dict Uuid Reservation)
      → Dict.get id rs ≡ none
      → reserved_total (Dict.set id items allocations) rs ≡ reserved_total allocations rs
  unfolding reserved_total
  reserved_total-set_other id items allocations [] fresh = refl
  reserved_total-set_other id items allocations ((j, r) ∷ rest) fresh = ground (
    arith,
    get-set id j items allocations,
    ==_iff id j,
    ==_iff j id,
    reserved_total-set_other id items allocations rest,
  )

  -- A new reservation adds its share.
  pub reserved_total-set_new :
      (id : Uuid) (r : Reservation) (allocations : Allocations) (rs : Dict Uuid Reservation)
      → Dict.get id rs ≡ none
      → reserved_total allocations (Dict.set id r rs)
        ≡ reserved_total allocations rs + share r (or_nil (Dict.get id allocations))
  unfolding reserved_total
  reserved_total-set_new id r allocations [] fresh = omega arith
  reserved_total-set_new id r allocations ((j, s) ∷ rest) fresh =
      ground (arith, ==_iff j id, reserved_total-set_new id r allocations rest)

  -- A known reservation exchanges its share.
  pub reserved_total-set_known :
      (id : Uuid) (r old : Reservation) (allocations : Allocations) (rs : Dict Uuid Reservation)
      → Dict.get id rs ≡ some old
      → let items = or_nil (Dict.get id allocations) in
        reserved_total allocations (Dict.set id r rs) + share old items
        ≡ reserved_total allocations rs + share r items
  unfolding reserved_total
  reserved_total-set_known id r old allocations [] known = cc
  reserved_total-set_known id r old allocations ((j, s) ∷ rest) known =
      ground (arith, ==_iff j id, reserved_total-set_known id r old allocations rest)

  -- A known reservation and its allocations are written together.
  pub reserved_total-set_both :
      (id : Uuid) (r old : Reservation) (items : List Allocation) (allocations : Allocations)
      (rs : Dict Uuid Reservation)
      → HasUniqueKeys rs
      → Dict.get id rs ≡ some old
      → reserved_total (Dict.set id items allocations) (Dict.set id r rs)
          + share old (or_nil (Dict.get id allocations))
        ≡ reserved_total allocations rs + share r items
  unfolding reserved_total
  reserved_total-set_both id r old items allocations [] unique known = cc
  reserved_total-set_both id r old items allocations ((j, s) ∷ rest) unique known = ground (
    arith,
    ==_iff j id,
    ==_iff id j,
    get-set id j items allocations,
    reserved_total-set_other id items allocations rest,
    reserved_total-set_both id r old items allocations rest,
  )
