-- ===== src/Reservations/Service/Steps.antt =====
-- The runs of the service: any sequence of calls of its methods, each with its own clock, random
-- identifiers and callbacks. A new reservation gets an identifier that no reservation has. An
-- invariant is proved of each primitive write, and holds of every run.
use der_flex.Prelude.{
  ◌≡◌, ◌⊎◌, inl, inr, true, none, some, List, arith, ok, err, map, Bool-cases, Option-cases,
  Result-cases, nat_eq, String, ℕ,
}
use der_flex.Prelude.Dict.{get-map_values}
use der_flex.Domain.Models.{
  Uuid, Instant, Reservation, FlexibilityAggregate, is_confirmed, cancelled,
}
use der_flex.Reservations.Records.{Allocation, reservation_not_found}
use der_flex.Reservations.Backend.{
  Backend, get_activation, expire_one, expire, get_reservation, get_allocations, save_activation,
  update_reservation, activation_for_reservation,
}
use der_flex.Adapters.Webhooks.{WebhookDelivery}
use der_flex.Reservations.Allocate.{allocate}
use der_flex.Reservations.Service.{
  OfferSource, CreateRequest, RequestPayload, offers_for, create, get, cancel, found_reservation,
}
use der_flex.Reservations.Service.Create.{saved}
use der_flex.Reservations.Service.Activate.{
  ActivationContext, ServiceState, Pair, accepted_pairs, build_pairs, outcome, closed_reservation,
  dispatch, activate_known, activate, finish,
}
use der_flex.Reservations.Service.Residual.{
  publish_one, apply_residual_capacity, public_residual_capacity,
}

-- One call, from `b` to `b'`.
pub data Step (src : OfferSource) (b b' : Backend) : Type 0 where
  creates :
      (id correlation : Uuid) (now : Instant) (req : CreateRequest)
      → get_reservation b id ≡ none
      → b' ≡ (create src id correlation now req b).1
      → Step src b b'
  gets : (id : Uuid) (now : Instant) → b' ≡ (get id now b).1 → Step src b b'
  cancels : (id : Uuid) (now : Instant) → b' ≡ (cancel id now b).1 → Step src b b'
  activates :
      (c : ActivationContext) (id : Uuid) (deliveries : List WebhookDelivery)
      → get_activation b c.activation_id ≡ none
      → b' ≡ (activate c id (record { backend = b; deliveries = deliveries })).1.backend
      → Step src b b'
  reads_residual :
      (aggregates : List FlexibilityAggregate) (now : Instant)
      → b' ≡ (apply_residual_capacity aggregates now b).1
      → Step src b b'
  publishes :
      (aggregates : List FlexibilityAggregate) (now : Instant)
      → b' ≡ (public_residual_capacity aggregates now b).1
      → Step src b b'

pub data Reach (src : OfferSource) (b : Backend) : Backend → Type 0 where
  here : Reach src b b
  next : {c d : Backend} → Reach src b c → Step src c d → Reach src b d

-- The write of `activate`.
abbrev pub activated : ActivationContext → Uuid → Reservation → List Pair → Backend → Backend
activated c id r pairs b =
    save_activation (outcome c id r pairs) (closed_reservation c r pairs)
      (map (λ p. p.0) (accepted_pairs c pairs)) (map (λ p. p.1) pairs) b

-- Every primitive write keeps `P`.
pub record Keeps (src : OfferSource) (P : Backend → Type 0) : Type 0 where
  pub at_expire : (now : Instant) (b : Backend) → P b → P (expire now b)
  pub at_save :
      (id correlation : Uuid) (now : Instant) (key : String) (p : RequestPayload)
      (items : List Allocation) (left : ℕ) (b : Backend)
      → get_reservation b id ≡ none
      → allocate b p.direction (offers_for src p now) p.power_kw ≡ ok (items, left)
      → P b
      → P (saved src id correlation now key p items b)
  pub at_cancel :
      (id : Uuid) (r : Reservation) (b : Backend)
      → get_reservation b id ≡ some r
      → is_confirmed r.status ≡ true
      → P b
      → P (update_reservation (record r { status = cancelled }) b)
  pub at_activate :
      (c : ActivationContext) (id : Uuid) (r : Reservation) (items : List Allocation)
      (pairs : List Pair) (b : Backend)
      → get_reservation b id ≡ some r
      → is_confirmed r.status ≡ true
      → get_allocations b id ≡ some items
      → build_pairs c r 0 items ≡ ok pairs
      → activation_for_reservation b id ≡ none
      → get_activation b c.activation_id ≡ none
      → P b
      → P (activated c id r pairs b)
  pub at_publish : (a : FlexibilityAggregate) (b : Backend) → P b → P (publish_one a b).1

pub expire-fresh :
    (id : Uuid) (now : Instant) (b : Backend)
    → get_reservation b id ≡ none
    → get_reservation (expire now b) id ≡ none
unfolding get_reservation expire
expire-fresh id now b fresh = ground (arith, get-map_values (expire_one now) id b.reservations)

-- Expiry touches no activation.
pub expire-activation :
    (id : Uuid) (now : Instant) (b : Backend)
    → activation_for_reservation b id ≡ none
    → activation_for_reservation (expire now b) id ≡ none
unfolding activation_for_reservation expire
expire-activation id now b h = h

pub expire-get_activation :
    (id : Uuid) (now : Instant) (b : Backend)
    → get_activation b id ≡ none
    → get_activation (expire now b) id ≡ none
unfolding get_activation expire
expire-get_activation id now b h = h

-- The state behind `cancel`.
pub cancel-state :
    (id : Uuid) (now : Instant) (b : Backend)
    → ((cancel id now b).1 ≡ expire now b)
      ⊎ ((r : Reservation) × (get_reservation (expire now b) id ≡ some r)
          × (is_confirmed r.status ≡ true)
          × ((cancel id now b).1
              ≡ update_reservation (record r { status = cancelled }) (expire now b)))
unfolding cancel
cancel-state id now b = elim (Option-cases (get_reservation (expire now b) id)) [
  | inl e ↦ inl (ground (arith, e))
  | inr (r, e) ↦ elim (Bool-cases (is_confirmed r.status)) [
    | inl good ↦ inr (r, e, good, ground (arith, e))
    | inr bad ↦ inl (ground (arith, e))
  ]
]

pub found-none :
    (b : Backend) (id : Uuid)
    → get_reservation b id ≡ none
    → found_reservation b id ≡ err reservation_not_found
unfolding found_reservation
found-none b id e = ground (arith, e)

pub found-some :
    (b : Backend) (id : Uuid) (r : Reservation)
    → get_reservation b id ≡ some r
    → found_reservation b id ≡ ok r
unfolding found_reservation
found-some b id r e = ground (arith, e)

dispatch-state :
    (c : ActivationContext) (id : Uuid) (r : Reservation) (s : ServiceState)
    → ((dispatch c id r s).1.backend ≡ s.backend)
      ⊎ ((items : List Allocation) × (pairs : List Pair) × (get_allocations s.backend id
            ≡ some items)
          × (build_pairs c r 0 items ≡ ok pairs)
          × ((dispatch c id r s).1.backend ≡ activated c id r pairs s.backend))
unfolding dispatch finish
dispatch-state c id r s = elim (Option-cases (get_allocations s.backend id)) [
  | inl e ↦ inl (ground (arith, e))
  | inr (items, e) ↦ elim (Result-cases (build_pairs c r 0 items)) [
    | inl (pairs, f) ↦ inr (items, pairs, e, f, ground (arith, e, f))
    | inr (error, f) ↦ inl (ground (arith, e, f))
  ]
]

-- The backend behind `activate`.
pub activate-state :
    (c : ActivationContext) (id : Uuid) (s : ServiceState)
    → ((activate c id s).1.backend ≡ s.backend)
      ⊎ (((activate c id s).1.backend ≡ expire c.now s.backend)
          ⊎ ((r : Reservation) × (items : List Allocation) × (pairs : List Pair) × (get_reservation
                  (expire c.now s.backend)
                  id
                ≡ some r)
              × (is_confirmed r.status ≡ true)
              × (get_allocations (expire c.now s.backend) id ≡ some items)
              × (build_pairs c r 0 items ≡ ok pairs)
              × (activation_for_reservation s.backend id ≡ none)
              × ((activate c id s).1.backend ≡ activated c id r pairs (expire c.now s.backend))))
unfolding activate activate_known
activate-state c id s = elim (Option-cases (activation_for_reservation s.backend id)) [
  | inr (a, e) ↦ inl (ground (arith, e))
  | inl e ↦
      (let current : ServiceState = record s { backend = expire c.now s.backend } in
        elim (Option-cases (get_reservation (expire c.now s.backend) id)) [
          | inl f ↦ inr (inl (ground (arith, e, found-none current.backend id f)))
          | inr (r, f) ↦ elim (Bool-cases (is_confirmed r.status)) [
            | inr bad ↦ inr (inl (ground (arith, e, found-some current.backend id r f)))
            | inl good ↦ elim (dispatch-state c id r current) [
              | inl same ↦ inr (inl (ground (arith, e, found-some current.backend id r f, same)))
              | inr (items, pairs, g, h, new) ↦ inr (
                  inr (
                    r,
                    items,
                    pairs,
                    f,
                    good,
                    g,
                    h,
                    e,
                    ground (arith, e, found-some current.backend id r f, new),
                  ))
            ]
          ]
        ])
]
