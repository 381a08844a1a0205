-- ===== src/Reservations/Service/Activation.antt =====
-- What the first activation of a reservation does (src/der_flex/reservations/service.py).
use der_flex.Prelude.{
  ◌+◌, ◌-◌, ◌≡◌, ◌≢◌, Bool, any, not, filter, map, sum_of, length, ltb, [], ◌∷◌, if◌then◌else◌,
  ◌==◌, ==_iff, refl, true, false, none, some, inl, inr, arith, List, ok, err, Bool-cases,
  Option-cases, Result-cases, length-filter-le, nat_eq, ap,
}
use mathlib.Core.Path.{subst, sym, ◌∙◌}
use der_flex.Prelude.Dict.{get-set}
use der_flex.Prelude.Dict.Laws.{get-set_self}
use der_flex.Domain.Models.{
  Uuid, Reservation, Activation, ActivationStatus, ReservationStatus, is_confirmed,
}
use der_flex.Reservations.Records.{reservation_not_found, reservation_state_conflict, Allocation}
use der_flex.Reservations.Backend.{
  Backend, expire, get_reservation, get_allocations, activation_for_reservation, save_activation,
}
use der_flex.Reservations.Backend.Invariant.{IsValid, expire-IsValid, get_reservation-id}
use der_flex.Reservations.Service.Effects.{build_pairs-allocations}
use der_flex.Reservations.Service.Activate.{
  ActivationContext, ServiceState, Pair, build_pairs, outcome, closed_reservation, finish, dispatch,
  activate_known, activate,
}
use der_flex.Reservations.Service.Steps.{activated, found-none, found-some}

-- Whether the resource of the allocation takes the instruction.
abbrev pub accepts : ActivationContext → Pair → Bool
accepts c p = c.resource_acceptor p.0.resource_id p.1

-- The allocations whose instruction was taken.
abbrev pub kept : ActivationContext → List Pair → List Allocation
kept c pairs = map (λ p. p.0) (filter (accepts c) pairs)

abbrev pub some_rejected : ActivationContext → List Pair → Bool
some_rejected c pairs = any (λ p. not (accepts c p)) pairs

-- The reservation was confirmed and had the allocations `items`, and each got its instruction. It now
-- has the allocations whose instruction was taken and their power, and is failed if one was rejected,
-- else completed; the answer counts the instructions and is on record for it, and no other
-- reservation has changed.
pub record Dispatched (c : ActivationContext) (id : Uuid) (b : Backend) (a : Activation)
    (b' : Backend) : Type 0 where
  pub reservation : Reservation
  pub items : List Allocation
  pub pairs : List Pair
  pub stored : get_reservation b id ≡ some reservation
  pub was_confirmed : is_confirmed reservation.status ≡ true
  pub allocated : get_allocations b id ≡ some items
  pub built : build_pairs c reservation 0 items ≡ ok pairs
  pub instructed : map (λ p. p.0) pairs ≡ items
  pub closed :
      get_reservation b' id
      ≡ some (record reservation {
        status =
            if some_rejected c pairs then ReservationStatus.failed else ReservationStatus.completed;
        allocated_power_kw = sum_of (λ item. item.power_kw) (kept c pairs);
      })
  pub left : get_allocations b' id ≡ some (kept c pairs)
  pub on_record : activation_for_reservation b' id ≡ some a
  pub instruction_count : a.instruction_count ≡ length items
  pub accepted_count : a.accepted_instruction_count ≡ length (kept c pairs)
  pub rejected_count : a.accepted_instruction_count + a.rejected_instruction_count ≡ length items
  pub status :
      a.status
      ≡ (if some_rejected c pairs then ActivationStatus.failed else ActivationStatus.completed)
  pub others : (other : Uuid) → other ≢ id → get_reservation b' other ≡ get_reservation b other

length-map_fst : (pairs : List Pair) → length (map (λ p. p.0) pairs) ≡ length pairs
length-map_fst [] = refl
length-map_fst (p ∷ pairs) = ground (arith, length-map_fst pairs)

power-map_fst :
    (pairs : List Pair)
    → sum_of (λ p. p.0.power_kw) pairs ≡ sum_of (λ item. item.power_kw) (map (λ p. p.0) pairs)
power-map_fst [] = refl
power-map_fst (p ∷ pairs) = ground (arith, power-map_fst pairs)

-- Something is left out by a filter exactly when something fails its test.
rejected-any :
    (keep : Pair → Bool) (pairs : List Pair)
    → ltb 0 (length pairs - length (filter keep pairs)) ≡ any (λ p. not (keep p)) pairs
rejected-any keep [] = refl
rejected-any keep (p ∷ pairs) = ground (arith, rejected-any keep pairs, length-filter-le keep pairs)

closed_reservation-eq :
    (c : ActivationContext) (r : Reservation) (pairs : List Pair)
    → closed_reservation c r pairs ≡ record r {
      status =
          if some_rejected c pairs then ReservationStatus.failed else ReservationStatus.completed;
      allocated_power_kw = sum_of (λ item. item.power_kw) (kept c pairs);
    }
unfolding closed_reservation
closed_reservation-eq c r pairs =
    rw (rejected-any (accepts c) pairs, power-map_fst (filter (accepts c) pairs)) refl

activated-reservation :
    (c : ActivationContext) (id : Uuid) (r : Reservation) (pairs : List Pair) (b : Backend)
    (other : Uuid)
    → get_reservation (activated c id r pairs b) other ≡ (
        if r.reservation_id == other
        then some (closed_reservation c r pairs)
        else get_reservation b other)
unfolding get_reservation save_activation closed_reservation
activated-reservation c id r pairs b other =
    get-set r.reservation_id other (closed_reservation c r pairs) b.reservations

activated-allocations :
    (c : ActivationContext) (id : Uuid) (r : Reservation) (pairs : List Pair) (b : Backend)
    → get_allocations (activated c id r pairs b) r.reservation_id ≡ some (kept c pairs)
unfolding get_allocations save_activation closed_reservation
activated-allocations c id r pairs b = get-set_self r.reservation_id (kept c pairs) b.allocations

pub recorded :
    (c : ActivationContext) (id : Uuid) (r : Reservation) (pairs : List Pair) (b : Backend)
    → activation_for_reservation (activated c id r pairs b) r.reservation_id
      ≡ some (outcome c id r pairs)
unfolding activation_for_reservation save_activation closed_reservation
recorded c id r pairs b =
    let a = outcome c id r pairs in
    ground (
      arith,
      get-set_self r.reservation_id a.activation_id b.activation_by_reservation,
      get-set_self a.activation_id a b.activations,
    )

outcome-status :
    (c : ActivationContext) (id : Uuid) (r : Reservation) (pairs : List Pair)
    → (outcome c id r pairs).status
      ≡ (if some_rejected c pairs then ActivationStatus.failed else ActivationStatus.completed)
unfolding outcome
outcome-status c id r pairs = rw (rejected-any (accepts c) pairs) refl

activated-Dispatched :
    (c : ActivationContext) (id : Uuid) (r : Reservation) (items : List Allocation)
    (pairs : List Pair) (b : Backend)
    → IsValid b
    → get_reservation b id ≡ some r
    → is_confirmed r.status ≡ true
    → get_allocations b id ≡ some items
    → build_pairs c r 0 items ≡ ok pairs
    → Dispatched c id b (outcome c id r pairs) (activated c id r pairs b)
unfolding outcome
activated-Dispatched c id r items pairs b v known good e f =
    let own_id = get_reservation-id id r v known in
    let instructed = build_pairs-allocations c r 0 items pairs f in
    let count : length pairs ≡ length items =
      sym (length-map_fst pairs) ∙ ap (λ (xs : List Allocation). length xs) instructed in
    let taken = length-map_fst (filter (accepts c) pairs) in
    record {
      reservation = r;
      items = items;
      pairs = pairs;
      stored = known;
      was_confirmed = good;
      allocated = e;
      built = f;
      instructed = instructed;
      closed = ground (
        arith,
        own_id,
        activated-reservation c id r pairs b id,
        closed_reservation-eq c r pairs,
        ==_iff r.reservation_id id,
      );
      left =
          subst (λ i. get_allocations (activated c id r pairs b) i ≡ some (kept c pairs)) own_id
            (activated-allocations c id r pairs b);
      on_record =
          subst
            (λ i.
              activation_for_reservation (activated c id r pairs b) i ≡ some (outcome c id r pairs))
            own_id (recorded c id r pairs b);
      instruction_count = count;
      accepted_count = sym taken;
      rejected_count = ground (arith, count, length-filter-le (accepts c) pairs);
      status = outcome-status c id r pairs;
      others = λ other ne. ground (
        arith,
        own_id,
        activated-reservation c id r pairs b other,
        ==_iff r.reservation_id other,
      );
    }

dispatch-Dispatched :
    (c : ActivationContext) (id : Uuid) (r : Reservation) (a : Activation) (s : ServiceState)
    → IsValid s.backend
    → get_reservation s.backend id ≡ some r
    → is_confirmed r.status ≡ true
    → (dispatch c id r s).0 ≡ ok a
    → Dispatched c id s.backend a (dispatch c id r s).1.backend
unfolding dispatch finish
dispatch-Dispatched c id r a s v known good h = elim (Option-cases (get_allocations s.backend id)) [
  | inl e ↦ absurd (ground (arith, e))
  | inr (items, e) ↦ elim (Result-cases (build_pairs c r 0 items)) [
    | inr (error, f) ↦ absurd (ground (arith, e, f))
    | inl (pairs, f) ↦
        let answer : a ≡ outcome c id r pairs = ground (arith, h, e, f) in
        let state : (dispatch c id r s).1.backend ≡ activated c id r pairs s.backend =
          ground (arith, e, f) in
        rw (answer, state) (activated-Dispatched c id r items pairs s.backend v known good e f)
  ]
]

abbrev pub expired_state : ActivationContext → ServiceState → ServiceState
expired_state c s = record s { backend = expire c.now s.backend }

-- Without an activation on record a confirmed reservation is dispatched; any other is refused.
activate-dispatches :
    (c : ActivationContext) (id : Uuid) (r : Reservation) (s : ServiceState)
    → activation_for_reservation s.backend id ≡ none
    → get_reservation (expire c.now s.backend) id ≡ some r
    → is_confirmed r.status ≡ true
    → activate c id s ≡ dispatch c id r (expired_state c s)
unfolding activate activate_known
activate-dispatches c id r s unused f good =
    ground (arith, unused, found-some (expire c.now s.backend) id r f)

pub activate-not_found :
    (c : ActivationContext) (id : Uuid) (s : ServiceState)
    → activation_for_reservation s.backend id ≡ none
    → get_reservation (expire c.now s.backend) id ≡ none
    → activate c id s ≡ (err reservation_not_found, expired_state c s)
unfolding activate activate_known
activate-not_found c id s unused f =
    ground (arith, unused, found-none (expire c.now s.backend) id f)

pub activate-conflict :
    (c : ActivationContext) (id : Uuid) (r : Reservation) (s : ServiceState)
    → activation_for_reservation s.backend id ≡ none
    → get_reservation (expire c.now s.backend) id ≡ some r
    → is_confirmed r.status ≡ false
    → activate c id s ≡ (err reservation_state_conflict, expired_state c s)
unfolding activate activate_known
activate-conflict c id r s unused f bad =
    ground (arith, unused, found-some (expire c.now s.backend) id r f)

-- From a valid state, an activation that succeeds for a reservation without one answers for a
-- reservation that is confirmed after the expiry, each of whose allocations got its instruction. The
-- reservation then holds the allocations whose resource accepted, with their power, and is failed
-- exactly when one rejected; the answer counts the instructions, has the same status and is on
-- record, and no other reservation of the expired state changes.
pub activate-Dispatched :
    (c : ActivationContext) (id : Uuid) (a : Activation) (s : ServiceState)
    → IsValid s.backend
    → activation_for_reservation s.backend id ≡ none
    → (activate c id s).0 ≡ ok a
    → Dispatched c id (expire c.now s.backend) a (activate c id s).1.backend
activate-Dispatched c id a s v unused h =
    elim (Option-cases (get_reservation (expire c.now s.backend) id)) [
      | inl f ↦ absurd (cc (h, ap (λ x. x.0) (activate-not_found c id s unused f)))
      | inr (r, f) ↦ elim (Bool-cases (is_confirmed r.status)) [
        | inr bad ↦ absurd (cc (h, ap (λ x. x.0) (activate-conflict c id r s unused f bad)))
        | inl good ↦
            let step = activate-dispatches c id r s unused f good in
            rw step (
              dispatch-Dispatched c id r a (expired_state c s) (expire-IsValid c.now v) f good
                (rw step at h))
      ]
    ]
