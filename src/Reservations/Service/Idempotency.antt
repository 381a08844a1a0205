-- ===== src/Reservations/Service/Idempotency.antt =====
-- Idempotency keys: requests under a key that is known (src/der_flex/reservations/service.py).
use mathlib.Core.Path.{subst}
use mathlib.Core.Option.{some-injective}
use der_flex.Prelude.{
  ◌⊎◌, ◌≡◌, ◌≢◌, refl, sym, ◌∙◌, ap, true, false, none, some, inl, inr, arith, ◌==◌, ==_iff,
  ==_refl, nat_eq, string_eq, Result, ok, err, Bool-cases, Option-cases, List, String, leb, ltb,
}
use der_flex.Prelude.Dict.{get-map_values}
use der_flex.Prelude.Dict.Laws.{get-set_self}
use der_flex.Domain.Models.{Uuid, Instant, Power, Reservation, tolerance}
use der_flex.Reservations.Records.{
  invalid_request, Allocation, ReservationError, idempotency_conflict,
}
use der_flex.Reservations.Backend.{
  Backend, expire_one, expire, get_idempotency, get_reservation, save_reservation,
}
use der_flex.Reservations.Allocate.{allocate}
use der_flex.Reservations.Backend.Invariant.{IsValid, expire-IsValid, get_reservation-id}
use der_flex.Reservations.Service.{
  OfferSource, CreateRequest, RequestPayload, payload_of, checked_power, tenant_idempotency_key,
  found_reservation, create_new, create_checked, create, offers_for, confirm, participants,
  new_reservation,
}
use der_flex.Reservations.Service.Create.{saved}

-- The key is bound to the request and to the stored reservation.
pub record IsBound (src : OfferSource) (key : String) (p : RequestPayload) (r : Reservation)
    (b : Backend) : Type 0 where
  pub bound : get_idempotency b key ≡ some (src.fingerprint p, r.reservation_id)
  pub stored : get_reservation b r.reservation_id ≡ some r

module _ (src : OfferSource) (id correlation : Uuid) (now : Instant) where
  saved-IsBound :
      (key : String) (p : RequestPayload) (items : List Allocation) (b : Backend)
      → IsBound src key p
          (new_reservation id correlation now p (offers_for src p now) items)
          (saved src id correlation now key p items b)
  unfolding save_reservation get_idempotency get_reservation
  saved-IsBound key p items b =
      let r = new_reservation id correlation now p (offers_for src p now) items in
      record {
        bound = get-set_self key (src.fingerprint p, id) b.idempotency;
        stored = get-set_self id r b.reservations;
      }

  confirm-IsBound :
      (key : String) (p : RequestPayload)
      (outcome : Result ReservationError (List Allocation × Power)) (b : Backend) (r : Reservation)
      → (confirm src id correlation now key p outcome b).0 ≡ ok r
      → IsBound src key p r (confirm src id correlation now key p outcome b).1
  confirm-IsBound key p (err e) b r h = absurd (cc)
  confirm-IsBound key p (ok (items, left)) b r h = elim (Bool-cases (ltb tolerance left)) [
    | inl short ↦ absurd (ground arith)
    | inr good ↦ rw good (
        subst (λ x. IsBound src key p x (saved src id correlation now key p items b)) (ground arith)
          (saved-IsBound key p items b))
  ]

  create_new-IsBound :
      (key : String) (p : RequestPayload) (b : Backend) (r : Reservation)
      → (create_new src id correlation now key p b).0 ≡ ok r
      → IsBound src key p r (create_new src id correlation now key p b).1
  unfolding create_new
  create_new-IsBound key p b r h =
      elim (Bool-cases (ltb (participants (offers_for src p now)) src.minimum_participants)) [
        | inl few ↦ absurd (ground (arith, few))
        | inr enough ↦ rw enough (
            confirm-IsBound key p (allocate b p.direction (offers_for src p now) p.power_kw) b r
              (rw enough at h))
      ]

  checked-new :
      (key : String) (p : RequestPayload) (b : Backend)
      → get_idempotency b key ≡ none
      → create_checked src id correlation now key p b ≡ create_new src id correlation now key p b
  unfolding create_checked
  checked-new key p b e = ground (arith, e)

  checked-replay :
      (key : String) (p : RequestPayload) (known : Uuid) (b : Backend)
      → get_idempotency b key ≡ some (src.fingerprint p, known)
      → create_checked src id correlation now key p b ≡ (found_reservation b known, b)
  unfolding create_checked
  checked-replay key p known b e = ground (arith, e, ==_refl (src.fingerprint p))

  checked-conflict :
      (key fp : String) (p : RequestPayload) (known : Uuid) (b : Backend)
      → get_idempotency b key ≡ some (fp, known)
      → fp ≢ src.fingerprint p
      → create_checked src id correlation now key p b ≡ (err idempotency_conflict, b)
  unfolding create_checked
  checked-conflict key fp p known b e ne = ground (arith, e, ==_iff fp (src.fingerprint p))

  found-ok :
      (b : Backend) (k : Uuid) (r : Reservation)
      → found_reservation b k ≡ ok r
      → get_reservation b k ≡ some r
  unfolding found_reservation
  found-ok b k r h = ground arith

  replay-IsBound :
      (key fp : String) (p : RequestPayload) (known : Uuid) (b : Backend) (r : Reservation)
      → IsValid b
      → get_idempotency b key ≡ some (fp, known)
      → fp ≡ src.fingerprint p
      → found_reservation b known ≡ ok r
      → IsBound src key p r b
  replay-IsBound key fp p known b r v e same h =
      let stored = found-ok b known r h in
      let own = get_reservation-id known r v stored in
      record {
        bound = ground (arith, e, own);
        stored = subst (λ x. get_reservation b x ≡ some r) (sym own) stored;
      }

  create_checked-IsBound :
      (key : String) (p : RequestPayload) (b : Backend) (r : Reservation)
      → IsValid b
      → (create_checked src id correlation now key p b).0 ≡ ok r
      → IsBound src key p r (create_checked src id correlation now key p b).1
  create_checked-IsBound key p b r v h = elim (Option-cases (get_idempotency b key)) [
    | inl new ↦
        let step = checked-new key p b new in rw step (create_new-IsBound key p b r (rw step at h))
    | inr ((fp, known), e) ↦ elim (Bool-cases (fp == src.fingerprint p)) [
      | inr other ↦
          let step =
            checked-conflict key fp p known b e
              (λ q. cc (other, (==_iff fp (src.fingerprint p)).1 q)) in
          absurd (cc (h, ap (λ x. x.0) step))
      | inl same ↦
          let e' = (==_iff fp (src.fingerprint p)).0 same in
          let step =
            checked-replay key p known b
              (subst (λ x. get_idempotency b key ≡ some (x, known)) e' e) in
          rw step (replay-IsBound key fp p known b r v e e' (cc (h, ap (λ x. x.0) step)))
    ]
  ]

  -- A request that is in order reaches the transaction on the expired state.
  pub create-checked :
      (req : CreateRequest) (power : Power) (b : Backend)
      → checked_power req.power_kw ≡ some power
      → leb req.interval_end req.interval_start ≡ false
      → create src id correlation now req b
        ≡ create_checked src id correlation now
            (tenant_idempotency_key req.tenant_id req.idempotency_key)
            (payload_of req power)
            (expire now b)
  unfolding create
  create-checked req power b e good = ground (arith, e)

  -- One that is not is refused as such, before anything is read or written.
  pub create-invalid :
      (req : CreateRequest) (b : Backend)
      → (checked_power req.power_kw ≡ none) ⊎ (leb req.interval_end req.interval_start ≡ true)
      → create src id correlation now req b ≡ (err invalid_request, b)
  unfolding create
  create-invalid req b h = ground (arith, h)

-- A confirmed request leaves its key bound.
create-IsBound :
    (src : OfferSource) (id correlation : Uuid) (now : Instant) (req : CreateRequest) (b : Backend)
    (r : Reservation)
    → IsValid b
    → (create src id correlation now req b).0 ≡ ok r
    → (power : Power) × (checked_power req.power_kw ≡ some power)
      × (leb req.interval_end req.interval_start ≡ false)
      × IsBound src
          (tenant_idempotency_key req.tenant_id req.idempotency_key)
          (payload_of req power)
          r
          (create src id correlation now req b).1
create-IsBound src id correlation now req b r v h =
    elim (Option-cases (checked_power req.power_kw)) [
      | inl bad ↦
          absurd (cc (h, ap (λ x. x.0) (create-invalid src id correlation now req b (inl bad))))
      | inr (power, e) ↦ elim (Bool-cases (leb req.interval_end req.interval_start)) [
        | inl bad ↦
            absurd (cc (h, ap (λ x. x.0) (create-invalid src id correlation now req b (inr bad))))
        | inr good ↦
            let step = create-checked src id correlation now req power b e good in
            (
              power,
              e,
              good,
              rw step (
                  create_checked-IsBound src id correlation now
                    (tenant_idempotency_key req.tenant_id req.idempotency_key)
                    (payload_of req power) (expire now b) r (expire-IsValid now v) (rw step at h)),
            )
      ]
    ]

pub expire-get :
    (now : Instant) (k : Uuid) (r : Reservation) (b : Backend)
    → get_reservation b k ≡ some r
    → found_reservation (expire now b) k ≡ ok (expire_one now r)
unfolding get_reservation expire found_reservation
expire-get now k r b h = ground (arith, get-map_values (expire_one now) k b.reservations)

expire-idempotency :
    (now : Instant) (key : String) (b : Backend)
    → get_idempotency (expire now b) key ≡ get_idempotency b key
unfolding get_idempotency expire
expire-idempotency now key b = refl

-- When `create` has returned a reservation, the same request, at any later reading of the clock and
-- with whatever new identifiers, returns that reservation, expired if its time has come, and writes
-- nothing but the expiry: no capacity is taken twice.
pub create_replays :
    (src : OfferSource) (id correlation id' correlation' : Uuid) (now later : Instant)
    (req : CreateRequest) (b : Backend) (r : Reservation)
    → IsValid b
    → (create src id correlation now req b).0 ≡ ok r
    → let b' = (create src id correlation now req b).1 in
      create src id' correlation' later req b' ≡ (ok (expire_one later r), expire later b')
create_replays src id correlation id' correlation' now later req b r v h =
    let b' = (create src id correlation now req b).1 in
    let key = tenant_idempotency_key req.tenant_id req.idempotency_key in
    let (power, e, good, bound) = create-IsBound src id correlation now req b r v h in
    create-checked src id' correlation' later req power b' e good
    ∙ checked-replay src id' correlation' later key (payload_of req power) r.reservation_id
        (expire later b') (expire-idempotency later key b' ∙ bound.bound)
    ∙ ap (λ x. (x, expire later b')) (expire-get later r.reservation_id r b' bound.stored)

-- When `create` has returned a reservation, a request whose tenant and key compose to the same text with
-- another fingerprint is a conflict, and writes nothing but the expiry.
pub create_conflicts :
    (src : OfferSource) (id correlation id' correlation' : Uuid) (now later : Instant)
    (req other : CreateRequest) (power power' : Power) (b : Backend) (r : Reservation)
    → IsValid b
    → (create src id correlation now req b).0 ≡ ok r
    → checked_power req.power_kw ≡ some power
    → checked_power other.power_kw ≡ some power'
    → leb other.interval_end other.interval_start ≡ false
    → tenant_idempotency_key other.tenant_id other.idempotency_key
      ≡ tenant_idempotency_key req.tenant_id req.idempotency_key
    → src.fingerprint (payload_of req power) ≢ src.fingerprint (payload_of other power')
    → let b' = (create src id correlation now req b).1 in
      create src id' correlation' later other b' ≡ (err idempotency_conflict, expire later b')
create_conflicts src id correlation id' correlation' now later req other power power' b r v h e e'
      good same differ =
    let b' = (create src id correlation now req b).1 in
    let key = tenant_idempotency_key other.tenant_id other.idempotency_key in
    let (checked, e_checked, ordered, bound) = create-IsBound src id correlation now req b r v h in
    let power_same : checked ≡ power = some-injective checked power (sym e_checked ∙ e) in
    create-checked src id' correlation' later other power' b' e' good
    ∙ checked-conflict src id' correlation' later key (src.fingerprint (payload_of req power))
        (payload_of other power') r.reservation_id (expire later b')
        (expire-idempotency later key b'
          ∙ ap (get_idempotency b') same
          ∙ bound.bound
          ∙ ap (λ x. some (src.fingerprint (payload_of req x), r.reservation_id)) power_same)
        differ
