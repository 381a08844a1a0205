-- ===== src/Reservations/Service/Create.antt =====
-- The ways through `create`: the request is refused, its key is known, or it reaches `create_new`;
-- and that each keeps the backend valid.
use der_flex.Prelude.{
  List, ◌≡◌, refl, sym, ◌⊎◌, inl, inr, arith, Result, ok, err, leb, Bool-cases, Option-cases,
  String, ltb, string_eq, List,
}
use mathlib.Core.Path.{subst}
use der_flex.Domain.Models.{Uuid, Instant, Power, tolerance}
use der_flex.Reservations.Records.{Allocation, ReservationError, Allocation}
use der_flex.Reservations.Backend.{Backend, expire, save_reservation}
use der_flex.Reservations.Backend.Invariant.{IsValid, expire-IsValid, save_reservation-IsValid}
use der_flex.Reservations.Allocate.{allocate}
use der_flex.Reservations.Service.{
  OfferSource, CreateRequest, RequestPayload, payload_of, checked_power, tenant_idempotency_key,
  new_reservation, participants, create_new, create_checked, create, offers_for, confirm,
}

module _ (src : OfferSource) (id correlation : Uuid) (now : Instant) where
  -- The state behind `create_checked`.
  create_checked-state :
      (key : String) (p : RequestPayload) (b : Backend)
      → ((create_checked src id correlation now key p b).1 ≡ b)
        ⊎ ((create_checked src id correlation now key p b).1
            ≡ (create_new src id correlation now key p b).1)
  unfolding create_checked
  create_checked-state key p b = ground arith

  -- The state behind `create`: as before, expired, or that of `create_new` for the checked power.
  pub create-state :
      (req : CreateRequest) (b : Backend)
      → ((create src id correlation now req b).1 ≡ b)
        ⊎ (((create src id correlation now req b).1 ≡ expire now b)
            ⊎ ((p : Power) × ((create src id correlation now req b).1
                  ≡ (create_new src id correlation now
                      (tenant_idempotency_key req.tenant_id req.idempotency_key)
                      (payload_of req p)
                      (expire now b)).1)))
  unfolding create
  create-state req b = elim (Option-cases (checked_power req.power_kw)) [
    | inl e ↦ inl (ground (arith, e))
    | inr (p, e) ↦ elim (Bool-cases (leb req.interval_end req.interval_start)) [
      | inl empty ↦ inl (ground (arith, e))
      | inr good ↦
          elim (create_checked-state (tenant_idempotency_key req.tenant_id req.idempotency_key)
            (payload_of req p) (expire now b)) [
              | inl same ↦ inr (inl (ground (arith, e)))
              | inr new ↦ inr (inr (p, ground (arith, e, new)))
            ]
    ]
  ]

  -- The write of `create_new`.
  abbrev pub saved : String → RequestPayload → List Allocation → Backend → Backend
  saved key p items b =
      save_reservation (new_reservation id correlation now p (offers_for src p now) items) items key
        (src.fingerprint p) p.callback_url b

  confirm-state :
      (key : String) (p : RequestPayload)
      (outcome : Result ReservationError (List Allocation × Power)) (b : Backend)
      → ((confirm src id correlation now key p outcome b).1 ≡ b)
        ⊎ ((items : List Allocation) × (left : Power) × (outcome ≡ ok (items, left))
            × ((confirm src id correlation now key p outcome b).1 ≡ saved key p items b))
  confirm-state key p (err e) b = inl refl
  confirm-state key p (ok (items, left)) b = elim (Bool-cases (ltb tolerance left)) [
    | inl short ↦ inl (rw short)
    | inr good ↦ inr (items, left, refl, rw good)
  ]

  -- The state behind `create_new`: as before, or with the reservation that the loop allocates.
  pub create_new-state :
      (key : String) (p : RequestPayload) (b : Backend)
      → ((create_new src id correlation now key p b).1 ≡ b)
        ⊎ ((items : List Allocation) × (left : Power) × (allocate b p.direction
                (offers_for src p now)
                p.power_kw
              ≡ ok (items, left))
            × ((create_new src id correlation now key p b).1 ≡ saved key p items b))
  unfolding create_new
  create_new-state key p b =
      elim (Bool-cases (ltb (participants (offers_for src p now)) src.minimum_participants)) [
        | inl few ↦ inl (rw few)
        | inr enough ↦
            rw enough
              (confirm-state key p (allocate b p.direction (offers_for src p now) p.power_kw) b)
      ]

  -- What holds before, after expiry, and after the write of an allocation, holds after `create`.
  pub create-keeps :
      (P : Backend → Type 0) (req : CreateRequest) (b : Backend)
      → P b
      → P (expire now b)
      → ((key : String) (p : RequestPayload) (items : List Allocation) (left : Power)
          → allocate (expire now b) p.direction (offers_for src p now) p.power_kw ≡ ok (items, left)
          → P (saved key p items (expire now b)))
      → P (create src id correlation now req b).1
  create-keeps P req b before expired write = elim (create-state req b) [
    | inl e ↦ subst P (sym e) before
    | inr (inl e) ↦ subst P (sym e) expired
    | inr (inr (power, e)) ↦
        let key = tenant_idempotency_key req.tenant_id req.idempotency_key in
        let p = payload_of req power in
        subst P (sym e) (elim (create_new-state key p (expire now b)) [
          | inl same ↦ subst P (sym same) expired
          | inr (items, left, h, new) ↦ subst P (sym new) (write key p items left h)
        ])
  ]

  pub create-IsValid :
      (req : CreateRequest) {b : Backend}
      → IsValid b
      → IsValid (create src id correlation now req b).1
  create-IsValid req {b} v =
      create-keeps IsValid req b v (expire-IsValid now v) (λ key p items left h.
        save_reservation-IsValid (new_reservation id correlation now p (offers_for src p now) items)
          items key (src.fingerprint p) p.callback_url (expire-IsValid now v))
