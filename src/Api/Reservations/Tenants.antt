-- ===== src/Api/Reservations/Tenants.antt =====
-- The handlers of reservations and the tenant of the caller (src/der_flex/api/app.py).
use der_flex.Prelude.{
  List, ◌≡◌, ◌⊎◌, inl, inr, refl, false, some, ok, err, arith, String, Result-cases, ◌==◌,
  string_eq,
}
use der_flex.Domain.Models.{Uuid, Instant, Reservation}
use der_flex.Adapters.Webhooks.{WebhookDelivery}
use der_flex.Reservations.Backend.{Backend, get_reservation, expire, expire_one}
use der_flex.Reservations.Service.{get}
use der_flex.Reservations.Service.Activate.{ActivationContext}
use der_flex.Reservations.Service.Idempotency.{expire-get}
use der_flex.Api.Security.{tenant_boundary, AccessPrincipal, require_scope, require_tenant}
use der_flex.Api.Reservations.{
  HandlerError, forbidden, authorised, open_reservation, read_reservation, cancel_reservation,
  activate_reservation, Result,
}

expire_one-tenant : (now : Instant) (r : Reservation) → (expire_one now r).tenant_id ≡ r.tenant_id
unfolding expire_one
expire_one-tenant now r = ground (arith)

authorised-other :
    (p : AccessPrincipal) (r : Reservation)
    → (p.tenant_id == r.tenant_id) ≡ false
    → authorised p (ok r) ≡ err (forbidden tenant_boundary)
unfolding authorised require_tenant
authorised-other p r h = ground (arith, h)

-- A handler that is called for the reservation of another tenant refuses, and has only expired.
abbrev pub Refused {ℓ} : {A : Type ℓ} → Instant → Backend → Result HandlerError A × Backend → Type ℓ
Refused now b x = (e : HandlerError) × (x.0 ≡ err e) × ((x.1 ≡ b) ⊎ (x.1 ≡ expire now b))

module _ (p : AccessPrincipal) (id : Uuid) (now : Instant) (r : Reservation) (b : Backend)
    (stored : get_reservation b id ≡ some r) (other : (p.tenant_id == r.tenant_id) ≡ false) where
  authorised-refused : authorised p (get id now b).0 ≡ err (forbidden tenant_boundary)
  unfolding get
  authorised-refused =
      rw (expire-get now id r b stored)
        (authorised-other p (expire_one now r) (rw (expire_one-tenant now r) other))

  get-state : (get id now b).1 ≡ expire now b
  unfolding get
  get-state = refl

  open_reservation-Refused : (scope : String) → Refused now b (open_reservation p scope id now b)
  unfolding open_reservation
  open_reservation-Refused scope = elim (Result-cases (require_scope p scope)) [
    | inr (e, f) ↦ (forbidden e, ground (arith, f), inl (ground (arith, f)))
    | inl (u, f) ↦ (
      forbidden tenant_boundary,
      ground (arith, f, authorised-refused),
      inr (ground (arith, f, get-state)),
    )
  ]

  -- A principal that calls for the stored reservation of another tenant, to read it, to cancel it or
  -- to activate it, whatever its scopes and zones, is refused; nothing but the expiry is written, and
  -- no webhook is sent.
  pub other_tenant-Refused :
      (c : ActivationContext) (later : Instant) (deliveries : List WebhookDelivery)
      → let done =
          activate_reservation p c id now (record { backend = b; deliveries = deliveries }) in
        Refused now b (read_reservation p id now b)
        × Refused now b (cancel_reservation p id now later b)
        × Refused now b (done.0, done.1.backend)
        × (done.1.deliveries ≡ deliveries)
  unfolding read_reservation cancel_reservation activate_reservation
  other_tenant-Refused c later deliveries =
      let (e, f, g) = open_reservation-Refused "reservation:read" in
      let (e', f', g') = open_reservation-Refused "reservation:write" in
      let (e'', f'', g'') = open_reservation-Refused "activation:write" in
      (
        (e, f, g),
        (e', ground (arith, f'), ground (arith, f', g')),
        (e'', ground (arith, f''), ground (arith, f'', g'')),
        ground (arith, f''),
      )
