-- ===== src/Examples/Tenants.antt =====
-- A principal of another tenant at the handlers of reservations.
use der_flex.Prelude.{◌≡◌, [], ◌∷◌, refl}
use der_flex.Api.Security.{AccessPrincipal}
use der_flex.Api.Reservations.{read_reservation, cancel_reservation, activate_reservation}
use der_flex.Api.Reservations.Tenants.{Refused, other_tenant-Refused}
use der_flex.Examples.Data.{reserved, context}
use der_flex.Examples.Reservations.{held, held_stored}

abbrev rival : AccessPrincipal
rival = record { subject = "rival"; tenant_id = "rival"; scopes = "*" ∷ []; zone_ids = "*" ∷ [] }

other_tenant-Refused_example :
    let done =
      activate_reservation rival context 1 2000 (record { backend = reserved; deliveries = [] }) in
    Refused 2000 reserved (read_reservation rival 1 2000 reserved)
    × Refused 2000 reserved (cancel_reservation rival 1 2000 3000 reserved)
    × Refused 2000 reserved (done.0, done.1.backend)
    × (done.1.deliveries ≡ [])
other_tenant-Refused_example =
    other_tenant-Refused rival 1 2000 held reserved held_stored refl context 3000 []
