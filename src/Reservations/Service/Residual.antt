-- ===== src/Reservations/Service/Residual.antt =====
-- The residual capacity: `_apply_residual_capacity` and `public_residual_capacity`
-- (src/der_flex/reservations/service.py).
use der_flex.Prelude.{
  ◌-◌, ◌*◌, Bool, true, false, not, ◌&&◌, Option, none, some, List, [], ◌∷◌, map, if◌then◌else◌,
  ◌==◌, nat_eq, string_eq, sum_of, filter,
}
use der_flex.Prelude.Rounding.{round_to, power_step, energy_step}
use der_flex.Domain.Models.{
  Instant, Power, FlexibilityDirection, upward, downward, FlexibilityAggregate, Reservation,
  ProductCell,
}
use der_flex.Domain.Equality.{consequence_eq, direction_eq}
use der_flex.Reservations.Records.{Residual, residual_eq}
use der_flex.Reservations.Backend.{
  Backend, expire, active_reservations, published_residual, set_published_residual,
  suppress_public_cell, public_cell_is_suppressed,
}

-- `same_product` of `_apply_residual_capacity`: here the tenant counts.
unfoldable pub reserves_from : FlexibilityAggregate → Reservation → Bool
reserves_from a r =
    r.tenant_id == a.tenant_id
    && r.zone_id == a.zone_id
    && r.interval_start == a.interval_start
    && r.interval_end == a.interval_end
    && r.consequence_type == a.consequence_type

-- The sums `upward` and `downward` over the reservations of the product.
unfoldable pub reserved_power :
    FlexibilityDirection → FlexibilityAggregate → List Reservation → Power
unfolding reserves_from
reserved_power direction a rs =
    sum_of (λ r. r.allocated_power_kw)
      (filter (λ r. reserves_from a r && r.direction == direction) rs)

unfoldable pub adjust : List Reservation → FlexibilityAggregate → FlexibilityAggregate
unfolding reserved_power round_to
adjust rs a =
    let up = reserved_power upward a rs in
    let down = reserved_power downward a rs in
    let duration = a.interval_end - a.interval_start in
    record a {
      upward_capacity_kw = round_to power_step (a.upward_capacity_kw - up);
      downward_capacity_kw = round_to power_step (a.downward_capacity_kw - down);
      upward_energy_kwh = round_to energy_step (a.upward_energy_kwh - up * duration);
      downward_energy_kwh = round_to energy_step (a.downward_energy_kwh - down * duration);
    }

unfoldable pub apply_residual :
    List FlexibilityAggregate → List Reservation → List FlexibilityAggregate
unfolding adjust
apply_residual aggregates rs = map (adjust rs) aggregates

unfoldable pub apply_residual_capacity :
    List FlexibilityAggregate → Instant → Backend → List FlexibilityAggregate × Backend
unfolding apply_residual
apply_residual_capacity aggregates now b =
    (apply_residual aggregates (active_reservations (expire now b)), expire now b)

abbrev pub cell_of : FlexibilityAggregate → ProductCell
cell_of a = record {
  tenant_id = a.tenant_id;
  zone_id = a.zone_id;
  interval_start = a.interval_start;
  interval_end = a.interval_end;
  consequence_type = a.consequence_type;
}

abbrev pub residual_of : FlexibilityAggregate → Residual
residual_of a = record {
  upward_capacity_kw = a.upward_capacity_kw;
  downward_capacity_kw = a.downward_capacity_kw;
  upward_energy_kwh = a.upward_energy_kwh;
  downward_energy_kwh = a.downward_energy_kwh;
}

-- `previous is not None and previous != residual`
abbrev pub differs : Option Residual → Residual → Bool
differs none residual = false
differs (some previous) residual = not (previous == residual)

-- The suppression of a cell whose residual has changed.
unfoldable pub note_change : FlexibilityAggregate → Backend → Backend
note_change a b =
    if differs (published_residual b (cell_of a)) (residual_of a)
    then suppress_public_cell (cell_of a) b
    else b

-- One round of the loop of `public_residual_capacity`: is the aggregate published, and the state.
unfoldable pub publish_one : FlexibilityAggregate → Backend → Bool × Backend
unfolding note_change
publish_one a b =
    let noted = note_change a b in
    if public_cell_is_suppressed noted (cell_of a)
    then (false, noted)
    else (true, set_published_residual (cell_of a) (residual_of a) noted)

unfoldable pub publish_all :
    List FlexibilityAggregate → Backend → List FlexibilityAggregate × Backend
publish_all [] b = ([], b)
publish_all (a ∷ rest) b =
    let (published, b') = publish_one a b in
    let (later, b'') = publish_all rest b' in (if published then a ∷ later else later, b'')

unfoldable pub public_residual_capacity :
    List FlexibilityAggregate → Instant → Backend → List FlexibilityAggregate × Backend
unfolding publish_all publish_one apply_residual
public_residual_capacity aggregates now b =
    let current = expire now b in
    publish_all (apply_residual aggregates (active_reservations current)) current
