-- ===== src/Domain/Equality.antt =====
-- Python's `==` on the types of src/der_flex/domain/models.py: pydantic models are equal when their
-- fields are.
use der_flex.Prelude.{
  ◌≡◌, ◌↔◌, Bool, true, false, ◌&&◌, arith, nat_beq, Eq, ◌==◌, ==_iff, nat_eq, string_eq,
}
use der_flex.Prelude.Int.{ℤ, pos, negsuc}
use der_flex.Domain.Models.{
  ConsequenceType, vanish, defer, FlexibilityDirection, upward, downward, ProductCell,
  FlexibilityOffer,
}

abbrev pub consequence_beq : ConsequenceType → ConsequenceType → Bool
consequence_beq vanish vanish = true
consequence_beq defer defer = true
consequence_beq a b = false

pub consequence_beq_iff : (a b : ConsequenceType) → (consequence_beq a b ≡ true) ↔ (a ≡ b)
consequence_beq_iff vanish vanish = ground arith
consequence_beq_iff a b = ground arith

instance abbrev pub consequence_eq : Eq ConsequenceType
consequence_eq = record { beq = consequence_beq; beq_iff = consequence_beq_iff }

abbrev pub direction_beq : FlexibilityDirection → FlexibilityDirection → Bool
direction_beq upward upward = true
direction_beq downward downward = true
direction_beq a b = false

pub direction_beq_iff : (a b : FlexibilityDirection) → (direction_beq a b ≡ true) ↔ (a ≡ b)
direction_beq_iff upward upward = ground arith
direction_beq_iff a b = ground arith

instance abbrev pub direction_eq : Eq FlexibilityDirection
direction_eq = record { beq = direction_beq; beq_iff = direction_beq_iff }

abbrev pub int_beq : ℤ → ℤ → Bool
int_beq (pos a) (pos b) = nat_beq a b
int_beq (negsuc a) (negsuc b) = nat_beq a b
int_beq a b = false

pub int_beq_iff : (a b : ℤ) → (int_beq a b ≡ true) ↔ (a ≡ b)
int_beq_iff (pos a) (pos b) = ground arith
int_beq_iff (negsuc a) (negsuc b) = ground arith
int_beq_iff a b = ground arith

instance abbrev pub int_eq : Eq ℤ
int_eq = record { beq = int_beq; beq_iff = int_beq_iff }

abbrev pub cell_beq : ProductCell → ProductCell → Bool
cell_beq a b =
    a.tenant_id == b.tenant_id
    && a.zone_id == b.zone_id
    && a.interval_start == b.interval_start
    && a.interval_end == b.interval_end
    && a.consequence_type == b.consequence_type

pub cell_beq_iff : (a b : ProductCell) → (cell_beq a b ≡ true) ↔ (a ≡ b)
cell_beq_iff a b = ground (
  arith,
  ==_iff a.tenant_id b.tenant_id,
  ==_iff a.zone_id b.zone_id,
  ==_iff a.consequence_type b.consequence_type,
)

instance abbrev pub cell_eq : Eq ProductCell
cell_eq = record { beq = cell_beq; beq_iff = cell_beq_iff }

abbrev pub offer_beq : FlexibilityOffer → FlexibilityOffer → Bool
offer_beq a b =
    a.resource_id == b.resource_id
    && a.zone_id == b.zone_id
    && a.interval_start == b.interval_start
    && a.interval_end == b.interval_end
    && a.baseline_power_kw == b.baseline_power_kw
    && a.upward_capacity_kw == b.upward_capacity_kw
    && a.downward_capacity_kw == b.downward_capacity_kw
    && a.upward_energy_kwh == b.upward_energy_kwh
    && a.downward_energy_kwh == b.downward_energy_kwh
    && a.confidence == b.confidence
    && a.consequence_type == b.consequence_type
    && a.source_version == b.source_version
    && a.source_epoch == b.source_epoch
    && a.source_sequence == b.source_sequence
    && a.observed_at == b.observed_at
    && a.expires_at == b.expires_at
    && a.tenant_id == b.tenant_id

pub offer_beq_iff : (a b : FlexibilityOffer) → (offer_beq a b ≡ true) ↔ (a ≡ b)
offer_beq_iff a b = ground (
  arith,
  ==_iff a.resource_id b.resource_id,
  ==_iff a.zone_id b.zone_id,
  ==_iff a.baseline_power_kw b.baseline_power_kw,
  ==_iff a.consequence_type b.consequence_type,
  ==_iff a.source_version b.source_version,
  ==_iff a.tenant_id b.tenant_id,
)

instance abbrev pub offer_eq : Eq FlexibilityOffer
offer_eq = record { beq = offer_beq; beq_iff = offer_beq_iff }
