-- ===== src/Api/Privacy/Coarse.antt =====
-- What `sanitize` and `publication_epoch` (src/der_flex/privacy.py) let through.
use der_flex.Prelude.{refl, ℕ, ◌+◌, ◌*◌, ◌/◌, ◌%◌, ◌≤◌, ◌<◌, ◌≡◌, true, arith, ◌-◌}
use native.Mathlib.Nat.{mod-lt, div-add-mod', mul-mod_left}
use der_flex.Domain.Store.Anonymity.{aggregate_cell}
use der_flex.Domain.Models.{Instant}
use der_flex.Api.Privacy.{
  PrivacyPublicationPolicy, publication_epoch, aligned, floor_to, minute_of, one_minute, sanitize,
  is_accepted, FlexibilityAggregate, max,
}

floor_to-bounds :
    (value resolution : ℕ)
    → 0 < resolution
    → (floor_to value resolution ≤ value) × (value < floor_to value resolution + resolution)
unfolding floor_to
floor_to-bounds value resolution h = ground (arith)

publication_epoch-aligned :
    (p : PrivacyPublicationPolicy) (now : Instant) → aligned p (publication_epoch p now) ≡ true
unfolding publication_epoch aligned
publication_epoch-aligned p now =
    let m = minute_of now in
    let quotient : m - m % p.interval_minutes ≡ m / p.interval_minutes * p.interval_minutes =
      ground (arith, div-add-mod' m p.interval_minutes) in
    let multiple : (m - m % p.interval_minutes) % p.interval_minutes ≡ 0 =
      rw quotient (mul-mod_left (m / p.interval_minutes) p.interval_minutes) in
    ground (arith)

-- For a positive cadence, the epoch of an instant is aligned to it, not later than the instant, and
-- less than one cadence earlier.
pub publication_epoch-IsAligned :
    (p : PrivacyPublicationPolicy) (now : Instant)
    → 0 < p.interval_minutes
    → (aligned p (publication_epoch p now) ≡ true)
      × (publication_epoch p now ≤ now)
      × (now < publication_epoch p now + p.interval_minutes * one_minute)
unfolding publication_epoch
publication_epoch-IsAligned p now h =
    (publication_epoch-aligned p now, ground (arith), ground (arith, mod-lt (minute_of now) h))

-- `b` is `a` rounded down to the resolution: no more, and less by less than a step.
abbrev pub IsFloor : ℕ → ℕ → ℕ → Type 0
IsFloor step a b = (b ≤ a) × (a < b + step) × (b % step ≡ 0)

floor_to-IsFloor :
    (value resolution : ℕ) → 0 < resolution → IsFloor resolution value (floor_to value resolution)
unfolding floor_to
floor_to-IsFloor value resolution h = (
  (floor_to-bounds value resolution h).0,
  (floor_to-bounds value resolution h).1,
  mul-mod_left (value / resolution) resolution,
)

-- Under an accepted policy, sanitizing rounds the capacities and the confidence down to their
-- resolutions, never shows more participants than there are, unless there are none, takes off
-- less than a bucket of them, keeps the cell, and stamps the epoch.
pub sanitize-coarse :
    (p : PrivacyPublicationPolicy) (a : FlexibilityAggregate) (epoch : Instant)
    → is_accepted p ≡ true
    → let b = sanitize p a epoch in
      IsFloor p.power_resolution_kw a.upward_capacity_kw b.upward_capacity_kw
      × IsFloor p.power_resolution_kw a.downward_capacity_kw b.downward_capacity_kw
      × IsFloor p.confidence_resolution a.confidence b.confidence
      × (b.participant_count ≤ max 1 a.participant_count)
      × (a.participant_count < b.participant_count + p.participant_bucket_size)
      × (aggregate_cell b ≡ aggregate_cell a)
      × (b.generated_at ≡ epoch)
unfolding sanitize is_accepted floor_to
sanitize-coarse p a epoch h =
    let power : 0 < p.power_resolution_kw = ground (arith) in
    let confidence : 0 < p.confidence_resolution = ground (arith) in
    let bucket : 0 < p.participant_bucket_size = ground (arith) in
    let (low, high) = floor_to-bounds a.participant_count p.participant_bucket_size bucket in
    (
      floor_to-IsFloor a.upward_capacity_kw p.power_resolution_kw power,
      floor_to-IsFloor a.downward_capacity_kw p.power_resolution_kw power,
      floor_to-IsFloor a.confidence p.confidence_resolution confidence,
      ground (arith),
      ground (arith),
      refl,
      refl,
    )
