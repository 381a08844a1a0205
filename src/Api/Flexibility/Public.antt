-- ===== src/Api/Flexibility/Public.antt =====
-- What the responses of `get_flexibility` (src/der_flex/api/app.py) show.
use der_flex.Prelude.{
  ◌⊎◌, inl, inr, ℕ, zero, suc, ◌+◌, ◌*◌, ◌/◌, ◌%◌, ◌≤◌, max, leb, ◌<◌, ◌≡◌, String, true, List, [],
  ◌∷◌, ok, err, arith, All, All-filter, filter, Bool-cases, Result-cases, refl, inl, inr,
}
use mathlib.Core.Path.{subst, sym, ◌∙◌}
use native.Mathlib.Nat.{mul-mod_left}
use der_flex.Prelude.Int.{ℤ, pos, negsuc, pos_part, neg_part}
use der_flex.Prelude.Rounding.{nano_step, round_to, round_to_nano, round_to-mod}
use der_flex.Prelude.Dict
use der_flex.Prelude.Dict.{Dict}
use der_flex.Prelude.Dict.Laws.{All-set}
use der_flex.Prelude.Sorting.{All-sorted, sorted}
use der_flex.Domain.Models.{Instant, Energy, FlexibilityAggregate, FlexibilityOffer}
use der_flex.Domain.Store.{InMemoryOfferStore, BudgetKey}
use der_flex.Domain.Store.Query.{
  query, publish_groups, publish_group, hide_differences, GroupKey, in_group, is_visible, group_leb,
  round_signed, group_keys,
}
use der_flex.Domain.Store.Snapshots.{
  consume_privacy_query, publish_privacy_snapshot, keep_first, snapshot_key, snapshot_key_eq,
  Snapshots,
}
use der_flex.Api.Security.{AccessPrincipal}
use der_flex.Api.Privacy.{
  PrivacyPublicationPolicy, is_accepted, eligible, sanitize, floor_energy, energy_slack,
}
use der_flex.Api.Privacy.Coarse.{sanitize-coarse}
use der_flex.Api.Flexibility.{
  AppState, candidates_of, publish, get_flexibility, admit, Response, ApiError, budget_exceeded,
  public_residual_capacity, publication_epoch,
}

-- A multiple of the step, rounded to the ninth decimal of a kWh.
abbrev pub IsNearMultiple : Energy → Energy → Type 0
IsNearMultiple step x =
    (k : ℕ) × (2 * x ≤ 2 * (k * step) + nano_step)
    × (2 * (k * step) ≤ 2 * x + nano_step)
    × (x % nano_step ≡ 0)

-- The baseline and the capacities are multiples of the resolution of power, the energies of that of
-- energy, up to the rounding, and the confidence of its own. The participants shown are one or a
-- multiple of the bucket, and with less than one bucket more they reach the threshold: the number
-- itself may be below it.
abbrev pub IsPublic : PrivacyPublicationPolicy → FlexibilityAggregate → Type 0
IsPublic p a =
    ((pos_part a.baseline_power_kw + neg_part a.baseline_power_kw) % p.power_resolution_kw ≡ 0)
    × (a.upward_capacity_kw % p.power_resolution_kw ≡ 0)
    × (a.downward_capacity_kw % p.power_resolution_kw ≡ 0)
    × IsNearMultiple p.energy_resolution_kwh a.upward_energy_kwh
    × IsNearMultiple p.energy_resolution_kwh a.downward_energy_kwh
    × (a.confidence % p.confidence_resolution ≡ 0)
    × ((a.participant_count ≡ 1) ⊎ (a.participant_count % p.participant_bucket_size ≡ 0))
    × (p.minimum_participants < a.participant_count + p.participant_bucket_size)

floor_energy-IsNearMultiple : (value step : Energy) → IsNearMultiple step (floor_energy value step)
unfolding floor_energy
floor_energy-IsNearMultiple value step =
    let k = (value + energy_slack) / step in
    let (up, down, whole) = round_to_nano (k * step) in (k, up, down, whole)

-- Negating a number keeps its magnitude.
magnitude_of_negated :
    (n : ℕ) → let z : ℤ = elim n [ zero ↦ pos 0 | suc m ↦ negsuc m ] in pos_part z + neg_part z ≡ n
magnitude_of_negated zero = refl
magnitude_of_negated (suc m) = omega arith

round_signed-mod :
    (step : ℕ) (z : ℤ)
    → (pos_part (round_signed step z) + neg_part (round_signed step z)) % step ≡ 0
round_signed-mod step (pos n) = ground (arith, round_to-mod step n)
round_signed-mod step (negsuc n) =
    rw (magnitude_of_negated (round_to step (n + 1))) (round_to-mod step (n + 1))

bucketed :
    (count bucket : ℕ)
    → (max 1 (count / bucket * bucket) ≡ 1) ⊎ (max 1 (count / bucket * bucket) % bucket ≡ 0)
bucketed count bucket = elim (Bool-cases (leb 1 (count / bucket * bucket))) [
  | inl e ↦ inr (ground (arith, e, mul-mod_left (count / bucket) bucket))
  | inr e ↦ inl (ground (arith, e))
]

abbrev pub HasPublicSnapshots : PrivacyPublicationPolicy → InMemoryOfferStore → Type 0
HasPublicSnapshots p s = All (λ e. IsPublic p e.1) s.privacy_snapshots

sanitize-IsPublic :
    (p : PrivacyPublicationPolicy) (a : FlexibilityAggregate) (epoch : Instant)
    → is_accepted p ≡ true
    → eligible p a ≡ true
    → IsPublic p (sanitize p a epoch)
unfolding eligible sanitize
sanitize-IsPublic p a epoch h e =
    let (up, down, confidence, low, high, cell, at) = sanitize-coarse p a epoch h in
    (
      round_signed-mod p.power_resolution_kw a.baseline_power_kw,
      up.2,
      down.2,
      floor_energy-IsNearMultiple a.upward_energy_kwh p.energy_resolution_kwh,
      floor_energy-IsNearMultiple a.downward_energy_kwh p.energy_resolution_kwh,
      confidence.2,
      bucketed a.participant_count p.participant_bucket_size,
      ground (arith),
    )

candidates_of-IsPublic :
    (p : PrivacyPublicationPolicy) (epoch : Instant) (xs : List FlexibilityAggregate)
    → is_accepted p ≡ true
    → All (IsPublic p) (candidates_of p epoch xs)
unfolding candidates_of
candidates_of-IsPublic p epoch [] h = tt
candidates_of-IsPublic p epoch (a ∷ rest) h = elim (Bool-cases (eligible p a)) [
  | inl e ↦ rw e (sanitize-IsPublic p a epoch h e, candidates_of-IsPublic p epoch rest h)
  | inr e ↦ rw e (candidates_of-IsPublic p epoch rest h)
]

keep_first-All :
    (P : FlexibilityAggregate → Type 0) (tenant_id zone_id : String) (epoch : Instant)
    (candidates : List FlexibilityAggregate) (d : Snapshots)
    → All P candidates
    → All (λ e. P e.1) d
    → All (λ e. P e.1) (keep_first tenant_id zone_id epoch candidates d)
unfolding keep_first
keep_first-All P tenant_id zone_id epoch [] d c h = h
keep_first-All P tenant_id zone_id epoch (a ∷ rest) d c h =
    let key = snapshot_key tenant_id zone_id epoch a in
    elim (Bool-cases (Dict.has key d)) [
      | inl e ↦ rw e (keep_first-All P tenant_id zone_id epoch rest d c.1 h)
      | inr e ↦ rw e (
          keep_first-All P tenant_id zone_id epoch rest (Dict.set key a d) c.1
            (All-set (λ x. P x.1) key a d c.0 h))
    ]

All-values :
    (P : FlexibilityAggregate → Type 0) (d : Snapshots) → All (λ e. P e.1) d → All P (Dict.values d)
All-values P [] h = tt
All-values P (e ∷ d) h = (h.0, All-values P d h.1)

publish_privacy_snapshot-All :
    (P : FlexibilityAggregate → Type 0) (tenant_id zone_id : String) (epoch start end : Instant)
    (candidates : List FlexibilityAggregate) (s : InMemoryOfferStore)
    → All P candidates
    → All (λ e. P e.1) s.privacy_snapshots
    → All P (publish_privacy_snapshot tenant_id zone_id epoch start end candidates s).0
      × All
          (λ e. P e.1)
          (publish_privacy_snapshot tenant_id zone_id epoch start end candidates
            s).1.privacy_snapshots
unfolding publish_privacy_snapshot
publish_privacy_snapshot-All P tenant_id zone_id epoch start end candidates s c h =
    let kept = keep_first-All P tenant_id zone_id epoch candidates s.privacy_snapshots c h in
    (All-sorted _ P _ (All-values P _ (All-filter (λ e. P e.1) _ _ kept)), kept)

publish_group-snapshots :
    (tenant_id zone_id : String) (now : Instant) (g : GroupKey) (offers : List FlexibilityOffer)
    (s : InMemoryOfferStore)
    → (publish_group tenant_id zone_id now g offers s).1.privacy_snapshots ≡ s.privacy_snapshots
unfolding publish_group hide_differences
publish_group-snapshots tenant_id zone_id now g offers s = ground (arith)

publish_groups-snapshots :
    (tenant_id zone_id : String) (now : Instant) (visible : List FlexibilityOffer)
    (groups : List GroupKey) (s : InMemoryOfferStore)
    → (publish_groups tenant_id zone_id now visible groups s).1.privacy_snapshots
      ≡ s.privacy_snapshots
unfolding publish_groups
publish_groups-snapshots tenant_id zone_id now visible [] s = refl
publish_groups-snapshots tenant_id zone_id now visible (g ∷ rest) s =
    let offers = filter (in_group g) visible in
    publish_groups-snapshots tenant_id zone_id now visible rest
      (publish_group tenant_id zone_id now g offers s).1
    ∙ publish_group-snapshots tenant_id zone_id now g offers s

query-snapshots :
    (zone_id tenant_id : String) (start end now : Instant) (s : InMemoryOfferStore)
    → (query zone_id start end tenant_id now s).1.privacy_snapshots ≡ s.privacy_snapshots
unfolding query
query-snapshots zone_id tenant_id start end now s =
    let visible = filter (is_visible tenant_id zone_id start end now) (Dict.values s.offers) in
    publish_groups-snapshots tenant_id zone_id now visible (sorted group_leb (group_keys visible)) s

-- What a response and the state after it show.
abbrev pub ShowsPublic : PrivacyPublicationPolicy → Response → Type 0
ShowsPublic p (ok shown, s) = All (IsPublic p) shown × HasPublicSnapshots p s.offer_store
ShowsPublic p (err e, s) = HasPublicSnapshots p s.offer_store

publish-ShowsPublic :
    (p : PrivacyPublicationPolicy) (tenant_id zone_id : String) (start end now : Instant)
    (s : AppState)
    → is_accepted p ≡ true
    → HasPublicSnapshots p s.offer_store
    → ShowsPublic p (publish p tenant_id zone_id start end now s)
unfolding publish
publish-ShowsPublic p tenant_id zone_id start end now s h k =
    let queried = query zone_id start end tenant_id now s.offer_store in
    let public = public_residual_capacity queried.0 now s.reservations in
    let epoch = publication_epoch p now in
    publish_privacy_snapshot-All (IsPublic p) tenant_id zone_id epoch start end
      (candidates_of p epoch public.0) queried.1 (candidates_of-IsPublic p epoch public.0 h)
      (subst (All (λ e. IsPublic p e.1))
        (sym (query-snapshots zone_id tenant_id start end now s.offer_store)) k)

-- A request is refused, or over the budget, or published.
pub get_flexibility-cases :
    (p : PrivacyPublicationPolicy) (principal : AccessPrincipal) (zone_id : String)
    (start end now : Instant) (s : AppState)
    → let key : BudgetKey = record {
      tenant_id = principal.tenant_id;
      window_start = publication_epoch p now;
    } in
      let counted = record s {
        offer_store = (consume_privacy_query key p.queries_per_interval s.offer_store).1;
      } in
      ((x : ApiError) × (get_flexibility p principal zone_id start end now s ≡ (err x, s)))
      ⊎ (get_flexibility p principal zone_id start end now s ≡ (err budget_exceeded, counted))
      ⊎ (get_flexibility p principal zone_id start end now s
          ≡ publish p principal.tenant_id zone_id start end now counted)
unfolding get_flexibility
get_flexibility-cases p principal zone_id start end now s =
    elim (Result-cases (admit p principal zone_id start end)) [
      | inr (x, e) ↦ inl (x, ground (arith))
      | inl (u, e) ↦ ground (arith)
    ]

consume-snapshots :
    (key : BudgetKey) (limit : ℕ) (s : InMemoryOfferStore)
    → (consume_privacy_query key limit s).1.privacy_snapshots ≡ s.privacy_snapshots
unfolding consume_privacy_query
consume-snapshots key limit s = ground (arith)

-- Under an accepted policy, and from a store whose snapshots are public, `get_flexibility` returns
-- public aggregates only, whoever asks and however the request ends, and its snapshots stay public.
-- In a public aggregate the baseline, the capacities, the energies and the confidence are multiples of
-- their resolutions, the energies up to the rounding to nine decimals; the participants are one or a
-- multiple of the bucket, and reach the minimum when less than one bucket is added.
pub get_flexibility-ShowsPublic :
    (p : PrivacyPublicationPolicy) (principal : AccessPrincipal) (zone_id : String)
    (start end now : Instant) (s : AppState)
    → is_accepted p ≡ true
    → HasPublicSnapshots p s.offer_store
    → ShowsPublic p (get_flexibility p principal zone_id start end now s)
get_flexibility-ShowsPublic p principal zone_id start end now s h k =
    let key : BudgetKey = record {
      tenant_id = principal.tenant_id;
      window_start = publication_epoch p now;
    } in
    let counted : AppState = record s {
      offer_store = (consume_privacy_query key p.queries_per_interval s.offer_store).1;
    } in
    let still : HasPublicSnapshots p counted.offer_store =
      subst (All (λ e. IsPublic p e.1))
        (sym (consume-snapshots key p.queries_per_interval s.offer_store)) k in
    elim (get_flexibility-cases p principal zone_id start end now s) [
      | inl (x, e) ↦ subst (ShowsPublic p) (sym e) k
      | inr (inl e) ↦ subst (ShowsPublic p) (sym e) still
      | inr (inr e) ↦
          subst (ShowsPublic p) (sym e)
            (publish-ShowsPublic p principal.tenant_id zone_id start end now counted h still)
    ]
