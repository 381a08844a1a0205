-- ===== src/Examples/Publication.antt =====
-- Publication: the theorems on residual capacity, the offer store and the privacy policy.
use der_flex.Prelude.{
  ◌≤◌, ◌≡◌, ◌↔◌, ◌<◌, max, arith, ◌+◌, refl, true, false, [], ◌∷◌, All, ◌*◌, inr,
}
use der_flex.Prelude.Dict
use der_flex.Domain.Models.{FlexibilityAggregate}
use der_flex.Domain.Store.{InMemoryOfferStore, BudgetKey, SnapshotKey, upsert}
use der_flex.Domain.Store.Query.{query}
use der_flex.Domain.Store.Snapshots.{snapshot_key_eq, query_count, snapshot_key}
use der_flex.Domain.Store.Anonymity.{aggregate_cell, IsPublishable, Hides, query_publishes}
use der_flex.Domain.Store.Budget.{granted, granted_within}
use der_flex.Reservations.Backend.{
  Backend, empty, public_cell_is_suppressed, published_residual, suppress_public_cell,
}
use der_flex.Reservations.Service.Residual.{
  cell_of, residual_of, differs, publish_one, public_residual_capacity,
}
use der_flex.Reservations.Service.Steps.{here, next, publishes}
use der_flex.Reservations.Service.Publication.{
  publish_one_iff, suppressed_stays, publication_stable,
}
use der_flex.Api.Privacy.{
  default_policy, is_accepted, publication_epoch, one_minute, aligned, sanitize,
}
use der_flex.Api.Privacy.Coarse.{IsFloor, sanitize-coarse, publication_epoch-IsAligned}
use der_flex.Api.Security.{development}
use der_flex.Api.Flexibility.{get_flexibility}
use der_flex.Api.Flexibility.Public.{ShowsPublic, HasPublicSnapshots, get_flexibility-ShowsPublic}
use der_flex.Examples.Data.{source, aggregate, offer_of}

abbrev less : FlexibilityAggregate
less = record aggregate { upward_capacity_kw = 9000000000 }

publication_stable_example :
    All
      (λ a.
        All
          (λ x. cell_of x ≡ cell_of a → residual_of x ≡ residual_of a)
          (public_residual_capacity (aggregate ∷ []) 1000 empty).0)
      (public_residual_capacity
        (less ∷ [])
        2000
        (public_residual_capacity (aggregate ∷ []) 1000 empty).1).0
publication_stable_example =
    publication_stable source (aggregate ∷ []) (less ∷ []) 1000 2000 empty here

publish_one_iff_example : ((publish_one aggregate empty).0 ≡ true) ↔ (
    (public_cell_is_suppressed empty (cell_of aggregate) ≡ false)
    × (differs (published_residual empty (cell_of aggregate)) (residual_of aggregate) ≡ false))
publish_one_iff_example = publish_one_iff aggregate empty

abbrev hidden : Backend
hidden = suppress_public_cell (cell_of aggregate) empty

is_hidden : public_cell_is_suppressed hidden (cell_of aggregate) ≡ true
unfolding suppress_public_cell public_cell_is_suppressed
is_hidden = refl

suppressed_stays_example :
    public_cell_is_suppressed
      (public_residual_capacity (aggregate ∷ []) 1000 hidden).1
      (cell_of aggregate)
    ≡ true
suppressed_stays_example =
    suppressed_stays source (cell_of aggregate) is_hidden
      (next here (publishes (aggregate ∷ []) 1000 refl))

abbrev store : InMemoryOfferStore
store = record {
  minimum_participants = 2;
  offers = [];
  source_positions = [];
  disconnected_resources = [];
  published_cohorts = [];
  suppressed_cells = [];
  privacy_query_counts = [];
  privacy_snapshots =
      (snapshot_key "tenant" "north" 0 aggregate, record aggregate { participant_count = 10 }) ∷ [];
}

abbrev filled : InMemoryOfferStore
filled = (upsert (offer_of "b-battery") (upsert (offer_of "a-battery") store).1).1

query_publishes_example :
    All (IsPublishable filled) (query "north" 0 1800000000 "tenant" 1000 filled).0
    × Hides filled (query "north" 0 1800000000 "tenant" 1000 filled).1
query_publishes_example = query_publishes "north" "tenant" 0 1800000000 1000 filled

abbrev window : BudgetKey
window = record { tenant_id = "tenant"; window_start = 0 }

none_yet : query_count window store ≤ 2
unfolding query_count
none_yet = omega (arith)

granted_within_example :
    ((granted window 2 (window ∷ window ∷ window ∷ []) store).0 + query_count window store
      ≡ query_count window (granted window 2 (window ∷ window ∷ window ∷ []) store).1)
    × (query_count window (granted window 2 (window ∷ window ∷ window ∷ []) store).1 ≤ 2)
granted_within_example = granted_within window 2 (window ∷ window ∷ window ∷ []) store none_yet

abbrev recorded : FlexibilityAggregate
recorded = record aggregate { participant_count = 10 }

abbrev window_key : SnapshotKey
window_key = snapshot_key "tenant" "north" 0 aggregate

policy_passes : is_accepted default_policy ≡ true
unfolding is_accepted
policy_passes = refl

publication_epoch-IsAligned_example :
    (aligned default_policy (publication_epoch default_policy 1000000000) ≡ true)
    × (publication_epoch default_policy 1000000000 ≤ 1000000000)
    × (1000000000 < publication_epoch default_policy 1000000000 + 15 * one_minute)
publication_epoch-IsAligned_example =
    publication_epoch-IsAligned default_policy 1000000000 (omega arith)

sanitize-coarse_example :
    let b = sanitize default_policy aggregate 900000000 in
    IsFloor 1000000000 10000000000 b.upward_capacity_kw
    × IsFloor 1000000000 6000000000 b.downward_capacity_kw
    × IsFloor 50000000 900000000 b.confidence
    × (b.participant_count ≤ max 1 12)
    × (12 < b.participant_count + 5)
    × (aggregate_cell b ≡ aggregate_cell aggregate)
    × (b.generated_at ≡ 900000000)
sanitize-coarse_example = sanitize-coarse default_policy aggregate 900000000 policy_passes

public_store : HasPublicSnapshots default_policy store
public_store = (
  (
    refl,
    refl,
    refl,
    (10, omega arith, omega arith, refl),
    (6, omega arith, omega arith, refl),
    refl,
    inr refl,
    omega arith,
  ),
  tt,
)

get_flexibility-ShowsPublic_example : ShowsPublic default_policy (
    get_flexibility default_policy development "north" 900000000 1800000000 1000000000
      (record { offer_store = store; reservations = empty }))
get_flexibility-ShowsPublic_example =
    get_flexibility-ShowsPublic default_policy development "north" 900000000 1800000000 1000000000
      (record { offer_store = store; reservations = empty }) policy_passes public_store
