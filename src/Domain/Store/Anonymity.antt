-- ===== src/Domain/Store/Anonymity.antt =====
-- What `InMemoryOfferStore.query` publishes (src/der_flex/domain/store.py).
use der_flex.Prelude.{
  refl, ◌≤◌, ◌≡◌, Bool, String, true, false, Option, none, some, List, [], ◌∷◌, arith, All,
  contains, ltb, filter, length, Bool-cases, any, contains-add_mono, inl, All-map_pred, inr,
}
use der_flex.Prelude.Dict
use der_flex.Prelude.Sorting.{sorted}
use der_flex.Domain.Models.{Instant, FlexibilityOffer, FlexibilityAggregate, ProductCell}
use der_flex.Domain.Equality.{cell_eq}
use der_flex.Domain.Store.{InMemoryOfferStore}
use der_flex.Domain.Store.Query.{
  GroupKey, group_cell, suppress_if, hide_differences, publish_group, publish_groups, cohort_of,
  aggregate_of, prepend_some, is_visible, group_keys, group_leb, in_group, query, changed,
  contradicts,
}

abbrev pub aggregate_cell : FlexibilityAggregate → ProductCell
aggregate_cell a = record {
  tenant_id = a.tenant_id;
  zone_id = a.zone_id;
  interval_start = a.interval_start;
  interval_end = a.interval_end;
  consequence_type = a.consequence_type;
}

-- An aggregate that a store may show: enough participants, and a cell that is not suppressed.
abbrev pub IsPublishable : InMemoryOfferStore → FlexibilityAggregate → Type 0
IsPublishable s a =
    (s.minimum_participants ≤ a.participant_count)
    × (contains (aggregate_cell a) s.suppressed_cells ≡ false)

-- The threshold is kept, and no suppressed cell is let go.
abbrev pub Hides : InMemoryOfferStore → InMemoryOfferStore → Type 0
Hides s s' =
    (s'.minimum_participants ≡ s.minimum_participants)
    × ((c : ProductCell)
        → contains c s.suppressed_cells ≡ true
        → contains c s'.suppressed_cells ≡ true)

Hides-refl : (s : InMemoryOfferStore) → Hides s s
Hides-refl s = (refl, λ c h. h)

Hides-trans : (a b c : InMemoryOfferStore) → Hides a b → Hides b c → Hides a c
Hides-trans a b c (m, h) (n, k) = (ground (arith), λ x e. k x (h x e))

suppress_if-Hides :
    (b : Bool) (c : ProductCell) (s : InMemoryOfferStore) → Hides s (suppress_if b c s)
suppress_if-Hides true c s = (refl, λ x h. contains-add_mono x c s.suppressed_cells h)
suppress_if-Hides false c s = Hides-refl s

pub hide_differences-Hides :
    (c : ProductCell) (cohort : List String) (s : InMemoryOfferStore)
    → Hides s (hide_differences c cohort s)
unfolding hide_differences
hide_differences-Hides c cohort s =
    let noted = suppress_if (changed (Dict.get c s.published_cohorts) cohort) c s in
    let again = any (contradicts c cohort) noted.published_cohorts in
    Hides-trans s noted (suppress_if again c noted)
      (suppress_if-Hides (changed (Dict.get c s.published_cohorts) cohort) c s)
      (suppress_if-Hides again c noted)

IsPublishable-Hides :
    (s s' : InMemoryOfferStore) (a : FlexibilityAggregate)
    → Hides s s'
    → IsPublishable s' a
    → IsPublishable s a
IsPublishable-Hides s s' a (m, h) (k, e) = (
  ground (arith),
  elim (Bool-cases (contains (aggregate_cell a) s.suppressed_cells)) [
    | inl t ↦ absurd (cc (h (aggregate_cell a) t, e))
    | inr f ↦ f
  ],
)

abbrev AllSome : (FlexibilityAggregate → Type 0) → Option FlexibilityAggregate → Type 0
AllSome P none = Unit
AllSome P (some a) = P a

publish_group-step :
    (tenant_id zone_id : String) (now : Instant) (g : GroupKey) (offers : List FlexibilityOffer)
    (s : InMemoryOfferStore)
    → Hides s (publish_group tenant_id zone_id now g offers s).1
      × AllSome (IsPublishable s) (publish_group tenant_id zone_id now g offers s).0
unfolding publish_group aggregate_of
publish_group-step tenant_id zone_id now g offers s =
    let noted = hide_differences (group_cell tenant_id zone_id g) (cohort_of offers) s in
    let hides = hide_differences-Hides (group_cell tenant_id zone_id g) (cohort_of offers) s in
    elim (Bool-cases (contains (group_cell tenant_id zone_id g) noted.suppressed_cells)) [
      | inl e ↦ rw e (hides, tt)
      | inr e ↦ elim (Bool-cases (ltb (length (cohort_of offers)) noted.minimum_participants)) [
        | inl l ↦ rw e (rw l (hides, tt))
        | inr l ↦ rw e (
            rw l (
              hides,
              IsPublishable-Hides s noted (aggregate_of tenant_id zone_id g now offers) hides
                  (ground (arith), e),
            ))
      ]
    ]

All-prepend :
    (P : FlexibilityAggregate → Type 0) (o : Option FlexibilityAggregate)
    (xs : List FlexibilityAggregate)
    → AllSome P o
    → All P xs
    → All P (prepend_some o xs)
All-prepend P none xs h k = k
All-prepend P (some a) xs h k = (h, k)

pub publish_groups-step :
    (tenant_id zone_id : String) (now : Instant) (visible : List FlexibilityOffer)
    (groups : List GroupKey) (s : InMemoryOfferStore)
    → Hides s (publish_groups tenant_id zone_id now visible groups s).1
      × All (IsPublishable s) (publish_groups tenant_id zone_id now visible groups s).0
unfolding publish_groups
publish_groups-step tenant_id zone_id now visible [] s = (Hides-refl s, tt)
publish_groups-step tenant_id zone_id now visible (g ∷ rest) s =
    let first = publish_group tenant_id zone_id now g (filter (in_group g) visible) s in
    let step = publish_group-step tenant_id zone_id now g (filter (in_group g) visible) s in
    let later = publish_groups-step tenant_id zone_id now visible rest first.1 in
    let kept =
      All-map_pred (IsPublishable first.1) (IsPublishable s)
        (λ a. IsPublishable-Hides s first.1 a step.0) _ later.1 in
    (
      Hides-trans s first.1 (publish_groups tenant_id zone_id now visible rest first.1).1 step.0
          later.0,
      All-prepend (IsPublishable s) first.0 _ step.1 kept,
    )

-- Every aggregate that a query returns has as many participants as the threshold asks for, and is
-- of a cell that was not suppressed; the query keeps the threshold and every suppressed cell.
pub query_publishes :
    (zone_id tenant_id : String) (start end now : Instant) (s : InMemoryOfferStore)
    → All (IsPublishable s) (query zone_id start end tenant_id now s).0
      × Hides s (query zone_id start end tenant_id now s).1
unfolding query
query_publishes zone_id tenant_id start end now s =
    let visible = filter (is_visible tenant_id zone_id start end now) (Dict.values s.offers) in
    let both =
      publish_groups-step tenant_id zone_id now visible (sorted group_leb (group_keys visible)) s in
    (both.1, both.0)
