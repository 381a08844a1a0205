-- ===== src/Domain/Store/Query.antt =====
-- `InMemoryOfferStore.zones` and `query` (src/der_flex/domain/store.py): the published aggregates.
use der_flex.Prelude.{
  zero, suc, ℕ, ◌+◌, ◌*◌, ◌/◌, String, Bool, true, false, not, ◌&&◌, ◌||◌, Option, none, some, List,
  [], ◌∷◌, if◌then◌else◌, leb, ltb, ◌==◌, nat_eq, string_eq, contains, add, all, any, length,
  distinct, filter, map, sum_of, min,
}
use der_flex.Prelude.Int.{ℤ, pos, negsuc, ◌+ℤ◌}
use der_flex.Prelude.Dict
use der_flex.Prelude.Dict.{Dict}
use der_flex.Prelude.Rounding.{round_to, power_step, energy_step}
use der_flex.Prelude.Sorting.{sorted, text_leb}
use der_flex.Domain.Models.{
  Instant, Power, ConsequenceType, vanish, defer, FlexibilityOffer, FlexibilityAggregate,
  ProductCell,
}
use der_flex.Domain.Equality.{consequence_eq, cell_eq}
use der_flex.Domain.Store.{InMemoryOfferStore}

-- The distinct resources of some offers.
unfoldable pub cohort_of : List FlexibilityOffer → List String
cohort_of offers = distinct (map (λ o. o.resource_id) offers)

-- `zones`: those with enough live participants, in order.
unfoldable pub zones : String → Instant → InMemoryOfferStore → List String
unfolding cohort_of sorted
zones tenant_id now s =
    let live =
      filter (λ o. o.tenant_id == tenant_id && leb now o.expires_at) (Dict.values s.offers) in
    let members = λ (zone : String). cohort_of (filter (λ o. o.zone_id == zone) live) in
    sorted text_leb (
      filter (λ zone. leb s.minimum_participants (length (members zone)))
        (distinct (map (λ o. o.zone_id) live)))

-- The key of a group: interval and consequence.
pub record GroupKey : Type 0 where
  pub interval_start : Instant
  pub interval_end : Instant
  pub consequence_type : ConsequenceType

abbrev pub in_group : GroupKey → FlexibilityOffer → Bool
in_group g o =
    o.interval_start == g.interval_start
    && o.interval_end == g.interval_end
    && o.consequence_type == g.consequence_type

-- "DEFER" comes before "VANISH".
abbrev pub consequence_leb : ConsequenceType → ConsequenceType → Bool
consequence_leb vanish defer = false
consequence_leb a b = true

abbrev pub group_leb : GroupKey → GroupKey → Bool
group_leb a b =
    ltb a.interval_start b.interval_start
    || (a.interval_start == b.interval_start
        && (ltb a.interval_end b.interval_end
            || (a.interval_end == b.interval_end
                && consequence_leb a.consequence_type b.consequence_type)))

abbrev pub group_key : FlexibilityOffer → GroupKey
group_key o = record {
  interval_start = o.interval_start;
  interval_end = o.interval_end;
  consequence_type = o.consequence_type;
}

-- The groups of a `defaultdict(list)`, each key once.
unfoldable pub group_keys : List FlexibilityOffer → List GroupKey
group_keys [] = []
group_keys (o ∷ rest) = group_key o ∷ filter (λ g. not (in_group g o)) (group_keys rest)

-- The offers that `query` groups: of the tenant and zone, live, and within the window.
unfoldable pub is_visible : String → String → Instant → Instant → Instant → FlexibilityOffer → Bool
is_visible tenant_id zone_id start end now o =
    o.tenant_id == tenant_id
    && o.zone_id == zone_id
    && leb now o.expires_at
    && leb start o.interval_start
    && leb o.interval_end end

abbrev pub group_cell : String → String → GroupKey → ProductCell
group_cell tenant_id zone_id g = record {
  tenant_id = tenant_id;
  zone_id = zone_id;
  interval_start = g.interval_start;
  interval_end = g.interval_end;
  consequence_type = g.consequence_type;
}

-- Equality of two sets.
abbrev pub same_set : List String → List String → Bool
same_set a b = all (λ x. contains x b) a && all (λ x. contains x a) b

abbrev pub changed : Option (List String) → List String → Bool
changed none cohort = false
changed (some previous) cohort = not (same_set previous cohort)

-- A published cell beside this one, of the same product, shows another cohort.
unfoldable pub contradicts : ProductCell → List String → ProductCell × List String → Bool
contradicts cell cohort (published, published_cohort) =
    published.tenant_id == cell.tenant_id
    && published.zone_id == cell.zone_id
    && published.consequence_type == cell.consequence_type
    && (published.interval_end == cell.interval_start
        || cell.interval_end == published.interval_start)
    && not (same_set published_cohort cohort)

abbrev pub suppress_if : Bool → ProductCell → InMemoryOfferStore → InMemoryOfferStore
suppress_if b cell s = if b then record s { suppressed_cells = add cell s.suppressed_cells } else s

-- The two tests that hide a cell.
unfoldable pub hide_differences :
    ProductCell → List String → InMemoryOfferStore → InMemoryOfferStore
unfolding contradicts
hide_differences cell cohort s =
    let noted = suppress_if (changed (Dict.get cell s.published_cohorts) cohort) cell s in
    suppress_if (any (contradicts cell cohort) noted.published_cohorts) cell noted

abbrev sum_ℤ : (FlexibilityOffer → ℤ) → List FlexibilityOffer → ℤ
sum_ℤ f [] = pos 0
sum_ℤ f (o ∷ rest) = f o +ℤ sum_ℤ f rest

-- Rounding is symmetric about zero.
abbrev pub round_signed : ℕ → ℤ → ℤ
round_signed step (pos n) = pos (round_to step n)
round_signed step (negsuc n) = elim (round_to step (n + 1)) [ zero ↦ pos 0 | suc m ↦ negsuc m ]

abbrev pub weight : FlexibilityOffer → Power
weight o = o.upward_capacity_kw + o.downward_capacity_kw

abbrev pub least_confidence : List FlexibilityOffer → ℕ
least_confidence [] = 0
least_confidence (o ∷ []) = o.confidence
least_confidence (o ∷ p ∷ rest) = min o.confidence (least_confidence (p ∷ rest))

-- The mean of the confidences, weighted by capacity and rounded to six decimals, or the least.
unfoldable pub mean_confidence : List FlexibilityOffer → ℕ
unfolding round_to
mean_confidence offers =
    let total = sum_of weight offers in
    if total == 0
    then round_to 1000 (least_confidence offers)
    else round_to (total * 1000) (sum_of (λ o. o.confidence * weight o) offers) / total

unfoldable pub aggregate_of :
    String → String → GroupKey → Instant → List FlexibilityOffer → FlexibilityAggregate
unfolding cohort_of mean_confidence round_to ◌+ℤ◌
aggregate_of tenant_id zone_id g now offers = record {
  zone_id = zone_id;
  interval_start = g.interval_start;
  interval_end = g.interval_end;
  baseline_power_kw = round_signed power_step (sum_ℤ (λ o. o.baseline_power_kw) offers);
  upward_capacity_kw = round_to power_step (sum_of (λ o. o.upward_capacity_kw) offers);
  downward_capacity_kw = round_to power_step (sum_of (λ o. o.downward_capacity_kw) offers);
  upward_energy_kwh = round_to energy_step (sum_of (λ o. o.upward_energy_kwh) offers);
  downward_energy_kwh = round_to energy_step (sum_of (λ o. o.downward_energy_kwh) offers);
  participant_count = length (cohort_of offers);
  confidence = mean_confidence offers;
  consequence_type = g.consequence_type;
  generated_at = now;
  tenant_id = tenant_id;
}

-- One round of the loop over the groups: an aggregate or nothing, and the state.
unfoldable pub publish_group :
    String
    → String
    → Instant
    → GroupKey
    → List FlexibilityOffer
    → InMemoryOfferStore
    → Option FlexibilityAggregate × InMemoryOfferStore
publish_group tenant_id zone_id now g offers s =
    let cell = group_cell tenant_id zone_id g in
    let cohort = cohort_of offers in
    let noted = hide_differences cell cohort s in
    if contains cell noted.suppressed_cells || ltb (length cohort) noted.minimum_participants
    then (none, noted)
    else (
      some (aggregate_of tenant_id zone_id g now offers),
      record noted { published_cohorts = Dict.set cell cohort noted.published_cohorts },
    )

abbrev pub prepend_some :
    Option FlexibilityAggregate → List FlexibilityAggregate → List FlexibilityAggregate
prepend_some none rest = rest
prepend_some (some a) rest = a ∷ rest

unfoldable pub publish_groups :
    String
    → String
    → Instant
    → List FlexibilityOffer
    → List GroupKey
    → InMemoryOfferStore
    → List FlexibilityAggregate × InMemoryOfferStore
publish_groups tenant_id zone_id now visible [] s = ([], s)
publish_groups tenant_id zone_id now visible (g ∷ rest) s =
    let (a, s') = publish_group tenant_id zone_id now g (filter (in_group g) visible) s in
    let (later, s'') = publish_groups tenant_id zone_id now visible rest s' in
    (prepend_some a later, s'')

unfoldable pub query :
    String
    → Instant
    → Instant
    → String
    → Instant
    → InMemoryOfferStore
    → List FlexibilityAggregate × InMemoryOfferStore
unfolding publish_groups is_visible group_keys sorted
query zone_id start end tenant_id now s =
    let visible = filter (is_visible tenant_id zone_id start end now) (Dict.values s.offers) in
    publish_groups tenant_id zone_id now visible (sorted group_leb (group_keys visible)) s
