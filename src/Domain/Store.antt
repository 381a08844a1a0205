-- ===== src/Domain/Store.antt =====
-- `InMemoryOfferStore` (src/der_flex/domain/store.py): its state, the writes of offers, and the
-- eligible offers. The lock serialises the methods. A set is a list without repetitions.
pub mod Query
pub mod Snapshots
pub mod Anonymity
pub mod Budget
use der_flex.Prelude.{
  ℕ, ◌+◌, String, ◌≡◌, ◌↔◌, Bool, true, false, not, ◌&&◌, ◌||◌, Option, none, some, List, [], ◌∷◌,
  arith, Result, ok, err, if◌then◌else◌, leb, ltb, ◌==◌, Eq, ==_iff, nat_eq, string_eq, pair_eq,
  contains, add, discard, length, filter,
}
use der_flex.Prelude.Dict
use der_flex.Prelude.Dict.{Dict}
use der_flex.Prelude.Sorting.{sorted, text_leb}
use der_flex.Domain.Models.{
  Instant, ConsequenceType, FlexibilityOffer, FlexibilityAggregate, ProductCell,
}
use der_flex.Domain.Equality.{consequence_eq, cell_eq, offer_eq}

-- `StaleOfferError` and `OfferVersionConflict`.
pub data StoreError : Type 0 where
  stale_offer offer_version_conflict : StoreError

pub record OfferKey : Type 0 where
  pub tenant_id : String
  pub resource_id : String
  pub zone_id : String
  pub interval_start : Instant
  pub consequence_type : ConsequenceType

abbrev pub offer_key_beq : OfferKey → OfferKey → Bool
offer_key_beq a b =
    a.tenant_id == b.tenant_id
    && a.resource_id == b.resource_id
    && a.zone_id == b.zone_id
    && a.interval_start == b.interval_start
    && a.consequence_type == b.consequence_type

pub offer_key_beq_iff : (a b : OfferKey) → (offer_key_beq a b ≡ true) ↔ (a ≡ b)
offer_key_beq_iff a b = ground (
  arith,
  ==_iff a.tenant_id b.tenant_id,
  ==_iff a.resource_id b.resource_id,
  ==_iff a.zone_id b.zone_id,
  ==_iff a.consequence_type b.consequence_type,
)

instance abbrev pub offer_key_eq : Eq OfferKey
offer_key_eq = record { beq = offer_key_beq; beq_iff = offer_key_beq_iff }

-- `(source_epoch, source_sequence)`
pub record Position : Type 0 where
  pub epoch : ℕ
  pub sequence : ℕ

-- The order of Python's tuples.
abbrev pub position_ltb : Position → Position → Bool
position_ltb a b = ltb a.epoch b.epoch || (a.epoch == b.epoch && ltb a.sequence b.sequence)

abbrev pub position_beq : Position → Position → Bool
position_beq a b = a.epoch == b.epoch && a.sequence == b.sequence

abbrev pub position_leb : Position → Position → Bool
position_leb a b = position_ltb a b || position_beq a b

pub record SnapshotKey : Type 0 where
  pub tenant_id : String
  pub zone_id : String
  pub publication_epoch : Instant
  pub interval_start : Instant
  pub interval_end : Instant
  pub consequence_type : ConsequenceType

pub record BudgetKey : Type 0 where
  pub tenant_id : String
  pub window_start : Instant

pub record InMemoryOfferStore : Type 0 where
  pub minimum_participants : ℕ
  pub offers : Dict OfferKey FlexibilityOffer
  pub source_positions : Dict (String × String) Position
  pub disconnected_resources : List (String × String)
  pub published_cohorts : Dict ProductCell (List String)
  pub suppressed_cells : List ProductCell
  pub privacy_query_counts : Dict BudgetKey ℕ
  pub privacy_snapshots : Dict SnapshotKey FlexibilityAggregate

-- The constructor refuses a threshold below one.
unfoldable pub new_store : ℕ → Option InMemoryOfferStore
new_store minimum_participants =
    if ltb minimum_participants 1
    then none
    else some (record {
      minimum_participants = minimum_participants;
      offers = [];
      source_positions = [];
      disconnected_resources = [];
      published_cohorts = [];
      suppressed_cells = [];
      privacy_query_counts = [];
      privacy_snapshots = [];
    })

abbrev pub key_of : FlexibilityOffer → OfferKey
key_of o = record {
  tenant_id = o.tenant_id;
  resource_id = o.resource_id;
  zone_id = o.zone_id;
  interval_start = o.interval_start;
  consequence_type = o.consequence_type;
}

abbrev pub offer_cell : FlexibilityOffer → ProductCell
offer_cell o = record {
  tenant_id = o.tenant_id;
  zone_id = o.zone_id;
  interval_start = o.interval_start;
  interval_end = o.interval_end;
  consequence_type = o.consequence_type;
}

abbrev pub position_of : FlexibilityOffer → Position
position_of o = record { epoch = o.source_epoch; sequence = o.source_sequence }

abbrev pub resource_key : FlexibilityOffer → String × String
resource_key o = (o.tenant_id, o.resource_id)

-- `if cell in self._published_cohorts: self._suppressed_cells.add(cell)`
unfoldable pub suppress_published : ProductCell → InMemoryOfferStore → InMemoryOfferStore
suppress_published cell s =
    if Dict.has cell s.published_cohorts
    then record s { suppressed_cells = add cell s.suppressed_cells }
    else s

-- The offer at a key is taken out, and its cell suppressed if it was published.
unfoldable pub drop_offer : OfferKey → InMemoryOfferStore → InMemoryOfferStore
unfolding suppress_published
drop_offer key s = elim (Dict.get key s.offers) [
  | none ↦ s
  | some o ↦
      (let noted = suppress_published (offer_cell o) s in
        record noted { offers = Dict.del key noted.offers })
]

unfoldable pub drop_offers : List OfferKey → InMemoryOfferStore → InMemoryOfferStore
unfolding drop_offer
drop_offers [] s = s
drop_offers (key ∷ rest) s = drop_offers rest (drop_offer key s)

-- The keys of the entries that pass a test, in order.
unfoldable pub keys_where :
    (FlexibilityOffer → Bool) → Dict OfferKey FlexibilityOffer → List OfferKey
keys_where test offers = Dict.keys (filter (λ e. test e.1) offers)

-- The offer is of the resource, and older than the position.
unfoldable pub is_obsolete : String × String → Position → FlexibilityOffer → Bool
is_obsolete resource position o =
    o.resource_id == resource.1
    && o.tenant_id == resource.0
    && position_ltb (position_of o) position

-- `incoming_position > source_position`
abbrev advances : Option Position → Position → Bool
advances none position = false
advances (some q) position = position_ltb q position

-- `incoming_position < source_position`, or `<=` for a resource that is disconnected.
abbrev is_stale : Bool → Option Position → Position → Bool
is_stale disconnected none position = false
is_stale disconnected (some q) position =
    (disconnected && position_leb position q) || position_ltb position q

-- A newer position evicts the older offers of the resource.
unfoldable pub evict_obsolete : FlexibilityOffer → InMemoryOfferStore → InMemoryOfferStore
unfolding drop_offers keys_where is_obsolete
evict_obsolete o s =
    if advances (Dict.get (resource_key o) s.source_positions) (position_of o)
    then drop_offers (keys_where (is_obsolete (resource_key o) (position_of o)) s.offers) s
    else s

-- The position is recorded, and the resource is connected.
unfoldable pub connect : FlexibilityOffer → InMemoryOfferStore → InMemoryOfferStore
connect o s = record s {
  source_positions = Dict.set (resource_key o) (position_of o) s.source_positions;
  disconnected_resources = discard (resource_key o) s.disconnected_resources;
}

-- The end of `upsert`: unless it is there already, the offer is written, and a published cell hidden.
unfoldable pub write_offer : FlexibilityOffer → InMemoryOfferStore → InMemoryOfferStore
unfolding suppress_published
write_offer o s =
    let noted = suppress_published (offer_cell o) s in
    record noted { offers = Dict.set (key_of o) o noted.offers }

unfoldable pub place :
    Option FlexibilityOffer
    → FlexibilityOffer
    → InMemoryOfferStore
    → Result StoreError (Unit {0}) × InMemoryOfferStore
unfolding write_offer
place none o s = (ok tt, write_offer o s)
place (some previous) o s =
    if previous == o
    then (ok tt, s)
    else if position_beq (position_of o) (position_of previous)
    then (err offer_version_conflict, s)
    else (ok tt, write_offer o s)

unfoldable pub upsert :
    FlexibilityOffer → InMemoryOfferStore → Result StoreError (Unit {0}) × InMemoryOfferStore
upsert o s =
    if is_stale (contains (resource_key o) s.disconnected_resources)
      (Dict.get (resource_key o) s.source_positions) (position_of o)
    then (err stale_offer, s)
    else (let ready = connect o (evict_obsolete o s) in
        place (Dict.get (key_of o) ready.offers) o ready)

unfoldable pub remove_resource : String → String → InMemoryOfferStore → ℕ × InMemoryOfferStore
unfolding drop_offers keys_where
remove_resource resource_id tenant_id s =
    let keys =
      keys_where (λ o. o.resource_id == resource_id && o.tenant_id == tenant_id) s.offers in
    let dropped = drop_offers keys s in
    (
      length keys,
      if ltb 0 (length keys)
          then record dropped {
            disconnected_resources = add (tenant_id, resource_id) dropped.disconnected_resources;
          }
          else dropped,
    )

-- The filter of `eligible_offers`.
unfoldable pub is_eligible :
    String → String → Instant → Instant → ConsequenceType → Instant → FlexibilityOffer → Bool
is_eligible tenant_id zone_id interval_start interval_end consequence_type now o =
    o.zone_id == zone_id
    && o.tenant_id == tenant_id
    && o.interval_start == interval_start
    && o.interval_end == interval_end
    && o.consequence_type == consequence_type
    && leb now o.expires_at

unfoldable pub eligible_offers :
    InMemoryOfferStore
    → String
    → String
    → Instant
    → Instant
    → ConsequenceType
    → Instant
    → List FlexibilityOffer
unfolding is_eligible sorted
eligible_offers s tenant_id zone_id interval_start interval_end consequence_type now =
    sorted (λ a b. text_leb a.resource_id b.resource_id)
      (filter (is_eligible tenant_id zone_id interval_start interval_end consequence_type now)
        (Dict.values s.offers))
