-- ===== src/Domain/Store/Snapshots.antt =====
-- `consume_privacy_query` and `publish_privacy_snapshot` (src/der_flex/domain/store.py).
use der_flex.Prelude.{
  ℕ, ◌+◌, String, ◌≡◌, ◌↔◌, Bool, true, false, ◌&&◌, ◌||◌, none, some, List, [], ◌∷◌, arith,
  if◌then◌else◌, leb, ltb, ◌==◌, Eq, ==_iff, nat_eq, string_eq, filter,
}
use der_flex.Prelude.Dict
use der_flex.Prelude.Dict.{Dict}
use der_flex.Prelude.Sorting.{sorted}
use der_flex.Domain.Models.{Instant, FlexibilityAggregate}
use der_flex.Domain.Equality.{consequence_eq}
use der_flex.Domain.Store.{InMemoryOfferStore, BudgetKey, SnapshotKey}
use der_flex.Domain.Store.Query.{consequence_leb}

abbrev pub budget_key_beq : BudgetKey → BudgetKey → Bool
budget_key_beq a b = a.tenant_id == b.tenant_id && a.window_start == b.window_start

pub budget_key_beq_iff : (a b : BudgetKey) → (budget_key_beq a b ≡ true) ↔ (a ≡ b)
budget_key_beq_iff a b = ground (arith, ==_iff a.tenant_id b.tenant_id)

instance abbrev pub budget_key_eq : Eq BudgetKey
budget_key_eq = record { beq = budget_key_beq; beq_iff = budget_key_beq_iff }

abbrev pub snapshot_key_beq : SnapshotKey → SnapshotKey → Bool
snapshot_key_beq a b =
    a.tenant_id == b.tenant_id
    && a.zone_id == b.zone_id
    && a.publication_epoch == b.publication_epoch
    && a.interval_start == b.interval_start
    && a.interval_end == b.interval_end
    && a.consequence_type == b.consequence_type

pub snapshot_key_beq_iff : (a b : SnapshotKey) → (snapshot_key_beq a b ≡ true) ↔ (a ≡ b)
snapshot_key_beq_iff a b = ground (
  arith,
  ==_iff a.tenant_id b.tenant_id,
  ==_iff a.zone_id b.zone_id,
  ==_iff a.consequence_type b.consequence_type,
)

instance abbrev pub snapshot_key_eq : Eq SnapshotKey
snapshot_key_eq = record { beq = snapshot_key_beq; beq_iff = snapshot_key_beq_iff }

-- `self._privacy_query_counts.get(key, 0)`
unfoldable pub query_count : BudgetKey → InMemoryOfferStore → ℕ
query_count key s = elim (Dict.get key s.privacy_query_counts) [ none ↦ 0 | some n ↦ n ]

unfoldable pub consume_privacy_query :
    BudgetKey → ℕ → InMemoryOfferStore → Bool × InMemoryOfferStore
consume_privacy_query key limit s = if leb limit (query_count key s) then (false, s) else (
  true,
  record s { privacy_query_counts = Dict.set key (query_count key s + 1) s.privacy_query_counts },
)

abbrev pub snapshot_key : String → String → Instant → FlexibilityAggregate → SnapshotKey
snapshot_key tenant_id zone_id epoch a = record {
  tenant_id = tenant_id;
  zone_id = zone_id;
  publication_epoch = epoch;
  interval_start = a.interval_start;
  interval_end = a.interval_end;
  consequence_type = a.consequence_type;
}

abbrev pub Snapshots : Type 0
Snapshots = Dict SnapshotKey FlexibilityAggregate

-- The loop over the candidates: a key that is set keeps its aggregate.
unfoldable pub keep_first :
    String → String → Instant → List FlexibilityAggregate → Snapshots → Snapshots
keep_first tenant_id zone_id epoch [] d = d
keep_first tenant_id zone_id epoch (a ∷ rest) d =
    keep_first tenant_id zone_id epoch rest
      (Dict.set_default (snapshot_key tenant_id zone_id epoch a) a d)

unfoldable pub in_window :
    String → String → Instant → Instant → Instant → SnapshotKey × FlexibilityAggregate → Bool
in_window tenant_id zone_id epoch start end (key, a) =
    key.tenant_id == tenant_id
    && key.zone_id == zone_id
    && key.publication_epoch == epoch
    && leb start key.interval_start
    && leb key.interval_end end

abbrev pub aggregate_leb : FlexibilityAggregate → FlexibilityAggregate → Bool
aggregate_leb a b =
    ltb a.interval_start b.interval_start
    || (a.interval_start == b.interval_start
        && (ltb a.interval_end b.interval_end
            || (a.interval_end == b.interval_end
                && consequence_leb a.consequence_type b.consequence_type)))

unfoldable pub publish_privacy_snapshot :
    String
    → String
    → Instant
    → Instant
    → Instant
    → List FlexibilityAggregate
    → InMemoryOfferStore
    → List FlexibilityAggregate × InMemoryOfferStore
unfolding keep_first in_window sorted
publish_privacy_snapshot tenant_id zone_id epoch start end candidates s =
    let snapshots = keep_first tenant_id zone_id epoch candidates s.privacy_snapshots in
    (
      sorted aggregate_leb
          (Dict.values (filter (in_window tenant_id zone_id epoch start end) snapshots)),
      record s { privacy_snapshots = snapshots },
    )
