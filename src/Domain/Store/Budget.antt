-- ===== src/Domain/Store/Budget.antt =====
-- The budget of a window over a run of `consume_privacy_query`, and the snapshots of a window under
-- `publish_privacy_snapshot` (src/der_flex/domain/store.py).
use der_flex.Prelude.{
  Bool, ◌⊎◌, inl, inr, ◌&&◌, ℕ, ◌+◌, ◌≤◌, ◌≡◌, true, false, some, List, [], ◌∷◌, arith,
  if◌then◌else◌, ◌==◌, ==_iff,
}
use der_flex.Prelude.Dict
use der_flex.Prelude.Dict.{Dict}
use der_flex.Prelude.Dict.{get-set}
use der_flex.Domain.Models.{FlexibilityAggregate}
use der_flex.Domain.Store.{InMemoryOfferStore, BudgetKey, SnapshotKey}
use der_flex.Domain.Store.Snapshots.{
  budget_key_eq, snapshot_key_eq, query_count, consume_privacy_query, Snapshots,
}

-- A run of requests, with the number that is granted for `key`.
unfoldable pub granted :
    BudgetKey → ℕ → List BudgetKey → InMemoryOfferStore → ℕ × InMemoryOfferStore
granted key limit [] s = (0, s)
granted key limit (k ∷ rest) s =
    let (ok, s') = consume_privacy_query k limit s in
    let (n, s'') = granted key limit rest s' in (if ok && (k == key) then n + 1 else n, s'')

-- One request: it is granted below the limit only, and then counts for its key alone.
consume-step :
    (key k : BudgetKey) (limit : ℕ) (s : InMemoryOfferStore)
    → let r = consume_privacy_query k limit s in
      ((r.0 && (k == key)) ≡ true
        × (query_count key r.1 ≡ query_count key s + 1)
        × (query_count key s + 1 ≤ limit))
      ⊎ (((r.0 && (k == key)) ≡ false) × (query_count key r.1 ≡ query_count key s))
unfolding consume_privacy_query query_count
consume-step key k limit s =
    ground (arith, ==_iff k key, get-set k key (query_count k s + 1) s.privacy_query_counts)

-- In any run of requests against one limit, from a count of the window within it, those granted in
-- the window are as many as its count grows, and the count ends within the limit.
pub granted_within :
    (key : BudgetKey) (limit : ℕ) (requests : List BudgetKey) (s : InMemoryOfferStore)
    → query_count key s ≤ limit
    → ((granted key limit requests s).0 + query_count key s
        ≡ query_count key (granted key limit requests s).1)
      × (query_count key (granted key limit requests s).1 ≤ limit)
unfolding granted
granted_within key limit [] s h = ground (arith)
granted_within key limit (k ∷ rest) s h = elim (consume-step key k limit s) [
  | inl (e, c, l) ↦ rw e (
      ground
        (arith, granted_within key limit rest (consume_privacy_query k limit s).1 (ground (arith))))
  | inr (e, c) ↦ rw e (
      ground
        (arith, granted_within key limit rest (consume_privacy_query k limit s).1 (ground (arith))))
]

-- The aggregate stands in the answer.
abbrev pub Shown : FlexibilityAggregate → List FlexibilityAggregate → Type 0
Shown a [] = ⊥
Shown a (x ∷ xs) = (x ≡ a) ⊎ Shown a xs

-- An aggregate that the snapshots have for a key of the window.
abbrev pub IsSnapshot :
    (SnapshotKey × FlexibilityAggregate → Bool) → Snapshots → FlexibilityAggregate → Type 0
IsSnapshot test d x = (key : SnapshotKey) × (Dict.get key d ≡ some x) × (test (key, x) ≡ true)
