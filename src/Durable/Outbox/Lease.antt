-- ===== src/Durable/Outbox/Lease.antt =====
-- The claims of the outbox within one lease (src/der_flex/reservations/postgres.py).
use der_flex.Prelude.{
  String, ◌⊎◌, inl, inr, some, any, ◌++◌, All-append, any-append, Bool-cases, ==_iff, refl, ℕ, ◌+◌,
  ◌*◌, ◌<◌, ◌≡◌, ◌≢◌, true, false, List, [], ◌∷◌, arith, All, All-map_pred, contains, nat_eq,
  ==_refl,
}
use mathlib.Core.Path.{subst, sym}
use der_flex.Prelude.Sorting.{All-sorted}
use der_flex.Prelude.Tables.{
  update_where, All-update_where, any-update_where, All-take, All-filtered, All-each, All-updated,
  All-mapped, All-contains,
}
use der_flex.Domain.Models.{Uuid, Instant, second}
use der_flex.Outbox.{OutboxTask, Resolution}
use der_flex.Durable.Tables.{OutboxRow, OutboxStatus, Database}
use der_flex.Durable.UnitOfWork.{is_event, new_row}
use der_flex.Durable.Steps.{KeepsOutbox, Step, IsAllowed}
use der_flex.Durable.Steps.Keeping.{Step-keeps}
use der_flex.Durable.Outbox.{
  is_claimable, before, candidates, claimed_row, is_candidate, claim_rows, claim_outbox,
  resolved_row, is_processing, is_due,
}

-- What the claimable rows satisfy, the candidates satisfy.
pub candidates-All :
    (P : Uuid → Type 0) (now : Instant) (limit : ℕ) (db : Database)
    → All (λ row. is_claimable now row ≡ true → P row.task.event_id) db.outbox
    → All P (candidates now limit db)
unfolding candidates
candidates-All P now limit db h =
    let Q = λ (row : OutboxRow). P row.task.event_id in
    All-mapped P (λ row. row.task.event_id) _
      (All-take Q limit _ (All-sorted before Q _ (All-filtered Q (is_claimable now) db.outbox h)))

All-members : (ids : List Uuid) → All (λ i. contains i ids ≡ true) ids
All-members [] = tt
All-members (i ∷ ids) =
    (ground (arith, ==_refl i), All-map_pred _ _ (λ j h. ground (arith, h)) ids (All-members ids))

-- The tasks of a claim are candidates.
claim_rows-candidates :
    (P : Uuid → Type 0) (ids : List Uuid) (locked_until : Instant) (db : Database)
    → All P ids
    → All (λ t. P t.event_id) (claim_rows ids locked_until db).0
unfolding claim_rows
claim_rows-candidates P ids locked_until db h =
    All-mapped (λ t. P t.event_id) (λ row. row.task) _
      (All-filtered (λ row. P row.task.event_id) (is_candidate ids) _
        (All-each _ _ (λ row e. All-contains P row.task.event_id ids h e)))

-- Every row is a row of its event.
each_event :
    (rows : List OutboxRow) → All (λ row. any (is_event row.task.event_id) rows ≡ true) rows
each_event [] = tt
each_event (row ∷ rows) = (
  ground (arith, ==_refl row.task.event_id),
  All-map_pred _ _ (λ x h. ground (arith, h)) rows (each_event rows),
)

-- The rows of the events are leased until the instant, and each event has a row.
pub record IsLeased (ids : List Uuid) (until : Instant) (rows : List OutboxRow) : Type 0 where
  pub leased :
      All
        (λ row.
          (contains row.task.event_id ids ≡ false)
          ⊎ ((is_processing row.status ≡ true) × (row.locked_until ≡ some until)))
        rows
  pub known : All (λ i. any (is_event i) rows ≡ true) ids

not_due :
    (now until : Instant) (row : OutboxRow) (status : OutboxStatus)
    → now < until
    → is_processing status ≡ true
    → row.locked_until ≡ some until
    → is_due status row now ≡ false
not_due now until row OutboxStatus.processing early p lock = rw lock (ground (arith, early))
not_due now until row OutboxStatus.pending early p lock = absurd (cc p)
not_due now until row OutboxStatus.retry early p lock = absurd (cc p)
not_due now until row OutboxStatus.delivered early p lock = absurd (cc p)
not_due now until row OutboxStatus.dead early p lock = absurd (cc p)

module _ (ids : List Uuid) (until : Instant) where
  -- A claim before the instant.
  abbrev pub IsBefore : Instant → Type 0
  IsBefore now = now < until

  -- A resolution of another event.
  abbrev pub IsOther : OutboxTask → Type 0
  IsOther task = contains task.event_id ids ≡ false

  -- The candidates of such a claim are other events.
  leased-candidates :
      (now : Instant) (limit : ℕ) (db : Database)
      → now < until
      → IsLeased ids until db.outbox
      → All (λ i. contains i ids ≡ false) (candidates now limit db)
  leased-candidates now limit db early h =
      candidates-All (λ i. contains i ids ≡ false) now limit db
        (All-map_pred _ _
          (λ row l due. elim l [
            | inl other ↦ other
            | inr (p, lock) ↦ absurd (cc (due, not_due now until row row.status early p lock))
          ])
          db.outbox h.leased)

  claim-IsLeased :
      (now locked_until : Instant) (limit : ℕ) (db : Database)
      → IsBefore now
      → IsLeased ids until db.outbox
      → IsLeased ids until (
          update_where
            (is_candidate (candidates now limit db))
            (claimed_row locked_until)
            db.outbox)
  claim-IsLeased now locked_until limit db early h = record {
    leased =
        All-update_where _ (is_candidate (candidates now limit db)) (claimed_row locked_until)
          db.outbox
          (λ row c l. inl (
            All-contains (λ i. contains i ids ≡ false) row.task.event_id (candidates now limit db)
              (leased-candidates now limit db early h) c))
          h.leased;
    known =
        All-map_pred _ _
          (λ i there.
            any-update_where (is_event i) (is_candidate (candidates now limit db))
              (claimed_row locked_until) db.outbox (λ row c mine. mine) there)
          ids h.known;
  }

  resolve-IsLeased :
      (max_attempts : ℕ) (task : OutboxTask) (r : Resolution) (now : Instant)
      (rows : List OutboxRow)
      → IsOther task
      → IsLeased ids until rows
      → IsLeased ids until
          (update_where (is_event task.event_id) (resolved_row r now max_attempts) rows)
  unfolding resolved_row
  resolve-IsLeased max_attempts task r now rows other h = record {
    leased =
        All-update_where _ (is_event task.event_id) (resolved_row r now max_attempts) rows
          (λ row c l. inl (
            subst (λ i. contains i ids ≡ false) (sym ((==_iff row.task.event_id task.event_id).0 c))
              other))
          h.leased;
    known =
        All-map_pred _ _
          (λ i there.
            any-update_where (is_event i) (is_event task.event_id) (resolved_row r now max_attempts)
              rows (λ row c mine. mine) there)
          ids h.known;
  }

  -- A new event is none of them.
  enqueue-IsLeased :
      (task : OutboxTask) (available_at stamp : Instant) (rows : List OutboxRow)
      → any (is_event task.event_id) rows ≡ false
      → IsLeased ids until rows
      → IsLeased ids until (rows ++ new_row task available_at stamp ∷ [])
  enqueue-IsLeased task available_at stamp rows fresh h = record {
    leased = All-append _ rows _ h.leased (
      elim (Bool-cases (contains task.event_id ids)) [
        | inr e ↦ inl e
        | inl e ↦ absurd (
            cc
              (fresh, All-contains (λ i. any (is_event i) rows ≡ true) task.event_id ids h.known e))
      ],
      tt,
    );
    known =
        All-map_pred _ _
          (λ i there.
            ground
              (arith, there, any-append (is_event i) rows (new_row task available_at stamp ∷ [])))
          ids h.known;
  }

  IsLeased-KeepsOutbox :
      (max_attempts : ℕ) → KeepsOutbox max_attempts IsBefore IsOther (IsLeased ids until)
  IsLeased-KeepsOutbox max_attempts = record {
    at_claim = claim-IsLeased;
    at_resolve = λ task r now row rows other found current h.
        resolve-IsLeased max_attempts task r now rows other h;
    at_enqueue = enqueue-IsLeased;
  }

  -- A run in which every claim is before the instant and every resolution is of another event.
  pub data Holding (event_id_of : Uuid → String → Uuid) (max_attempts : ℕ) (db : Database)
      : Database → Type 0 where
    rests : Holding event_id_of max_attempts db db
    goes :
        {d d' : Database}
        → Holding event_id_of max_attempts db d
        → (s : Step event_id_of max_attempts d d')
        → IsAllowed event_id_of max_attempts IsBefore IsOther s
        → Holding event_id_of max_attempts db d'

  Holding-IsLeased :
      {event_id_of : Uuid → String → Uuid} {max_attempts : ℕ} {db db' : Database}
      → Holding event_id_of max_attempts db db'
      → IsLeased ids until db.outbox
      → IsLeased ids until db'.outbox
  Holding-IsLeased rests h = h
  Holding-IsLeased (goes run s allowed) h =
      Step-keeps (IsLeased-KeepsOutbox _) s allowed (Holding-IsLeased run h)

candidates-known :
    (now : Instant) (limit : ℕ) (db : Database)
    → All (λ i. any (is_event i) db.outbox ≡ true) (candidates now limit db)
candidates-known now limit db =
    candidates-All (λ i. any (is_event i) db.outbox ≡ true) now limit db
      (All-map_pred _ _ (λ row there due. there) db.outbox (each_event db.outbox))

-- The claim leases its candidates.
claimed-IsLeased :
    (now locked_until : Instant) (limit : ℕ) (db : Database)
    → IsLeased
        (candidates now limit db)
        locked_until
        (claim_rows (candidates now limit db) locked_until db).1.outbox
unfolding claim_rows
claimed-IsLeased now locked_until limit db = record {
  leased =
      All-updated _ (is_candidate (candidates now limit db)) (claimed_row locked_until) db.outbox
        (λ row e. inr (refl, refl)) (λ row e. inl e);
  known =
      All-map_pred _ _
        (λ i there.
          any-update_where (is_event i) (is_candidate (candidates now limit db))
            (claimed_row locked_until) db.outbox (λ row c mine. mine) there)
        (candidates now limit db) (candidates-known now limit db);
}

-- Let a worker claim tasks. After any run of transactions in which every claim is before the end of
-- its lease and no event that it claimed is resolved, another claim before the end of the lease, of
-- any size and lease, shares no task with the first: no event is in the hands of two workers at once.
pub claims-disjoint :
    (event_id_of : Uuid → String → Uuid) (max_attempts : ℕ) (now later : Instant)
    (limit other_limit lease_seconds other_lease : ℕ) (db db' : Database)
    → Holding
        (candidates now limit db)
        (now + lease_seconds * second)
        event_id_of
        max_attempts
        (claim_outbox now limit lease_seconds db).1
        db'
    → later < now + lease_seconds * second
    → All
        (λ u. All (λ t. t.event_id ≢ u.event_id) (claim_outbox now limit lease_seconds db).0)
        (claim_outbox later other_limit other_lease db').0
unfolding claim_outbox
claims-disjoint event_id_of max_attempts now later limit other_limit lease_seconds other_lease db
      db' run early =
    let ids = candidates now limit db in
    let until = now + lease_seconds * second in
    let first = claim_rows-candidates (λ i. contains i ids ≡ true) ids until db (All-members ids) in
    let held = Holding-IsLeased ids until run (claimed-IsLeased now until limit db) in
    All-map_pred _ _
      (λ u fresh.
        All-map_pred _ _
          (λ t old same. cc (old, subst (λ i. contains i ids ≡ false) (sym same) fresh)) _ first)
      _
      (claim_rows-candidates (λ i. contains i ids ≡ false) (candidates later other_limit db')
        (later + other_lease * second) db'
        (leased-candidates ids until later other_limit db' early held))
