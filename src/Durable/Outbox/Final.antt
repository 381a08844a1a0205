-- ===== src/Durable/Outbox/Final.antt =====
-- The rows of tasks that are over (src/der_flex/reservations/postgres.py).
use der_flex.Prelude.{
  ℕ, ◌≡◌, true, false, some, List, [], ◌∷◌, ◌++◌, arith, All, All-append, All-map_pred, any-append,
  any, nat_eq, ◌==◌, ==_iff, String, All-map_pred,
}
use mathlib.Core.Path.{subst}
use der_flex.Prelude.Tables.{
  find, update_where, All-find, All-update_where, All-contains, any-update_where,
}
use der_flex.Domain.Models.{Uuid, Instant}
use der_flex.Outbox.{OutboxTask, Resolution}
use der_flex.Durable.Tables.{OutboxRow, Database}
use der_flex.Durable.UnitOfWork.{is_event, new_row}
use der_flex.Durable.Outbox.{
  candidates, is_candidate, is_claimable, claimed_row, resolved_row, is_current, is_over,
}
use der_flex.Durable.Outbox.Lease.{candidates-All}
use der_flex.Durable.Steps.{KeepsOutbox, Reach}
use der_flex.Durable.Steps.Keeping.{Reach-keeps, IsAnyClaim, IsAnyResolution}

module _ (event_id : Uuid) (row : OutboxRow) (over : is_over row.status ≡ true) where
  -- The table has the event, and `row` is its row.
  pub record IsRow (rows : List OutboxRow) : Type 0 where
    pub only : All (λ x. is_event event_id x ≡ true → x ≡ row) rows
    pub there : any (is_event event_id) rows ≡ true

  not_claimable : (now : Instant) (x : OutboxRow) → x ≡ row → is_claimable now x ≡ false
  not_claimable now x e = ground (arith, over, e)

  not_candidate :
      (now : Instant) (limit : ℕ) (db : Database)
      → IsRow db.outbox
      → All (λ i. (i == event_id) ≡ false) (candidates now limit db)
  not_candidate now limit db h =
      candidates-All (λ i. (i == event_id) ≡ false) now limit db
        (All-map_pred _ _
          (λ x only due.
            ground (arith, only, due, not_claimable now x, ==_iff x.task.event_id event_id))
          db.outbox h.only)

  at_claim_kept :
      (ids : List Uuid) (locked_until : Instant) (rows : List OutboxRow)
      → All (λ i. (i == event_id) ≡ false) ids
      → IsRow rows
      → IsRow (update_where (is_candidate ids) (claimed_row locked_until) rows)
  at_claim_kept ids locked_until rows others h = record {
    only =
        All-update_where _ (is_candidate ids) (claimed_row locked_until) rows
          (λ x c only mine. absurd (cc (All-contains _ x.task.event_id ids others c, mine))) h.only;
    there =
        any-update_where (is_event event_id) (is_candidate ids) (claimed_row locked_until) rows
          (λ x c mine. mine) h.there;
  }

  at_resolve_kept :
      (max_attempts : ℕ) (task : OutboxTask) (r : Resolution) (now : Instant) (found : OutboxRow)
      (rows : List OutboxRow)
      → find (is_event task.event_id) rows ≡ some found
      → is_current task found ≡ true
      → IsRow rows
      → IsRow (update_where (is_event task.event_id) (resolved_row r now max_attempts) rows)
  unfolding resolved_row
  at_resolve_kept max_attempts task r now found rows f current h =
      let (mine_is, is_task) = All-find _ (is_event task.event_id) rows found h.only f in
      record {
        only =
            All-update_where _ (is_event task.event_id) (resolved_row r now max_attempts) rows
              (λ x c only mine. absurd (
                ground (
                  arith,
                  over,
                  current,
                  mine_is,
                  is_task,
                  c,
                  mine,
                  ==_iff x.task.event_id task.event_id,
                  ==_iff x.task.event_id event_id,
                  ==_iff found.task.event_id task.event_id,
                  ==_iff found.task.event_id event_id,
                )))
              h.only;
        there =
            any-update_where (is_event event_id) (is_event task.event_id)
              (resolved_row r now max_attempts) rows (λ x c mine. mine) h.there;
      }

  at_enqueue_kept :
      (task : OutboxTask) (available_at stamp : Instant) (rows : List OutboxRow)
      → any (is_event task.event_id) rows ≡ false
      → IsRow rows
      → IsRow (rows ++ new_row task available_at stamp ∷ [])
  at_enqueue_kept task available_at stamp rows fresh h = record {
    only = All-append _ rows _ h.only (
      (λ mine. absurd (
          cc (
            subst (λ i. any (is_event i) rows ≡ false) ((==_iff task.event_id event_id).0 mine)
                fresh,
            h.there,
          ))),
      tt,
    );
    there = ground (
      arith,
      h.there,
      any-append (is_event event_id) rows (new_row task available_at stamp ∷ []),
    );
  }

  IsRow-KeepsOutbox : (max_attempts : ℕ) → KeepsOutbox max_attempts IsAnyClaim IsAnyResolution IsRow
  IsRow-KeepsOutbox max_attempts = record {
    at_claim = λ now locked_until limit db allowed h.
        at_claim_kept (candidates now limit db) locked_until db.outbox
          (not_candidate now limit db h) h;
    at_resolve =
        λ task r now found rows allowed. at_resolve_kept max_attempts task r now found rows;
    at_enqueue = at_enqueue_kept;
  }

  -- The row of a task that is delivered or dead stays exactly as it is in every run: whatever is
  -- claimed, resolved, activated or finalized, by however many workers.
  pub over_forever :
      (event_id_of : Uuid → String → Uuid) (max_attempts : ℕ) {db db' : Database}
      → IsRow db.outbox
      → Reach event_id_of max_attempts db db'
      → IsRow db'.outbox
  over_forever event_id_of max_attempts h run = Reach-keeps (IsRow-KeepsOutbox max_attempts) run h
