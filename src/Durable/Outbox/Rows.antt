-- ===== src/Durable/Outbox/Rows.antt =====
-- The rows of the outbox over runs of the transactions (src/der_flex/reservations/postgres.py).
use der_flex.Prelude.{
  ℕ, ◌≡◌, ◌≤◌, ◌<◌, true, false, none, some, List, arith, All, All-append, Option, String, refl,
  not, leb, Bool-cases, inl, inr, ◌||◌,
}
use der_flex.Prelude.Tables.{All-update_where}
use der_flex.Domain.Models.{Uuid}
use der_flex.Outbox.{Resolution, TaskError, delivery_rejected}
use der_flex.Durable.Tables.{OutboxRow, OutboxStatus, Database, is_none}
use der_flex.Durable.UnitOfWork.{is_event}
use der_flex.Durable.Outbox.{
  candidates, is_candidate, claimed_row, resolved_row, resolved_status, reported,
}
use der_flex.Durable.Steps.{KeepsOutbox, Reach}
use der_flex.Durable.Steps.Keeping.{Reach-keeps, IsAnyClaim, IsAnyResolution}

-- A new row was never tried; a leased one was, and has a lease; a row that waits for a retry was
-- tried fewer times than the limit, and has an error; a row that is over holds no lease, and has
-- either the instant of its delivery or an error.
abbrev pub IsSound : ℕ → OutboxRow → OutboxStatus → Type 0
IsSound max_attempts row OutboxStatus.pending =
    (row.task.attempts ≡ 0) × (is_none row.locked_until ≡ true) × (is_none row.delivered_at ≡ true)
IsSound max_attempts row OutboxStatus.processing =
    (1 ≤ row.task.attempts) × (is_none row.locked_until ≡ false)
IsSound max_attempts row OutboxStatus.retry =
    (row.task.attempts < max_attempts)
    × (is_none row.locked_until ≡ true)
    × (is_none row.last_error ≡ false)
    × (is_none row.delivered_at ≡ true)
IsSound max_attempts row OutboxStatus.delivered =
    (is_none row.locked_until ≡ true)
    × (is_none row.delivered_at ≡ false)
    × (is_none row.last_error ≡ true)
IsSound max_attempts row OutboxStatus.dead =
    (is_none row.locked_until ≡ true)
    × (is_none row.delivered_at ≡ true)
    × (is_none row.last_error ≡ false)

abbrev pub AreSound : ℕ → List OutboxRow → Type 0
AreSound max_attempts = All (λ row. IsSound max_attempts row row.status)

recorded :
    (error : Option TaskError)
    → is_none (elim error [ none ↦ some delivery_rejected | some e ↦ some (reported e) ]) ≡ false
recorded none = refl
recorded (some e) = refl

resolved-IsSound :
    (max_attempts : ℕ) (r : Resolution) (now : ℕ) (row : OutboxRow)
    → IsSound max_attempts
        (resolved_row r now max_attempts row)
        (resolved_row r now max_attempts row).status
unfolding resolved_row resolved_status
resolved-IsSound max_attempts r now row = elim (Bool-cases r.delivered) [
  | inl d ↦ rw d (refl, refl, refl)
  | inr d ↦ elim (Bool-cases (not r.retryable || leb max_attempts row.task.attempts)) [
    | inl over ↦ rw (d, over) (refl, refl, recorded r.error)
    | inr again ↦ rw (d, again) (ground (arith, again), refl, recorded r.error, refl)
  ]
]

AreSound-KeepsOutbox :
    (max_attempts : ℕ) → KeepsOutbox max_attempts IsAnyClaim IsAnyResolution (AreSound max_attempts)
AreSound-KeepsOutbox max_attempts = record {
  at_claim = λ now locked_until limit db allowed h.
      All-update_where _ (is_candidate (candidates now limit db)) (claimed_row locked_until)
        db.outbox (λ row c s. (ground (arith), refl)) h;
  at_resolve = λ task r now found rows allowed f current h.
      All-update_where _ (is_event task.event_id) (resolved_row r now max_attempts) rows
        (λ row c s. resolved-IsSound max_attempts r now row) h;
  at_enqueue =
      λ task available_at stamp rows fresh h. All-append _ rows _ h ((refl, refl, refl), tt);
}

-- In every run with the limit `max_attempts`, from a table of sound rows, the rows are sound.
pub rows-AreSound :
    (event_id_of : Uuid → String → Uuid) (max_attempts : ℕ) {db db' : Database}
    → AreSound max_attempts db.outbox
    → Reach event_id_of max_attempts db db'
    → AreSound max_attempts db'.outbox
rows-AreSound event_id_of max_attempts h run = Reach-keeps (AreSound-KeepsOutbox max_attempts) run h
