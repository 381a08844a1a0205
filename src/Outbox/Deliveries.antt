-- ===== src/Outbox/Deliveries.antt =====
-- What the outbox records (src/der_flex/outbox.py).
use der_flex.Prelude.{
  ◌⊎◌, ◌≡◌, ◌↔◌, ◌&&◌, true, false, none, List, [], ◌∷◌, arith, filter, inl, inr, Bool-cases, map,
  ◌++◌, leb, Bool, ◌||◌, refl, Option-cases,
}
use mathlib.Core.List.{append-nil, append_assoc}
use mathlib.Core.Path.{ap, sym, ◌∙◌}
use der_flex.Domain.Models.{Instant}
use der_flex.Adapters.Webhooks.{accepted, SendOutcome, status, os_error, send_once, WebhookDelivery}
use der_flex.Outbox.{
  sent, AcceptorOutcome, OutboxProcessor, deliver_task, run_tasks, record_delivery, answer,
  answered, OutboxTask, exception, is_webhook, is_terminal,
}

sent-accepted :
    (o : SendOutcome)
    → (((sent (accepted o)).delivered ≡ true) ↔ ((sent (accepted o)).error ≡ none))
      × ((sent (accepted o)).retryable ≡ true)
unfolding accepted
sent-accepted (status n) = ground (arith)
sent-accepted os_error = ground (arith)

answer-delivered : (o : AcceptorOutcome) → ((answer o).delivered ≡ true) ↔ ((answer o).error ≡ none)
answer-delivered (answered true) = ground (arith)
answer-delivered (answered false) = ground (arith)
answer-delivered (exception e) = ground (arith)

-- A task is delivered exactly when no error is recorded for it, webhook or resource, and a webhook
-- is always retryable.
pub deliver_task-error :
    {σ : Type 0} (p : OutboxProcessor σ) (task : OutboxTask)
    → let r = deliver_task p task in
      ((r.delivered ≡ true) ↔ (r.error ≡ none))
      × ((is_webhook task.kind ≡ false) ⊎ (r.retryable ≡ true))
unfolding deliver_task send_once
deliver_task-error p task = elim (Bool-cases (is_webhook task.kind)) [
  | inl w ↦ elim (Option-cases (p.dispatch_raises task)) [
    | inl quiet ↦
        (let o = p.webhook_dispatcher.sender task.attempts _ in
          rw (w, quiet) ((sent-accepted o).0, inr (sent-accepted o).1))
    | inr (e, loud) ↦ rw (w, loud) (ground (arith), inr refl)
  ]
  | inr r ↦ rw r (answer-delivered (p.resource_acceptor task.destination task.payload), inl refl)
]

-- A task that is out of attempts.
abbrev pub is_exhausted : {σ : Type 0} → OutboxProcessor σ → OutboxTask → Bool
is_exhausted p task = leb p.max_attempts task.attempts

-- What the log of deliveries says of a task: its event, its destination, its attempt, and whether the
-- receiver accepted it.
abbrev pub entry_of : {σ : Type 0} → OutboxProcessor σ → OutboxTask → WebhookDelivery
entry_of p task = record {
  event = task.event_type;
  callback_url = task.destination;
  attempts = task.attempts;
  delivered = (deliver_task p task).delivered;
}

-- The webhooks that are delivered or out of attempts.
abbrev pub over : {σ : Type 0} → OutboxProcessor σ → List OutboxTask → List OutboxTask
over p tasks =
    filter
      (λ task. is_webhook task.kind && ((deliver_task p task).delivered || is_exhausted p task))
      tasks

-- The test of the loop is that of `over`, since a webhook is retryable.
terminal_webhook :
    {σ : Type 0} (p : OutboxProcessor σ) (task : OutboxTask)
    → (is_webhook task.kind && is_terminal p task (deliver_task p task))
      ≡ (is_webhook task.kind && ((deliver_task p task).delivered || is_exhausted p task))
unfolding is_terminal
terminal_webhook p task = elim (Bool-cases (is_webhook task.kind)) [
  | inr e ↦ ground (arith, e)
  | inl e ↦ ground (arith, e, (deliver_task-error p task).1)
]

record_delivery-over :
    {σ : Type 0} (p : OutboxProcessor σ) (task : OutboxTask) (deliveries : List WebhookDelivery)
    → (is_webhook task.kind && is_terminal p task (deliver_task p task)) ≡ true
    → record_delivery p task (deliver_task p task) deliveries ≡ deliveries ++ entry_of p task ∷ []
unfolding record_delivery
record_delivery-over p task deliveries e = rw e refl

record_delivery-open :
    {σ : Type 0} (p : OutboxProcessor σ) (task : OutboxTask) (deliveries : List WebhookDelivery)
    → (is_webhook task.kind && is_terminal p task (deliver_task p task)) ≡ false
    → record_delivery p task (deliver_task p task) deliveries ≡ deliveries
unfolding record_delivery
record_delivery-open p task deliveries e = rw e refl

-- A run over claimed tasks appends to the log one entry for each webhook that is delivered or out of
-- attempts, in the order of the tasks, and no other entry: its event, its destination, its attempt,
-- and whether the delivery succeeded.
pub run_tasks-deliveries :
    {σ : Type 0} (p : OutboxProcessor σ) (now : Instant) (tasks : List OutboxTask) (state : σ)
    (deliveries : List WebhookDelivery)
    → (run_tasks p now tasks (state, deliveries)).1 ≡ deliveries ++ map (entry_of p) (over p tasks)
unfolding run_tasks
run_tasks-deliveries p now [] state deliveries = sym (append-nil deliveries)
run_tasks-deliveries p now (task ∷ rest) state deliveries =
    let r = deliver_task p task in
    let rest_over = map (entry_of p) (over p rest) in
    let later =
      run_tasks-deliveries p now rest (p.backend.resolve_outbox task r now p.max_attempts state)
        (record_delivery p task r deliveries) in
    let test = terminal_webhook p task in
    elim (Bool-cases (is_webhook task.kind && (r.delivered || is_exhausted p task))) [
      | inl e ↦ rw e (
          later
          ∙ (ap (λ ds. ds ++ rest_over) (record_delivery-over p task deliveries (test ∙ e))
              ∙ append_assoc deliveries (entry_of p task ∷ []) rest_over))
      | inr e ↦
          rw e
            (later ∙ ap (λ ds. ds ++ rest_over) (record_delivery-open p task deliveries (test ∙ e)))
    ]
