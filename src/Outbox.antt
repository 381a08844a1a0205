-- ===== src/Outbox.antt =====
-- `OutboxProcessor` (src/der_flex/outbox.py) over any backend that has the two operations of the
-- protocol `ReservationBackend` (src/der_flex/reservations/backend.py) which it calls.
--
-- The resource acceptor is a parameter of the processor in the code too; an exception that it raises
-- is an outcome here, and one that the webhook dispatcher raises, an `OSError` of the sender apart,
-- is what `dispatch_raises` answers for the task, else `none`. The JSON payload of a task is that of a webhook.
pub mod Deliveries
use der_flex.Prelude.{
  ℕ, zero, suc, ◌+◌, String, Bool, true, false, ◌&&◌, ◌||◌, not, Option, none, some, List, [], ◌∷◌,
  ◌++◌, if◌then◌else◌, leb, ltb, ◌==◌, nat_eq, length,
}
use der_flex.Domain.Models.{Uuid, Instant}
use der_flex.Adapters.Webhooks.{
  WebhookPayload, WebhookDelivery, WebhookDispatcher, SendError, send_once,
}

pub data TaskKind : Type 0 where
  resource webhook : TaskKind

pub record OutboxTask : Type 0 where
  pub event_id : Uuid
  pub kind : TaskKind
  pub destination : String
  pub event_type : String
  pub payload : WebhookPayload
  pub attempts : ℕ
  pub activation_id : Uuid
  pub reservation_id : Uuid
  pub allocation_index : Option ℕ

pub data TaskError : Type 0 where
  not_sent : SendError → TaskError
  raised : String → TaskError
  resource_rejected_instruction : TaskError
  delivery_rejected : TaskError

pub data AcceptorOutcome : Type 0 where
  answered : Bool → AcceptorOutcome
  exception : String → AcceptorOutcome

pub record Resolution : Type 0 where
  pub delivered : Bool
  pub retryable : Bool
  pub error : Option TaskError

-- The operations of the protocol, on a state `σ`.
pub record OutboxBackend (σ : Type 0) : Type 0 where
  pub claim_outbox : Instant → ℕ → ℕ → σ → List OutboxTask × σ
  pub resolve_outbox : OutboxTask → Resolution → Instant → ℕ → σ → σ

pub record OutboxProcessor (σ : Type 0) : Type 0 where
  pub backend : OutboxBackend σ
  pub webhook_dispatcher : WebhookDispatcher
  pub dispatch_raises : OutboxTask → Option String
  pub resource_acceptor : String → WebhookPayload → AcceptorOutcome
  pub event_name : Uuid → String
  pub max_attempts : ℕ
  pub lease_seconds : ℕ

abbrev pub sent : Bool × Option SendError → Resolution
sent (delivered, none) = record { delivered = delivered; retryable = true; error = none }
sent (delivered, some e) = record {
  delivered = delivered;
  retryable = true;
  error = some (not_sent e);
}

abbrev pub failed_with : String → Resolution
failed_with e = record { delivered = false; retryable = true; error = some (raised e) }

abbrev pub answer : AcceptorOutcome → Resolution
answer (answered delivered) = record {
  delivered = delivered;
  retryable = false;
  error = if delivered then none else some resource_rejected_instruction;
}
answer (exception e) = failed_with e

abbrev pub is_webhook : TaskKind → Bool
is_webhook webhook = true
is_webhook resource = false

module _ {σ : Type 0} where
  -- `_deliver`
  unfoldable pub deliver_task : OutboxProcessor σ → OutboxTask → Resolution
  deliver_task p task =
      if is_webhook task.kind
      then elim (p.dispatch_raises task) [
        | some e ↦ failed_with e
        | none ↦ sent (
            send_once p.webhook_dispatcher task.attempts task.destination task.event_type
              task.payload (some (p.event_name task.event_id)))
      ]
      else answer (p.resource_acceptor task.destination task.payload)

  unfoldable pub is_terminal : OutboxProcessor σ → OutboxTask → Resolution → Bool
  is_terminal p task r = r.delivered || not r.retryable || leb p.max_attempts task.attempts

  -- The end of a round: the delivery of a webhook that is over.
  unfoldable pub record_delivery :
      OutboxProcessor σ → OutboxTask → Resolution → List WebhookDelivery → List WebhookDelivery
  unfolding is_terminal
  record_delivery p task r deliveries =
      if is_webhook task.kind && is_terminal p task r
      then deliveries
        ++ (record {
          event = task.event_type;
          callback_url = task.destination;
          attempts = task.attempts;
          delivered = r.delivered;
        })
          ∷ []
      else deliveries

  -- The loop over the claimed tasks.
  unfoldable pub run_tasks :
      OutboxProcessor σ
      → Instant
      → List OutboxTask
      → σ × List WebhookDelivery
      → σ × List WebhookDelivery
  unfolding deliver_task record_delivery
  run_tasks p now [] s = s
  run_tasks p now (task ∷ rest) (state, deliveries) =
      let r = deliver_task p task in
      run_tasks p now rest (
        p.backend.resolve_outbox task r now p.max_attempts state,
        record_delivery p task r deliveries,
      )

  unfoldable pub run_once :
      OutboxProcessor σ → Instant → ℕ → σ × List WebhookDelivery → ℕ × (σ × List WebhookDelivery)
  unfolding run_tasks
  run_once p now limit (state, deliveries) =
      let (tasks, claimed) = p.backend.claim_outbox now limit p.lease_seconds state in
      (length tasks, run_tasks p now tasks (claimed, deliveries))

  -- `drain`: batches of 100, until one is empty or `max_batches` have run.
  unfoldable pub drain :
      OutboxProcessor σ → Instant → ℕ → σ × List WebhookDelivery → ℕ × (σ × List WebhookDelivery)
  drain p now zero s = (0, s)
  drain p now (suc batches) s =
      let (count, s') = run_once p now 100 s in
      let (later, s'') = drain p now batches s' in
      if count == 0 then (0, s') else (count + later, s'')
