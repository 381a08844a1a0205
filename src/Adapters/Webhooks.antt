-- ===== src/Adapters/Webhooks.antt =====
-- `WebhookDispatcher` (src/der_flex/adapters/webhooks.py). JSON, HMAC-SHA256 and the HTTP sender are
-- not part of the repository: `dumps`, `sign` and `sender` stand for them. The sender is told the
-- number of the attempt, so that its answers may differ from one attempt to the next.
pub mod Attempts
use der_flex.Prelude.{
  ℕ, zero, suc, ◌+◌, String, Bool, true, false, ◌&&◌, Option, none, some, List, [], ◌∷◌, ◌++◌,
  if◌then◌else◌, leb, ltb,
}
use der_flex.Domain.Models.{Reservation, Activation}
use der_flex.Reservations.Records.{PebcInstruction}

pub data WebhookPayload : Type 0 where
  of_reservation : Reservation → WebhookPayload
  of_activation : Activation → WebhookPayload
  of_instruction : PebcInstruction → WebhookPayload

pub record WebhookRequest : Type 0 where
  pub callback_url : String
  pub body : String
  pub event : String
  pub signature : String
  pub event_id : Option String

-- An HTTP status, or an OSError of the connection.
pub data SendOutcome : Type 0 where
  status : ℕ → SendOutcome
  os_error : SendOutcome

pub data SendError : Type 0 where
  connection : SendError
  http : ℕ → SendError

pub record WebhookDelivery : Type 0 where
  pub event : String
  pub callback_url : String
  pub attempts : ℕ
  pub delivered : Bool

pub record WebhookDispatcher : Type 0 where
  pub dumps : WebhookPayload → String
  pub sign : String → String
  pub sender : ℕ → WebhookRequest → SendOutcome
  pub max_attempts : ℕ

-- `200 <= status < 300`
unfoldable pub accepted : SendOutcome → Bool × Option SendError
accepted os_error = (false, some connection)
accepted (status n) = if leb 200 n && ltb n 300 then (true, none) else (false, some (http n))

unfoldable pub send_once :
    WebhookDispatcher
    → ℕ
    → String
    → String
    → WebhookPayload
    → Option String
    → Bool × Option SendError
unfolding accepted
send_once w attempt callback_url event payload event_id =
    let body = w.dumps payload in
    accepted (
      w.sender attempt (record {
        callback_url = callback_url;
        body = body;
        event = event;
        signature = w.sign body;
        event_id = event_id;
      }))

-- The loop of `deliver`: the attempts that are left, and the number of those made.
unfoldable pub attempt_loop :
    WebhookDispatcher → String → String → WebhookPayload → ℕ → ℕ → Bool × ℕ
unfolding send_once
attempt_loop w callback_url event payload zero attempts = (false, attempts)
attempt_loop w callback_url event payload (suc left) attempts =
    let rest = attempt_loop w callback_url event payload left (attempts + 1) in
    if (send_once w (attempts + 1) callback_url event payload none).0
    then (true, attempts + 1)
    else rest

unfoldable pub deliver :
    WebhookDispatcher
    → String
    → String
    → WebhookPayload
    → List WebhookDelivery
    → List WebhookDelivery
unfolding attempt_loop
deliver w callback_url event payload deliveries =
    let (delivered, attempts) = attempt_loop w callback_url event payload w.max_attempts 0 in
    deliveries
    ++ (record {
      event = event;
      callback_url = callback_url;
      attempts = attempts;
      delivered = delivered;
    })
      ∷ []
