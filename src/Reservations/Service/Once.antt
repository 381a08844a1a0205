-- ===== src/Reservations/Service/Once.antt =====
-- Repeated activations of a reservation (src/der_flex/reservations/service.py).
use mathlib.Core.Path.{subst}
use der_flex.Prelude.{
  ◌≡◌, ◌≢◌, refl, sym, ◌∙◌, ap, none, some, inl, inr, arith, nat_eq, ok, Option-cases, List,
}
use der_flex.Prelude.Dict
use der_flex.Prelude.Dict.{get-set}
use der_flex.Domain.Models.{Uuid, Reservation, Activation, FlexibilityAggregate}
use der_flex.Adapters.Webhooks.{WebhookDelivery}
use der_flex.Reservations.Records.{Allocation, PebcInstruction}
use der_flex.Reservations.Backend.{
  Backend, expire, get_reservation, get_activation, activation_for_reservation, save_activation,
  update_reservation, save_reservation,
}
use der_flex.Reservations.Backend.Invariant.{IsValid, get_reservation-id}
use der_flex.Reservations.Service.{OfferSource}
use der_flex.Reservations.Service.Activate.{
  ActivationContext, ServiceState, outcome, closed_reservation, activate,
}
use der_flex.Reservations.Service.Residual.{publish_one}
use der_flex.Reservations.Service.Effects.{publish_one-SameLedger}
use der_flex.Reservations.Service.Steps.{Keeps, Reach, activates}
use der_flex.Reservations.Service.Activation.{activate-Dispatched}
use der_flex.Reservations.Service.Runs.{Reach-keeps, Step-keeps}
use der_flex.Reservations.Service.Lifecycle.{IsValid-Keeps}

module _ (src : OfferSource) (id : Uuid) (a : Activation) where
  record IsActivated (b : Backend) : Type 0 where
    valid : IsValid b
    known : activation_for_reservation b id ≡ some a

  -- A write for another reservation, with a new activation identifier.
  activated-known :
      (other : Activation) (r : Reservation) (items : List Allocation) (is : List PebcInstruction)
      (b : Backend)
      → r.reservation_id ≢ id
      → get_activation b other.activation_id ≡ none
      → activation_for_reservation b id ≡ some a
      → activation_for_reservation (save_activation other r items is b) id ≡ some a
  unfolding activation_for_reservation save_activation get_activation
  activated-known other r items is b ne fresh h =
      elim (Option-cases (Dict.get id b.activation_by_reservation)) [
        | inl e ↦ absurd (ground (arith, e))
        | inr (k, e) ↦ ground (
          arith,
          e,
          get-set r.reservation_id id other.activation_id b.activation_by_reservation,
          get-set other.activation_id k other b.activations,
        )
      ]

  publish-known :
      (g : FlexibilityAggregate) (b : Backend)
      → activation_for_reservation b id ≡ some a
      → activation_for_reservation (publish_one g b).1 id ≡ some a
  unfolding activation_for_reservation
  publish-known g b h = ground (
    arith,
    (publish_one-SameLedger g b).activations,
    (publish_one-SameLedger g b).activation_by_reservation,
  )

  -- A reservation without an activation is another one.
  unused_ne :
      (k : Uuid) (s : Reservation) (b : Backend)
      → IsActivated b
      → get_reservation b k ≡ some s
      → activation_for_reservation b k ≡ none
      → s.reservation_id ≢ id
  unused_ne k s b w found unused e =
      let own = get_reservation-id k s w.valid found in
      cc (subst (λ x. activation_for_reservation b x ≡ none) (sym own ∙ e) unused, w.known)

  IsActivated-Keeps : Keeps src IsActivated
  unfolding closed_reservation outcome save_reservation update_reservation expire
      activation_for_reservation
  IsActivated-Keeps =
      let valid = IsValid-Keeps src in
      record {
        at_expire = λ now b w. record { valid = valid.at_expire now b w.valid; known = w.known };
        at_save = λ k correlation now key p items left b fresh e w. record {
          valid = valid.at_save k correlation now key p items left b fresh e w.valid;
          known = w.known;
        };
        at_cancel = λ k s b known good w. record {
          valid = valid.at_cancel k s b known good w.valid;
          known = w.known;
        };
        at_activate = λ c k s items pairs b known good allocated built unused fresh w. record {
          valid =
              valid.at_activate c k s items pairs b known good allocated built unused fresh w.valid;
          known =
              activated-known (outcome c k s pairs) (closed_reservation c s pairs) _ _ b
                (unused_ne k s b w known unused) fresh w.known;
        };
        at_publish = λ g b w. record {
          valid = valid.at_publish g b w.valid;
          known = publish-known g b w.known;
        };
      }

-- With an activation on record the call only repeats it.
activate-known :
    (c : ActivationContext) (id : Uuid) (a : Activation) (s : ServiceState)
    → activation_for_reservation s.backend id ≡ some a
    → activate c id s ≡ (ok a, s)
unfolding activate
activate-known c id a s h = ground (arith, h)

-- A successful call leaves its answer on record.
activate_records :
    (c : ActivationContext) (id : Uuid) (a : Activation) (s : ServiceState)
    → IsValid s.backend
    → (activate c id s).0 ≡ ok a
    → activation_for_reservation (activate c id s).1.backend id ≡ some a
activate_records c id a s v h = elim (Option-cases (activation_for_reservation s.backend id)) [
  | inr (b, e) ↦ let same = activate-known c id b s e in rw same (cc (e, h, ap (λ x. x.0) same))
  | inl unused ↦ (activate-Dispatched c id a s v unused h).on_record
]

-- Once `activate` has returned an activation, every later call for the reservation, whatever calls
-- lie between, with whatever context and deliveries, returns the same activation and changes nothing:
-- no instruction is built, no resource asked, and no webhook sent.
pub activate_once :
    (src : OfferSource) (c later : ActivationContext) (id : Uuid) (a : Activation)
    (s : ServiceState) (deliveries : List WebhookDelivery) {b' : Backend}
    → IsValid s.backend
    → get_activation s.backend c.activation_id ≡ none
    → (activate c id s).0 ≡ ok a
    → Reach src (activate c id s).1.backend b'
    → activate later id (record { backend = b'; deliveries = deliveries })
      ≡ (ok a, record { backend = b'; deliveries = deliveries })
activate_once src c later id a s deliveries {b'} v fresh h run =
    let v' =
      Step-keeps (IsValid-Keeps src) s.backend (activate c id s).1.backend
        (activates c id s.deliveries fresh refl) v in
    activate-known later id a (record { backend = b'; deliveries = deliveries })
      (Reach-keeps (IsActivated-Keeps src id a)
        (record { valid = v'; known = activate_records c id a s v h }) run).known
