-- ===== src/Reservations/Service/Runs.antt =====
-- The induction principle of the runs: what every primitive write keeps holds of every run.
use mathlib.Core.Path.{subst}
use der_flex.Prelude.{◌≡◌, sym, inl, inr, List, [], ◌∷◌, none}
use der_flex.Domain.Models.{Uuid, Instant, FlexibilityAggregate}
use der_flex.Reservations.Backend.{Backend, expire, active_reservations, get_activation}
use der_flex.Adapters.Webhooks.{WebhookDelivery}
use der_flex.Reservations.Service.{OfferSource, get, cancel}
use der_flex.Reservations.Service.Create.{create-keeps}
use der_flex.Reservations.Service.Activate.{ActivationContext, activate}
use der_flex.Reservations.Service.Residual.{
  publish_one, publish_all, apply_residual, apply_residual_capacity, public_residual_capacity,
}
use der_flex.Reservations.Service.Steps.{
  Step, creates, gets, cancels, activates, reads_residual, publishes, Reach, here, next, Keeps,
  expire-activation, expire-get_activation, expire-fresh, cancel-state, activate-state,
}

module _ {src : OfferSource} {P : Backend → Type 0} (keeps : Keeps src P) where
  publish_all-keeps :
      (aggregates : List FlexibilityAggregate) (b : Backend) → P b → P (publish_all aggregates b).1
  unfolding publish_all
  publish_all-keeps [] b h = h
  publish_all-keeps (a ∷ rest) b h =
      publish_all-keeps rest (publish_one a b).1 (keeps.at_publish a b h)

  cancel-keeps : (id : Uuid) (now : Instant) (b : Backend) → P b → P (cancel id now b).1
  cancel-keeps id now b h =
      let expired = keeps.at_expire now b h in
      elim (cancel-state id now b) [
        | inl e ↦ subst P (sym e) expired
        | inr (r, known, good, e) ↦
            subst P (sym e) (keeps.at_cancel id r (expire now b) known good expired)
      ]

  activate-keeps :
      (c : ActivationContext) (id : Uuid) (deliveries : List WebhookDelivery) (b : Backend)
      → get_activation b c.activation_id ≡ none
      → P b
      → P (activate c id (record { backend = b; deliveries = deliveries })).1.backend
  activate-keeps c id deliveries b fresh h =
      let expired = keeps.at_expire c.now b h in
      elim (activate-state c id (record { backend = b; deliveries = deliveries })) [
        | inl e ↦ subst P (sym e) h
        | inr (inl e) ↦ subst P (sym e) expired
        | inr (inr (r, items, pairs, known, good, allocated, built, unused, e)) ↦ subst P (sym e) (
            keeps.at_activate c id r items pairs (expire c.now b) known good allocated built
              (expire-activation id c.now b unused)
              (expire-get_activation c.activation_id c.now b fresh) expired)
      ]

  -- One call.
  pub Step-keeps : (b b' : Backend) → Step src b b' → P b → P b'
  unfolding get apply_residual_capacity public_residual_capacity
  Step-keeps b b' (creates id correlation now req fresh e) h = subst P (sym e) (
      create-keeps src id correlation now P req b h (keeps.at_expire now b h)
        (λ key p items left found.
          keeps.at_save id correlation now key p items left (expire now b)
            (expire-fresh id now b fresh) found (keeps.at_expire now b h)))
  Step-keeps b b' (gets id now e) h = subst P (sym e) (keeps.at_expire now b h)
  Step-keeps b b' (cancels id now e) h = subst P (sym e) (cancel-keeps id now b h)
  Step-keeps b b' (activates c id deliveries fresh e) h =
      subst P (sym e) (activate-keeps c id deliveries b fresh h)
  Step-keeps b b' (reads_residual aggregates now e) h = subst P (sym e) (keeps.at_expire now b h)
  Step-keeps b b' (publishes aggregates now e) h = subst P (sym e) (
      publish_all-keeps (apply_residual aggregates (active_reservations (expire now b)))
        (expire now b) (keeps.at_expire now b h))

  -- Any run.
  pub Reach-keeps : {b b' : Backend} → P b → Reach src b b' → P b'
  Reach-keeps h here = h
  Reach-keeps h (next {c} {d} r st) = Step-keeps c d st (Reach-keeps h r)
