-- ===== src/Reservations/Service/Overbooking.antt =====
-- Runs of the service on an offer that keeps its place in the cohorts of its product, and what they
-- book on it (src/der_flex/reservations/service.py).
use der_flex.Prelude.{
  ◌≤◌, ◌≡◌, ◌≢◌, ◌⊎◌, true, Bool, ◌&&◌, string_eq, List, [], ◌∷◌, All, nat_eq, ◌==◌,
}
use der_flex.Domain.Models.{Instant, FlexibilityDirection, FlexibilityOffer}
use der_flex.Domain.Equality.{direction_eq, consequence_eq}
use der_flex.Reservations.Backend.{Backend}
use der_flex.Reservations.Backend.Invariant.{IsValid}
use der_flex.Reservations.Allocate.{capacity_of}
use der_flex.Reservations.Allocate.Outcome.{AreDistinct, booked}
use der_flex.Reservations.Service.{OfferSource, RequestPayload, offers_for}

-- The offer stands in the list.
abbrev pub Stands : FlexibilityOffer → List FlexibilityOffer → Type 0
Stands o [] = ⊥
Stands o (x ∷ xs) = (x ≡ o) ⊎ Stands o xs

-- The request asks for the product of the offer: its zone, its interval and its consequence.
abbrev pub is_for_product : FlexibilityOffer → RequestPayload → Bool
is_for_product o p =
    p.zone_id == o.zone_id
    && p.interval_start == o.interval_start
    && p.interval_end == o.interval_end
    && p.consequence_type == o.consequence_type

-- The store goes on serving `o`: in a cohort of the product of `o` the resources are distinct, and it
-- holds the offer itself or no offer of its resource, as once the offer has expired. So the offer is
-- not replaced by another one, and no other tenant has an offer of a resource of this name for the
-- product. Nothing is asked of the cohorts of other products.
pub record Serves (src : OfferSource) (o : FlexibilityOffer) : Type 0 where
  pub distinct_resources :
      (p : RequestPayload) (now : Instant)
      → is_for_product o p ≡ true
      → AreDistinct (offers_for src p now)
  pub same_offer :
      (p : RequestPayload) (now : Instant)
      → is_for_product o p ≡ true
      → Stands o (offers_for src p now)
        ⊎ All (λ x. x.resource_id ≢ o.resource_id) (offers_for src p now)

module _ (src : OfferSource) (o : FlexibilityOffer) (direction : FlexibilityDirection)
    (serves : Serves src o) where
  -- The state is valid, and the offer is not overbooked.
  pub record IsWithin (b : Backend) : Type 0 where
    pub valid : IsValid b
    pub within : booked b direction o ≤ capacity_of direction o
