-- ===== src/Reservations/Service/Lifecycle.antt =====
-- The life of a reservation over the runs of the service (src/der_flex/reservations/service.py).
use mathlib.Core.Path.{subst}
use der_flex.Prelude.{◌≡◌, ◌≢◌, sym, ◌∙◌, true, false, none, some, arith, nat_eq, map}
use der_flex.Prelude.Dict.{get-set, get-map_values}
use der_flex.Domain.Models.{
  Uuid, Instant, Reservation, is_confirmed, cancelled, FlexibilityAggregate,
}
use der_flex.Reservations.Backend.{
  Backend, expire_one, expire, get_reservation, update_reservation, save_reservation,
  save_activation,
}
use der_flex.Reservations.Backend.Invariant.{
  IsValid, expire-IsValid, save_reservation-IsValid, update_reservation-IsValid,
  save_activation-IsValid, SameLedger-IsValid, get_reservation-id,
}
use der_flex.Reservations.Service.{OfferSource, offers_for, new_reservation}
use der_flex.Reservations.Service.Activate.{accepted_pairs, outcome, closed_reservation}
use der_flex.Reservations.Service.Residual.{publish_one}
use der_flex.Reservations.Service.Effects.{publish_one-SameLedger}
use der_flex.Reservations.Service.Steps.{Keeps, Reach}
use der_flex.Reservations.Service.Runs.{Reach-keeps}

-- The primitive writes keep the backend valid.
module _ (src : OfferSource) where
  pub IsValid-Keeps : Keeps src IsValid
  IsValid-Keeps = record {
    at_expire = λ now b v. expire-IsValid now v;
    at_save = λ id correlation now key p items left b fresh e v.
        save_reservation-IsValid (new_reservation id correlation now p (offers_for src p now) items)
          items key (src.fingerprint p) p.callback_url v;
    at_cancel = λ id r b known good v.
        update_reservation-IsValid (record r { status = cancelled }) r
          (rw (← get_reservation-id id r v known) at known) v;
    at_activate = λ c id r items pairs b known good allocated built unused fresh v.
        save_activation-IsValid (outcome c id r pairs) (closed_reservation c r pairs)
          (map (λ p. p.0) (accepted_pairs c pairs)) (map (λ p. p.1) pairs) v;
    at_publish = λ a b v. SameLedger-IsValid (publish_one-SameLedger a b) v;
  }

module _ (src : OfferSource) (id : Uuid) (r : Reservation)
    (closed : is_confirmed r.status ≡ false) where
  record IsClosed (b : Backend) : Type 0 where
    valid : IsValid b
    stored : get_reservation b id ≡ some r

  expire-stored :
      (now : Instant) (b : Backend)
      → get_reservation b id ≡ some r
      → get_reservation (expire now b) id ≡ some r
  unfolding get_reservation expire expire_one
  expire-stored now b h = ground (arith, get-map_values (expire_one now) id b.reservations)

  -- A write at another identifier.
  update-stored :
      (other : Reservation) (b : Backend)
      → other.reservation_id ≢ id
      → get_reservation b id ≡ some r
      → get_reservation (update_reservation other b) id ≡ some r
  unfolding get_reservation update_reservation
  update-stored other b ne h = ground (arith, get-set other.reservation_id id other b.reservations)

  -- The confirmed reservation that is written is another one.
  confirmed_ne :
      (k : Uuid) (s : Reservation) (b : Backend)
      → IsClosed b
      → get_reservation b k ≡ some s
      → is_confirmed s.status ≡ true
      → s.reservation_id ≢ id
  confirmed_ne k s b w known good e =
      let own = get_reservation-id k s w.valid known in
      let found : get_reservation b id ≡ some s =
        subst (λ x. get_reservation b x ≡ some s) (sym own ∙ e) known in
      cc (found, w.stored)

  publish-stored :
      (a : FlexibilityAggregate) (b : Backend)
      → get_reservation b id ≡ some r
      → get_reservation (publish_one a b).1 id ≡ some r
  unfolding get_reservation
  publish-stored a b h = rw (publish_one-SameLedger a b).reservations h

  IsClosed-Keeps : Keeps src IsClosed
  unfolding save_activation save_reservation closed_reservation update_reservation get_reservation
  IsClosed-Keeps =
      let valid = IsValid-Keeps src in
      record {
        at_expire = λ now b w. record {
          valid = valid.at_expire now b w.valid;
          stored = expire-stored now b w.stored;
        };
        at_save = λ k correlation now key p items left b fresh e w. record {
          valid = valid.at_save k correlation now key p items left b fresh e w.valid;
          stored =
              update-stored (new_reservation k correlation now p (offers_for src p now) items) b
                (λ same. cc (subst (λ x. get_reservation b x ≡ none) same fresh, w.stored))
                w.stored;
        };
        at_cancel = λ k s b known good w. record {
          valid = valid.at_cancel k s b known good w.valid;
          stored =
              update-stored (record s { status = cancelled }) b (confirmed_ne k s b w known good)
                w.stored;
        };
        at_activate = λ c k s items pairs b known good allocated built unused fresh w. record {
          valid =
              valid.at_activate c k s items pairs b known good allocated built unused fresh w.valid;
          stored =
              update-stored (closed_reservation c s pairs) b (confirmed_ne k s b w known good)
                w.stored;
        };
        at_publish = λ a b w. record {
          valid = valid.at_publish a b w.valid;
          stored = publish-stored a b w.stored;
        };
      }

  -- A reservation that is not confirmed (activated, completed, failed, cancelled or expired) stays
  -- exactly as it is, whatever calls are made.
  pub closed_forever :
      {b b' : Backend}
      → IsValid b
      → get_reservation b id ≡ some r
      → Reach src b b'
      → get_reservation b' id ≡ some r
  closed_forever v h run =
      (Reach-keeps IsClosed-Keeps (record { valid = v; stored = h }) run).stored
