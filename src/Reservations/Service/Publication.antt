-- ===== src/Reservations/Service/Publication.antt =====
-- What `public_residual_capacity` reveals over a run (src/der_flex/reservations/service.py).
use der_flex.Prelude.{
  ◌≡◌, refl, sym, ◌∙◌, ◌↔◌, true, false, some, List, [], ◌∷◌, arith, All, All-map_pred,
  contains-add_mono, contains-add_self, ==_iff, if◌then◌else◌, ap, Bool-cases, inl, inr, ◌⊎◌, ◌==◌,
  ==_refl,
}
use mathlib.Core.Path.{subst}
use der_flex.Prelude.Dict
use der_flex.Prelude.Dict.{get-set}
use der_flex.Domain.Models.{Instant, FlexibilityAggregate, ProductCell}
use der_flex.Domain.Equality.{cell_eq}
use der_flex.Reservations.Records.{Residual, residual_eq}
use der_flex.Reservations.Backend.{
  Backend, expire, published_residual, set_published_residual, suppress_public_cell,
  public_cell_is_suppressed, update_reservation, save_activation, save_reservation,
  active_reservations,
}
use der_flex.Reservations.Service.{OfferSource}
use der_flex.Reservations.Service.Residual.{
  cell_of, residual_of, differs, note_change, publish_one, publish_all, apply_residual,
  public_residual_capacity,
}
use der_flex.Reservations.Service.Steps.{Keeps, Reach, next, publishes}
use der_flex.Reservations.Service.Runs.{Reach-keeps}

-- An aggregate is published exactly when its cell is not suppressed and has shown no other residual.
pub publish_one_iff :
    (a : FlexibilityAggregate) (b : Backend)
    → ((publish_one a b).0 ≡ true) ↔ (
        (public_cell_is_suppressed b (cell_of a) ≡ false)
        × (differs (published_residual b (cell_of a)) (residual_of a) ≡ false))
unfolding publish_one public_cell_is_suppressed suppress_public_cell
publish_one_iff a b = ground (arith, contains-add_self (cell_of a) b.suppressed_public_cells)

published_residual-note_change :
    (a : FlexibilityAggregate) (b : Backend) (cell : ProductCell)
    → published_residual (note_change a b) cell ≡ published_residual b cell
unfolding note_change suppress_public_cell published_residual
published_residual-note_change a b cell =
    elim (Bool-cases (differs (Dict.get (cell_of a) b.published_residuals) (residual_of a))) [
      | inl e ↦ rw e
      | inr e ↦ rw e
    ]

published_residual-set :
    (cell j : ProductCell) (residual : Residual) (b : Backend)
    → published_residual (set_published_residual cell residual b) j
      ≡ (if cell == j then some residual else published_residual b j)
unfolding published_residual set_published_residual
published_residual-set cell j residual b = get-set cell j residual b.published_residuals

-- The two outcomes of a round.
publish_one-state :
    (a : FlexibilityAggregate) (b : Backend)
    → (((publish_one a b).1 ≡ note_change a b) × ((publish_one a b).0 ≡ false))
      ⊎ (((publish_one a b).1
            ≡ set_published_residual (cell_of a) (residual_of a) (note_change a b))
          × ((publish_one a b).0 ≡ true))
unfolding publish_one
publish_one-state a b =
    elim (Bool-cases (public_cell_is_suppressed (note_change a b) (cell_of a))) [
      | inl e ↦ inl (rw e, rw e)
      | inr e ↦ inr (rw e, rw e)
    ]

-- Behind a publication the cell shows the residual of the aggregate.
published_shows :
    (a : FlexibilityAggregate) (b : Backend)
    → (publish_one a b).0 ≡ true
    → published_residual (publish_one a b).1 (cell_of a) ≡ some (residual_of a)
published_shows a b h = elim (publish_one-state a b) [
  | inl (e, f) ↦ cc
  | inr (e, f) ↦
      rw (e, published_residual-set (cell_of a) (cell_of a) (residual_of a) (note_change a b))
        (rw (==_refl (cell_of a)))
]

same_residual :
    (previous residual : Residual) → differs (some previous) residual ≡ false → previous ≡ residual
same_residual previous residual h = ground (arith, ==_iff previous residual)

module _ (cell : ProductCell) (residual : Residual) where
  abbrev Shows : Backend → Type 0
  Shows b = published_residual b cell ≡ some residual

  publish_one-Shows : (a : FlexibilityAggregate) (b : Backend) → Shows b → Shows (publish_one a b).1
  publish_one-Shows a b h = elim (publish_one-state a b) [
    | inl (e, f) ↦ rw e (published_residual-note_change a b cell ∙ h)
    | inr (e, f) ↦ rw e (
        published_residual-set (cell_of a) cell (residual_of a) (note_change a b)
        ∙ elim (Bool-cases (cell_of a == cell)) [
          | inr other ↦ rw other (published_residual-note_change a b cell ∙ h)
          | inl same ↦ rw same (
              ap some (
                sym (
                  same_residual residual (residual_of a) (
                    subst (λ x. differs x (residual_of a) ≡ false)
                      (ap (published_residual b) ((==_iff (cell_of a) cell).0 same) ∙ h)
                      ((publish_one_iff a b).0 f).1))))
        ])
  ]

  Shows-Keeps : (src : OfferSource) → Keeps src Shows
  unfolding published_residual expire update_reservation save_activation save_reservation
  Shows-Keeps src = record {
    at_expire = λ now b h. h;
    at_save = λ id correlation now key p items left b fresh e h. h;
    at_cancel = λ id r b known good h. h;
    at_activate = λ c id r items pairs b known good allocated built unused fresh h. h;
    at_publish = publish_one-Shows;
  }

module _ (cell : ProductCell) where
  abbrev IsHidden : Backend → Type 0
  IsHidden b = public_cell_is_suppressed b cell ≡ true

  publish_one-IsHidden :
      (a : FlexibilityAggregate) (b : Backend) → IsHidden b → IsHidden (publish_one a b).1
  unfolding publish_one public_cell_is_suppressed set_published_residual suppress_public_cell
  publish_one-IsHidden a b h =
      ground (arith, contains-add_mono cell (cell_of a) b.suppressed_public_cells h)

  IsHidden-Keeps : (src : OfferSource) → Keeps src IsHidden
  unfolding public_cell_is_suppressed expire update_reservation save_activation save_reservation
  IsHidden-Keeps src = record {
    at_expire = λ now b h. h;
    at_save = λ id correlation now key p items left b fresh e h. h;
    at_cancel = λ id r b known good h. h;
    at_activate = λ c id r items pairs b known good allocated built unused fresh h. h;
    at_publish = publish_one-IsHidden;
  }

-- Every aggregate of a publication is shown by the state behind it.
abbrev pub AreShown : Backend → List FlexibilityAggregate → Type 0
AreShown b = All (λ a. published_residual b (cell_of a) ≡ some (residual_of a))

publish_all-Shows :
    (aggregates : List FlexibilityAggregate) (b : Backend) (cell : ProductCell)
    (residual : Residual)
    → published_residual b cell ≡ some residual
    → published_residual (publish_all aggregates b).1 cell ≡ some residual
unfolding publish_all
publish_all-Shows [] b cell residual h = h
publish_all-Shows (a ∷ rest) b cell residual h =
    publish_all-Shows rest (publish_one a b).1 cell residual (publish_one-Shows cell residual a b h)

publish_all-AreShown :
    (aggregates : List FlexibilityAggregate) (b : Backend)
    → AreShown (publish_all aggregates b).1 (publish_all aggregates b).0
unfolding publish_all
publish_all-AreShown [] b = tt
publish_all-AreShown (a ∷ rest) b =
    let later = publish_all-AreShown rest (publish_one a b).1 in
    elim (Bool-cases (publish_one a b).0) [
      | inr hidden ↦ rw hidden later
      | inl published ↦ rw published (
        publish_all-Shows rest (publish_one a b).1 (cell_of a) (residual_of a)
            (published_shows a b published),
        later,
      )
    ]

AreShown-Reach :
    (src : OfferSource) {b b' : Backend} (aggregates : List FlexibilityAggregate)
    → Reach src b b'
    → AreShown b aggregates
    → AreShown b' aggregates
AreShown-Reach src [] r h = tt
AreShown-Reach src (a ∷ rest) r h =
    (Reach-keeps (Shows-Keeps (cell_of a) (residual_of a) src) h.0 r, AreShown-Reach src rest r h.1)

-- Two lists that one state shows agree on every cell.
shown_agree :
    (b : Backend) (a : FlexibilityAggregate) (others : List FlexibilityAggregate)
    → published_residual b (cell_of a) ≡ some (residual_of a)
    → AreShown b others
    → All (λ x. cell_of x ≡ cell_of a → residual_of x ≡ residual_of a) others
shown_agree b a [] h hs = tt
shown_agree b a (x ∷ others) h hs =
    (λ same. cc (hs.0, h, ap (published_residual b) same), shown_agree b a others h hs.1)

published-AreShown :
    (aggregates : List FlexibilityAggregate) (now : Instant) (b : Backend)
    → AreShown
        (public_residual_capacity aggregates now b).1
        (public_residual_capacity aggregates now b).0
unfolding public_residual_capacity
published-AreShown aggregates now b =
    publish_all-AreShown (apply_residual aggregates (active_reservations (expire now b)))
      (expire now b)

-- A cell that is suppressed stays so, whatever calls are made.
pub suppressed_stays :
    (src : OfferSource) (cell : ProductCell) {b b' : Backend}
    → public_cell_is_suppressed b cell ≡ true
    → Reach src b b'
    → public_cell_is_suppressed b' cell ≡ true
suppressed_stays src cell h r = Reach-keeps (IsHidden-Keeps cell src) h r

-- Whatever calls lie between two publications, the second shows no cell with another residual than
-- the first: each of its aggregates has the residual that the first published for its cell, if it did.
pub publication_stable :
    (src : OfferSource) (first second : List FlexibilityAggregate) (now later : Instant)
    (b : Backend) {b' : Backend}
    → Reach src (public_residual_capacity first now b).1 b'
    → All
        (λ a.
          All
            (λ x. cell_of x ≡ cell_of a → residual_of x ≡ residual_of a)
            (public_residual_capacity first now b).0)
        (public_residual_capacity second later b').0
publication_stable src first second now later b {b'} r =
    let end = (public_residual_capacity second later b').1 in
    let before = (public_residual_capacity first now b).0 in
    let kept =
      AreShown-Reach src before (next r (publishes second later refl))
        (published-AreShown first now b) in
    All-map_pred (λ a. published_residual end (cell_of a) ≡ some (residual_of a))
      (λ a. All (λ x. cell_of x ≡ cell_of a → residual_of x ≡ residual_of a) before)
      (λ a shown. shown_agree end a before shown kept) (public_residual_capacity second later b').0
      (published-AreShown second later b')
