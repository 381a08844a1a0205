-- ===== src/Api/Security/Ownership.antt =====
-- The zones and the tenants of the principals that `StaticBearerAuthenticator` accepts
-- (src/der_flex/security.py).
use der_flex.Prelude.{
  String, ◌≡◌, true, false, Option, none, some, List, [], ◌∷◌, ok, arith, All, contains, Bool-cases,
  Option-cases, ==_iff, ◌==◌, string_eq, any, inl, inr,
}
use mathlib.Core.Path.{subst}
use der_flex.Prelude.Dict
use der_flex.Prelude.Dict.{Dict, get-set}
use der_flex.Api.Security.{
  AccessPrincipal, StaticBearerAuthenticator, own_zones, own_all, static_bearer, last_match,
  authenticate, require_zone,
}

-- The zones of the principal are entered for its tenant.
abbrev Owns : Dict String String → AccessPrincipal → Type 0
Owns owners p = (z : String) → contains z p.zone_ids ≡ true → Dict.get z owners ≡ some p.tenant_id

abbrev IsNarrow : AccessPrincipal → Type 0
IsNarrow p = contains "*" p.zone_ids ≡ false

abbrev Extends : Dict String String → Dict String String → Type 0
Extends d e = (z t : String) → Dict.get z d ≡ some t → Dict.get z e ≡ some t

set_default-Extends : (z t : String) (d : Dict String String) → Extends d (Dict.set_default z t d)
set_default-Extends z t d y u h = ground (arith, get-set z y t d, ==_iff z y)

own_zones-cons :
    (t z : String) (rest : List String) (d e : Dict String String)
    → own_zones t (z ∷ rest) d ≡ some e
    → (Dict.get z (Dict.set_default z t d) ≡ some t)
      × (own_zones t rest (Dict.set_default z t d) ≡ some e)
unfolding own_zones
own_zones-cons t z rest d e h = elim (Option-cases (Dict.get z (Dict.set_default z t d))) [
  | inl n ↦ absurd (cc (h, n))
  | inr (u, g) ↦ ground (arith, ==_iff u t)
]

own_all-cons :
    (p : AccessPrincipal) (ps : List AccessPrincipal) (d e : Dict String String)
    → own_all (p ∷ ps) d ≡ some e
    → (contains "*" p.zone_ids ≡ false)
      × ((d' : Dict String String) × (own_zones p.tenant_id p.zone_ids d ≡ some d')
          × (own_all ps d' ≡ some e))
unfolding own_all
own_all-cons p ps d e h = elim (Option-cases (own_zones p.tenant_id p.zone_ids d)) [
  | inl n ↦ ground (arith)
  | inr (d', g) ↦ ground (arith)
]

own_zones-step :
    (t : String) (zones : List String) (d e : Dict String String)
    → own_zones t zones d ≡ some e
    → Extends d e × ((z : String) → contains z zones ≡ true → Dict.get z e ≡ some t)
unfolding own_zones
own_zones-step t [] d e h = (λ z u k. ground (arith), λ z k. absurd (cc k))
own_zones-step t (z ∷ rest) d e h =
    let (got, later) = own_zones-cons t z rest d e h in
    let (extends, owns) = own_zones-step t rest (Dict.set_default z t d) e later in
    (
      λ y u k. extends y u (set_default-Extends z t d y u k),
      λ y k. elim (Bool-cases (y == z)) [
        | inl same ↦
            let same_zone : z ≡ y = ground (arith, ==_iff y z) in
            subst (λ x. Dict.get x e ≡ some t) same_zone (extends z t got)
        | inr other ↦ owns y (ground (arith))
      ],
    )

own_all-step :
    (ps : List AccessPrincipal) (d e : Dict String String)
    → own_all ps d ≡ some e
    → Extends d e × All (Owns e) ps × All IsNarrow ps
unfolding own_all
own_all-step [] d e h = (λ z u k. ground (arith), tt, tt)
own_all-step (p ∷ rest) d e h =
    let (star, (d', first, later)) = own_all-cons p rest d e h in
    let (extends, owns, stars) = own_all-step rest d' e later in
    let (extends', owns') = own_zones-step p.tenant_id p.zone_ids d d' first in
    (
      λ z u k. extends z u (extends' z u k),
      (λ z k. extends z p.tenant_id (owns' z k), owns),
      (star, stars),
    )

static_bearer-owners :
    (entries : Dict String AccessPrincipal) (auth : StaticBearerAuthenticator)
    → static_bearer entries ≡ some auth
    → (owners : Dict String String) × (auth.entries ≡ entries)
      × (own_all (Dict.values entries) [] ≡ some owners)
unfolding static_bearer
static_bearer-owners [] auth h = absurd (cc h)
static_bearer-owners (e ∷ rest) auth h =
    elim (Bool-cases (any (λ token. token == "") (Dict.keys (e ∷ rest)))) [
      | inl empty ↦ absurd (cc (h, empty))
      | inr filled ↦ elim (Option-cases (own_all (Dict.values (e ∷ rest)) [])) [
        | inl n ↦ absurd (cc (h, filled, n))
        | inr (owners, g) ↦ (owners, ground (arith), g)
      ]
    ]

abbrev AllSome : (AccessPrincipal → Type 0) → Option AccessPrincipal → Type 0
AllSome P none = Unit
AllSome P (some p) = P p

last_match-All :
    (P : AccessPrincipal → Type 0) (token : String) (entries : Dict String AccessPrincipal)
    (matched : Option AccessPrincipal)
    → All P (Dict.values entries)
    → AllSome P matched
    → AllSome P (last_match token entries matched)
unfolding last_match
last_match-All P token [] matched h m = m
last_match-All P token ((expected, p) ∷ rest) matched h m = elim (Bool-cases (token == expected)) [
  | inl e ↦ rw e (last_match-All P token rest (some p) h.1 h.0)
  | inr e ↦ rw e (last_match-All P token rest matched h.1 m)
]

authenticate-All :
    (P : AccessPrincipal → Type 0) (auth : StaticBearerAuthenticator) (token : Option String)
    (p : AccessPrincipal)
    → All P (Dict.values auth.entries)
    → authenticate auth token ≡ ok p
    → P p
unfolding authenticate
authenticate-All P auth none p all h = absurd (cc h)
authenticate-All P auth (some token) p all h =
    elim (Option-cases (last_match token auth.entries none)) [
      | inl n ↦ absurd (cc (h, n))
      | inr (q, g) ↦
          subst P (ground (arith))
            (subst (AllSome P) g (last_match-All P token auth.entries none all tt))
    ]

require_zone-contains :
    (p : AccessPrincipal) (z : String)
    → contains "*" p.zone_ids ≡ false
    → require_zone p z ≡ ok tt
    → contains z p.zone_ids ≡ true
unfolding require_zone
require_zone-contains p z star h = ground (arith)

-- Two tokens of an accepted table whose principals may both reach a zone belong to one tenant.
pub zone_has_one_tenant :
    (entries : Dict String AccessPrincipal) (auth : StaticBearerAuthenticator)
    → static_bearer entries ≡ some auth
    → (t u : Option String) (p q : AccessPrincipal) (z : String) → authenticate auth t ≡ ok p
    → authenticate auth u ≡ ok q
    → require_zone p z ≡ ok tt
    → require_zone q z ≡ ok tt
    → p.tenant_id ≡ q.tenant_id
zone_has_one_tenant entries auth h t u p q z hp hq rp rq =
    let (owners, same, g) = static_bearer-owners entries auth h in
    let (extends, owns, stars) = own_all-step (Dict.values entries) [] owners g in
    let same_entries : entries ≡ auth.entries = ground (arith) in
    let owner =
      λ (r : AccessPrincipal) (token : Option String) (hr : authenticate auth token ≡ ok r)
          (zr : require_zone r z ≡ ok tt).
        authenticate-All (Owns owners) auth token r
          (subst (λ x. All (Owns owners) (Dict.values x)) same_entries owns) hr z
          (require_zone-contains r z
            (authenticate-All IsNarrow auth token r
              (subst (λ x. All IsNarrow (Dict.values x)) same_entries stars) hr)
            zr) in
    let op = owner p t hp rp in let oq = owner q u hq rq in ground (arith)
