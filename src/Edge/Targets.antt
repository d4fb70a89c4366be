-- ===== src/Edge/Targets.antt =====
-- `scripts/ubb_edge.py`: where an identity or an ingress may lead, said without the loop over the sites.
use ultimate_bbsbox.Prelude.{
  String, true, ◌≡◌, refl, ap, List, [], ◌∷◌, ◌++◌, ◌||◌, elem, arith, eq_iff, eq_refl, Bool-cases,
  inl, inr,
}
use ultimate_bbsbox.Edge.Models.{PrivateSite}
use ultimate_bbsbox.Edge.Config.{services_of, is_declared}

-- A place to lead to: the edge itself, or a service in the list of a site that stands anywhere among
-- the sites.
pub data IsTarget (edge : String) (sites : List PrivateSite) : String → Type 0 where
  to_edge : (name : String) → edge ≡ name → IsTarget edge sites name
  to_service :
      (before after : List PrivateSite) (s : PrivateSite) (name : String)
      → sites ≡ before ++ s ∷ after
      → elem name s.reachable_services ≡ true
      → IsTarget edge sites name

elem-append :
    (name : String) (xs ys : List String) → elem name (xs ++ ys) ≡ (elem name xs || elem name ys)
elem-append name [] ys = refl
elem-append name (x ∷ xs) ys = ground (arith, elem-append name xs ys)

-- The site that reaches a service, with those before and behind it.
record IsReached (name : String) (sites : List PrivateSite) : Type 0 where
  before : List PrivateSite
  after : List PrivateSite
  site : PrivateSite
  place : sites ≡ before ++ site ∷ after
  reached : elem name site.reachable_services ≡ true

services_of-IsReached :
    (name : String) (sites : List PrivateSite)
    → elem name (services_of sites) ≡ true
    → IsReached name sites
unfolding services_of
services_of-IsReached name [] h = cc
services_of-IsReached name (s ∷ ss) h = elim (Bool-cases (elem name s.reachable_services)) [
  | inl here ↦ record { before = []; after = ss; site = s; place = refl; reached = here }
  | inr there ↦
      let later : elem name (services_of ss) ≡ true =
        ground (arith, h, there, elem-append name s.reachable_services (services_of ss)) in
      let r = services_of-IsReached name ss later in
      record {
        before = s ∷ r.before;
        after = r.after;
        site = r.site;
        place = ap (λ l. s ∷ l) r.place;
        reached = r.reached;
      }
]

reached-services_of :
    (name : String) (before after : List PrivateSite) (s : PrivateSite)
    → elem name s.reachable_services ≡ true
    → elem name (services_of (before ++ s ∷ after)) ≡ true
unfolding services_of
reached-services_of name [] after s h =
    rw (elem-append name s.reachable_services (services_of after)) (ground (arith, h))
reached-services_of name (b ∷ before) after s h =
    rw (elem-append name b.reachable_services (services_of (before ++ s ∷ after)))
      (ground (arith, reached-services_of name before after s h))

pub declared-IsTarget :
    (edge : String) (sites : List PrivateSite) (name : String)
    → is_declared edge (services_of sites) name ≡ true
    → IsTarget edge sites name
declared-IsTarget edge sites name h = elim (Bool-cases (elem name (services_of sites))) [
  | inl there ↦
      let r = services_of-IsReached name sites there in
      to_service r.before r.after r.site name r.place r.reached
  | inr missing ↦
      let own : edge ≡ name = ground (arith, h, missing, eq_iff edge name) in to_edge name own
]

pub IsTarget-declared :
    (edge : String) (sites : List PrivateSite) (name : String)
    → IsTarget edge sites name
    → is_declared edge (services_of sites) name ≡ true
IsTarget-declared edge sites name (to_edge n own) = rw own (ground (arith, eq_refl n))
IsTarget-declared edge sites name (to_service before after s n place h) =
    rw place (ground (arith, reached-services_of name before after s h))
