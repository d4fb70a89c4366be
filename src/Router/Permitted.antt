-- ===== src/Router/Permitted.antt =====
-- What the route policy permits, as a relation that does not mention the order of its checks.
use ultimate_bbsbox.Prelude.{
  String, true, false, ◌≡◌, refl, Option, none, some, get_or, [], arith, elem, ◌==◌, ◌⊎◌, inl, inr,
  Bool-cases,
}
use ultimate_bbsbox.Prelude.Dict.{lookup}
use ultimate_bbsbox.Prelude.Exec.{Result, ok, err}
use ultimate_bbsbox.Errors.{Error, authorization_error, unknown_service_error}
use ultimate_bbsbox.Registry.Models.{Service}
use ultimate_bbsbox.Registry.Queries.{Registry, resolve}
use ultimate_bbsbox.Router.Models.{
  RouteType, direct, via_service, unsupported, RouteRequest, is_blank,
}
use ultimate_bbsbox.Router.Policy.{
  is_admin_only, is_direct, is_known, is_via, check_route, authorize,
}

-- A service is reached from the main menu, or out of a registered board that its exposure names.
pub data IsPermitted (r : Registry) (s : Service) : RouteType → Option String → Type 0 where
  from_menu :
      s.exposure.main_menu ≡ true
      → get_or s.direct_allowed true ≡ true
      → IsPermitted r s direct none
  from_board :
      (id : String) (board : Service)
      → (id == "") ≡ false
      → lookup id r.services ≡ some board
      → elem id (get_or s.exposure.via_bbs []) ≡ true
      → IsPermitted r s via_service (some id)

module _ (r : Registry) (s : Service) where
  from_known :
      (id : String)
      → check_route r via_service (some id) s ≡ ok tt
      → (found : Option Service) → lookup id r.services ≡ found
      → IsPermitted r s via_service (some id)
  unfolding check_route
  from_known id h none missing = absurd (ground (arith, missing))
  from_known id h (some board) known =
      from_board id board (ground arith) known (ground (arith, known))

  check_route-IsPermitted :
      (t : RouteType) (o : Option String) → check_route r t o s ≡ ok tt → IsPermitted r s t o
  unfolding check_route
  check_route-IsPermitted direct none h = from_menu (ground arith) (ground arith)
  check_route-IsPermitted direct (some o) h = cc
  check_route-IsPermitted via_service none h = cc
  check_route-IsPermitted (unsupported _) o h = cc
  check_route-IsPermitted via_service (some id) h = from_known id h (lookup id r.services) refl

  IsPermitted-check_route :
      {t : RouteType} {o : Option String} → IsPermitted r s t o → check_route r t o s ≡ ok tt
  unfolding check_route
  IsPermitted-check_route (from_menu m a) = ground arith
  IsPermitted-check_route (from_board id board n k v) = rw (n, k, v) refl

  -- The target is not for administrators only, and the route to it is permitted.
  abbrev pub IsOpenTo : RouteRequest → Type 0
  IsOpenTo request =
      (get_or s.exposure.admin_only false ≡ false)
      × IsPermitted r s request.route_type request.origin_service

  checked_is_refused :
      (t : RouteType) (o : Option String)
      → (check_route r t o s ≡ ok tt)
        ⊎ ((check_route r t o s ≡ err authorization_error)
            ⊎ (check_route r t o s ≡ err unknown_service_error))
  unfolding check_route
  checked_is_refused direct (some o) = inr (inl refl)
  checked_is_refused direct none = elim (Bool-cases (is_direct s)) [
    | inl allowed ↦ inl (rw allowed refl)
    | inr denied ↦ inr (inl (rw denied refl))
  ]
  checked_is_refused (unsupported _) o = inr (inl refl)
  checked_is_refused via_service o = elim (Bool-cases (is_blank o)) [
    | inl blank ↦ inr (inl (rw blank refl))
    | inr named ↦ elim (Bool-cases (is_known r o)) [
      | inl known ↦ elim (Bool-cases (is_via o s)) [
        | inl allowed ↦ inl (rw (named, known, allowed) refl)
        | inr denied ↦ inr (inl (rw (named, known, denied) refl))
      ]
      | inr lost ↦ inr (inr (rw (named, lost) refl))
    ]
  ]

  -- For a registered target the policy decides exactly: either the target is not for administrators
  -- only and the route is permitted, and the answer is the registry's; or one of the two fails, and
  -- the answer is AuthorizationError or UnknownServiceError.
  pub IsPermitted-authorize :
      (request : RouteRequest)
      → lookup request.target_service r.services ≡ some s
      → (IsOpenTo request × (authorize r request ≡ resolve r s.id))
        ⊎ (¬ IsOpenTo request
            × ((authorize r request ≡ err authorization_error)
                ⊎ (authorize r request ≡ err unknown_service_error)))
  unfolding authorize
  IsPermitted-authorize request k = elim (Bool-cases (is_admin_only s)) [
    | inl admin ↦ inr ((λ o. absurd (ground (arith, o.0, admin))), inl (rw (k, admin) refl))
    | inr free ↦ elim (checked_is_refused request.route_type request.origin_service) [
      | inl passed ↦ inl ((free, check_route-IsPermitted _ _ passed), rw (k, free, passed) refl)
      | inr (inl denied) ↦
          inr
            ((λ o. unpassed denied (IsPermitted-check_route o.1)), inl (rw (k, free, denied) refl))
      | inr (inr lost) ↦
          inr ((λ o. unpassed lost (IsPermitted-check_route o.1)), inr (rw (k, free, lost) refl))
    ]
  ]
    where
      unpassed : {e : Error} {c : Result Error (Unit {0})} → c ≡ err e → c ≡ ok tt → ⊥
      unpassed h g = cc
