-- ===== src/Router/Policy.antt =====
-- `scripts/ubb_router/policy.py`: which routes the exposure of a service permits.
use ultimate_bbsbox.Prelude.{
  String, Bool, true, false, not, ◌&&◌, Option, none, some, get_or, List, [], ◌∷◌, elem, is_some,
  if◌then◌else◌,
}
use ultimate_bbsbox.Prelude.Dict.{Dict, lookup, contains}
use ultimate_bbsbox.Prelude.Exec.{Result, ok, err}
use ultimate_bbsbox.Errors.{Error, authorization_error, unknown_service_error}
use ultimate_bbsbox.Registry.Models.{Service}
use ultimate_bbsbox.Registry.Queries.{Registry, Resolution, resolve}
use ultimate_bbsbox.Router.Models.{
  RouteType, direct, via_service, unsupported, RouteRequest, is_blank,
}

abbrev pub is_admin_only : Service → Bool
is_admin_only s = get_or s.exposure.admin_only false

-- `exposure["main_menu"] and access.get("direct_allowed", True)`
abbrev pub is_direct : Service → Bool
is_direct s = s.exposure.main_menu && get_or s.direct_allowed true

abbrev pub is_via : Option String → Service → Bool
is_via none s = false
is_via (some origin) s = elem origin (get_or s.exposure.via_bbs [])

abbrev pub is_known : Registry → Option String → Bool
is_known r none = false
is_known r (some origin) = contains origin r.services

unfoldable pub direct_from : Dict Service → List Service
direct_from [] = []
direct_from ((_, s) ∷ d) =
    let rest = direct_from d in if is_direct s && not (is_admin_only s) then s ∷ rest else rest

unfoldable pub list_direct_services : Registry → List Service
list_direct_services r = direct_from r.services

-- The checks of `authorize` on the route, by its type.
unfoldable pub check_route :
    Registry → RouteType → Option String → Service → Result Error (Unit {0})
check_route r direct origin s =
    if is_some origin
    then err authorization_error
    else (if is_direct s then ok tt else err authorization_error)
check_route r via_service origin s =
    if is_blank origin
    then err authorization_error
    else (if is_known r origin
        then (if is_via origin s then ok tt else err authorization_error)
        else err unknown_service_error)
check_route r (unsupported _) origin s = err authorization_error

abbrev pub resolved : Registry → Service → Result Error (Unit {0}) → Result Error Resolution
resolved r s (ok _) = resolve r s.id
resolved r s (err e) = err e

abbrev authorize_service : Registry → RouteRequest → Option Service → Result Error Resolution
authorize_service r request none = err unknown_service_error
authorize_service r request (some s) =
    if is_admin_only s
    then err authorization_error
    else resolved r s (check_route r request.route_type request.origin_service s)

unfoldable pub authorize : Registry → RouteRequest → Result Error Resolution
authorize r request = authorize_service r request (lookup request.target_service r.services)
