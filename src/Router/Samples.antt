-- ===== src/Router/Samples.antt =====
-- A router over a world that hands out two ids, with one connector, for the tests and the witnesses.
use ultimate_bbsbox.Prelude.{
  ◌⊎◌, String, true, false, ◌≡◌, refl, none, some, List, [], ◌∷◌, ◌++◌, ◌<>◌, elem, arith, eq_refl,
}
use ultimate_bbsbox.Prelude.Dict.{lookup, insert}
use ultimate_bbsbox.Prelude.Exec.{err, Result, ok, ◌>>=◌, try_catch, attempt, branch}
use ultimate_bbsbox.Errors.{authorization_error, unknown_service_error, Error}
use ultimate_bbsbox.Registry.Models.{normalized, is_local_host}
use ultimate_bbsbox.Registry.Queries.{
  Resolution, resolve, service, endpoint, integration, integration_of,
}
use ultimate_bbsbox.Registry.Samples.{registry, shell, tcp_endpoint}
use ultimate_bbsbox.Router.Models.{
  direct, via_service, return_to_origin_, TerminalCapabilities, RouteRequest, active, closed,
  Session,
}
use ultimate_bbsbox.Router.Policy.{authorize, check_route}
use ultimate_bbsbox.Router.Permitted.{IsOpenTo, IsPermitted-authorize}
use ultimate_bbsbox.Router.Sessions.{
  Ports, Router, Op, session_event, new_session, session_of, assign, act, generated, moved,
  change_state, added, register_as, register, validate_via, validate_origin,
}
use ultimate_bbsbox.Router.Routing.{
  reason_of, close_stream, release_if, release_hold, connector_for, connect_stream, establish,
  abandon, open_session, restore, restore_id, restore_parent, conclude, shut, close_session,
}
use ultimate_bbsbox.Router.Ended.{IsEnded}
use ultimate_bbsbox.Router.GivenBack.{close_session-given}
use ultimate_bbsbox.Router.Trace.{IsJournaled, replay_session}
use ultimate_bbsbox.Router.Calls.{
  RouterCall, open_, close_, handoff_, read_, router_calls, router_calls-IsJournaled,
}

abbrev ids_left : List String → List String
ids_left [] = []
ids_left (_ ∷ ids) = ids

abbrev next_id : List String → String
next_id [] = "last"
next_id (id ∷ _) = id

abbrev pub ports : Ports (List String)
ports = record {
  registry = registry;
  stamp_of = λ w. 100;
  id_factory = λ w. (next_id w, ids_left w);
  acquire = λ target w. (ok "hold", w);
  release = λ target hold w. (ok tt, w ++ (target <> "/" <> hold) ∷ []);
  runtime_stream_resolver = none;
  connectors = ("tcp", λ e timeout w. (ok 7, w)) ∷ [];
  connect_timeout = 10;
  stream_read = λ h size w. (ok [], w);
  stream_write = λ h data_ w. (ok 1, w);
  stream_close = λ h w. (ok tt, w);
}

abbrev terminal : TerminalCapabilities
terminal = record {
  encoding = "utf-8";
  display = "raw";
  width = 80;
  height = 24;
  baud = none;
  binary_safe = true;
  newline = "preserve";
}

abbrev pub menu_request : RouteRequest
menu_request = record {
  target_service = "mystic-main";
  route_type = direct;
  origin_service = none;
  terminal = terminal;
}

abbrev shell_request : RouteRequest
shell_request = record {
  target_service = "unix-v7-shell";
  route_type = via_service;
  origin_service = some "mystic-main";
  terminal = terminal;
}

abbrev pub router : Router (List String)
router = record { sessions = []; journal = []; world = "first" ∷ "second" ∷ [] }

abbrev evening : List RouterCall
evening =
    open_ menu_request none none
    ∷ handoff_ "first" "unix-v7-shell" return_to_origin_ none
    ∷ read_ "second" 10
    ∷ close_ "first" "caller_closed"
    ∷ []

router-IsJournaled : IsJournaled router
unfolding lookup replay_session
router-IsJournaled = record { named = λ id. refl; traced = λ id. refl }

router_calls-IsJournaled_example : IsJournaled (router_calls ports evening router)
router_calls-IsJournaled_example = router_calls-IsJournaled ports evening router router-IsJournaled

abbrev shell_resolution : Resolution
shell_resolution = record {
  service = shell;
  endpoint = normalized tcp_endpoint;
  integration = none;
}

IsPermitted-authorize_example :
    (IsOpenTo registry shell shell_request
      × (authorize registry shell_request ≡ resolve registry "unix-v7-shell"))
    ⊎ (¬ IsOpenTo registry shell shell_request
        × ((authorize registry shell_request ≡ err authorization_error)
            ⊎ (authorize registry shell_request ≡ err unknown_service_error)))
unfolding lookup
IsPermitted-authorize_example = IsPermitted-authorize registry shell shell_request refl

-- `outcome m c` is `m c`; its `unfolding` line opens the router, so that a run is computed where
-- `outcome` is unfolded.
unfoldable outcome :
    {A : Type 0} → Op (List String) A → Router (List String) → Result Error A × Router (List String)
unfolding ◌>>=◌ try_catch attempt branch lookup insert session_event new_session session_of assign
    act generated moved change_state added register_as register validate_via validate_origin
    reason_of close_stream release_if release_hold connector_for connect_stream establish abandon
    open_session restore restore_id restore_parent conclude shut close_session authorize check_route
    resolve service endpoint integration integration_of normalized is_local_host
outcome m c = m c

abbrev opened : Router (List String)
opened = (open_session ports menu_request none none router).1

abbrev first : Session
first = record {
  id = "first";
  target_service = "mystic-main";
  origin_service = none;
  route_type = direct;
  created_at = 100;
  terminal = terminal;
  state = active;
  lifecycle_session_id = some "hold";
  endpoint = some (normalized tcp_endpoint);
  termination_reason = none;
  parent_session_id = none;
  handoff_mode = none;
  return_to_origin = false;
  stream = some 7;
  hold_released = false;
}

first-opened : lookup "first" opened.sessions ≡ some first
unfolding outcome
first-opened = refl

abbrev first_closed : Session
first_closed = record first {
  state = closed;
  termination_reason = some "caller_closed";
  hold_released = true;
}

first-closes : (close_session ports "first" "caller_closed" opened).0 ≡ ok first_closed
unfolding outcome
first-closes = refl

-- The double of the supervisor keeps what it is given back.
abbrev HasBack : List String → Type 0
HasBack w = elem "mystic-main/hold" w ≡ true

elem-append_last : (x : String) (xs : List String) → elem x (xs ++ x ∷ []) ≡ true
elem-append_last x [] = ground (arith, eq_refl x)
elem-append_last x (y ∷ ys) = ground (arith, elem-append_last x ys)

close_session-given_example :
    HasBack (close_session ports "first" "caller_closed" opened).1.world
    × IsEnded "first" (close_session ports "first" "caller_closed" opened).1
close_session-given_example =
    close_session-given ports HasBack "first" "mystic-main" "hold" refl
      (λ w e. elem-append_last "mystic-main/hold" w) "caller_closed" opened first first_closed
      first-opened refl refl refl refl first-closes
