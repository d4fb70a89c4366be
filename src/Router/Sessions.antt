-- ===== src/Router/Sessions.antt =====
-- `scripts/ubb_router/router.py`: the router's sessions and journal, and the small methods on them.
-- The supervisor, the connectors and the streams are operations on a world, which may raise.
use ultimate_bbsbox.Prelude.{
  ℕ, String, Bool, true, false, not, ◌||◌, Option, none, some, List, [], ◌∷◌, ◌++◌, ◌==◌,
  if◌then◌else◌,
}
use ultimate_bbsbox.Prelude.Dict.{Dict, lookup, insert, contains}
use ultimate_bbsbox.Prelude.Exec.{
  Result, ok, err, Exec, raise, pure, modify, skip, raise_if, ◌>>=◌, ◌>>◌,
}
use ultimate_bbsbox.Errors.{
  Error, session_not_found, session_busy, duplicate_session, invalid_session_transition,
}
use ultimate_bbsbox.Registry.Models.{Normalized}
use ultimate_bbsbox.Registry.Queries.{Registry}
use ultimate_bbsbox.Router.Models.{
  RouteType, direct, via_service, unsupported, HandoffMode, RouteRequest, SessionState, created,
  may_follow, is_in_use, is_handing_off, returns_to_origin, Session,
}

-- an operation of the world: it may raise, and it leaves another world
abbrev pub Act : Type 0 → Type 0 → Type 0
Act W A = W → Result Error A × W

pub record Ports (W : Type 0) : Type 0 where
  pub registry : Registry
  pub stamp_of : W → ℕ
  pub id_factory : W → String × W
  -- the supervisor
  pub acquire : String → Act W String
  pub release : String → String → Act W (Unit {0})
  -- how an endpoint becomes a stream
  pub runtime_stream_resolver : Option (String → Act W (Option ℕ))
  pub connectors : Dict (Normalized → ℕ → Act W ℕ)
  pub connect_timeout : ℕ
  -- the streams
  pub stream_read : ℕ → ℕ → Act W (List ℕ)
  pub stream_write : ℕ → List ℕ → Act W ℕ
  pub stream_close : ℕ → Act W (Unit {0})

pub record SessionEvent : Type 0 where
  pub stamped : ℕ
  pub session_id : String
  pub target_service : String
  pub origin_service : Option String
  pub event_type : String
  pub old_state : Option SessionState
  pub new_state : SessionState
  pub endpoint_id : Option String
  pub termination_reason : Option String
  pub error : Option Error

pub record Router (W : Type 0) : Type 0 where
  pub sessions : Dict Session
  pub journal : List SessionEvent
  pub world : W

abbrev pub Op : Type 0 → Type 0 → Type 0
Op W = Exec (Router W) Error

abbrev endpoint_id_of : Option Normalized → Option String
endpoint_id_of none = none
endpoint_id_of (some e) = some e.id

-- The line that `_event` appends to the journal.
unfoldable pub session_event :
    ℕ
    → Session
    → String
    → Option SessionState
    → SessionState
    → Option String
    → Option Error
    → SessionEvent
session_event time s kind old new reason error = record {
  stamped = time;
  session_id = s.id;
  target_service = s.target_service;
  origin_service = s.origin_service;
  event_type = kind;
  old_state = old;
  new_state = new;
  endpoint_id = endpoint_id_of s.endpoint;
  termination_reason = reason;
  error = error;
}

unfoldable pub new_session :
    String → RouteRequest → ℕ → Option String → Option HandoffMode → Session
new_session id request time parent mode = record {
  id = id;
  target_service = request.target_service;
  origin_service = request.origin_service;
  route_type = request.route_type;
  created_at = time;
  terminal = request.terminal;
  state = created;
  lifecycle_session_id = none;
  endpoint = none;
  termination_reason = none;
  parent_session_id = parent;
  handoff_mode = mode;
  return_to_origin = returns_to_origin mode;
  stream = none;
  hold_released = false;
}

abbrev pub changed : (Session → Session) → Option Session → String → Dict Session → Dict Session
changed f none id d = d
changed f (some s) id d = insert id (f s) d

abbrev is_same : Option String → String → Bool
is_same none target = false
is_same (some origin) target = target == origin

module _ {W : Type 0} where
  abbrev pub or_missing : Option Session → Op W Session
  or_missing (some s) c = (ok s, c)
  or_missing none c = (err session_not_found, c)

  -- `_session`
  unfoldable pub session_of : String → Op W Session
  session_of id c = or_missing (lookup id c.sessions) c

  -- Assignments to fields of a session, which every holder of its reference sees.
  unfoldable pub assign : String → (Session → Session) → Op W (Unit {0})
  assign id f = modify (λ c. record c { sessions = changed f (lookup id c.sessions) id c.sessions })

  -- A call into the world.
  unfoldable pub act : {A : Type 0} → Act W A → Op W A
  act call c = let (r, w) = call c.world in (r, record c { world = w })

  unfoldable pub generated : (W → String × W) → Op W String
  generated id_factory c = let (id, w) = id_factory c.world in (ok id, record c { world = w })

  module _ (ports : Ports W) where
    unfoldable pub moved :
        String
        → SessionState
        → String
        → Option String
        → Option Error
        → Session
        → Router W
        → Router W
    moved id new kind reason error s c =
        let s' = record s { state = new } in
        record c {
          sessions = insert id s' c.sessions;
          journal =
              c.journal
              ++ session_event (ports.stamp_of c.world) s' kind (some s.state) new reason error
                ∷ [];
        }

    abbrev pub moved_if :
        Bool
        → String
        → SessionState
        → String
        → Option String
        → Option Error
        → Session
        → Op W (Unit {0})
    moved_if true id new kind reason error s c = (ok tt, moved id new kind reason error s c)
    moved_if false id new kind reason error s c = (err invalid_session_transition, c)

    -- `_transition`: validate, change the state, journal the event.
    unfoldable pub change_state :
        String → SessionState → String → Option String → Option Error → Op W (Unit {0})
    change_state id new kind reason error c = elim (lookup id c.sessions) [
      | some s ↦ moved_if (may_follow s.state new) id new kind reason error s c
      | none ↦ (err session_not_found, c)
    ]

    unfoldable pub added : String → Session → Router W → Router W
    added id s c = record c {
      sessions = insert id s c.sessions;
      journal =
          c.journal
          ++ session_event (ports.stamp_of c.world) s "created" none created none none ∷ [];
    }

    -- `_register` from the moment that the id is known
    unfoldable pub register_as :
        String → RouteRequest → Option String → Option HandoffMode → Op W (Unit {0})
    register_as id request parent mode c =
        if contains id c.sessions
        then (err duplicate_session, c)
        else (ok tt, added id (new_session id request (ports.stamp_of c.world) parent mode) c)

    unfoldable pub register : RouteRequest → Option String → Option HandoffMode → Op W String
    register request parent mode = do
      id ← generated ports.id_factory
      register_as id request parent mode
      pure id

  -- `_validate_origin` on a route via a service
  unfoldable pub validate_via : Option String → Option String → Op W (Unit {0})
  validate_via origin none = raise session_busy
  validate_via origin (some id) = do
    raise_if (id == "") session_busy
    s ← session_of id
    raise_if (not (is_in_use s.state || is_handing_off s.state)) session_busy
    raise_if (not (is_same origin s.target_service)) session_busy

  unfoldable pub validate_origin : RouteType → Option String → Option String → Op W (Unit {0})
  validate_origin direct origin parent = skip
  validate_origin via_service origin parent = validate_via origin parent
  validate_origin (unsupported _) origin parent = skip
