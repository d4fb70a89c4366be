-- ===== src/Router/Models.antt =====
-- `scripts/ubb_router/models.py` and `state_machine.py`: route requests and sessions. The caller's
-- metadata and the terminal's extensions, which nothing reads, are left out.
use ultimate_bbsbox.Prelude.{ℕ, String, Bool, true, false, Option, none, some, ◌==◌}
use ultimate_bbsbox.Registry.Models.{Normalized}

pub data RouteType : Type 0 where
  direct via_service : RouteType
  -- any other value, which the request does not refuse
  unsupported : String → RouteType

pub data HandoffMode : Type 0 where
  replace return_to_origin_ : HandoffMode

abbrev pub returns_to_origin : Option HandoffMode → Bool
returns_to_origin (some return_to_origin_) = true
returns_to_origin _ = false

pub record TerminalCapabilities : Type 0 where
  pub encoding : String
  pub display : String
  pub width : ℕ
  pub height : ℕ
  pub baud : Option ℕ
  pub binary_safe : Bool
  pub newline : String

pub record RouteRequest : Type 0 where
  pub target_service : String
  pub route_type : RouteType
  pub origin_service : Option String
  pub terminal : TerminalCapabilities

pub data SessionState : Type 0 where
  created authorizing acquiring connecting active handing_off closing closed failed : SessionState

-- `new in TRANSITIONS[old]`
abbrev pub may_follow : SessionState → SessionState → Bool
may_follow created authorizing = true
may_follow created failed = true
may_follow authorizing acquiring = true
may_follow authorizing failed = true
may_follow acquiring connecting = true
may_follow acquiring failed = true
may_follow connecting active = true
may_follow connecting failed = true
may_follow active handing_off = true
may_follow active closing = true
may_follow active failed = true
may_follow handing_off active = true
may_follow handing_off closing = true
may_follow handing_off failed = true
may_follow closing closed = true
may_follow closing failed = true
may_follow failed closing = true
may_follow failed closed = true
may_follow _ _ = false

abbrev pub is_in_use : SessionState → Bool
is_in_use active = true
is_in_use _ = false

abbrev pub is_handing_off : SessionState → Bool
is_handing_off handing_off = true
is_handing_off _ = false

-- `state in (CLOSED, CLOSING)`
abbrev pub is_closing : SessionState → Bool
is_closing closing = true
is_closing closed = true
is_closing _ = false

abbrev pub has_failed : SessionState → Bool
has_failed failed = true
has_failed _ = false

pub record Session : Type 0 where
  pub id : String
  pub target_service : String
  pub origin_service : Option String
  pub route_type : RouteType
  pub created_at : ℕ
  pub terminal : TerminalCapabilities
  pub state : SessionState
  pub lifecycle_session_id : Option String
  pub endpoint : Option Normalized
  pub termination_reason : Option String
  pub parent_session_id : Option String
  pub handoff_mode : Option HandoffMode
  pub return_to_origin : Bool
  -- the connected stream, by the name that the connector gave it
  pub stream : Option ℕ
  pub hold_released : Bool

-- `not text`, where the text may be None
abbrev pub is_blank : Option String → Bool
is_blank none = true
is_blank (some text) = text == ""
