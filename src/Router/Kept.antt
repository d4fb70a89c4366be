-- ===== src/Router/Kept.antt =====
-- Each method of `scripts/ubb_router/router.py` keeps the journal in step with the sessions.
use ultimate_bbsbox.Prelude.{ℕ, String, Bool, refl, Option, none, some, List}
use ultimate_bbsbox.Prelude.Dict.{lookup}
use ultimate_bbsbox.Prelude.Exec.{Keeps, Keeps-bind, Keeps-when, keeps_rules}
use ultimate_bbsbox.Errors.{Error}
use ultimate_bbsbox.Registry.Models.{Normalized}
use ultimate_bbsbox.Router.Models.{
  RouteType, direct, via_service, unsupported, HandoffMode, TerminalCapabilities, RouteRequest,
  Session,
}
use ultimate_bbsbox.Router.Sessions.{
  Act, Ports, Router, session_of, or_missing, assign, register, validate_origin, validate_via,
}
use ultimate_bbsbox.Router.Routing.{
  close_stream, release_if, release_hold, connector_for, connect_stream, establish, abandon,
  open_session, restore, restore_id, restore_parent, conclude, shut, close_session, begin_handoff,
  handoff_failed, handoff, on_stream, transport_failed, stream_of, read, write,
}
use ultimate_bbsbox.Router.Trace.{
  IsJournaled, assign-IsJournaled, act-IsJournaled, generated-IsJournaled, change_state-IsJournaled,
  register_as-IsJournaled,
}

module _ {W : Type 0} (ports : Ports W) where
  session_of-IsJournaled : (id : String) → Keeps IsJournaled (session_of {W = W} id)
  unfolding session_of
  session_of-IsJournaled id = record { at = λ c h. found c (lookup id c.sessions) h }
    where
      found : (c : Router W) (o : Option Session) → IsJournaled c → IsJournaled (or_missing o c).1
      found c none h = h
      found c (some s) h = h

  ruleset session_rules = (
    keeps_rules, session_of-IsJournaled, act-IsJournaled, generated-IsJournaled,
    change_state-IsJournaled, register_as-IsJournaled,
  )

  register-IsJournaled :
      (request : RouteRequest) (parent : Option String) (mode : Option HandoffMode)
      → Keeps IsJournaled (register ports request parent mode)
  unfolding register
  register-IsJournaled request parent mode = search session_rules depth 12

  validate_origin-IsJournaled :
      (t : RouteType) (origin parent : Option String)
      → Keeps IsJournaled (validate_origin {W = W} t origin parent)
  unfolding validate_origin validate_via
  validate_origin-IsJournaled direct origin parent = search session_rules
  validate_origin-IsJournaled (unsupported _) origin parent = search session_rules
  validate_origin-IsJournaled via_service origin none = search session_rules
  validate_origin-IsJournaled via_service origin (some id) = search session_rules depth 12

  close_stream-IsJournaled : (stream : Option ℕ) → Keeps IsJournaled (close_stream ports stream)
  unfolding close_stream
  close_stream-IsJournaled none = search session_rules
  close_stream-IsJournaled (some h) = search session_rules

  release_if-IsJournaled :
      (id : String) (done : Bool) (hold : Option String) (target : String)
      → Keeps IsJournaled (release_if ports id done hold target)
  unfolding release_if
  release_if-IsJournaled id done none target = search session_rules
  release_if-IsJournaled id done (some hold) target =
      Keeps-when _ _
        (Keeps-bind _ _ (act-IsJournaled _) λ _. assign-IsJournaled id _ (λ s. refl) (λ s. refl))

  release_hold-IsJournaled : (id : String) → Keeps IsJournaled (release_hold ports id)
  unfolding release_hold
  release_hold-IsJournaled id = search (session_rules, release_if-IsJournaled)

  connector_for-IsJournaled :
      (connect : Option (Normalized → ℕ → Act W ℕ)) (endpoint : Normalized)
      → Keeps IsJournaled (connector_for ports connect endpoint)
  unfolding connector_for
  connector_for-IsJournaled none endpoint = search session_rules
  connector_for-IsJournaled (some connect) endpoint = search session_rules

  connect_stream-IsJournaled :
      (resolver : Option (String → Act W (Option ℕ))) (target : String) (endpoint : Normalized)
      → Keeps IsJournaled (connect_stream ports resolver target endpoint)
  unfolding connect_stream
  connect_stream-IsJournaled (some resolver) target endpoint = search session_rules
  connect_stream-IsJournaled none target endpoint = connector_for-IsJournaled _ endpoint

  endpoint-IsJournaled :
      (id : String) (e : Option Normalized)
      → Keeps IsJournaled (assign {W = W} id (λ s. record s { endpoint = e }))
  endpoint-IsJournaled id e = assign-IsJournaled id _ (λ s. refl) (λ s. refl)

  hold-IsJournaled :
      (id : String) (hold : Option String)
      → Keeps IsJournaled (assign {W = W} id (λ s. record s { lifecycle_session_id = hold }))
  hold-IsJournaled id hold = assign-IsJournaled id _ (λ s. refl) (λ s. refl)

  stream-IsJournaled :
      (id : String) (stream : Option ℕ)
      → Keeps IsJournaled (assign {W = W} id (λ s. record s { stream = stream }))
  stream-IsJournaled id stream = assign-IsJournaled id _ (λ s. refl) (λ s. refl)

  reason-IsJournaled :
      (id : String) (reason : Option String)
      → Keeps IsJournaled (assign {W = W} id (λ s. record s { termination_reason = reason }))
  reason-IsJournaled id reason = assign-IsJournaled id _ (λ s. refl) (λ s. refl)

  ruleset routing_rules = (
    session_rules, register-IsJournaled, validate_origin-IsJournaled, close_stream-IsJournaled,
    release_hold-IsJournaled, connect_stream-IsJournaled, endpoint-IsJournaled, hold-IsJournaled,
    stream-IsJournaled, reason-IsJournaled,
  )

  establish-IsJournaled :
      (id : String) (request : RouteRequest) (parent : Option String)
      → Keeps IsJournaled (establish ports id request parent)
  unfolding establish
  establish-IsJournaled id request parent = search routing_rules depth 40

  abandon-IsJournaled : (id : String) (error : Error) → Keeps IsJournaled (abandon ports id error)
  unfolding abandon
  abandon-IsJournaled id error = search routing_rules depth 40

  pub open_session-IsJournaled :
      (request : RouteRequest) (parent : Option String) (mode : Option HandoffMode)
      → Keeps IsJournaled (open_session ports request parent mode)
  unfolding open_session
  open_session-IsJournaled request parent mode =
      search (routing_rules, establish-IsJournaled, abandon-IsJournaled) depth 20

  restore-IsJournaled :
      (id : String) (found : Option Session) → Keeps IsJournaled (restore ports id found)
  unfolding restore
  restore-IsJournaled id none = search session_rules
  restore-IsJournaled id (some parent) = search session_rules

  restore_id-IsJournaled : (id : Option String) → Keeps IsJournaled (restore_id ports id)
  unfolding restore_id
  restore_id-IsJournaled none = search session_rules
  restore_id-IsJournaled (some parent) = search (session_rules, restore-IsJournaled) depth 8

  restore_parent-IsJournaled : (child : Session) → Keeps IsJournaled (restore_parent ports child)
  unfolding restore_parent
  restore_parent-IsJournaled child = search (session_rules, restore_id-IsJournaled)

  conclude-IsJournaled :
      (id reason : String) (error : Option Error)
      → Keeps IsJournaled (conclude ports id reason error)
  unfolding conclude
  conclude-IsJournaled id reason none = search session_rules
  conclude-IsJournaled id reason (some e) = search session_rules

  shut-IsJournaled : (id reason : String) → Keeps IsJournaled (shut ports id reason)
  unfolding shut
  shut-IsJournaled id reason = search (routing_rules, conclude-IsJournaled) depth 20

  pub close_session-IsJournaled :
      (id reason : String) → Keeps IsJournaled (close_session ports id reason)
  unfolding close_session
  close_session-IsJournaled id reason =
      search (routing_rules, shut-IsJournaled, restore_parent-IsJournaled) depth 20

  begin_handoff-IsJournaled : (id : String) → Keeps IsJournaled (begin_handoff ports id)
  unfolding begin_handoff
  begin_handoff-IsJournaled id = search session_rules depth 12

  handoff_failed-IsJournaled :
      (id : String) (error : Error) → Keeps IsJournaled (handoff_failed ports id error)
  unfolding handoff_failed
  handoff_failed-IsJournaled id error = search session_rules depth 12

  pub handoff-IsJournaled :
      (id target : String) (mode : HandoffMode) (terminal : Option TerminalCapabilities)
      → Keeps IsJournaled (handoff ports id target mode terminal)
  unfolding handoff
  handoff-IsJournaled id target mode terminal =
      search
        (
          session_rules, open_session-IsJournaled, close_session-IsJournaled,
          begin_handoff-IsJournaled, handoff_failed-IsJournaled,
        )
        depth 20

  on_stream-IsJournaled :
      {A : Type 0} (stream : Option ℕ) (method : ℕ → Act W A)
      → Keeps IsJournaled (on_stream ports stream method)
  unfolding on_stream
  on_stream-IsJournaled none method = search session_rules
  on_stream-IsJournaled (some h) method = search session_rules

  transport_failed-IsJournaled :
      {A : Type 0} (id : String) (error : Error)
      → Keeps IsJournaled (transport_failed ports {A = A} id error)
  unfolding transport_failed
  transport_failed-IsJournaled id error = search (session_rules, close_session-IsJournaled) depth 8

  stream_of-IsJournaled : (id : String) → Keeps IsJournaled (stream_of ports id)
  unfolding stream_of
  stream_of-IsJournaled id = search session_rules depth 8

  ruleset stream_rules = (
    session_rules, close_session-IsJournaled, on_stream-IsJournaled, transport_failed-IsJournaled,
    stream_of-IsJournaled,
  )

  pub read-IsJournaled : (id : String) (size : ℕ) → Keeps IsJournaled (read ports id size)
  unfolding read
  read-IsJournaled id size = search stream_rules depth 12

  pub write-IsJournaled : (id : String) (data_ : List ℕ) → Keeps IsJournaled (write ports id data_)
  unfolding write
  write-IsJournaled id data_ = search stream_rules depth 12
