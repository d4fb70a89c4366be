-- ===== src/Router/Routing.antt =====
-- `scripts/ubb_router/router.py`: opening and closing sessions, handing them off, and their streams.
use ultimate_bbsbox.Prelude.{
  ℕ, String, Bool, true, false, not, ◌&&◌, Option, none, some, get_or, List, [], ◌∷◌, elem, ◌==◌,
  if◌then◌else◌,
}
use ultimate_bbsbox.Prelude.Dict.{lookup}
use ultimate_bbsbox.Prelude.Exec.{
  Result, ok, err, raise, pure, gets, skip, lift, when, raise_if, branch, attempt, try_catch, ◌>>=◌,
  ◌>>◌,
}
use ultimate_bbsbox.Errors.{
  Error, session_busy, cleanup_failed, unsupported_transport, transport_error, os_error,
  attribute_error,
}
use ultimate_bbsbox.Registry.Models.{Normalized}
use ultimate_bbsbox.Router.Models.{
  via_service, HandoffMode, replace, return_to_origin_, TerminalCapabilities, RouteRequest,
  authorizing, acquiring, connecting, active, handing_off, closing, closed, failed, is_in_use,
  is_handing_off, is_closing, has_failed, Session,
}
use ultimate_bbsbox.Router.Policy.{authorize}
use ultimate_bbsbox.Router.Sessions.{
  Act, Ports, Op, session_of, assign, act, change_state, register, validate_origin,
}

abbrev pub termination_reasons : List String
termination_reasons =
    "caller_closed" ∷ "endpoint_eof" ∷ "transport_error" ∷ "handoff_replaced" ∷ "parent_closed"
    ∷ "open_failed" ∷ "shutdown" ∷ []

unfoldable pub reason_of : String → String
reason_of reason = if elem reason termination_reasons then reason else "other"

abbrev is_replace : HandoffMode → Bool
is_replace replace = true
is_replace return_to_origin_ = false

unfoldable pub is_os_error : Error → Bool
is_os_error os_error = true
is_os_error _ = false

abbrev is_nonempty : List ℕ → Bool
is_nonempty [] = false
is_nonempty (_ ∷ _) = true

-- `close_error or exc`
abbrev pub first_error : Result Error (Unit {0}) → Result Error (Unit {0}) → Option Error
first_error (err e) _ = some e
first_error (ok _) (err e) = some e
first_error (ok _) (ok _) = none

-- The request that a handoff makes for its target.
unfoldable pub handoff_request : String → Session → Option TerminalCapabilities → RouteRequest
handoff_request target parent terminal = record {
  target_service = target;
  route_type = via_service;
  origin_service = some parent.target_service;
  terminal = get_or terminal parent.terminal;
}

module _ {W : Type 0} (ports : Ports W) where
  -- `if session.stream is not None: session.stream.close()`
  unfoldable pub close_stream : Option ℕ → Op W (Unit {0})
  close_stream none = skip
  close_stream (some h) = act (ports.stream_close h)

  unfoldable pub release_if : String → Bool → Option String → String → Op W (Unit {0})
  release_if id done none target = skip
  release_if id done (some hold) target =
      when (not (hold == "") && not done)
        do act (ports.release target hold); assign id (λ s. record s { hold_released = true })

  -- `_release_hold`
  unfoldable pub release_hold : String → Op W (Unit {0})
  release_hold id = do
    s ← session_of id
    release_if id s.hold_released s.lifecycle_session_id s.target_service

  unfoldable pub connector_for : Option (Normalized → ℕ → Act W ℕ) → Normalized → Op W (Option ℕ)
  connector_for none endpoint = raise (unsupported_transport endpoint.kind)
  connector_for (some connect) endpoint = do
    h ← act (connect endpoint (get_or endpoint.connect_timeout ports.connect_timeout))
    pure (some h)

  -- the stream, from the resolver if there is one, or from the endpoint's connector
  unfoldable pub connect_stream :
      Option (String → Act W (Option ℕ)) → String → Normalized → Op W (Option ℕ)
  connect_stream (some resolver) target endpoint = act (resolver target)
  connect_stream none target endpoint =
      connector_for (lookup endpoint.kind ports.connectors) endpoint

  -- the body of the `try` in `open_session`
  unfoldable pub establish : String → RouteRequest → Option String → Op W (Unit {0})
  establish id request parent = do
    change_state ports id authorizing "authorizing" none none
    validate_origin request.route_type request.origin_service parent
    resolution ← lift (authorize ports.registry request)
    assign id (λ s. record s { endpoint = some resolution.endpoint })
    change_state ports id acquiring "authorized" none none
    hold ← act (ports.acquire request.target_service)
    assign id (λ s. record s { lifecycle_session_id = some hold })
    change_state ports id connecting "lifecycle_acquired" none none
    stream ← connect_stream ports.runtime_stream_resolver request.target_service resolution.endpoint
    assign id (λ s. record s { stream = stream })
    change_state ports id active "connected" none none

  -- the `except` of `open_session`
  unfoldable pub abandon : String → Error → Op W (Unit {0})
  abandon id error = do
    s ← session_of id
    _ ← attempt (close_stream s.stream)
    release_hold id
    after ← session_of id
    when (not (has_failed after.state))
        (change_state ports id failed "open_failed" (some "open_failed") (some error))
    assign id (λ s. record s { termination_reason = some "open_failed" })
    raise error

  unfoldable pub open_session : RouteRequest → Option String → Option HandoffMode → Op W String
  open_session request parent mode = do
    id ← register ports request parent mode
    try_catch (establish id request parent) (abandon id)
    pure id

  unfoldable pub restore : String → Option Session → Op W (Unit {0})
  restore id none = skip
  restore id (some parent) =
      when (is_handing_off parent.state) (change_state ports id active "handoff_returned" none none)

  unfoldable pub restore_id : Option String → Op W (Unit {0})
  restore_id none = skip
  restore_id (some parent) =
      when (not (parent == ""))
        do found ← gets (λ c. lookup parent c.sessions); restore parent found

  -- `_restore_parent`
  unfoldable pub restore_parent : Session → Op W (Unit {0})
  restore_parent child = when child.return_to_origin (restore_id child.parent_session_id)

  unfoldable pub conclude : String → String → Option Error → Op W (Unit {0})
  conclude id reason (some error) = do
    change_state ports id failed "close_failed" (some reason) (some error)
    raise cleanup_failed
  conclude id reason none = change_state ports id closed "closed" (some reason) none

  -- `close_session` from the CLOSING of the session on
  unfoldable pub shut : String → String → Op W (Unit {0})
  shut id reason = do
    change_state ports id closing "closing" (some reason) none
    s ← session_of id
    stream_closed ← attempt (close_stream s.stream)
    released ← attempt (release_hold id)
    assign id (λ s. record s { termination_reason = some reason })
    conclude id reason (first_error stream_closed released)

  unfoldable pub close_session : String → String → Op W Session
  close_session id reason = do
    s ← session_of id
    when (not (is_closing s.state))
        do shut id (reason_of reason); child ← session_of id; restore_parent child
    session_of id

  unfoldable pub begin_handoff : String → Op W Session
  begin_handoff parent_id = do
    parent ← session_of parent_id
    raise_if (not (is_in_use parent.state)) session_busy
    change_state ports parent_id handing_off "handoff_started" none none
    pure parent

  -- the `except` of `handoff`
  unfoldable pub handoff_failed : String → Error → Op W String
  handoff_failed parent_id error = do
    parent ← session_of parent_id
    when (is_handing_off parent.state)
        (change_state ports parent_id active "handoff_failed" none none)
    raise error

  unfoldable pub handoff : String → String → HandoffMode → Option TerminalCapabilities → Op W String
  handoff parent_id target mode terminal = do
    parent ← begin_handoff parent_id
    let request = handoff_request target parent terminal
    child ← try_catch (open_session request (some parent_id) (some mode)) (handoff_failed parent_id)
    when (is_replace mode) do _ ← close_session parent_id "handoff_replaced"; skip
    pure child

  -- A method of the session's stream, called on None where there is none.
  unfoldable pub on_stream : {A : Type 0} → Option ℕ → (ℕ → Act W A) → Op W A
  on_stream none call = raise attribute_error
  on_stream (some h) call = act (call h)

  -- `except OSError`
  unfoldable pub transport_failed : {A : Type 0} → String → Error → Op W A
  transport_failed id error =
      branch (is_os_error error) (do close_session id "transport_error"; raise transport_error)
        (raise error)

  -- the stream of an active session
  unfoldable pub stream_of : String → Op W (Option ℕ)
  stream_of id = do
    s ← session_of id
    raise_if (not (is_in_use s.state)) session_busy
    pure s.stream

  -- The stream is read and written without the session's lock.
  unfoldable pub read : String → ℕ → Op W (List ℕ)
  read id size = do
    stream ← stream_of id
    data_ ← try_catch (on_stream stream (λ h. ports.stream_read h size)) (transport_failed id)
    when (not (is_nonempty data_)) do _ ← close_session id "endpoint_eof"; skip
    pure data_

  unfoldable pub write : String → List ℕ → Op W ℕ
  write id data_ = do
    stream ← stream_of id
    try_catch (on_stream stream (λ h. ports.stream_write h data_)) (transport_failed id)
