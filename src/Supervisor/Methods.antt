-- ===== src/Supervisor/Methods.antt =====
-- The public methods of `Supervisor` on one service, under its lock: sessions, starting and
-- stopping, failures reported from outside, and reconciliation with what really runs.
use ultimate_bbsbox.Prelude.{
  ℕ, String, Bool, true, false, not, ◌&&◌, ◌||◌, none, [], leb, ◌==◌, if◌then◌else◌,
}
use ultimate_bbsbox.Prelude.Dict.{insert, erase, contains}
use ultimate_bbsbox.Prelude.Exec.{
  pure, raise, gets, skip, when, raise_if, branch, try_catch, ◌>>=◌, ◌>>◌,
}
use ultimate_bbsbox.Errors.{driver_error, service_busy, unknown_session}
use ultimate_bbsbox.Registry.Models.{Mode, Sharing, single_session, multiuser, Service}
use ultimate_bbsbox.Registry.Queries.{is_empty}
use ultimate_bbsbox.Supervisor.Lifecycle.{
  LifecycleState, stopped, starting, ready, running, maintenance, stopping, failed, is_failed,
  is_stopped,
}
use ultimate_bbsbox.Supervisor.Instance.{Instance, active_holds, hold_count}
use ultimate_bbsbox.Supervisor.Cell.{
  Env, Op, update, persist, drive, now, transition, declaration, driver, lifecycle, add_hold,
  remove_hold,
}
use ultimate_bbsbox.Supervisor.Run.{
  state_of, mark_failed, restart_after_failure, ensure, stop_locked, schedule_idle, is_on_demand,
  passed,
}

-- An administrator's start forgets the restarts of a failed service.
unfoldable pub admin_start : Instance → Instance
admin_start i =
    let i' = record i { admin_intent = true } in
    if is_failed i.state then record i' { restart_exhausted = false; restart_times = [] } else i'

unfoldable pub admin_stop : Instance → Instance
admin_stop i = record i { admin_intent = false; holds = erase "admin" i.holds }

unfoldable pub let_go : Instance → Instance
let_go i = record i { holds = []; sessions = [] }

unfoldable pub is_single : Sharing → Bool
is_single single_session = true
is_single multiuser = false

unfoldable pub session_opened : String → ℕ → Instance → Instance
session_opened id time i = record i { sessions = insert id time i.sessions }

unfoldable pub session_dropped : String → Instance → Instance
session_dropped id i = record i { sessions = erase id i.sessions }

-- The first lines of `_reconcile_locked`, up to the driver's answer.
unfoldable pub standing_holds : Mode → Instance → Instance
standing_holds mode i =
    let h = if is_on_demand mode then erase "always_on" i.holds else insert "always_on" 1 i.holds in
    record i { holds = if i.admin_intent then insert "admin" 1 h else h }

module _ {W : Type 0} where
  -- `instance.sessions[session_id] = ...; self._add_hold(instance, "sessions")`
  unfoldable pub open_hold : String → ℕ → Op W (Unit {0})
  open_hold id time = do update (session_opened id time); add_hold "sessions"

  -- `instance.sessions.pop(session_id, None); self._remove_hold(instance, "sessions")`
  unfoldable pub close_hold : String → Op W (Unit {0})
  close_hold id = do update (session_dropped id); remove_hold "sessions"

  unfoldable pub fresh_id : Env W → Op W String
  fresh_id env c = let (id, world) = env.new_id c.world in (pure id (record c { world = world }))

  module _ (env : Env W) (s : Service) where
    unfoldable pub start : String → Op W (Unit {0})
    start reason = do
      branch (reason == "admin")
          (do
            update admin_start
            i ← gets (λ c. c.instance_)
            when (leb (hold_count "admin" i.holds) 0) (add_hold "admin"))
          (do
            i ← gets (λ c. c.instance_)
            when (leb (hold_count reason i.holds) 0) (add_hold reason))
      ensure env s reason

    unfoldable pub stop : Bool → String → Op W (Unit {0})
    stop force reason = do
      when (reason == "admin") (update admin_stop)
      when force (update let_go)
      i ← gets (λ c. c.instance_)
      raise_if (not (leb (active_holds i) 0) && not force) service_busy
      stop_locked env s reason

    -- `acquire_session` from the moment that the session has its name.
    unfoldable pub occupy : String → ℕ → Op W String
    occupy id time = do
      open_hold id time
      try_catch (ensure env s "session") λ error. do close_hold id; raise error
      pure id

    unfoldable pub acquire_session : Op W String
    acquire_session = do
      life ← lifecycle s
      i ← gets (λ c. c.instance_)
      raise_if (is_single life.sharing && not (is_empty i.sessions)) service_busy
      id ← fresh_id env
      time ← now env
      occupy id time

    unfoldable pub release_session : String → Op W (Unit {0})
    release_session id = do
      i ← gets (λ c. c.instance_)
      raise_if (not (contains id i.sessions)) unknown_session
      close_hold id
      schedule_idle env s

    unfoldable pub notify_failure : String → Op W (Unit {0})
    notify_failure error = do
      mark_failed env s (driver_error error) "runtime_failure"
      restart_after_failure env s (ensure env s)

    unfoldable pub adopt : Op W (Unit {0})
    adopt = do
      transition env starting "reconcile_adopt" none
      transition env ready "reconcile_adopt" none
      transition env running "reconcile_adopt" none

    unfoldable pub reset : Op W (Unit {0})
    reset = do
      mark_failed env s (driver_error "stale transient state with no live runtime")
          "reconcile_stale"
      transition env stopped "reconcile_reset" none

    unfoldable pub lost_runtime : Op W (Unit {0})
    lost_runtime = do
      mark_failed env s (driver_error "runtime is not alive") "reconcile_failure"
      i ← gets (λ c. c.instance_)
      branch (leb (active_holds i) 0) (transition env stopped "reconcile_no_holds" none)
          (restart_after_failure env s (ensure env s))

    -- The `if`/`elif` chain on the state that was found, by state and by what the driver says.
    unfoldable pub settle : LifecycleState → Bool → Op W (Unit {0})
    settle stopping true = transition env failed "reconcile_stale" none
    settle stopping false = transition env stopped "reconcile_stale" none
    settle starting true = do
      transition env ready "reconcile_adopt" none
      transition env running "reconcile_adopt" none
    settle ready true = transition env running "reconcile_adopt" none
    settle starting false = reset
    settle ready false = reset
    settle running false = lost_runtime
    settle maintenance false = lost_runtime
    settle maintenance true = transition env running "reconcile_abandoned_maintenance" none
    settle stopped true = adopt
    settle _ _ = skip

    -- The last `if`/`elif` of `_reconcile_locked`, which wakes a service that is held.
    unfoldable pub wake : Op W (Unit {0})
    wake = do
      i ← gets (λ c. c.instance_)
      time ← now env
      let held = not (leb (active_holds i) 0)
      let due = passed true i.next_restart_at time
      when
          (held && is_stopped i.state
            || held && is_failed i.state && not i.restart_exhausted && due)
          (ensure env s "reconcile")

    -- `_reconcile_locked` from the driver's answer on.
    unfoldable pub reconcile_with : Bool → Op W (Unit {0})
    reconcile_with alive = do
      found ← state_of
      settle found alive
      state ← state_of
      when (is_failed state && alive) adopt
      wake
      schedule_idle env s
      persist

    -- the driver's `status(...).get("alive")`
    unfoldable pub ask_alive : Op W Bool
    ask_alive = do d ← driver env s; r ← declaration env s; drive (λ i. d.status i r)

    -- `_reconcile_locked`; it answers here what the driver said
    unfoldable pub reconcile : Op W Bool
    reconcile = do
      life ← lifecycle s
      update (standing_holds life.mode)
      alive ← ask_alive
      reconcile_with alive
      pure alive
