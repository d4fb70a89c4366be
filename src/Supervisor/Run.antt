-- ===== src/Supervisor/Run.antt =====
-- Starting, stopping and restarting under the service's lock: `_ensure_running_locked`,
-- `_restart_after_failure_locked`, `_stop_locked` and what they call. `ensure_running` and
-- `restart_after_failure` call one another; the depth of these calls is the fuel, and a stack that
-- runs out raises, as Python's RecursionError does. The readiness loop has one round for each
-- microsecond of the timeout.
use ultimate_bbsbox.Prelude.{
  ℕ, zero, suc, ◌+◌, ◌-◌, ◌*◌, min, String, Bool, true, false, not, ◌&&◌, Option, none, some,
  get_or, List, [], ◌∷◌, ◌++◌, leb, length, keep_if, is_some,
}
use ultimate_bbsbox.Prelude.Dict.{insert, erase}
use ultimate_bbsbox.Prelude.Exec.{
  raise, gets, skip, when, raise_if, branch, attempt, try_catch, ◌>>=◌, ◌>>◌,
}
use ultimate_bbsbox.Errors.{
  Error, service_busy, readiness_timeout, restart_limit_exceeded, recursion_limit, endless_wait,
}
use ultimate_bbsbox.Registry.Models.{
  Mode, on_demand, always_on, Lifecycle, Readiness, process_alive, RestartPolicy, never, on_failure,
  always, Service, second,
}
use ultimate_bbsbox.Registry.Queries.{Resolution}
use ultimate_bbsbox.Supervisor.Lifecycle.{
  LifecycleState, stopped, starting, ready, running, stopping, failed, is_active, is_changing,
  is_failed, is_running, is_stopped,
}
use ultimate_bbsbox.Supervisor.Instance.{Instance, active_holds}
use ultimate_bbsbox.Supervisor.Cell.{
  Driver, Env, Op, update, persist, drive, now, monotonic, sleep, transition, declaration, driver,
  lifecycle,
}

-- `lifecycle.get("restart", "never") in ("on_failure", "always")`
unfoldable pub may_restart : Option RestartPolicy → Bool
may_restart none = false
may_restart (some never) = false
may_restart (some on_failure) = true
may_restart (some always) = true

unfoldable pub window_of : Lifecycle → ℕ
window_of l = get_or l.restart_window (60 * second)

unfoldable pub limit_of : Lifecycle → ℕ
limit_of l = get_or l.max_restarts 3

-- The restarts that still count: `now - item <= window`.
unfoldable pub recent : ℕ → ℕ → List ℕ → List ℕ
recent time window = keep_if (λ t. leb (time - t) window)

unfoldable pub exhausted : Instance → Instance
exhausted i = record i {
  last_failure = some restart_limit_exceeded;
  restart_exhausted = true;
  next_restart_at = none;
  holds = erase "recovery" i.holds;
}

unfoldable pub restart_noted : ℕ → ℕ → Instance → Instance
restart_noted time backoff i = record i {
  restart_times = i.restart_times ++ time ∷ [];
  restart_exhausted = false;
  holds = insert "recovery" 1 i.holds;
  next_restart_at = some (time + backoff);
}

unfoldable pub started : ℕ → Instance → Instance
started time i = record i {
  last_start_at = some time;
  last_failure = none;
  next_restart_at = none;
  restart_exhausted = false;
}

unfoldable pub stopped_at : ℕ → Instance → Instance
stopped_at time i = record i { last_stop_at = some time; idle_deadline = none }

-- Whether a stored instant has come; `absent` answers for one that is not set.
unfoldable pub passed : Bool → Option ℕ → ℕ → Bool
passed absent none time = absent
passed absent (some t) time = leb t time

unfoldable pub is_on_demand : Mode → Bool
is_on_demand on_demand = true
is_on_demand always_on = false

module _ {W : Type 0} where
  unfoldable pub state_of : Op W LifecycleState
  state_of = gets (λ c. c.instance_.state)

  unfoldable pub drop_recovery : Op W (Unit {0})
  drop_recovery = do update (λ i. record i { holds = erase "recovery" i.holds }); persist

  module _ (env : Env W) (s : Service) where
    unfoldable pub mark_failed : Error → String → Op W (Unit {0})
    mark_failed error reason = do
      state ← state_of
      when (not (is_failed state)) (transition env failed reason (some error))
      update (λ i. record i { last_failure = some error })
      persist

    -- `again` is `_ensure_running_locked` for this service.
    unfoldable pub restart_after_failure : (String → Op W (Unit {0})) → Op W (Unit {0})
    restart_after_failure again = do
      life ← lifecycle s
      when (may_restart life.restart) do
        time ← now env
        update (λ i. record i { restart_times = recent time (window_of life) i.restart_times })
        prior ← gets (λ c. c.instance_.restart_times)
        branch (leb (limit_of life) (length prior))
            (do update exhausted; persist; raise restart_limit_exceeded)
            (do
              let backoff = get_or life.restart_backoff 0
              update (restart_noted time backoff)
              persist
              when (leb backoff 0)
                  do again "recovery"; state ← state_of; when (is_running state) drop_recovery)

    -- `while not driver.is_ready(...)`. The rounds are the model's: when they are over before the wait
    -- is, its outcome is `endless_wait`, which is no exception of the source.
    unfoldable pub await_ready : ℕ → Driver W → Resolution → Readiness → ℕ → Op W (Unit {0})
    await_ready zero d r readiness deadline = raise endless_wait
    await_ready (suc rounds) d r readiness deadline = do
      done ← drive (λ i. d.is_ready i r readiness)
      branch done skip do
        time ← monotonic env
        raise_if (leb deadline time) readiness_timeout
        left ← monotonic env
        sleep env (min env.poll_interval (deadline - left))
        await_ready rounds d r readiness deadline

    -- the body of the `try`
    unfoldable pub bring_up : Driver W → Resolution → String → Op W (Unit {0})
    bring_up d r reason = do
      drive (λ i. d.start i r)
      life ← lifecycle s
      let timeout = get_or life.startup_timeout (60 * second)
      begun ← monotonic env
      await_ready (timeout + 2) d r (get_or life.readiness process_alive) (begun + timeout)
      transition env ready reason none
      transition env running reason none
      time ← now env
      update (started time)
      persist

    -- the inner `try`, whose exceptions are passed over
    unfoldable pub clean_up : Driver W → Resolution → Op W (Unit {0})
    clean_up d r = do
      _ ← attempt (do alive ← drive (λ i. d.status i r); when alive (drive (λ i. d.stop i r)))
      skip

    unfoldable pub ensure_running : ℕ → String → Op W (Unit {0})
    ensure_running zero reason = raise recursion_limit
    ensure_running (suc depth) reason = do
      state ← state_of
      branch (is_active state) skip do
        raise_if (is_changing state) service_busy
        r ← declaration env s
        d ← driver env s
        transition env starting reason none
        try_catch (bring_up d r reason) λ error. do
          clean_up d r
          mark_failed error "start_failure"
          restart_after_failure (λ why. ensure_running depth why)
          after ← state_of
          raise_if (is_failed after) error

    unfoldable pub ensure : String → Op W (Unit {0})
    ensure = ensure_running env.stack_depth

    unfoldable pub shut_down : String → Op W (Unit {0})
    shut_down reason = do
      transition env stopping reason none
      try_catch
          (do
            d ← driver env s
            r ← declaration env s
            drive (λ i. d.stop i r)
            transition env stopped reason none
            time ← now env
            update (stopped_at time)
            persist)
          (λ error. do mark_failed error "stop_failure"; raise error)

    unfoldable pub stop_locked : String → Op W (Unit {0})
    stop_locked reason = do
      state ← state_of
      branch (is_stopped state) persist (
          branch (is_failed state) (transition env stopped reason none)
            (do raise_if (not (is_active state)) service_busy; shut_down reason))

    unfoldable pub schedule_idle : Op W (Unit {0})
    schedule_idle = do
      life ← lifecycle s
      i ← gets (λ c. c.instance_)
      when
          (is_on_demand life.mode
            && leb (active_holds i) 0
            && is_running i.state
            && not (is_some i.idle_deadline))
          (do
            time ← now env
            update (λ i. record i { idle_deadline = some (time + get_or life.idle_timeout 0) })
            persist)
