-- ===== src/Supervisor/Opened.antt =====
-- One name to unfold for a test that runs the supervisor on concrete data.
use ultimate_bbsbox.Prelude.Dict.{lookup, insert, erase}
use ultimate_bbsbox.Prelude.Exec.{
  pure, raise, lift, gets, modify, skip, when, raise_if, ◌>>=◌, try_catch, attempt, branch,
}
use ultimate_bbsbox.Registry.Models.{is_local_host, normalized}
use ultimate_bbsbox.Registry.Queries.{service, endpoint, integration, integration_of, resolve}
use ultimate_bbsbox.Supervisor.Instance.{
  sum_holds, active_holds, hold_count, is_durable, durable_holds, to_saved, from_saved,
}
use ultimate_bbsbox.Supervisor.Cell.{
  hold_added, hold_removed, update, persist, drive, now, monotonic, sleep, enter, transition,
  declaration, driver, lifecycle, add_hold, remove_hold,
}
use ultimate_bbsbox.Supervisor.Run.{
  may_restart, window_of, limit_of, recent, exhausted, restart_noted, started, stopped_at, passed,
  is_on_demand, state_of, drop_recovery, mark_failed, restart_after_failure, await_ready, bring_up,
  clean_up, ensure_running, ensure, shut_down, stop_locked, schedule_idle,
}
use ultimate_bbsbox.Supervisor.Methods.{
  admin_start, admin_stop, let_go, is_single, session_opened, session_dropped, standing_holds,
  open_hold, close_hold, fresh_id, start, stop, occupy, acquire_session, release_session,
  notify_failure, adopt, reset, lost_runtime, settle, wake, reconcile_with, ask_alive, reconcile,
}
use ultimate_bbsbox.Supervisor.Maintenance.{
  job_named, job_recorded, is_error, mark_job, unmark_job, maintenance_begin, maintenance_run,
  job_settled, maintenance_record, maintenance_after, maintenance_finish, run_job, run_maintenance,
  tick_service,
}
use ultimate_bbsbox.Supervisor.Fake.{
  advance, fake_start, fake_stop, fake_status, fake_is_ready, fake_run_maintenance, fake_driver,
  next_id, fake_env,
}
use ultimate_bbsbox.Prelude.Exec.{Result}
use ultimate_bbsbox.Errors.{Error}
use ultimate_bbsbox.Supervisor.Cell.{Cell, Op}

-- The result of a method and the cell that it leaves, with all that it calls open to computation.
unfoldable pub outcome : {W A : Type 0} → Op W A → Cell W → Result Error A × Cell W
unfolding lookup insert erase pure raise lift gets modify skip when raise_if ◌>>=◌ try_catch attempt
    branch is_local_host normalized service endpoint integration integration_of resolve sum_holds
    active_holds hold_count is_durable durable_holds to_saved from_saved hold_added hold_removed
    update persist drive now monotonic sleep enter transition declaration driver lifecycle add_hold
    remove_hold may_restart window_of limit_of recent exhausted restart_noted started stopped_at
    passed is_on_demand state_of drop_recovery mark_failed restart_after_failure await_ready
    bring_up clean_up ensure_running ensure shut_down stop_locked schedule_idle admin_start
    admin_stop let_go is_single session_opened session_dropped standing_holds open_hold close_hold
    fresh_id start stop occupy acquire_session release_session notify_failure adopt reset
    lost_runtime settle wake reconcile_with ask_alive reconcile job_named job_recorded is_error
    mark_job unmark_job maintenance_begin maintenance_run job_settled maintenance_record
    maintenance_after maintenance_finish run_job run_maintenance tick_service advance fake_start
    fake_stop fake_status fake_is_ready fake_run_maintenance fake_driver next_id fake_env
outcome m c = m c
