-- ===== src/Supervisor/Maintenance.antt =====
-- `run_maintenance` and the per-service part of `tick`. The lock is free while the driver runs the
-- job, so the method is three parts: `maintenance_begin` and `maintenance_finish` under the lock,
-- and the driver's run between them, beside which other methods of the service may run.
use ultimate_bbsbox.Prelude.{
  ℕ, String, Bool, true, false, not, ◌&&◌, Option, none, some, get_or, List, [], ◌∷◌, leb, elem,
  discard, ◌==◌, ◌<>◌, if◌then◌else◌,
}
use ultimate_bbsbox.Prelude.Dict.{insert}
use ultimate_bbsbox.Prelude.Exec.{
  Result, ok, err, pure, raise, gets, modify, when, raise_if, branch, attempt, try_catch, ◌>>=◌,
  ◌>>◌,
}
use ultimate_bbsbox.Errors.{Error, maintenance_error, service_busy}
use ultimate_bbsbox.Registry.Models.{Job, Service}
use ultimate_bbsbox.Supervisor.Lifecycle.{running, maintenance, is_active, is_running, is_failed}
use ultimate_bbsbox.Supervisor.Instance.{Instance, JobResult, active_holds}
use ultimate_bbsbox.Supervisor.Cell.{
  Env, Op, update, drive, now, transition, declaration, driver, add_hold, remove_hold,
}
use ultimate_bbsbox.Supervisor.Run.{
  state_of, drop_recovery, mark_failed, restart_after_failure, ensure, stop_locked, schedule_idle,
  passed,
}

-- `jobs = {job["name"]: job ...}`: the last job of a name is the one that counts.
unfoldable pub job_named : String → List Job → Option Job
job_named name [] = none
job_named name (j ∷ js) = elim (job_named name js) [
  | some k ↦ some k
  | none ↦ if j.name == name then some j else none
]

unfoldable pub job_recorded : String → JobResult → Instance → Instance
job_recorded name result i = record i {
  maintenance_results = insert name result i.maintenance_results;
  schedule_last_run = insert name result.timestamp i.schedule_last_run;
}

unfoldable pub is_error {ℓ} : {E A : Type ℓ} → Result E A → Bool
is_error (ok _) = false
is_error (err _) = true

module _ {W : Type 0} where
  unfoldable pub mark_job : String → Op W (Unit {0})
  mark_job name = modify (λ c. record c { jobs_running = name ∷ c.jobs_running })

  unfoldable pub unmark_job : String → Op W (Unit {0})
  unmark_job name = modify (λ c. record c { jobs_running = discard name c.jobs_running })

  module _ (env : Env W) (s : Service) where
    -- The first part under the lock; it answers `was_active`.
    unfoldable pub maintenance_begin : Job → Op W Bool
    maintenance_begin job = do
      jobs ← gets (λ c. c.jobs_running)
      raise_if (elem job.name jobs) service_busy
      mark_job job.name
      state ← state_of
      let was_active = is_active state
      when (not was_active && not (get_or job.wake_if_stopped true))
          do unmark_job job.name; raise maintenance_error
      add_hold "maintenance"
      try_catch
          (do
            ensure env s "maintenance"
            transition env maintenance ("maintenance:" <> job.name) none)
          (λ error. do remove_hold "maintenance"; unmark_job job.name; raise error)
      pure was_active

    -- The driver's run, without the lock.
    unfoldable pub maintenance_run : Job → Op W (Result Error String)
    maintenance_run job =
        attempt do d ← driver env s; r ← declaration env s; drive (λ i. d.run_maintenance i r job)

    unfoldable pub job_settled : Job → Result Error String → Op W (Unit {0})
    job_settled job (ok _) = transition env running ("maintenance_complete:" <> job.name) none
    job_settled job (err e) = mark_failed env s e ("maintenance_failure:" <> job.name)

    -- The second part under the lock, up to the release of the hold and the key.
    unfoldable pub maintenance_record : Job → Result Error String → Op W (Unit {0})
    maintenance_record job outcome = do
      time ← now env
      update (job_recorded job.name (record { timestamp = time; outcome = outcome }))
      job_settled job outcome
      remove_hold "maintenance"
      unmark_job job.name

    -- The rest of that part: the stop or the idle deadline, or the restart and the exception.
    unfoldable pub maintenance_after : Job → Bool → Result Error String → Op W String
    maintenance_after job was_active (ok result) = do
      i ← gets (λ c. c.instance_)
      branch (not was_active && get_or job.shutdown_after true && leb (active_holds i) 0)
          (stop_locked env s ("maintenance_complete:" <> job.name)) (schedule_idle env s)
      pure result
    maintenance_after job was_active (err e) = do
      restart_after_failure env s (ensure env s)
      raise maintenance_error

    unfoldable pub maintenance_finish : Job → Bool → Result Error String → Op W String
    maintenance_finish job was_active outcome = do
      maintenance_record job outcome
      maintenance_after job was_active outcome

    unfoldable pub run_job : Op W (Unit {0}) → Option Job → Op W String
    run_job between none = raise maintenance_error
    run_job between (some job) = do
      was_active ← maintenance_begin job
      outcome ← maintenance_run job
      between
      maintenance_finish job was_active outcome

    -- `between` is what other threads do to the service while the driver runs the job.
    unfoldable pub run_maintenance : Op W (Unit {0}) → String → Op W String
    run_maintenance between name = run_job between (job_named name s.jobs)

    -- The loop's body in `tick` before the jobs: the idle stop and the delayed restart.
    unfoldable pub tick_service : ℕ → Op W (Unit {0})
    tick_service time = do
      i ← gets (λ c. c.instance_)
      when (passed false i.idle_deadline time && leb (active_holds i) 0 && is_running i.state)
          (stop_locked env s "idle_timeout")
      j ← gets (λ c. c.instance_)
      when (is_failed j.state && passed false j.next_restart_at time)
          do ensure env s "recovery"; state ← state_of; when (is_running state) drop_recovery
