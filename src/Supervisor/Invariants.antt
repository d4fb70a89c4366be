-- ===== src/Supervisor/Invariants.antt =====
-- The public methods keep the invariants of `Local`, and `stop` does where letting go of all holds
-- and sessions does; the two that open and close sessions are treated in `Sessions`.
use ultimate_bbsbox.Prelude.{ℕ, String, Bool, true, false, Option, none, some, List, ◌∷◌, discard}
use ultimate_bbsbox.Prelude.Exec.{Result, ok, err, Keeps, Keeps-modify, Keeps-bind, Keeps-when}
use ultimate_bbsbox.Errors.{Error}
use ultimate_bbsbox.Registry.Models.{Service, Job}
use ultimate_bbsbox.Supervisor.Lifecycle.{LifecycleState, starting, ready, running, maintenance}
use ultimate_bbsbox.Supervisor.Cell.{Env, Cell, Op, update}
use ultimate_bbsbox.Supervisor.Methods.{
  let_go, start, stop, notify_failure, adopt, reset, lost_runtime, settle, wake, reconcile,
  reconcile_with, ask_alive,
}
use ultimate_bbsbox.Supervisor.Maintenance.{
  mark_job, unmark_job, maintenance_begin, maintenance_run, job_settled, maintenance_record,
  maintenance_after, maintenance_finish, run_job, run_maintenance, tick_service, job_named,
}
use ultimate_bbsbox.Supervisor.Local.{
  IsLocal, local_rules, mark_failed-local, ensure-local, restart-local, stop_locked-local,
  schedule_idle-local,
}

ruleset method_rules = (
  local_rules, mark_failed-local, ensure-local, restart-local, stop_locked-local,
  schedule_idle-local,
)

module _ {W : Type 0} {env : Env W} {P : Cell W → Type 0} (l : IsLocal env P) (s : Service) where
  pub start-local : (reason : String) → Keeps P (start env s reason)
  unfolding start
  start-local reason = search method_rules depth 12

  pub stop-local :
      Keeps P (update let_go) → (force : Bool) (reason : String) → Keeps P (stop env s force reason)
  unfolding stop
  stop-local h force reason =
      Keeps-bind _ _ (search method_rules)
        λ _. Keeps-bind _ _ (Keeps-when _ _ h) λ _. search method_rules depth 9

  pub notify_failure-local : (error : String) → Keeps P (notify_failure env s error)
  unfolding notify_failure
  notify_failure-local error = search method_rules depth 12

  adopt-local : Keeps P (adopt env s)
  unfolding adopt
  adopt-local = search method_rules depth 12

  reset-local : Keeps P (reset env s)
  unfolding reset
  reset-local = search method_rules

  lost_runtime-local : Keeps P (lost_runtime env s)
  unfolding lost_runtime
  lost_runtime-local = search method_rules depth 9

  settle-local : (found : LifecycleState) (alive : Bool) → Keeps P (settle env s found alive)
  unfolding settle
  settle-local starting true = search method_rules
  settle-local _ true = search (method_rules, adopt-local)
  settle-local starting false = reset-local
  settle-local ready false = reset-local
  settle-local running false = lost_runtime-local
  settle-local maintenance false = lost_runtime-local
  settle-local _ false = search method_rules

  wake-local : Keeps P (wake env s)
  unfolding wake
  wake-local = search method_rules depth 12

  ask_alive-local : Keeps P (ask_alive env s)
  unfolding ask_alive
  ask_alive-local = search method_rules depth 9

  reconcile_with-local : (alive : Bool) → Keeps P (reconcile_with env s alive)
  unfolding reconcile_with
  reconcile_with-local alive = search (method_rules, settle-local, adopt-local, wake-local) depth 16

  pub reconcile-local : Keeps P (reconcile env s)
  unfolding reconcile
  reconcile-local = search (method_rules, ask_alive-local, reconcile_with-local) depth 9

  pub tick_service-local : (time : ℕ) → Keeps P (tick_service env s time)
  unfolding tick_service
  tick_service-local time = search method_rules depth 12

-- The parts of a maintenance job also write the job's key among those of the running jobs.
module _ {W : Type 0} {env : Env W} {P : Cell W → Type 0} (l : IsLocal env P) (s : Service)
    (job : Job) where
  pub maintenance_run-keeps : Keeps P (maintenance_run env s job)
  unfolding maintenance_run
  maintenance_run-keeps = search method_rules depth 12

  job_settled-local : (outcome : Result Error String) → Keeps P (job_settled env s job outcome)
  unfolding job_settled
  job_settled-local (ok _) = search method_rules
  job_settled-local (err _) = search method_rules

  maintenance_after-local :
      (was_active : Bool) (outcome : Result Error String)
      → Keeps P (maintenance_after env s job was_active outcome)
  unfolding maintenance_after
  maintenance_after-local was_active (ok _) = search method_rules depth 12
  maintenance_after-local was_active (err _) = search method_rules depth 12

module _ {W : Type 0} {env : Env W} {P : Cell W → Type 0} (l : IsLocal env P) (s : Service)
    (job : Job) (marks : Keeps P (mark_job job.name))
    (unmarks : Keeps P (unmark_job job.name)) where
  mark_job-keeps : Keeps P (mark_job job.name)
  mark_job-keeps = marks

  unmark_job-keeps : Keeps P (unmark_job job.name)
  unmark_job-keeps = unmarks

  pub maintenance_begin-keeps : Keeps P (maintenance_begin env s job)
  unfolding maintenance_begin
  maintenance_begin-keeps = search (method_rules, mark_job-keeps, unmark_job-keeps) depth 16

  pub maintenance_finish-keeps :
      (was_active : Bool) (outcome : Result Error String)
      → Keeps P (maintenance_finish env s job was_active outcome)
  unfolding maintenance_finish maintenance_record
  maintenance_finish-keeps was_active outcome =
      search (method_rules, job_settled-local, unmark_job-keeps, maintenance_after-local) depth 12

module _ {W : Type 0} {env : Env W} {P : Cell W → Type 0} (l : IsLocal env P)
    (marked : (f : List String → List String) (c : Cell W)
      → P c
      → P (record c { jobs_running = f c.jobs_running }))
    (s : Service) where
  mark_job-local : (name : String) → Keeps P (mark_job name)
  unfolding mark_job
  mark_job-local name = Keeps-modify _ (marked (λ js. name ∷ js))

  unmark_job-local : (name : String) → Keeps P (unmark_job name)
  unfolding unmark_job
  unmark_job-local name = Keeps-modify _ (marked (discard name))

  pub maintenance_begin-local : (job : Job) → Keeps P (maintenance_begin env s job)
  maintenance_begin-local job =
      maintenance_begin-keeps l s job (mark_job-local job.name) (unmark_job-local job.name)

  pub maintenance_run-local : (job : Job) → Keeps P (maintenance_run env s job)
  maintenance_run-local job = maintenance_run-keeps l s job

  pub maintenance_finish-local :
      (job : Job) (was_active : Bool) (outcome : Result Error String)
      → Keeps P (maintenance_finish env s job was_active outcome)
  maintenance_finish-local job was_active outcome =
      maintenance_finish-keeps l s job (mark_job-local job.name) (unmark_job-local job.name)
        was_active outcome

  run_job-local :
      (between : Op W (Unit {0}))
      → Keeps P between
      → (job : Option Job) → Keeps P (run_job env s between job)
  unfolding run_job
  run_job-local between h none = search method_rules
  run_job-local between h (some job) = Keeps-bind _ _ (maintenance_begin-local job) λ was_active.
      Keeps-bind _ _ (maintenance_run-local job)
        λ outcome. Keeps-bind _ _ h λ _. maintenance_finish-local job was_active outcome

  pub run_maintenance-local :
      (between : Op W (Unit {0}))
      → Keeps P between
      → (name : String) → Keeps P (run_maintenance env s between name)
  unfolding run_maintenance
  run_maintenance-local between h name = run_job-local between h (job_named name s.jobs)
