-- ===== src/Supervisor/Local.antt =====
-- Invariants of a cell that the steps made under the lock keep. `IsLocal` names what such a step
-- does at most; every operation that is made of them then keeps the invariant, at any depth of the
-- recursion between `ensure_running` and `restart_after_failure`, whether it returns or raises.
mod Quiet
pub use Quiet.*
use ultimate_bbsbox.Prelude.{
  ℕ, zero, suc, String, Bool, true, false, Option, none, some, List, refl,
}
use ultimate_bbsbox.Prelude.Exec.{
  Keeps, Keeps-modify, Keeps-bind, Keeps-branch, Keeps-try_catch, raise_if, keeps_rules, raise,
  ◌>>=◌, ◌>>◌,
}
use ultimate_bbsbox.Errors.{Error}
use ultimate_bbsbox.Registry.Models.{Service, Readiness}
use ultimate_bbsbox.Registry.Queries.{Resolution}
use ultimate_bbsbox.Supervisor.Lifecycle.{LifecycleState, is_failed}
use ultimate_bbsbox.Supervisor.Instance.{Instance}
use ultimate_bbsbox.Supervisor.Cell.{
  Act, Driver, Env, Cell, Op, update, persist, drive, now, monotonic, sleep, transition,
  declaration, driver, lifecycle, hold_added, add_hold, remove_hold,
}
use ultimate_bbsbox.Supervisor.Run.{
  state_of, drop_recovery, mark_failed, restart_after_failure, await_ready, bring_up, clean_up,
  ensure_running, ensure, shut_down, stop_locked, schedule_idle,
}

pub record IsLocal {W : Type 0} (env : Env W) (P : Cell W → Type 0) : Type 1 where
  pub quiet : (f : Instance → Instance) → ((i : Instance) → IsQuiet i (f i)) → Keeps P (update f)
  pub held : (reason : String) → Keeps P (update (hold_added reason))
  pub persisted : Keeps P persist
  pub driven : (A : Type 0) (call : Instance → Act W A) → Keeps P (drive call)
  pub entered :
      (new : LifecycleState) (reason : String) (error : Option Error)
      → Keeps P (transition env new reason error)
  pub slept : (n : ℕ) → Keeps P (sleep env n)

module _ {W : Type 0} {env : Env W} {P : Cell W → Type 0} (l : IsLocal env P) where
  pub quiet_update :
      (f : Instance → Instance) → ((i : Instance) → IsQuiet i (f i)) → Keeps P (update f)
  quiet_update = l.quiet

  pub persist_local : Keeps P persist
  persist_local = l.persisted

  pub drive_local : {A : Type 0} (call : Instance → Act W A) → Keeps P (drive call)
  drive_local {A} call = l.driven A call

  pub transition_local :
      (new : LifecycleState) (reason : String) (error : Option Error)
      → Keeps P (transition env new reason error)
  transition_local = l.entered

  pub sleep_local : (n : ℕ) → Keeps P (sleep env n)
  sleep_local = l.slept

  pub held_local : (reason : String) → Keeps P (update (hold_added reason))
  held_local = l.held

  pub add_hold-local : (reason : String) → Keeps P (add_hold reason)
  unfolding add_hold
  add_hold-local reason = search (keeps_rules, held_local, persist_local)

  pub drop_recovery-local : Keeps P drop_recovery
  unfolding drop_recovery
  drop_recovery-local = search (keeps_rules, quiet_update, persist_local, quiet_rules)

  pub remove_maintenance-local : Keeps P (remove_hold "maintenance")
  unfolding remove_hold
  remove_maintenance-local = search (keeps_rules, quiet_update, persist_local, quiet_rules)

  pub state_of-local : Keeps P state_of
  unfolding state_of
  state_of-local = search keeps_rules

  pub now-local : Keeps P (now env)
  unfolding now
  now-local = search keeps_rules

  pub monotonic-local : Keeps P (monotonic env)
  unfolding monotonic
  monotonic-local = search keeps_rules

module _ {W : Type 0} {env : Env W} {P : Cell W → Type 0} (l : IsLocal env P) (s : Service) where
  pub lifecycle-local : Keeps P (lifecycle s)
  unfolding lifecycle
  lifecycle-local = search keeps_rules

  pub declaration-local : Keeps P (declaration env s)
  unfolding declaration
  declaration-local = search keeps_rules

  pub driver-local : Keeps P (driver env s)
  unfolding driver
  driver-local = search keeps_rules

pub ruleset local_rules = (
  keeps_rules, quiet_update, quiet_rules, persist_local, drive_local, transition_local, sleep_local,
  held_local, add_hold-local, drop_recovery-local, remove_maintenance-local, state_of-local,
  now-local, monotonic-local, lifecycle-local, declaration-local, driver-local,
)

module _ {W : Type 0} {env : Env W} {P : Cell W → Type 0} (l : IsLocal env P) (s : Service) where
  pub mark_failed-local : (e : Error) (reason : String) → Keeps P (mark_failed env s e reason)
  unfolding mark_failed
  mark_failed-local e reason = search local_rules depth 9

  restart_after_failure-local :
      (again : String → Op W (Unit {0}))
      → ((why : String) → Keeps P (again why))
      → Keeps P (restart_after_failure env s again)
  unfolding restart_after_failure
  restart_after_failure-local again h = search (local_rules, h) depth 20

  await_ready-local :
      (rounds : ℕ) (d : Driver W) (r : Resolution) (q : Readiness) (deadline : ℕ)
      → Keeps P (await_ready env s rounds d r q deadline)
  unfolding await_ready
  await_ready-local zero d r q deadline = search local_rules
  await_ready-local (suc rounds) d r q deadline = Keeps-bind _ _ (search local_rules) λ done.
      Keeps-branch _ _ _ (search local_rules) (
        Keeps-bind _ _ (search local_rules) λ time. Keeps-bind _ _ (search local_rules) λ _.
          Keeps-bind _ _ (search local_rules)
            λ _. Keeps-bind _ _ (search local_rules) λ _. await_ready-local rounds d r q deadline)

  bring_up-local :
      (d : Driver W) (r : Resolution) (reason : String) → Keeps P (bring_up env s d r reason)
  unfolding bring_up
  bring_up-local d r reason = search (local_rules, await_ready-local) depth 14

  clean_up-local : (d : Driver W) (r : Resolution) → Keeps P (clean_up env s d r)
  unfolding clean_up
  clean_up-local d r = search local_rules depth 9

  ensure_running-local : (depth : ℕ) (reason : String) → Keeps P (ensure_running env s depth reason)
  unfolding ensure_running
  ensure_running-local zero reason = search local_rules
  ensure_running-local (suc depth) reason = Keeps-bind _ _ (search local_rules) λ state.
      Keeps-branch _ _ _ (search local_rules) (
        Keeps-bind _ _ (search local_rules) λ _. Keeps-bind _ _ (search local_rules) λ r.
          Keeps-bind _ _ (search local_rules) λ d. Keeps-bind _ _ (search local_rules) λ _.
            Keeps-try_catch _ _ (bring_up-local d r reason)
              λ error. recovered d r error (ensure_running-local depth))
    where
      recovered :
          (d : Driver W) (r : Resolution) (error : Error)
          → ((why : String) → Keeps P (ensure_running env s depth why))
          → Keeps P (do
            clean_up env s d r
            mark_failed env s error "start_failure"
            restart_after_failure env s (λ why. ensure_running env s depth why)
            after ← state_of
            raise_if (is_failed after) error)
      recovered d r error h = Keeps-bind _ _ (clean_up-local d r) λ _.
          Keeps-bind _ _ (mark_failed-local error "start_failure")
            λ _. Keeps-bind _ _ (restart_after_failure-local _ h) λ _. search local_rules

  pub ensure-local : (reason : String) → Keeps P (ensure env s reason)
  unfolding ensure
  ensure-local reason = ensure_running-local env.stack_depth reason

  pub restart-local : Keeps P (restart_after_failure env s (ensure env s))
  restart-local = restart_after_failure-local (ensure env s) ensure-local

  shut_down-local : (reason : String) → Keeps P (shut_down env s reason)
  unfolding shut_down
  shut_down-local reason = search (local_rules, mark_failed-local) depth 14

  pub stop_locked-local : (reason : String) → Keeps P (stop_locked env s reason)
  unfolding stop_locked
  stop_locked-local reason = search (local_rules, shut_down-local) depth 9

  pub schedule_idle-local : Keeps P (schedule_idle env s)
  unfolding schedule_idle
  schedule_idle-local = search local_rules depth 9
