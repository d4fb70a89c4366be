-- ===== src/Supervisor/Due.antt =====
-- The jobs of a service in `tick` of `scripts/ubb_supervisor/supervisor.py`: which of them are due.
use ultimate_bbsbox.Prelude.{ℕ, String, Bool, true, false, List, [], ◌∷◌, elem}
use ultimate_bbsbox.Prelude.Dict.{lookup, insert}
use ultimate_bbsbox.Prelude.Exec.{Result, ok, pure, lift, gets, when, ◌>>=◌, ◌>>◌}
use ultimate_bbsbox.Errors.{Error}
use ultimate_bbsbox.Registry.Models.{Job, Service}
use ultimate_bbsbox.Supervisor.Instance.{Instance}
use ultimate_bbsbox.Supervisor.Cell.{Env, Op, update, persist}
use ultimate_bbsbox.Supervisor.Scheduler.{is_due}
use ultimate_bbsbox.Supervisor.Maintenance.{tick_service}

-- `key not in self._jobs_running and is_due(...)`
abbrev pub unless_running : Bool → Result Error Bool → Result Error Bool
unless_running true due = ok false
unless_running false due = due

abbrev pub listed_if : Bool → String → List String → List String
listed_if true name names = name ∷ names
listed_if false name names = names

unfoldable pub scheduled_run : String → ℕ → Instance → Instance
scheduled_run name time i = record i { schedule_last_run = insert name time i.schedule_last_run }

module _ {W : Type 0} (time : ℕ) where
  -- `instance.schedule_last_run[job["name"]] = now.isoformat(); self._persist(instance)`
  unfoldable pub note_run : Bool → String → Op W (Unit {0})
  note_run due name = when due do update (scheduled_run name time); persist

module _ {W : Type 0} (wall : ℕ → ℕ) (time : ℕ) where
  -- The loop over the jobs. It answers the names of those that are due, in order.
  unfoldable pub note_jobs : List Job → Op W (List String)
  note_jobs [] = pure []
  note_jobs (j ∷ js) = do
    jobs ← gets (λ c. c.jobs_running)
    last ← gets (λ c. lookup j.name c.instance_.schedule_last_run)
    due ← lift (unless_running (elem j.name jobs) (is_due wall j.schedule time last))
    note_run time due j.name
    names ← note_jobs js
    pure (listed_if due j.name names)

-- The whole body of `tick`'s loop over the services, under the service's lock.
unfoldable pub tick_jobs : {W : Type 0} → Env W → Service → (ℕ → ℕ) → ℕ → Op W (List String)
tick_jobs env s wall time = do tick_service env s time; note_jobs wall time s.jobs
