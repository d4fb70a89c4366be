-- ===== src/Supervisor/Local/Quiet.antt =====
-- The updates of an instance that leave its state, its name, its sessions and the holds of its
-- sessions alone.
use ultimate_bbsbox.Prelude.{ℕ, String, ◌≡◌, Option, List, arith}
use ultimate_bbsbox.Prelude.Dict.{erase, lookup-insert, lookup-erase}
use ultimate_bbsbox.Errors.{Error}
use ultimate_bbsbox.Registry.Models.{Mode}
use ultimate_bbsbox.Supervisor.Instance.{Instance, JobResult, hold_count}
use ultimate_bbsbox.Supervisor.Cell.{hold_removed}
use ultimate_bbsbox.Supervisor.Run.{exhausted, restart_noted, started, stopped_at}
use ultimate_bbsbox.Supervisor.Methods.{admin_start, admin_stop, standing_holds}
use ultimate_bbsbox.Supervisor.Maintenance.{job_recorded}

pub record IsQuiet (i j : Instance) : Type 0 where
  pub same_state : j.state ≡ i.state
  pub same_name : j.service_id ≡ i.service_id
  pub same_sessions : j.sessions ≡ i.sessions
  pub same_holds : hold_count "sessions" j.holds ≡ hold_count "sessions" i.holds

pub restarts-IsQuiet : (i : Instance) (f : List ℕ) → IsQuiet i (record i { restart_times = f })
restarts-IsQuiet i f = ground arith

pub failure-IsQuiet : (i : Instance) (f : Option Error) → IsQuiet i (record i { last_failure = f })
failure-IsQuiet i f = ground arith

pub deadline-IsQuiet : (i : Instance) (f : Option ℕ) → IsQuiet i (record i { idle_deadline = f })
deadline-IsQuiet i f = ground arith

pub recovery-IsQuiet : (i : Instance) → IsQuiet i (record i { holds = erase "recovery" i.holds })
unfolding hold_count
recovery-IsQuiet i = ground (arith, lookup-erase "recovery" "sessions" i.holds)

pub exhausted-IsQuiet : (i : Instance) → IsQuiet i (exhausted i)
unfolding exhausted hold_count
exhausted-IsQuiet i = ground (arith, lookup-erase "recovery" "sessions" i.holds)

pub restart_noted-IsQuiet : (t b : ℕ) (i : Instance) → IsQuiet i (restart_noted t b i)
unfolding restart_noted hold_count
restart_noted-IsQuiet t b i = ground (arith, lookup-insert "recovery" "sessions" 1 i.holds)

pub started-IsQuiet : (t : ℕ) (i : Instance) → IsQuiet i (started t i)
unfolding started
started-IsQuiet t i = ground arith

pub stopped_at-IsQuiet : (t : ℕ) (i : Instance) → IsQuiet i (stopped_at t i)
unfolding stopped_at
stopped_at-IsQuiet t i = ground arith

pub admin_start-IsQuiet : (i : Instance) → IsQuiet i (admin_start i)
unfolding admin_start
admin_start-IsQuiet i = ground arith

pub admin_stop-IsQuiet : (i : Instance) → IsQuiet i (admin_stop i)
unfolding admin_stop hold_count
admin_stop-IsQuiet i = ground (arith, lookup-erase "admin" "sessions" i.holds)

pub standing_holds-IsQuiet : (m : Mode) (i : Instance) → IsQuiet i (standing_holds m i)
unfolding standing_holds hold_count
standing_holds-IsQuiet m i = grind (arith, lookup-erase, lookup-insert)

pub maintenance_released-IsQuiet : (i : Instance) → IsQuiet i (hold_removed "maintenance" i)
unfolding hold_removed hold_count
maintenance_released-IsQuiet i = grind (arith, lookup-erase, lookup-insert)

pub job_recorded-IsQuiet :
    (n : String) (r : JobResult) (i : Instance) → IsQuiet i (job_recorded n r i)
unfolding job_recorded
job_recorded-IsQuiet n r i = ground arith

pub ruleset quiet_rules = (
  restarts-IsQuiet, failure-IsQuiet, deadline-IsQuiet, recovery-IsQuiet, exhausted-IsQuiet,
  restart_noted-IsQuiet, started-IsQuiet, stopped_at-IsQuiet, admin_start-IsQuiet,
  admin_stop-IsQuiet, standing_holds-IsQuiet, maintenance_released-IsQuiet, job_recorded-IsQuiet,
)
