-- ===== src/Supervisor/Samples.antt =====
-- Witnesses and tests of the supervisor, over its test doubles and a small registry.
use ultimate_bbsbox.Prelude.{
  true, false, ◌≡◌, refl, none, List, [], ◌∷◌, arith, length, if◌then◌else◌, elem,
}
use ultimate_bbsbox.Prelude.Dict.{lookup, contains, erase}
use ultimate_bbsbox.Prelude.Exec.{ok, err}
use ultimate_bbsbox.Errors.{invalid_transition, service_busy}
use ultimate_bbsbox.Registry.Samples.{board, registry, backup_job}
use ultimate_bbsbox.Supervisor.Lifecycle.{stopped, running, is_active, is_failed}
use ultimate_bbsbox.Supervisor.Instance.{fresh, hold_count, is_durable, to_saved, from_saved}
use ultimate_bbsbox.Supervisor.Cell.{Env, Cell}
use ultimate_bbsbox.Supervisor.Run.{ensure}
use ultimate_bbsbox.Supervisor.Methods.{acquire_session, stop, admin_stop, reconcile}
use ultimate_bbsbox.Supervisor.Maintenance.{maintenance_begin, maintenance_finish, tick_service}
use ultimate_bbsbox.Supervisor.Trace.{IsTraced, replay}
use ultimate_bbsbox.Supervisor.Sessions.{
  IsCovered, acquire_session-IsCovered, stop-busy, tick_service-busy,
}
use ultimate_bbsbox.Supervisor.Running.{ensure-IsUp}
use ultimate_bbsbox.Supervisor.Reconciling.{reconcile-IsReconciled}
use ultimate_bbsbox.Supervisor.Acquired.{acquire_session-IsServed}
use ultimate_bbsbox.Supervisor.Abandoned.{reconciled_job-stuck}
use ultimate_bbsbox.Supervisor.Storing.{from_saved-to_saved, to_saved-from_saved}
use ultimate_bbsbox.Supervisor.Opened.{outcome}
use ultimate_bbsbox.Admin.Accounts.{operator}
use ultimate_bbsbox.Admin.Actions.{restart_action, restart_action-busy}
use ultimate_bbsbox.Supervisor.Fake.{World, fake_env}
use ultimate_bbsbox.Supervisor.Calls.{
  Call, start_, stop_, job_begin, acquire, tick, reconcile_, calls, calls-IsCovered, calls-IsTraced,
}

abbrev world : World
world = record {
  clock = record { current = 1000; elapsed = 0 };
  driver = record {
    alive = [];
    start_calls = 0;
    stop_calls = 0;
    maintenance_calls = [];
    start_failures = 1;
    ready_after_checks = 0;
    readiness_checks = 0;
  };
  ids = "session-1" ∷ "session-2" ∷ [];
}

abbrev cell : Cell World
cell = record {
  instance_ = fresh "mystic-main" "mystic-main:shared";
  saved = none;
  override = none;
  jobs_running = [];
  journal = [];
  world = world;
}

abbrev env : Env World
env = fake_env registry

-- The first start of the driver fails; the restart that follows it succeeds.
acquires : (outcome (acquire_session env board) cell).0 ≡ ok "session-1"
unfolding outcome
acquires = refl

abbrev served : Cell World
served = (acquire_session env board cell).1

acquire_session-IsServed_example :
    (contains "session-1" served.instance_.sessions ≡ true)
    × (is_active served.instance_.state ≡ true)
unfolding outcome
acquire_session-IsServed_example = acquire_session-IsServed env board cell "session-1" acquires

cell-IsCovered : IsCovered cell
unfolding hold_count lookup
cell-IsCovered = record { covered = omega arith }

abbrev morning : List Call
morning = acquire ∷ start_ "admin" ∷ tick 500000000 ∷ reconcile_ ∷ []

calls-IsCovered_example : IsCovered (calls env board morning cell)
calls-IsCovered_example = calls-IsCovered env board morning cell cell-IsCovered

cell-IsTraced : IsTraced stopped "mystic-main" cell
unfolding replay
cell-IsTraced = record { named = refl; traced = refl }

calls-IsTraced_example : IsTraced stopped "mystic-main" (calls env board morning cell)
calls-IsTraced_example = calls-IsTraced env board stopped "mystic-main" morning cell cell-IsTraced

served-IsCovered : IsCovered served
served-IsCovered = (acquire_session-IsCovered env board).at cell cell-IsCovered

served-open : (length served.instance_.sessions ≡ 1) × (is_failed served.instance_.state ≡ false)
unfolding outcome
served-open = (refl, refl)

stop-busy_example :
    stop env board false "admin" served
    ≡ (err service_busy, record served { instance_ = admin_stop served.instance_ })
stop-busy_example =
    stop-busy env board "admin" served served-IsCovered (omega (arith, served-open.0))

tick_service-busy_example : tick_service env board 500000000 served ≡ (ok tt, served)
tick_service-busy_example =
    tick_service-busy env board 500000000 served served-IsCovered (omega (arith, served-open.0))
      served-open.1

ensured : (outcome (ensure env board "session") cell).0 ≡ ok tt
unfolding outcome
ensured = refl

ensure-IsUp_example : is_active (ensure env board "session" cell).1.instance_.state ≡ true
unfolding outcome
ensure-IsUp_example = ensure-IsUp env board "session" cell ensured

abbrev in_job : Cell World
in_job = (maintenance_begin env board backup_job served).1

job_key : elem "backup" in_job.jobs_running ≡ true
unfolding outcome
job_key = refl

job_alive : (outcome (reconcile env board) in_job).0 ≡ ok true
unfolding outcome
job_alive = refl

reconcile-IsReconciled_example : (reconcile env board in_job).1.instance_.state ≡ running
unfolding outcome
reconcile-IsReconciled_example = reconcile-IsReconciled env board in_job true job_alive

abbrev afterwards : List Call
afterwards = stop_ true "shutdown" ∷ start_ "admin" ∷ job_begin backup_job ∷ reconcile_ ∷ []

reconciled_job-stuck_example :
    let d =
      maintenance_finish env board backup_job true (ok "backup") (reconcile env board in_job).1 in
    (d.0 ≡ err invalid_transition)
    × (maintenance_begin env board backup_job (calls env board afterwards d.1)
        ≡ (err service_busy, calls env board afterwards d.1))
unfolding outcome
reconciled_job-stuck_example =
    reconciled_job-stuck env board backup_job true "backup" in_job afterwards job_key job_alive tt

from_saved-to_saved_example :
    (from_saved (to_saved served.instance_) ≡ record served.instance_ {
      holds = (from_saved (to_saved served.instance_)).holds;
      sessions = [];
    })
    × (lookup "admin" (from_saved (to_saved served.instance_)).holds
        ≡ (if is_durable "admin" then lookup "admin" served.instance_.holds else none))
from_saved-to_saved_example = from_saved-to_saved served.instance_ "admin"

to_saved-from_saved_example :
    to_saved (from_saved (to_saved served.instance_))
    ≡ record (to_saved served.instance_) { active_session_count = 0 }
to_saved-from_saved_example = to_saved-from_saved served.instance_

restart_action-busy_example : restart_action env board operator served ≡ (
  err service_busy,
  record served {
    instance_ = record served.instance_ {
      admin_intent = false;
      holds = erase "admin" served.instance_.holds;
    };
  },
)
restart_action-busy_example =
    restart_action-busy env board operator served served-IsCovered (omega (arith, served-open.0))
