-- ===== src/Admin/Actions.antt =====
-- `AdminActionService` of `scripts/ubb_admin/actions.py`, as far as it reaches the supervisor.
use ultimate_bbsbox.Prelude.{ℕ, ◌<◌, String, false, ◌≡◌, refl, ltb, length}
use ultimate_bbsbox.Prelude.Dict.{erase}
use ultimate_bbsbox.Prelude.Exec.{Result, err, raise_if, ◌>>=◌, ◌>>◌}
use ultimate_bbsbox.Errors.{Error, permission_error, service_busy}
use ultimate_bbsbox.Registry.Models.{Service}
use ultimate_bbsbox.Supervisor.Cell.{Env, Cell, Op}
use ultimate_bbsbox.Supervisor.Methods.{admin_stop, start, stop}
use ultimate_bbsbox.Supervisor.Maintenance.{run_maintenance}
use ultimate_bbsbox.Supervisor.Sessions.{IsCovered, stop-busy}
use ultimate_bbsbox.Admin.Accounts.{Role, viewer, operator, administrator}

abbrev pub rank : Role → ℕ
rank viewer = 0
rank operator = 1
rank administrator = 2

module _ {W : Type 0} where
  -- `_p`
  unfoldable pub permit : Role → Role → Op W (Unit {0})
  permit role needed = raise_if (ltb (rank role) (rank needed)) permission_error

  module _ (env : Env W) (s : Service) where
    unfoldable pub start_action : Role → Op W (Unit {0})
    start_action role = do permit role operator; start env s "admin"

    unfoldable pub stop_action : Role → Op W (Unit {0})
    stop_action role = do permit role operator; stop env s false "admin"

    unfoldable pub restart_action : Role → Op W (Unit {0})
    restart_action role = do permit role operator; stop env s false "admin"; start env s "admin"

    unfoldable pub maintenance_action : Op W (Unit {0}) → String → Role → Op W String
    maintenance_action between job role = do permit role operator; run_maintenance env s between job

    -- What a refused restart does, by role: a viewer may not restart, and changes nothing; an operator
    -- or an administrator withdraws the standing intent of the administrator and its hold.
    abbrev pub refused_restart : Role → Cell W → Result Error (Unit {0}) × Cell W
    refused_restart viewer c = (err permission_error, c)
    refused_restart _ c = (
      err service_busy,
      record c {
        instance_ = record c.instance_ {
          admin_intent = false;
          holds = erase "admin" c.instance_.holds;
        };
      },
    )

    -- While a session is open, an operator's or administrator's restart is refused with
    -- ServiceBusyError before anything is stopped or started, but the standing intent of the
    -- administrator and its hold are withdrawn all the same; a viewer's is refused with
    -- PermissionError and withdraws nothing.
    pub restart_action-busy :
        (role : Role) (c : Cell W)
        → IsCovered c
        → 0 < length c.instance_.sessions
        → restart_action role c ≡ refused_restart role c
    unfolding restart_action permit admin_stop ◌>>=◌
    restart_action-busy viewer c h open_ = refl
    restart_action-busy operator c h open_ = rw (stop-busy env s "admin" c h open_) refl
    restart_action-busy administrator c h open_ = rw (stop-busy env s "admin" c h open_) refl
