-- ===== src/Supervisor/Instance.antt =====
-- `scripts/ubb_supervisor/models.py`: the state of one service's instance, and what is kept of it
-- on disk. A timestamp is the instant that it stands for: `isoformat` and `fromisoformat` are
-- inverse to each other on the aware timestamps that the supervisor writes.
use ultimate_bbsbox.Prelude.{
  ℕ, ◌+◌, String, Bool, false, ◌||◌, Option, none, some, get_or, List, [], ◌∷◌, length, ◌==◌,
  if◌then◌else◌,
}
use ultimate_bbsbox.Prelude.Dict.{Dict, lookup}
use ultimate_bbsbox.Prelude.Exec.{Result}
use ultimate_bbsbox.Errors.{Error}
use ultimate_bbsbox.Supervisor.Lifecycle.{LifecycleState, stopped}

-- What a job left behind: when it ended, and the driver's report or the exception.
pub record JobResult : Type 0 where
  pub timestamp : ℕ
  pub outcome : Result Error String

pub record Instance : Type 0 where
  pub service_id : String
  pub instance_id : String
  pub state : LifecycleState
  pub holds : Dict ℕ
  pub sessions : Dict ℕ
  pub admin_intent : Bool
  pub idle_deadline : Option ℕ
  pub last_start_at : Option ℕ
  pub last_stop_at : Option ℕ
  pub last_failure : Option Error
  pub restart_times : List ℕ
  pub next_restart_at : Option ℕ
  pub restart_exhausted : Bool
  pub maintenance_results : Dict JobResult
  pub schedule_last_run : Dict ℕ
  pub runtime : Dict String

-- `InstanceState(service_id, f"{service_id}:shared")`, with the name already formatted
abbrev pub fresh : String → String → Instance
fresh service_id instance_id = record {
  service_id = service_id;
  instance_id = instance_id;
  state = stopped;
  holds = [];
  sessions = [];
  admin_intent = false;
  idle_deadline = none;
  last_start_at = none;
  last_stop_at = none;
  last_failure = none;
  restart_times = [];
  next_restart_at = none;
  restart_exhausted = false;
  maintenance_results = [];
  schedule_last_run = [];
  runtime = [];
}

-- `sum(self.holds.values())`
unfoldable pub sum_holds : Dict ℕ → ℕ
sum_holds [] = 0
sum_holds ((_, n) ∷ d) = n + sum_holds d

unfoldable pub active_holds : Instance → ℕ
unfolding sum_holds
active_holds i = sum_holds i.holds

-- `holds.get(reason, 0)`
unfoldable pub hold_count : String → Dict ℕ → ℕ
hold_count reason holds = get_or (lookup reason holds) 0

-- `key in ("admin", "always_on")`
unfoldable pub is_durable : String → Bool
is_durable k = k == "admin" || k == "always_on"

-- The dictionary comprehension of `to_dict` and `from_dict`.
unfoldable pub durable_holds : Dict ℕ → Dict ℕ
durable_holds [] = []
durable_holds ((k, n) ∷ d) =
    let rest = durable_holds d in if is_durable k then (k, n) ∷ rest else rest

-- The document that `to_dict(persist=True)` writes, and that `from_dict` reads back.
pub record Saved : Type 0 where
  pub service_id : String
  pub instance_id : String
  pub state : Option LifecycleState
  pub holds : Option (Dict ℕ)
  pub active_session_count : ℕ
  pub admin_intent : Option Bool
  pub idle_deadline : Option ℕ
  pub last_start_at : Option ℕ
  pub last_stop_at : Option ℕ
  pub last_failure : Option Error
  pub restart_times : Option (List ℕ)
  pub next_restart_at : Option ℕ
  pub restart_exhausted : Option Bool
  pub maintenance_results : Option (Dict JobResult)
  pub schedule_last_run : Option (Dict ℕ)
  pub runtime : Option (Dict String)

unfoldable pub to_saved : Instance → Saved
unfolding durable_holds
to_saved i = record {
  service_id = i.service_id;
  instance_id = i.instance_id;
  state = some i.state;
  holds = some (durable_holds i.holds);
  active_session_count = length i.sessions;
  admin_intent = some i.admin_intent;
  idle_deadline = i.idle_deadline;
  last_start_at = i.last_start_at;
  last_stop_at = i.last_stop_at;
  last_failure = i.last_failure;
  restart_times = some i.restart_times;
  next_restart_at = i.next_restart_at;
  restart_exhausted = some i.restart_exhausted;
  maintenance_results = some i.maintenance_results;
  schedule_last_run = some i.schedule_last_run;
  runtime = some i.runtime;
}

unfoldable pub from_saved : Saved → Instance
unfolding durable_holds
from_saved v = record {
  service_id = v.service_id;
  instance_id = v.instance_id;
  state = get_or v.state stopped;
  holds = durable_holds (get_or v.holds []);
  sessions = [];
  admin_intent = get_or v.admin_intent false;
  idle_deadline = v.idle_deadline;
  last_start_at = v.last_start_at;
  last_stop_at = v.last_stop_at;
  last_failure = v.last_failure;
  restart_times = get_or v.restart_times [];
  next_restart_at = v.next_restart_at;
  restart_exhausted = get_or v.restart_exhausted false;
  maintenance_results = get_or v.maintenance_results [];
  schedule_last_run = get_or v.schedule_last_run [];
  runtime = get_or v.runtime [];
}
