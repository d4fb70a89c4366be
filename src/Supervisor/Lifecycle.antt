-- ===== src/Supervisor/Lifecycle.antt =====
-- `scripts/ubb_supervisor/state_machine.py`: the lifecycle states and their transition graph.
use ultimate_bbsbox.Prelude.{Bool, true, false}

pub data LifecycleState : Type 0 where
  stopped starting ready running maintenance stopping failed : LifecycleState

-- `new in TRANSITIONS[old]`
abbrev pub allowed : LifecycleState → LifecycleState → Bool
allowed stopped starting = true
allowed starting ready = true
allowed starting failed = true
allowed ready running = true
allowed ready maintenance = true
allowed ready stopping = true
allowed ready failed = true
allowed running maintenance = true
allowed running stopping = true
allowed running failed = true
allowed maintenance running = true
allowed maintenance stopping = true
allowed maintenance failed = true
allowed stopping stopped = true
allowed stopping failed = true
allowed failed starting = true
allowed failed stopped = true
allowed _ _ = false

-- `state in ACTIVE_STATES`
abbrev pub is_active : LifecycleState → Bool
is_active ready = true
is_active running = true
is_active maintenance = true
is_active _ = false

abbrev pub is_stopped : LifecycleState → Bool
is_stopped stopped = true
is_stopped _ = false

abbrev pub is_failed : LifecycleState → Bool
is_failed failed = true
is_failed _ = false

abbrev pub is_running : LifecycleState → Bool
is_running running = true
is_running _ = false

-- `state in (STARTING, STOPPING)`
abbrev pub is_changing : LifecycleState → Bool
is_changing starting = true
is_changing stopping = true
is_changing _ = false
