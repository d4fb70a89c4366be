-- ===== src/Supervisor/Cell.antt =====
-- The surroundings of an operation (clock, drivers, registry) and the small steps that all the
-- operations of `scripts/ubb_supervisor/supervisor.py` are made of.
use ultimate_bbsbox.Prelude.{
  ℕ, ◌+◌, ◌-◌, String, Bool, Option, none, some, get_or, List, [], ◌∷◌, ◌++◌, leb, if◌then◌else◌,
}
use ultimate_bbsbox.Prelude.Dict.{Dict, insert, erase}
use ultimate_bbsbox.Prelude.Exec.{Result, ok, err, Exec, lift, gets, modify, ◌>>◌}
use ultimate_bbsbox.Errors.{Error, invalid_transition}
use ultimate_bbsbox.Registry.Models.{Mode, Lifecycle, Readiness, Job, Service}
use ultimate_bbsbox.Registry.Queries.{Registry, Resolution, resolve}
use ultimate_bbsbox.Supervisor.Lifecycle.{LifecycleState, allowed}
use ultimate_bbsbox.Supervisor.Instance.{Instance, Saved, hold_count, to_saved}

-- The world outside the program: the clock and everything that a driver touches, of type `W`.
-- A driver may also write the instance's `runtime` dictionary.
abbrev pub Act : Type 0 → Type 0 → Type 0
Act W A = Exec (Dict String × W) Error A

pub record Driver (W : Type 0) : Type 0 where
  pub start : Instance → Resolution → Act W (Unit {0})
  pub stop : Instance → Resolution → Act W (Unit {0})
  pub status : Instance → Resolution → Act W Bool
  pub is_ready : Instance → Resolution → Readiness → Act W Bool
  pub run_maintenance : Instance → Resolution → Job → Act W String

pub record Env (W : Type 0) : Type 0 where
  pub registry : Registry
  pub now : W → ℕ
  pub monotonic : W → ℕ
  pub sleep : ℕ → W → W
  pub new_id : W → String × W
  pub driver_for : Service → Result Error (Driver W)
  pub poll_interval : ℕ
  pub stack_depth : ℕ

-- A line of `events.jsonl`.
pub record Event : Type 0 where
  pub service : String
  pub old_state : LifecycleState
  pub new_state : LifecycleState
  pub timestamp : ℕ
  pub reason : String
  pub instance_id : String
  pub error : Option Error

pub record Cell (W : Type 0) : Type 0 where
  pub instance_ : Instance
  -- the file `instances/<id>.json`
  pub saved : Option Saved
  -- the entry of `lifecycle_overrides`
  pub override : Option Mode
  -- the names of this service's keys in `_jobs_running`
  pub jobs_running : List String
  pub journal : List Event
  pub world : W

abbrev pub Op : Type 0 → Type 0 → Type 0
Op W A = Exec (Cell W) Error A

unfoldable pub hold_added : String → Instance → Instance
unfolding hold_count
hold_added reason i = record i {
  holds = insert reason (hold_count reason i.holds + 1) i.holds;
  idle_deadline = none;
}

unfoldable pub hold_removed : String → Instance → Instance
unfolding hold_count
hold_removed reason i =
    let count = hold_count reason i.holds in
    record i {
      holds = if leb count 1 then erase reason i.holds else insert reason (count - 1) i.holds;
    }

module _ {W : Type 0} where
  abbrev pub on_instance : (Instance → Instance) → Cell W → Cell W
  on_instance f c = record c { instance_ = f c.instance_ }

  unfoldable pub update : (Instance → Instance) → Op W (Unit {0})
  update f = modify (on_instance f)

  -- `self._persist(instance)`
  unfoldable pub persist : Op W (Unit {0})
  unfolding to_saved
  persist = modify (λ c. record c { saved = some (to_saved c.instance_) })

  -- A driver's method: it reads the instance, and writes the world and the `runtime` dictionary.
  unfoldable pub drive : {A : Type 0} → (Instance → Act W A) → Op W A
  drive call c =
      let (r, rest) = call c.instance_ (c.instance_.runtime, c.world) in
      let (runtime, world) = rest in
      (r, record c { instance_ = record c.instance_ { runtime = runtime }; world = world })

  module _ (env : Env W) where
    unfoldable pub now : Op W ℕ
    now = gets (λ c. env.now c.world)

    unfoldable pub monotonic : Op W ℕ
    monotonic = gets (λ c. env.monotonic c.world)

    unfoldable pub sleep : ℕ → Op W (Unit {0})
    sleep n = modify (λ c. record c { world = env.sleep n c.world })

    unfoldable pub enter : LifecycleState → String → Option Error → Cell W → Cell W
    unfolding to_saved
    enter new reason error c =
        let i = record c.instance_ { state = new } in
        record c {
          instance_ = i;
          journal =
              c.journal
              ++ record {
                service = i.service_id;
                old_state = c.instance_.state;
                new_state = new;
                timestamp = env.now c.world;
                reason = reason;
                instance_id = i.instance_id;
                error = error;
              }
                ∷ [];
          saved = some (to_saved i);
        }

    -- `_transition`: validate, change the state, journal the event, persist.
    unfoldable pub transition : LifecycleState → String → Option Error → Op W (Unit {0})
    unfolding enter
    transition new reason error c =
        if allowed c.instance_.state new
        then (ok tt, enter new reason error c)
        else (err invalid_transition, c)

    unfoldable pub declaration : Service → Op W Resolution
    declaration s = lift (resolve env.registry s.id)

    unfoldable pub driver : Service → Op W (Driver W)
    driver s = lift (env.driver_for s)

  -- `_lifecycle`: the declared lifecycle with the overridden mode
  unfoldable pub lifecycle : Service → Op W Lifecycle
  lifecycle s = gets (λ c. record s.lifecycle { mode = get_or c.override s.lifecycle.mode })

  unfoldable pub add_hold : String → Op W (Unit {0})
  add_hold reason = do update (hold_added reason); persist

  unfoldable pub remove_hold : String → Op W (Unit {0})
  remove_hold reason = do update (hold_removed reason); persist
