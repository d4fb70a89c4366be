-- ===== src/Supervisor/Fake.antt =====
-- The test doubles of `scripts/ubb_supervisor/clock.py` and `drivers.py`: a clock that moves when it
-- is told to, and a driver that remembers which instances are alive. The events of the driver that
-- only synchronise test threads are left out.
use ultimate_bbsbox.Prelude.{
  ℕ, ◌+◌, ◌-◌, String, Bool, ◌&&◌, List, [], ◌∷◌, ◌++◌, elem, discard, ltb, if◌then◌else◌,
}
use ultimate_bbsbox.Prelude.Exec.{ok, err}
use ultimate_bbsbox.Errors.{driver_error}
use ultimate_bbsbox.Registry.Models.{Job, Readiness}
use ultimate_bbsbox.Registry.Queries.{Registry, Resolution}
use ultimate_bbsbox.Supervisor.Instance.{Instance}
use ultimate_bbsbox.Supervisor.Cell.{Act, Driver, Env}

pub record FakeClock : Type 0 where
  pub current : ℕ
  pub elapsed : ℕ

unfoldable pub advance : ℕ → FakeClock → FakeClock
advance n c = record { current = c.current + n; elapsed = c.elapsed + n }

pub record FakeDriver : Type 0 where
  pub alive : List String
  pub start_calls : ℕ
  pub stop_calls : ℕ
  pub maintenance_calls : List String
  pub start_failures : ℕ
  pub ready_after_checks : ℕ
  pub readiness_checks : ℕ

-- The world of a test, with the ids that are still to be handed out.
pub record World : Type 0 where
  pub clock : FakeClock
  pub driver : FakeDriver
  pub ids : List String

unfoldable pub fake_start : Instance → Resolution → Act World (Unit {0})
fake_start i r (runtime, w) =
    let called = record w.driver { start_calls = w.driver.start_calls + 1 } in
    if ltb 0 w.driver.start_failures
    then (
      err (driver_error "injected start failure"),
      (
        runtime,
        record w { driver = record called { start_failures = w.driver.start_failures - 1 } },
      ),
    )
    else (
      ok tt,
      (
        runtime,
        record w {
          driver = record called {
            alive =
                if elem i.instance_id w.driver.alive
                then w.driver.alive
                else i.instance_id ∷ w.driver.alive;
          };
        },
      ),
    )

unfoldable pub fake_stop : Instance → Resolution → Act World (Unit {0})
fake_stop i r (runtime, w) = (
  ok tt,
  (
    runtime,
    record w {
      driver = record w.driver {
        stop_calls = w.driver.stop_calls + 1;
        alive = discard i.instance_id w.driver.alive;
      };
    },
  ),
)

unfoldable pub fake_status : Instance → Resolution → Act World Bool
fake_status i r (runtime, w) = (ok (elem i.instance_id w.driver.alive), (runtime, w))

unfoldable pub fake_is_ready : Instance → Resolution → Readiness → Act World Bool
fake_is_ready i r q (runtime, w) =
    let d = record w.driver { readiness_checks = w.driver.readiness_checks + 1 } in
    (
      ok (elem i.instance_id d.alive && ltb d.ready_after_checks d.readiness_checks),
      (runtime, record w { driver = d }),
    )

unfoldable pub fake_run_maintenance : Instance → Resolution → Job → Act World String
fake_run_maintenance i r job (runtime, w) = (
  ok job.action,
  (
    runtime,
    record w {
      driver = record w.driver { maintenance_calls = w.driver.maintenance_calls ++ job.name ∷ [] };
    },
  ),
)

unfoldable pub fake_driver : Driver World
unfolding fake_start fake_stop fake_status fake_is_ready fake_run_maintenance
fake_driver = record {
  start = fake_start;
  stop = fake_stop;
  status = fake_status;
  is_ready = fake_is_ready;
  run_maintenance = fake_run_maintenance;
}

unfoldable pub next_id : World → String × World
next_id w = elim w.ids [ [] ↦ ("", w) | id ∷ rest ↦ (id, record w { ids = rest }) ]

-- The supervisor of the tests over a registry.
unfoldable pub fake_env : Registry → Env World
unfolding fake_driver next_id advance
fake_env registry = record {
  registry = registry;
  now = λ w. w.clock.current;
  monotonic = λ w. w.clock.elapsed;
  sleep = λ n w. record w { clock = advance n w.clock };
  new_id = next_id;
  driver_for = λ s. ok fake_driver;
  poll_interval = 100000;
  stack_depth = 100;
}
