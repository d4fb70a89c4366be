-- ===== src/Supervisor/Patience.antt =====
-- A wait of the test doubles, for the witness.
use ultimate_bbsbox.Prelude.{ℕ, ◌+◌, ◌≤◌, String, none, [], arith}
use ultimate_bbsbox.Prelude.Dict.{Dict}
use ultimate_bbsbox.Registry.Models.{Location, process_alive}
use ultimate_bbsbox.Registry.Queries.{Resolution}
use ultimate_bbsbox.Registry.Samples.{board, registry}
use ultimate_bbsbox.Supervisor.Instance.{Instance, fresh}
use ultimate_bbsbox.Supervisor.Cell.{Cell}
use ultimate_bbsbox.Supervisor.Run.{await_ready}
use ultimate_bbsbox.Supervisor.Fake.{World, fake_driver, fake_env, fake_is_ready, advance}
use ultimate_bbsbox.Supervisor.Waiting.{Waited, await_ready-Waited}

abbrev resolution : Resolution
resolution = record {
  service = board;
  endpoint = record {
    id = "mystic-tcp";
    kind = "tcp";
    host = none;
    connect_timeout = none;
    location = Location.remote;
  };
  integration = none;
}

abbrev asleep : Cell World
asleep = record {
  instance_ = fresh "mystic-main" "mystic-main:shared";
  saved = none;
  override = none;
  jobs_running = [];
  journal = [];
  world = record {
    clock = record { current = 1000; elapsed = 7 };
    driver = record {
      alive = [];
      start_calls = 0;
      stop_calls = 0;
      maintenance_calls = [];
      start_failures = 0;
      ready_after_checks = 2;
      readiness_checks = 0;
    };
    ids = [];
  };
}

sleeps :
    (n : ℕ) (w : World)
    → (fake_env registry).monotonic w + n
      ≤ (fake_env registry).monotonic ((fake_env registry).sleep n w)
unfolding fake_env advance
sleeps n w = omega arith

asks :
    (i : Instance) (runtime : Dict String) (w : World)
    → (fake_env registry).monotonic w
      ≤ (fake_env registry).monotonic
          (fake_driver.is_ready i resolution process_alive (runtime, w)).1.1
unfolding fake_env fake_driver fake_is_ready
asks i runtime w = omega arith

pace : 1 ≤ (fake_env registry).poll_interval
unfolding fake_env
pace = omega arith

enough : 500 + 1 ≤ (fake_env registry).monotonic asleep.world + 600
unfolding fake_env
enough = omega arith

await_ready-Waited_example :
    Waited
      (fake_env registry)
      board
      fake_driver
      resolution
      process_alive
      500
      (await_ready (fake_env registry) board 600 fake_driver resolution process_alive 500 asleep).0
await_ready-Waited_example =
    await_ready-Waited (fake_env registry) board fake_driver resolution process_alive 500 pace
      sleeps asks 600 asleep enough (omega arith)
