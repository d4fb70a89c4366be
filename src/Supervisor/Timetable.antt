-- ===== src/Supervisor/Timetable.antt =====
-- Schedules and the jobs of a tick, for the tests and the witnesses.
use ultimate_bbsbox.Prelude.{
  Option, ℕ, ◌+◌, String, true, false, ◌≡◌, refl, none, some, List, [], ◌∷◌, elem, arith,
}
use ultimate_bbsbox.Prelude.Chars.{digits, int_of, lower, strip_left, strip_right}
use ultimate_bbsbox.Prelude.Dict.{lookup}
use ultimate_bbsbox.Prelude.Exec.{ok, err}
use ultimate_bbsbox.Errors.{overflow_error, invalid_schedule, duplicate_job}
use ultimate_bbsbox.Registry.Models.{Job}
use ultimate_bbsbox.Supervisor.Instance.{fresh}
use ultimate_bbsbox.Supervisor.Cell.{Cell}
use ultimate_bbsbox.Supervisor.Scheduler.{
  every, daily, behind, interval_of, daily_of, parse_schedule, falls_due, is_due, validate_jobs,
}
use ultimate_bbsbox.Supervisor.Due.{note_jobs}
use ultimate_bbsbox.Supervisor.Scheduled.{FitsJob, is_due-noted, note_jobs-total}

-- two hours ahead
abbrev wall : ℕ → ℕ
wall t = t + 7200000000

abbrev backup : Job
backup = record {
  name = "backup";
  schedule = " Every 90 m";
  action = "backup";
  wake_if_stopped = none;
  shutdown_after = none;
}

abbrev nightly : Job
nightly = record backup { name = "nightly"; schedule = "daily at 3:15" }

read_backup : parse_schedule " Every 90 m" ≡ ok (every 5400000000)
unfolding parse_schedule interval_of daily_of behind digits int_of lower strip_left strip_right
read_backup = refl

read_nightly : parse_schedule "daily at 3:15" ≡ ok (daily 3 15)
unfolding parse_schedule interval_of daily_of behind digits int_of lower strip_left strip_right
read_nightly = refl

no_such_hour : parse_schedule "daily 24:00" ≡ err invalid_schedule
unfolding parse_schedule interval_of daily_of behind digits int_of lower strip_left strip_right
no_such_hour = refl

due_first : is_due wall " Every 90 m" 1000 none ≡ ok true
unfolding is_due falls_due parse_schedule interval_of daily_of behind digits int_of lower strip_left
    strip_right
due_first = refl

is_due-noted_example : is_due wall " Every 90 m" 5400000999 (some 1000) ≡ ok false
is_due-noted_example =
    is_due-noted wall " Every 90 m" (every 5400000000) 1000 5400000999 none read_backup due_first
      (omega arith, omega arith)

valid : validate_jobs wall 1000 [] (backup ∷ nightly ∷ []) ≡ ok tt
unfolding validate_jobs is_due falls_due parse_schedule interval_of daily_of behind digits int_of
    lower strip_left strip_right
valid = refl

twice : validate_jobs wall 1000 [] (backup ∷ backup ∷ []) ≡ err duplicate_job
unfolding validate_jobs is_due falls_due parse_schedule interval_of daily_of behind digits int_of
    lower strip_left strip_right
twice = refl

abbrev idle : Cell ℕ
idle = record {
  instance_ = fresh "mystic-main" "mystic-main:shared";
  saved = none;
  override = none;
  jobs_running = [];
  journal = [];
  world = 0;
}

fits-backup : FitsJob wall 200000000000 backup
unfolding parse_schedule interval_of daily_of behind digits int_of lower strip_left strip_right
fits-backup = refl

fits-nightly : FitsJob wall 200000000000 nightly
unfolding parse_schedule interval_of daily_of behind digits int_of lower strip_left strip_right
fits-nightly = refl

-- The end of the interval has no date.
overflows :
    is_due wall "every 3000000d" 200000000000000000 (some 190000000000000000) ≡ err overflow_error
unfolding is_due falls_due parse_schedule interval_of daily_of behind digits int_of lower strip_left
    strip_right
overflows = refl

none_is_not : {previous : ℕ} → ◌≡◌ {A = Option ℕ} none (some previous) → ⊥
none_is_not h = cc

note_jobs-total_example :
    (names : List String) × ((note_jobs wall 90000000000 (backup ∷ nightly ∷ []) idle).0 ≡ ok names)
    × ((n : String)
        → elem n names ≡ true
        → lookup n
            (note_jobs wall 90000000000 (backup ∷ nightly ∷ []) idle).1.instance_.schedule_last_run
          ≡ some 90000000000)
unfolding lookup
note_jobs-total_example =
    note_jobs-total wall 90000000000 200000000000 (backup ∷ nightly ∷ []) idle (omega arith)
      (λ n previous l. absurd (none_is_not l)) (fits-backup, (fits-nightly, tt))
