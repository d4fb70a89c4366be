-- ===== src/Supervisor/Scheduler.antt =====
-- `scripts/ubb_supervisor/scheduler.py`: the schedules of maintenance jobs. Times are in microseconds.
-- `wall`, an argument, is what the local wall clock shows at a time, counted from the beginning of the
-- year 1: the zone's offset at that time added to it. The zone's rules do not change between the
-- writing of a time and its reading. A schedule is an ASCII text.
use ultimate_bbsbox.Prelude.{
  ℕ, ◌+◌, ◌*◌, ◌/◌, String, Bool, true, false, not, ◌&&◌, ◌||◌, Option, none, some, List, [], ◌∷◌,
  elem, leb, ltb, length, codes, lower, is_digit, if◌then◌else◌,
}
use ultimate_bbsbox.Prelude.Exec.{Result, ok, err}
use ultimate_bbsbox.Prelude.Results.{◌>>=◌, ◌>>◌, check}
use ultimate_bbsbox.Errors.{Error, invalid_schedule, duplicate_job, overflow_error}
use ultimate_bbsbox.Registry.Models.{Job}
use ultimate_bbsbox.Prelude.Chars.{digits, int_of, is_space, is_code, strip_left, strip_right}

pub data Schedule : Type 0 where
  every : ℕ → Schedule
  daily : ℕ → ℕ → Schedule

-- what is left of a text behind a literal
unfoldable pub behind : List ℕ → List ℕ → Option (List ℕ)
behind [] cs = some cs
behind (p ∷ ps) [] = none
behind (p ∷ ps) (c ∷ cs) = if is_code p c then behind ps cs else none

abbrev starts_space : List ℕ → Bool
starts_space [] = false
starts_space (c ∷ _) = is_space c

-- `\s+`
abbrev pub spaces : List ℕ → Option (List ℕ)
spaces cs = if starts_space cs then some (strip_left cs) else none

abbrev pub microseconds : ℕ → Option ℕ
microseconds c =
    if is_code 109 c
    then some 60000000
    else (if is_code 104 c
        then some 3600000000
        else (if is_code 100 c then some 86400000000 else none))

abbrev unit_of : List ℕ → Option ℕ
unit_of (c ∷ []) = microseconds c
unit_of _ = none

abbrev times : Option ℕ → ℕ → Option (ℕ × ℕ)
times none count = none
times (some unit) count = some (count, unit)

abbrev counted : List ℕ × List ℕ → Option (ℕ × ℕ)
counted ([], rest) = none
counted (d ∷ ds, rest) = times (unit_of (strip_left rest)) (int_of 0 (d ∷ ds))

abbrev pub then_spaces : Option (List ℕ) → Option (List ℕ)
then_spaces none = none
then_spaces (some cs) = spaces cs

abbrev read_interval : Option (List ℕ) → Option (ℕ × ℕ)
read_interval none = none
read_interval (some cs) = counted (digits cs)

-- `^every\s+(\d+)\s*([mhd])$`: the count and the unit
unfoldable pub interval_of : List ℕ → Option (ℕ × ℕ)
interval_of cs = read_interval (then_spaces (behind (codes "every") cs))

-- `(?:\s+at)?`
abbrev without_at : List ℕ → List ℕ
without_at cs = at_end (then_at (spaces cs)) cs
  where
    then_at : Option (List ℕ) → Option (List ℕ)
    then_at none = none
    then_at (some ds) = behind (codes "at") ds

    at_end : Option (List ℕ) → List ℕ → List ℕ
    at_end none cs = cs
    at_end (some ds) cs = ds

abbrev pub minute_of : ℕ → List ℕ → Option (ℕ × ℕ)
minute_of hour (a ∷ b ∷ []) =
    if is_digit a && is_digit b then some (hour, int_of 0 (a ∷ b ∷ [])) else none
minute_of hour _ = none

abbrev pub clock_of : List ℕ × List ℕ → Option (ℕ × ℕ)
clock_of ([], rest) = none
clock_of (d ∷ ds, []) = none
clock_of (d ∷ ds, c ∷ rest) =
    if leb (length ds) 1 && is_code 58 c then minute_of (int_of 0 (d ∷ ds)) rest else none

abbrev read_daily : Option (List ℕ) → Option (ℕ × ℕ)
read_daily none = none
read_daily (some cs) = clock_of (digits cs)

abbrev daily_behind : Option (List ℕ) → Option (ℕ × ℕ)
daily_behind none = none
daily_behind (some cs) = read_daily (spaces (without_at cs))

-- `^daily(?:\s+at)?\s+(\d{1,2}):(\d{2})$`: the hour and the minute
unfoldable pub daily_of : List ℕ → Option (ℕ × ℕ)
daily_of cs = daily_behind (behind (codes "daily") cs)

abbrev as_daily : Option (ℕ × ℕ) → Result Error Schedule
as_daily none = err invalid_schedule
as_daily (some (hour, minute)) =
    if ltb 23 hour || ltb 59 minute then err invalid_schedule else ok (daily hour minute)

abbrev as_schedule : Option (ℕ × ℕ) → List ℕ → Result Error Schedule
as_schedule none cs = as_daily (daily_of cs)
as_schedule (some (count, unit)) cs =
    if ltb count 1 then err invalid_schedule else ok (every (count * unit))

-- What the two patterns of `is_due` read.
unfoldable pub parse_schedule : String → Result Error Schedule
parse_schedule text =
    let cs = strip_right (strip_left (codes (lower text))) in as_schedule (interval_of cs) cs

-- the last microsecond of the year 9999, `datetime.max`
abbrev pub last_moment : ℕ
last_moment = 315537897599999999

-- `now.replace(hour=hour, minute=minute, second=0, microsecond=0)`, on the wall clock: it keeps the
-- offset of `now`
abbrev pub scheduled_at : (ℕ → ℕ) → ℕ → ℕ → ℕ → ℕ
scheduled_at wall hour minute now =
    wall now / 86400000000 * 86400000000 + hour * 3600000000 + minute * 60000000

-- `previous is None or now >= previous + dt.timedelta(seconds=seconds)`
abbrev pub passed_since : (ℕ → ℕ) → ℕ → ℕ → Option ℕ → Result Error Bool
passed_since wall interval now none = ok true
passed_since wall interval now (some previous) =
    if ltb last_moment (wall previous + interval)
    then err overflow_error
    else ok (leb (previous + interval) now)

-- `previous is None or previous < scheduled`, where `scheduled` has the offset of `now`
abbrev pub was_before : (ℕ → ℕ) → ℕ → ℕ → Option ℕ → Bool
was_before wall scheduled now none = true
was_before wall scheduled now (some previous) = ltb (previous + wall now) (scheduled + now)

unfoldable pub falls_due : (ℕ → ℕ) → Schedule → ℕ → Option ℕ → Result Error Bool
falls_due wall (every interval) now last = passed_since wall interval now last
falls_due wall (daily hour minute) now last =
    let scheduled = scheduled_at wall hour minute now in
    ok (leb scheduled (wall now) && was_before wall scheduled now last)

unfoldable pub is_due : (ℕ → ℕ) → String → ℕ → Option ℕ → Result Error Bool
is_due wall text now last = parse_schedule text >>= λ s. falls_due wall s now last

-- `_validate_jobs` of supervisor.py, of one service: each job is asked at the time itself.
unfoldable pub validate_jobs : (ℕ → ℕ) → ℕ → List String → List Job → Result Error (Unit {0})
validate_jobs wall time names [] = ok tt
validate_jobs wall time names (j ∷ js) = do
  check (not (elem j.name names)) duplicate_job
  is_due wall j.schedule time (some time)
  validate_jobs wall time (j.name ∷ names) js
