-- ===== src/Supervisor/Scheduled.antt =====
-- `scripts/ubb_supervisor/scheduler.py` and the jobs of `tick`.
use ultimate_bbsbox.Prelude.{
  ℕ, ◌+◌, ◌<◌, ◌≤◌, ◌/◌, ltb, leb, String, Bool, true, false, ◌&&◌, none, ◌≡◌, refl, Option, some,
  List, [], ◌∷◌, elem, arith, ◌==◌, eq_iff, Bool-cases, inl, inr,
}
use ultimate_bbsbox.Prelude.Dict.{lookup, lookup-insert}
use ultimate_bbsbox.Prelude.Every.{Every}
use ultimate_bbsbox.Prelude.Exec.{Result, ok, err, pure, lift, gets, modify, when, ◌>>=◌}
use ultimate_bbsbox.Errors.{Error}
use ultimate_bbsbox.Registry.Models.{Job}
use ultimate_bbsbox.Supervisor.Cell.{Cell, update, persist}
use ultimate_bbsbox.Supervisor.Scheduler.{
  Schedule, every, daily, last_moment, scheduled_at, was_before, falls_due, parse_schedule, is_due,
}
use ultimate_bbsbox.Supervisor.Due.{unless_running, listed_if, scheduled_run, note_run, note_jobs}

module _ (wall : ℕ → ℕ) where
  -- A later time of the period that began at `now`: before the interval is over, where its end has a
  -- date; or at the same offset, on the same day of the wall clock.
  abbrev pub IsSamePeriod : Schedule → ℕ → ℕ → Type 0
  IsSamePeriod (every interval) now later =
      (later < now + interval) × (wall now + interval ≤ last_moment)
  IsSamePeriod (daily hour minute) now later =
      (wall later + now ≡ wall now + later) × (wall later / 86400000000 ≡ wall now / 86400000000)

  not_due :
      (s : Schedule) (now later : ℕ) (last : Option ℕ)
      → falls_due wall s now last ≡ ok true
      → IsSamePeriod s now later
      → falls_due wall s later (some now) ≡ ok false
  unfolding falls_due
  not_due (every interval) now later last due (before, dated) =
      let fits : ltb last_moment (wall now + interval) ≡ false = ground arith in
      let early : leb (now + interval) later ≡ false = ground arith in rw (fits, early) refl
  not_due (daily hour minute) now later last due (offset, day) =
      let reached : (leb (scheduled_at wall hour minute now) (wall now)
            && was_before wall (scheduled_at wall hour minute now) now last)
          ≡ true =
        cc in
      let begun : leb (scheduled_at wall hour minute now) (wall now) ≡ true = ground arith in
      let ran : ltb (now + wall later) (scheduled_at wall hour minute now + later) ≡ false =
        ground (arith, begun, offset) in
      rw (day, ran) (ground arith)

  -- A job that was due, and whose run was noted then, is not due again in the same period: before its
  -- interval is over, if that ends by the year 9999; or, for a daily job, at a later or earlier time
  -- of the same day by the wall clock, as long as the zone's offset is the same.
  pub is_due-noted :
      (text : String) (s : Schedule) (now later : ℕ) (last : Option ℕ)
      → parse_schedule text ≡ ok s
      → is_due wall text now last ≡ ok true
      → IsSamePeriod s now later
      → is_due wall text later (some now) ≡ ok false
  unfolding is_due
  is_due-noted text s now later last read due same =
      let answer : falls_due wall s now last ≡ ok true = rw read at due in
      rw (read, not_due s now later last answer same) refl

  -- A schedule that can be added to every time up to `latest` on the wall clock.
  abbrev pub fits : ℕ → Result Error Schedule → Bool
  fits latest (ok (every interval)) = leb (latest + interval) last_moment
  fits latest (ok (daily hour minute)) = true
  fits latest (err e) = false

  answered :
      (latest time : ℕ) (text : String) (r : Result Error Schedule) (last : Option ℕ)
      → parse_schedule text ≡ r
      → fits latest r ≡ true
      → ((previous : ℕ) → last ≡ some previous → wall previous ≤ latest)
      → (b : Bool) × (is_due wall text time last ≡ ok b)
  unfolding is_due falls_due
  answered latest time text (err e) last read f p = cc
  answered latest time text (ok (daily hour minute)) last read f p = (
    leb (scheduled_at wall hour minute time) (wall time)
        && was_before wall (scheduled_at wall hour minute time) time last,
    rw read refl,
  )
  answered latest time text (ok (every interval)) none read f p = (true, rw read refl)
  answered latest time text (ok (every interval)) (some previous) read f p =
      let dated : ltb last_moment (wall previous + interval) ≡ false =
        ground (arith, f, p previous refl) in
      (leb (previous + interval) time, rw (read, dated) refl)

  abbrev pub FitsJob : ℕ → Job → Type 0
  FitsJob latest j = fits latest (parse_schedule j.schedule) ≡ true

  answer_of :
      (latest : ℕ) (running : Bool) (j : Job) (time : ℕ) (last : Option ℕ)
      → FitsJob latest j
      → ((previous : ℕ) → last ≡ some previous → wall previous ≤ latest)
      → (b : Bool) × (unless_running running (is_due wall j.schedule time last) ≡ ok b)
  answer_of latest true j time last f p = (false, refl)
  answer_of latest false j time last f p = answered latest time j.schedule _ last refl f p

  module _ {W : Type 0} (time latest : ℕ) where
    -- No job has run later than `latest` by the wall clock.
    abbrev IsBounded : Cell W → Type 0
    IsBounded c =
        (n : String) (previous : ℕ)
        → lookup n c.instance_.schedule_last_run ≡ some previous
        → wall previous ≤ latest

    note_run-IsBounded :
        (b : Bool) (name : String) (c : Cell W)
        → wall time ≤ latest
        → IsBounded c
        → IsBounded (note_run time b name c).1
    unfolding note_run update persist scheduled_run modify when ◌>>=◌
    note_run-IsBounded false name c t h n previous l = h n previous l
    note_run-IsBounded true name c t h n previous l = elim (Bool-cases (name == n)) [
      | inl same ↦
          let own : some time ≡ some previous =
            rw (lookup-insert name n time c.instance_.schedule_last_run, same) at l in
          let it : time ≡ previous = cc in rw it at t
      | inr other ↦
          h n previous (rw (lookup-insert name n time c.instance_.schedule_last_run, other) at l)
    ]

    abbrev HasRun : String → Cell W → Type 0
    HasRun name c = lookup name c.instance_.schedule_last_run ≡ some time

    note_run-ok : (b : Bool) (name : String) (c : Cell W) → (note_run time b name c).0 ≡ ok tt
    unfolding note_run update persist modify when ◌>>=◌
    note_run-ok true name c = refl
    note_run-ok false name c = refl

    note_run-kept :
        (b : Bool) (n name : String) (c : Cell W) → HasRun n c → HasRun n (note_run time b name c).1
    unfolding note_run update persist scheduled_run modify when ◌>>=◌
    note_run-kept true n name c h =
        ground (arith, lookup-insert name n time c.instance_.schedule_last_run, eq_iff name n)
    note_run-kept false n name c h = h

    note_run-noted :
        (name n : String) (c : Cell W) → (name == n) ≡ true → HasRun n (note_run time true name c).1
    unfolding note_run update persist scheduled_run modify when ◌>>=◌
    note_run-noted name n c same =
        rw (lookup-insert name n time c.instance_.schedule_last_run, same) refl

    record Noted (js : List Job) (c : Cell W) : Type 0 where
      names : List String
      returned : (note_jobs wall time js c).0 ≡ ok names
      listed : (n : String) → elem n names ≡ true → HasRun n (note_jobs wall time js c).1
      kept : (n : String) → HasRun n c → HasRun n (note_jobs wall time js c).1

    note_jobs-step :
        (j : Job) (js : List Job) (c : Cell W) (b : Bool) (names : List String)
        → unless_running
            (elem j.name c.jobs_running)
            (is_due wall j.schedule time (lookup j.name c.instance_.schedule_last_run))
          ≡ ok b
        → (note_jobs wall time js (note_run time b j.name c).1).0 ≡ ok names
        → note_jobs wall time (j ∷ js) c
          ≡ (ok (listed_if b j.name names), (note_jobs wall time js (note_run time b j.name c).1).1)
    unfolding note_jobs gets lift pure ◌>>=◌
    note_jobs-step j js c b names answer rest = rw (answer, note_run-ok b j.name c, rest) refl

    listed_now :
        (j : Job) (js : List Job) (c : Cell W) (b : Bool)
        (rest : Noted js (note_run time b j.name c).1) (n : String)
        → elem n (listed_if b j.name rest.names) ≡ true
        → HasRun n (note_jobs wall time js (note_run time b j.name c).1).1
    listed_now j js c false rest n m = rest.listed n m
    listed_now j js c true rest n m = elim (Bool-cases (j.name == n)) [
      | inl same ↦ rest.kept n (note_run-noted j.name n c same)
      | inr other ↦ rest.listed n (ground arith)
    ]

    step_Noted :
        (j : Job) (js : List Job) (c : Cell W) (b : Bool)
        → unless_running
            (elem j.name c.jobs_running)
            (is_due wall j.schedule time (lookup j.name c.instance_.schedule_last_run))
          ≡ ok b
        → Noted js (note_run time b j.name c).1
        → Noted (j ∷ js) c
    step_Noted j js c b answer rest =
        let step = note_jobs-step j js c b rest.names answer rest.returned in
        record {
          names = listed_if b j.name rest.names;
          returned = rw step refl;
          listed = λ n m. rw step (listed_now j js c b rest n m);
          kept = λ n h. rw step (rest.kept n (note_run-kept b n j.name c h));
        }

    noting :
        (js : List Job) (c : Cell W)
        → wall time ≤ latest
        → IsBounded c
        → Every (FitsJob latest) js
        → Noted js c
    unfolding note_jobs pure
    noting [] c t h f = record { names = []; returned = refl; listed = λ n m. cc; kept = λ n h. h }
    noting (j ∷ js) c t h f =
        let (b, answer) =
          answer_of latest (elem j.name c.jobs_running) j time
            (lookup j.name c.instance_.schedule_last_run) f.0 (h j.name) in
        step_Noted j js c b answer
          (noting js (note_run time b j.name c).1 t (note_run-IsBounded b j.name c t h) f.1)

    -- The loop of `tick` over the jobs of a service returns, and every job that it lists has this time
    -- as its last run: if every schedule is one that `is_due` reads, neither this time nor any recorded
    -- run is later than `latest` by the wall clock, and every interval added to that still ends by the
    -- year 9999.
    pub note_jobs-total :
        (js : List Job) (c : Cell W)
        → wall time ≤ latest
        → ((n : String) (previous : ℕ)
            → lookup n c.instance_.schedule_last_run ≡ some previous
            → wall previous ≤ latest)
        → Every (FitsJob latest) js
        → (names : List String) × ((note_jobs wall time js c).0 ≡ ok names)
          × ((n : String)
              → elem n names ≡ true
              → lookup n (note_jobs wall time js c).1.instance_.schedule_last_run ≡ some time)
    note_jobs-total js c t h f = let n = noting js c t h f in (n.names, n.returned, n.listed)
