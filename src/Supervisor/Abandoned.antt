-- ===== src/Supervisor/Abandoned.antt =====
-- `run_maintenance` of `scripts/ubb_supervisor/supervisor.py`: a job whose service is reconciled while
-- its driver runs.
use ultimate_bbsbox.Prelude.{
  ℕ, String, Bool, true, false, ◌≡◌, elem, arith, none, List, [], ◌∷◌, ◌==◌, eq_iff, Bool-cases,
  inl, inr, discard,
}
use ultimate_bbsbox.Prelude.Exec.{
  Result, ok, err, Keeps, Keeps-modify, Keeps-bind, keeps_rules, pure, ◌>>=◌,
}
use ultimate_bbsbox.Errors.{Error, invalid_transition, service_busy}
use ultimate_bbsbox.Registry.Models.{Service, Job}
use ultimate_bbsbox.Supervisor.Lifecycle.{running}
use ultimate_bbsbox.Supervisor.Instance.{Instance}
use ultimate_bbsbox.Supervisor.Cell.{
  Env, Cell, update, persist, drive, sleep, transition, now, remove_hold, hold_removed,
}
use ultimate_bbsbox.Supervisor.Run.{ensure, schedule_idle}
use ultimate_bbsbox.Supervisor.Methods.{
  let_go, session_opened, session_dropped, open_hold, close_hold, fresh_id, occupy, acquire_session,
  release_session, reconcile,
}
use ultimate_bbsbox.Supervisor.Maintenance.{
  mark_job, unmark_job, job_recorded, job_settled, maintenance_begin, maintenance_record,
  maintenance_finish,
}
use ultimate_bbsbox.Supervisor.Local.{
  IsLocal, local_rules, transition_local, ensure-local, add_hold-local, persist_local,
  schedule_idle-local,
}
use ultimate_bbsbox.Supervisor.Invariants.{
  start-local, stop-local, notify_failure-local, reconcile-local, tick_service-local,
  maintenance_begin-keeps, maintenance_run-keeps, maintenance_finish-keeps,
}
use ultimate_bbsbox.Supervisor.Calls.{
  Call, explicit, start_, stop_, acquire, release, notify, reconcile_, tick, job_begin, job_run,
  job_finish, call, calls,
}
use ultimate_bbsbox.Supervisor.Reconciling.{reconcile-IsReconciled}

-- The key of the job stands in `_jobs_running`.
abbrev HasKey : {W : Type 0} → String → Cell W → Type 0
HasKey name c = elem name c.jobs_running ≡ true

-- The calls that are not the end of a run of a job.
abbrev pub EndsNo : String → List Call → Type 0
EndsNo name [] = Unit {0}
EndsNo name (job_finish job _ _ ∷ xs) = ((job.name == name) ≡ false) × EndsNo name xs
EndsNo name (_ ∷ xs) = EndsNo name xs

elem-discard-other :
    (name other : String) (js : List String)
    → (other == name) ≡ false
    → elem name js ≡ true
    → elem name (discard other js) ≡ true
elem-discard-other name other [] apart h = h
elem-discard-other name other (j ∷ js) apart h = ground (
  arith,
  elem-discard-other name other js apart,
  eq_iff j other,
  eq_iff j name,
  eq_iff other name,
  eq_iff name other,
  eq_iff name j,
  eq_iff other j,
)

module _ {W : Type 0} (env : Env W) (s : Service) where
  HasKey-IsLocal : (name : String) → IsLocal env (HasKey name)
  unfolding update persist drive sleep transition
  HasKey-IsLocal name = record {
    quiet = λ f q. Keeps-modify _ (λ c h. h);
    held = λ reason. Keeps-modify _ (λ c h. h);
    persisted = Keeps-modify _ (λ c h. h);
    driven = λ A call. record { at = λ c h. h };
    entered = λ new reason error. record { at = λ c h. ground (arith, h) };
    slept = λ n. Keeps-modify _ (λ c h. h);
  }

  finish-running :
      (job : Job) (was_active : Bool) (report : String) (c : Cell W)
      → c.instance_.state ≡ running
      → ((maintenance_finish env s job was_active (ok report) c).0 ≡ err invalid_transition)
        × ((maintenance_finish env s job was_active (ok report) c).1.jobs_running ≡ c.jobs_running)
  unfolding maintenance_finish maintenance_record job_recorded job_settled now update transition
      ◌>>=◌
  finish-running job was_active report c up = ground (arith, up)

  begin-HasKey :
      (job : Job) (c : Cell W)
      → HasKey job.name c
      → maintenance_begin env s job c ≡ (err service_busy, c)
  unfolding maintenance_begin ◌>>=◌
  begin-HasKey job c h = rw h

  HasKey-update : (name : String) (f : Instance → Instance) → Keeps (HasKey {W = W} name) (update f)
  unfolding update
  HasKey-update name f = Keeps-modify _ (λ c h. h)

  module _ (name : String) where
    local : IsLocal env (HasKey name)
    local = HasKey-IsLocal name

    let_go-HasKey : Keeps (HasKey {W = W} name) (update let_go)
    let_go-HasKey = HasKey-update name let_go

    open_hold-HasKey : (k : String) (t : ℕ) → Keeps (HasKey {W = W} name) (open_hold k t)
    unfolding open_hold session_opened
    open_hold-HasKey k t =
        Keeps-bind _ _ (HasKey-update name _) λ _. add_hold-local local "sessions"

    close_hold-HasKey : (k : String) → Keeps (HasKey {W = W} name) (close_hold k)
    unfolding close_hold session_dropped remove_hold hold_removed
    close_hold-HasKey k =
        Keeps-bind _ _ (HasKey-update name _)
          λ _. Keeps-bind _ _ (HasKey-update name _) λ _. persist_local local

    fresh_id-HasKey : Keeps (HasKey name) (fresh_id env)
    unfolding fresh_id pure
    fresh_id-HasKey = record { at = λ c h. h }

    ensure-HasKey : (why : String) → Keeps (HasKey name) (ensure env s why)
    ensure-HasKey = ensure-local local s

    schedule_idle-HasKey : Keeps (HasKey name) (schedule_idle env s)
    schedule_idle-HasKey = schedule_idle-local local s

    occupy-HasKey : (k : String) (t : ℕ) → Keeps (HasKey name) (occupy env s k t)
    unfolding occupy
    occupy-HasKey k t =
        search (keeps_rules, ensure-HasKey, open_hold-HasKey, close_hold-HasKey) depth 9

    acquire_session-HasKey : Keeps (HasKey name) (acquire_session env s)
    unfolding acquire_session
    acquire_session-HasKey = search (local_rules, local, fresh_id-HasKey, occupy-HasKey) depth 12

    release_session-HasKey : (k : String) → Keeps (HasKey name) (release_session env s k)
    unfolding release_session
    release_session-HasKey k =
        search (local_rules, local, close_hold-HasKey, schedule_idle-HasKey) depth 12

    -- Another job's key comes and goes.
    mark_job-HasKey : (other : String) → Keeps (HasKey {W = W} name) (mark_job other)
    unfolding mark_job
    mark_job-HasKey other = Keeps-modify _ (λ c h. ground (arith, h))

    unmark_job-HasKey :
        (other : String) → (other == name) ≡ false → Keeps (HasKey {W = W} name) (unmark_job other)
    unfolding unmark_job
    unmark_job-HasKey other apart =
        Keeps-modify _ (λ c h. elem-discard-other name other c.jobs_running apart h)

    begin_other-HasKey :
        (job : Job) → (job.name == name) ≡ false → Keeps (HasKey name) (maintenance_begin env s job)
    begin_other-HasKey job apart =
        maintenance_begin-keeps local s job (mark_job-HasKey job.name)
          (unmark_job-HasKey job.name apart)

    finish_other-HasKey :
        (job : Job) (was_active : Bool) (outcome : Result Error String)
        → (job.name == name) ≡ false
        → Keeps (HasKey name) (maintenance_finish env s job was_active outcome)
    finish_other-HasKey job was_active outcome apart =
        maintenance_finish-keeps local s job (mark_job-HasKey job.name)
          (unmark_job-HasKey job.name apart) was_active outcome

  begin_any-HasKey :
      (name : String) (job : Job) (c : Cell W)
      → HasKey name c
      → HasKey name (maintenance_begin env s job c).1
  begin_any-HasKey name job c h = elim (Bool-cases (job.name == name)) [
    | inl same ↦
        let own : job.name ≡ name = ground (arith, eq_iff job.name name, same) in
        rw (begin-HasKey job c (rw own h)) h
    | inr apart ↦ (begin_other-HasKey name job apart).at c h
  ]

  calls-HasKey :
      (name : String) (xs : List Call) (c : Cell W)
      → EndsNo name xs
      → HasKey name c
      → HasKey name (calls env s xs c)
  unfolding calls call
  calls-HasKey name [] c o h = h
  calls-HasKey name (explicit new reason ∷ xs) c o h =
      calls-HasKey name xs _ o ((transition_local (local name) new reason none).at c h)
  calls-HasKey name (start_ reason ∷ xs) c o h =
      calls-HasKey name xs _ o ((start-local (local name) s reason).at c h)
  calls-HasKey name (stop_ force reason ∷ xs) c o h =
      calls-HasKey name xs _ o
        ((stop-local (local name) s (let_go-HasKey name) force reason).at c h)
  calls-HasKey name (acquire ∷ xs) c o h =
      calls-HasKey name xs _ o ((acquire_session-HasKey name).at c h)
  calls-HasKey name (release id ∷ xs) c o h =
      calls-HasKey name xs _ o ((release_session-HasKey name id).at c h)
  calls-HasKey name (notify error ∷ xs) c o h =
      calls-HasKey name xs _ o ((notify_failure-local (local name) s error).at c h)
  calls-HasKey name (reconcile_ ∷ xs) c o h =
      calls-HasKey name xs _ o ((reconcile-local (local name) s).at c h)
  calls-HasKey name (tick time ∷ xs) c o h =
      calls-HasKey name xs _ o ((tick_service-local (local name) s time).at c h)
  calls-HasKey name (job_begin job ∷ xs) c o h =
      calls-HasKey name xs _ o (begin_any-HasKey name job c h)
  calls-HasKey name (job_run job ∷ xs) c o h =
      calls-HasKey name xs _ o ((maintenance_run-keeps (local name) s job).at c h)
  calls-HasKey name (job_finish job was_active outcome ∷ xs) c o h =
      calls-HasKey name xs _ o.1 ((finish_other-HasKey name job was_active outcome o.0).at c h)

  -- If the service is reconciled with a live runtime while the driver runs its job, then the job's
  -- own end raises InvalidTransitionError, although the job succeeded, and leaves its key behind:
  -- whatever is called on the service afterwards, as long as no end of that job is among the calls,
  -- the job is refused with ServiceBusyError.
  pub reconciled_job-stuck :
      (job : Job) (was_active : Bool) (report : String) (c : Cell W) (xs : List Call)
      → elem job.name c.jobs_running ≡ true
      → (reconcile env s c).0 ≡ ok true
      → EndsNo job.name xs
      → let d = maintenance_finish env s job was_active (ok report) (reconcile env s c).1 in
        (d.0 ≡ err invalid_transition)
        × (maintenance_begin env s job (calls env s xs d.1)
            ≡ (err service_busy, calls env s xs d.1))
  reconciled_job-stuck job was_active report c xs key e others =
      let kept = (reconcile-local (HasKey-IsLocal job.name) s).at c key in
      let up = reconcile-IsReconciled env s c true e in
      let (raised, jobs) = finish-running job was_active report (reconcile env s c).1 up in
      (raised, begin-HasKey job _ (calls-HasKey job.name xs _ others (rw jobs kept)))
