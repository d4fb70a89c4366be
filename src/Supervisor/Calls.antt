-- ===== src/Supervisor/Calls.antt =====
-- Any sequence of calls on one service, whatever they return or raise. The three parts of a
-- maintenance job are calls of their own, so that a sequence also stands for any interleaving of
-- the threads: each part runs under the service's lock, and the driver's run between them.
use ultimate_bbsbox.Prelude.{ℕ, String, Bool, ◌≡◌, refl, ◌∙◌, none, List, [], ◌∷◌}
use ultimate_bbsbox.Prelude.Exec.{Result, Keeps, Keeps-modify, Keeps-bind, keeps_rules, pure}
use ultimate_bbsbox.Errors.{Error}
use ultimate_bbsbox.Registry.Models.{Service, Job}
use ultimate_bbsbox.Supervisor.Lifecycle.{LifecycleState}
use ultimate_bbsbox.Supervisor.Instance.{Instance}
use ultimate_bbsbox.Supervisor.Cell.{Env, Cell, update, transition, remove_hold, hold_removed}
use ultimate_bbsbox.Supervisor.Run.{ensure, schedule_idle}
use ultimate_bbsbox.Supervisor.Methods.{
  let_go, session_opened, session_dropped, open_hold, close_hold, fresh_id, start, stop, occupy,
  acquire_session, release_session, notify_failure, reconcile,
}
use ultimate_bbsbox.Supervisor.Maintenance.{
  maintenance_begin, maintenance_run, maintenance_finish, tick_service,
}
use ultimate_bbsbox.Supervisor.Local.{
  IsLocal, local_rules, transition_local, ensure-local, add_hold-local, persist_local,
  schedule_idle-local,
}
use ultimate_bbsbox.Supervisor.Invariants.{
  start-local, stop-local, notify_failure-local, reconcile-local, tick_service-local,
  maintenance_begin-local, maintenance_run-local, maintenance_finish-local,
}
use ultimate_bbsbox.Supervisor.Trace.{IsTraced, IsTraced-IsLocal}
use ultimate_bbsbox.Supervisor.Sessions.{
  IsCovered, IsCovered-IsLocal, let_go-IsCovered, acquire_session-IsCovered,
  release_session-IsCovered,
}

pub data Call : Type 0 where
  explicit : LifecycleState → String → Call
  start_ : String → Call
  stop_ : Bool → String → Call
  acquire : Call
  release notify : String → Call
  reconcile_ : Call
  tick : ℕ → Call
  job_begin job_run : Job → Call
  job_finish : Job → Bool → Result Error String → Call

module _ {W : Type 0} (env : Env W) (s : Service) where
  unfoldable pub call : Call → Cell W → Cell W
  call (explicit new reason) c = (transition env new reason none c).1
  call (start_ reason) c = (start env s reason c).1
  call (stop_ force reason) c = (stop env s force reason c).1
  call acquire c = (acquire_session env s c).1
  call (release id) c = (release_session env s id c).1
  call (notify error) c = (notify_failure env s error c).1
  call reconcile_ c = (reconcile env s c).1
  call (tick time) c = (tick_service env s time c).1
  call (job_begin job) c = (maintenance_begin env s job c).1
  call (job_run job) c = (maintenance_run env s job c).1
  call (job_finish job was_active outcome) c = (maintenance_finish env s job was_active outcome c).1

  unfoldable pub calls : List Call → Cell W → Cell W
  calls [] c = c
  calls (x ∷ xs) c = calls xs (call x c)

  -- What every invariant of this kind needs for the methods about sessions.
  record KeepsSessions (P : Cell W → Type 0) : Type 0 where
    let_go_ : Keeps P (update let_go)
    acquire_ : Keeps P (acquire_session env s)
    release_ : (id : String) → Keeps P (release_session env s id)
    marked_ :
        (f : List String → List String) (c : Cell W)
        → P c
        → P (record c { jobs_running = f c.jobs_running })

  module _ {P : Cell W → Type 0} (l : IsLocal env P) (k : KeepsSessions P) where
    call-keeps : (x : Call) (c : Cell W) → P c → P (call x c)
    unfolding call
    call-keeps (explicit new reason) c h = (transition_local l new reason none).at c h
    call-keeps (start_ reason) c h = (start-local l s reason).at c h
    call-keeps (stop_ force reason) c h = (stop-local l s k.let_go_ force reason).at c h
    call-keeps acquire c h = k.acquire_.at c h
    call-keeps (release id) c h = (k.release_ id).at c h
    call-keeps (notify error) c h = (notify_failure-local l s error).at c h
    call-keeps reconcile_ c h = (reconcile-local l s).at c h
    call-keeps (tick time) c h = (tick_service-local l s time).at c h
    call-keeps (job_begin job) c h = (maintenance_begin-local l k.marked_ s job).at c h
    call-keeps (job_run job) c h = (maintenance_run-local l k.marked_ s job).at c h
    call-keeps (job_finish job was_active outcome) c h =
        (maintenance_finish-local l k.marked_ s job was_active outcome).at c h

    calls-keeps : (xs : List Call) (c : Cell W) → P c → P (calls xs c)
    unfolding calls
    calls-keeps [] c h = h
    calls-keeps (x ∷ xs) c h = calls-keeps xs (call x c) (call-keeps x c h)

  IsCovered-sessions : KeepsSessions IsCovered
  IsCovered-sessions = record {
    let_go_ = let_go-IsCovered;
    acquire_ = acquire_session-IsCovered env s;
    release_ = release_session-IsCovered env s;
    marked_ = λ f c h. record { covered = h.covered };
  }

  -- After any calls on a service whose sessions were covered by holds, they still are: the count
  -- under "sessions" is at least the number of open sessions.
  pub calls-IsCovered : (xs : List Call) (c : Cell W) → IsCovered c → IsCovered (calls xs c)
  calls-IsCovered = calls-keeps (IsCovered-IsLocal env) IsCovered-sessions

  module _ (b : LifecycleState) (id : String) where
    IsTraced-update :
        (f : Instance → Instance)
        → ((i : Instance) → (f i).service_id ≡ i.service_id)
        → ((i : Instance) → (f i).state ≡ i.state)
        → Keeps (IsTraced {W = W} b id) (update f)
    unfolding update
    IsTraced-update f n t =
        Keeps-modify _
          (λ c h. record { named = n c.instance_ ∙ h.named; traced = rw (t c.instance_) h.traced })

    open_hold-IsTraced : (k : String) (t : ℕ) → Keeps (IsTraced {W = W} b id) (open_hold k t)
    unfolding open_hold session_opened
    open_hold-IsTraced k t =
        Keeps-bind _ _ (IsTraced-update _ (λ i. refl) (λ i. refl))
          λ _. add_hold-local (IsTraced-IsLocal env b id) "sessions"

    close_hold-IsTraced : (k : String) → Keeps (IsTraced {W = W} b id) (close_hold k)
    unfolding close_hold session_dropped remove_hold hold_removed
    close_hold-IsTraced k = Keeps-bind _ _ (IsTraced-update _ (λ i. refl) (λ i. refl)) λ _.
        Keeps-bind _ _ (IsTraced-update _ (λ i. refl) (λ i. refl))
          λ _. persist_local (IsTraced-IsLocal env b id)

    fresh_id-IsTraced : Keeps (IsTraced b id) (fresh_id env)
    unfolding fresh_id pure
    fresh_id-IsTraced = record { at = λ c h. record { named = h.named; traced = h.traced } }

    ensure-IsTraced : (why : String) → Keeps (IsTraced b id) (ensure env s why)
    ensure-IsTraced = ensure-local (IsTraced-IsLocal env b id) s

    schedule_idle-IsTraced : Keeps (IsTraced b id) (schedule_idle env s)
    schedule_idle-IsTraced = schedule_idle-local (IsTraced-IsLocal env b id) s

    occupy-IsTraced : (k : String) (t : ℕ) → Keeps (IsTraced b id) (occupy env s k t)
    unfolding occupy
    occupy-IsTraced k t =
        search (keeps_rules, ensure-IsTraced, open_hold-IsTraced, close_hold-IsTraced) depth 9

    acquire_session-IsTraced : Keeps (IsTraced b id) (acquire_session env s)
    unfolding acquire_session
    acquire_session-IsTraced =
        let local = IsTraced-IsLocal env b id in
        search (local_rules, local, fresh_id-IsTraced, occupy-IsTraced) depth 12

    release_session-IsTraced : (k : String) → Keeps (IsTraced b id) (release_session env s k)
    unfolding release_session
    release_session-IsTraced k =
        search (keeps_rules, schedule_idle-IsTraced, close_hold-IsTraced) depth 9

    let_go-IsTraced : Keeps (IsTraced {W = W} b id) (update let_go)
    unfolding let_go
    let_go-IsTraced = IsTraced-update _ (λ i. refl) (λ i. refl)

    IsTraced-sessions : KeepsSessions (IsTraced b id)
    IsTraced-sessions = record {
      let_go_ = let_go-IsTraced;
      acquire_ = acquire_session-IsTraced;
      release_ = release_session-IsTraced;
      marked_ = λ f c h. record { named = h.named; traced = h.traced };
    }

    -- After any calls on a service, its events in the journal lead from the state that it was in
    -- before its first event to the state that it is in, each along an edge of the transition graph.
    pub calls-IsTraced :
        (xs : List Call) (c : Cell W) → IsTraced b id c → IsTraced b id (calls xs c)
    calls-IsTraced = calls-keeps (IsTraced-IsLocal env b id) IsTraced-sessions
