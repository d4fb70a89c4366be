-- ===== src/Supervisor/Acquired.antt =====
-- What a caller of `acquire_session` may rely on.
use ultimate_bbsbox.Prelude.{ℕ, String, true, ◌≡◌, arith, eq_refl}
use ultimate_bbsbox.Prelude.Dict.{contains, lookup-insert}
use ultimate_bbsbox.Prelude.Exec.{ok, pure, Keeps-modify, ◌>>=◌}
use ultimate_bbsbox.Prelude.Hoare.{
  Hoare, Hoare-raise, Hoare-bind, Hoare-try_catch, Yields, Yields-bind,
}
use ultimate_bbsbox.Registry.Models.{Service}
use ultimate_bbsbox.Supervisor.Lifecycle.{is_active}
use ultimate_bbsbox.Supervisor.Cell.{
  Env, Cell, update, persist, drive, sleep, transition, hold_added, add_hold,
}
use ultimate_bbsbox.Supervisor.Run.{ensure}
use ultimate_bbsbox.Supervisor.Methods.{session_opened, open_hold, occupy, acquire_session}
use ultimate_bbsbox.Supervisor.Local.{IsLocal, ensure-local}
use ultimate_bbsbox.Supervisor.Running.{Anything, ensure-IsUp}

abbrev HasSession : {W : Type 0} → String → Cell W → Type 0
HasSession id c = contains id c.instance_.sessions ≡ true

-- The session is recorded and the service can take it.
abbrev IsServed : {W : Type 0} → String → Cell W → Type 0
IsServed id c = (contains id c.instance_.sessions ≡ true) × (is_active c.instance_.state ≡ true)

module _ {W : Type 0} (env : Env W) (s : Service) where
  HasSession-IsLocal : (id : String) → IsLocal env (HasSession id)
  unfolding update persist drive sleep transition hold_added
  HasSession-IsLocal id = record {
    quiet = λ f q. Keeps-modify _ (λ c h. rw ((q c.instance_).same_sessions) h);
    held = λ reason. Keeps-modify _ (λ c h. h);
    persisted = Keeps-modify _ (λ c h. h);
    driven = λ A call. record { at = λ c h. h };
    entered = λ new reason error. record { at = λ c h. ground (arith, h) };
    slept = λ n. Keeps-modify _ (λ c h. h);
  }

  open_hold-HasSession :
      (id : String) (t : ℕ) → Hoare Anything (open_hold {W = W} id t) (HasSession id)
  unfolding open_hold update session_opened add_hold hold_added persist ◌>>=◌
  open_hold-HasSession id t = record { after = λ c p a e. rw (lookup-insert, eq_refl id) }

  ensured : (id : String) → Hoare (HasSession id) (ensure env s "session") (IsServed id)
  ensured id = record {
    after = λ c h a e. (
      (ensure-local (HasSession-IsLocal id) s "session").at c h,
      ensure-IsUp env s "session" c e,
    );
  }

  occupy-IsServed : (id : String) (t : ℕ) → Hoare Anything (occupy env s id t) (IsServed id)
  unfolding occupy pure
  occupy-IsServed id t = Hoare-bind _ _ (open_hold-HasSession id t) λ _.
      Hoare-bind _ _
        (Hoare-try_catch {R = Anything} _ _ (ensured id) (λ c h. tt {0})
          λ error.
            Hoare-bind _ _ (record { after = λ c p a e. tt }) λ _. Hoare-raise {P = Anything} _)
        λ _. record { after = λ c p a e. p }

  occupy-id : (id : String) (t : ℕ) → Yields (occupy env s id t) (λ k c. id ≡ k)
  unfolding occupy pure
  occupy-id id t = Yields-bind _ _ λ _. Yields-bind _ _ λ _. record { on = λ c k e. cc e }

  occupied : (id : String) (t : ℕ) → Yields (occupy env s id t) IsServed
  occupied id t = record {
    on = λ c k e. rw (← (occupy-id id t).on c k e) ((occupy-IsServed id t).after c tt k e);
  }

  acquired : Yields (acquire_session env s) IsServed
  unfolding acquire_session
  acquired = Yields-bind _ _ λ _.
      Yields-bind _ _
        λ _. Yields-bind _ _ λ _. Yields-bind _ _ λ id. Yields-bind _ _ λ t. occupied id t

  -- When a session is acquired it is recorded under the returned id, and the service is ready, running
  -- or in maintenance, also if it took restarts to get there.
  pub acquire_session-IsServed :
      (c : Cell W) (id : String)
      → (acquire_session env s c).0 ≡ ok id
      → (contains id (acquire_session env s c).1.instance_.sessions ≡ true)
        × (is_active (acquire_session env s c).1.instance_.state ≡ true)
  acquire_session-IsServed c id e = acquired.on c id e
