-- ===== src/Supervisor/Running.antt =====
-- What a method that returns has brought about: `ensure_running` a service that runs, reconciliation
-- a state that no operation is in the middle of.
use ultimate_bbsbox.Prelude.{
  ℕ, zero, suc, String, true, false, ◌≡◌, ◌∙◌, ap, refl, ◌⊎◌, inl, inr, Option, none, arith,
  Bool-cases,
}
use ultimate_bbsbox.Prelude.Exec.{
  ok, gets, modify, skip, when, raise, raise_if, branch, ◌>>=◌, ◌>>◌,
}
use ultimate_bbsbox.Prelude.Hoare.{
  Hoare, Hoare-raise, Hoare-branch, Hoare-try_catch, Hoare-bind, Hoare-gets, Hoare-weaken,
  Hoare-when,
}
use ultimate_bbsbox.Errors.{Error}
use ultimate_bbsbox.Registry.Models.{Service}
use ultimate_bbsbox.Registry.Queries.{Resolution}
use ultimate_bbsbox.Supervisor.Lifecycle.{
  LifecycleState, running, failed, is_active, is_failed, is_running,
}
use ultimate_bbsbox.Supervisor.Instance.{Instance}
use ultimate_bbsbox.Supervisor.Cell.{
  Driver, Env, Cell, Op, update, persist, now, lifecycle, transition,
}
use ultimate_bbsbox.Supervisor.Run.{
  state_of, drop_recovery, mark_failed, restart_after_failure, bring_up, clean_up, ensure_running,
  ensure, restart_noted, started,
}

module _ {W : Type 0} where
  abbrev pub Is : LifecycleState → Cell W → Type 0
  Is x c = c.instance_.state ≡ x

  abbrev pub Anything : Cell W → Type 0
  Anything c = Unit {0}

  abbrev pub IsUp : Cell W → Type 0
  IsUp c = is_active c.instance_.state ≡ true

  -- `m` does not touch the lifecycle state.
  pub record SameState {A : Type 0} (m : Op W A) : Type 0 where
    pub same : (c : Cell W) → (m c).1.instance_.state ≡ c.instance_.state

  pub Hoare-SameState :
      {A : Type 0} (x : LifecycleState) (m : Op W A) → SameState m → Hoare (Is x) m (Is x)
  Hoare-SameState x m h = record { after = λ c p a e. h.same c ∙ p }

  pub update-SameState :
      (f : Instance → Instance) → ((i : Instance) → (f i).state ≡ i.state) → SameState (update f)
  unfolding update modify
  update-SameState f h = record { same = λ c. h c.instance_ }

  pub persist-SameState : SameState (persist {W = W})
  unfolding persist modify
  persist-SameState = record { same = λ c. refl }

  drop_recovery-SameState : SameState (drop_recovery {W = W})
  unfolding drop_recovery update persist ◌>>=◌
  drop_recovery-SameState = record { same = λ c. refl }

  pub gets-SameState : {A : Type 0} (f : Cell W → A) → SameState (gets {E = Error} f)
  unfolding gets
  gets-SameState f = record { same = λ c. refl }

  pub state_of-SameState : SameState (state_of {W = W})
  unfolding state_of gets
  state_of-SameState = record { same = λ c. refl }

module _ {W : Type 0} (env : Env W) where
  pub now-SameState : SameState (now env)
  unfolding now gets
  now-SameState = record { same = λ c. refl }

  pub lifecycle-SameState : (s : Service) → SameState (lifecycle {W = W} s)
  unfolding lifecycle gets
  lifecycle-SameState s = record { same = λ c. refl }

  pub transition-Is :
      {P : Cell W → Type 0} (new : LifecycleState) (reason : String) (error : Option Error)
      → Hoare P (transition env new reason error) (Is new)
  unfolding transition
  transition-Is new reason error = record { after = λ c p a e. ground arith }

  module _ (s : Service) where
    pub mark_failed-Is :
        {P : Cell W → Type 0} (e : Error) (reason : String)
        → Hoare P (mark_failed env s e reason) (Is failed)
    unfolding mark_failed state_of update persist transition ◌>>=◌
    mark_failed-Is e reason = record { after = λ c p a r. ground arith }

    module _ (again : String → Op W (Unit {0}))
        (h : (why : String) → Hoare (Is failed) (again why) (Is running)) where
      retried :
          Hoare
            (Is failed)
            (do again "recovery"; state ← state_of; when (is_running state) drop_recovery)
            (λ c. Is failed c ⊎ Is running c)
      retried = Hoare-bind _ _ (h "recovery") λ _.
          Hoare-bind _ _ (Hoare-SameState running _ state_of-SameState) λ state.
            Hoare-weaken _ (λ c p. p)
              (Hoare-when _ _ (λ _. Hoare-SameState running _ drop_recovery-SameState) (λ _ c p. p))
              (λ c p. inr p)

      pub restart_after_failure-Is :
          Hoare (Is failed) (restart_after_failure env s again) (λ c. Is failed c ⊎ Is running c)
      unfolding restart_after_failure restart_noted
      restart_after_failure-Is =
          Hoare-bind _ _ (Hoare-SameState failed _ (lifecycle-SameState s)) λ life.
            Hoare-when _ _
              (λ _. Hoare-bind _ _ (Hoare-SameState failed _ now-SameState) λ time.
                Hoare-bind _ _ (Hoare-SameState failed _ (update-SameState _ (λ i. refl))) λ _.
                  Hoare-bind _ _ (Hoare-SameState failed _ (gets-SameState _)) λ prior.
                    Hoare-branch _ _ _
                      (λ _.
                        Hoare-bind _ _ untouched λ _. Hoare-bind _ _ untouched λ _. Hoare-raise _)
                      (λ _.
                        Hoare-bind _ _ (Hoare-SameState failed _ (update-SameState _ (λ i. refl)))
                          λ _.
                            Hoare-bind _ _ (Hoare-SameState failed _ persist-SameState)
                              λ _. Hoare-when _ _ (λ _. retried) (λ _ c p. inl p)))
              (λ _ c p. inl p)
        where
          untouched : {P : Cell W → Type 0} {m : Op W (Unit {0})} → Hoare P m Anything
          untouched = record { after = λ c p a e. tt }

    bring_up-Is :
        {P : Cell W → Type 0} (d : Driver W) (r : Resolution) (why : String)
        → Hoare P (bring_up env s d r why) (Is running)
    unfolding bring_up started
    bring_up-Is d r why = Hoare-bind _ _ any λ _. Hoare-bind _ _ any λ life.
        Hoare-bind _ _ any λ begun. Hoare-bind _ _ any λ _. Hoare-bind _ _ any λ _.
          Hoare-bind _ _ (transition-Is running why none) λ _.
            Hoare-bind _ _ (Hoare-SameState running _ now-SameState) λ time.
              Hoare-bind _ _ (Hoare-SameState running _ (update-SameState _ (λ i. refl)))
                λ _. Hoare-SameState running _ persist-SameState
      where
        any : {A : Type 0} {Q : Cell W → Type 0} {m : Op W A} → Hoare Q m Anything
        any = record { after = λ c p a e. tt }

    settled :
        (error : Error)
        → Hoare {S = Cell W}
            (λ c. Is failed c ⊎ Is running c)
            (do after ← state_of; raise_if (is_failed after) error)
            (Is running)
    unfolding state_of ◌>>=◌
    settled error = record { after = λ c p a e. ground arith }

    recovered-Is :
        (again : String → Op W (Unit {0}))
        → ((why : String) → Hoare (Is failed) (again why) (Is running))
        → (d : Driver W) (r : Resolution) (error : Error)
        → Hoare Anything
            (do
              clean_up env s d r
              mark_failed env s error "start_failure"
              restart_after_failure env s again
              after ← state_of
              raise_if (is_failed after) error)
            (Is running)
    recovered-Is again h d r error =
        Hoare-bind _ _ (record { after = λ c p a e. tt })
          λ _.
            Hoare-bind _ _ (mark_failed-Is {P = Anything} error "start_failure")
              λ _. Hoare-bind _ _ (restart_after_failure-Is again h) λ _. settled error

    -- Starting from a service that is stopped or failed.
    pub ensure_running-Is :
        (depth : ℕ) (why : String)
        → Hoare
            (λ c. is_active c.instance_.state ≡ false)
            (ensure_running env s depth why)
            (Is running)
    unfolding ensure_running state_of
    ensure_running-Is zero why = Hoare-raise _
    ensure_running-Is (suc depth) why =
        Hoare-gets (λ _. Anything) _ _
          (λ c p.
            Hoare-branch _ _ _ (λ up. absurd (cc (p, up)))
              (λ _. Hoare-bind _ _ any λ _. Hoare-bind _ _ any λ r. Hoare-bind _ _ any λ d.
                Hoare-bind _ _ any λ _.
                  Hoare-try_catch _ _ (bring_up-Is {P = Anything} d r why) (λ c' p'. tt)
                    λ error.
                      recovered-Is (λ again. ensure_running env s depth again)
                        (λ again.
                          Hoare-weaken _ (λ c' p'. ap is_active p') (ensure_running-Is depth again)
                            (λ c' p'. p'))
                        d r error))
          (λ c p. tt)
      where
        any : {A : Type 0} {P : Cell W → Type 0} {m : Op W A} → Hoare P m Anything
        any = record { after = λ c p a e. tt }

    ensure_running-IsUp :
        (depth : ℕ) (why : String) (c : Cell W)
        → IsUp c
        → (a : Unit {0}) → (ensure_running env s depth why c).0 ≡ ok a
        → IsUp (ensure_running env s depth why c).1
    unfolding ensure_running raise branch skip state_of ◌>>=◌
    ensure_running-IsUp zero why c up a e = cc
    ensure_running-IsUp (suc depth) why c up a e = rw up up

    -- Whenever `_ensure_running_locked` returns, the service is ready, running or in maintenance,
    -- whatever it was before and however many failed starts lay between.
    pub ensure-IsUp :
        (why : String) (c : Cell W) {a : Unit {0}}
        → (ensure env s why c).0 ≡ ok a
        → is_active (ensure env s why c).1.instance_.state ≡ true
    unfolding ensure
    ensure-IsUp why c {a} e = found (Bool-cases (is_active c.instance_.state))
      where
        found :
            (is_active c.instance_.state ≡ true) ⊎ (is_active c.instance_.state ≡ false)
            → IsUp (ensure_running env s env.stack_depth why c).1
        found (inl up) = ensure_running-IsUp env.stack_depth why c up a e
        found (inr down) = ap is_active ((ensure_running-Is env.stack_depth why).after c down a e)
