-- ===== src/Supervisor/Reconciling.antt =====
-- Reconciliation leaves no service in the middle of an operation, and adopts what really runs.
use ultimate_bbsbox.Prelude.{
  String, Bool, true, false, ◌&&◌, ◌≡◌, ◌∙◌, sym, ap, refl, ◌⊎◌, inl, inr, none, arith,
}
use ultimate_bbsbox.Prelude.Exec.{ok, pure, >>=-ok, when, ◌>>=◌, ◌>>◌}
use ultimate_bbsbox.Prelude.Hoare.{
  Hoare, Hoare-branch, Hoare-bind, Hoare-gets, Hoare-weaken, Hoare-when, Hoare-skip,
}
use ultimate_bbsbox.Registry.Models.{Service}
use ultimate_bbsbox.Supervisor.Lifecycle.{
  LifecycleState, stopped, starting, ready, running, maintenance, stopping, failed, is_active,
  is_failed,
}
use ultimate_bbsbox.Supervisor.Cell.{Env, Cell, Op, update, persist, now, lifecycle}
use ultimate_bbsbox.Supervisor.Run.{state_of, ensure, schedule_idle}
use ultimate_bbsbox.Supervisor.Methods.{
  adopt, reset, lost_runtime, settle, wake, reconcile, reconcile_with,
}
use ultimate_bbsbox.Supervisor.Running.{
  Is, Anything, SameState, Hoare-SameState, gets-SameState, persist-SameState, transition-Is,
  mark_failed-Is, restart_after_failure-Is, ensure_running-Is, now-SameState,
}

-- The states in which no operation is under way.
abbrev pub is_settled : LifecycleState → Bool
is_settled stopped = true
is_settled running = true
is_settled failed = true
is_settled _ = false

-- What the `if`/`elif` chain comes to, by the driver's answer.
abbrev Chained : {W : Type 0} → Bool → Cell W → Type 0
Chained true c = (c.instance_.state ≡ running) ⊎ (c.instance_.state ≡ failed)
Chained false c = is_settled c.instance_.state ≡ true

-- What reconciliation comes to.
abbrev pub IsReconciled : {W : Type 0} → Bool → Cell W → Type 0
IsReconciled true c = c.instance_.state ≡ running
IsReconciled false c = is_settled c.instance_.state ≡ true

module _ {W : Type 0} (env : Env W) (s : Service) where
  ensure-Is :
      (why : String)
      → Hoare {S = Cell W}
          (λ c. is_active c.instance_.state ≡ false)
          (ensure env s why)
          (Is running)
  unfolding ensure
  ensure-Is why = ensure_running-Is env s env.stack_depth why

  ensure-failed : (why : String) → Hoare {S = Cell W} (Is failed) (ensure env s why) (Is running)
  ensure-failed why = Hoare-weaken _ (λ c p. ap is_active p) (ensure-Is why) (λ c p. p)

  settled_of : (c : Cell W) → Is failed c ⊎ Is running c → is_settled c.instance_.state ≡ true
  settled_of c (inl e) = ap is_settled e
  settled_of c (inr e) = ap is_settled e

  lost_runtime-Chained : Hoare Anything (lost_runtime env s) (Chained false)
  unfolding lost_runtime
  lost_runtime-Chained = Hoare-bind _ _ (mark_failed-Is env s _ _) λ _.
      Hoare-bind _ _ (Hoare-SameState failed _ (gets-SameState _)) λ i.
        Hoare-branch _ _ _
          (λ _.
            Hoare-weaken _ (λ c p. p) (transition-Is env {P = Is failed} stopped _ none)
              (λ c p. ap is_settled p))
          (λ _.
            Hoare-weaken _ (λ c p. p) (restart_after_failure-Is env s (ensure env s) ensure-failed)
              settled_of)

  reset-Chained : Hoare Anything (reset env s) (Chained false)
  unfolding reset
  reset-Chained = Hoare-bind _ _ (mark_failed-Is env s {P = Anything} _ _) λ _.
      Hoare-weaken _ (λ c p. tt) (transition-Is env {P = Anything} stopped _ none)
        (λ c p. ap is_settled p)

  adopt-Is : Hoare {S = Cell W} Anything (adopt env s) (Is running)
  unfolding adopt
  adopt-Is =
      Hoare-bind _ _ (transition-Is env starting _ none)
        λ _. Hoare-bind _ _ (transition-Is env ready _ none) λ _. transition-Is env running _ none

  settle-Chained :
      (found : LifecycleState) (alive : Bool)
      → Hoare {S = Cell W} (Is found) (settle env s found alive) (Chained alive)
  unfolding settle
  settle-Chained stopping true =
      Hoare-weaken _ (λ c p. tt) (transition-Is env {P = Anything} failed _ none) (λ c p. inr p)
  settle-Chained stopping false =
      Hoare-weaken _ (λ c p. tt) (transition-Is env {P = Anything} stopped _ none)
        (λ c p. ap is_settled p)
  settle-Chained starting true = Hoare-bind _ _ (transition-Is env ready _ none) λ _.
      Hoare-weaken _ (λ c p. tt) (transition-Is env {P = Anything} running _ none) (λ c p. inl p)
  settle-Chained ready true =
      Hoare-weaken _ (λ c p. tt) (transition-Is env {P = Anything} running _ none) (λ c p. inl p)
  settle-Chained maintenance true =
      Hoare-weaken _ (λ c p. tt) (transition-Is env {P = Anything} running _ none) (λ c p. inl p)
  settle-Chained stopped true = Hoare-weaken _ (λ c p. tt) adopt-Is (λ c p. inl p)
  settle-Chained starting false = Hoare-weaken _ (λ c p. tt) reset-Chained (λ c p. p)
  settle-Chained ready false = Hoare-weaken _ (λ c p. tt) reset-Chained (λ c p. p)
  settle-Chained running false = Hoare-weaken _ (λ c p. tt) lost_runtime-Chained (λ c p. p)
  settle-Chained maintenance false = Hoare-weaken _ (λ c p. tt) lost_runtime-Chained (λ c p. p)
  settle-Chained running true = Hoare-skip (λ c p. inl p)
  settle-Chained failed true = Hoare-skip (λ c p. inr p)
  settle-Chained stopped false = Hoare-skip (λ c p. ap is_settled p)
  settle-Chained failed false = Hoare-skip (λ c p. ap is_settled p)

  adopted :
      (alive : Bool) (c : Cell W)
      → Chained alive c
      → Hoare
          (Is c.instance_.state)
          (when (is_failed c.instance_.state && alive) (adopt env s))
          (IsReconciled alive)
  adopted true c (inl up) =
      Hoare-when _ _ (λ _. Hoare-weaken _ (λ c' q. tt) adopt-Is (λ c' q. q)) (λ _ c' q. q ∙ up)
  adopted true c (inr down) =
      Hoare-when _ _ (λ _. Hoare-weaken _ (λ c' q. tt) adopt-Is (λ c' q. q))
        (λ off c' q. absurd (ground (arith, down, off)))
  adopted false c p =
      Hoare-when _ _ (λ _. Hoare-weaken _ (λ c' q. tt) adopt-Is (λ c' q. ap is_settled q))
        (λ _ c' q. ap is_settled q ∙ p)

  schedule_idle-SameState : SameState (schedule_idle env s)
  unfolding schedule_idle lifecycle now persist update ◌>>=◌
  schedule_idle-SameState = record { same = λ c. ground arith }

  wake-SameState :
      (why : String) (x : LifecycleState) (b : Bool)
      → (b ≡ true → is_active x ≡ false)
      → Hoare {S = Cell W} (Is x) (when b (ensure env s why)) (λ c. Is running c ⊎ Is x c)
  wake-SameState why x b down =
      Hoare-when _ _
        (λ on. Hoare-weaken _ (λ c p. ap is_active p ∙ down on) (ensure-Is why) (λ c p. inl p))
        (λ _ c p. inr p)

  woken :
      (alive : Bool) (x : LifecycleState) (c d : Cell W)
      → IsReconciled alive c
      → c.instance_.state ≡ x
      → Is running d ⊎ Is x d
      → IsReconciled alive d
  woken true x c d p e (inl up) = up
  woken true x c d p e (inr same) = same ∙ sym e ∙ p
  woken false x c d p e (inl up) = ap is_settled up
  woken false x c d p e (inr same) = ap is_settled (same ∙ sym e) ∙ p

  wake-IsReconciled :
      (alive : Bool) → Hoare {S = Cell W} (IsReconciled alive) (wake env s) (IsReconciled alive)
  unfolding wake
  wake-IsReconciled alive =
      Hoare-gets (λ c. Is c.instance_.state) _ _
        (λ c p. Hoare-bind _ _ (Hoare-SameState c.instance_.state _ (now-SameState env)) λ time.
          Hoare-weaken _ (λ d q. q)
            (wake-SameState "reconcile" c.instance_.state _ (λ on. ground arith))
            (λ d q. woken alive c.instance_.state c d p refl q))
        (λ c p. refl)

  reconcile_with-IsReconciled :
      (alive : Bool) → Hoare {S = Cell W} Anything (reconcile_with env s alive) (IsReconciled alive)
  unfolding reconcile_with state_of
  reconcile_with-IsReconciled alive =
      Hoare-gets (λ c. Is c.instance_.state) _ _
        (λ c _. Hoare-bind _ _ (settle-Chained c.instance_.state alive) λ _.
          Hoare-gets (λ d. Is d.instance_.state) _ _
            (λ d p. Hoare-bind _ _ (adopted alive d p) λ _.
              Hoare-bind _ _ (wake-IsReconciled alive) λ _.
                Hoare-bind _ _ (kept alive _ schedule_idle-SameState)
                  λ _. kept alive _ persist-SameState)
            (λ d p. refl))
        (λ c _. refl)
    where
      kept :
          (alive : Bool) (m : Op W (Unit {0}))
          → SameState m
          → Hoare (IsReconciled alive) m (IsReconciled alive)
      kept true m h = record { after = λ c p a e. h.same c ∙ p }
      kept false m h = record { after = λ c p a e. ap is_settled (h.same c) ∙ p }

  reconciled :
      (told alive : Bool) (c : Cell W)
      → ((reconcile_with env s told >> pure told) c).0 ≡ ok alive
      → IsReconciled alive ((reconcile_with env s told >> pure told) c).1
  unfolding pure
  reconciled told alive c e =
      let (a, r, same) = >>=-ok (reconcile_with env s told) (λ _. pure told) c e in
      let answer : told ≡ alive = cc (e, same) in
      rw same (rw (← answer) ((reconcile_with-IsReconciled told).after c tt a r))

  -- A reconciliation that returns leaves the service stopped, running or failed, from whatever state
  -- it was in; and running, if the driver reported its runtime alive.
  pub reconcile-IsReconciled :
      (c : Cell W) (alive : Bool)
      → (reconcile env s c).0 ≡ ok alive
      → IsReconciled alive (reconcile env s c).1
  unfolding reconcile
  reconcile-IsReconciled c alive e =
      let (life, _, e1) = >>=-ok (lifecycle s) _ c e in
      let (_, _, e2) = >>=-ok _ _ _ (rw e1 at e) in
      let (told, _, e3) = >>=-ok _ _ _ (rw e2 at (rw e1 at e)) in
      rw e1 (rw e2 (rw e3 (reconciled told alive _ (rw e3 at (rw e2 at (rw e1 at e))))))
