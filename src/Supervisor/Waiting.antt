-- ===== src/Supervisor/Waiting.antt =====
-- The wait for readiness in `_ensure_running_locked` of `scripts/ubb_supervisor/supervisor.py` ends.
use ultimate_bbsbox.Prelude.{
  ℕ, zero, suc, ◌+◌, ◌-◌, ◌≤◌, ◌<◌, String, Bool, true, false, ◌≡◌, refl, leb, min, arith,
  Bool-cases, inl, inr,
}
use ultimate_bbsbox.Prelude.Dict.{Dict}
use ultimate_bbsbox.Prelude.Exec.{Result, ok, err, gets, modify, skip, raise_if, branch, ◌>>=◌}
use ultimate_bbsbox.Errors.{Error, readiness_timeout}
use ultimate_bbsbox.Registry.Models.{Readiness, Service}
use ultimate_bbsbox.Registry.Queries.{Resolution}
use ultimate_bbsbox.Supervisor.Instance.{Instance}
use ultimate_bbsbox.Supervisor.Cell.{Env, Driver, Cell, drive, monotonic, sleep}
use ultimate_bbsbox.Supervisor.Run.{await_ready}

module _ {W : Type 0} (env : Env W) (s : Service) (d : Driver W) (r : Resolution) (q : Readiness)
    (deadline : ℕ) where
  -- How a wait ends: the driver is ready; or it is not, and the clock stands at the deadline or behind
  -- it once it has answered; or the driver raises.
  pub data Waited (outcome : Result Error (Unit {0})) : Type 0 where
    ready :
        (i : Instance) (runtime : Dict String) (w : W)
        → (d.is_ready i r q (runtime, w)).0 ≡ ok true
        → outcome ≡ ok tt
        → Waited outcome
    late :
        (i : Instance) (runtime : Dict String) (w : W)
        → (d.is_ready i r q (runtime, w)).0 ≡ ok false
        → deadline ≤ env.monotonic (d.is_ready i r q (runtime, w)).1.1
        → outcome ≡ err readiness_timeout
        → Waited outcome
    failed :
        (i : Instance) (runtime : Dict String) (w : W) (e : Error)
        → (d.is_ready i r q (runtime, w)).0 ≡ err e
        → outcome ≡ err e
        → Waited outcome

  module _ (pace : 1 ≤ env.poll_interval)
      (sleeps : (n : ℕ) (w : W) → env.monotonic w + n ≤ env.monotonic (env.sleep n w))
      (asks : (i : Instance) (runtime : Dict String) (w : W)
        → env.monotonic w ≤ env.monotonic (d.is_ready i r q (runtime, w)).1.1) where
    one_poll :
        (rounds : ℕ) (c : Cell W) (x : Result Error Bool)
        → (d.is_ready c.instance_ r q (c.instance_.runtime, c.world)).0 ≡ x
        → ((c' : Cell W)
            → deadline + 1 ≤ env.monotonic c'.world + rounds
            → 1 ≤ rounds
            → Waited (await_ready env s rounds d r q deadline c').0)
        → deadline + 1 ≤ env.monotonic c.world + suc rounds
        → Waited (await_ready env s (suc rounds) d r q deadline c).0
    unfolding await_ready drive monotonic sleep branch skip gets raise_if modify ◌>>=◌
    one_poll rounds c (ok true) asked again fuel =
        ready c.instance_ c.instance_.runtime c.world asked (rw asked refl)
    one_poll rounds c (err e) asked again fuel =
        failed c.instance_ c.instance_.runtime c.world e asked (rw asked refl)
    one_poll rounds c (ok false) asked again fuel =
        let after = (d.is_ready c.instance_ r q (c.instance_.runtime, c.world)).1.1 in
        let later = asks c.instance_ c.instance_.runtime c.world in
        elim (Bool-cases (leb deadline (env.monotonic after))) [
          | inl over ↦
              late c.instance_ c.instance_.runtime c.world asked (ground (arith, over))
                (rw (asked, over) refl)
          | inr early ↦
              let left : env.monotonic after < deadline = ground arith in
              let nap = sleeps (min env.poll_interval (deadline - env.monotonic after)) after in
              rw (asked, early)
                (again _ (omega (arith, nap, pace, left, later, fuel))
                  (omega (arith, fuel, later, left)))
        ]

    -- With a clock that sleeps as long as it is told and never goes back, and with as many rounds as the
    -- time to the deadline and one more, the wait ends in one of three ways: with success, when the driver
    -- has said that it is ready; with ReadinessTimeoutError, when it has said that it is not and the
    -- clock is not before the deadline then; or with the exception of the driver.
    pub await_ready-Waited :
        (rounds : ℕ) (c : Cell W)
        → deadline + 1 ≤ env.monotonic c.world + rounds
        → 1 ≤ rounds
        → Waited (await_ready env s rounds d r q deadline c).0
    await_ready-Waited zero c fuel some_round = absurd (omega arith)
    await_ready-Waited (suc rounds) c fuel some_round =
        one_poll rounds c _ refl (λ c' fuel' more. await_ready-Waited rounds c' fuel' more) fuel
