-- ===== src/Supervisor/Sessions.antt =====
-- Sessions and their holds: a service with an open session is held, so that neither an idle stop
-- nor an unforced one can take it away.
use ultimate_bbsbox.Prelude.{
  ℕ, ◌+◌, ◌-◌, ◌≤◌, ◌<◌, String, true, false, ◌≡◌, refl, ◌⊎◌, inl, inr, Option, [], ◌∷◌, arith,
  length, leb, ◌==◌, eq_iff, eq_refl, if◌then◌else◌, Bool-cases,
}
use ultimate_bbsbox.Prelude.Dict.{
  Dict, lookup, contains, lookup-insert, lookup-erase, length-insert-le, length-erase-lt,
}
use ultimate_bbsbox.Prelude.Exec.{
  ok, err, Keeps, Keeps-modify, Leads, Leads-of_Keeps, Leads-bind, Leads-try_catch, keeps_rules,
  raise, pure, ◌>>=◌, ◌>>◌,
}
use ultimate_bbsbox.Errors.{Error, service_busy, unknown_session}
use ultimate_bbsbox.Registry.Models.{Service}
use ultimate_bbsbox.Supervisor.Lifecycle.{LifecycleState, is_failed}
use ultimate_bbsbox.Supervisor.Instance.{Instance, active_holds, sum_holds, hold_count}
use ultimate_bbsbox.Supervisor.Cell.{
  Env, Cell, update, persist, drive, sleep, transition, hold_added, hold_removed, add_hold,
  remove_hold,
}
use ultimate_bbsbox.Supervisor.Methods.{
  admin_stop, let_go, session_opened, session_dropped, open_hold, close_hold, fresh_id, stop,
  occupy, acquire_session, release_session,
}
use ultimate_bbsbox.Supervisor.Run.{schedule_idle}
use ultimate_bbsbox.Supervisor.Maintenance.{tick_service}
use ultimate_bbsbox.Supervisor.Local.{
  IsLocal, ensure-local, schedule_idle-local, local_rules, admin_stop-IsQuiet,
}

hold_count-le-sum_holds : (k : String) (d : Dict ℕ) → hold_count k d ≤ sum_holds d
unfolding hold_count sum_holds lookup
hold_count-le-sum_holds k [] = omega arith
hold_count-le-sum_holds k ((j, n) ∷ d) = ground (arith, hold_count-le-sum_holds k d)

hold_added-count :
    (i : Instance)
    → hold_count "sessions" (hold_added "sessions" i).holds ≡ hold_count "sessions" i.holds + 1
unfolding hold_added hold_count
hold_added-count i = rw lookup-insert

hold_added-count-le :
    (reason : String) (i : Instance)
    → hold_count "sessions" i.holds ≤ hold_count "sessions" (hold_added reason i).holds
unfolding hold_added hold_count
hold_added-count-le reason i = ground (
  arith,
  eq_iff reason "sessions",
  lookup-insert reason "sessions" (hold_count reason i.holds + 1) i.holds,
)

hold_added-sessions : (reason : String) (i : Instance) → (hold_added reason i).sessions ≡ i.sessions
unfolding hold_added
hold_added-sessions reason i = refl

hold_removed-sessions :
    (reason : String) (i : Instance) → (hold_removed reason i).sessions ≡ i.sessions
unfolding hold_removed
hold_removed-sessions reason i = refl

hold_removed-count :
    (i : Instance)
    → hold_count "sessions" i.holds ≤ hold_count "sessions" (hold_removed "sessions" i).holds + 1
unfolding hold_removed hold_count
hold_removed-count i = ground (
  arith,
  lookup-erase "sessions" "sessions" i.holds,
  lookup-insert "sessions" "sessions" (hold_count "sessions" i.holds - 1) i.holds,
)

module _ {W : Type 0} where
  -- Each open session is counted among the holds.
  pub record IsCovered (c : Cell W) : Type 0 where
    pub covered : length c.instance_.sessions ≤ hold_count "sessions" c.instance_.holds

  pub record IsOpen (id : String) (c : Cell W) : Type 0 where
    pub covered : length c.instance_.sessions ≤ hold_count "sessions" c.instance_.holds
    pub open_ : contains id c.instance_.sessions ≡ true

  IsOpen-IsCovered : (id : String) (c : Cell W) → IsOpen id c → IsCovered c
  IsOpen-IsCovered id c h = record { covered = h.covered }

  pub let_go-IsCovered : Keeps IsCovered (update {W = W} let_go)
  unfolding update let_go hold_count lookup
  let_go-IsCovered = Keeps-modify _ (λ c h. record { covered = omega arith })

  open_hold-IsOpen : (id : String) (t : ℕ) → Leads IsCovered (IsOpen id) (open_hold {W = W} id t)
  unfolding open_hold update session_opened add_hold persist ◌>>=◌
  open_hold-IsOpen id t = record {
    to = λ c h.
        let i = session_opened id t c.instance_ in
        record {
          covered =
              rw (hold_added-sessions "sessions" i, hold_added-count i)
                (omega (arith, h.covered, length-insert-le id t c.instance_.sessions));
          open_ = rw (hold_added-sessions "sessions" i, lookup-insert, eq_refl id);
        };
  }

  close_hold-IsCovered : (id : String) → Leads (IsOpen id) IsCovered (close_hold {W = W} id)
  unfolding close_hold update session_dropped remove_hold persist ◌>>=◌
  close_hold-IsCovered id = record {
    to = λ c h.
        let i = session_dropped id c.instance_ in
        record {
          covered = rw (hold_removed-sessions "sessions" i) (
              omega (
                arith,
                h.covered,
                length-erase-lt id c.instance_.sessions h.open_,
                hold_removed-count i,
              ));
        };
  }

module _ {W : Type 0} (env : Env W) where
  enter-IsOpen-frame :
      (new : LifecycleState) (reason : String) (error : Option Error) (c : Cell W)
      → ((transition env new reason error c).1.instance_.sessions ≡ c.instance_.sessions)
        × ((transition env new reason error c).1.instance_.holds ≡ c.instance_.holds)
  unfolding transition
  enter-IsOpen-frame new reason error c = ground arith

  pub IsCovered-IsLocal : IsLocal env IsCovered
  unfolding update persist drive sleep
  IsCovered-IsLocal = record {
    quiet = λ f q. Keeps-modify _ (λ c h.
        let same = q c.instance_ in
        record { covered = rw (same.same_sessions, same.same_holds) h.covered });
    held = λ reason. Keeps-modify _ (λ c h. record {
      covered =
          rw (hold_added-sessions reason c.instance_)
            (omega (arith, h.covered, hold_added-count-le reason c.instance_));
    });
    persisted = Keeps-modify _ (λ c h. record { covered = h.covered });
    driven = λ A call. record { at = λ c h. record { covered = h.covered } };
    entered = λ new reason error. record {
      at = λ c h.
          let (a, b) = enter-IsOpen-frame new reason error c in
          record { covered = rw (a, b) h.covered };
    };
    slept = λ n. Keeps-modify _ (λ c h. record { covered = h.covered });
  }

  pub IsOpen-IsLocal : (id : String) → IsLocal env (IsOpen id)
  unfolding update persist drive sleep
  IsOpen-IsLocal id = record {
    quiet = λ f q. Keeps-modify _ (λ c h.
        let same = q c.instance_ in
        record {
          covered = rw (same.same_sessions, same.same_holds) h.covered;
          open_ = rw (same.same_sessions) h.open_;
        });
    held = λ reason. Keeps-modify _ (λ c h. record {
      covered =
          rw (hold_added-sessions reason c.instance_)
            (omega (arith, h.covered, hold_added-count-le reason c.instance_));
      open_ = rw (hold_added-sessions reason c.instance_) h.open_;
    });
    persisted = Keeps-modify _ (λ c h. record { covered = h.covered; open_ = h.open_ });
    driven = λ A call. record { at = λ c h. record { covered = h.covered; open_ = h.open_ } };
    entered = λ new reason error. record {
      at = λ c h.
          let (a, b) = enter-IsOpen-frame new reason error c in
          record { covered = rw (a, b) h.covered; open_ = rw a h.open_ };
    };
    slept = λ n. Keeps-modify _ (λ c h. record { covered = h.covered; open_ = h.open_ });
  }

  fresh_id-IsCovered : Keeps IsCovered (fresh_id env)
  unfolding fresh_id pure
  fresh_id-IsCovered = record { at = λ c h. record { covered = h.covered } }

  module _ (s : Service) where
    abandon :
        (id : String) (e : Error)
        → Leads (IsOpen {W = W} id) IsCovered (do close_hold id; raise {A = Unit {0}} e)
    abandon id e =
        Leads-bind _ _ (close_hold-IsCovered id)
          (λ _. Leads-of_Keeps _ (search keeps_rules) (λ c h. h)) (λ c h. h)

    occupy-IsCovered : (id : String) (t : ℕ) → Keeps IsCovered (occupy env s id t)
    unfolding occupy
    occupy-IsCovered id t =
        let tried =
          Leads-try_catch _ _
            (Leads-of_Keeps _ (ensure-local (IsOpen-IsLocal id) s "session") (λ c h. h))
            (abandon id) (IsOpen-IsCovered id) in
        record {
          at =
              (Leads-bind _ _ (open_hold-IsOpen id t)
                (λ _.
                  Leads-bind _ _ tried (λ _. Leads-of_Keeps _ (search keeps_rules) (λ c h. h))
                    (λ c h. h))
                (IsOpen-IsCovered id)).to;
        }

    pub acquire_session-IsCovered : Keeps IsCovered (acquire_session env s)
    unfolding acquire_session
    acquire_session-IsCovered =
        let local = IsCovered-IsLocal in
        search (local_rules, local, fresh_id-IsCovered, occupy-IsCovered) depth 12

    release_session-closes :
        (id : String) (c : Cell W)
        → contains id c.instance_.sessions ≡ true
        → release_session env s id c ≡ (close_hold id >> schedule_idle env s) c
    unfolding release_session ◌>>=◌
    release_session-closes id c h = rw h

    release_session-unknown :
        (id : String) (c : Cell W)
        → contains id c.instance_.sessions ≡ false
        → release_session env s id c ≡ (err unknown_session, c)
    unfolding release_session ◌>>=◌
    release_session-unknown id c h = rw h

    released :
        (id : String) (c : Cell W)
        → IsCovered c
        → (contains id c.instance_.sessions ≡ true) ⊎ (contains id c.instance_.sessions ≡ false)
        → IsCovered (release_session env s id c).1
    released id c h (inl known) = rw (release_session-closes id c known) (
        (Leads-bind _ _ (close_hold-IsCovered id)
            (λ _. Leads-of_Keeps _ (schedule_idle-local IsCovered-IsLocal s) (λ c h. h))
            (λ c h. h)).to
          c (record { covered = h.covered; open_ = known }))
    released id c h (inr unknown) = rw (release_session-unknown id c unknown) h

    pub release_session-IsCovered : (id : String) → Keeps IsCovered (release_session env s id)
    release_session-IsCovered id = record {
      at = λ c h. released id c h (Bool-cases (contains id c.instance_.sessions));
    }

    held_by_session :
        (c : Cell W)
        → IsCovered c
        → 0 < length c.instance_.sessions
        → leb (active_holds c.instance_) 0 ≡ false
    unfolding active_holds
    held_by_session c h open_ =
        let counted = hold_count-le-sum_holds "sessions" c.instance_.holds in
        ground (arith, h.covered, counted)

    stopping-IsCovered :
        (c : Cell W) → IsCovered c → IsCovered (record c { instance_ = admin_stop c.instance_ })
    stopping-IsCovered c h =
        let same = admin_stop-IsQuiet c.instance_ in
        record { covered = rw (same.same_sessions, same.same_holds) h.covered }

    -- While a session is open, a stop that is not forced is refused with ServiceBusyError: no
    -- transition is made, nothing is journaled and the driver is not called. Only an
    -- administrator's stop withdraws the standing intent and its hold.
    pub stop-busy :
        (reason : String) (c : Cell W)
        → IsCovered c
        → 0 < length c.instance_.sessions
        → stop env s false reason c ≡ (
          err service_busy,
          if reason == "admin" then record c { instance_ = admin_stop c.instance_ } else c,
        )
    unfolding stop ◌>>=◌ update
    stop-busy reason c h open_ =
        let withdrawn : Cell W = record c { instance_ = admin_stop c.instance_ } in
        let same = admin_stop-IsQuiet c.instance_ in
        let held = held_by_session c h open_ in
        let still_held =
          held_by_session withdrawn (stopping-IsCovered c h) (rw (same.same_sessions) open_) in
        elim (Bool-cases (reason == "admin")) [
          | inl admin ↦ rw admin (rw still_held)
          | inr other ↦ rw other (rw held)
        ]

    -- While a session is open, the idle part of a tick leaves a service that has not failed as it is,
    -- whatever its idle deadline and the time.
    pub tick_service-busy :
        (time : ℕ) (c : Cell W)
        → IsCovered c
        → 0 < length c.instance_.sessions
        → is_failed c.instance_.state ≡ false
        → tick_service env s time c ≡ (ok tt, c)
    unfolding tick_service ◌>>=◌
    tick_service-busy time c h open_ alive = ground (arith, held_by_session c h open_)
