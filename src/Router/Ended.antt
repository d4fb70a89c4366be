-- ===== src/Router/Ended.antt =====
-- What `close_session` of `scripts/ubb_router/router.py` leaves behind when it returns.
use ultimate_bbsbox.Prelude.{
  String, Bool, true, false, not, ◌&&◌, ◌≡◌, refl, Option, none, some, arith, ◌==◌, eq_refl,
}
use ultimate_bbsbox.Prelude.Dict.{lookup, lookup-insert}
use ultimate_bbsbox.Prelude.Exec.{
  Result, ok, err, skip, when, attempt, raise, ◌>>=◌, ◌>>◌, modify, continue,
}
use ultimate_bbsbox.Prelude.Hoare.{Yields, Yields-bind}
use ultimate_bbsbox.Errors.{Error}
use ultimate_bbsbox.Router.Models.{closed, may_follow, Session}
use ultimate_bbsbox.Router.Sessions.{
  Ports, Router, session_of, or_missing, assign, act, change_state, moved, moved_if,
}
use ultimate_bbsbox.Router.Routing.{release_if, release_hold, first_error, conclude, shut}

-- The session still has a lifecycle hold to give back.
abbrev pub is_held : Option String → Bool → Bool
is_held none released = false
is_held (some hold) released = not (hold == "") && not released

-- The session has no hold left.
pub record IsLoose {W : Type 0} (id : String) (c : Router W) : Type 0 where
  pub session : Session
  pub found : lookup id c.sessions ≡ some session
  pub loose : is_held session.lifecycle_session_id session.hold_released ≡ false

module _ {W : Type 0} (ports : Ports W) (id : String) where
  is_held_released : (hold : Option String) → is_held hold true ≡ false
  is_held_released none = refl
  is_held_released (some hold) = ground arith

  released_by :
      (c : Router W) (s : Session) (u : Unit {0}) (r : Result Error (Unit {0})) (w : W)
      → lookup id c.sessions ≡ some s
      → (continue r
          (λ _. assign {W = W} id (λ s. record s { hold_released = true }))
          (record c { world = w })).0
        ≡ ok u
      → IsLoose id
          (continue r
            (λ _. assign {W = W} id (λ s. record s { hold_released = true }))
            (record c { world = w })).1
  unfolding assign modify
  released_by c s u (err x) w l e = cc
  released_by c s u (ok _) w l e =
      let freed : Session = record s { hold_released = true } in
      record {
        session = freed;
        found = rw l (rw (lookup-insert id id freed c.sessions, eq_refl id) refl);
        loose = is_held_released s.lifecycle_session_id;
      }

  release_when :
      (c : Router W) (s : Session) (hold : String) (done b : Bool) (u : Unit {0})
      → lookup id c.sessions ≡ some s
      → (b ≡ false → is_held s.lifecycle_session_id s.hold_released ≡ false)
      → (when b
          (do
            act (ports.release s.target_service hold)
            assign {W = W} id (λ s. record s { hold_released = true }))
          c).0
        ≡ ok u
      → IsLoose id
          (when b
            (do
              act (ports.release s.target_service hold)
              assign {W = W} id (λ s. record s { hold_released = true }))
            c).1
  unfolding when act ◌>>=◌
  release_when c s hold done true u l f e =
      let (r, w) = ports.release s.target_service hold c.world in released_by c s u r w l e
  release_when c s hold done false u l f e = record { session = s; found = l; loose = f refl }

  release_if-IsLoose :
      (c : Router W) (s : Session) (done : Bool) (hold : Option String) (u : Unit {0})
      → lookup id c.sessions ≡ some s
      → s.lifecycle_session_id ≡ hold
      → s.hold_released ≡ done
      → (release_if ports id done hold s.target_service c).0 ≡ ok u
      → IsLoose id (release_if ports id done hold s.target_service c).1
  unfolding release_if skip
  release_if-IsLoose c s done none u l h d e = record { session = s; found = l; loose = rw h refl }
  release_if-IsLoose c s done (some hold) u l h d e =
      release_when c s hold done (not (hold == "") && not done) u l (λ f. rw (h, d) f) e

  release_hold-IsLoose :
      (c : Router W) (u : Unit {0})
      → (release_hold ports id c).0 ≡ ok u
      → IsLoose id (release_hold ports id c).1
  unfolding release_hold session_of ◌>>=◌
  release_hold-IsLoose c u e = known (lookup id c.sessions) refl e
    where
      known :
          (o : Option Session)
          → lookup id c.sessions ≡ o
          → ((or_missing o >>= λ s.
                release_if ports id s.hold_released s.lifecycle_session_id s.target_service)
              c).0
            ≡ ok u
          → IsLoose id
              ((or_missing o >>= λ s.
                  release_if ports id s.hold_released s.lifecycle_session_id s.target_service)
                c).1
      known none l e = cc
      known (some s) l e =
          release_if-IsLoose c s s.hold_released s.lifecycle_session_id u l refl refl e

-- The session is closed and has no hold left.
pub record IsEnded {W : Type 0} (id : String) (c : Router W) : Type 0 where
  pub session : Session
  pub found : lookup id c.sessions ≡ some session
  pub ended : session.state ≡ closed
  pub loose : is_held session.lifecycle_session_id session.hold_released ≡ false

module _ {W : Type 0} (ports : Ports W) (id : String) where
  reasoned :
      (c : Router W) (reason : Option String)
      → IsLoose id c
      → IsLoose id (assign {W = W} id (λ s. record s { termination_reason = reason }) c).1
  unfolding assign modify
  reasoned c reason h =
      let s' : Session = record h.session { termination_reason = reason } in
      record {
        session = s';
        found = rw (h.found) (rw (lookup-insert id id s' c.sessions, eq_refl id) refl);
        loose = h.loose;
      }

  moved_closed :
      (c : Router W) (s : Session) (reason : String) (b : Bool) (u : Unit {0})
      → is_held s.lifecycle_session_id s.hold_released ≡ false
      → (moved_if ports b id closed "closed" (some reason) none s c).0 ≡ ok u
      → IsEnded id (moved_if ports b id closed "closed" (some reason) none s c).1
  unfolding moved
  moved_closed c s reason true u l e =
      let s' : Session = record s { state = closed } in
      record {
        session = s';
        found = rw (lookup-insert id id s' c.sessions, eq_refl id) refl;
        ended = refl;
        loose = l;
      }
  moved_closed c s reason false u l e = cc

  close_state :
      (c : Router W) (reason : String) (u : Unit {0})
      → IsLoose id c
      → (change_state ports id closed "closed" (some reason) none c).0 ≡ ok u
      → IsEnded id (change_state ports id closed "closed" (some reason) none c).1
  unfolding change_state
  close_state c reason u h e =
      rw (h.found, change_state)
        (moved_closed c h.session reason (may_follow h.session.state closed) u h.loose
          (rw (h.found, change_state) at e))

  never :
      (reason : String) (error : Error)
      → Yields (conclude ports id reason (some error)) (λ u c. IsEnded id c)
  unfolding conclude raise
  never reason error = Yields-bind _ _ λ _. record { on = λ s a e. cc }

  concluded :
      (c : Router W) (reason : String) (r1 r2 : Result Error (Unit {0})) (u : Unit {0})
      → (r2 ≡ ok tt → IsLoose id c)
      → (conclude ports id reason (first_error r1 r2) c).0 ≡ ok u
      → IsEnded id (conclude ports id reason (first_error r1 r2) c).1
  unfolding conclude
  concluded c reason (err x) r2 u h e = (never reason x).on c u e
  concluded c reason (ok _) (err x) u h e = (never reason x).on c u e
  concluded c reason (ok _) (ok _) u h e = close_state c reason u (h refl) e

  finished :
      (reason : String) (r1 : Result Error (Unit {0}))
      → Yields
          (attempt (release_hold ports id) >>= λ released.
            assign {W = W} id (λ s. record s { termination_reason = some reason }) >>= λ _.
            conclude ports id reason (first_error r1 released))
          (λ u c. IsEnded id c)
  unfolding attempt assign modify ◌>>=◌
  finished reason r1 = record {
    on = λ c u e.
        concluded
          (assign {W = W} id (λ s. record s { termination_reason = some reason })
            (release_hold ports id c).1).1
          reason r1 (release_hold ports id c).0 u
          (λ good.
            reasoned (release_hold ports id c).1 (some reason)
              (release_hold-IsLoose ports id c tt good))
          e;
  }

  pub shut-IsEnded : (reason : String) → Yields (shut ports id reason) (λ u c. IsEnded id c)
  unfolding shut
  shut-IsEnded reason =
      Yields-bind _ _ λ _. Yields-bind _ _ λ s. Yields-bind _ _ λ r1. finished reason r1
