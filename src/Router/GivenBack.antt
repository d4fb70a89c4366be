-- ===== src/Router/GivenBack.antt =====
-- `close_session` of `scripts/ubb_router/router.py`: the lifecycle hold of a session goes back to the
-- supervisor. What the supervisor makes of a hold that is given back is an argument, `Given`.
use ultimate_bbsbox.Prelude.{String, Bool, true, false, not, ◌≡◌, refl, none, some, ◌==◌}
use ultimate_bbsbox.Prelude.Dict.{lookup}
use ultimate_bbsbox.Prelude.Exec.{
  Result, ok, err, when, attempt, raise, ◌>>=◌, ◌>>◌, modify, continue, Keeps, Keeps-bind, >>=-ok,
}
use ultimate_bbsbox.Prelude.Hoare.{Yields, Yields-bind, Hoare, Hoare-bind, Hoare-keeps}
use ultimate_bbsbox.Errors.{Error}
use ultimate_bbsbox.Router.Models.{is_closing, Session}
use ultimate_bbsbox.Router.Sessions.{Ports, Router, session_of, assign, act}
use ultimate_bbsbox.Router.Routing.{
  release_if, release_hold, first_error, conclude, shut, restore_parent, close_session, reason_of,
}
use ultimate_bbsbox.Router.Holding.{
  session_of-IsGiven, restore_parent-IsGiven, conclude-IsGiven, IsHolding, change_state-IsHolding,
  session_of-IsHolding, close_stream-IsHolding,
}
use ultimate_bbsbox.Router.Ended.{IsEnded}
use ultimate_bbsbox.Router.Closed.{close_session-IsEnded, here}

module _ {W : Type 0} (ports : Ports W) (Given : W → Type 0) (id target hold : String)
    (named : (hold == "") ≡ false)
    (gives : (w : W)
      → (ports.release target hold w).0 ≡ ok tt
      → Given (ports.release target hold w).1) where
  noted_given :
      (c : Router W) (r : Result Error (Unit {0})) (w : W)
      → (r ≡ ok tt → Given w)
      → (continue r
          (λ _. assign {W = W} id (λ s. record s { hold_released = true }))
          (record c { world = w })).0
        ≡ ok tt
      → Given
          (continue r
            (λ _. assign {W = W} id (λ s. record s { hold_released = true }))
            (record c { world = w })).1.world
  unfolding assign modify
  noted_given c (err x) w g e = cc
  noted_given c (ok _) w g e = g refl

  release_hold-given :
      (c : Router W)
      → IsHolding id target hold c
      → (release_hold ports id c).0 ≡ ok tt
      → Given (release_hold ports id c).1.world
  unfolding release_hold session_of release_if when act ◌>>=◌
  release_hold-given c h e =
      rw (h.found, h.hold_, h.unreleased, named, h.target_)
        (noted_given c _ _ (gives c.world)
          (rw (h.found, h.hold_, h.unreleased, named, h.target_) at e))

  never_given :
      (reason : String) (error : Error)
      → Yields (conclude ports id reason (some error)) (λ u c. Given c.world)
  unfolding conclude raise
  never_given reason error = Yields-bind _ _ λ _. record { on = λ s a e. cc }

  concluded_given :
      (c : Router W) (reason : String) (r1 r2 : Result Error (Unit {0})) (u : Unit {0})
      → (r2 ≡ ok tt → Given c.world)
      → (conclude ports id reason (first_error r1 r2) c).0 ≡ ok u
      → Given (conclude ports id reason (first_error r1 r2) c).1.world
  concluded_given c reason (err x) r2 u g e = (never_given reason x).on c u e
  concluded_given c reason (ok _) (err x) u g e = (never_given reason x).on c u e
  concluded_given c reason (ok _) (ok _) u g e =
      (conclude-IsGiven ports Given id reason none).at c (g refl)

  finished_given :
      (reason : String) (r1 : Result Error (Unit {0}))
      → Hoare
          (IsHolding id target hold)
          (attempt (release_hold ports id) >>= λ released.
            assign id (λ s. record s { termination_reason = some reason }) >>= λ _.
            conclude ports id reason (first_error r1 released))
          (λ c. Given c.world)
  unfolding attempt assign modify ◌>>=◌
  finished_given reason r1 = record {
    after = λ c h u e.
        concluded_given
          (assign {W = W} id (λ s. record s { termination_reason = some reason })
            (release_hold ports id c).1).1
          reason r1 (release_hold ports id c).0 u (λ good. release_hold-given c h good) e;
  }

  shut-given :
      (reason : String)
      → Hoare (IsHolding id target hold) (shut ports id reason) (λ c. Given c.world)
  unfolding shut
  shut-given reason =
      Hoare-bind _ _ (Hoare-keeps _ (change_state-IsHolding ports id target hold _ _ _ _)) λ _.
        Hoare-bind _ _ (Hoare-keeps _ (session_of-IsHolding ports id target hold)) λ s.
          Hoare-bind _ _ (Hoare-keeps _ (close_stream-IsHolding ports id target hold s.stream))
            λ r1. finished_given reason r1

  closed_given :
      (b : Bool) (reason : String)
      → b ≡ false
      → Hoare
          (IsHolding id target hold)
          (when (not b) (do shut ports id reason; child ← session_of id; restore_parent ports child)
            >>= λ _. session_of id)
          (λ c. Given c.world)
  unfolding when
  closed_given true reason same = cc
  closed_given false reason same =
      Hoare-bind _ _ (Hoare-bind _ _ (shut-given reason) λ _. Hoare-keeps _ parted)
        λ _. Hoare-keeps _ (session_of-IsGiven ports Given id)
    where
      parted : Keeps (λ c. Given c.world) (session_of id >>= λ child. restore_parent ports child)
      parted =
          Keeps-bind _ _ (session_of-IsGiven ports Given id)
            λ child. restore_parent-IsGiven ports Given child

  -- When `close_session` returns on a session that was not closed or closing and had a lifecycle hold,
  -- the supervisor has been given the hold back, and the session is closed and marked so: with
  -- `Given` for whatever holds of the world once `release` has returned for that hold.
  pub close_session-given :
      (reason : String) (c : Router W) (before after : Session)
      → lookup id c.sessions ≡ some before
      → is_closing before.state ≡ false
      → before.target_service ≡ target
      → before.lifecycle_session_id ≡ some hold
      → before.hold_released ≡ false
      → (close_session ports id reason c).0 ≡ ok after
      → Given (close_session ports id reason c).1.world
        × IsEnded id (close_session ports id reason c).1
  unfolding close_session
  close_session-given reason c before after l b t h r e =
      let holding : IsHolding id target hold c = record {
        session = before;
        found = l;
        target_ = t;
        hold_ = h;
        unreleased = r;
      } in
      let (s, es, ran) = >>=-ok (session_of id) _ c e in
      let same : s ≡ before = here ports id c before s l es in
      let kept = (session_of-IsHolding ports id target hold).at c holding in
      (
        rw ran (
            (closed_given (is_closing s.state) (reason_of reason) (rw same b)).after
              (session_of id c).1 kept after (rw ran at e)),
        close_session-IsEnded ports id reason c before after l b e,
      )
