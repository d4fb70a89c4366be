-- ===== src/Router/Closed.antt =====
-- `close_session` of `scripts/ubb_router/router.py`: restoring the parent does not reopen the child.
use ultimate_bbsbox.Prelude.{
  String, Bool, true, false, not, ◌≡◌, refl, sym, ◌∙◌, Option, none, some, arith, ◌==◌, eq_iff, ap,
  inl, inr, Bool-cases,
}
use ultimate_bbsbox.Prelude.Dict.{lookup, lookup-insert}
use ultimate_bbsbox.Prelude.Exec.{ok, when, ◌>>=◌, ◌>>◌, Keeps, keeps_rules, >>=-ok}
use ultimate_bbsbox.Prelude.Hoare.{Yields}
use ultimate_bbsbox.Errors.{Error}
use ultimate_bbsbox.Router.Models.{SessionState, created, closed, may_follow, is_closing, Session}
use ultimate_bbsbox.Router.Sessions.{
  Ports, Router, session_of, or_missing, change_state, moved, moved_if,
}
use ultimate_bbsbox.Router.Routing.{
  shut, restore, restore_id, restore_parent, close_session, reason_of,
}
use ultimate_bbsbox.Router.Ended.{IsEnded, shut-IsEnded}

abbrev state_or : Option Session → SessionState → SessionState
state_or none d = d
state_or (some s) d = s.state

closed_final : (new : SessionState) → may_follow closed new ≡ false
closed_final created = refl
closed_final _ = refl

module _ {W : Type 0} (ports : Ports W) (id : String) where
  -- A closed session is not moved, and to move another one leaves it alone.
  moved-IsEnded :
      (k : String) (new : SessionState) (kind : String) (reason : Option String)
      (error : Option Error) (s : Session) (c : Router W)
      → lookup k c.sessions ≡ some s
      → may_follow s.state new ≡ true
      → IsEnded id c
      → IsEnded id (moved ports k new kind reason error s c)
  unfolding moved
  moved-IsEnded k new kind reason error s c l a h = elim (Bool-cases (k == id)) [
    | inl same ↦
        let ids : k ≡ id = ground (arith, eq_iff k id) in
        let it : some s ≡ some h.session = sym l ∙ rw ids (h.found) in
        let state : s.state ≡ closed =
          ap (λ (o : Option Session). state_or o closed) it ∙ h.ended in
        absurd (ground (arith, a, state, closed_final new))
    | inr other ↦ record {
      session = h.session;
      found = rw (lookup-insert k id (record s { state = new }) c.sessions, other) (h.found);
      ended = h.ended;
      loose = h.loose;
    }
  ]

  change_state-IsEnded :
      (k : String) (new : SessionState) (kind : String) (reason : Option String)
      (error : Option Error)
      → Keeps (IsEnded id) (change_state ports k new kind reason error)
  unfolding change_state
  change_state-IsEnded k new kind reason error = record {
    at = λ c h. found c h (lookup k c.sessions) refl;
  }
    where
      stepped :
          (c : Router W) (s : Session) (b : Bool)
          → IsEnded id c
          → lookup k c.sessions ≡ some s
          → may_follow s.state new ≡ b
          → IsEnded id (moved_if ports b k new kind reason error s c).1
      stepped c s true h l a = moved-IsEnded k new kind reason error s c l a h
      stepped c s false h l a = h

      found :
          (c : Router W)
          → IsEnded id c
          → (o : Option Session) → lookup k c.sessions ≡ o
          → IsEnded id (change_state ports k new kind reason error c).1
      found c h none l = rw (l, change_state) h
      found c h (some s) l = rw (l, change_state) (stepped c s (may_follow s.state new) h l refl)

  session_of-IsEnded : (k : String) → Keeps (IsEnded {W = W} id) (session_of k)
  unfolding session_of
  session_of-IsEnded k = record { at = λ c h. found c (lookup k c.sessions) h }
    where
      found : (c : Router W) (o : Option Session) → IsEnded id c → IsEnded id (or_missing o c).1
      found c none h = h
      found c (some s) h = h

  restore-IsEnded :
      (k : String) (found : Option Session) → Keeps (IsEnded id) (restore ports k found)
  unfolding restore
  restore-IsEnded k none = search keeps_rules
  restore-IsEnded k (some parent) = search (keeps_rules, change_state-IsEnded)

  restore_id-IsEnded : (k : Option String) → Keeps (IsEnded id) (restore_id ports k)
  unfolding restore_id
  restore_id-IsEnded none = search keeps_rules
  restore_id-IsEnded (some k) = search (keeps_rules, restore-IsEnded) depth 8

  restore_parent-IsEnded : (child : Session) → Keeps (IsEnded id) (restore_parent ports child)
  unfolding restore_parent
  restore_parent-IsEnded child = search (keeps_rules, restore_id-IsEnded)

  rest-IsEnded :
      (reason : String)
      → Yields
          (do shut ports id reason; child ← session_of id; restore_parent ports child)
          (λ u c. IsEnded id c)
  rest-IsEnded reason = record {
    on = λ c u e.
        let (a, ea, same) = >>=-ok (shut ports id reason) _ c e in
        let kept =
          (parted).at (shut ports id reason c).1 ((shut-IsEnded ports id reason).on c a ea) in
        rw same kept;
  }
    where
      parted : Keeps (IsEnded id) (session_of id >>= λ child. restore_parent ports child)
      parted = search (keeps_rules, session_of-IsEnded, restore_parent-IsEnded)

  left_open :
      (b : Bool) (reason : String)
      → b ≡ false
      → Yields
          (when (not b) (do shut ports id reason; child ← session_of id; restore_parent ports child)
            >>= λ _. session_of id)
          (λ s c. IsEnded id c)
  unfolding when
  left_open true reason same = cc
  left_open false reason same = record {
    on = λ c s e.
        let (a, ea, ran) = >>=-ok _ (λ _. session_of id) c e in
        rw ran ((session_of-IsEnded id).at _ ((rest-IsEnded reason).on c a ea));
  }

  pub here :
      (c : Router W) (before s : Session)
      → lookup id c.sessions ≡ some before
      → (session_of {W = W} id c).0 ≡ ok s
      → s ≡ before
  unfolding session_of
  here c before s l e = cc

  -- When `close_session` returns on a session that was not closed or closing, the session is closed and
  -- its lifecycle hold, if it had one, is marked as released.
  pub close_session-IsEnded :
      (reason : String) (c : Router W) (before after : Session)
      → lookup id c.sessions ≡ some before
      → is_closing before.state ≡ false
      → (close_session ports id reason c).0 ≡ ok after
      → IsEnded id (close_session ports id reason c).1
  unfolding close_session
  close_session-IsEnded reason c before after l b e =
      let (s, es, ran) = >>=-ok (session_of id) _ c e in
      let same : s ≡ before = here c before s l es in
      rw ran (
        (left_open (is_closing s.state) (reason_of reason) (rw same b)).on (session_of id c).1 after
          (rw ran at e))
