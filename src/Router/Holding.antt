-- ===== src/Router/Holding.antt =====
-- `scripts/ubb_router/router.py`: the steps of `close_session` that call nothing in the world keep what
-- holds of it, and those before the release keep the session's hold.
use ultimate_bbsbox.Prelude.{String, Bool, true, false, ◌≡◌, refl, Option, none, some, eq_refl}
use ultimate_bbsbox.Prelude.Dict.{lookup, lookup-insert}
use ultimate_bbsbox.Prelude.Exec.{skip, attempt, Keeps, Keeps-modify, keeps_rules}
use ultimate_bbsbox.Errors.{Error}
use ultimate_bbsbox.Router.Models.{SessionState, may_follow, Session}
use ultimate_bbsbox.Router.Sessions.{
  Ports, Router, session_of, or_missing, assign, act, change_state, moved, moved_if,
}
use ultimate_bbsbox.Router.Routing.{close_stream, conclude, restore, restore_id, restore_parent}

module _ {W : Type 0} (ports : Ports W) (Given : W → Type 0) where
  abbrev IsGiven : Router W → Type 0
  IsGiven c = Given c.world

  change_state-IsGiven :
      (k : String) (new : SessionState) (kind : String) (reason : Option String)
      (error : Option Error)
      → Keeps IsGiven (change_state ports k new kind reason error)
  unfolding change_state moved
  change_state-IsGiven k new kind reason error = record {
    at = λ c h. found c h (lookup k c.sessions) refl;
  }
    where
      stepped :
          (c : Router W) (s : Session) (b : Bool)
          → IsGiven c
          → IsGiven (moved_if ports b k new kind reason error s c).1
      stepped c s true h = h
      stepped c s false h = h

      found :
          (c : Router W)
          → IsGiven c
          → (o : Option Session) → lookup k c.sessions ≡ o
          → IsGiven (change_state ports k new kind reason error c).1
      found c h none l = rw (l, change_state) h
      found c h (some s) l = rw (l, change_state) (stepped c s (may_follow s.state new) h)

  pub session_of-IsGiven : (k : String) → Keeps IsGiven (session_of k)
  unfolding session_of
  session_of-IsGiven k = record { at = λ c h. found c (lookup k c.sessions) h }
    where
      found : (c : Router W) (o : Option Session) → IsGiven c → IsGiven (or_missing o c).1
      found c none h = h
      found c (some s) h = h

  assign-IsGiven : (k : String) (f : Session → Session) → Keeps IsGiven (assign k f)
  unfolding assign
  assign-IsGiven k f = Keeps-modify _ (λ c h. h)

  restore-IsGiven : (k : String) (found : Option Session) → Keeps IsGiven (restore ports k found)
  unfolding restore
  restore-IsGiven k none = search keeps_rules
  restore-IsGiven k (some parent) = search (keeps_rules, change_state-IsGiven)

  restore_id-IsGiven : (k : Option String) → Keeps IsGiven (restore_id ports k)
  unfolding restore_id
  restore_id-IsGiven none = search keeps_rules
  restore_id-IsGiven (some k) = search (keeps_rules, restore-IsGiven) depth 8

  pub restore_parent-IsGiven : (child : Session) → Keeps IsGiven (restore_parent ports child)
  unfolding restore_parent
  restore_parent-IsGiven child = search (keeps_rules, restore_id-IsGiven)

  pub conclude-IsGiven :
      (id reason : String) (error : Option Error) → Keeps IsGiven (conclude ports id reason error)
  unfolding conclude
  conclude-IsGiven id reason none = search (keeps_rules, change_state-IsGiven)
  conclude-IsGiven id reason (some error) = search (keeps_rules, change_state-IsGiven)

-- The session has a hold that is not given back.
pub record IsHolding {W : Type 0} (id target hold : String) (c : Router W) : Type 0 where
  pub session : Session
  pub found : lookup id c.sessions ≡ some session
  pub target_ : session.target_service ≡ target
  pub hold_ : session.lifecycle_session_id ≡ some hold
  pub unreleased : session.hold_released ≡ false

module _ {W : Type 0} (ports : Ports W) (id target hold : String) where
  pub change_state-IsHolding :
      (new : SessionState) (kind : String) (reason : Option String) (error : Option Error)
      → Keeps (IsHolding id target hold) (change_state ports id new kind reason error)
  unfolding change_state moved
  change_state-IsHolding new kind reason error = record {
    at = λ c h. rw (h.found, change_state) (stepped c h (may_follow h.session.state new));
  }
    where
      stepped :
          (c : Router W) (h : IsHolding id target hold c) (b : Bool)
          → IsHolding id target hold (moved_if ports b id new kind reason error h.session c).1
      stepped c h true =
          let s' : Session = record h.session { state = new } in
          record {
            session = s';
            found = rw (lookup-insert id id s' c.sessions, eq_refl id) refl;
            target_ = h.target_;
            hold_ = h.hold_;
            unreleased = h.unreleased;
          }
      stepped c h false = h

  pub session_of-IsHolding : Keeps (IsHolding {W = W} id target hold) (session_of id)
  unfolding session_of
  session_of-IsHolding = record { at = λ c h. rw (h.found) h }

  pub close_stream-IsHolding :
      (stream : Option _) → Keeps (IsHolding id target hold) (attempt (close_stream ports stream))
  unfolding close_stream attempt act skip
  close_stream-IsHolding none = record { at = λ c h. h }
  close_stream-IsHolding (some k) = record {
    at = λ c h. record {
      session = h.session;
      found = h.found;
      target_ = h.target_;
      hold_ = h.hold_;
      unreleased = h.unreleased;
    };
  }
