-- ===== src/Router/Calls.antt =====
-- Any sequence of calls on a router, whatever they return or raise.
use ultimate_bbsbox.Prelude.{ℕ, String, Option, List, [], ◌∷◌}
use ultimate_bbsbox.Router.Models.{HandoffMode, TerminalCapabilities, RouteRequest}
use ultimate_bbsbox.Router.Sessions.{Ports, Router}
use ultimate_bbsbox.Router.Routing.{open_session, close_session, handoff, read, write}
use ultimate_bbsbox.Router.Trace.{IsJournaled}
use ultimate_bbsbox.Router.Kept.{
  open_session-IsJournaled, close_session-IsJournaled, handoff-IsJournaled, read-IsJournaled,
  write-IsJournaled,
}

pub data RouterCall : Type 0 where
  open_ : RouteRequest → Option String → Option HandoffMode → RouterCall
  close_ : String → String → RouterCall
  handoff_ : String → String → HandoffMode → Option TerminalCapabilities → RouterCall
  read_ : String → ℕ → RouterCall
  write_ : String → List ℕ → RouterCall

module _ {W : Type 0} (ports : Ports W) where
  unfoldable pub router_call : RouterCall → Router W → Router W
  router_call (open_ request parent mode) c = (open_session ports request parent mode c).1
  router_call (close_ id reason) c = (close_session ports id reason c).1
  router_call (handoff_ id target mode terminal) c = (handoff ports id target mode terminal c).1
  router_call (read_ id size) c = (read ports id size c).1
  router_call (write_ id data_) c = (write ports id data_ c).1

  unfoldable pub router_calls : List RouterCall → Router W → Router W
  router_calls [] c = c
  router_calls (x ∷ xs) c = router_calls xs (router_call x c)

  -- Whatever is called on a router whose journal agrees with its sessions, the journal agrees with
  -- them afterwards: the events of an id begin with its registration, each other follows an edge of
  -- the transition graph from where the one before it ended, and the last one ends in the state of
  -- the session of that id; an id without a session has no events.
  pub router_calls-IsJournaled :
      (xs : List RouterCall) (c : Router W) → IsJournaled c → IsJournaled (router_calls xs c)
  unfolding router_calls router_call
  router_calls-IsJournaled [] c h = h
  router_calls-IsJournaled (x ∷ xs) c h = router_calls-IsJournaled xs (router_call x c) (called x)
    where
      called : (x : RouterCall) → IsJournaled (router_call x c)
      called (open_ request parent mode) =
          (open_session-IsJournaled ports request parent mode).at c h
      called (close_ id reason) = (close_session-IsJournaled ports id reason).at c h
      called (handoff_ id target mode terminal) =
          (handoff-IsJournaled ports id target mode terminal).at c h
      called (read_ id size) = (read-IsJournaled ports id size).at c h
      called (write_ id data_) = (write-IsJournaled ports id data_).at c h
