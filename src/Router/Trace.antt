-- ===== src/Router/Trace.antt =====
-- The router's journal: for each session every state it was in, in order, along the transition graph.
use ultimate_bbsbox.Prelude.{
  String, Bool, true, false, ◌&&◌, ◌≡◌, refl, ap, sym, ◌∙◌, Option, none, some, List, [], ◌∷◌, ◌++◌,
  arith, keep_if, ◌==◌, eq_iff, if◌then◌else◌, Bool-cases, inl, inr,
}
use ultimate_bbsbox.Prelude.Dict.{lookup, insert, lookup-insert}
use ultimate_bbsbox.Prelude.Exec.{Keeps, Keeps-modify}
use ultimate_bbsbox.Errors.{Error}
use ultimate_bbsbox.Router.Models.{
  SessionState, created, authorizing, acquiring, connecting, active, handing_off, closing, closed,
  failed, may_follow, Session, RouteRequest, HandoffMode,
}
use ultimate_bbsbox.Router.Sessions.{
  Act, Ports, SessionEvent, Router, session_event, new_session, assign, act, generated, moved,
  change_state, added, register_as, changed, moved_if,
}

abbrev pub is_state : SessionState → SessionState → Bool
is_state created created = true
is_state authorizing authorizing = true
is_state acquiring acquiring = true
is_state connecting connecting = true
is_state active active = true
is_state handing_off handing_off = true
is_state closing closing = true
is_state closed closed = true
is_state failed failed = true
is_state _ _ = false

-- An edge for one event: the first makes the session, each other starts where it is.
unfoldable pub is_edge : Option SessionState → Option SessionState → SessionState → Bool
is_edge none none new = is_state created new
is_edge (some at) (some old) new = is_state at old && may_follow old new
is_edge _ _ new = false

-- The state that the session is in after the events, if each is an edge.
unfoldable pub replay_session :
    Option SessionState → List SessionEvent → Option (Option SessionState)
replay_session at [] = some at
replay_session at (e ∷ es) =
    let rest = replay_session (some e.new_state) es in
    if is_edge at e.old_state e.new_state then rest else none

abbrev pub events_on : String → List SessionEvent → List SessionEvent
events_on id = keep_if (λ e. e.session_id == id)

abbrev pub state_in : Option Session → Option SessionState
state_in none = none
state_in (some s) = some s.state

abbrev pub id_in : Option Session → String → String
id_in none id = id
id_in (some s) id = s.id

pub record IsJournaled {W : Type 0} (c : Router W) : Type 0 where
  pub named : (id : String) → id_in (lookup id c.sessions) id ≡ id
  pub traced :
      (id : String)
      → replay_session none (events_on id c.journal) ≡ some (state_in (lookup id c.sessions))

is_state_refl : (s : SessionState) → is_state s s ≡ true
is_state_refl created = refl
is_state_refl _ = refl

replay_session-snoc :
    (at now : Option SessionState) (es : List SessionEvent) (e : SessionEvent)
    → replay_session at es ≡ some now
    → is_edge now e.old_state e.new_state ≡ true
    → replay_session at (es ++ e ∷ []) ≡ some (some e.new_state)
unfolding replay_session
replay_session-snoc at now [] e h a = let same : at ≡ now = cc in rw same (rw a refl)
replay_session-snoc at now (x ∷ es) e h a =
    ground (arith, replay_session-snoc (some x.new_state) now es e)

events_on-snoc :
    (id : String) (es : List SessionEvent) (e : SessionEvent)
    → events_on id (es ++ e ∷ [])
      ≡ (if e.session_id == id then events_on id es ++ e ∷ [] else events_on id es)
events_on-snoc id [] e = ground (arith, eq_iff e.session_id id)
events_on-snoc id (x ∷ es) e = ground (arith, eq_iff e.session_id id, events_on-snoc id es e)

module _ {W : Type 0} (c : Router W) (k : String) (s : Session) (h : IsJournaled c) where
  renamed : s.id ≡ k → (id : String) → id_in (lookup id (insert k s c.sessions)) id ≡ id
  renamed n id = ground (arith, eq_iff k id, lookup-insert k id s c.sessions, h.named id)

  -- one event more, on the session `k`
  extended :
      (e : SessionEvent)
      → e.session_id ≡ k
      → s.state ≡ e.new_state
      → is_edge (state_in (lookup k c.sessions)) e.old_state e.new_state ≡ true
      → (id : String)
      → replay_session none (events_on id (c.journal ++ e ∷ []))
        ≡ some (state_in (lookup id (insert k s c.sessions)))
  extended e m q a id = elim (Bool-cases (k == id)) [
    | inl same ↦
        let ids : k ≡ id = ground (arith, eq_iff k id) in
        let e_id : (e.session_id == id) ≡ true = ground (arith, eq_iff e.session_id id) in
        let step =
          replay_session-snoc none (state_in (lookup id c.sessions)) (events_on id c.journal) e
            (h.traced id) (rw ids at a) in
        rw (lookup-insert k id s c.sessions, same, events_on-snoc id c.journal e, e_id, q) step
    | inr other ↦
        let e_id : (e.session_id == id) ≡ false = rw m other in
        rw (lookup-insert k id s c.sessions, other, events_on-snoc id c.journal e, e_id)
          (h.traced id)
  ]

  stepped :
      (e : SessionEvent)
      → s.id ≡ k
      → e.session_id ≡ k
      → s.state ≡ e.new_state
      → is_edge (state_in (lookup k c.sessions)) e.old_state e.new_state ≡ true
      → IsJournaled (record c { sessions = insert k s c.sessions; journal = c.journal ++ e ∷ [] })
  stepped e n m q a = record { named = renamed n; traced = extended e m q a }

  -- a change of fields other than the name and the state
  assigned :
      s.id ≡ k
      → some s.state ≡ state_in (lookup k c.sessions)
      → IsJournaled (record c { sessions = insert k s c.sessions })
  assigned n q = record {
    named = renamed n;
    traced = λ id. elim (Bool-cases (k == id)) [
      | inl same ↦
          let ids : k ≡ id = ground (arith, eq_iff k id) in
          rw (lookup-insert k id s c.sessions, same, q, ids) (h.traced id)
      | inr other ↦ rw (lookup-insert k id s c.sessions, other) (h.traced id)
    ];
  }

module _ {W : Type 0} where
  pub assign-IsJournaled :
      (id : String) (f : Session → Session)
      → ((s : Session) → (f s).id ≡ s.id)
      → ((s : Session) → (f s).state ≡ s.state)
      → Keeps IsJournaled (assign {W = W} id f)
  unfolding assign
  assign-IsJournaled id f n q = Keeps-modify _ λ c h. found c h (lookup id c.sessions) refl
    where
      found :
          (c : Router W)
          → IsJournaled c
          → (o : Option Session) → lookup id c.sessions ≡ o
          → IsJournaled (record c { sessions = changed f o id c.sessions })
      found c h none l = record { named = h.named; traced = h.traced }
      found c h (some s) l =
          assigned c id (f s) h (n s ∙ ap (λ o. id_in o id) (sym l) ∙ h.named id) (rw (l, q s) refl)

  pub act-IsJournaled : {A : Type 0} (call : Act W A) → Keeps IsJournaled (act call)
  unfolding act
  act-IsJournaled call = record { at = λ c h. record { named = h.named; traced = h.traced } }

  pub generated-IsJournaled :
      (id_factory : W → String × W) → Keeps IsJournaled (generated id_factory)
  unfolding generated
  generated-IsJournaled id_factory = record {
    at = λ c h. record { named = h.named; traced = h.traced };
  }

  module _ (ports : Ports W) where
    moved-IsJournaled :
        (id : String) (new : SessionState) (kind : String) (reason : Option String)
        (error : Option Error) (s : Session) (c : Router W)
        → may_follow s.state new ≡ true
        → lookup id c.sessions ≡ some s
        → IsJournaled c
        → IsJournaled (moved ports id new kind reason error s c)
    unfolding moved session_event is_edge
    moved-IsJournaled id new kind reason error s c a l h =
        let name : s.id ≡ id = ap (λ o. id_in o id) (sym l) ∙ h.named id in
        stepped c id _ h _ name name refl (rw (l, is_state_refl s.state, a) refl)

    pub change_state-IsJournaled :
        (id : String) (new : SessionState) (kind : String) (reason : Option String)
        (error : Option Error)
        → Keeps IsJournaled (change_state ports id new kind reason error)
    unfolding change_state
    change_state-IsJournaled id new kind reason error = record {
      at = λ c h. found c h (lookup id c.sessions) refl;
    }
      where
        allowed :
            (c : Router W) (s : Session) (b : Bool)
            → IsJournaled c
            → lookup id c.sessions ≡ some s
            → may_follow s.state new ≡ b
            → IsJournaled (moved_if ports b id new kind reason error s c).1
        allowed c s true h l a = moved-IsJournaled id new kind reason error s c a l h
        allowed c s false h l a = h

        found :
            (c : Router W)
            → IsJournaled c
            → (o : Option Session) → lookup id c.sessions ≡ o
            → IsJournaled (change_state ports id new kind reason error c).1
        found c h none l = rw (l, change_state) h
        found c h (some s) l = rw (l, change_state) (allowed c s (may_follow s.state new) h l refl)

    pub register_as-IsJournaled :
        (id : String) (request : RouteRequest) (parent : Option String) (mode : Option HandoffMode)
        → Keeps IsJournaled (register_as ports id request parent mode)
    unfolding register_as added new_session session_event is_edge
    register_as-IsJournaled id request parent mode = record {
      at = λ c h. found c h (lookup id c.sessions) refl;
    }
      where
        found :
            (c : Router W)
            → IsJournaled c
            → (o : Option Session) → lookup id c.sessions ≡ o
            → IsJournaled (register_as ports id request parent mode c).1
        found c h none l = rw (l, register_as) (stepped c id _ h _ refl refl refl (rw l refl))
        found c h (some s) l = rw (l, register_as) h
