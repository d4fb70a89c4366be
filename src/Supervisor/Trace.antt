-- ===== src/Supervisor/Trace.antt =====
-- The journal: every state that an instance was in, in order, along the transition graph.
use ultimate_bbsbox.Prelude.{
  String, Bool, true, false, ◌&&◌, ◌≡◌, refl, ap, ◌∙◌, ◌⊎◌, Option, none, some, List, [], ◌∷◌, ◌++◌,
  arith, keep_if, ◌==◌, eq_iff, if◌then◌else◌, Bool-cases, inl, inr,
}
use ultimate_bbsbox.Prelude.Exec.{Keeps, Keeps-modify}
use ultimate_bbsbox.Errors.{Error}
use ultimate_bbsbox.Supervisor.Lifecycle.{
  LifecycleState, stopped, starting, ready, running, maintenance, stopping, failed, allowed,
}
use ultimate_bbsbox.Supervisor.Cell.{
  Env, Event, Cell, update, persist, drive, sleep, transition, enter, hold_added,
}
use ultimate_bbsbox.Supervisor.Local.{IsLocal}

-- The state that the instance is in after the events, if each starts where the one before it ended
-- and follows an edge of the graph.
abbrev pub same_state : LifecycleState → LifecycleState → Bool
same_state stopped stopped = true
same_state starting starting = true
same_state ready ready = true
same_state running running = true
same_state maintenance maintenance = true
same_state stopping stopping = true
same_state failed failed = true
same_state _ _ = false

unfoldable pub replay : LifecycleState → List Event → Option LifecycleState
replay s [] = some s
replay s (e ∷ es) =
    let rest = replay e.new_state es in
    if same_state s e.old_state && allowed s e.new_state then rest else none

abbrev pub events_of : String → List Event → List Event
events_of id = keep_if (λ e. e.service == id)

pub record IsTraced {W : Type 0} (begin : LifecycleState) (id : String) (c : Cell W) : Type 0 where
  pub named : c.instance_.service_id ≡ id
  pub traced : replay begin (events_of id c.journal) ≡ some c.instance_.state

same_state_refl : (s : LifecycleState) → same_state s s ≡ true
same_state_refl stopped = refl
same_state_refl _ = refl

replay-snoc :
    (b s : LifecycleState) (es : List Event) (e : Event)
    → replay b es ≡ some s
    → e.old_state ≡ s
    → allowed s e.new_state ≡ true
    → replay b (es ++ e ∷ []) ≡ some e.new_state
unfolding replay
replay-snoc b s [] e h o a = ground (arith, same_state_refl s, same_state_refl b)
replay-snoc b s (x ∷ es) e h o a = ground (arith, replay-snoc x.new_state s es e)

events_of-snoc :
    (id : String) (es : List Event) (e : Event)
    → e.service ≡ id
    → events_of id (es ++ e ∷ []) ≡ events_of id es ++ e ∷ []
events_of-snoc id [] e h = ground (arith, eq_iff e.service id)
events_of-snoc id (x ∷ es) e h = ground (arith, eq_iff e.service id, events_of-snoc id es e h)

replay-event :
    (b s : LifecycleState) (id : String) (es : List Event) (e : Event)
    → replay b (events_of id es) ≡ some s
    → e.service ≡ id
    → e.old_state ≡ s
    → allowed s e.new_state ≡ true
    → replay b (events_of id (es ++ e ∷ [])) ≡ some e.new_state
replay-event b s id es e h n o a =
    ap (replay b) (events_of-snoc id es e n) ∙ replay-snoc b s (events_of id es) e h o a

module _ {W : Type 0} (env : Env W) (b : LifecycleState) (id : String) where
  enter-IsTraced :
      (new : LifecycleState) (reason : String) (error : Option Error) (c : Cell W)
      → allowed c.instance_.state new ≡ true
      → IsTraced b id c
      → IsTraced b id (enter env new reason error c)
  unfolding enter
  enter-IsTraced new reason error c a h = record {
    named = h.named;
    traced = replay-event b c.instance_.state id c.journal _ h.traced h.named refl a;
  }

  transition-IsTraced :
      (new : LifecycleState) (reason : String) (error : Option Error)
      → Keeps (IsTraced b id) (transition env new reason error)
  unfolding transition
  transition-IsTraced new reason error = record {
    at = λ c h. step c h (Bool-cases (allowed c.instance_.state new));
  }
    where
      step :
          (c : Cell W)
          → IsTraced b id c
          → (allowed c.instance_.state new ≡ true) ⊎ (allowed c.instance_.state new ≡ false)
          → IsTraced b id (transition env new reason error c).1
      step c h (inl a) = rw (a, transition) (enter-IsTraced new reason error c a h)
      step c h (inr a) = rw (a, transition) h

  pub IsTraced-IsLocal : IsLocal env (IsTraced b id)
  unfolding update persist drive sleep hold_added
  IsTraced-IsLocal = record {
    quiet = λ f q. Keeps-modify _ (λ c h. record {
      named = (q c.instance_).same_name ∙ h.named;
      traced = rw ((q c.instance_).same_state) h.traced;
    });
    held = λ reason. Keeps-modify _ (λ c h. record { named = h.named; traced = h.traced });
    persisted = Keeps-modify _ (λ c h. record { named = h.named; traced = h.traced });
    driven = λ A call. record { at = λ c h. record { named = h.named; traced = h.traced } };
    entered = transition-IsTraced;
    slept = λ n. Keeps-modify _ (λ c h. record { named = h.named; traced = h.traced });
  }
