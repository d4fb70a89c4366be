-- ===== src/Network/Inventory.antt =====
-- `scripts/ubb_network_hardening.py`: the check of an inventory, by its listeners and by the
-- dependencies of its services. The sets of `_check_cycles` are lists here. Its recursion is on a
-- number that stands for Python's stack.
use ultimate_bbsbox.Prelude.{
  ℕ, zero, suc, String, Bool, true, false, not, ◌&&◌, ◌||◌, get_or, List, [], ◌∷◌, elem, discard,
  leb, ◌==◌,
}
use ultimate_bbsbox.Prelude.Dict.{Dict, lookup, contains, keys}
use ultimate_bbsbox.Prelude.Exec.{Result, ok, err}
use ultimate_bbsbox.Prelude.Results.{◌>>=◌, ◌>>◌, check}
use ultimate_bbsbox.Errors.{Error, network_hardening_error, recursion_limit}

pub record Listener : Type 0 where
  pub listener_service : String
  pub listener_protocol : String
  pub listener_host : String
  pub listener_port : ℕ
  pub exposure : String
  pub tls : Bool

-- `Listener.key`, of two listeners
unfoldable pub is_same_listener : Listener → Listener → Bool
is_same_listener a b =
    a.listener_protocol == b.listener_protocol
    && a.listener_host == b.listener_host
    && leb a.listener_port b.listener_port
    && leb b.listener_port a.listener_port

-- `listener.key() in seen`
unfoldable pub is_taken : Listener → List Listener → Bool
is_taken l [] = false
is_taken l (old ∷ seen) = is_same_listener l old || is_taken l seen

unfoldable pub check_collisions : List Listener → List Listener → Result Error (Unit {0})
check_collisions seen [] = ok tt
check_collisions seen (l ∷ ls) = do
  check (not (is_taken l seen)) network_hardening_error
  check_collisions (l ∷ seen) ls

abbrev pub Graph : Type 0
Graph = Dict (List String)

-- `visiting` and `done`
pub record Walk : Type 0 where
  pub visiting : List String
  pub finished : List String

-- `self.dependencies.get(n, [])`
abbrev pub dependencies : String → Graph → List String
dependencies n g = get_or (lookup n g) []

abbrev pub entered : String → Walk → Walk
entered n w = record w { visiting = n ∷ w.visiting }

abbrev pub finish : String → Walk → Walk
finish n w = record { visiting = discard n w.visiting; finished = n ∷ w.finished }

abbrev pub visit_known :
    Bool → (String → Walk → Result Error Walk) → String → Walk → Result Error Walk
visit_known true visit d w = visit d w
visit_known false visit d w = ok w

-- `for d in …: if d in self.dependencies: visit(d)`
unfoldable pub visit_all :
    (String → Walk → Result Error Walk) → Graph → List String → Walk → Result Error Walk
visit_all visit g [] w = ok w
visit_all visit g (d ∷ ds) w = visit_known (contains d g) visit d w >>= visit_all visit g ds

abbrev pub visited : Bool → Bool → (Walk → Result Error Walk) → String → Walk → Result Error Walk
visited true done inner n w = err network_hardening_error
visited false true inner n w = ok w
visited false false inner n w = inner (entered n w) >>= λ w'. ok (finish n w')

unfoldable pub visit : ℕ → Graph → String → Walk → Result Error Walk
visit zero g n w = err recursion_limit
visit (suc depth) g n w =
    visited (elem n w.visiting) (elem n w.finished) (visit_all (visit depth g) g (dependencies n g))
      n w

-- `for n in self.dependencies: visit(n)`
unfoldable pub visit_each : ℕ → Graph → List String → Walk → Result Error Walk
visit_each depth g [] w = ok w
visit_each depth g (n ∷ ns) w = visit depth g n w >>= visit_each depth g ns

abbrev pub fresh_walk : Walk
fresh_walk = record { visiting = []; finished = [] }

unfoldable pub check_cycles : ℕ → Graph → Result Error Walk
check_cycles depth g = visit_each depth g (keys g) fresh_walk

unfoldable pub validate_inventory : ℕ → List Listener → Graph → Result Error (Unit {0})
validate_inventory depth listeners g = do
  check_collisions [] listeners
  check_cycles depth g >>= λ _. ok tt
