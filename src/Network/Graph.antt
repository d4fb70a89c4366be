-- ===== src/Network/Graph.antt =====
-- The dependencies of services as a relation, and what a list of finished services says of cycles.
use ultimate_bbsbox.Prelude.{
  String, true, ◌≡◌, List, [], ◌∷◌, elem, arith, ◌==◌, eq_iff, Bool-cases, inl, inr,
}
use ultimate_bbsbox.Prelude.Dict.{contains}
use ultimate_bbsbox.Network.Inventory.{Graph, dependencies}

-- `b` stands among the dependencies of `a`, and has dependencies of its own.
pub record DependsOn (g : Graph) (a b : String) : Type 0 where
  pub listed : elem b (dependencies a g) ≡ true
  pub known : contains b g ≡ true

-- A chain of dependencies, of one at least.
pub data Reaches (g : Graph) (a : String) : String → Type 0 where
  direct : {b : String} → DependsOn g a b → Reaches g a b
  further : {b c : String} → Reaches g a b → DependsOn g b c → Reaches g a c

-- Each service of the list has its dependencies behind it.
abbrev pub IsOrdered : Graph → List String → Type 0
IsOrdered g [] = Unit {0}
IsOrdered g (x ∷ xs) = ((d : String) → DependsOn g x d → elem d xs ≡ true) × IsOrdered g xs

module _ (g : Graph) where
  IsOrdered-closed :
      (a b : String) (xs : List String)
      → IsOrdered g xs
      → elem a xs ≡ true
      → DependsOn g a b
      → elem b xs ≡ true
  IsOrdered-closed a b [] h m d = cc
  IsOrdered-closed a b (x ∷ xs) h m d = elim (Bool-cases (x == a)) [
    | inl same ↦
        let names : x ≡ a = ground (arith, eq_iff x a) in
        let there : elem b xs ≡ true = h.0 b (rw names d) in ground arith
    | inr other ↦
        let there : elem b xs ≡ true = IsOrdered-closed a b xs h.1 (ground arith) d in ground arith
  ]

  reached_within :
      (a b : String) (xs : List String)
      → IsOrdered g xs
      → elem a xs ≡ true
      → Reaches g a b
      → elem b xs ≡ true
  reached_within a b xs h m (direct d) = IsOrdered-closed a b xs h m d
  reached_within a b xs h m (further {b = c} r d) =
      IsOrdered-closed c b xs h (reached_within a c xs h m r) d

  reached_behind :
      (x b : String) (xs : List String)
      → ((d : String) → DependsOn g x d → elem d xs ≡ true)
      → IsOrdered g xs
      → Reaches g x b
      → elem b xs ≡ true
  reached_behind x b xs f h (direct d) = f b d
  reached_behind x b xs f h (further {b = c} r d) =
      IsOrdered-closed c b xs h (reached_behind x c xs f h r) d

  -- A service of such a list does not depend on itself, over however many steps.
  pub IsOrdered-acyclic :
      (a : String) (xs : List String) → IsOrdered g xs → elem a xs ≡ true → Reaches g a a → ⊥
  IsOrdered-acyclic a [] h m r = cc
  IsOrdered-acyclic a (x ∷ xs) h m r = elim (Bool-cases (x == a)) [
    | inl same ↦
        let names : x ≡ a = ground (arith, eq_iff x a) in
        IsOrdered-acyclic a xs h.1 (reached_behind a a xs (λ d e. h.0 d (rw names e)) h.1 r) r
    | inr other ↦ IsOrdered-acyclic a xs h.1 (ground arith) r
  ]
