-- ===== src/Network/Outcome.antt =====
-- What a part of the walk of `_check_cycles` in `scripts/ubb_network_hardening.py` may come to, and how
-- many keys it has still to go.
use ultimate_bbsbox.Prelude.{
  ℕ, ◌+◌, ◌≤◌, ◌<◌, String, true, false, ◌≡◌, ◌⊎◌, refl, ◌∙◌, List, [], ◌∷◌, elem, discard, length,
  arith, ◌==◌, eq_iff, eq_refl, Bool-cases, inl, inr, if◌then◌else◌,
}
use ultimate_bbsbox.Prelude.Dict.{lookup, contains, keys}
use ultimate_bbsbox.Prelude.Exec.{Result, ok, err}
use ultimate_bbsbox.Prelude.Results.{◌>>=◌}
use ultimate_bbsbox.Errors.{Error, network_hardening_error}
use ultimate_bbsbox.Network.Inventory.{Graph, Walk}
use ultimate_bbsbox.Network.Graph.{Reaches, IsOrdered}

-- how many of the keys are not on the way
abbrev pub unvisited : List String → List String → ℕ
unvisited v [] = 0
unvisited v (k ∷ ks) = (if elem k v then 0 else 1) + unvisited v ks

pub unvisited-le : (v ks : List String) → unvisited v ks ≤ length ks
unvisited-le v [] = omega arith
unvisited-le v (k ∷ ks) = ground (arith, unvisited-le v ks)

unvisited-cons-le : (n : String) (v ks : List String) → unvisited (n ∷ v) ks ≤ unvisited v ks
unvisited-cons-le n v [] = omega arith
unvisited-cons-le n v (k ∷ ks) = ground (arith, unvisited-cons-le n v ks)

pub unvisited-cons-lt :
    (n : String) (v ks : List String)
    → elem n ks ≡ true
    → elem n v ≡ false
    → unvisited (n ∷ v) ks < unvisited v ks
unvisited-cons-lt n v [] m h = cc
unvisited-cons-lt n v (k ∷ ks) m h = elim (Bool-cases (k == n)) [
  | inl same ↦
      let names : k ≡ n = ground (arith, eq_iff k n) in
      rw names (ground (arith, unvisited-cons-le n v ks, eq_refl n))
  | inr other ↦ ground (arith, unvisited-cons-lt n v ks, eq_iff k n, eq_iff n k)
]

pub keys-elem : (n : String) (g : Graph) → contains n g ≡ true → elem n (keys g) ≡ true
unfolding lookup keys
keys-elem n [] h = cc
keys-elem n ((k, ds) ∷ g) h = ground (arith, keys-elem n g)

pub elem-keys : (n : String) (g : Graph) → elem n (keys g) ≡ true → contains n g ≡ true
unfolding lookup keys
elem-keys n [] h = cc
elem-keys n ((k, ds) ∷ g) h = ground (arith, elem-keys n g)

pub length-keys : (g : Graph) → length (keys g) ≡ length g
unfolding keys
length-keys [] = refl
length-keys ((k, ds) ∷ g) = omega (arith, length-keys g)

discard-absent : (n : String) (v : List String) → elem n v ≡ false → discard n v ≡ v
discard-absent n [] h = refl
discard-absent n (x ∷ v) h = ground (arith, discard-absent n v)

pub discard-cons : (n : String) (v : List String) → elem n v ≡ false → discard n (n ∷ v) ≡ v
discard-cons n v h = rw (eq_refl n) (discard-absent n v h)

module _ (g : Graph) where
  -- A walk that went on: what is on the way is as it was, and more is finished.
  pub record Goes (w : Walk) (P : Walk → Type 0) (r : Result Error Walk) : Type 0 where
    pub then_at : Walk
    pub returned : r ≡ ok then_at
    pub way : then_at.visiting ≡ w.visiting
    pub ordered : IsOrdered g then_at.finished
    pub more : (x : String) → elem x w.finished ≡ true → elem x then_at.finished ≡ true
    pub reached : P then_at

  -- A walk that was stopped, by a cycle.
  pub record Stops (r : Result Error Walk) : Type 0 where
    pub around : String
    pub cycle : Reaches g around around
    pub raised : r ≡ err network_hardening_error

  abbrev pub Outcome : Walk → (Walk → Type 0) → Result Error Walk → Type 0
  Outcome w P r = Goes w P r ⊎ Stops r

  abbrev pub HasFinished : String → Walk → Type 0
  HasFinished n w = elem n w.finished ≡ true

  abbrev pub HasFinishedAll : List String → Walk → Type 0
  HasFinishedAll ds w =
      (d : String) → elem d ds ≡ true → contains d g ≡ true → elem d w.finished ≡ true

  pub and_then :
      (w : Walk) (P Q : Walk → Type 0) (r : Result Error Walk) (f : Walk → Result Error Walk)
      → Outcome w P r
      → ((v : Walk) → v.visiting ≡ w.visiting → IsOrdered g v.finished → P v → Outcome v Q (f v))
      → Outcome w
          (λ u.
            Q u
            × ((v : Walk) × P v
                × ((x : String) → elem x v.finished ≡ true → elem x u.finished ≡ true)))
          (r >>= f)
  and_then w P Q r f (inr s) k =
      inr (record { around = s.around; cycle = s.cycle; raised = rw s.raised refl })
  and_then w P Q r f (inl go) k = elim (k go.then_at go.way go.ordered go.reached) [
    | inr s ↦
        inr
          (record { around = s.around; cycle = s.cycle; raised = rw (go.returned, s.raised) refl })
    | inl on ↦ inl (record {
      then_at = on.then_at;
      returned = rw (go.returned, on.returned) refl;
      way = on.way ∙ go.way;
      ordered = on.ordered;
      more = λ x h. on.more x (go.more x h);
      reached = (on.reached, (go.then_at, go.reached, on.more));
    })
  ]

  pub weaken :
      (w : Walk) (P Q : Walk → Type 0) (r : Result Error Walk)
      → ((v : Walk) → P v → Q v)
      → Outcome w P r
      → Outcome w Q r
  weaken w P Q r f (inr s) = inr s
  weaken w P Q r f (inl go) = inl (record {
    then_at = go.then_at;
    returned = go.returned;
    way = go.way;
    ordered = go.ordered;
    more = go.more;
    reached = f go.then_at go.reached;
  })
