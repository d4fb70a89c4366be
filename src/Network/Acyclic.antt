-- ===== src/Network/Acyclic.antt =====
-- `_check_cycles` of `scripts/ubb_network_hardening.py` finds a cycle exactly when there is one.
use ultimate_bbsbox.Prelude.{
  ℕ, zero, suc, ◌<◌, String, Bool, true, false, ◌≡◌, ◌⊎◌, refl, List, [], ◌∷◌, elem, length, arith,
  ◌==◌, eq_iff, eq_refl, ◌∙◌, Bool-cases, inl, inr,
}
use ultimate_bbsbox.Prelude.Dict.{contains, keys}
use ultimate_bbsbox.Prelude.Exec.{Result, ok, err}
use ultimate_bbsbox.Prelude.Results.{◌>>=◌}
use ultimate_bbsbox.Errors.{Error, network_hardening_error}
use ultimate_bbsbox.Network.Inventory.{
  Graph, Walk, dependencies, entered, finish, visit_known, visit_all, visit, visit_each, fresh_walk,
  check_cycles,
}
use ultimate_bbsbox.Network.Graph.{
  DependsOn, Reaches, direct, further, IsOrdered, IsOrdered-acyclic,
}
use ultimate_bbsbox.Network.Outcome.{
  unvisited, unvisited-le, unvisited-cons-lt, keys-elem, elem-keys, length-keys, discard-cons,
  Outcome, HasFinished, HasFinishedAll, and_then, weaken,
}

module _ (g : Graph) where
  known_outcome :
      (visit : String → Walk → Result Error Walk) (d : String) (w : Walk) (b : Bool)
      → contains d g ≡ b
      → IsOrdered g w.finished
      → (contains d g ≡ true → Outcome g w (HasFinished g d) (visit d w))
      → Outcome g w (λ u. contains d g ≡ true → HasFinished g d u) (visit_known b visit d w)
  known_outcome visit d w true e o step =
      weaken g w (HasFinished g d) _ (visit d w) (λ v h _. h) (step e)
  known_outcome visit d w false e o step = inl (record {
    then_at = w;
    returned = refl;
    way = refl;
    ordered = o;
    more = λ x h. h;
    reached = λ k. cc;
  })

  all_outcome :
      (visit : String → Walk → Result Error Walk) (ds : List String) (w : Walk)
      → IsOrdered g w.finished
      → ((d : String) (v : Walk)
          → elem d ds ≡ true
          → contains d g ≡ true
          → v.visiting ≡ w.visiting
          → IsOrdered g v.finished
          → Outcome g v (HasFinished g d) (visit d v))
      → Outcome g w (HasFinishedAll g ds) (visit_all visit g ds w)
  unfolding visit_all
  all_outcome visit [] w o step = inl (record {
    then_at = w;
    returned = refl;
    way = refl;
    ordered = o;
    more = λ x h. h;
    reached = λ d m k. cc;
  })
  all_outcome visit (d ∷ ds) w o step =
      weaken g w _ (HasFinishedAll g (d ∷ ds)) _
        (λ u h x m k. elim (Bool-cases (d == x)) [
          | inl same ↦
              let names : d ≡ x = ground (arith, eq_iff d x) in h.1.2 x (rw names at h.1.1 k)
          | inr other ↦ h.0 x (ground arith) k
        ])
        (and_then g w (λ u. contains d g ≡ true → HasFinished g d u) (HasFinishedAll g ds)
          (visit_known (contains d g) visit d w) (visit_all visit g ds)
          (known_outcome visit d w (contains d g) refl o
            (λ k. step d w (rw (eq_refl d) refl) k refl o))
          (λ v way ordered _.
            all_outcome visit ds v ordered
              (λ x u m k same. step x u (ground arith) k (same ∙ way))))

  abbrev Follows : String → Walk → Type 0
  Follows n w = (x : String) → elem x w.visiting ≡ true → Reaches g x n

  closed :
      (n : String) (w : Walk) (r : Result Error Walk)
      → elem n w.visiting ≡ false
      → Outcome g (entered n w) (HasFinishedAll g (dependencies n g)) r
      → Outcome g w (HasFinished g n) (r >>= λ w'. ok (finish n w'))
  closed n w r new (inr s) =
      inr (record { around = s.around; cycle = s.cycle; raised = rw s.raised refl })
  closed n w r new (inl go) = inl (record {
    then_at = finish n go.then_at;
    returned = rw go.returned refl;
    way = rw go.way (discard-cons n w.visiting new);
    ordered = (λ d dep. go.reached d dep.listed dep.known, go.ordered);
    more = λ x h. let before = go.more x h in ground arith;
    reached = rw (eq_refl n) refl;
  })

  longer :
      (n d : String) (w v : Walk)
      → Follows n w
      → v.visiting ≡ n ∷ w.visiting
      → DependsOn g n d
      → Follows d v
  longer n d w v follows way dep x e =
      let there : elem x (n ∷ w.visiting) ≡ true = rw way at e in
      elim (Bool-cases (n == x)) [
        | inl same ↦ let names : n ≡ x = ground (arith, eq_iff n x) in direct (rw names at dep)
        | inr other ↦ further (follows x (ground arith)) dep
      ]

  fewer :
      (n : String) (w v : Walk) (depth : ℕ)
      → elem n w.visiting ≡ false
      → contains n g ≡ true
      → v.visiting ≡ n ∷ w.visiting
      → unvisited w.visiting (keys g) < suc depth
      → unvisited v.visiting (keys g) < depth
  fewer n w v depth new known way lt =
      rw way (omega (arith, unvisited-cons-lt n w.visiting (keys g) (keys-elem n g known) new))

  visit_outcome :
      (depth : ℕ) (n : String) (w : Walk)
      → IsOrdered g w.finished
      → contains n g ≡ true
      → Follows n w
      → unvisited w.visiting (keys g) < depth
      → Outcome g w (HasFinished g n) (visit depth g n w)
  unfolding visit
  visit_outcome zero n w o known follows lt = absurd (omega arith)
  visit_outcome (suc depth) n w o known follows lt = elim (Bool-cases (elem n w.visiting)) [
    | inl again ↦ rw again (inr (record { around = n; cycle = follows n again; raised = refl }))
    | inr new ↦ elim (Bool-cases (elem n w.finished)) [
      | inl done ↦
          rw (new, done)
            (inl (record {
              then_at = w;
              returned = refl;
              way = refl;
              ordered = o;
              more = λ x h. h;
              reached = done;
            }))
      | inr open_ ↦
          rw (new, open_)
            (closed n w _ new (
              all_outcome (visit depth g) (dependencies n g) (entered n w) o λ d v m k way ordered.
                visit_outcome depth d v ordered k
                  (longer n d w v follows way (record { listed = m; known = k }))
                  (fewer n w v depth new known way lt)))
    ]
  ]

  each_outcome :
      (depth : ℕ) (ns : List String) (w : Walk)
      → length g < depth
      → IsOrdered g w.finished
      → w.visiting ≡ []
      → ((n : String) → elem n ns ≡ true → contains n g ≡ true)
      → Outcome g w
          (λ u. (n : String) → elem n ns ≡ true → HasFinished g n u)
          (visit_each depth g ns w)
  unfolding visit_each
  each_outcome depth [] w lt o empty known = inl (record {
    then_at = w;
    returned = refl;
    way = refl;
    ordered = o;
    more = λ x h. h;
    reached = λ n m. cc;
  })
  each_outcome depth (n ∷ ns) w lt o empty known =
      weaken g w _ (λ u. (m : String) → elem m (n ∷ ns) ≡ true → HasFinished g m u) _
        (λ u h x m. elim (Bool-cases (n == x)) [
          | inl same ↦ let names : n ≡ x = ground (arith, eq_iff n x) in h.1.2 x (rw names at h.1.1)
          | inr other ↦ h.0 x (ground arith)
        ])
        (and_then g w (HasFinished g n) (λ u. (m : String) → elem m ns ≡ true → HasFinished g m u)
          (visit depth g n w) (visit_each depth g ns)
          (visit_outcome depth n w o (known n (rw (eq_refl n) refl))
            (λ x e. let none_there : elem x [] ≡ true = rw empty at e in cc)
            (rw empty (omega (arith, unvisited-le [] (keys g), length-keys g))))
          (λ v way ordered _.
            each_outcome depth ns v lt ordered (way ∙ empty) (λ m e. known m (ground arith))))

  reached_known : (a b : String) → Reaches g a b → contains b g ≡ true
  reached_known a b (direct d) = d.known
  reached_known a b (further r d) = d.known

  found :
      (r : Result Error Walk)
      → Outcome g fresh_walk (λ u. (n : String) → elem n (keys g) ≡ true → HasFinished g n u) r
      → ((w : Walk) × (r ≡ ok w) × ((n : String) → Reaches g n n → ⊥))
        ⊎ ((n : String) × Reaches g n n × (r ≡ err network_hardening_error))
  found r (inr s) = inr (s.around, s.cycle, s.raised)
  found r (inl go) = inl (
    go.then_at,
    go.returned,
    λ n c.
        IsOrdered-acyclic g n go.then_at.finished go.ordered
          (go.reached n (keys-elem n g (reached_known n n c))) c,
  )

  -- With as many frames as there are services and one more, the search ends: it returns when no
  -- service depends on itself, over however many steps, and raises the error when one does.
  pub check_cycles-acyclic :
      (depth : ℕ)
      → length g < depth
      → ((w : Walk) × (check_cycles depth g ≡ ok w) × ((n : String) → Reaches g n n → ⊥))
        ⊎ ((n : String) × Reaches g n n × (check_cycles depth g ≡ err network_hardening_error))
  unfolding check_cycles
  check_cycles-acyclic depth lt =
      found _ (each_outcome depth (keys g) fresh_walk lt tt refl (λ n m. elem-keys n g m))
