-- ===== src/Monitoring/Evaluated.antt =====
-- `scripts/ubb_monitoring/engine.py`: an alert is active exactly while its condition holds.
use ultimate_bbsbox.Prelude.{
  ℕ, zero, suc, ◌-◌, String, true, false, ◌≡◌, refl, sym, ◌∙◌, some, [], ◌∷◌, ltb, leb, length,
  keep_if, arith, ◌==◌, eq_iff, Bool-cases, inl, inr,
}
use ultimate_bbsbox.Prelude.Dict.{Dict, lookup, erase, contains, lookup-erase}
use ultimate_bbsbox.Prelude.Every.{Every, Every-lookup, Every-erase}
use ultimate_bbsbox.Monitoring.Alerts.{
  Snapshot, Condition, Alert, raise_all, settle_all, is_cleared, insert_aged, age, oldest_first,
  take_first, pop_all, retain, evaluate, conditions, at_least_ten,
}
use ultimate_bbsbox.Monitoring.Current.{
  IsRaised, IsCurrent, raise_all-HasRaised, lookup-settle_all, contains_self, raise_all-IsCurrent,
  settle_all-IsCurrent,
}

-- Sorting and cutting keep what holds of every entry.
insert_aged-Every :
    (P : String × Alert → Type 0) (p : String × Alert) (ps : Dict Alert)
    → P p
    → Every P ps
    → Every P (insert_aged p ps)
unfolding insert_aged
insert_aged-Every P p [] h k = (h, tt)
insert_aged-Every P p (q ∷ qs) h k = elim (Bool-cases (leb (age p) (age q))) [
  | inl first ↦ rw first (h, k)
  | inr later ↦ rw later (k.0, insert_aged-Every P p qs h k.1)
]

oldest_first-Every :
    (P : String × Alert → Type 0) (ps : Dict Alert) → Every P ps → Every P (oldest_first ps)
unfolding oldest_first
oldest_first-Every P [] h = tt
oldest_first-Every P (p ∷ ps) h =
    insert_aged-Every P p (oldest_first ps) h.0 (oldest_first-Every P ps h.1)

take_first-Every :
    (P : String × Alert → Type 0) (n : ℕ) (ps : Dict Alert) → Every P ps → Every P (take_first n ps)
unfolding take_first
take_first-Every P zero ps h = tt
take_first-Every P (suc n) [] h = tt
take_first-Every P (suc n) (p ∷ ps) h = (h.0, take_first-Every P n ps h.1)

-- A cleared entry has a condition that does not hold.
cleared-Every :
    (active : Dict Condition) (d : Dict Alert)
    → Every (IsCurrent active) d
    → Every (λ p. contains p.0 active ≡ false) (keep_if is_cleared d)
cleared-Every active [] h = tt
cleared-Every active ((k, a) ∷ d) h = elim (Bool-cases a.is_raised) [
  | inl raised_now ↦ rw raised_now (cleared-Every active d h.1)
  | inr cleared ↦ rw cleared (sym h.0 ∙ cleared, cleared-Every active d h.1)
]

pop_all-IsCurrent :
    (active : Dict Condition) (ps d : Dict Alert)
    → Every (IsCurrent active) d
    → Every (IsCurrent active) (pop_all ps d)
unfolding pop_all
pop_all-IsCurrent active [] d h = h
pop_all-IsCurrent active ((k, a) ∷ ps) d h =
    pop_all-IsCurrent active ps (erase k d) (Every-erase (IsCurrent active) k d h)

lookup-pop_all :
    (active : Dict Condition) (key : String) (ps d : Dict Alert)
    → contains key active ≡ true
    → Every (λ p. contains p.0 active ≡ false) ps
    → lookup key (pop_all ps d) ≡ lookup key d
unfolding pop_all
lookup-pop_all active key [] d m h = refl
lookup-pop_all active key ((k, a) ∷ ps) d m h =
    let other : (k == key) ≡ false = elim (Bool-cases (k == key)) [
      | inl same ↦
          let names : k ≡ key = ground (arith, eq_iff k key) in
          let no : contains key active ≡ false = rw names at h.0 in cc
      | inr differs ↦ differs
    ] in
    lookup-pop_all active key ps (erase k d) m h.1 ∙ rw (lookup-erase k key d, other) refl

record Retains (active : Dict Condition) (key : String) (d out : Dict Alert) : Type 0 where
  current : Every (IsCurrent active) out
  kept : contains key active ≡ true → lookup key out ≡ lookup key d

retain-Retains :
    (n : ℕ) (active : Dict Condition) (key : String) (d : Dict Alert)
    → Every (IsCurrent active) d
    → Retains active key d (retain n d)
unfolding retain
retain-Retains n active key d h = elim (Bool-cases (ltb n (length (keep_if is_cleared d)))) [
  | inl many ↦
      let old =
        take_first-Every (λ p. contains p.0 active ≡ false) (length (keep_if is_cleared d) - n)
          (oldest_first (keep_if is_cleared d))
          (oldest_first-Every _ (keep_if is_cleared d) (cleared-Every active d h)) in
      rw many (record {
        current = pop_all-IsCurrent active _ d h;
        kept = λ m. lookup-pop_all active key _ d m old;
      })
  | inr few ↦ rw few (record { current = h; kept = λ m. refl })
]

module _ (retention now : ℕ) (s : Snapshot) (old : Dict Alert) (key : String) where
  records-IsCurrent :
      Every
        (IsCurrent (conditions s))
        (settle_all now (conditions s) old (raise_all now old (conditions s) []))
  records-IsCurrent = settle_all-IsCurrent now (conditions s) old _ (
      raise_all-IsCurrent now old (conditions s) (conditions s) []
        (contains_self (conditions s) (conditions s) (λ k m. m)) tt)

  -- After an evaluation each condition that holds has an active alert, seen first when it was first seen
  -- before, or now, and counted once more; and an alert that is kept is active exactly when its
  -- condition holds.
  pub evaluate-IsRaised :
      (contains key (conditions s) ≡ true
        → (a : Alert) × (lookup key (evaluate retention now s old) ≡ some a)
          × IsRaised now (lookup key old) a)
      × ((a : Alert)
          → lookup key (evaluate retention now s old) ≡ some a
          → a.is_raised ≡ contains key (conditions s))
  unfolding evaluate
  evaluate-IsRaised =
      let r = retain-Retains (at_least_ten retention) (conditions s) key _ records-IsCurrent in
      (
        λ m.
            let (a, found, is) = raise_all-HasRaised now old key (conditions s) [] (inl m) in
            (a, r.kept m ∙ (lookup-settle_all now (conditions s) key old _ m ∙ found), is),
        λ a found. Every-lookup (IsCurrent (conditions s)) key a _ r.current found,
      )
