-- ===== src/Monitoring/Current.antt =====
-- `scripts/ubb_monitoring/engine.py`: the two loops of `evaluate` over the conditions and the old alerts.
use ultimate_bbsbox.Prelude.{
  ℕ, ◌+◌, String, true, false, ◌≡◌, ◌⊎◌, refl, sym, ◌∙◌, Option, none, some, [], ◌∷◌, arith, ◌==◌,
  eq_iff, Bool-cases, inl, inr,
}
use ultimate_bbsbox.Prelude.Dict.{Dict, lookup, insert, contains, lookup-insert}
use ultimate_bbsbox.Prelude.Every.{Every, Every-insert}
use ultimate_bbsbox.Monitoring.Alerts.{
  Condition, Alert, first_of, count_of, raised, raise_all, settled, settle_all,
}

-- The alert of a condition that holds now and was known before as `prior`.
pub record IsRaised (now : ℕ) (prior : Option Alert) (a : Alert) : Type 0 where
  pub active : a.is_raised ≡ true
  pub since : a.first_seen ≡ first_of prior now
  pub latest : a.last_seen ≡ now
  pub counted : a.occurrence_count ≡ count_of prior + 1
  pub not_cleared : a.cleared_at ≡ none

abbrev pub HasRaised : ℕ → Dict Alert → String → Dict Alert → Type 0
HasRaised now old key d = (a : Alert) × (lookup key d ≡ some a) × IsRaised now (lookup key old) a

-- Later insertions leave the entry as it is, or put another such one there.
insert-HasRaised :
    (now : ℕ) (old : Dict Alert) (key k : String) (c : Condition) (d : Dict Alert)
    → (k == key ≡ true) ⊎ HasRaised now old key d
    → HasRaised now old key (insert k (raised now k (lookup k old) c) d)
insert-HasRaised now old key k c d h = elim (Bool-cases (k == key)) [
  | inl same ↦
      let names : k ≡ key = ground (arith, eq_iff k key) in
      (
        raised now k (lookup k old) c,
        rw (lookup-insert k key (raised now k (lookup k old) c) d, same) refl,
        rw names (record {
          active = refl;
          since = refl;
          latest = refl;
          counted = refl;
          not_cleared = refl;
        }),
      )
  | inr other ↦ elim h [
    | inl same ↦ cc
    | inr (a, found, is) ↦
        (a, rw (lookup-insert k key (raised now k (lookup k old) c) d, other) found, is)
  ]
]

pub raise_all-HasRaised :
    (now : ℕ) (old : Dict Alert) (key : String) (cs : Dict Condition) (d : Dict Alert)
    → (contains key cs ≡ true) ⊎ HasRaised now old key d
    → HasRaised now old key (raise_all now old cs d)
unfolding raise_all lookup
raise_all-HasRaised now old key [] d (inl m) = cc
raise_all-HasRaised now old key [] d (inr h) = h
raise_all-HasRaised now old key ((k, c) ∷ cs) d h =
    raise_all-HasRaised now old key cs (insert k (raised now k (lookup k old) c) d)
      (elim (Bool-cases (k == key)) [
        | inl same ↦ inr (insert-HasRaised now old key k c d (inl same))
        | inr other ↦ elim h [
          | inl m ↦ inl (ground arith)
          | inr there ↦ inr (insert-HasRaised now old key k c d (inr there))
        ]
      ])

-- Settling the alerts of the conditions that ended leaves the others alone.
pub lookup-settle_all :
    (now : ℕ) (active : Dict Condition) (key : String) (old d : Dict Alert)
    → contains key active ≡ true
    → lookup key (settle_all now active old d) ≡ lookup key d
unfolding settle_all
lookup-settle_all now active key [] d h = refl
lookup-settle_all now active key ((k, prior) ∷ old) d h = elim (Bool-cases (contains k active)) [
  | inl holds ↦ rw holds (lookup-settle_all now active key old d h)
  | inr ended ↦
      let other : (k == key) ≡ false = elim (Bool-cases (k == key)) [
        | inl same ↦
            let names : k ≡ key = ground (arith, eq_iff k key) in
            let no : contains key active ≡ false = rw names at ended in cc
        | inr differs ↦ differs
      ] in
      rw ended (
        lookup-settle_all now active key old (insert k (settled now prior) d) h
        ∙ rw (lookup-insert k key (settled now prior) d, other) refl)
]

-- An entry is active exactly when its condition holds.
abbrev pub IsCurrent : Dict Condition → String × Alert → Type 0
IsCurrent active p = p.1.is_raised ≡ contains p.0 active

pub contains_self :
    (cs active : Dict Condition)
    → ((k : String) → contains k cs ≡ true → contains k active ≡ true)
    → Every (λ p. contains p.0 active ≡ true) cs
unfolding lookup
contains_self [] active h = tt
contains_self ((k, c) ∷ cs) active h =
    (h k (ground (arith, eq_iff k k)), contains_self cs active (λ j m. h j (ground arith)))

pub raise_all-IsCurrent :
    (now : ℕ) (old : Dict Alert) (active cs : Dict Condition) (d : Dict Alert)
    → Every (λ p. contains p.0 active ≡ true) cs
    → Every (IsCurrent active) d
    → Every (IsCurrent active) (raise_all now old cs d)
unfolding raise_all
raise_all-IsCurrent now old active [] d m h = h
raise_all-IsCurrent now old active ((k, c) ∷ cs) d m h =
    raise_all-IsCurrent now old active cs _ m.1
      (Every-insert (IsCurrent active) k (raised now k (lookup k old) c) d (sym m.0) h)

settled-inactive : (now : ℕ) (a : Alert) → (settled now a).is_raised ≡ false
settled-inactive now a = ground arith

pub settle_all-IsCurrent :
    (now : ℕ) (active : Dict Condition) (old d : Dict Alert)
    → Every (IsCurrent active) d
    → Every (IsCurrent active) (settle_all now active old d)
unfolding settle_all
settle_all-IsCurrent now active [] d h = h
settle_all-IsCurrent now active ((k, prior) ∷ old) d h = elim (Bool-cases (contains k active)) [
  | inl holds ↦ rw holds (settle_all-IsCurrent now active old d h)
  | inr ended ↦ rw ended (
      settle_all-IsCurrent now active old _ (
        Every-insert (IsCurrent active) k (settled now prior) d
          (settled-inactive now prior ∙ sym ended) h))
]
