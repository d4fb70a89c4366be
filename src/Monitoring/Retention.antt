-- ===== src/Monitoring/Retention.antt =====
-- `scripts/ubb_monitoring/engine.py`: how many cleared alerts are kept.
use ultimate_bbsbox.Prelude.{
  ℕ, zero, suc, ◌-◌, ◌≤◌, String, Bool, true, false, not, ◌&&◌, ◌≡◌, refl, ◌∙◌, List, [], ◌∷◌, ltb,
  length, elem, keep_if, length-keep_if-le, arith, eq_iff, eq_refl, if◌then◌else◌,
}
use ultimate_bbsbox.Prelude.Dict.{Dict, erase, keys}
use ultimate_bbsbox.Monitoring.Alerts.{
  Snapshot, Alert, is_cleared, insert_aged, oldest_first, take_first, pop_all, retain, evaluate,
  at_least_ten, settle_all, raise_all, conditions,
}

-- how many entries pass a test
abbrev count_if : (String × Alert → Bool) → Dict Alert → ℕ
count_if p ps = length (keep_if p ps)

-- an entry that is not under a key of `ks`
abbrev is_outside : List String → String × Alert → Bool
is_outside ks (k, _) = not (elem k ks)

count-insert_aged :
    (p : String × Alert → Bool) (x : String × Alert) (ps : Dict Alert)
    → count_if p (insert_aged x ps) ≡ count_if p (x ∷ ps)
unfolding insert_aged
count-insert_aged p x [] = refl
count-insert_aged p x (q ∷ qs) = ground (arith, count-insert_aged p x qs)

count-oldest_first :
    (p : String × Alert → Bool) (ps : Dict Alert) → count_if p (oldest_first ps) ≡ count_if p ps
unfolding oldest_first
count-oldest_first p [] = refl
count-oldest_first p (x ∷ ps) =
    ground (arith, count-insert_aged p x (oldest_first ps), count-oldest_first p ps)

length-insert_aged :
    (x : String × Alert) (ps : Dict Alert) → length (insert_aged x ps) ≡ suc (length ps)
unfolding insert_aged
length-insert_aged x [] = refl
length-insert_aged x (q ∷ qs) = ground (arith, length-insert_aged x qs)

length-oldest_first : (ps : Dict Alert) → length (oldest_first ps) ≡ length ps
unfolding oldest_first
length-oldest_first [] = refl
length-oldest_first (x ∷ ps) =
    omega (arith, length-insert_aged x (oldest_first ps), length-oldest_first ps)

-- Outside the first `n`, at most the others are left.
outside_first :
    (n : ℕ) (ks : List String) (ps : Dict Alert)
    → ((k : String) → elem k (keys (take_first n ps)) ≡ true → elem k ks ≡ true)
    → count_if (is_outside ks) ps ≤ length ps - n
unfolding take_first keys
outside_first zero ks ps h = omega (arith, length-keep_if-le (is_outside ks) ps)
outside_first (suc n) ks [] h = omega arith
outside_first (suc n) ks ((k, a) ∷ ps) h =
    let here : elem k ks ≡ true = h k (rw (eq_refl k) refl) in
    ground (arith, outside_first n ks ps (λ j m. h j (ground arith)))

count-erase :
    (p : String × Alert → Bool) (k : String) (ks : List String) (d : Dict Alert)
    → count_if (λ q. p q && is_outside ks q) (erase k d)
      ≡ count_if (λ q. p q && is_outside (k ∷ ks) q) d
unfolding erase
count-erase p k ks [] = refl
count-erase p k ks ((j, a) ∷ d) = ground (arith, count-erase p k ks d, eq_iff j k, eq_iff k j)

count_everywhere :
    (p : String × Alert → Bool) (d : Dict Alert)
    → count_if p d ≡ count_if (λ q. p q && is_outside [] q) d
count_everywhere p [] = refl
count_everywhere p (q ∷ d) = ground (arith, count_everywhere p d)

count-pop_all :
    (p : String × Alert → Bool) (ps d : Dict Alert)
    → count_if p (pop_all ps d) ≡ count_if (λ q. p q && is_outside (keys ps) q) d
unfolding pop_all keys
count-pop_all p [] d = count_everywhere p d
count-pop_all p ((k, a) ∷ ps) d = count-pop_all p ps (erase k d) ∙ count-erase p k (keys ps) d

count_of_kept :
    (p r : String × Alert → Bool) (d : Dict Alert)
    → count_if (λ q. p q && r q) d ≡ count_if r (keep_if p d)
count_of_kept p r [] = refl
count_of_kept p r (q ∷ d) = ground (arith, count_of_kept p r d)

retained :
    (n : ℕ) (records : Dict Alert) (many : Bool)
    → ltb n (length (keep_if is_cleared records)) ≡ many
    → count_if is_cleared (
        if many
        then pop_all
            (take_first
              (length (keep_if is_cleared records) - n)
              (oldest_first (keep_if is_cleared records)))
            records
        else records)
      ≤ n
retained n records false few = ground arith
retained n records true many =
    let cleared = keep_if is_cleared records in
    let first = take_first (length cleared - n) (oldest_first cleared) in
    let outside =
      outside_first (length cleared - n) (keys first) (oldest_first cleared) (λ k m. m) in
    let more : n ≤ length cleared = ground arith in
    omega (
      arith,
      count-pop_all is_cleared first records,
      count_of_kept is_cleared (is_outside (keys first)) records,
      count-oldest_first (is_outside (keys first)) cleared,
      outside,
      more,
      length-oldest_first cleared,
    )

-- Whatever was stored, an evaluation keeps no more cleared alerts than the retention, which is at least
-- ten.
pub evaluate-retention :
    (retention now : ℕ) (s : Snapshot) (old : Dict Alert)
    → length (keep_if is_cleared (evaluate retention now s old)) ≤ at_least_ten retention
unfolding evaluate retain
evaluate-retention retention now s old =
    retained (at_least_ten retention)
      (settle_all now (conditions s) old (raise_all now old (conditions s) [])) _ refl
