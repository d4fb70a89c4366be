-- ===== src/Edge/Hostnames.antt =====
-- `_hostname` of `scripts/ubb_edge.py` answers a name in its normal form.
use ultimate_bbsbox.Prelude.{
  ℕ, ◌≤◌, ◌<◌, suc, zero, ◌-◌, String, Bool, true, false, not, ◌&&◌, ◌||◌, ◌≡◌, refl, List, [], ◌∷◌,
  ◌++◌, all, all-append, ltb, length, code, codes, is_upper, arith, Bool-cases, inl, inr,
  if◌then◌else◌,
}
use Prim.Native.Char.{Char}
use Prim.Native.String.{char_at}
use ultimate_bbsbox.Prelude.Chars.{lower, lower_char}
use ultimate_bbsbox.Prelude.Exec.{ok, err}
use ultimate_bbsbox.Errors.{edge_config_error}
use ultimate_bbsbox.Edge.Names.{
  is_dot, is_empty, strip_dots, split_dots, is_label_char, is_label, is_name, named, hostname,
}

abbrev pub is_name_char : ℕ → Bool
is_name_char c = is_label_char c || is_dot c

label_chars : (cs : List ℕ) → is_label cs ≡ true → all is_label_char cs ≡ true
unfolding is_label
label_chars cs h = ground arith

label_in_name : (cs : List ℕ) → all is_label_char cs ≡ true → all is_name_char cs ≡ true
label_in_name [] h = refl
label_in_name (c ∷ cs) h = ground (arith, label_in_name cs)

-- A text all of whose parts are labels has no other characters than theirs and dots.
labels_chars :
    (seen cs : List ℕ)
    → all is_label (split_dots seen cs) ≡ true
    → (all is_name_char seen ≡ true) × (all is_name_char cs ≡ true)
unfolding split_dots
labels_chars seen [] h = (label_in_name seen (label_chars seen (ground arith)), refl)
labels_chars seen (c ∷ cs) h = elim (Bool-cases (is_dot c)) [
  | inl dot ↦
      let parts : all is_label (seen ∷ split_dots [] cs) ≡ true = rw dot at h in
      (
        label_in_name seen (label_chars seen (ground arith)),
        let rest = labels_chars [] cs (ground arith) in ground arith,
      )
  | inr other ↦
      let parts : all is_label (split_dots (seen ++ c ∷ []) cs) ≡ true = rw other at h in
      let (before, after) = labels_chars (seen ++ c ∷ []) cs parts in
      (
        ground (arith, all-append is_name_char seen (c ∷ [])),
        ground (arith, all-append is_name_char seen (c ∷ [])),
      )
]

not_upper : (c : ℕ) → is_name_char c ≡ true → is_upper c ≡ false
not_upper c h = ground arith

lower_same : (s : String) → all is_name_char (codes s) ≡ true → lower s ≡ s
unfolding lower
lower_same String.[] h = refl
lower_same (String.◌∷◌ c s) h =
    rw (not_upper (code c) (ground arith), lower_same s (ground arith)) refl

strip_again :
    (c : Char) (rest : String)
    → strip_dots rest ≡ rest
    → strip_dots (if is_empty rest && is_dot (code c) then "" else String.◌∷◌ c rest)
      ≡ (if is_empty rest && is_dot (code c) then "" else String.◌∷◌ c rest)
unfolding strip_dots
strip_again c rest h = elim (Bool-cases (is_empty rest && is_dot (code c))) [
  | inl gone ↦ rw gone refl
  | inr stays ↦ rw (stays, h, stays) refl
]

strip_twice : (s : String) → strip_dots (strip_dots s) ≡ strip_dots s
unfolding strip_dots
strip_twice String.[] = refl
strip_twice (String.◌∷◌ c s) = strip_again c (strip_dots s) (strip_twice s)

abbrev letter : ℕ → Char
letter i = char_at "abcdefghijklmnopqrstuvwxyz" i

no_dot_below : ℕ → Bool
no_dot_below zero = true
no_dot_below (suc n) = not (is_dot (code (letter n))) && no_dot_below n

no_dot_table : no_dot_below 26 ≡ true
unfolding no_dot_below
no_dot_table = refl

letter_no_dot : (n i : ℕ) → no_dot_below n ≡ true → i < n → is_dot (code (letter i)) ≡ false
unfolding no_dot_below
letter_no_dot zero i h lt = absurd (omega arith)
letter_no_dot (suc n) i h lt = ground (arith, letter_no_dot n i)

dot_lower_char : (c : Char) → is_dot (code (lower_char c)) ≡ is_dot (code c)
dot_lower_char c = elim (Bool-cases (is_upper (code c))) [
  | inl upper ↦
      let bound : code c - 65 < 26 = ground arith in
      let plain : is_dot (code c) ≡ false = ground arith in
      rw (upper, letter_no_dot 26 (code c - 65) no_dot_table bound, plain) refl
  | inr other ↦ rw other refl
]

-- Of two texts that are both empty or both not, one is no longer than the other.
record IsWithin (s t : String) : Type 0 where
  empty : is_empty s ≡ is_empty t
  shorter : length (codes s) ≤ length (codes t)

step_IsWithin :
    (c d : Char) (s t : String)
    → is_dot (code c) ≡ is_dot (code d)
    → IsWithin s t
    → IsWithin
        (if is_empty s && is_dot (code c) then "" else String.◌∷◌ c s)
        (if is_empty t && is_dot (code d) then "" else String.◌∷◌ d t)
step_IsWithin c d s t dot w =
    rw (dot, w.empty)
      (elim (Bool-cases (is_empty t && is_dot (code d))) [
        | inl gone ↦ rw gone (record { empty = refl; shorter = omega arith })
        | inr stays ↦ rw stays (record { empty = refl; shorter = omega (arith, w.shorter) })
      ])

strip_lower : (s : String) → IsWithin (strip_dots (lower s)) (strip_dots s)
unfolding strip_dots lower
strip_lower String.[] = record { empty = refl; shorter = omega arith }
strip_lower (String.◌∷◌ c s) =
    step_IsWithin (lower_char c) c (strip_dots (lower s)) (strip_dots s) (dot_lower_char c)
      (strip_lower s)

passed :
    (long good : Bool) (value name : String)
    → (if long then err edge_config_error else named good value) ≡ ok name
    → (long ≡ false) × (good ≡ true) × (value ≡ name)
passed true good value name h = cc
passed false true value name h = (refl, refl, cc)
passed false false value name h = cc

-- A name that is answered is in its normal form: it is answered as it is when it is given again. It
-- has at most 253 characters, lower-case letters, digits, hyphens and dots.
pub hostname-hostname :
    (value name : String)
    → hostname value ≡ ok name
    → (hostname name ≡ ok name)
      × (all is_name_char (codes name) ≡ true)
      × (length (codes name) ≤ 253)
unfolding hostname is_name
hostname-hostname value name h =
    let (short, good, same) =
      passed (ltb 253 (length (codes (strip_dots value)))) (is_name (strip_dots (lower value)))
        (strip_dots (lower value)) name h in
    let name_good : is_name name ≡ true = rw same at good in
    let parts : all is_label (split_dots [] (codes name)) ≡ true = ground arith in
    let chars = (labels_chars [] (codes name) parts).1 in
    let stripped : strip_dots name ≡ name = rw (← same) (strip_twice (lower value)) in
    let own = strip_lower value in
    let kept : length (codes name) ≤ length (codes (strip_dots value)) = rw (← same) own.shorter in
    let fits : length (codes name) ≤ 253 = ground arith in
    let fine : ltb 253 (length (codes name)) ≡ false = ground arith in
    (rw (lower_same name chars, stripped, fine, name_good) refl, chars, fits)
