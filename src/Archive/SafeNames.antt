-- ===== src/Archive/SafeNames.antt =====
-- What `safe_filename` of `scripts/ubb_archive.py` lets through.
use ultimate_bbsbox.Prelude.{
  ℕ, zero, suc, ◌≤◌, Bool, true, false, ◌||◌, ◌≡◌, refl, ◌∙◌, List, [], ◌∷◌, arith, all, length,
  if◌then◌else◌,
}
use ultimate_bbsbox.Prelude.Exec.{ok, err}
use ultimate_bbsbox.Errors.{archive_error}
use ultimate_bbsbox.Archive.Filenames.{
  is_dots, has_slash, is_kept, cleaned_char, clean_name, take_chars, base_name, safe_filename,
}

length-take_chars-le : (n : ℕ) (cs : List ℕ) → length (take_chars n cs) ≤ n
unfolding take_chars
length-take_chars-le zero cs = omega arith
length-take_chars-le (suc n) [] = omega arith
length-take_chars-le (suc n) (c ∷ cs) = omega (arith, length-take_chars-le n cs)

all-take_chars :
    (p : ℕ → Bool) (n : ℕ) (cs : List ℕ) → all p cs ≡ true → all p (take_chars n cs) ≡ true
unfolding take_chars
all-take_chars p zero cs h = refl
all-take_chars p (suc n) [] h = refl
all-take_chars p (suc n) (c ∷ cs) h = ground (arith, all-take_chars p n cs)

cleaned_char-is_kept : (c : ℕ) → is_kept (cleaned_char c) ≡ true
cleaned_char-is_kept c = ground arith

all-clean_name : (cs : List ℕ) → all is_kept (clean_name cs) ≡ true
unfolding clean_name
all-clean_name [] = refl
all-clean_name (c ∷ cs) = rw (cleaned_char-is_kept c) (all-clean_name cs)

-- Three characters and more are left as three, so no cut makes a name of dots.
is_dots-take_chars :
    (n : ℕ) (cs : List ℕ) → is_dots (take_chars (suc (suc (suc n))) cs) ≡ is_dots cs
unfolding take_chars
is_dots-take_chars n [] = refl
is_dots-take_chars n (a ∷ []) = refl
is_dots-take_chars n (a ∷ b ∷ []) = refl
is_dots-take_chars n (a ∷ b ∷ c ∷ cs) = refl

cut-is_kept :
    (cs : List ℕ)
    → all is_kept cs ≡ true
    → is_dots cs ≡ false
    → (is_dots (take_chars 255 cs) ≡ false)
      × (all is_kept (take_chars 255 cs) ≡ true)
      × (length (take_chars 255 cs) ≤ 255)
cut-is_kept cs kept dots = (
  is_dots-take_chars 252 cs ∙ dots,
  all-take_chars is_kept 255 cs kept,
  length-take_chars-le 255 cs,
)

passed_on :
    (b d : Bool) (cs name : List ℕ)
    → all is_kept cs ≡ true
    → is_dots cs ≡ d
    → (if b then err archive_error else (if d then err archive_error else ok (take_chars 255 cs)))
      ≡ ok name
    → (is_dots name ≡ false) × (all is_kept name ≡ true) × (length name ≤ 255)
passed_on true d cs name kept dots h = cc
passed_on false true cs name kept dots h = cc
passed_on false false cs name kept dots h =
    let same : take_chars 255 cs ≡ name = cc in rw (← same) (cut-is_kept cs kept dots)

-- A name that `safe_filename` answers is neither empty nor one or two dots, has only letters,
-- digits, spaces and the marks `._+()-`, so no separator and no NUL, and at most 255 characters.
pub safe_filename-is_kept :
    (value name : List ℕ)
    → safe_filename value ≡ ok name
    → (is_dots name ≡ false) × (all is_kept name ≡ true) × (length name ≤ 255)
unfolding safe_filename
safe_filename-is_kept value name h =
    passed_on (is_dots (base_name value) || has_slash (base_name value))
      (is_dots (clean_name (base_name value))) (clean_name (base_name value)) name
      (all-clean_name (base_name value)) refl h
