-- ===== src/Archive/Filenames.antt =====
-- `safe_filename` of `scripts/ubb_archive.py`, on the characters of a name.
use ultimate_bbsbox.Prelude.{
  ℕ, zero, suc, Bool, true, false, not, ◌&&◌, ◌||◌, List, [], ◌∷◌, ◌++◌, map, keep_if, is_between,
  is_digit, is_upper, is_lower, if◌then◌else◌,
}
use ultimate_bbsbox.Prelude.Chars.{is_code, strip_left, strip_right}
use ultimate_bbsbox.Prelude.Exec.{Result, ok, err}
use ultimate_bbsbox.Errors.{Error, archive_error}

-- `value.rsplit(separator, 1)[-1]`
unfoldable pub after_last : ℕ → List ℕ → List ℕ → List ℕ
after_last separator seen [] = seen
after_last separator seen (c ∷ cs) =
    let next = (if is_code separator c then [] else seen ++ c ∷ []) in after_last separator next cs

-- `value in ("", ".", "..")`
abbrev pub is_dots : List ℕ → Bool
is_dots [] = true
is_dots (a ∷ []) = is_code 46 a
is_dots (a ∷ b ∷ []) = is_code 46 a && is_code 46 b
is_dots _ = false

-- `[A-Za-z0-9._+() -]`
abbrev pub is_kept : ℕ → Bool
is_kept c =
    is_upper c
    || is_lower c
    || is_digit c
    || is_between 45 46 c
    || is_code 95 c
    || is_code 43 c
    || is_between 40 41 c
    || is_code 32 c

abbrev pub is_slash : ℕ → Bool
is_slash = is_code 47

-- `PurePath(value).name != value` of a value that is neither empty nor one or two dots
abbrev pub has_slash : List ℕ → Bool
has_slash [] = false
has_slash (c ∷ cs) = is_slash c || has_slash cs

unfoldable pub take_chars : ℕ → List ℕ → List ℕ
take_chars zero cs = []
take_chars (suc n) [] = []
take_chars (suc n) (c ∷ cs) = c ∷ take_chars n cs

-- The name as it is tested first: the part behind the last slash or backslash, without whitespace
-- around it and without NUL.
unfoldable pub base_name : List ℕ → List ℕ
base_name value =
    keep_if (λ c. not (is_code 0 c))
      (strip_right
        (strip_left (after_last 47 [] (map (λ c. if is_code 92 c then 47 else c) value))))

abbrev pub cleaned_char : ℕ → ℕ
cleaned_char c = if is_kept c then c else 95

unfoldable pub clean_name : List ℕ → List ℕ
clean_name = map cleaned_char

unfoldable pub safe_filename : List ℕ → Result Error (List ℕ)
safe_filename value =
    let base = base_name value in
    let cleaned = clean_name base in
    if is_dots base || has_slash base
    then err archive_error
    else (if is_dots cleaned then err archive_error else ok (take_chars 255 cleaned))
