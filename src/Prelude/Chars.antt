-- ===== src/Prelude/Chars.antt =====
-- Texts by their characters: classes of ASCII, patterns of one character each, lower case.
use Prim.Native.Nat.{ℕ, ◌+◌, ◌*◌, ◌-◌}
use Prim.Native.Char.{Char, code}
use Prim.Native.String.{String, char_at}
use mathlib.Core.Bool.{Bool, true, false, not, ◌&&◌, ◌||◌}
use mathlib.Core.List.{List, [], ◌∷◌}
use ultimate_bbsbox.Prelude.Tests.{leb, if◌then◌else◌}
use ultimate_bbsbox.Prelude.Lists.{all, elem}

-- the code points of a text
abbrev pub codes : String → List ℕ
codes String.[] = []
codes (String.◌∷◌ c s) = code c ∷ codes s

abbrev pub is_between : ℕ → ℕ → ℕ → Bool
is_between a b c = leb a c && leb c b

abbrev pub is_digit : ℕ → Bool
is_digit = is_between 48 57

abbrev pub is_upper : ℕ → Bool
is_upper = is_between 65 90

abbrev pub is_lower : ℕ → Bool
is_lower = is_between 97 122

abbrev pub is_code : ℕ → ℕ → Bool
is_code a c = is_between a a c

-- the whitespace of `str.strip`
abbrev pub is_space : ℕ → Bool
is_space c =
    is_between 9 13 c
    || is_between 28 32 c
    || is_code 133 c
    || is_code 160 c
    || is_code 5760 c
    || is_between 8192 8202 c
    || is_between 8232 8233 c
    || is_code 8239 c
    || is_code 8287 c
    || is_code 12288 c

-- `[0-9a-fA-F]`
abbrev pub is_hex : ℕ → Bool
is_hex c = is_digit c || is_between 65 70 c || is_between 97 102 c

-- `[a-z0-9]`
abbrev pub is_id_start : ℕ → Bool
is_id_start c = is_lower c || is_digit c

-- `[a-z0-9._-]`
abbrev pub is_id_char : ℕ → Bool
is_id_char c = is_id_start c || leb 45 c && leb c 46 || is_between 95 95 c

abbrev pub starts_all : (ℕ → Bool) → (ℕ → Bool) → List ℕ → Bool
starts_all first rest [] = false
starts_all first rest (c ∷ cs) = first c && all rest cs

-- `^[a-z0-9][a-z0-9._-]*$`
unfoldable pub is_id : String → Bool
is_id s = starts_all is_id_start is_id_char (codes s)

unfoldable pub strip_left : List ℕ → List ℕ
strip_left [] = []
strip_left (c ∷ cs) = let rest = strip_left cs in if is_space c then rest else c ∷ cs

abbrev is_empty_text : List ℕ → Bool
is_empty_text [] = true
is_empty_text (_ ∷ _) = false

unfoldable pub strip_right : List ℕ → List ℕ
strip_right [] = []
strip_right (c ∷ cs) =
    let rest = strip_right cs in if is_empty_text rest && is_space c then [] else c ∷ rest

abbrev pub lower_char : Char → Char
lower_char c = if is_upper (code c) then char_at "abcdefghijklmnopqrstuvwxyz" (code c - 65) else c

-- `s.lower()` on ASCII
unfoldable pub lower : String → String
lower String.[] = ""
lower (String.◌∷◌ c s) = String.◌∷◌ (lower_char c) (lower s)

-- every element once: `len(xs) == len(set(xs))`
abbrev pub is_distinct : List String → Bool
is_distinct [] = true
is_distinct (x ∷ xs) = not (elem x xs) && is_distinct xs

-- `\d*`, with the digits read
unfoldable pub digits : List ℕ → List ℕ × List ℕ
digits [] = ([], [])
digits (c ∷ cs) = let (ds, rest) = digits cs in if is_digit c then (c ∷ ds, rest) else ([], c ∷ cs)

-- `int(...)`
unfoldable pub int_of : ℕ → List ℕ → ℕ
int_of n [] = n
int_of n (d ∷ ds) = int_of (n * 10 + (d - 48)) ds
