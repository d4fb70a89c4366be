-- ===== src/Edge/Names.antt =====
-- `scripts/ubb_edge.py`: the checks of single values. A text is taken apart into its code points.
use ultimate_bbsbox.Prelude.{
  ℕ, String, Bool, true, false, not, ◌&&◌, ◌||◌, List, [], ◌∷◌, ◌++◌, all, leb, ltb, length, codes,
  code, is_between, is_id_start, is_id, lower, if◌then◌else◌,
}
use ultimate_bbsbox.Prelude.Exec.{Result, ok, err}
use ultimate_bbsbox.Prelude.Results.{check}
use ultimate_bbsbox.Errors.{Error, edge_config_error}

abbrev pub is_dot : ℕ → Bool
is_dot c = is_between 46 46 c

abbrev pub is_empty : String → Bool
is_empty String.[] = true
is_empty (String.◌∷◌ _ _) = false

-- `value.rstrip(".")`
unfoldable pub strip_dots : String → String
strip_dots String.[] = ""
strip_dots (String.◌∷◌ c s) =
    let rest = strip_dots s in if is_empty rest && is_dot (code c) then "" else String.◌∷◌ c rest

-- `value.split(".")`, of a value whose current part began with `seen`
unfoldable pub split_dots : List ℕ → List ℕ → List (List ℕ)
split_dots seen [] = seen ∷ []
split_dots seen (c ∷ cs) =
    let next = split_dots [] cs in
    let same = split_dots (seen ++ c ∷ []) cs in if is_dot c then seen ∷ next else same

-- `[a-z0-9-]`
abbrev pub is_label_char : ℕ → Bool
is_label_char c = is_id_start c || is_between 45 45 c

-- the last of the characters
abbrev pub ends : (ℕ → Bool) → List ℕ → Bool
ends p [] = false
ends p (c ∷ []) = p c
ends p (c ∷ d ∷ cs) = ends p (d ∷ cs)

abbrev starts : (ℕ → Bool) → List ℕ → Bool
starts p [] = false
starts p (c ∷ _) = p c

-- `^[a-z0-9](?:[a-z0-9-]{0,61}[a-z0-9])?$`
unfoldable pub is_label : List ℕ → Bool
is_label cs =
    starts is_id_start cs && ends is_id_start cs && all is_label_char cs && leb (length cs) 63

-- `value and all(_LABEL.fullmatch(part) for part in value.split("."))`
unfoldable pub is_name : String → Bool
is_name value = not (is_empty value) && all is_label (split_dots [] (codes value))

abbrev pub named : Bool → String → Result Error String
named true value = ok value
named false value = err edge_config_error

-- `_hostname`
unfoldable pub hostname : String → Result Error String
hostname value =
    let name = strip_dots (lower value) in
    if ltb 253 (length (codes (strip_dots value)))
    then err edge_config_error
    else named (is_name name) name

-- `_id`
unfoldable pub edge_id : String → Result Error (Unit {0})
edge_id value = check (is_id value) edge_config_error

-- `_port`
unfoldable pub port : ℕ → Result Error (Unit {0})
port value = check (leb 1 value && leb value 65535) edge_config_error
