-- ===== src/Ftn/Address.antt =====
-- `ftn_address` of `scripts/ubb_ftn.py`, on the code points of an address; a digit is an ASCII one.
use ultimate_bbsbox.Prelude.{
  ℕ, zero, suc, ◌+◌, ◌/◌, ◌%◌, Bool, true, ◌&&◌, Option, none, some, List, [], ◌∷◌, ◌++◌, leb, ltb,
  if◌then◌else◌,
}
use ultimate_bbsbox.Prelude.Chars.{is_code, digits, int_of}
use ultimate_bbsbox.Prelude.Exec.{Result, ok, err}
use ultimate_bbsbox.Errors.{Error, ftn_config_error}

-- `zone:net/node` or `zone:net/node.point`
pub record FtnAddress : Type 0 where
  pub zone : ℕ
  pub net : ℕ
  pub node : ℕ
  pub point : Option ℕ

abbrev pub and_then {ℓ} : {A B : Type ℓ} → Option A → (A → Option B) → Option B
and_then none f = none
and_then (some a) f = f a

abbrev pub number_of : List ℕ × List ℕ → Option (ℕ × List ℕ)
number_of ([], rest) = none
number_of (d ∷ ds, rest) = some (int_of 0 (d ∷ ds), rest)

-- `(\d+)` and `int` of it
abbrev pub number : List ℕ → Option (ℕ × List ℕ)
number cs = number_of (digits cs)

abbrev pub literal : ℕ → List ℕ → Option (List ℕ)
literal c [] = none
literal c (d ∷ ds) = if is_code c d then some ds else none

abbrev pub with_point : ℕ → ℕ → ℕ → ℕ × List ℕ → Option FtnAddress
with_point zone net node (p, []) =
    some (record { zone = zone; net = net; node = node; point = some p })
with_point zone net node (p, c ∷ cs) = none

-- `(?:\.(\d+))?$`
abbrev pub point_of : ℕ → ℕ → ℕ × List ℕ → Option FtnAddress
point_of zone net (node, []) = some (record { zone = zone; net = net; node = node; point = none })
point_of zone net (node, c ∷ cs) =
    and_then (literal 46 (c ∷ cs)) λ rest. and_then (number rest) (with_point zone net node)

abbrev pub node_of : ℕ → ℕ × List ℕ → Option FtnAddress
node_of zone (net, rest) = and_then (literal 47 rest) λ cs. and_then (number cs) (point_of zone net)

abbrev pub net_of : ℕ × List ℕ → Option FtnAddress
net_of (zone, rest) = and_then (literal 58 rest) λ cs. and_then (number cs) (node_of zone)

-- `^(\d+):(\d+)/(\d+)(?:\.(\d+))?$`
unfoldable pub ftn_read : List ℕ → Option FtnAddress
ftn_read cs = and_then (number cs) net_of

-- the decimal digits of a number, with rounds enough for it
unfoldable pub decimal_in : ℕ → ℕ → List ℕ
decimal_in zero n = []
decimal_in (suc rounds) n =
    let front = decimal_in rounds (n / 10) in
    if ltb n 10 then (48 + n) ∷ [] else front ++ (48 + n % 10) ∷ []

unfoldable pub decimal : ℕ → List ℕ
decimal n = decimal_in (suc n) n

abbrev pub print_point : Option ℕ → List ℕ
print_point none = []
print_point (some p) = 46 ∷ decimal p

-- `f'{z}:{n}/{node}'`, and the point
unfoldable pub ftn_print : FtnAddress → List ℕ
ftn_print a = decimal a.zone ++ 58 ∷ (decimal a.net ++ 47 ∷ (decimal a.node ++ print_point a.point))

abbrev point_in_range : Option ℕ → Bool
point_in_range none = true
point_in_range (some p) = leb p 65535

unfoldable pub is_in_range : FtnAddress → Bool
is_in_range a =
    ltb 0 a.zone
    && leb a.zone 65535
    && leb a.net 65535
    && leb a.node 65535
    && point_in_range a.point

abbrev pub printed_in_range : Option FtnAddress → Result Error (List ℕ)
printed_in_range none = err ftn_config_error
printed_in_range (some a) = if is_in_range a then ok (ftn_print a) else err ftn_config_error

unfoldable pub ftn_address : List ℕ → Result Error (List ℕ)
ftn_address cs = printed_in_range (ftn_read cs)
