-- ===== src/Ftn/Addresses.antt =====
-- An address that `ftn_address` of `scripts/ubb_ftn.py` answers is in its normal form.
use mathlib.Core.List.{append-nil}
use ultimate_bbsbox.Prelude.{
  ℕ, zero, suc, ◌+◌, ◌*◌, ◌-◌, ◌/◌, ◌%◌, ◌<◌, ◌≤◌, true, false, ◌≡◌, refl, Option, none, some, List,
  [], ◌∷◌, ◌++◌, all, all-append, ltb, is_digit, arith, Bool-cases, inl, inr,
}
use ultimate_bbsbox.Prelude.Chars.{digits, int_of}
use ultimate_bbsbox.Prelude.Exec.{Result, ok, err}
use ultimate_bbsbox.Errors.{Error, ftn_config_error}
use ultimate_bbsbox.Ftn.Address.{
  FtnAddress, number, point_of, ftn_read, decimal_in, decimal, print_point, ftn_print, is_in_range,
  printed_in_range, ftn_address, number_of, and_then,
}

all-decimal_in : (rounds n : ℕ) → all is_digit (decimal_in rounds n) ≡ true
unfolding decimal_in
all-decimal_in zero n = refl
all-decimal_in (suc rounds) n = elim (Bool-cases (ltb n 10)) [
  | inl small ↦ rw small (ground arith)
  | inr large ↦
      rw
        (
          large,
          all-append is_digit (decimal_in rounds (n / 10)) ((48 + n % 10) ∷ []),
          all-decimal_in rounds (n / 10),
        )
        (ground arith)
]

int_of-append : (n d : ℕ) (ds : List ℕ) → int_of n (ds ++ d ∷ []) ≡ int_of n ds * 10 + (d - 48)
unfolding int_of
int_of-append n d [] = refl
int_of-append n d (c ∷ ds) = int_of-append (n * 10 + (c - 48)) d ds

int_of-decimal_in : (rounds n : ℕ) → n < rounds → int_of 0 (decimal_in rounds n) ≡ n
unfolding decimal_in int_of
int_of-decimal_in zero n lt = absurd (omega arith)
int_of-decimal_in (suc rounds) n lt = elim (Bool-cases (ltb n 10)) [
  | inl small ↦ rw small (omega arith)
  | inr large ↦
      let ten : 10 ≤ n = ground arith in
      rw (large, int_of-append 0 (48 + n % 10) (decimal_in rounds (n / 10)))
        (omega (arith, int_of-decimal_in rounds (n / 10) (omega arith), ten))
]

-- A text that does not begin with a digit.
abbrev IsStop : List ℕ → Type 0
IsStop [] = Unit {0}
IsStop (c ∷ _) = is_digit c ≡ false

digits-stop : (rest : List ℕ) → IsStop rest → digits rest ≡ ([], rest)
unfolding digits
digits-stop [] s = refl
digits-stop (c ∷ rest) s = rw s refl

digits-append :
    (ds rest : List ℕ) → all is_digit ds ≡ true → IsStop rest → digits (ds ++ rest) ≡ (ds, rest)
unfolding digits
digits-append [] rest h s = digits-stop rest s
digits-append (d ∷ ds) rest h s = rw (digits-append ds rest (ground arith) s) (ground arith)

number_of-snoc :
    (ds rest : List ℕ) (d : ℕ)
    → number_of (ds ++ d ∷ [], rest) ≡ some (int_of 0 (ds ++ d ∷ []), rest)
number_of-snoc [] rest d = refl
number_of-snoc (c ∷ ds) rest d = refl

number_of-decimal_in :
    (rounds n : ℕ) (rest : List ℕ)
    → number_of (decimal_in (suc rounds) n, rest)
      ≡ some (int_of 0 (decimal_in (suc rounds) n), rest)
unfolding decimal_in
number_of-decimal_in rounds n rest = elim (Bool-cases (ltb n 10)) [
  | inl small ↦ rw small refl
  | inr large ↦ rw large (number_of-snoc (decimal_in rounds (n / 10)) rest (48 + n % 10))
]

number-decimal : (n : ℕ) (rest : List ℕ) → IsStop rest → number (decimal n ++ rest) ≡ some (n, rest)
unfolding decimal
number-decimal n rest s =
    rw
      (
        digits-append (decimal_in (suc n) n) rest (all-decimal_in (suc n) n) s,
        number_of-decimal_in n n rest,
        int_of-decimal_in (suc n) n (omega arith),
      )
      refl

number-decimal_alone : (n : ℕ) → number (decimal n) ≡ some (n, [])
number-decimal_alone n = rw (append-nil (decimal n)) at (number-decimal n [] tt)

point-print :
    (zone net node : ℕ) (point : Option ℕ)
    → and_then (number (decimal node ++ print_point point)) (point_of zone net)
      ≡ some (record { zone = zone; net = net; node = node; point = point })
point-print zone net node none = rw (number-decimal node [] tt) refl
point-print zone net node (some p) =
    rw (number-decimal node (46 ∷ decimal p) refl, number-decimal_alone p) refl

-- What is printed is read again as it was.
ftn_read-ftn_print : (a : FtnAddress) → ftn_read (ftn_print a) ≡ some a
unfolding ftn_read ftn_print
ftn_read-ftn_print a =
    rw
      (
        number-decimal a.zone (58 ∷ (decimal a.net ++ 47 ∷ (decimal a.node ++ print_point a.point)))
            refl,
        number-decimal a.net (47 ∷ (decimal a.node ++ print_point a.point)) refl,
        point-print a.zone a.net a.node a.point,
      )
      refl

answered :
    (o : Option FtnAddress) (text : List ℕ)
    → printed_in_range o ≡ ok text
    → (a : FtnAddress) × (o ≡ some a) × (is_in_range a ≡ true) × (ftn_print a ≡ text)
answered none text h = cc
answered (some a) text h = elim (Bool-cases (is_in_range a)) [
  | inl good ↦
      let printed : ◌≡◌ {A = Result Error (List ℕ)} (ok (ftn_print a)) (ok text) = rw good at h in
      (a, refl, good, cc)
  | inr bad ↦
      let failed : ◌≡◌ {A = Result Error (List ℕ)} (err ftn_config_error) (ok text) = rw bad at h in
      cc
]

-- The text that is answered for an address is the print of the numbers that were read, which are in
-- their ranges, and it is answered as it is when it is given again.
pub ftn_address-ftn_address :
    (cs text : List ℕ)
    → ftn_address cs ≡ ok text
    → (a : FtnAddress) × (ftn_read cs ≡ some a)
      × (is_in_range a ≡ true)
      × (ftn_print a ≡ text)
      × (ftn_address text ≡ ok text)
unfolding ftn_address
ftn_address-ftn_address cs text h =
    let (a, read, good, printed) = answered (ftn_read cs) text h in
    let again : printed_in_range (ftn_read (ftn_print a)) ≡ ok (ftn_print a) =
      rw (ftn_read-ftn_print a, good) refl in
    (a, read, good, printed, rw printed at again)
