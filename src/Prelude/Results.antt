-- ===== src/Prelude/Results.antt =====
-- Functions that return or raise, without a state: `do` blocks over `Result`, checks, and how a call
-- that returned is taken apart.
use mathlib.Core.Path.{◌≡◌, refl}
use mathlib.Core.Bool.{Bool, true, false}
use mathlib.Core.List.{List, [], ◌∷◌}
use ultimate_bbsbox.Prelude.Exec.{Result, ok, err}

infixl 10 ◌>>=◌ ◌>>◌
abbrev pub ◌>>=◌ {ℓ} : {E A B : Type ℓ} → Result E A → (A → Result E B) → Result E B
err e >>= f = err e
ok x >>= f = f x

abbrev pub ◌>>◌ {ℓ} : {E A B : Type ℓ} → Result E A → Result E B → Result E B
first >> second = first >>= λ _. second

-- `[f(x) for x in xs]`, of which the first that raises is the exception
abbrev pub each {ℓ} : {E A B : Type ℓ} → (A → Result E B) → List A → Result E (List B)
each f [] = ok []
each f (x ∷ xs) = f x >>= λ b. each f xs >>= λ bs. ok (b ∷ bs)

-- `if not b: raise e`
abbrev pub check {ℓ} : {E : Type ℓ} → Bool → E → Result E (Unit {ℓ})
check true e = ok tt
check false e = err e

pub check-ok {ℓ} : {E : Type ℓ} (b : Bool) (e : E) {u : Unit {ℓ}} → check b e ≡ ok u → b ≡ true
check-ok true e h = refl
check-ok false e h = cc

module _ {ℓ} {E A : Type ℓ} where
  -- A check that is followed by more: both have returned.
  pub checked :
      (b : Bool) (e : E) (r : Result E A) {a : A}
      → (check b e >> r) ≡ ok a
      → (b ≡ true) × (r ≡ ok a)
  checked true e r h = (refl, h)
  checked false e r h = cc

-- Inversion of a chain that returned.
pub >>=-eq-ok {ℓ} :
    {E A B : Type ℓ} (r : Result E A) (k : A → Result E B) {y : B}
    → (r >>= k) ≡ ok y
    → (x : A) × (r ≡ ok x) × (k x ≡ ok y)
>>=-eq-ok (err e) k returns = cc
>>=-eq-ok (ok x) k returns = (x, refl, returns)
