-- ===== src/Prelude/Exec.antt =====
-- Methods that mutate objects and may raise. What was written before a raise stays written, so the
-- state comes back beside the error too. `Keeps` has one rule for each way to build a method.
use mathlib.Core.Path.{◌≡◌, refl}
use mathlib.Core.Bool.{Bool, true, false}
use ultimate_bbsbox.Prelude.Tests.{if◌then◌else◌}

pub data Result {ℓ} (E A : Type ℓ) : Type ℓ where
  ok : A → Result E A
  err : E → Result E A

abbrev pub Exec {ℓ} : Type ℓ → Type ℓ → Type ℓ → Type ℓ
Exec S E A = S → Result E A × S

module _ {ℓ} {S E A : Type ℓ} where
  unfoldable pub pure : A → Exec S E A
  pure a s = (ok a, s)

  unfoldable pub raise : E → Exec S E A
  raise e s = (err e, s)

  unfoldable pub lift : Result E A → Exec S E A
  lift r s = (r, s)

  unfoldable pub gets : (S → A) → Exec S E A
  gets f s = (ok (f s), s)

module _ {ℓ} {S E : Type ℓ} where
  -- Assignments to fields.
  unfoldable pub modify : (S → S) → Exec S E (Unit {ℓ})
  modify f s = (ok tt, f s)

  unfoldable pub skip : Exec S E (Unit {ℓ})
  skip s = (ok tt, s)

  -- `if b: m`
  unfoldable pub when : Bool → Exec S E (Unit {ℓ}) → Exec S E (Unit {ℓ})
  when b m s = if b then m s else (ok tt, s)

  -- `if b: raise e`
  unfoldable pub raise_if : Bool → E → Exec S E (Unit {ℓ})
  raise_if b e s = (if b then err e else ok tt, s)

module _ {ℓ} {S E A B : Type ℓ} where
  abbrev pub continue : Result E A → (A → Exec S E B) → Exec S E B
  continue (ok a) f s = f a s
  continue (err e) f s = (err e, s)

  infixl 10 ◌>>=◌ ◌>>◌
  unfoldable pub ◌>>=◌ : Exec S E A → (A → Exec S E B) → Exec S E B
  unfolding pure raise lift gets modify skip when raise_if
  ◌>>=◌ m f s = let (r, s') = m s in continue r f s'

  abbrev pub ◌>>◌ : Exec S E A → Exec S E B → Exec S E B
  m >> n = m >>= λ _. n

module _ {ℓ} {S E A : Type ℓ} where
  abbrev pub recover : Result E A → (E → Exec S E A) → Exec S E A
  recover (ok a) h s = (ok a, s)
  recover (err e) h s = h e s

  -- `try: m` with `except Exception as exc: h(exc)`
  unfoldable pub try_catch : Exec S E A → (E → Exec S E A) → Exec S E A
  unfolding pure raise lift gets modify skip when raise_if
  try_catch m h s = let (r, s') = m s in recover r h s'

  -- the result of a call as a value, whether it returned or raised
  unfoldable pub attempt : Exec S E A → Exec S E (Result E A)
  attempt m s = let (r, s') = m s in (ok r, s')

  -- `if b: m else: n`, of which only the branch taken runs
  unfoldable pub branch : Bool → Exec S E A → Exec S E A → Exec S E A
  branch b m n s = if b then m s else n s

-- `m` keeps `P`, whether it returns or raises.
pub record Keeps {ℓ} {S E A : Type ℓ} (P : S → Type ℓ) (m : Exec S E A) : Type ℓ where
  pub at : (s : S) → P s → P (m s).1

module _ {ℓ} {S E A : Type ℓ} {P : S → Type ℓ} where
  pub Keeps-pure : (a : A) → Keeps P (pure {E = E} a)
  unfolding pure
  Keeps-pure a = record { at = λ s h. h }

  pub Keeps-raise : (e : E) → Keeps P (raise {A = A} e)
  unfolding raise
  Keeps-raise e = record { at = λ s h. h }

  pub Keeps-lift : (r : Result E A) → Keeps P (lift r)
  unfolding lift
  Keeps-lift r = record { at = λ s h. h }

  pub Keeps-gets : (f : S → A) → Keeps P (gets {E = E} f)
  unfolding gets
  Keeps-gets f = record { at = λ s h. h }

  pub Keeps-branch : (b : Bool) (m n : Exec S E A) → Keeps P m → Keeps P n → Keeps P (branch b m n)
  unfolding branch
  Keeps-branch true m n km kn = record { at = km.at }
  Keeps-branch false m n km kn = record { at = kn.at }

  pub Keeps-try_catch :
      (m : Exec S E A) (h : E → Exec S E A)
      → Keeps P m
      → ((e : E) → Keeps P (h e))
      → Keeps P (try_catch m h)
  unfolding try_catch
  Keeps-try_catch m h km kh = record { at = λ s p. let (r, s') = m s in recovered r s' (km.at s p) }
    where
      recovered : (r : Result E A) (s : S) → P s → P (recover r h s).1
      recovered (ok a) s p = p
      recovered (err e) s p = (kh e).at s p

  pub Keeps-attempt : (m : Exec S E A) → Keeps P m → Keeps P (attempt m)
  unfolding attempt
  Keeps-attempt m km = record { at = km.at }

module _ {ℓ} {S E : Type ℓ} {P : S → Type ℓ} where
  pub Keeps-modify : (f : S → S) → ((s : S) → P s → P (f s)) → Keeps P (modify {E = E} f)
  unfolding modify
  Keeps-modify f kf = record { at = kf }

  pub Keeps-skip : Keeps P (skip {E = E})
  unfolding skip
  Keeps-skip = record { at = λ s h. h }

  pub Keeps-when : (b : Bool) (m : Exec S E (Unit {ℓ})) → Keeps P m → Keeps P (when b m)
  unfolding when
  Keeps-when true m km = record { at = km.at }
  Keeps-when false m km = record { at = λ s h. h }

  pub Keeps-raise_if : (b : Bool) (e : E) → Keeps P (raise_if b e)
  unfolding raise_if
  Keeps-raise_if b e = record { at = λ s h. h }

module _ {ℓ} {S E A B : Type ℓ} {P : S → Type ℓ} where
  pub Keeps-bind :
      (m : Exec S E A) (f : A → Exec S E B)
      → Keeps P m
      → ((a : A) → Keeps P (f a))
      → Keeps P (m >>= f)
  unfolding ◌>>=◌
  Keeps-bind m f km kf = record { at = λ s p. let (r, s') = m s in continued r s' (km.at s p) }
    where
      continued : (r : Result E A) (s : S) → P s → P (continue r f s).1
      continued (ok a) s p = (kf a).at s p
      continued (err e) s p = p

module _ {ℓ} {S E A B : Type ℓ} {P : S → Type ℓ} where
  -- What follows a computed result may use that it was returned.
  pub Keeps-lifted :
      (x : Result E A) (rest : A → Exec S E B)
      → ((a : A) → x ≡ ok a → Keeps P (rest a))
      → Keeps P (lift x >>= rest)
  unfolding ◌>>=◌
  Keeps-lifted (err e) rest k = record { at = λ s p. p }
  Keeps-lifted (ok a) rest k = record { at = (k a refl).at }

pub ruleset keeps_rules = (
  Keeps-pure, Keeps-raise, Keeps-lift, Keeps-gets, Keeps-branch, Keeps-try_catch, Keeps-attempt,
  Keeps-skip, Keeps-when, Keeps-raise_if, Keeps-bind,
)

-- `m` takes a state of `P` to one of `Q`, whether it returns or raises.
pub record Leads {ℓ} {S E A : Type ℓ} (P Q : S → Type ℓ) (m : Exec S E A) : Type ℓ where
  pub to : (s : S) → P s → Q (m s).1

module _ {ℓ} {S E A : Type ℓ} {P Q : S → Type ℓ} where
  pub Leads-of_Keeps : (m : Exec S E A) → Keeps P m → ((s : S) → P s → Q s) → Leads P Q m
  Leads-of_Keeps m k w = record { to = λ s p. w (m s).1 (k.at s p) }

module _ {ℓ} {S E A : Type ℓ} {P Q R : S → Type ℓ} where
  pub Leads-try_catch :
      (m : Exec S E A) (h : E → Exec S E A)
      → Leads P Q m
      → ((e : E) → Leads Q R (h e))
      → ((s : S) → Q s → R s)
      → Leads P R (try_catch m h)
  unfolding try_catch
  Leads-try_catch m h lm lh w = record {
    to = λ s p. let (r, s') = m s in recovered r s' (lm.to s p);
  }
    where
      recovered : (r : Result E A) (s : S) → Q s → R (recover r h s).1
      recovered (ok a) s q = w s q
      recovered (err e) s q = (lh e).to s q

module _ {ℓ} {S E A B : Type ℓ} {P Q R : S → Type ℓ} where
  pub Leads-bind :
      (m : Exec S E A) (f : A → Exec S E B)
      → Leads P Q m
      → ((a : A) → Leads Q R (f a))
      → ((s : S) → Q s → R s)
      → Leads P R (m >>= f)
  unfolding ◌>>=◌
  Leads-bind m f lm lf w = record { to = λ s p. let (r, s') = m s in continued r s' (lm.to s p) }
    where
      continued : (r : Result E A) (s : S) → Q s → R (continue r f s).1
      continued (ok a) s q = (lf a).to s q
      continued (err e) s q = w s q

module _ {ℓ} {S E A B : Type ℓ} where
  -- Inversion of a bind that returned.
  pub >>=-ok :
      (m : Exec S E A) (f : A → Exec S E B) (s : S) {b : B}
      → ((m >>= f) s).0 ≡ ok b
      → (a : A) × ((m s).0 ≡ ok a) × ((m >>= f) s ≡ f a (m s).1)
  unfolding ◌>>=◌
  >>=-ok m f s e = let (r, s') = m s in continued r s' e
    where
      continued :
          (r : Result E A) (s' : S) {b : B}
          → (continue r f s').0 ≡ ok b
          → (a : A) × (r ≡ ok a) × (continue r f s' ≡ f a s')
      continued (ok a) s' e = (a, refl, refl)
      continued (err x) s' e = cc
