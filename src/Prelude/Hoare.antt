-- ===== src/Prelude/Hoare.antt =====
-- What holds after a method that returned, from what held before it. Of a method that raises
-- nothing is said. One rule for each way to build a method.
use mathlib.Core.Path.{◌≡◌, refl}
use mathlib.Core.Bool.{Bool, true, false}
use ultimate_bbsbox.Prelude.Exec.{
  Result, ok, err, Exec, raise, lift, gets, modify, skip, when, raise_if, branch, try_catch,
  continue, recover, ◌>>=◌, Keeps,
}

pub record Hoare {ℓ} {S E A : Type ℓ} (P : S → Type ℓ) (m : Exec S E A) (Q : S → Type ℓ)
    : Type ℓ where
  pub after : (s : S) → P s → (a : A) → (m s).0 ≡ ok a → Q (m s).1

module _ {ℓ} {S E A : Type ℓ} {P Q : S → Type ℓ} where
  pub Hoare-raise : (e : E) → Hoare P (raise {A = A} e) Q
  unfolding raise
  Hoare-raise e = record { after = λ s h a r. cc }

  pub Hoare-branch :
      (b : Bool) (m n : Exec S E A)
      → (b ≡ true → Hoare P m Q)
      → (b ≡ false → Hoare P n Q)
      → Hoare P (branch b m n) Q
  unfolding branch
  Hoare-branch true m n hm hn = record { after = (hm refl).after }
  Hoare-branch false m n hm hn = record { after = (hn refl).after }

module _ {ℓ} {S E A : Type ℓ} {P R Q : S → Type ℓ} where
  -- The handler starts from what holds at the exception.
  pub Hoare-try_catch :
      (m : Exec S E A) (h : E → Exec S E A)
      → Hoare P m Q
      → ((s : S) → P s → R (m s).1)
      → ((e : E) → Hoare R (h e) Q)
      → Hoare P (try_catch m h) Q
  unfolding try_catch
  Hoare-try_catch m h hm r hh = record {
    after = λ s p a e. let (x, s') = m s in recovered x s' (hm.after s p) (r s p) a e;
  }
    where
      recovered :
          (x : Result E A) (s : S)
          → ((a : A) → x ≡ ok a → Q s)
          → R s
          → (a : A) → (recover x h s).0 ≡ ok a
          → Q (recover x h s).1
      recovered (ok b) s q r a e = q b refl
      recovered (err x) s q r a e = (hh x).after s r a e

module _ {ℓ} {S E A : Type ℓ} {P : S → Type ℓ} where
  pub Hoare-keeps : (m : Exec S E A) → Keeps P m → Hoare P m P
  Hoare-keeps m k = record { after = λ s p a e. k.at s p }

module _ {ℓ} {S E A B : Type ℓ} {P Q R : S → Type ℓ} where
  pub Hoare-bind :
      (m : Exec S E A) (f : A → Exec S E B)
      → Hoare P m Q
      → ((a : A) → Hoare Q (f a) R)
      → Hoare P (m >>= f) R
  unfolding ◌>>=◌
  Hoare-bind m f hm hf = record {
    after = λ s p b e. let (x, s') = m s in continued x s' (hm.after s p) b e;
  }
    where
      continued :
          (x : Result E A) (s : S)
          → ((a : A) → x ≡ ok a → Q s)
          → (b : B) → (continue x f s).0 ≡ ok b
          → R (continue x f s).1
      continued (ok a) s q b e = (hf a).after s (q a refl) b e
      continued (err x) s q b e = cc

module _ {ℓ} {S E A B : Type ℓ} {P R : S → Type ℓ} (Q : S → S → Type ℓ) where
  -- A value that is read off a state may be used as such.
  pub Hoare-gets :
      (g : S → A) (f : A → Exec S E B)
      → ((s : S) → P s → Hoare (Q s) (f (g s)) R)
      → ((s : S) → P s → Q s s)
      → Hoare P (gets g >>= f) R
  unfolding ◌>>=◌
  Hoare-gets g f h w = record { after = λ s p b e. (h s p).after s (w s p) b e }

module _ {ℓ} {S E A : Type ℓ} {P P' Q Q' : S → Type ℓ} where
  pub Hoare-weaken :
      (m : Exec S E A)
      → ((s : S) → P s → P' s)
      → Hoare P' m Q'
      → ((s : S) → Q' s → Q s)
      → Hoare P m Q
  Hoare-weaken m p h q = record { after = λ s x a e. q (m s).1 (h.after s (p s x) a e) }

module _ {ℓ} {S E : Type ℓ} {P Q : S → Type ℓ} where
  pub Hoare-when :
      (b : Bool) (m : Exec S E (Unit {ℓ}))
      → (b ≡ true → Hoare P m Q)
      → (b ≡ false → (s : S) → P s → Q s)
      → Hoare P (when b m) Q
  unfolding when
  Hoare-when true m h w = record { after = (h refl).after }
  Hoare-when false m h w = record { after = λ s p a e. w refl s p }

  pub Hoare-raise_if :
      (b : Bool) (e : E) → (b ≡ false → (s : S) → P s → Q s) → Hoare P (raise_if b e) Q
  unfolding raise_if
  Hoare-raise_if true e w = record { after = λ s p a r. cc }
  Hoare-raise_if false e w = record { after = λ s p a r. w refl s p }

  pub Hoare-skip : ((s : S) → P s → Q s) → Hoare P (skip {E = E}) Q
  unfolding skip
  Hoare-skip w = record { after = λ s p a e. w s p }

  pub Hoare-modify : (f : S → S) → ((s : S) → P s → Q (f s)) → Hoare P (modify {E = E} f) Q
  unfolding modify
  Hoare-modify f w = record { after = λ s p a e. w s p }

-- What holds of the result and of the state after a method that returned.
pub record Yields {ℓ} {S E A : Type ℓ} (m : Exec S E A) (Q : A → S → Type ℓ) : Type ℓ where
  pub on : (s : S) (a : A) → (m s).0 ≡ ok a → Q a (m s).1

module _ {ℓ} {S E A B : Type ℓ} {Q : B → S → Type ℓ} where
  pub Yields-bind :
      (m : Exec S E A) (f : A → Exec S E B) → ((a : A) → Yields (f a) Q) → Yields (m >>= f) Q
  unfolding ◌>>=◌
  Yields-bind m f hf = record { on = λ s b e. let (x, s') = m s in continued x s' b e }
    where
      continued :
          (x : Result E A) (s : S) (b : B) → (continue x f s).0 ≡ ok b → Q b (continue x f s).1
      continued (ok a) s b e = (hf a).on s b e
      continued (err x) s b e = cc

  -- What follows a computed result may use that it was returned.
  pub Yields-lifted :
      (x : Result E A) (f : A → Exec S E B)
      → ((a : A) → x ≡ ok a → Yields (f a) Q)
      → Yields (lift x >>= f) Q
  unfolding ◌>>=◌
  Yields-lifted (ok a) f hf = record { on = (hf a refl).on }
  Yields-lifted (err e) f hf = record { on = λ s b r. cc }

module _ {ℓ} {S E B : Type ℓ} {Q : B → S → Type ℓ} where
  -- What follows a test may use that it let the call go on.
  pub Yields-checked :
      (b : Bool) (e : E) (n : Unit {ℓ} → Exec S E B)
      → (b ≡ false → Yields (n tt) Q)
      → Yields (raise_if b e >>= n) Q
  unfolding ◌>>=◌
  Yields-checked true e n h = record { on = λ s a r. cc }
  Yields-checked false e n h = record { on = (h refl).on }
