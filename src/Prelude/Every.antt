-- ===== src/Prelude/Every.antt =====
-- Predicates on lists by recursion: of every element, and of every two elements.
use Prim.Native.String.{String}
use mathlib.Core.Path.{◌≡◌, refl}
use mathlib.Core.Logic.{◌≢◌, inl, inr}
use mathlib.Core.Bool.{Bool, true, false}
use mathlib.Core.Option.{some}
use mathlib.Core.List.{List, [], ◌∷◌, ◌++◌, map}
use native.Mathlib.Omega.{arith}
use text.Mathlib.Text.{◌==◌}
use text.Mathlib.TextEquality.{eq_iff}
use ultimate_bbsbox.Prelude.Tests.{Bool-cases}
use ultimate_bbsbox.Prelude.Dict.{Dict, lookup, insert, erase}
use ultimate_bbsbox.Prelude.Lists.{all, elem}
use ultimate_bbsbox.Prelude.Chars.{is_distinct}

module _ {ℓ} {A : Type ℓ} where
  abbrev pub Every : (A → Type 0) → List A → Type 0
  Every P [] = Unit {0}
  Every P (x ∷ xs) = P x × Every P xs

  -- Every element stands in `R` to each that comes after it.
  abbrev pub Pairwise : (A → A → Type 0) → List A → Type 0
  Pairwise R [] = Unit {0}
  Pairwise R (x ∷ xs) = Every (R x) xs × Pairwise R xs

  pub Every-append :
      (P : A → Type 0) (xs ys : List A) → Every P xs → Every P ys → Every P (xs ++ ys)
  Every-append P [] ys h k = k
  Every-append P (x ∷ xs) ys h k = (h.0, Every-append P xs ys h.1 k)

  pub Every-left : (P : A → Type 0) (xs ys : List A) → Every P (xs ++ ys) → Every P xs
  Every-left P [] ys h = tt
  Every-left P (x ∷ xs) ys h = (h.0, Every-left P xs ys h.1)

  pub Every-right : (P : A → Type 0) (xs ys : List A) → Every P (xs ++ ys) → Every P ys
  Every-right P [] ys h = h
  Every-right P (x ∷ xs) ys h = Every-right P xs ys h.1

  pub Every-map : (P Q : A → Type 0) (xs : List A) → ((x : A) → P x → Q x) → Every P xs → Every Q xs
  Every-map P Q [] f h = tt
  Every-map P Q (x ∷ xs) f h = (f x h.0, Every-map P Q xs f h.1)

  pub Every-both :
      (P Q R : A → Type 0) (xs : List A)
      → ((x : A) → P x → Q x → R x)
      → Every P xs
      → Every Q xs
      → Every R xs
  Every-both P Q R [] f h k = tt
  Every-both P Q R (x ∷ xs) f h k = (f x h.0 k.0, Every-both P Q R xs f h.1 k.1)

  pub all→Every : (p : A → Bool) (xs : List A) → all p xs ≡ true → Every (λ x. p x ≡ true) xs
  all→Every p [] h = tt
  all→Every p (x ∷ xs) h = (ground arith, all→Every p xs (ground arith))

  pub Every→all : (p : A → Bool) (xs : List A) → Every (λ x. p x ≡ true) xs → all p xs ≡ true
  Every→all p [] h = refl
  Every→all p (x ∷ xs) h = ground (arith, Every→all p xs h.1)

  elem→Every :
      (f : A → String) (k : String) (xs : List A)
      → elem k (map f xs) ≡ false
      → Every (λ x. k ≢ f x) xs
  elem→Every f k [] h = tt
  elem→Every f k (x ∷ xs) h =
      (λ e. ground (arith, eq_iff (f x) k), elem→Every f k xs (ground arith))

  Every→elem :
      (f : A → String) (k : String) (xs : List A)
      → Every (λ x. k ≢ f x) xs
      → elem k (map f xs) ≡ false
  Every→elem f k [] h = refl
  Every→elem f k (x ∷ xs) h = ground (arith, eq_iff (f x) k, h.0, Every→elem f k xs h.1)

  -- The Boolean test of distinctness, of texts that are read off a list.
  pub Pairwise-map :
      (R S : A → A → Type 0)
      → ((x y : A) → R x y → S x y)
      → (xs : List A) → Pairwise R xs
      → Pairwise S xs
  Pairwise-map R S f [] h = tt
  Pairwise-map R S f (x ∷ xs) h = (Every-map (R x) (S x) xs (f x) h.0, Pairwise-map R S f xs h.1)

  pub is_distinct→Pairwise :
      (f : A → String) (xs : List A)
      → is_distinct (map f xs) ≡ true
      → Pairwise (λ x y. f x ≢ f y) xs
  is_distinct→Pairwise f [] h = tt
  is_distinct→Pairwise f (x ∷ xs) h =
      (elem→Every f (f x) xs (ground arith), is_distinct→Pairwise f xs (ground arith))

  pub Pairwise→is_distinct :
      (f : A → String) (xs : List A)
      → Pairwise (λ x y. f x ≢ f y) xs
      → is_distinct (map f xs) ≡ true
  Pairwise→is_distinct f [] h = refl
  Pairwise→is_distinct f (x ∷ xs) h =
      ground (arith, Every→elem f (f x) xs h.0, Pairwise→is_distinct f xs h.1)

-- Predicates on the entries of a dictionary.
module _ {ℓ} {V : Type ℓ} (P : String × V → Type 0) where
  pub Every-insert :
      (k : String) (v : V) (d : Dict V) → P (k, v) → Every P d → Every P (insert k v d)
  unfolding insert
  Every-insert k v [] p h = (p, tt)
  Every-insert k v ((j, w) ∷ d) p h = elim (Bool-cases (j == k)) [
    | inl same ↦ rw same (p, h.1)
    | inr other ↦ rw other (h.0, Every-insert k v d p h.1)
  ]

  pub Every-lookup : (k : String) (v : V) (d : Dict V) → Every P d → lookup k d ≡ some v → P (k, v)
  unfolding lookup
  Every-lookup k v [] h e = cc
  Every-lookup k v ((j, w) ∷ d) h e = elim (Bool-cases (j == k)) [
    | inl same ↦
        let names : j ≡ k = ground (arith, eq_iff j k) in
        let found : some w ≡ some v = rw same at e in
        let values : w ≡ v = cc in let own : P (j, w) = h.0 in rw (names, values) at own
    | inr other ↦ Every-lookup k v d h.1 (rw other at e)
  ]

  pub Every-erase : (k : String) (d : Dict V) → Every P d → Every P (erase k d)
  unfolding erase
  Every-erase k [] h = tt
  Every-erase k ((j, w) ∷ d) h = elim (Bool-cases (j == k)) [
    | inl same ↦ rw same (Every-erase k d h.1)
    | inr other ↦ rw other (h.0, Every-erase k d h.1)
  ]
