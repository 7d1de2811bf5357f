-- ===== src/Prelude/Apart.antt =====
-- Lists in which no two items are the same, for a Boolean test of sameness.

use mathlib.Core.Path.{◌≡◌, refl}
use mathlib.Core.Logic.{inl, inr}
use mathlib.Core.Bool.{Bool, true, false}
use mathlib.Core.Option.{some}
use mathlib.Core.List.{List, [], ◌∷◌, ◌++◌}
use native.Mathlib.Omega.{arith}
use clash_config_gen.Prelude.Tests.{Bool-cases}
use clash_config_gen.Prelude.Lists.{any, filter, find, any-append, All}

module _ {ℓ} {A : Type ℓ} where
  abbrev pub Apart : (A → A → Bool) → List A → Type 0
  Apart same [] = Unit {0}
  Apart same (x ∷ xs) = (any (same x) xs ≡ false) × Apart same xs

  pub Apart-append :
      (same : A → A → Bool) (xs : List A) (x : A)
      → Apart same xs
      → any (λ y. same y x) xs ≡ false
      → Apart same (xs ++ x ∷ [])
  Apart-append same [] x h k = (refl, tt)
  Apart-append same (y ∷ xs) x h k = (
    ground (arith, h.0, k, any-append (same y) xs (x ∷ [])),
    Apart-append same xs x h.1 (ground arith),
  )

  pub any-filter : (p q : A → Bool) (xs : List A) → any p xs ≡ false → any p (filter q xs) ≡ false
  any-filter p q [] h = refl
  any-filter p q (x ∷ xs) h = ground (arith, any-filter p q xs)

  pub Apart-filter :
      (same : A → A → Bool) (q : A → Bool) (xs : List A) → Apart same xs → Apart same (filter q xs)
  Apart-filter same q [] h = tt
  Apart-filter same q (x ∷ xs) h = elim (Bool-cases (q x)) [
    | inl e ↦ rw e (any-filter (same x) q xs h.0, Apart-filter same q xs h.1)
    | inr e ↦ rw e (Apart-filter same q xs h.1)
  ]

  pub any-false-All : (p : A → Bool) (xs : List A) → any p xs ≡ false → All (λ a. p a ≡ false) xs
  any-false-All p [] h = tt
  any-false-All p (x ∷ xs) h = (ground arith, any-false-All p xs (ground arith))

  pub All-any-false : (p : A → Bool) (xs : List A) → All (λ a. p a ≡ false) xs → any p xs ≡ false
  All-any-false p [] h = refl
  All-any-false p (x ∷ xs) h = ground (arith, All-any-false p xs h.1)

  pub find-All :
      (P : A → Type 0) (p : A → Bool) (xs : List A) (x : A)
      → All P xs
      → find p xs ≡ some x
      → P x × (p x ≡ true)
  find-All P p [] x h e = cc
  find-All P p (y ∷ xs) x h e = elim (Bool-cases (p y)) [
    | inl t ↦ let same : y ≡ x = ground (arith, e) in rw (← same) (h.0, t)
    | inr t ↦ find-All P p xs x h.1 (ground (arith, e))
  ]

  -- An item of a list without repetitions is the one that a search for its like finds.
  pub find-Apart :
      (same : A → A → Bool) (p : A → Bool) (xs : List A) (x : A)
      → ((a b : A) → same a b ≡ same b a)
      → same x x ≡ true
      → Apart same xs
      → find p xs ≡ some x
      → find (λ y. same y x) xs ≡ some x
  find-Apart same p [] x symm self h e = cc
  find-Apart same p (y ∷ xs) x symm self h e = elim (Bool-cases (p y)) [
    | inl t ↦ let is : y ≡ x = ground (arith, e) in rw (is, self) refl
    | inr t ↦
        let rest : find p xs ≡ some x = ground (arith, e) in
        let apart : same y x ≡ false =
          (find-All (λ a. same y a ≡ false) p xs x (any-false-All (same y) xs h.0) rest).0 in
        rw apart (find-Apart same p xs x symm self h.1 rest)
  ]
