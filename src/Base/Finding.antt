-- ===== src/Base/Finding.antt =====
-- What `find` returns, on lists that grow and that are changed.
use mathlib.Core.Path.{◌≡◌, refl, subst}
use mathlib.Core.Logic.{inl, inr}
use mathlib.Core.Bool.{Bool, true, false}
use mathlib.Core.Option.{none, some}
use mathlib.Core.List.{List, [], ◌∷◌, ◌++◌, map}
use native.Mathlib.Omega.{arith}
use decathlon_app.Base.Tests.{Bool-cases}
use decathlon_app.Base.Lists.{find, is_some, All}

module _ {ℓ} {A : Type ℓ} where
  pub find-holds : (p : A → Bool) (xs : List A) (a : A) → find p xs ≡ some a → p a ≡ true
  find-holds p [] a found = ground arith
  find-holds p (x ∷ xs) a found = grind (arith, find-holds p xs a)

  pub find-append-some :
      (p : A → Bool) (xs : List A) (y : A) → p y ≡ true → is_some (find p (xs ++ y ∷ [])) ≡ true
  find-append-some p [] y holds = rw holds refl
  find-append-some p (x ∷ xs) y holds = elim (Bool-cases (p x)) [
    | inl here ↦ rw here refl
    | inr later ↦ rw later (find-append-some p xs y holds)
  ]

  pub find-append-kept :
      (p : A → Bool) (xs : List A) (y : A)
      → is_some (find p xs) ≡ true
      → is_some (find p (xs ++ y ∷ [])) ≡ true
  find-append-kept p [] y there = ground arith
  find-append-kept p (x ∷ xs) y there = elim (Bool-cases (p x)) [
    | inl here ↦ rw here refl
    | inr later ↦ rw later (find-append-kept p xs y (ground (arith, later, there)))
  ]

  pub find-append :
      (p : A → Bool) (xs : List A) (y : A)
      → find p xs ≡ none
      → p y ≡ true
      → find p (xs ++ y ∷ []) ≡ some y
  find-append p [] y lost holds = rw holds refl
  find-append p (x ∷ xs) y lost holds = elim (Bool-cases (p x)) [
    | inl here ↦ grind (arith, here)
    | inr later ↦ rw later (find-append p xs y (ground (arith, lost, later)) holds)
  ]

  pub find-map-some :
      (p q : A → Bool) (f : A → A) (xs : List A) (a : A)
      → find q xs ≡ some a
      → p (f a) ≡ true
      → is_some (find p (map f xs)) ≡ true
  find-map-some p q f [] a found holds = ground arith
  find-map-some p q f (x ∷ xs) a found holds =
      let later = find-map-some p q f xs a in
      elim (Bool-cases (p (f x))) [
        | inl here ↦ rw here refl
        | inr not_here ↦ elim (Bool-cases (q x)) [
          | inl same ↦ grind (arith, f)
          | inr other ↦ rw not_here (ground (arith, later))
        ]
      ]

  pub find-none : (p : A → Bool) (xs : List A) → find p xs ≡ none → All (λ a. p a ≡ false) xs
  find-none p [] lost = tt
  find-none p (x ∷ xs) lost = elim (Bool-cases (p x)) [
    | inl here ↦ grind (arith, here)
    | inr later ↦ (later, find-none p xs (ground (arith, lost, later)))
  ]

  pub find-here :
      (p : A → Bool) (x a : A) (xs : List A) → find p (x ∷ xs) ≡ some a → p x ≡ true → x ≡ a
  find-here p x a xs found here = ground (arith, found, here)

  pub find-later :
      (p : A → Bool) (x a : A) (xs : List A)
      → find p (x ∷ xs) ≡ some a
      → p x ≡ false
      → find p xs ≡ some a
  find-later p x a xs found here = ground (arith, found, here)

  pub find-All {κ} :
      (P : A → Type κ) (p : A → Bool) (xs : List A) (a : A) → All P xs → find p xs ≡ some a → P a
  find-All P p [] a all found = ground arith
  find-All P p (x ∷ xs) a all found = elim (Bool-cases (p x)) [
    | inl here ↦ subst P (find-here p x a xs found here) all.0
    | inr later ↦ find-All P p xs a all.1 (find-later p x a xs found later)
  ]
