-- ===== src/Base/Lists.antt =====
-- Lists measured by native numbers, and predicates on lists by recursion.
use fonio_middleware.Base.Tests.{Bool-cases}
use Prim.Native.Nat.{ℕ, zero, suc, ◌+◌}
use mathlib.Core.Path.{◌≡◌, refl, subst}
use mathlib.Core.Logic.{◌↔◌, ◌⊎◌, inl, inr}
use mathlib.Core.Bool.{Bool, true, false, ◌&&◌, ◌||◌}
use mathlib.Core.Option.{Option, none, some}
use mathlib.Core.List.{List, [], ◌∷◌, ◌++◌}
use native.Mathlib.Omega.{arith}

module _ {ℓ} {A : Type ℓ} where
  abbrev pub length : List A → ℕ
  length [] = 0
  length (x ∷ xs) = suc (length xs)

  abbrev pub take : ℕ → List A → List A
  take zero xs = []
  take (suc n) [] = []
  take (suc n) (x ∷ xs) = x ∷ take n xs

  -- `Array.prototype.some`, `every`, `filter` and `find`.
  abbrev pub any : (A → Bool) → List A → Bool
  any p [] = false
  any p (x ∷ xs) = p x || any p xs

  abbrev pub all : (A → Bool) → List A → Bool
  all p [] = true
  all p (x ∷ xs) = p x && all p xs

  abbrev pub keep : (A → Bool) → List A → List A
  keep p [] = []
  keep p (x ∷ xs) = elim (p x) [ true ↦ x ∷ keep p xs | false ↦ keep p xs ]

  abbrev pub find : (A → Bool) → List A → Option A
  find p [] = none
  find p (x ∷ xs) = elim (p x) [ true ↦ some x | false ↦ find p xs ]

  pub length-append : (xs ys : List A) → length (xs ++ ys) ≡ length xs + length ys
  length-append [] ys = omega arith
  length-append (x ∷ xs) ys = omega (arith, length-append xs ys)

module _ {ℓ κ} {A : Type ℓ} (P : A → Type κ) where
  abbrev pub All : List A → Type κ
  All [] = Unit
  All (x ∷ xs) = P x × All xs

-- `a` is the first element that passes the test; no element is that of the empty list.
module _ {ℓ} {A : Type ℓ} where
  abbrev pub IsFirst : (A → Bool) → List A → A → Type ℓ
  IsFirst p [] a = [] ≡ a ∷ []
  IsFirst p (x ∷ xs) a = ((p x ≡ true) × (x ≡ a)) ⊎ ((p x ≡ false) × IsFirst p xs a)

  pub find-keep : (p q : A → Bool) (xs : List A) → find p (keep q xs) ≡ find (λ x. q x && p x) xs
  find-keep p q [] = refl
  find-keep p q (x ∷ xs) = ground (arith, find-keep p q xs)

  pub find-eq-some_iff :
      (p : A → Bool) (xs : List A) (a : A) → (find p xs ≡ some a) ↔ IsFirst p xs a
  find-eq-some_iff p [] a = ground arith
  find-eq-some_iff p (x ∷ xs) a = ground (arith, find-eq-some_iff p xs a)

  pub find-eq-none_iff :
      (p : A → Bool) (xs : List A) → (find p xs ≡ none) ↔ All (λ x. p x ≡ false) xs
  find-eq-none_iff p [] = ground arith
  find-eq-none_iff p (x ∷ xs) = ground (arith, find-eq-none_iff p xs)

  -- What is found passes the test.
  pub find_sound : (p : A → Bool) (xs : List A) (a : A) → find p xs ≡ some a → p a ≡ true
  find_sound p [] a h = absurd (ground arith)
  find_sound p (x ∷ xs) a h = elim (Bool-cases (p x)) [
    | inl here ↦ let same : x ≡ a = ground arith in rw (← same) here
    | inr later ↦ find_sound p xs a (ground arith)
  ]

  -- An element that passes `any` can be shown.
  pub any_sound : (p : A → Bool) (xs : List A) → any p xs ≡ true → (a : A) × (p a ≡ true)
  any_sound p [] h = absurd (ground arith)
  any_sound p (x ∷ xs) h = elim (Bool-cases (p x)) [
    | inl here ↦ (x, here)
    | inr later ↦ any_sound p xs (ground arith)
  ]

module _ {ℓ κ ι} {A : Type ℓ} {P : A → Type κ} {Q : A → Type ι} where
  pub All-mono : ((a : A) → P a → Q a) → (xs : List A) → All P xs → All Q xs
  All-mono f [] h = tt
  All-mono f (x ∷ xs) h = (f x h.0, All-mono f xs h.1)

module _ {ℓ κ} {A : Type ℓ} (P : A → Type κ) where
  -- What holds of all elements that are kept holds of every element that passes the test.
  pub keep-All : (p : A → Bool) (xs : List A) → All P (keep p xs) → All (λ x. p x ≡ true → P x) xs
  keep-All p [] h = tt
  keep-All p (x ∷ xs) h = elim (Bool-cases (p x)) [
    | inl kept ↦
        let same : keep p (x ∷ xs) ≡ x ∷ keep p xs = ground (arith, kept) in
        let here : All P (x ∷ keep p xs) = subst (All P) same h in
        (λ e. here.0, keep-All p xs here.1)
    | inr dropped ↦
        let same : keep p (x ∷ xs) ≡ keep p xs = ground (arith, dropped) in
        (λ e. absurd (ground arith), keep-All p xs (subst (All P) same h))
  ]

module _ {ℓ} {A : Type ℓ} where
  pub All-keep : (p : A → Bool) (xs : List A) → All (λ x. p x ≡ true) (keep p xs)
  All-keep p [] = tt
  All-keep p (x ∷ xs) = elim (Bool-cases (p x)) [
    | inl kept ↦
        let same : keep p (x ∷ xs) ≡ x ∷ keep p xs = ground (arith, kept) in
        rw same (kept, All-keep p xs)
    | inr dropped ↦
        let same : keep p (x ∷ xs) ≡ keep p xs = ground (arith, dropped) in rw same (All-keep p xs)
  ]
