-- ===== src/Base/Count.antt =====
-- How many elements of a list pass a test.
use fonio_middleware.Base.Lists.{length, keep, any, all}
use Prim.Native.Nat.{ℕ, ◌+◌, ◌≤◌, ◌<◌}
use mathlib.Core.Path.{◌≡◌, refl}
use mathlib.Core.Logic.{◌↔◌}
use mathlib.Core.Bool.{Bool, true, false, ◌&&◌}
use mathlib.Core.List.{List, [], ◌∷◌}
use native.Mathlib.Omega.{arith}

abbrev pub bit : Bool → ℕ
bit true = 1
bit false = 0

module _ {ℓ} {A : Type ℓ} where
  abbrev pub count : (A → Bool) → List A → ℕ
  count p [] = 0
  count p (x ∷ xs) = bit (p x) + count p xs

  pub length-keep : (p : A → Bool) (xs : List A) → length (keep p xs) ≡ count p xs
  length-keep p [] = refl
  length-keep p (x ∷ xs) = ground (arith, length-keep p xs)

  -- Two tests that exclude each other.
  pub count_add :
      (p q r : A → Bool) (xs : List A)
      → ((x : A) → bit (p x) ≡ bit (q x) + bit (r x))
      → count p xs ≡ count q xs + count r xs
  count_add p q r [] h = refl
  count_add p q r (x ∷ xs) h = omega (arith, h x, count_add p q r xs h)

  pub any-iff-count : (p : A → Bool) (xs : List A) → (any p xs ≡ true) ↔ (0 < count p xs)
  any-iff-count p [] = ground arith
  any-iff-count p (x ∷ xs) = ground (arith, any-iff-count p xs)

  pub count_both-le : (p q : A → Bool) (xs : List A) → count (λ x. p x && q x) xs ≤ count p xs
  count_both-le p q [] = omega arith
  count_both-le p q (x ∷ xs) = ground (arith, count_both-le p q xs)

  -- All elements that are kept pass a test exactly if as many pass both.
  pub all-keep_iff :
      (p q : A → Bool) (xs : List A)
      → (all q (keep p xs) ≡ true) ↔ (count (λ x. p x && q x) xs ≡ count p xs)
  all-keep_iff p q [] = ground arith
  all-keep_iff p q (x ∷ xs) = ground (arith, all-keep_iff p q xs, count_both-le p q xs)

  pub count_cong :
      (p q : A → Bool) (xs : List A) → ((x : A) → bit (p x) ≡ bit (q x)) → count p xs ≡ count q xs
  count_cong p q [] h = refl
  count_cong p q (x ∷ xs) h = omega (arith, h x, count_cong p q xs h)
