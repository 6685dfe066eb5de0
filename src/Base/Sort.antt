-- ===== src/Base/Sort.antt =====
-- `Array.prototype.sort` with a numeric comparison: the stable sort, written as insertion.
use fonio_middleware.Base.Tests.{leb, if◌then◌else◌, Bool-cases}
use fonio_middleware.Base.Lists.{All, All-mono}
use Prim.Native.Nat.{ℕ, ◌≤◌}
use mathlib.Core.Path.{◌≡◌, subst}
use mathlib.Core.Bool.{Bool, true, false}
use mathlib.Core.Logic.{inl, inr}
use native.Mathlib.Omega.{arith}
use mathlib.Core.List.{List, [], ◌∷◌}

module _ {ℓ} {A : Type ℓ} (key : A → ℕ) where
  insert : A → List A → List A
  insert a [] = a ∷ []
  insert a (x ∷ xs) = let rest = insert a xs in if leb (key a) (key x) then a ∷ x ∷ xs else x ∷ rest

  unfoldable pub sort_by : List A → List A
  unfolding insert
  sort_by [] = []
  sort_by (x ∷ xs) = insert x (sort_by xs)

-- `Array.prototype.sort` with a comparison that is no difference of keys: `ahead a x` says that `a` may
-- stand before `x`.
module _ {ℓ} {A : Type ℓ} (ahead : A → A → Bool) where
  insert_with : A → List A → List A
  insert_with a [] = a ∷ []
  insert_with a (x ∷ xs) = let rest = insert_with a xs in if ahead a x then a ∷ x ∷ xs else x ∷ rest

  unfoldable pub sort_with : List A → List A
  unfolding insert_with
  sort_with [] = []
  sort_with (x ∷ xs) = insert_with x (sort_with xs)

  All-insert_with {κ} :
      (P : A → Type κ) (a : A) (xs : List A) → P a → All P xs → All P (insert_with a xs)
  unfolding insert_with
  All-insert_with P a [] h hs = (h, tt)
  All-insert_with P a (x ∷ xs) h hs = elim (Bool-cases (ahead a x)) [
    | inl above ↦ rw above (h, hs)
    | inr below ↦ rw below (hs.0, All-insert_with P a xs h hs.1)
  ]

  insert_with-All {κ} :
      (P : A → Type κ) (a : A) (xs : List A) → All P (insert_with a xs) → P a × All P xs
  unfolding insert_with
  insert_with-All P a [] h = h
  insert_with-All P a (x ∷ xs) h = elim (Bool-cases (ahead a x)) [
    | inl above ↦
        let same : insert_with a (x ∷ xs) ≡ a ∷ x ∷ xs = ground (arith, above) in
        subst (All P) same h
    | inr below ↦
        let same : insert_with a (x ∷ xs) ≡ x ∷ insert_with a xs = ground (arith, below) in
        let here : All P (x ∷ insert_with a xs) = subst (All P) same h in
        let (new, old) = insert_with-All P a xs here.1 in (new, (here.0, old))
  ]

  -- What holds of all elements of the sorted list holds of all elements of the list, and back.
  pub sort_with-All {κ} : (P : A → Type κ) (xs : List A) → All P (sort_with xs) → All P xs
  unfolding sort_with
  sort_with-All P [] h = tt
  sort_with-All P (x ∷ xs) h =
      let (new, old) = insert_with-All P x (sort_with xs) h in (new, sort_with-All P xs old)

  pub All-sort_with {κ} : (P : A → Type κ) (xs : List A) → All P xs → All P (sort_with xs)
  unfolding sort_with
  All-sort_with P [] h = tt
  All-sort_with P (x ∷ xs) h = All-insert_with P x (sort_with xs) h.0 (All-sort_with P xs h.1)

  -- The keys fall along the list.
  module _ (key : A → ℕ) where
    abbrev pub IsFalling : List A → Type ℓ
    IsFalling [] = Unit
    IsFalling (x ∷ xs) = All (λ y. key y ≤ key x) xs × IsFalling xs

    module _ (yes_falls : (a x : A) → ahead a x ≡ true → key x ≤ key a)
        (no_falls : (a x : A) → ahead a x ≡ false → key a ≤ key x) where
      insert_with-IsFalling : (a : A) (xs : List A) → IsFalling xs → IsFalling (insert_with a xs)
      unfolding insert_with
      insert_with-IsFalling a [] h = (tt, tt)
      insert_with-IsFalling a (x ∷ xs) h = elim (Bool-cases (ahead a x)) [
        | inl above ↦
            let first : key x ≤ key a = yes_falls a x above in
            rw above ((first, All-mono (λ y under. omega (arith, first, under)) xs h.0), h)
        | inr below ↦ rw below (
          All-insert_with (λ y. key y ≤ key x) a xs (no_falls a x below) h.0,
          insert_with-IsFalling a xs h.1,
        )
      ]

      pub sort_with-IsFalling : (xs : List A) → IsFalling (sort_with xs)
      unfolding sort_with
      sort_with-IsFalling [] = tt
      sort_with-IsFalling (x ∷ xs) = insert_with-IsFalling x (sort_with xs) (sort_with-IsFalling xs)
