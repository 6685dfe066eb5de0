-- ===== src/Payments/Table.antt =====
-- Tables of rows: `update` of the row that `findUnique` finds.
use fonio_middleware.Base.{
  ap, true, inr, inl, Bool-cases, All, some, [], ◌≡◌, if◌then◌else◌, ◌∷◌, find, List, Bool, arith,
}

module _ {ℓ} {A : Type ℓ} where
  unfoldable pub update_where : (A → Bool) → (A → A) → List A → List A
  update_where p f [] = []
  update_where p f (x ∷ xs) = if p x then f x ∷ xs else x ∷ update_where p f xs

  -- What holds of every row holds after an update, if it holds of the new row.
  pub All-update_where {κ} :
      (P : A → Type κ) (p : A → Bool) (f : A → A) (xs : List A) (x : A)
      → find p xs ≡ some x
      → All P xs
      → P (f x)
      → All P (update_where p f xs)
  unfolding update_where
  All-update_where P p f [] x e h new = tt
  All-update_where P p f (y ∷ ys) x e h new = elim (Bool-cases (p y)) [
    | inl here ↦ let same : y ≡ x = ground arith in rw (here, same) (new, h.1)
    | inr later ↦ rw later (h.0, All-update_where P p f ys x (ground arith) h.1 new)
  ]

  pub All_found {κ} :
      (P : A → Type κ) (p : A → Bool) (xs : List A) (x : A) → find p xs ≡ some x → All P xs → P x
  All_found P p [] x e h = absurd (ground arith)
  All_found P p (y ∷ ys) x e h = elim (Bool-cases (p y)) [
    | inl here ↦ let same : y ≡ x = ground arith in rw (← same) h.0
    | inr later ↦ All_found P p ys x (ground arith) h.1
  ]

  -- The updated row is found, if it keeps its key.
  pub find-update_where :
      (p : A → Bool) (f : A → A) (xs : List A) (x : A)
      → find p xs ≡ some x
      → p (f x) ≡ true
      → find p (update_where p f xs) ≡ some (f x)
  unfolding update_where
  find-update_where p f [] x e key = absurd (ground arith)
  find-update_where p f (y ∷ ys) x e key = elim (Bool-cases (p y)) [
    | inl here ↦
        let same : y ≡ x = ground arith in
        let key_y : p (f y) ≡ true = rw same key in rw (here, key_y) (ap (λ z. some (f z)) same)
    | inr later ↦ rw (later, later) (find-update_where p f ys x (ground arith) key)
  ]
