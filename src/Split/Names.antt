-- ===== src/Split/Names.antt =====
-- Whether two names are of one guest: `guestsLikelySame` of src/automation/payment-split-hint.util.ts.
use fonio_middleware.Base.{
  not, inr, keep, inl, ◌==◌, sym, none, Bool-cases, ◌||◌, ◌++◌, ◌&&◌, true, some, map, length, ◌≤◌,
  ◌∷◌, leb, false, any, [], ◌≡◌, if◌then◌else◌, Option, List, Bool, ℕ, arith,
}
use fonio_middleware.Base.Text.{text_eq_iff, to_lower, is_space, text_eq, is_empty, trim, Text}

-- `normalize('NFD')` is the decomposition of Unicode, whose tables are not part of the program.
module _ (nfd : Text → Text) where
  -- `/[\u0300-\u036f]/`
  abbrev is_mark : ℕ → Bool
  is_mark c = leb 0x300 c && leb c 0x36f

  -- `/[^a-z0-9\s]/` becomes a space.
  abbrev plain : ℕ → ℕ
  plain c =
      if (leb b'a' c && leb c b'z') || ((leb b'0' c && leb c b'9') || is_space c) then c else 32

  -- `/\s+/` becomes one space; the test says whether white space went before.
  unfoldable pub collapse : Bool → Text → Text
  collapse after [] = []
  collapse after (c ∷ s) =
      let spaced = collapse true s in
      let rest = collapse false s in
      if is_space c then (if after then spaced else 32 ∷ spaced) else c ∷ rest

  unfoldable pub normalize_name : Text → Text
  normalize_name value =
      trim (collapse false (map plain (to_lower (keep (λ c. not (is_mark c)) (nfd value)))))

  -- `split(' ').filter(Boolean)`, with the word that is being read.
  unfoldable pub words_from : Text → Text → List Text
  words_from word [] = if is_empty word then [] else word ∷ []
  words_from word (c ∷ s) =
      let next = words_from [] s in
      let more = words_from (word ++ c ∷ []) s in
      if c == 32 then (if is_empty word then next else word ∷ next) else more

  unfoldable pub words : Text → List Text
  words s = words_from [] s

  -- `parts[parts.length - 1]`; a name that is not empty has a word.
  abbrev pub last_word : List Text → Text
  last_word [] = []
  last_word (w ∷ []) = w
  last_word (w ∷ v ∷ ws) = last_word (v ∷ ws)

  -- `partsA.some((p) => p.length >= 2 && partsB.includes(p))`
  abbrev pub shares_word : List Text → List Text → Bool
  shares_word us vs = any (λ p. leb 2 (length p) && any (text_eq p) vs) us

  -- The two names after normalization.
  abbrev likely_same : Text → Text → Bool
  likely_same na nb =
      let last_a = last_word (words na) in
      let last_b = last_word (words nb) in
      if is_empty na || is_empty nb
      then false
      else if text_eq na nb
      then true
      else if leb 3 (length last_a) && text_eq last_a last_b
      then shares_word (words na) (words nb)
      else false

  unfoldable pub guests_likely_same : Option Text → Option Text → Bool
  guests_likely_same none b = false
  guests_likely_same (some a) none = false
  guests_likely_same (some a) (some b) =
      if is_empty a || is_empty b then false else likely_same (normalize_name a) (normalize_name b)

  any_last :
      (p : Text → Bool) (ws : List Text)
      → 1 ≤ length (last_word ws)
      → p (last_word ws) ≡ true
      → any p ws ≡ true
  any_last p [] long h = absurd (omega (arith, long))
  any_last p (w ∷ []) long h = ground (arith, h)
  any_last p (w ∷ v ∷ ws) long h = ground (arith, any_last p (v ∷ ws) long h)

  -- A last word that two names have in common is a word that they share.
  shares_last :
      (us vs : List Text)
      → 3 ≤ length (last_word us)
      → last_word us ≡ last_word vs
      → shares_word us vs ≡ true
  shares_last us vs long same =
      let size : 3 ≤ length (last_word vs) = rw (sym same) long in
      let itself : text_eq (last_word us) (last_word vs) ≡ true =
        (text_eq_iff (last_word us) (last_word vs)).1 same in
      let there : any (text_eq (last_word us)) vs ≡ true =
        any_last (text_eq (last_word us)) vs (omega (arith, size)) itself in
      any_last (λ p. leb 2 (length p) && any (text_eq p) vs) us (omega (arith, long))
        (ground (arith, long, there))

  -- Two guests whose last names agree and have three letters or more.
  abbrev pub same_last_name : Text → Text → Bool
  same_last_name a b =
      let last_a = last_word (words (normalize_name a)) in
      leb 3 (length last_a) && text_eq last_a (last_word (words (normalize_name b)))

  abbrev pub same_name : Text → Text → Bool
  same_name a b = text_eq (normalize_name a) (normalize_name b)

  abbrev pub is_blank : Text → Bool
  is_blank a = is_empty a || is_empty (normalize_name a)

  -- Two names that are not blank are taken for one guest exactly if they agree in full or in a last
  -- word of three letters or more: the further test of a word that both have refuses no pair.
  pub guests_likely_same-eq-last_name :
      (a b : Text)
      → is_blank a ≡ false
      → is_blank b ≡ false
      → guests_likely_same (some a) (some b) ≡ (same_name a b || same_last_name a b)
  unfolding guests_likely_same
  guests_likely_same-eq-last_name a b filled_a filled_b =
      let wa = words (normalize_name a) in
      let wb = words (normalize_name b) in
      elim (Bool-cases (same_last_name a b)) [
        | inl same ↦
            let shared : shares_word wa wb ≡ true =
              shares_last wa wb (ground (arith, same))
                ((text_eq_iff (last_word wa) (last_word wb)).0 (ground (arith, same))) in
            ground (arith, filled_a, filled_b, same, shared)
        | inr other ↦ ground (arith, filled_a, filled_b, other)
      ]
