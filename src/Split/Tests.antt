-- ===== src/Split/Tests.antt =====
-- Runs of the combined deposit hint, and the theorems at concrete inputs; the names are ASCII, which
-- decomposition leaves as it is.
use fonio_middleware.Base.{true, false, ◌||◌, none, ◌≡◌, some, ℕ, refl}
use fonio_middleware.Split.Amounts.{
  suggest_split_amounts-sum, split_at, Candidate, suggest_split_amounts, IsNear,
}
use fonio_middleware.Base.Text.{trim, lit, Text}
use fonio_middleware.Split.Names.{
  is_blank, words_from, collapse, guests_likely_same-eq-last_name, same_last_name, same_name, words,
  normalize_name, guests_likely_same,
}
use fonio_middleware.Base.Int.{pos}

abbrev anna : Text
anna = lit "Anna  Meier"

abbrev paul : Text
paul = lit "Paul MEIER"

strangers : guests_likely_same (λ s. s) (some anna) (some paul) ≡ true
unfolding guests_likely_same words normalize_name words_from collapse trim
strangers = refl

others : guests_likely_same (λ s. s) (some anna) (some (lit "Anna Schmidt")) ≡ false
unfolding guests_likely_same words normalize_name words_from collapse trim
others = refl

filled_anna : is_blank (λ s. s) anna ≡ false
unfolding normalize_name collapse trim
filled_anna = refl

filled_paul : is_blank (λ s. s) paul ≡ false
unfolding normalize_name collapse trim
filled_paul = refl

guests_likely_same-eq-last_name_example :
    guests_likely_same (λ s. s) (some anna) (some paul)
    ≡ (same_name (λ s. s) anna paul || same_last_name (λ s. s) anna paul)
guests_likely_same-eq-last_name_example =
    guests_likely_same-eq-last_name (λ s. s) anna paul filled_anna filled_paul

abbrev flat : ℕ → Candidate
flat total = record { total_price = some (pos total); balance_due = none }

deposits : suggest_split_amounts 50_100 (flat 80_000) (flat 120_000) ≡ some (20_000, 30_000)
unfolding suggest_split_amounts split_at
deposits = refl

suggest_split_amounts-sum_example : IsNear 50_100 (20_000, 30_000)
suggest_split_amounts-sum_example =
    suggest_split_amounts-sum 50_100 (flat 80_000) (flat 120_000) (20_000, 30_000) deposits
