-- ===== src/Matching/Ranking.antt =====
-- The order of the candidates: the filter and the sorting of `match`.
use fonio_middleware.Base.{
  [], All-mono, All-keep, ◌+◌, keep-All, keep, arith, ◌≤◌, ◌∷◌, ◌≡◌, List, All, false, true,
}
use fonio_middleware.Matching.Evidence.{
  stays_in, Survey, stands_before, ranked, PaymentMatchCandidate,
}
use fonio_middleware.Matching.Decision.{is_close}
use fonio_middleware.Base.Sort.{sort_with-All, All-sort_with, sort_with-IsFalling, IsFalling}

stands_before_yes :
    (s : Survey) (a b : PaymentMatchCandidate) → stands_before s a b ≡ true → b.score ≤ a.score
unfolding stands_before
stands_before_yes s a b h = ground (arith, h)

stands_before_no :
    (s : Survey) (a b : PaymentMatchCandidate) → stands_before s a b ≡ false → a.score ≤ b.score
unfolding stands_before
stands_before_no s a b h = ground (arith, h)

-- The scores fall along the ranking.
pub ranked-IsFalling : (s : Survey) → IsFalling (stands_before s) (λ c. c.score) (ranked s)
unfolding ranked
ranked-IsFalling s =
    sort_with-IsFalling (stands_before s) (λ c. c.score) (stands_before_yes s) (stands_before_no s)
      (keep (stays_in s) s.scored)

-- Every candidate of the ranking has passed the filter.
pub ranked-stays_in : (s : Survey) → All (λ c. stays_in s c ≡ true) (ranked s)
unfolding ranked
ranked-stays_in s =
    All-sort_with (stands_before s) (λ c. stays_in s c ≡ true) (keep (stays_in s) s.scored)
      (All-keep (stays_in s) s.scored)

-- What holds of the ranking holds of every reservation that passes the filter.
pub ranked-All :
    (s : Survey) (P : PaymentMatchCandidate → Type 0)
    → All P (ranked s)
    → All (λ c. stays_in s c ≡ true → P c) s.scored
unfolding ranked
ranked-All s P h =
    keep-All P (stays_in s) s.scored
      (sort_with-All (stands_before s) P (keep (stays_in s) s.scored) h)

-- The best leads over all others by ten points.
pub is_close_lead :
    (s : Survey) (best : PaymentMatchCandidate) (others : List PaymentMatchCandidate)
    → IsFalling (stands_before s) (λ c. c.score) (best ∷ others)
    → is_close best others ≡ false
    → All (λ c. c.score + 10 ≤ best.score) others
unfolding is_close
is_close_lead s best [] falls h = tt
is_close_lead s best (second ∷ others) falls h =
    let lead : second.score + 10 ≤ best.score = ground (arith, h) in
    (lead, All-mono (λ c under. omega (arith, lead, under)) others falls.1.0)
