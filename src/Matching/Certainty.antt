-- ===== src/Matching/Certainty.antt =====
-- What a certain match says of the payment and of the reservation.
use fonio_middleware.Base.{
  refl, sym, All-mono, subst, [], ◌∷◌, ◌<◌, ◌+◌, All, inl, inr, Option-cases, arith, ◌≤◌, ◌≡◌,
  Option, ◌⊎◌, List, false, true, some, none,
}
use fonio_middleware.Matching.Evidence.{
  stands_before, detect_platform_payout, ranked, is_paid_up, detect_portal_settlement_payment,
  is_linked, fits_source, stays_in, Survey, PaymentMatchCandidate,
}
use fonio_middleware.Base.Text.{Text}
use fonio_middleware.Matching.Decision.{
  judge_ranked, has_strong_amount, has_strong_guest, is_close, has_portal_settlement,
  has_plan_match, match_payment, judge, can_auto_apply,
}
use fonio_middleware.Payments.Desk.{unambiguous}
use fonio_middleware.Base.Int.{◌≤ℤ◌, ◌<ℤ◌, pos}
use fonio_middleware.Base.Sort.{IsFalling}
use fonio_middleware.Matching.Ranking.{ranked-All, is_close_lead, ranked-stays_in, ranked-IsFalling}

-- The link by a number or a code, or that by the installment that the guest owes next.
abbrev pub IsStrong : Survey → PaymentMatchCandidate → Type 0
IsStrong s best = (is_linked s best ≡ true) ⊎ (has_plan_match best ≡ true)

-- What speaks for a candidate that is booked without a person.
abbrev pub IsEvident : Survey → PaymentMatchCandidate → Type 0
IsEvident s best =
    IsStrong s best
    ⊎ ((85 ≤ best.score)
        ⊎ ((55 ≤ best.score)
            × ((has_portal_settlement best ≡ true)
                ⊎ ((has_strong_guest best ≡ true) × (has_strong_amount best ≡ true)))))

can_auto_apply-IsEvident :
    (s : Survey) (best : PaymentMatchCandidate) (others : List PaymentMatchCandidate)
    → can_auto_apply best others (is_linked s best) (has_plan_match best) ≡ true
    → IsEvident s best
unfolding can_auto_apply
can_auto_apply-IsEvident s best others h = ground (arith, h)

-- A candidate that is not linked fits the payment, and is not paid.
abbrev pub IsFitting : Survey → PaymentMatchCandidate → Type 0
IsFitting s best =
    (is_linked s best ≡ true)
    ⊎ ((best.portal_collected ≡ detect_portal_settlement_payment s) × (is_paid_up best ≡ false))

stays_in-IsFitting : (s : Survey) (c : PaymentMatchCandidate) → stays_in s c ≡ true → IsFitting s c
unfolding stays_in fits_source
stays_in-IsFitting s c h = ground (arith, h)

-- What a judgement over a ranking says if it is certain.
abbrev IsJudged :
    Survey
    → PaymentMatchCandidate
    → List PaymentMatchCandidate
    → Option PaymentMatchCandidate
    → Type 0
IsJudged s best others chosen =
    (chosen ≡ some best) × (IsStrong s best ⊎ (is_close best others ≡ false)) × IsEvident s best

stays_in_positive : (s : Survey) (c : PaymentMatchCandidate) → stays_in s c ≡ true → 0 < c.score
unfolding stays_in
stays_in_positive s c h = ground (arith, h)

-- The candidate is the best itself, far behind it, or behind a best that is strong.
abbrev pub IsBehind : Survey → PaymentMatchCandidate → PaymentMatchCandidate → Type 0
IsBehind s best c =
    (c ≡ best) ⊎ ((c.score + 10 ≤ best.score) ⊎ (IsStrong s best × (c.score ≤ best.score)))

others-IsBehind :
    (s : Survey) (best : PaymentMatchCandidate) (others : List PaymentMatchCandidate)
    → IsFalling (stands_before s) (λ c. c.score) (best ∷ others)
    → IsStrong s best ⊎ (is_close best others ≡ false)
    → All (IsBehind s best) others
others-IsBehind s best others falls (inl strong) =
    All-mono (λ c under. inr (inr (strong, under))) others falls.0
others-IsBehind s best others falls (inr apart) =
    All-mono (λ c far. inr (inl far)) others (is_close_lead s best others falls apart)

module _ (nfd : Text → Text) where
  judge-IsJudged :
      (s : Survey) (best : PaymentMatchCandidate) (others : List PaymentMatchCandidate)
      → (judge nfd s best others).decision ≡ unambiguous
      → IsJudged s best others (judge nfd s best others).best
  unfolding judge
  judge-IsJudged s best others h = ground (arith, h, can_auto_apply-IsEvident s best others)

  -- A certain match is a judgement over the ranking, of an amount in range.
  match_payment-eq-judge_ranked :
      (s : Survey)
      → (match_payment nfd s).decision ≡ unambiguous
      → (detect_platform_payout s ≡ none)
        × (pos 0 <ℤ s.amount)
        × (s.amount ≤ℤ pos 5000000)
        × (match_payment nfd s ≡ judge_ranked nfd s (ranked s))
  unfolding match_payment
  match_payment-eq-judge_ranked s h = elim (Option-cases (detect_platform_payout s)) [
    | inr (payer, e) ↦ absurd (ground (arith, e))
    | inl e ↦ (e, ground (arith, e), ground (arith, e), ground (arith, e))
  ]

  judge_ranked-IsJudged :
      (s : Survey) (r : List PaymentMatchCandidate)
      → ranked s ≡ r
      → (judge_ranked nfd s r).decision ≡ unambiguous
      → (best : PaymentMatchCandidate) × (others : List PaymentMatchCandidate) × (ranked s
          ≡ best ∷ others)
        × IsJudged s best others (judge_ranked nfd s r).best
  unfolding judge_ranked
  judge_ranked-IsJudged s [] e h = absurd (ground arith)
  judge_ranked-IsJudged s (best ∷ others) e h = (best, others, e, judge-IsJudged s best others h)

  match_payment-IsJudged :
      (s : Survey)
      → (match_payment nfd s).decision ≡ unambiguous
      → (best : PaymentMatchCandidate) × (others : List PaymentMatchCandidate) × (ranked s
          ≡ best ∷ others)
        × IsJudged s best others (match_payment nfd s).best
  match_payment-IsJudged s h =
      let (none_pays, above, below, same) = match_payment-eq-judge_ranked s h in
      let certain : (judge_ranked nfd s (ranked s)).decision ≡ unambiguous =
        subst (λ f. f.decision ≡ unambiguous) same h in
      let (best, others, e, judged) = judge_ranked-IsJudged s (ranked s) refl certain in
      (best, others, e, subst (λ f. IsJudged s best others f.best) (sym same) judged)

  -- A match is certain only for money that came in, of 50 000 euros at most and not from a platform
  -- that pays out. The reservation then has a score above 0, and it is linked by its number or code
  -- or by the guest and the installment due next, or has 85 points, or has 55 points with a portal's
  -- settlement or a guest and an amount that fit. It is either linked by its number or code, or
  -- not paid up and collected by a portal exactly if the payment is a portal's.
  pub match_payment-IsFitting :
      (s : Survey)
      → (match_payment nfd s).decision ≡ unambiguous
      → (detect_platform_payout s ≡ none)
        × (pos 0 <ℤ s.amount)
        × (s.amount ≤ℤ pos 5000000)
        × (best : PaymentMatchCandidate) × ((match_payment nfd s).best ≡ some best)
        × (0 < best.score)
        × IsEvident s best
        × IsFitting s best
  match_payment-IsFitting s h =
      let (none_pays, above, below, same) = match_payment-eq-judge_ranked s h in
      let (best, others, e, (chosen, lead, evident)) = match_payment-IsJudged s h in
      let stays : stays_in s best ≡ true =
        (subst (All (λ c. stays_in s c ≡ true)) e (ranked-stays_in s)).0 in
      (
        none_pays,
        above,
        below,
        best,
        chosen,
        stays_in_positive s best stays,
        evident,
        stays_in-IsFitting s best stays,
      )

  -- A certain match is the best one: any other reservation that passes the filter is ten points
  -- behind, or else the match is linked by its number, its code or the installment that the guest owes
  -- next, and no other has a higher score.
  pub match_payment_leads :
      (s : Survey) (best : PaymentMatchCandidate)
      → (match_payment nfd s).decision ≡ unambiguous
      → (match_payment nfd s).best ≡ some best
      → All (λ c. stays_in s c ≡ true → IsBehind s best c) s.scored
  match_payment_leads s best h chosen =
      let (first, others, e, (was_chosen, lead, evident)) = match_payment-IsJudged s h in
      let same : first ≡ best = ground (arith, chosen, was_chosen) in
      let falls : IsFalling (stands_before s) (λ c. c.score) (first ∷ others) =
        subst (IsFalling (stands_before s) (λ c. c.score)) e (ranked-IsFalling s) in
      let behind : All (IsBehind s first) (first ∷ others) =
        (inl refl, others-IsBehind s first others falls lead) in
      subst (λ b. All (λ c. stays_in s c ≡ true → IsBehind s b c) s.scored) same
        (ranked-All s (IsBehind s first) (subst (All (IsBehind s first)) (sym e) behind))
