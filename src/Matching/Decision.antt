-- ===== src/Matching/Decision.antt =====
-- The decision over a payment: `match` of src/automation/payment-matcher.service.ts, with
-- `hasStrongInstallmentPlanMatch` and `canAutoApply`.
use fonio_middleware.Base.{
  ◌+◌, not, take, ltb, leb, is_some, ◌∷◌, ◌||◌, ◌&&◌, if◌then◌else◌, [], Option, String, List, Bool,
  false, true, some, none,
}
use fonio_middleware.Matching.Evidence.{
  ranked, detect_platform_payout, is_numbered, evidence, is_linked, Survey, PaymentMatchCandidate,
}
use fonio_middleware.Payments.Desk.{
  no_match, bulk_payment, refund, partial_unclear, unambiguous, ambiguous, platform_payout,
  PaymentMatchDecision,
}
use fonio_middleware.Base.Text.{lit, includes, Text}
use fonio_middleware.Matching.Hint.{detect_combined_deposit_hint}
use fonio_middleware.Base.Int.{ltb_ℤ, pos, leb_ℤ, pos_part}

-- `PaymentMatchResult`, less its text.
pub record Found : Type 0 where
  pub decision : PaymentMatchDecision
  pub best : Option PaymentMatchCandidate
  pub candidates : List PaymentMatchCandidate

abbrev pub without_best : PaymentMatchDecision → Found
without_best d = record { decision = d; best = none; candidates = [] }

unfoldable pub says : PaymentMatchCandidate → String → Bool
says c words = includes (evidence c) (lit words)

unfoldable pub has_strong_guest : PaymentMatchCandidate → Bool
has_strong_guest c = says c "guest name matches" || says c "guest email matches"

-- `hasStrongInstallmentPlanMatch`
unfoldable pub has_plan_match : PaymentMatchCandidate → Bool
has_plan_match c = has_strong_guest c && says c "equals next installment due"

unfoldable pub has_strong_amount : PaymentMatchCandidate → Bool
has_strong_amount c =
    says c "equals outstanding balance"
    || says c "equals reservation total"
    || says c "equals next installment due"
    || says c "deposit/installment"
    || says c "appears in reservation notes"
    || says c "payment amount aligns"
    || says c "net portal settlement"

unfoldable pub has_portal_settlement : PaymentMatchCandidate → Bool
has_portal_settlement c = says c "portal payout aligns" && says c "net portal settlement"

-- The lead of the best over the second is less than `PAYMENT_AMBIGUITY_SCORE_GAP`.
unfoldable pub is_close : PaymentMatchCandidate → List PaymentMatchCandidate → Bool
is_close best [] = false
is_close best (second ∷ others) = ltb best.score (second.score + 10)

unfoldable pub can_auto_apply :
    PaymentMatchCandidate → List PaymentMatchCandidate → Bool → Bool → Bool
can_auto_apply best others strong_link strong_plan =
    if strong_link
    then true
    else if strong_plan
    then true
    else if leb 85 best.score
    then true
    else if not (is_close best others) && has_portal_settlement best && leb 55 best.score
    then true
    else not (is_close best others)
      && has_strong_guest best
      && has_strong_amount best
      && leb 55 best.score

-- The best and the second stand in the payment by their numbers.
unfoldable pub is_numbered_twice :
    Survey → PaymentMatchCandidate → List PaymentMatchCandidate → Bool
is_numbered_twice s best [] = false
is_numbered_twice s best (second ∷ others) = is_numbered s best && is_numbered s second

module _ (nfd : Text → Text) where
  unfoldable pub judge : Survey → PaymentMatchCandidate → List PaymentMatchCandidate → Found
  judge s best others =
      let strong_link = is_linked s best in
      let strong_plan = has_plan_match best in
      let shown = take 5 (best ∷ others) in
      let hint = detect_combined_deposit_hint nfd (pos_part s.amount) shown in
      let unsure : Found = record { decision = ambiguous; best = some best; candidates = shown } in
      if is_close best others && not strong_link && not strong_plan
      then unsure
      else if is_numbered_twice s best others
      then unsure
      else if is_some hint && not strong_link && not strong_plan
      then unsure
      else if can_auto_apply best others strong_link strong_plan
      then record { decision = unambiguous; best = some best; candidates = best ∷ [] }
      else if leb best.score 10 && not strong_link && not strong_plan
      then without_best partial_unclear
      else record { decision = partial_unclear; best = some best; candidates = shown }

  unfoldable pub judge_ranked : Survey → List PaymentMatchCandidate → Found
  judge_ranked s [] = without_best no_match
  judge_ranked s (best ∷ others) = judge s best others

  unfoldable pub match_payment : Survey → Found
  match_payment s =
      if is_some (detect_platform_payout s)
      then without_best platform_payout
      else if leb_ℤ s.amount (pos 0)
      then without_best refund
      else if ltb_ℤ (pos 5000000) s.amount
      then without_best bulk_payment
      else judge_ranked s (ranked s)
