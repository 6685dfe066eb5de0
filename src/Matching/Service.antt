-- ===== src/Matching/Service.antt =====
-- The matcher that src/automation/payment-reconciliation.service.ts calls, filled by `match` of
-- src/automation/payment-matcher.service.ts.
use fonio_middleware.Base.{subst, ◌∙◌, ap, ◌≡◌, Option, some, none}
use fonio_middleware.Matching.Evidence.{PaymentMatchCandidate, Survey}
use fonio_middleware.Matching.Decision.{match_payment, Found}
use fonio_middleware.Base.Text.{Text}
use fonio_middleware.Payments.Desk.{unambiguous, Matcher, Match, ExternalPayment, Best}
use fonio_middleware.Payments.Books.{Books}
use fonio_middleware.Payments.Program.{ok, Result}
use fonio_middleware.Base.Int.{◌<ℤ◌, pos}
use fonio_middleware.Matching.Certainty.{match_payment-IsFitting}

-- What reconciliation reads of a candidate and of a result.
abbrev as_best : Option PaymentMatchCandidate → Option Best
as_best none = none
as_best (some c) =
    some
      (record { reservation_id = c.reservation_id; hostaway_id = c.hostaway_id; score = c.score })

abbrev as_match : Found → Match
as_match f = record { decision = f.decision; best = as_best f.best }

-- A survey is read of the payment and of the database, and has the amount of the payment.
module _ (nfd : Text → Text) (survey_of : ExternalPayment → Books → Survey)
    (same_amount : (p : ExternalPayment) (b : Books) → (survey_of p b).amount ≡ p.amount) where
  pub match_payment_positive :
      (p : ExternalPayment) (b : Books) (m : Match)
      → ◌≡◌ {A = Result Text Match} (ok (as_match (match_payment nfd (survey_of p b)))) (ok m)
      → m.decision ≡ unambiguous
      → pos 0 <ℤ p.amount
  match_payment_positive p b m e certain =
      let same : as_match (match_payment nfd (survey_of p b)) ≡ m = cc in
      let decided : (match_payment nfd (survey_of p b)).decision ≡ unambiguous =
        ap (λ x. x.decision) same ∙ certain in
      let above : pos 0 <ℤ (survey_of p b).amount =
        (match_payment-IsFitting nfd (survey_of p b) decided).1 in
      subst (λ a. pos 0 <ℤ a) (same_amount p b) above

  -- The matcher of the payment service fills the interface of reconciliation.
  abbrev pub service_matcher : Matcher
  service_matcher = record {
    find_match = λ p b. ok (as_match (match_payment nfd (survey_of p b)));
    unambiguous_positive = match_payment_positive;
  }
