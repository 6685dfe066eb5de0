-- ===== src/Matching/Tests.antt =====
-- Runs of the matching, and the theorems at concrete inputs.
use fonio_middleware.Base.{refl, ◌<◌, [], ◌≡◌, ◌∷◌, All, false, true, some, none}
use fonio_middleware.Matching.Evidence.{
  split_comma, patterns_of, evidence, stands_before, fits_source, is_soft_guess, is_external_ref,
  is_numbered, is_linked, is_paid_up, ranked, stays_in, detect_portal_settlement_payment,
  detect_platform_payout, Survey, PaymentMatchCandidate,
}
use fonio_middleware.Base.Text.{join_space, trim, includes, lit, Text}
use fonio_middleware.Matching.Decision.{
  is_numbered_twice, can_auto_apply, says, has_portal_settlement, has_strong_amount,
  has_strong_guest, has_plan_match, is_close, judge, judge_ranked, match_payment,
}
use fonio_middleware.Base.Int.{◌≤ℤ◌, ◌<ℤ◌, pos}
use fonio_middleware.Matching.Certainty.{
  match_payment-IsFitting, IsFitting, IsEvident, match_payment_leads, IsBehind,
}
use fonio_middleware.Matching.Hint.{hint_of, first_with, first_hint, detect_combined_deposit_hint}
use fonio_middleware.Split.Names.{words_from, words, collapse, normalize_name, guests_likely_same}
use fonio_middleware.Base.Sort.{sort_with}
use fonio_middleware.Payments.Desk.{unambiguous}

abbrev as_is : Text → Text
as_is t = t

abbrev guest_stay : PaymentMatchCandidate
guest_stay = record {
  reservation_id = 1;
  hostaway_id = 5000001;
  guest_name = some (lit "Eva Berg");
  listing_name = lit "Loft";
  arrival_date = 20000;
  departure_date = 20007;
  portal_collected = false;
  total_price = some (pos 120000);
  balance_due = some (pos 30000);
  score = 70;
  reasons = lit "Guest name matches" ∷ lit "Amount equals outstanding balance" ∷ [];
}

abbrev other_stay : PaymentMatchCandidate
other_stay = record guest_stay {
  reservation_id = 2;
  hostaway_id = 5000002;
  guest_name = some (lit "Ida Holm");
  score = 40;
  reasons = lit "Amount equals outstanding balance" ∷ [];
}

-- A stay that a portal collects for, with a higher score.
abbrev portal_stay : PaymentMatchCandidate
portal_stay = record guest_stay { hostaway_id = 5000003; portal_collected = true; score = 90 }

abbrev transfer : Survey
transfer = record {
  payer_name = some (lit "Eva Berg");
  reference = some (lit "Rest");
  amount = pos 30000;
  payout_senders = none;
  settlement_senders = none;
  ids_in_reference = [];
  scored = other_stay ∷ portal_stay ∷ guest_stay ∷ [];
}

takes_guest_stay :
    ((match_payment as_is transfer).best ≡ some guest_stay)
    × ((match_payment as_is transfer).decision ≡ unambiguous)
unfolding match_payment detect_platform_payout detect_portal_settlement_payment ranked stays_in
    is_paid_up is_linked is_numbered is_external_ref is_soft_guess fits_source stands_before
    evidence patterns_of split_comma judge_ranked judge is_close has_plan_match has_strong_guest
    has_strong_amount has_portal_settlement says can_auto_apply is_numbered_twice
    detect_combined_deposit_hint first_hint first_with hint_of guests_likely_same normalize_name
    collapse words words_from sort_with includes trim join_space
takes_guest_stay = (refl, refl)

match_payment-IsFitting_example :
    (detect_platform_payout transfer ≡ none)
    × (pos 0 <ℤ pos 30000)
    × (pos 30000 ≤ℤ pos 5000000)
    × (best : PaymentMatchCandidate) × ((match_payment as_is transfer).best ≡ some best)
    × (0 < best.score)
    × IsEvident transfer best
    × IsFitting transfer best
match_payment-IsFitting_example = match_payment-IsFitting as_is transfer takes_guest_stay.1

match_payment_leads_example :
    All
      (λ c. stays_in transfer c ≡ true → IsBehind transfer guest_stay c)
      (other_stay ∷ portal_stay ∷ guest_stay ∷ [])
match_payment_leads_example =
    match_payment_leads as_is transfer guest_stay takes_guest_stay.1 takes_guest_stay.0
