-- ===== src/Payments/Filing.antt =====
-- src/automation/payment-reconciliation.service.ts: the tests of `reconcile`, and the rows that it
-- writes.
use fonio_middleware.Base.{
  [], ◌∷◌, ◌++◌, not, ◌||◌, none, false, any, ◌+◌, ◌&&◌, true, some, if◌then◌else◌, Option, Bool, ℕ,
}
use fonio_middleware.Payments.Apply.{ExternalPaymentSource, qonto, paypal, manual}
use fonio_middleware.Payments.Desk.{
  undo_incomplete, platform_payout, refund, unambiguous, received, bulk_payment, skipped,
  apply_failed, pending_review, auto_applied, PaymentError, Allocation, PaymentMatchDecision, Match,
  ExternalPaymentStatus, ExternalPayment, Best,
}
use fonio_middleware.Base.Text.{lit, includes, text_eq, to_lower, Text}
use fonio_middleware.Payments.Books.{
  alert_review, remember_booking_code, is_listing_offline, call, by_id, Books,
}

-- `looksLikeArchivedListingApiError`
unfoldable pub looks_like_archived_listing_api_error : Text → Bool
looks_like_archived_listing_api_error message =
    let m = to_lower message in
    any (includes m) (
      lit "archiv"
      ∷ lit "not bookable"
      ∷ lit "listing is hidden"
      ∷ lit "listing is inactive"
      ∷ lit "disabled listing"
      ∷ lit "inactive listing"
      ∷ lit "deaktiviert"
      ∷ lit "ausgeblendet"
      ∷ lit "lizenz"
      ∷ [])
    || (includes m (lit "licen")
        && any (includes m) (lit "fee" ∷ lit "month" ∷ lit "€" ∷ lit "eur" ∷ []))

-- `priorApplyFailed`; the message that is stored of a failed application always passes its first test.
unfoldable pub prior_apply_failed : Option PaymentError → Bool
prior_apply_failed (some (apply_failed message)) =
    not (looks_like_archived_listing_api_error (lit "Hostaway apply failed: " ++ message))
prior_apply_failed (some (undo_incomplete charges)) = false
prior_apply_failed none = false

abbrev pub is_unambiguous : PaymentMatchDecision → Bool
is_unambiguous unambiguous = true
is_unambiguous _ = false

-- `skipDecisions`
abbrev pub is_skipped : PaymentMatchDecision → Bool
is_skipped bulk_payment = true
is_skipped refund = true
is_skipped platform_payout = true
is_skipped _ = false

abbrev pub is_received : ExternalPaymentStatus → Bool
is_received received = true
is_received _ = false

-- `matchedListingOffline`
unfoldable pub matched_listing_offline : Match → Books → Bool
matched_listing_offline m b = elim m.best [
  | none ↦ false
  | some best ↦ elim (by_id best.reservation_id b) [
    | none ↦ false
    | some r ↦ is_listing_offline r.listing
  ]
]

-- `tryAutoApply`, with the candidate that it makes sure of.
unfoldable pub auto_target : Bool → Bool → ExternalPayment → Match → Bool → Option Best
auto_target allow force p m offline =
    if allow
      && (is_unambiguous m.decision && (force || (not (prior_apply_failed p.error) || offline)))
    then m.best
    else none

abbrev pub allocation_of : Best → ExternalPayment → Option ℕ → Allocation
allocation_of best p charge = record {
  reservation_id = best.reservation_id;
  amount = p.amount;
  charge = charge;
}

-- The row of a payment that was applied, to Hostaway or to the database alone.
unfoldable pub applied_row :
    ExternalPayment → Match → Best → Option ℕ → ExternalPayment → ExternalPayment
applied_row p m best charge q = record q {
  status = auto_applied;
  match_decision = some m.decision;
  match_score = some best.score;
  matched_reservation_id = some best.reservation_id;
  hostaway_charge_id = charge;
  error = none;
  allocations = q.allocations ++ allocation_of best p charge ∷ [];
}

-- The row of a payment that could not be applied.
unfoldable pub review_row : Match → Best → Text → ExternalPayment → ExternalPayment
review_row m best message q = record q {
  status = pending_review;
  match_decision = some m.decision;
  match_score = some best.score;
  matched_reservation_id = some best.reservation_id;
  error = some (apply_failed message);
}

-- The status of a payment that is not applied, and its row.
unfoldable pub filed_status : Match → ExternalPaymentStatus
filed_status m = if is_skipped m.decision then skipped else pending_review

unfoldable pub filed_row : Match → ExternalPayment → ExternalPayment
filed_row m q = record q {
  status = filed_status m;
  match_decision = some m.decision;
  match_score = elim m.best [ none ↦ none | some best ↦ some best.score ];
  matched_reservation_id =
      if is_unambiguous m.decision
      then elim m.best [ none ↦ none | some best ↦ some best.reservation_id ]
      else none;
  error = if is_skipped m.decision then none else q.error;
}

-- The messages that follow: the booking code of a portal payout, and the alert of a new payment.
unfoldable pub after_filing : ExternalPayment → Match → Books → Books
after_filing p m b =
    let coded : Books = elim m.best [
      | none ↦ b
      | some best ↦ call (remember_booking_code best.reservation_id) b
    ] in
    if is_received p.status && not (is_skipped m.decision)
    then call (alert_review p.id) coded
    else coded

-- `{ source, externalId }`
abbrev pub same_source : ExternalPaymentSource → ExternalPaymentSource → Bool
same_source qonto qonto = true
same_source paypal paypal = true
same_source manual manual = true
same_source _ _ = false

unfoldable pub same_payment : ExternalPayment → ExternalPayment → Bool
same_payment p q = same_source q.source p.source && text_eq q.external_id p.external_id

abbrev pub is_pending : ExternalPaymentStatus → Bool
is_pending pending_review = true
is_pending _ = false

abbrev pub counted : ExternalPaymentStatus → ℕ × ℕ → ℕ × ℕ
counted auto_applied (applied, review) = (applied + 1, review)
counted pending_review (applied, review) = (applied, review + 1)
counted _ counts = counts
