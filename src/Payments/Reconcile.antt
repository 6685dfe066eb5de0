-- ===== src/Payments/Reconcile.antt =====
-- src/automation/payment-reconciliation.service.ts: `ingestAndReconcile`, `reconcile` and
-- `rematchPendingReview`.
use fonio_middleware.Base.{
  false, ◌||◌, if◌then◌else◌, find, some, [], true, none, keep, ◌∷◌, map, take, List, Bool, ℕ,
}
use fonio_middleware.Payments.Program.{continue, err, ok, modify, catch, pure, Program, ◌>>=◌, ◌>>◌}
use mathlib.Core.List.{reverse}
use fonio_middleware.Payments.Apply.{ApplyParams, apply_to_reservation, Applied, External}
use fonio_middleware.Payments.Desk.{
  auto_applied, is_applied, pending_review, modify_books, payment_not_found, internal,
  update_payment, on_books, received, find_payment, ExternalPaymentStatus, DeskError, Desk, Best,
  Match, ExternalPayment, Matcher,
}
use fonio_middleware.Base.Text.{Text}
use fonio_middleware.Payments.Filing.{
  looks_like_archived_listing_api_error, filed_status, same_payment, after_filing, review_row,
  is_pending, filed_row, counted, applied_row, auto_target, matched_listing_offline,
}
use fonio_middleware.Payments.Books.{remember_booking_code, plan_applied, call}

abbrev pub auto_params : ExternalPayment → Best → ApplyParams
auto_params p best = record {
  reservation_hostaway_id = best.hostaway_id;
  amount = p.amount;
  source = p.source;
  reference = p.reference;
  description_override = none;
}

module _ (env : External) (matcher : Matcher) where
  store_applied :
      ExternalPayment → Match → Best → Applied → Program Desk DeskError ExternalPaymentStatus
  store_applied p m best applied = do
    modify (update_payment p.id (applied_row p m best applied.applied_charge))
    modify (modify_books (call (remember_booking_code best.reservation_id)))
    pure auto_applied

  store_offline : ExternalPayment → Match → Best → Program Desk DeskError ExternalPaymentStatus
  store_offline p m best = do
    modify (update_payment p.id (applied_row p m best none))
    modify (modify_books (plan_applied env.today best.reservation_id p.amount))
    pure auto_applied

  keep_in_review :
      ExternalPayment → Match → Best → Text → Program Desk DeskError ExternalPaymentStatus
  keep_in_review p m best message = do
    modify (update_payment p.id (review_row m best message))
    pure pending_review

  unfoldable pub auto_apply :
      ExternalPayment → Match → Best → Bool → Program Desk DeskError ExternalPaymentStatus
  unfolding store_applied store_offline keep_in_review
  auto_apply p m best offline =
      catch (on_books (apply_to_reservation env (auto_params p best)))
        (λ message.
          if offline || looks_like_archived_listing_api_error message
          then store_offline p m best
          else keep_in_review p m best message)
        (store_applied p m best)

  unfoldable pub file : ExternalPayment → Match → Program Desk DeskError ExternalPaymentStatus
  file p m = do
    modify (update_payment p.id (filed_row m))
    modify (modify_books (after_filing p m))
    pure (filed_status m)

  unfoldable pub settle_match :
      Bool → Bool → ExternalPayment → Match → Program Desk DeskError ExternalPaymentStatus
  settle_match allow force p m d =
      let offline = matched_listing_offline m d.books in
      elim (auto_target allow force p m offline) [
        | some best ↦ auto_apply p m best offline d
        | none ↦ file p m d
      ]

  unfoldable pub reconcile_open :
      Bool → Bool → ExternalPayment → Program Desk DeskError ExternalPaymentStatus
  reconcile_open allow force p d = elim (matcher.find_match p d.books) [
    | ok m ↦ settle_match allow force p m d
    | err message ↦ (err (internal message), d)
  ]

  unfoldable pub reconcile : Bool → Bool → ℕ → Program Desk DeskError ExternalPaymentStatus
  reconcile allow force id d = elim (find_payment id d) [
    | none ↦ (err payment_not_found, d)
    | some p ↦ if is_applied p.status then (ok p.status, d) else reconcile_open allow force p d
  ]

  -- `ingestAndReconcile`; `fresh` is the id that the database gives a new row.
  unfoldable pub ingest_and_reconcile :
      ℕ → ExternalPayment → Program Desk DeskError (ℕ × ExternalPaymentStatus)
  ingest_and_reconcile fresh p d =
      let row : ExternalPayment = record p {
        id = fresh;
        status = received;
        match_decision = none;
        match_score = none;
        matched_reservation_id = none;
        hostaway_charge_id = none;
        error = none;
        allocations = [];
      } in
      let added = record d { payments = row ∷ d.payments } in
      elim (find (same_payment p) d.payments) [
        | some q ↦ (ok (q.id, q.status), d)
        | none ↦ continue (λ s. pure (fresh, s)) (reconcile true false fresh added)
      ]

  -- The loop of `rematchPendingReview`, with its counts of applied payments and of those in review.
  unfoldable pub rematch : Bool → List ℕ → ℕ × ℕ → Program Desk DeskError (ℕ × ℕ)
  rematch force [] counts = pure counts
  rematch force (id ∷ ids) counts =
      reconcile true force id >>= λ status. rematch force ids (counted status counts)

  unfoldable pub rematch_pending_review : ℕ → Bool → Program Desk DeskError (ℕ × ℕ)
  rematch_pending_review limit force d =
      rematch force
        (take limit (reverse (map (λ p. p.id) (keep (λ p. is_pending p.status) d.payments)))) (0, 0)
        d
