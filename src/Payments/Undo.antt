-- ===== src/Payments/Undo.antt =====
-- src/automation/payment-reconciliation.service.ts: `undoApplication` and
-- `undoAutoAppliedForReservation`.
use fonio_middleware.Base.{
  Option, keep, if◌then◌else◌, any, ◌||◌, map, ◌==◌, take, some, false, [], ◌∷◌, ◌&&◌, true, none,
  Bool, List, ℕ,
}
use fonio_middleware.Payments.Program.{err, ok, Program}
use fonio_middleware.Payments.Apply.{cancel_guest_charge, External}
use fonio_middleware.Payments.Desk.{
  PaymentError, not_applied, is_applied, payment_not_found, undo_incomplete, find_payment,
  auto_applied, DeskError, update_payment, pending_review, Matcher, Desk, Allocation,
  ExternalPaymentStatus, ExternalPayment,
}
use fonio_middleware.Payments.Books.{without_charge, by_id, plan_reversed, by_hostaway_id, Books}
use fonio_middleware.Payments.Reconcile.{reconcile}

-- `chargeTargets`: the Hostaway id of a reservation and a charge of it.
unfoldable pub allocation_targets : List Allocation → Books → List (ℕ × ℕ)
allocation_targets [] b = []
allocation_targets (a ∷ rest) b =
    let others = allocation_targets rest b in
    elim a.charge [
      | none ↦ others
      | some id ↦ elim (by_id a.reservation_id b) [
        | none ↦ others
        | some r ↦ (r.hostaway_id, id) ∷ others
      ]
    ]

unfoldable pub charge_targets : ExternalPayment → Books → List (ℕ × ℕ)
charge_targets p b = elim p.allocations [
  | a ∷ rest ↦ allocation_targets p.allocations b
  | [] ↦ elim p.hostaway_charge_id [
    | none ↦ []
    | some id ↦ elim p.matched_reservation_id [
      | none ↦ []
      | some matched ↦ elim (by_id matched b) [ none ↦ [] | some r ↦ (r.hostaway_id, id) ∷ [] ]
    ]
  ]
]

unfoldable pub plans_reversed : List Allocation → Books → Books
plans_reversed [] b = b
plans_reversed (a ∷ rest) b = plans_reversed rest (plan_reversed a.reservation_id a.amount b)

-- The installment plans go back after the charges.
unfoldable pub reverse_plans : ExternalPayment → Books → Books
reverse_plans p b = elim p.allocations [
  | a ∷ rest ↦ plans_reversed p.allocations b
  | [] ↦ elim p.matched_reservation_id [
    | none ↦ b
    | some matched ↦ plan_reversed matched p.amount b
  ]
]

incomplete : List ℕ → Option PaymentError
incomplete [] = none
incomplete (id ∷ ids) = some (undo_incomplete (id ∷ ids))

-- The row in the review queue; `failed` are the charges that could not be cancelled.
unfoldable pub undone_row : List ℕ → ExternalPayment → ExternalPayment
unfolding incomplete
undone_row failed_charges q = record q {
  status = pending_review;
  matched_reservation_id = none;
  hostaway_charge_id = none;
  match_decision = none;
  match_score = none;
  error = incomplete failed_charges;
  allocations = [];
}

abbrev is_auto_applied : ExternalPaymentStatus → Bool
is_auto_applied auto_applied = true
is_auto_applied _ = false

module _ (env : External) where
  -- The loop over the charges, which counts those that Hostaway does not cancel; all rows are deleted.
  unfoldable pub cancel_charges : List (ℕ × ℕ) → Books → List ℕ × Books
  cancel_charges [] b = ([], b)
  cancel_charges ((hostaway_id, id) ∷ rest) b =
      let (answer, asked) = cancel_guest_charge env hostaway_id id b in
      let (failed_charges, after) =
        cancel_charges rest (record asked { notified = without_charge id asked.notified }) in
      (elim answer [ ok done ↦ failed_charges | err e ↦ id ∷ failed_charges ], after)

  -- The desk of `undoApplication` before the last reconciliation.
  unfoldable pub withdraw : ExternalPayment → Desk → Desk
  withdraw p d =
      let (failed_charges, after) = cancel_charges (charge_targets p d.books) d.books in
      update_payment p.id (undone_row failed_charges) (record d { books = reverse_plans p after })

  module _ (matcher : Matcher) where
    unfoldable pub undo_application : ℕ → Program Desk DeskError ExternalPaymentStatus
    undo_application id d = elim (find_payment id d) [
      | none ↦ (err payment_not_found, d)
      | some p ↦
          if is_applied p.status
          then reconcile env matcher false false id (withdraw p d)
          else (err not_applied, d)
    ]

    -- The payments come in the order of the table here. The loop of `undoAutoAppliedForReservation`: an error leaves a payment out.
    unfoldable pub undo_each : List ℕ → Desk → List ℕ × Desk
    undo_each [] d = ([], d)
    undo_each (id ∷ ids) d =
        let (answer, after) = undo_application id d in
        let (undone, last) = undo_each ids after in
        (elim answer [ ok status ↦ id ∷ undone | err e ↦ undone ], last)

    -- An applied payment that is matched with the reservation or has an allocation to it.
    abbrev is_for : ℕ → ExternalPayment → Bool
    is_for reservation_id p =
        is_auto_applied p.status
        && (elim p.matched_reservation_id [ none ↦ false | some m ↦ m == reservation_id ]
            || any (λ a. a.reservation_id == reservation_id) p.allocations)

    unfoldable pub undo_auto_applied_for_reservation : ℕ → Desk → List ℕ × Desk
    undo_auto_applied_for_reservation hostaway_id d = elim (by_hostaway_id hostaway_id d.books) [
      | none ↦ ([], d)
      | some r ↦ undo_each (take 50 (map (λ p. p.id) (keep (is_for r.id) d.payments))) d
    ]
