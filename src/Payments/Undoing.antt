-- ===== src/Payments/Undoing.antt =====
-- Undoing an application takes the payment out of the books: `undoApplication`.
use fonio_middleware.Base.{inr, inl, [], true, refl, some, none, ◌≡◌, false, Bool, List, ℕ, arith}
use fonio_middleware.Payments.Desk.{
  is_applied, find_payment, Match, ExternalPayment, Matcher, Allocation, Desk,
}
use fonio_middleware.Payments.Apply.{External}
use fonio_middleware.Payments.Filing.{filed_status, filed_row, auto_target}
use fonio_middleware.Payments.Undo.{
  charge_targets, cancel_charges, undone_row, withdraw, undo_application,
}
use fonio_middleware.Payments.Reconcile.{settle_match, reconcile_open, reconcile, file}
use fonio_middleware.Payments.Program.{Result-cases}
use fonio_middleware.Payments.Consistency.{update_payment_found}

-- The row of the payment is not applied, and has the allocations `rows`.
abbrev pub IsOpenWith : ℕ → List Allocation → Desk → Type 0
IsOpenWith id rows d =
    (q : ExternalPayment) × (find_payment id d ≡ some q)
    × (is_applied q.status ≡ false)
    × (q.allocations ≡ rows)

no_target :
    (force offline : Bool) (p : ExternalPayment) (m : Match)
    → auto_target false force p m offline ≡ none
unfolding auto_target
no_target force offline p m = refl

module _ (env : External) (matcher : Matcher) (force : Bool) (id : ℕ) (p : ExternalPayment)
    (d : Desk) (found : find_payment id d ≡ some p) (open_row : is_applied p.status ≡ false) where
  filed_row-open : (m : Match) → is_applied (filed_row m p).status ≡ false
  unfolding filed_row filed_status
  filed_row-open m = ground arith

  file-IsOpenWith : (m : Match) → IsOpenWith id p.allocations (file env matcher p m d).1
  unfolding file filed_row
  file-IsOpenWith m = (
    filed_row m p,
    update_payment_found id p (filed_row m) d d found refl refl,
    filed_row-open m,
    refl,
  )

  -- Reconciliation that must not apply leaves the allocations of an open payment as they are.
  reconcile-IsOpenWith : IsOpenWith id p.allocations (reconcile env matcher false force id d).1
  unfolding reconcile reconcile_open settle_match
  reconcile-IsOpenWith = elim (Result-cases (matcher.find_match p d.books)) [
    | inl (m, e) ↦
        rw (found, open_row, e, no_target force _ p m, reconcile, reconcile_open, settle_match)
          (file-IsOpenWith m)
    | inr (message, e) ↦
        rw (found, open_row, e, reconcile, reconcile_open) (p, found, open_row, refl)
  ]

-- After an application is undone the payment is not applied and has no allocation, whatever Hostaway
-- answers to the cancelling, whatever the new match is, and also if matching throws.
pub undo_application-IsOpenWith :
    (env : External) (matcher : Matcher) (id : ℕ) (p : ExternalPayment) (d : Desk)
    → find_payment id d ≡ some p
    → is_applied p.status ≡ true
    → IsOpenWith id [] (undo_application env matcher id d).1
unfolding undo_application withdraw undone_row
undo_application-IsOpenWith env matcher id p d found applied =
    let (failed_charges, after) = cancel_charges env (charge_targets p d.books) d.books in
    let row : ExternalPayment = undone_row failed_charges p in
    let stored : find_payment id (withdraw env p d) ≡ some row =
      update_payment_found id p (undone_row failed_charges) d d found refl refl in
    rw (found, applied, undo_application)
      (reconcile-IsOpenWith env matcher false id row (withdraw env p d) stored refl)
