-- ===== src/Payments/Desk.antt =====
-- The rows of `ExternalPayment`, the match of a payment with a reservation, and the state of
-- src/automation/payment-reconciliation.service.ts: those rows beside the books.
use fonio_middleware.Base.{false, ◌≡◌, ◌==◌, true, find, Option, List, Bool, ℕ}
use fonio_middleware.Payments.Books.{Books}
use fonio_middleware.Payments.Apply.{ExternalPaymentSource}
use fonio_middleware.Payments.Program.{ok, Result, Program}
use fonio_middleware.Base.Text.{Text}
use fonio_middleware.Payments.Table.{update_where}
use fonio_middleware.Base.Int.{◌<ℤ◌, pos, ℤ}

pub data ExternalPaymentStatus : Type 0 where
  received pending_review auto_applied manually_applied skipped failed : ExternalPaymentStatus

pub data PaymentMatchDecision : Type 0 where
  unambiguous ambiguous no_match bulk_payment refund partial_unclear platform_payout :
      PaymentMatchDecision

-- The message of a failed application, and the charges that an undoing could not cancel.
pub data PaymentError : Type 0 where
  apply_failed : Text → PaymentError
  undo_incomplete : List ℕ → PaymentError

-- `PaymentAllocation`
pub record Allocation : Type 0 where
  pub reservation_id : ℕ
  pub amount : ℤ
  pub charge : Option ℕ

pub record ExternalPayment : Type 0 where
  pub id : ℕ
  pub source : ExternalPaymentSource
  pub external_id : Text
  pub amount : ℤ
  pub reference : Option Text
  pub status : ExternalPaymentStatus
  pub match_decision : Option PaymentMatchDecision
  pub match_score : Option ℕ
  pub matched_reservation_id : Option ℕ
  pub hostaway_charge_id : Option ℕ
  pub error : Option PaymentError
  pub allocations : List Allocation

-- What reconciliation reads of a candidate and of the result of a match.
pub record Best : Type 0 where
  pub reservation_id : ℕ
  pub hostaway_id : ℕ
  pub score : ℕ

pub record Match : Type 0 where
  pub decision : PaymentMatchDecision
  pub best : Option Best

-- What reconciliation relies on of the matcher: it finds a reservation for certain only for a payment
-- of money that came in.
pub record Matcher : Type 0 where
  pub find_match : ExternalPayment → Books → Result Text Match
  pub unambiguous_positive :
      (p : ExternalPayment) (b : Books) (m : Match)
      → find_match p b ≡ ok m
      → m.decision ≡ unambiguous
      → pos 0 <ℤ p.amount

pub record Desk : Type 0 where
  pub payments : List ExternalPayment
  pub books : Books

-- The exceptions of the service; `internal` is an error of something that it calls.
pub data DeskError : Type 0 where
  payment_not_found not_in_review no_reservation_selected reservation_not_found : DeskError
  line_without_reservation line_too_small reservation_twice split_not_equal : DeskError
  inquiry_booking not_applied : DeskError
  internal : Text → DeskError

abbrev pub has_id : ℕ → ExternalPayment → Bool
has_id id p = p.id == id

abbrev pub find_payment : ℕ → Desk → Option ExternalPayment
find_payment id d = find (has_id id) d.payments

abbrev pub update_payment : ℕ → (ExternalPayment → ExternalPayment) → Desk → Desk
update_payment id f d = record d { payments = update_where (has_id id) f d.payments }

-- A program over the books as one over the desk, and a change of the books.
abbrev pub lift : {E A : Type 0} → Desk → Result E A × Books → Result E A × Desk
lift d (r, b) = (r, record d { books = b })

abbrev pub on_books : {E A : Type 0} → Program Books E A → Program Desk E A
on_books m d = lift d (m d.books)

abbrev pub modify_books : (Books → Books) → Desk → Desk
modify_books f d = record d { books = f d.books }

abbrev pub is_applied : ExternalPaymentStatus → Bool
is_applied auto_applied = true
is_applied manually_applied = true
is_applied _ = false
