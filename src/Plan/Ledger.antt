-- ===== src/Plan/Ledger.antt =====
-- The ledger of a payment plan: `applyPaymentToPlan` and `reversePaymentOnPlan` of
-- src/automation/payment-plan.util.ts, and their callers in payment-plan.service.ts. Amounts are
-- whole cents; `validateInput` and the guards of the callers make sure that none is negative.
use fonio_middleware.Base.{
  false, true, ◌&&◌, [], ◌∷◌, ◌*◌, or_else, none, ltb, ◌||◌, ◌+◌, some, leb, ◌-◌, if◌then◌else◌,
  Option, List, Bool, ℕ, arith,
}
use fonio_middleware.Plan.Calendar.{midnight, Date}
use fonio_middleware.Plan.DueDate.{advance_due_date, rewind_due_date, PaymentPlanFrequency}
pub mod Bounds
pub mod Undo
use fonio_middleware.Base.Int.{pos, ◌-ℤ◌, leb_ℤ, pos_part, ℤ}

pub record PaymentPlan : Type 0 where
  pub enabled : Bool
  pub installment_amount : ℕ
  pub frequency : PaymentPlanFrequency
  pub custom_interval_days : Option ℕ
  pub next_due_amount : ℕ
  pub next_due_at : Option Date
  pub paid_toward_plan : ℕ

abbrev min : ℕ → ℕ → ℕ
min a b = if leb a b then a else b

abbrev max : ℕ → ℕ → ℕ
max a b = if leb a b then b else a

abbrev distance : ℕ → ℕ → ℕ
distance a b = (a - b) + (b - a)

-- `Math.abs(a - b) <= Math.max(1, Math.abs(b) * 0.005)`, in cents and times 200.
unfoldable pub amounts_close : ℕ → ℕ → Bool
amounts_close a b = leb (200 * distance a b) (max 20_000 b)

-- `amountsClose(amount, due) || amount + 0.5 >= due`
unfoldable pub covers_installment : ℕ → ℕ → Bool
covers_installment amount due = amounts_close amount due || leb due (amount + 50)

-- The limit that the remaining balance sets, in `applyPaymentToPlan`.
unfoldable pub limit_due : Option ℕ → ℕ → ℕ
limit_due none due = due
limit_due (some remaining) due = if leb remaining 50 then 0 else min due remaining

-- The fields that the two functions return, written into the plan as the callers do; `advanced` is
-- returned beside them.
unfoldable pub apply_payment_to_plan : PaymentPlan → ℕ → Option ℕ → Date → PaymentPlan × Bool
apply_payment_to_plan plan amount remaining today =
    let paid = plan.paid_toward_plan + amount in
    let base = or_else plan.next_due_at (midnight today) in
    let after : PaymentPlan = record plan {
      paid_toward_plan = paid;
      next_due_amount = limit_due remaining plan.installment_amount;
      next_due_at = some (advance_due_date base plan.frequency plan.custom_interval_days);
    } in
    let part : PaymentPlan = record plan {
      paid_toward_plan = paid;
      next_due_amount = limit_due remaining (
          if ltb 0 amount && ltb amount plan.next_due_amount
          then plan.next_due_amount - amount
          else plan.next_due_amount);
    } in
    if covers_installment amount plan.next_due_amount then (after, true) else (part, false)

-- `amountsClose(...) || amountsClose(...) || amount + 0.5 >= plan.installmentAmount`
unfoldable pub looks_full : PaymentPlan → ℕ → Bool
looks_full plan amount =
    amounts_close amount plan.installment_amount
    || (amounts_close amount plan.next_due_amount || leb plan.installment_amount (amount + 50))

-- The limit that the remaining balance sets, in `reversePaymentOnPlan`.
unfoldable pub limit_restored : Option ℕ → ℕ → ℕ → ℕ
limit_restored none amount due = due
limit_restored (some remaining) amount due =
    if ltb 0 remaining then min (max due amount) remaining else due

unfoldable pub reverse_payment_on_plan : PaymentPlan → ℕ → Option ℕ → PaymentPlan
reverse_payment_on_plan plan amount remaining =
    let paid = plan.paid_toward_plan - amount in
    let earlier : Option Date = elim plan.next_due_at [
      | none ↦ none
      | some due ↦ some (rewind_due_date due plan.frequency plan.custom_interval_days)
    ] in
    let rewound : PaymentPlan = record plan {
      paid_toward_plan = paid;
      next_due_amount = limit_restored remaining amount plan.installment_amount;
      next_due_at = earlier;
    } in
    let restored : PaymentPlan = record plan {
      paid_toward_plan = paid;
      next_due_amount = limit_restored remaining amount (plan.next_due_amount + amount);
    } in
    if looks_full plan amount then rewound else restored

-- A charge counts by its amount if that is above 0.
abbrev charged : List ℤ → ℕ
charged [] = 0
charged (c ∷ charges) = pos_part c + charged charges

-- `total != null ? Math.max(0, roundMoney(total - paid)) : null`
unfoldable pub remaining_balance : Option ℤ → List ℤ → Option ℕ
remaining_balance none charges = none
remaining_balance (some total) charges = some (pos_part (total -ℤ pos (charged charges)))

-- The plan of a reservation, its total price and its charges, as the query of the two callers
-- returns them. The result is the plan that is stored, `none` where the caller returns null.
unfoldable pub record_payment_applied :
    Option PaymentPlan → Option ℤ → List ℤ → Date → ℤ → Option PaymentPlan
record_payment_applied none total charges today amount = none
record_payment_applied (some plan) total charges today amount =
    let applied =
      apply_payment_to_plan plan (pos_part amount) (remaining_balance total charges) today in
    if leb_ℤ amount (pos 0) then none else if plan.enabled then some applied.0 else none

unfoldable pub record_payment_reversed :
    Option PaymentPlan → Option ℤ → List ℤ → ℤ → Option PaymentPlan
record_payment_reversed none total charges amount = none
record_payment_reversed (some plan) total charges amount =
    let reversed =
      reverse_payment_on_plan plan (pos_part amount) (remaining_balance total charges) in
    if leb_ℤ amount (pos 0) then none else some reversed
