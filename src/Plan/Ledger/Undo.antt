-- ===== src/Plan/Ledger/Undo.antt =====
-- Undoing a payment: `reversePaymentOnPlan` against `applyPaymentToPlan`.
use fonio_middleware.Base.{
  sym, ◌∙◌, leb, ◌||◌, ap, refl, ◌-◌, ◌&&◌, ltb, false, ◌<◌, true, none, ◌+◌, some, ◌≤◌, ◌≡◌,
  Option, ℕ, arith,
}
use fonio_middleware.Plan.Ledger.{
  looks_full, limit_restored, amounts_close, reverse_payment_on_plan, covers_installment, limit_due,
  apply_payment_to_plan, PaymentPlan,
}
use fonio_middleware.Plan.Calendar.{midnight, IsDate, Date}
use fonio_middleware.Plan.DueDate.{
  rewind_due_date-advance_due_date, advance_due_date, rewind_due_date, monthly,
}

-- The plan after a payment that does not cover what is due.
abbrev after_part : PaymentPlan → ℕ → PaymentPlan
after_part plan amount = record plan {
  paid_toward_plan = plan.paid_toward_plan + amount;
  next_due_amount = plan.next_due_amount - amount;
}

apply_part :
    (plan : PaymentPlan) (amount : ℕ) (today : Date)
    → 0 < amount
    → covers_installment amount plan.next_due_amount ≡ false
    → (apply_payment_to_plan plan amount none today).0 ≡ after_part plan amount
unfolding apply_payment_to_plan limit_due covers_installment
apply_part plan amount today some_paid part =
    let less : (ltb 0 amount && ltb amount plan.next_due_amount) ≡ true =
      ground (arith, some_paid, part) in
    rw (part, less) refl

less_of_part : (amount due : ℕ) → covers_installment amount due ≡ false → amount < due
unfolding covers_installment
less_of_part amount due part = ground (arith, part)

part_restored :
    (plan : PaymentPlan) (amount : ℕ)
    → amount < plan.next_due_amount
    → looks_full (after_part plan amount) amount ≡ false
    → reverse_payment_on_plan (after_part plan amount) amount none ≡ plan
unfolding reverse_payment_on_plan limit_restored
part_restored plan amount less far =
    let paid : plan.paid_toward_plan + amount - amount ≡ plan.paid_toward_plan = omega arith in
    let owed : plan.next_due_amount - amount + amount ≡ plan.next_due_amount =
      omega (arith, less) in
    rw (far, paid, owed) refl

half_looks_full :
    (plan : PaymentPlan) (amount : ℕ)
    → plan.next_due_amount ≡ amount + amount
    → looks_full (after_part plan amount) amount ≡ true
unfolding looks_full amounts_close
half_looks_full plan amount half = ground (arith, half)

rewound_date :
    (plan : PaymentPlan) (amount : ℕ) (due : Date)
    → plan.next_due_at ≡ some due
    → looks_full plan amount ≡ true
    → (reverse_payment_on_plan plan amount none).next_due_at
      ≡ some (rewind_due_date due plan.frequency plan.custom_interval_days)
unfolding reverse_payment_on_plan
rewound_date plan amount due at full = rw (full, at) refl

midnight_same : (d : Date) → d.clock ≡ 0 → midnight d ≡ d
midnight_same d h = ground arith

-- The plan after a payment that covers what is due.
abbrev after_full : PaymentPlan → ℕ → Date → PaymentPlan
after_full plan amount due = record plan {
  paid_toward_plan = plan.paid_toward_plan + amount;
  next_due_amount = plan.installment_amount;
  next_due_at = some (advance_due_date due plan.frequency plan.custom_interval_days);
}

apply_full :
    (plan : PaymentPlan) (amount : ℕ) (today due : Date)
    → plan.next_due_at ≡ some due
    → covers_installment amount plan.next_due_amount ≡ true
    → (apply_payment_to_plan plan amount none today).0 ≡ after_full plan amount due
unfolding apply_payment_to_plan limit_due
apply_full plan amount today due at covers = rw (covers, at) refl

full_looks_full :
    (plan : PaymentPlan) (amount : ℕ) (due : Date)
    → plan.next_due_amount ≡ plan.installment_amount
    → covers_installment amount plan.next_due_amount ≡ true
    → looks_full (after_full plan amount due) amount ≡ true
unfolding looks_full covers_installment
full_looks_full plan amount due whole covers =
    let full : (amounts_close amount plan.installment_amount
          || leb plan.installment_amount (amount + 50))
        ≡ true =
      ap (covers_installment amount) (sym whole) ∙ covers in
    ground (arith, full)

full_restored :
    (plan : PaymentPlan) (amount : ℕ) (due : Date)
    → plan.next_due_at ≡ some due
    → IsDate due
    → due.clock ≡ 0
    → (plan.frequency ≡ monthly → due.day ≤ 28)
    → plan.next_due_amount ≡ plan.installment_amount
    → covers_installment amount plan.next_due_amount ≡ true
    → reverse_payment_on_plan (after_full plan amount due) amount none ≡ plan
unfolding reverse_payment_on_plan limit_restored
full_restored plan amount due at date clock short whole covers =
    let paid : plan.paid_toward_plan + amount - amount ≡ plan.paid_toward_plan = omega arith in
    let back : rewind_due_date (advance_due_date due plan.frequency plan.custom_interval_days)
          plan.frequency plan.custom_interval_days
        ≡ due =
      rewind_due_date-advance_due_date due plan.frequency plan.custom_interval_days date short
      ∙ midnight_same due clock in
    let owing : ℕ → Option Date → PaymentPlan =
      λ n d. record plan { next_due_amount = n; next_due_at = d } in
    let undone : reverse_payment_on_plan (after_full plan amount due) amount none
        ≡ owing plan.installment_amount (some due) =
      rw (full_looks_full plan amount due whole covers, paid, back) refl in
    undone
    ∙ ap (λ (n : ℕ). owing n (some due)) (sym whole)
    ∙ ap (owing plan.next_due_amount) (sym at)

-- Undoing a payment that covered the amount due restores the plan, if that amount was an installment,
-- due at midnight of a day of the calendar (one that every month has, where the plan is monthly), and
-- no balance is known.
pub reverse_payment_on_plan-apply_payment_to_plan :
    (plan : PaymentPlan) (amount : ℕ) (today due : Date)
    → plan.next_due_at ≡ some due
    → IsDate due
    → due.clock ≡ 0
    → (plan.frequency ≡ monthly → due.day ≤ 28)
    → plan.next_due_amount ≡ plan.installment_amount
    → covers_installment amount plan.next_due_amount ≡ true
    → reverse_payment_on_plan (apply_payment_to_plan plan amount none today).0 amount none ≡ plan
reverse_payment_on_plan-apply_payment_to_plan plan amount today due at date clock short whole
      covers =
    ap (λ (p : PaymentPlan). reverse_payment_on_plan p amount none)
      (apply_full plan amount today due at covers)
    ∙ full_restored plan amount due at date clock short whole covers

-- Undoing a payment that did not cover the amount due restores the plan, if no balance is known and
-- the payment is not taken for a whole one when it is undone: it is close neither to an installment
-- nor to what it left to pay, and smaller than an installment.
pub reverse_part_payment :
    (plan : PaymentPlan) (amount : ℕ) (today : Date)
    → 0 < amount
    → covers_installment amount plan.next_due_amount ≡ false
    → looks_full (apply_payment_to_plan plan amount none today).0 amount ≡ false
    → reverse_payment_on_plan (apply_payment_to_plan plan amount none today).0 amount none ≡ plan
reverse_part_payment plan amount today some_paid part far =
    ap (λ (p : PaymentPlan). reverse_payment_on_plan p amount none)
      (apply_part plan amount today some_paid part)
    ∙ part_restored plan amount (less_of_part amount plan.next_due_amount part) (
        ap (λ (p : PaymentPlan). looks_full p amount)
          (sym (apply_part plan amount today some_paid part))
        ∙ far)

-- Undoing a payment of half the amount due puts the due date one period back, although the payment had
-- not put it forward.
pub reverse_half_payment_moves :
    (plan : PaymentPlan) (amount : ℕ) (today due : Date)
    → 0 < amount
    → plan.next_due_amount ≡ amount + amount
    → covers_installment amount plan.next_due_amount ≡ false
    → plan.next_due_at ≡ some due
    → let after : PaymentPlan = (apply_payment_to_plan plan amount none today).0 in
      (after.next_due_at ≡ some due)
      × ((reverse_payment_on_plan after amount none).next_due_at
          ≡ some (rewind_due_date due plan.frequency plan.custom_interval_days))
reverse_half_payment_moves plan amount today due some_paid half part at =
    let same : (apply_payment_to_plan plan amount none today).0 ≡ after_part plan amount =
      apply_part plan amount today some_paid part in
    (
      ap (λ (p : PaymentPlan). p.next_due_at) same ∙ at,
      ap (λ (p : PaymentPlan). (reverse_payment_on_plan p amount none).next_due_at) same
          ∙ rewound_date (after_part plan amount) amount due at (half_looks_full plan amount half),
    )
