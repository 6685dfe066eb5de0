-- ===== src/Plan/Ledger/Bounds.antt =====
-- What a payment does to a plan: `applyPaymentToPlan` and `recordPaymentApplied`.
use fonio_middleware.Base.{
  Bool, List, sym, refl, ◌-◌, ◌&&◌, ltb, ◌*◌, if◌then◌else◌, ◌↔◌, inr, ◌⊎◌, true, none, inl, ◌+◌,
  some, Bool-cases, ◌≤◌, ◌≡◌, Option, ℕ, arith,
}
use fonio_middleware.Plan.Ledger.{
  remaining_balance, record_payment_applied, amounts_close, covers_installment, limit_due,
  apply_payment_to_plan, PaymentPlan,
}
use fonio_middleware.Plan.Calendar.{Date}
use fonio_middleware.Base.Int.{pos_part, ◌<ℤ◌, pos, ℤ}

-- The schedule moves on exactly if the payment is short of the amount due by no more than one euro
-- or half a percent of it, whichever is more.
pub advances_iff :
    (plan : PaymentPlan) (amount : ℕ) (remaining : Option ℕ) (today : Date)
    → ((apply_payment_to_plan plan amount remaining today).1 ≡ true) ↔ (
        (plan.next_due_amount ≤ amount + 100)
        ⊎ (200 * plan.next_due_amount ≤ 200 * amount + plan.next_due_amount))
unfolding apply_payment_to_plan covers_installment amounts_close
advances_iff plan amount remaining today = ground arith

-- What holds of the plan after a payment: it has counted the payment, and asks for no more than the
-- balance that remains.
abbrev pub IsBounded : PaymentPlan → ℕ → Option ℕ → PaymentPlan → Type 0
IsBounded plan amount remaining after =
    (after.paid_toward_plan ≡ plan.paid_toward_plan + amount)
    × ((r : ℕ)
        → remaining ≡ some r
        → (after.next_due_amount ≤ r) × (r ≤ 50 → after.next_due_amount ≡ 0))
    × ((after.next_due_amount ≤ plan.next_due_amount)
        ⊎ (after.next_due_amount ≤ plan.installment_amount))

limit_due-le : (remaining : Option ℕ) (due : ℕ) → limit_due remaining due ≤ due
unfolding limit_due
limit_due-le none due = omega arith
limit_due-le (some r) due = ground arith

limit_due_remaining :
    (remaining : Option ℕ) (due r : ℕ)
    → remaining ≡ some r
    → (limit_due remaining due ≤ r) × (r ≤ 50 → limit_due remaining due ≡ 0)
unfolding limit_due
limit_due_remaining remaining due r e = rw e (ground arith, λ small. ground (arith, small))

-- A payment is counted in full, and then the plan asks for no more than the balance that remains, for
-- nothing if that is at most 50 cents, and for no more than it asked for before or one installment.
pub apply_payment_to_plan-IsBounded :
    (plan : PaymentPlan) (amount : ℕ) (remaining : Option ℕ) (today : Date)
    → IsBounded plan amount remaining (apply_payment_to_plan plan amount remaining today).0
unfolding apply_payment_to_plan
apply_payment_to_plan-IsBounded plan amount remaining today =
    elim (Bool-cases (covers_installment amount plan.next_due_amount)) [
      | inl covers ↦ rw covers (
        refl,
        limit_due_remaining remaining plan.installment_amount,
        inr (limit_due-le remaining plan.installment_amount),
      )
      | inr part ↦ rw part (
        refl,
        limit_due_remaining remaining (
            if ltb 0 amount && ltb amount plan.next_due_amount
            then plan.next_due_amount - amount
            else plan.next_due_amount),
        inl (
            ground (
              arith,
              limit_due-le remaining (
                  if ltb 0 amount && ltb amount plan.next_due_amount
                  then plan.next_due_amount - amount
                  else plan.next_due_amount),
            )),
      )
    ]

-- A payment is only recorded if it is above 0 and the plan is enabled. The plan that is stored then has
-- counted the payment in full, and asks for no more than the balance that remains of the total price
-- after the charges, for nothing if that is at most 50 cents, and for no more than it asked for before
-- or one installment.
pub record_payment_applied-IsBounded :
    (plan after : PaymentPlan) (total : Option ℤ) (charges : List ℤ) (today : Date) (amount : ℤ)
    → record_payment_applied (some plan) total charges today amount ≡ some after
    → (pos 0 <ℤ amount)
      × (plan.enabled ≡ true)
      × IsBounded plan (pos_part amount) (remaining_balance total charges) after
unfolding record_payment_applied
record_payment_applied-IsBounded plan after total charges today amount e =
    let applied : PaymentPlan × Bool =
      apply_payment_to_plan plan (pos_part amount) (remaining_balance total charges) today in
    let same : applied.0 ≡ after = ground (arith, e) in
    (
      ground (arith, e),
      ground (arith, e),
      rw (sym same) (
          apply_payment_to_plan-IsBounded plan (pos_part amount) (remaining_balance total charges)
            today),
    )
