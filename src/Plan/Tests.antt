-- ===== src/Plan/Tests.antt =====
-- Runs of the payment plan, and the theorems at concrete inputs.
use fonio_middleware.Base.{[], ◌∷◌, refl, false, ◌≡◌, some, none, arith, true, ℕ}
use fonio_middleware.Plan.Calendar.{midnight, IsDate, month_length, Date}
use fonio_middleware.Plan.Ledger.{
  remaining_balance, limit_due, amounts_close, reverse_payment_on_plan, record_payment_applied,
  looks_full, covers_installment, apply_payment_to_plan, PaymentPlan,
}
use fonio_middleware.Plan.DueDate.{
  advance_due_date-MonthLater, MonthLater, rewind_due_date-advance_due_date, custom, weekly,
  monthly, interval, rewind_due_date, advance_due_date, PaymentPlanFrequency,
}
use fonio_middleware.Base.Int.{negsuc, ◌-ℤ◌, ◌<ℤ◌, pos}
use fonio_middleware.Plan.Ledger.Undo.{
  reverse_payment_on_plan-apply_payment_to_plan, reverse_part_payment, reverse_half_payment_moves,
}
use fonio_middleware.Plan.Ledger.Bounds.{record_payment_applied-IsBounded, IsBounded}

abbrev day_of : ℕ → ℕ → ℕ → Date
day_of year month day = record { year = year; month = month; day = day; clock = 0 }

february : advance_due_date (day_of 2026 0 31) monthly none ≡ day_of 2026 1 28
unfolding advance_due_date month_length
february = refl

christmas : rewind_due_date (day_of 2027 0 1) custom (some 8) ≡ day_of 2026 11 24
unfolding rewind_due_date interval month_length
christmas = refl

abbrev plan_of : PaymentPlanFrequency → PaymentPlan
plan_of frequency = record {
  enabled = true;
  installment_amount = 50_000;
  frequency = frequency;
  custom_interval_days = none;
  next_due_amount = 50_000;
  next_due_at = some (day_of 2026 4 15);
  paid_toward_plan = 10_000;
}

is_date : IsDate (day_of 2026 4 15)
unfolding month_length
is_date = (omega arith, omega arith, omega arith)

advance_due_date-MonthLater_example :
    MonthLater (day_of 2026 4 15) (advance_due_date (day_of 2026 4 15) monthly none)
advance_due_date-MonthLater_example = advance_due_date-MonthLater (day_of 2026 4 15) none is_date

rewind_due_date-advance_due_date_example :
    rewind_due_date (advance_due_date (day_of 2026 4 15) monthly none) monthly none
    ≡ midnight (day_of 2026 4 15)
rewind_due_date-advance_due_date_example =
    rewind_due_date-advance_due_date (day_of 2026 4 15) monthly none is_date (λ h. omega arith)

abbrev after_payment : PaymentPlan
after_payment = record (plan_of weekly) {
  next_due_amount = 1_000;
  next_due_at = some (day_of 2026 4 22);
  paid_toward_plan = 60_000;
}

run :
    record_payment_applied
      (some (plan_of weekly))
      (some (pos 61_000))
      (pos 60_000 ∷ negsuc 9 ∷ [])
      (day_of 2026 4 1)
      (pos 50_000)
    ≡ some after_payment
unfolding record_payment_applied apply_payment_to_plan covers_installment amounts_close limit_due
    remaining_balance advance_due_date month_length ◌-ℤ◌
run = refl

record_payment_applied-IsBounded_example :
    (pos 0 <ℤ pos 50_000)
    × ((plan_of weekly).enabled ≡ true)
    × IsBounded
        (plan_of weekly)
        50_000
        (remaining_balance (some (pos 61_000)) (pos 60_000 ∷ negsuc 9 ∷ []))
        after_payment
record_payment_applied-IsBounded_example =
    record_payment_applied-IsBounded (plan_of weekly) after_payment (some (pos 61_000))
      (pos 60_000 ∷ negsuc 9 ∷ []) (day_of 2026 4 1) (pos 50_000) run

covered : covers_installment 50_000 50_000 ≡ true
unfolding covers_installment amounts_close
covered = refl

part : covers_installment 12_000 50_000 ≡ false
unfolding covers_installment amounts_close
part = refl

half : covers_installment 25_000 50_000 ≡ false
unfolding covers_installment amounts_close
half = refl

reverse_payment_on_plan-apply_payment_to_plan_example :
    reverse_payment_on_plan
      (apply_payment_to_plan (plan_of monthly) 50_000 none (day_of 2026 4 1)).0
      50_000
      none
    ≡ plan_of monthly
reverse_payment_on_plan-apply_payment_to_plan_example =
    reverse_payment_on_plan-apply_payment_to_plan (plan_of monthly) 50_000 (day_of 2026 4 1)
      (day_of 2026 4 15) refl is_date refl (λ h. omega arith) refl covered

far :
    looks_full (apply_payment_to_plan (plan_of weekly) 12_000 none (day_of 2026 4 1)).0 12_000
    ≡ false
unfolding looks_full apply_payment_to_plan covers_installment amounts_close limit_due
far = refl

reverse_part_payment_example :
    reverse_payment_on_plan
      (apply_payment_to_plan (plan_of weekly) 12_000 none (day_of 2026 4 1)).0
      12_000
      none
    ≡ plan_of weekly
reverse_part_payment_example =
    reverse_part_payment (plan_of weekly) 12_000 (day_of 2026 4 1) (omega arith) part far

reverse_half_payment_moves_example :
    ((apply_payment_to_plan (plan_of weekly) 25_000 none (day_of 2026 4 1)).0.next_due_at
      ≡ some (day_of 2026 4 15))
    × ((reverse_payment_on_plan
          (apply_payment_to_plan (plan_of weekly) 25_000 none (day_of 2026 4 1)).0
          25_000
          none).next_due_at
        ≡ some (rewind_due_date (day_of 2026 4 15) weekly none))
reverse_half_payment_moves_example =
    reverse_half_payment_moves (plan_of weekly) 25_000 (day_of 2026 4 1) (day_of 2026 4 15)
      (omega arith) refl half refl
