-- ===== src/Schedule/Tests.antt =====
-- Runs of the guest payment schedule, and the theorems at concrete inputs.
use fonio_middleware.Schedule.{
  is_settled, full_amount, phase_amount, asked, deadline_of, ScheduleParams,
  evaluate_guest_payment_schedule, GuestPaymentReservationState, paid_toward_phase,
}
use fonio_middleware.Schedule.Actions.{
  cancels_iff, phase_missing, evaluate_guest_payment_schedule_covered,
  evaluate_guest_payment_schedule-IsJustified, IsJustified, IsIdle,
}
use fonio_middleware.Base.{◌<◌, ◌≤◌, refl, ◌↔◌, arith, true, none, ◌≡◌, false, some, ℕ}
use fonio_middleware.Portal.Defaults.{check24}
use fonio_middleware.Base.Int.{◌-ℤ◌, pos}
use fonio_middleware.Portal.Rule.{share, clamp_percent}

abbrev stay : GuestPaymentReservationState
stay = record {
  guest_payment_request_sent_at = some 1_000_000;
  guest_payment_reminder_sent_at = none;
  payment_deadline_at = some 700_000_000;
  payment_phase = none;
  booked_at = some 1_000_000;
}

-- A CHECK24 booking of 850.00, of which 50.00 was paid.
abbrev booking : ℕ → ScheduleParams
booking now = record {
  total_price = some (pos 85_000);
  matched_paid = some (pos 5000);
  is_paid = some false;
  days_until_arrival = pos 40;
  days_since_booking = pos 3;
  now = now;
  reservation = stay;
}

cancelled_late :
    (evaluate_guest_payment_schedule check24 (booking 700_000_000)).should_cancel ≡ true
unfolding evaluate_guest_payment_schedule deadline_of asked phase_amount full_amount
    paid_toward_phase clamp_percent share ◌-ℤ◌
cancelled_late = refl

reminded :
    (evaluate_guest_payment_schedule check24 (booking 600_000_000)).should_send_guest_reminder
    ≡ true
unfolding evaluate_guest_payment_schedule deadline_of asked phase_amount full_amount
    paid_toward_phase clamp_percent share ◌-ℤ◌
reminded = refl

evaluate_guest_payment_schedule-IsJustified_example :
    IsJustified check24 (booking 5) (evaluate_guest_payment_schedule check24 (booking 5))
evaluate_guest_payment_schedule-IsJustified_example =
    evaluate_guest_payment_schedule-IsJustified check24 (booking 5)

cancels_iff_example :
    ((evaluate_guest_payment_schedule check24 (booking 5)).should_cancel ≡ true) ↔ (
      (is_settled (some false) (pos 85_000) ≡ false)
      × ((deadline : ℕ) × (deadline_of stay ≡ some deadline) × (deadline ≤ 5))
      × (check24.auto_cancel_if_unpaid ≡ true)
      × (100 < phase_missing check24 (booking 5)))
cancels_iff_example = cancels_iff check24 (booking 5)

evaluate_guest_payment_schedule_covered_example : IsIdle (
    evaluate_guest_payment_schedule check24
      (record (booking 5) { matched_paid = some (pos 85_000) }))
evaluate_guest_payment_schedule_covered_example =
    evaluate_guest_payment_schedule_covered check24
      (record (booking 5) { matched_paid = some (pos 85_000) }) (omega arith)
