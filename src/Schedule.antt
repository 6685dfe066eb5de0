-- ===== src/Schedule.antt =====
-- src/automation/guest-payment-schedule.util.ts: when a guest is asked for a deposit, a balance or the
-- full price, reminded of it, and cancelled. Amounts are cents, times are milliseconds of the epoch.
mod Amounts
mod Actions
mod Tests
use fonio_middleware.Base.{
  ℕ, suc, ◌+◌, ◌*◌, ◌/◌, Bool, true, false, not, ◌&&◌, ◌||◌, Option, none, some, [], ltb, leb,
  or_else, is_some, if◌then◌else◌,
}
use fonio_middleware.Base.Int.{ℤ, pos, negsuc, pos_part, sub_ℕ, ◌+ℤ◌, ◌-ℤ◌, ltb_ℤ, leb_ℤ, or_zero}
use fonio_middleware.Base.Text.{Text}
use fonio_middleware.Portal.Rule.{PortalPaymentRule, clamp_percent, share, round_money}

-- A text that stands for a phase; `no_phase` is 'none', and `other` any text that is none of these.
pub data PaymentPhase : Type 0 where
  deposit balance full no_phase deposit_paid : PaymentPhase
  other : Text → PaymentPhase

pub data ScheduleReason : Type 0 where
  paid_or_no_total phase_covered deadline_passed guest_reminder_before_deadline : ScheduleReason
  awaiting_payment deposit_due balance_due direct_no_action fully_covered no_schedule :
      ScheduleReason

pub record GuestPaymentSchedule : Type 0 where
  pub phase : PaymentPhase
  pub amount_due : ℕ
  pub should_request_payment : Bool
  pub should_send_guest_reminder : Bool
  pub should_cancel : Bool
  pub reason : ScheduleReason

pub record GuestPaymentReservationState : Type 0 where
  pub guest_payment_request_sent_at : Option ℕ
  pub guest_payment_reminder_sent_at : Option ℕ
  pub payment_deadline_at : Option ℕ
  pub payment_phase : Option PaymentPhase
  pub booked_at : Option ℕ

pub record ScheduleParams : Type 0 where
  pub total_price : Option ℤ
  pub matched_paid : Option ℤ
  pub is_paid : Option Bool
  pub days_until_arrival : ℤ
  pub days_since_booking : ℤ
  pub now : ℕ
  pub reservation : GuestPaymentReservationState

abbrev pub day_ms : ℕ
day_ms = 86_400_000

-- `berlinDaysSince`: from the UTC day of `date` to the day of `now` in Berlin, at least 0. The time
-- zone's data are not in the repository: `berlin_day` gives the number of the Berlin day of a time.
pub berlin_days_since : (ℕ → ℕ) → Option ℕ → ℕ → ℕ
berlin_days_since berlin_day none now = 0
berlin_days_since berlin_day (some date) now =
    round_money (pos (berlin_day now) -ℤ pos (date / day_ms))

unfoldable pub deposit_amount : ℤ → PortalPaymentRule → ℕ
deposit_amount total rule =
    let percent = or_else rule.deposit_due_percent (pos 0) in
    if leb_ℤ percent (pos 0) then 0 else share total (clamp_percent percent)

unfoldable pub full_amount : ℤ → PortalPaymentRule → ℕ
full_amount total rule = share total (clamp_percent rule.host_due_percent)

unfoldable pub balance_amount : ℤ → PortalPaymentRule → ℕ
balance_amount total rule =
    let deposit_part = deposit_amount total rule in
    if ltb 0 deposit_part
    then round_money (total -ℤ pos deposit_part)
    else share total (clamp_percent rule.host_due_percent)

abbrev min_ℤ : ℤ → ℤ → ℤ
min_ℤ a b = if leb_ℤ a b then a else b

unfoldable pub paid_toward_phase : ℤ → PaymentPhase → ℤ → PortalPaymentRule → ℤ
paid_toward_phase matched deposit total rule = min_ℤ matched (pos (deposit_amount total rule))
paid_toward_phase matched balance total rule =
    pos (pos_part (matched -ℤ pos (deposit_amount total rule)))
paid_toward_phase matched _ total rule = matched

-- `(paymentPhase as PaymentPhase) || 'full'`: null and the empty text are falsy.
abbrev phase_or_full : Option PaymentPhase → PaymentPhase
phase_or_full none = full
phase_or_full (some (other [])) = full
phase_or_full (some p) = p

pub phase_amount : PaymentPhase → ℤ → PortalPaymentRule → ℕ
phase_amount deposit total rule = deposit_amount total rule
phase_amount balance total rule = balance_amount total rule
phase_amount _ total rule = full_amount total rule

abbrev nothing : ScheduleReason → GuestPaymentSchedule
nothing reason = record {
  phase = no_phase;
  amount_due = 0;
  should_request_payment = false;
  should_send_guest_reminder = false;
  should_cancel = false;
  reason = reason;
}

-- A number of days in milliseconds.
abbrev days_ms : ℤ → ℤ
days_ms (pos n) = pos (n * day_ms)
days_ms (negsuc n) = sub_ℕ 0 (suc n * day_ms)

-- The branch of a guest who was asked, and has a deadline.
asked : PortalPaymentRule → ℤ → ℤ → ℕ → GuestPaymentReservationState → ℕ → GuestPaymentSchedule
asked rule total matched now r deadline =
    let phase = phase_or_full r.payment_phase in
    let paid = paid_toward_phase matched phase total rule in
    let missing = round_money (pos (phase_amount phase total rule) -ℤ paid) in
    let reminder_days = or_else rule.guest_reminder_days_before_deadline (pos 0) in
    let reminder_at = pos deadline -ℤ days_ms reminder_days in
    let waiting : GuestPaymentSchedule = record {
      phase = phase;
      amount_due = missing;
      should_request_payment = false;
      should_send_guest_reminder = false;
      should_cancel = false;
      reason = awaiting_payment;
    } in
    if leb missing 100
    then nothing phase_covered
    else if leb deadline now && rule.auto_cancel_if_unpaid
    then record waiting { should_cancel = true; reason = deadline_passed }
    else if ltb_ℤ (pos 0) reminder_days
        && (leb_ℤ reminder_at (pos now)
            && (ltb now deadline && not (is_some r.guest_payment_reminder_sent_at)))
    then record waiting {
      should_send_guest_reminder = true;
      reason = guest_reminder_before_deadline;
    }
    else waiting

-- `paymentPhase == null || === 'deposit' || === 'deposit_paid'`
abbrev is_before_balance : Option PaymentPhase → Bool
is_before_balance none = true
is_before_balance (some deposit) = true
is_before_balance (some deposit_paid) = true
is_before_balance (some p) = false

-- `dueBy != null && days <= dueBy`
abbrev is_within : Option ℤ → ℤ → Bool
is_within none days = false
is_within (some due_by) days = leb_ℤ days due_by

-- A request for one phase.
abbrev request : PaymentPhase → ℕ → Bool → ScheduleReason → GuestPaymentSchedule
request phase missing link reason = record {
  phase = phase;
  amount_due = missing;
  should_request_payment = link;
  should_send_guest_reminder = false;
  should_cancel = false;
  reason = reason;
}

-- The branch of a rule with a deposit; `window` is `depositDueDaysAfterBooking`.
with_deposit : PortalPaymentRule → ℤ → ℤ → ScheduleParams → ℤ → GuestPaymentSchedule
with_deposit rule total matched p window =
    let r = p.reservation in
    let deposit_part = deposit_amount total rule in
    let deposit_missing =
      round_money (pos deposit_part -ℤ paid_toward_phase matched deposit total rule) in
    let balance_missing =
      round_money
        (pos (balance_amount total rule) -ℤ paid_toward_phase matched balance total rule) in
    if ltb 100 deposit_missing
      && (leb_ℤ p.days_since_booking window && not (is_some r.guest_payment_request_sent_at))
    then request deposit deposit_missing rule.auto_send_guest_payment_link deposit_due
    else if ltb 100 balance_missing
        && (is_within rule.host_due_by_days_before_arrival p.days_until_arrival
            && (leb_ℤ (pos deposit_part) (matched +ℤ pos 50)
                && (not (is_some r.guest_payment_request_sent_at)
                    && is_before_balance r.payment_phase)))
    then request balance balance_missing rule.auto_send_guest_payment_link balance_due
    else nothing direct_no_action

-- `hasDeposit`, with the window that it makes sure of.
deposit_window : PortalPaymentRule → Option ℤ
deposit_window rule = elim rule.deposit_due_percent [
  | none ↦ none
  | some percent ↦ if ltb_ℤ (pos 0) percent then rule.deposit_due_days_after_booking else none
]

-- `guestPaymentRequestSentAt && paymentDeadlineAt`
pub deadline_of : GuestPaymentReservationState → Option ℕ
deadline_of r = elim r.guest_payment_request_sent_at [
  | none ↦ none
  | some sent ↦ r.payment_deadline_at
]

-- `isPaid === true || total <= 0`
abbrev is_settled : Option Bool → ℤ → Bool
is_settled is_paid total = or_else is_paid false || leb_ℤ total (pos 0)

pub evaluate_guest_payment_schedule : PortalPaymentRule → ScheduleParams → GuestPaymentSchedule
evaluate_guest_payment_schedule rule p =
    let total = or_zero p.total_price in
    let matched = or_zero p.matched_paid in
    let undeposited =
      if leb (round_money (pos (full_amount total rule) -ℤ matched)) 100
      then nothing fully_covered
      else nothing no_schedule in
    if is_settled p.is_paid total
    then nothing paid_or_no_total
    else elim (deadline_of p.reservation) [
      | some deadline ↦ asked rule total matched p.now p.reservation deadline
      | none ↦ elim (deposit_window rule) [
        | some window ↦ with_deposit rule total matched p window
        | none ↦ undeposited
      ]
    ]
