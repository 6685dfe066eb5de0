-- ===== src/Schedule/Actions.antt =====
-- What `evaluateGuestPaymentSchedule` has done to a guest, and when.
use fonio_middleware.Base.{
  if◌then◌else◌, refl, Bool, Bool, inr, inl, Option-cases, Bool-cases, ℕ, ◌≤◌, ◌<◌, ◌≡◌, ◌↔◌, true,
  false, none, some, arith,
}
use fonio_middleware.Base.Int.{◌<ℤ◌, ◌≤ℤ◌, ℤ, pos, ◌-ℤ◌, or_zero}
use fonio_middleware.Portal.Rule.{PortalPaymentRule, round_money}
use fonio_middleware.Schedule.{
  GuestPaymentReservationState, PaymentPhase, deposit, balance, PaymentPhase, full_amount,
  balance_amount, deposit_window, nothing, is_settled, evaluate_guest_payment_schedule,
  ScheduleReason, GuestPaymentSchedule, ScheduleParams, paid_toward_phase, phase_amount, asked,
  with_deposit, deadline_of, phase_or_full,
}
use fonio_middleware.Schedule.Amounts.{full_amount-le, deposit_amount-le}

-- What the guest still owes for the phase that the reservation is in.
abbrev pub phase_missing : PortalPaymentRule → ScheduleParams → ℕ
phase_missing rule p =
    let total = or_zero p.total_price in
    let phase = phase_or_full p.reservation.payment_phase in
    round_money (
      pos (phase_amount phase total rule)
      -ℤ paid_toward_phase (or_zero p.matched_paid) phase total rule)

-- At most one thing is done to a guest at a time.
abbrev pub IsExclusive : GuestPaymentSchedule → Type 0
IsExclusive e =
    (e.should_cancel ≡ true
      → (e.should_request_payment ≡ false) × (e.should_send_guest_reminder ≡ false))
    × (e.should_send_guest_reminder ≡ true → e.should_request_payment ≡ false)

-- When each of the three things is done.
pub record IsJustified (rule : PortalPaymentRule) (p : ScheduleParams) (e : GuestPaymentSchedule)
    : Type 0 where
  pub exclusive : IsExclusive e
  pub asked_once :
      e.should_request_payment ≡ true
      → (rule.auto_send_guest_payment_link ≡ true)
        × (100 < e.amount_due)
        × (p.reservation.guest_payment_request_sent_at ≡ none)
  pub reminded_once :
      e.should_send_guest_reminder ≡ true
      → (p.reservation.guest_payment_reminder_sent_at ≡ none)
        × (100 < e.amount_due)
        × (deadline : ℕ) × (p.reservation.payment_deadline_at ≡ some deadline)
        × (p.now < deadline)

module _ (rule : PortalPaymentRule) (p : ScheduleParams) where
  quiet-IsJustified : (reason : ScheduleReason) → IsJustified rule p (nothing reason)
  quiet-IsJustified reason = record {
    exclusive = ground arith;
    asked_once = ground arith;
    reminded_once = λ h. absurd (ground arith);
  }

  either-IsJustified :
      (b : Bool) (r r' : ScheduleReason) → IsJustified rule p (if b then nothing r else nothing r')
  either-IsJustified true r r' = quiet-IsJustified r
  either-IsJustified false r r' = quiet-IsJustified r'

  asked-IsJustified :
      (deadline : ℕ)
      → deadline_of p.reservation ≡ some deadline
      → IsJustified rule p
          (asked rule (or_zero p.total_price) (or_zero p.matched_paid) p.now p.reservation deadline)
  unfolding asked deadline_of
  asked-IsJustified deadline e = record {
    exclusive = ground arith;
    asked_once = ground arith;
    reminded_once = λ h. (ground arith, ground arith, deadline, ground arith, ground arith);
  }

  asked_cancels_iff :
      (deadline : ℕ)
      → ((asked rule
            (or_zero p.total_price)
            (or_zero p.matched_paid)
            p.now
            p.reservation
            deadline).should_cancel
          ≡ true)
        ↔ ((100 < phase_missing rule p) × (deadline ≤ p.now) × (rule.auto_cancel_if_unpaid ≡ true))
  unfolding asked
  asked_cancels_iff deadline = ground arith

  with_deposit_keeps :
      (window : ℤ)
      → (with_deposit rule (or_zero p.total_price) (or_zero p.matched_paid) p window).should_cancel
        ≡ false
  unfolding with_deposit
  with_deposit_keeps window = ground arith

  with_deposit-IsJustified :
      (window : ℤ)
      → IsJustified rule p
          (with_deposit rule (or_zero p.total_price) (or_zero p.matched_paid) p window)
  unfolding with_deposit
  with_deposit-IsJustified window = record {
    exclusive = ground arith;
    asked_once = ground arith;
    reminded_once = λ h. absurd (ground arith);
  }

-- Whatever is done to a guest is justified: never two things at once; a request goes out only under a
-- rule that sends links, for more than one euro, to a guest who was not asked yet; a reminder only
-- for more than one euro, before the deadline, to a guest who was not reminded yet.
pub evaluate_guest_payment_schedule-IsJustified :
    (rule : PortalPaymentRule) (p : ScheduleParams)
    → IsJustified rule p (evaluate_guest_payment_schedule rule p)
unfolding evaluate_guest_payment_schedule
evaluate_guest_payment_schedule-IsJustified rule p =
    elim (Bool-cases (is_settled p.is_paid (or_zero p.total_price))) [
      | inl settled ↦ rw settled (quiet-IsJustified rule p _)
      | inr unsettled ↦ rw unsettled (elim (Option-cases (deadline_of p.reservation)) [
        | inr (deadline, e) ↦ rw e (asked-IsJustified rule p deadline e)
        | inl unasked ↦ rw unasked (elim (Option-cases (deposit_window rule)) [
          | inr (window, w) ↦ rw w (with_deposit-IsJustified rule p window)
          | inl undeposited ↦ rw undeposited (either-IsJustified rule p _ _ _)
        ])
      ])
    ]

unasked_keeps :
    (rule : PortalPaymentRule) (p : ScheduleParams)
    → deadline_of p.reservation ≡ none
    → (evaluate_guest_payment_schedule rule p).should_cancel ≡ true
    → ⊥
unfolding evaluate_guest_payment_schedule
unasked_keeps rule p e h = elim (Option-cases (deposit_window rule)) [
  | inl undeposited ↦ ground arith
  | inr (window, w) ↦ ground (arith, with_deposit_keeps rule p window)
]

-- A reservation is cancelled exactly if it is not paid and has a total, the guest was asked and has a
-- deadline, that deadline is reached, the rule cancels by itself, and more than one euro of the
-- phase is still missing.
pub cancels_iff :
    (rule : PortalPaymentRule) (p : ScheduleParams)
    → ((evaluate_guest_payment_schedule rule p).should_cancel ≡ true) ↔ (
        (is_settled p.is_paid (or_zero p.total_price) ≡ false)
        × ((deadline : ℕ) × (deadline_of p.reservation ≡ some deadline) × (deadline ≤ p.now))
        × (rule.auto_cancel_if_unpaid ≡ true)
        × (100 < phase_missing rule p))
unfolding evaluate_guest_payment_schedule
cancels_iff rule p = elim (Option-cases (deadline_of p.reservation)) [
  | inr (deadline, e) ↦ rw e (
    λ h.
        let cancels = asked_cancels_iff rule p deadline in
        (ground arith, (deadline, refl, ground arith), ground arith, ground arith),
    λ q. let cancels = asked_cancels_iff rule p deadline in ground arith,
  )
  | inl unasked ↦
      rw unasked
        (λ h. absurd (unasked_keeps rule p unasked (rw unasked h)), λ q. absurd (ground arith))
]

-- Nothing is done to the guest.
abbrev pub IsIdle : GuestPaymentSchedule → Type 0
IsIdle e =
    (e.should_request_payment ≡ false)
    × (e.should_send_guest_reminder ≡ false)
    × (e.should_cancel ≡ false)

module _ (rule : PortalPaymentRule) (total matched : ℤ) (positive : pos 0 <ℤ total)
    (covered : total ≤ℤ matched) where
  covered_missing :
      (phase : PaymentPhase)
      → round_money
          (pos (phase_amount phase total rule) -ℤ paid_toward_phase matched phase total rule)
        ≡ 0
  unfolding phase_amount paid_toward_phase balance_amount full_amount ◌-ℤ◌
  covered_missing deposit = ground (arith, deposit_amount-le total rule)
  covered_missing balance = ground (arith, deposit_amount-le total rule, full_amount-le total rule)
  covered_missing _ = ground (arith, full_amount-le total rule)

  asked_covered :
      (now deadline : ℕ) (r : GuestPaymentReservationState)
      → IsIdle (asked rule total matched now r deadline)
  unfolding asked
  asked_covered now deadline r = ground (arith, covered_missing (phase_or_full r.payment_phase))

  with_deposit_covered :
      (p : ScheduleParams) (window : ℤ) → IsIdle (with_deposit rule total matched p window)
  unfolding with_deposit phase_amount
  with_deposit_covered p window = ground (arith, covered_missing deposit, covered_missing balance)

-- A guest whose payments reach the total is asked for nothing, reminded of nothing and not cancelled.
pub evaluate_guest_payment_schedule_covered :
    (rule : PortalPaymentRule) (p : ScheduleParams)
    → or_zero p.total_price ≤ℤ or_zero p.matched_paid
    → IsIdle (evaluate_guest_payment_schedule rule p)
unfolding evaluate_guest_payment_schedule
evaluate_guest_payment_schedule_covered rule p h =
    let total = or_zero p.total_price in
    let matched = or_zero p.matched_paid in
    elim (Bool-cases (is_settled p.is_paid total)) [
      | inl settled ↦ rw settled (ground arith)
      | inr unsettled ↦
          let positive : pos 0 <ℤ total = ground arith in
          rw unsettled (elim (Option-cases (deadline_of p.reservation)) [
            | inr (deadline, e) ↦
                rw e (asked_covered rule total matched positive h p.now deadline p.reservation)
            | inl unasked ↦ rw unasked (elim (Option-cases (deposit_window rule)) [
              | inr (window, w) ↦ rw w (with_deposit_covered rule total matched positive h p window)
              | inl undeposited ↦ rw undeposited (ground arith)
            ])
          ])
    ]
