-- ===== src/Schedule/Amounts.antt =====
-- The deposit, the balance and what of a payment counts toward them.
use fonio_middleware.Base.{◌+◌, ◌≤◌, ◌<◌, ◌≡◌, arith, or_else}
use fonio_middleware.Base.Int.{ℤ, pos, pos_part, ◌+ℤ◌, ◌-ℤ◌}
use fonio_middleware.Portal.Rule.{PortalPaymentRule, clamp_percent, clamp_percent-le, share-le}
use fonio_middleware.Schedule.{
  PaymentPhase, deposit, balance, deposit_amount, balance_amount, full_amount, paid_toward_phase,
  phase_amount,
}

module _ (total : ℤ) (rule : PortalPaymentRule) where
  pub deposit_amount-le : deposit_amount total rule ≤ pos_part total
  unfolding deposit_amount
  deposit_amount-le = ground (
    arith,
    share-le total (clamp_percent (or_else rule.deposit_due_percent (pos 0))) (clamp_percent-le _),
  )

  pub full_amount-le : full_amount total rule ≤ pos_part total
  unfolding full_amount
  full_amount-le = share-le total (clamp_percent rule.host_due_percent) (clamp_percent-le _)

  pub balance_amount-le : balance_amount total rule ≤ pos_part total
  unfolding balance_amount ◌-ℤ◌
  balance_amount-le =
      ground (arith, share-le total (clamp_percent rule.host_due_percent) (clamp_percent-le _))

  pub phase_amount-le : (phase : PaymentPhase) → phase_amount phase total rule ≤ pos_part total
  unfolding phase_amount
  phase_amount-le deposit = deposit_amount-le
  phase_amount-le balance = balance_amount-le
  phase_amount-le _ = full_amount-le

  -- Under a rule that asks for a deposit, the deposit and the balance make up the total exactly.
  deposit-add-balance :
      0 < deposit_amount total rule
      → deposit_amount total rule + balance_amount total rule ≡ pos_part total
  unfolding balance_amount ◌-ℤ◌
  deposit-add-balance h = ground (arith, deposit_amount-le)

  -- What counts toward the deposit and what counts toward the balance make up the payment exactly.
  pub paid_toward_phase_split :
      (matched : ℤ)
      → paid_toward_phase matched deposit total rule +ℤ paid_toward_phase matched balance total rule
        ≡ matched
  unfolding paid_toward_phase ◌-ℤ◌ ◌+ℤ◌
  paid_toward_phase_split matched = ground arith
