-- ===== src/Portal/Balance/Reminders.antt =====
-- When `evaluatePortalBalance` has the office reminded or the inbox asked.
use fonio_middleware.Base.{
  ◌<◌, ◌≡◌, inl, inr, Bool, true, false, ◌||◌, arith, Option-cases, or_else,
}
use fonio_middleware.Base.Int.{ℤ, pos, negsuc, ◌<ℤ◌, or_zero}
use fonio_middleware.Portal.Rule.{PortalPaymentRule}
use fonio_middleware.Portal.Balance.{
  BalanceParams, PortalBalanceEvaluation, evaluate_portal_balance, evaluate_payout,
  evaluate_host_share, is_true,
}

-- Somebody is asked for money only on these grounds.
pub record IsDue (rule : PortalPaymentRule) (e : PortalBalanceEvaluation) : Type 0 where
  pub more_than_a_euro : 100 < e.outstanding
  pub verified : e.paid_unverified ≡ false
  pub wanted : rule.skip_unpaid_reminder ≡ false

abbrev pub asks : PortalBalanceEvaluation → Bool
asks e = e.should_office_remind || e.should_request_inbox

module _ (rule : PortalPaymentRule) where
  payout-IsDue :
      (days total matched since : ℤ)
      → let e = evaluate_payout rule days total matched since in asks e ≡ true → IsDue rule e
  unfolding evaluate_payout
  payout-IsDue days total matched since h = ground arith

  host_share-IsDue :
      (total matched days : ℤ)
      → let e = evaluate_host_share rule total matched days in asks e ≡ true → IsDue rule e
  unfolding evaluate_host_share
  host_share-IsDue total matched days h = ground arith

-- The office is reminded or the inbox asked only of a booking that Hostaway does not hold for paid,
-- with a positive total, with more than one euro outstanding, whose payment is not merely
-- unverified, and under a rule that does not skip reminders.
pub evaluate_portal_balance-IsDue :
    (rule : PortalPaymentRule) (p : BalanceParams)
    → let e = evaluate_portal_balance rule p in
      asks e ≡ true → IsDue rule e × (is_true p.is_paid ≡ false) × (pos 0 <ℤ or_zero p.total_price)
unfolding evaluate_portal_balance
evaluate_portal_balance-IsDue rule p h =
    let total = or_zero p.total_price in
    let matched = or_zero p.matched_paid in
    elim (Option-cases rule.treat_as_paid_until_days_after_departure) [
      | inl e ↦
          let h' = rw e at h in
          rw e (ground (arith, host_share-IsDue rule total matched p.days_until_arrival))
      | inr (days, e) ↦
          let h' = rw e at h in
          let since = or_else p.days_since_departure (negsuc 0) in
          rw e (ground (arith, payout-IsDue rule days total matched since))
    ]
