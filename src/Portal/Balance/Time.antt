-- ===== src/Portal/Balance/Time.antt =====
-- How the verdicts of `evaluatePortalBalance` move as the days go by.
use fonio_middleware.Base.{◌≡◌, inl, inr, true, some, arith, Option-cases}
use fonio_middleware.Base.Int.{ℤ, ◌≤ℤ◌, or_zero}
use fonio_middleware.Portal.Rule.{PortalPaymentRule}
use fonio_middleware.Portal.Balance.{
  BalanceParams, evaluate_portal_balance, evaluate_payout, evaluate_host_share, due_window,
}

module _ (rule : PortalPaymentRule) where
  due_window_mono :
      (d d' : ℤ) → d' ≤ℤ d → (due_window rule d).0 ≡ true → (due_window rule d').0 ≡ true
  unfolding due_window
  due_window_mono d d' h k = ground arith

  host_share_mono :
      (total matched d d' : ℤ)
      → d' ≤ℤ d
      → (evaluate_host_share rule total matched d).should_office_remind ≡ true
      → (evaluate_host_share rule total matched d').should_office_remind ≡ true
  unfolding evaluate_host_share
  host_share_mono total matched d d' h k = ground (arith, due_window_mono d d' h)

  payout_mono :
      (days total matched s s' : ℤ)
      → s ≤ℤ s'
      → (evaluate_payout rule days total matched s).should_office_remind ≡ true
      → (evaluate_payout rule days total matched s').should_office_remind ≡ true
  unfolding evaluate_payout
  payout_mono days total matched s s' h k = ground arith

-- Once the office is reminded of a booking, it is reminded on every later day too, as long as the
-- rule, the amounts and the paid mark stay as they are.
pub evaluate_portal_balance_mono :
    (rule : PortalPaymentRule) (p : BalanceParams) (d d' s s' : ℤ)
    → d' ≤ℤ d
    → s ≤ℤ s'
    → let on = λ (u v : ℤ).
      evaluate_portal_balance rule
        (record p { days_until_arrival = u; days_since_departure = some v }) in
      (on d s).should_office_remind ≡ true → (on d' s').should_office_remind ≡ true
unfolding evaluate_portal_balance
evaluate_portal_balance_mono rule p d d' s s' hd hs h =
    let total = or_zero p.total_price in
    let matched = or_zero p.matched_paid in
    elim (Option-cases rule.treat_as_paid_until_days_after_departure) [
      | inl e ↦
          let h' = rw e at h in rw e (ground (arith, host_share_mono rule total matched d d' hd))
      | inr (days, e) ↦
          let h' = rw e at h in rw e (ground (arith, payout_mono rule days total matched s s' hs))
    ]
