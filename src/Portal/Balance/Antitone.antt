-- ===== src/Portal/Balance/Antitone.antt =====
-- More payment never leaves more outstanding: `evaluatePortalBalance` at two matched amounts.
use fonio_middleware.Base.{ℕ, ◌≤◌, ◌≡◌, inl, inr, some, arith, Option-cases, or_else}
use fonio_middleware.Base.Int.{ℤ, pos, negsuc, pos_part, ◌+ℤ◌, ◌-ℤ◌, ◌≤ℤ◌, ◌<ℤ◌, or_zero}
use fonio_middleware.Portal.Rule.{
  PortalPaymentRule, clamp_percent, share, clamp_percent-le, share-le,
}
use fonio_middleware.Portal.Balance.{
  BalanceParams, evaluate_portal_balance, evaluate_payout, evaluate_host_share, payout_percent,
}

missing_antitone :
    (required : ℕ) (m m' : ℤ)
    → m ≤ℤ m'
    → pos_part (pos required -ℤ m') ≤ pos_part (pos required -ℤ m)
unfolding ◌-ℤ◌
missing_antitone required m m' h = ground arith

-- Beyond the upper end of the settlement window nothing is missing.
missing_above :
    (required : ℕ) (total m : ℤ)
    → pos 0 <ℤ total
    → required ≤ pos_part total
    → ¬ (m ≤ℤ total +ℤ pos 100)
    → pos_part (pos required -ℤ m) ≡ 0
unfolding ◌-ℤ◌ ◌+ℤ◌
missing_above required total m p h k = ground arith

add_mono : (m m' : ℤ) (k : ℕ) → m ≤ℤ m' → m +ℤ pos k ≤ℤ m' +ℤ pos k
unfolding ◌+ℤ◌
add_mono m m' k h = ground arith

module _ (rule : PortalPaymentRule) (m m' : ℤ) (more : m ≤ℤ m') where
  payout_antitone :
      (days total since : ℤ)
      → pos 0 <ℤ total
      → (evaluate_payout rule days total m' since).outstanding
        ≤ (evaluate_payout rule days total m since).outstanding
  unfolding evaluate_payout
  payout_antitone days total since p =
      let percent = clamp_percent (payout_percent rule.host_due_percent) in
      let bound = share-le total percent (clamp_percent-le _) in
      ground (
        arith,
        missing_antitone (share total percent) m m' more,
        missing_above (share total percent) total m' p bound,
        add_mono m m' 100 more,
      )

  host_share_antitone :
      (total days : ℤ)
      → (evaluate_host_share rule total m' days).outstanding
        ≤ (evaluate_host_share rule total m days).outstanding
  unfolding evaluate_host_share
  host_share_antitone total days =
      ground (arith, missing_antitone (share total (clamp_percent rule.host_due_percent)) m m' more)

-- If more was matched, no more is outstanding, all else being equal.
pub evaluate_portal_balance_antitone :
    (rule : PortalPaymentRule) (p : BalanceParams) (m m' : ℤ)
    → m ≤ℤ m'
    → let at = λ (a : ℤ). evaluate_portal_balance rule (record p { matched_paid = some a }) in
      (at m').outstanding ≤ (at m).outstanding
unfolding evaluate_portal_balance
evaluate_portal_balance_antitone rule p m m' more =
    let total = or_zero p.total_price in
    elim (Option-cases rule.treat_as_paid_until_days_after_departure) [
      | inl e ↦ rw e (ground (arith, host_share_antitone rule m m' more total p.days_until_arrival))
      | inr (days, e) ↦
          let since = or_else p.days_since_departure (negsuc 0) in
          rw e (ground (arith, payout_antitone rule m m' more days total since))
    ]
