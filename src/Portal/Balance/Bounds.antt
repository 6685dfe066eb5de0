-- ===== src/Portal/Balance/Bounds.antt =====
-- The amounts of `evaluatePortalBalance`: what is outstanding is the host's share less what was
-- matched, and more payment never leaves more outstanding.
use fonio_middleware.Base.{ℕ, ◌≤◌, ◌<◌, ◌≡◌, ◌⊎◌, inl, inr, arith, Option-cases, or_else}
use fonio_middleware.Base.Int.{ℤ, pos, negsuc, pos_part, ◌+ℤ◌, ◌-ℤ◌, or_zero}
use fonio_middleware.Portal.Rule.{
  PortalPaymentRule, clamp_percent, share, clamp_percent-le, share-le,
}
use fonio_middleware.Portal.Balance.{
  BalanceParams, PortalBalanceEvaluation, evaluate_portal_balance, evaluate_payout,
  evaluate_host_share, payout_percent,
}

-- Nothing is outstanding, or more than one euro is, and it is just what the host's share lacks.
abbrev pub IsExact : ℤ → PortalBalanceEvaluation → Type 0
IsExact matched e =
    (e.outstanding ≡ 0)
    ⊎ ((100 < e.outstanding) × (pos e.outstanding +ℤ matched ≡ pos e.host_required))

share_clamp-le : (total p : ℤ) → share total (clamp_percent p) ≤ pos_part total
share_clamp-le total p = share-le total (clamp_percent p) (clamp_percent-le p)

missing_exact :
    (required : ℕ) (matched : ℤ)
    → 100 < pos_part (pos required -ℤ matched)
    → pos (pos_part (pos required -ℤ matched)) +ℤ matched ≡ pos required
unfolding ◌+ℤ◌ ◌-ℤ◌
missing_exact required matched h = ground arith

module _ (rule : PortalPaymentRule) where
  payout-IsExact :
      (days total matched since : ℤ)
      → let e = evaluate_payout rule days total matched since in
        (e.host_required ≤ pos_part total) × IsExact matched e
  unfolding evaluate_payout
  payout-IsExact days total matched since =
      let percent = payout_percent rule.host_due_percent in
      ground (
        arith,
        share_clamp-le total percent,
        missing_exact (share total (clamp_percent percent)) matched,
      )

  host_share-IsExact :
      (total matched days : ℤ)
      → let e = evaluate_host_share rule total matched days in
        (e.host_required ≤ pos_part total) × IsExact matched e
  unfolding evaluate_host_share
  host_share-IsExact total matched days = ground (
    arith,
    share_clamp-le total rule.host_due_percent,
    missing_exact (share total (clamp_percent rule.host_due_percent)) matched,
  )

-- Under every rule the host's share is at most the total, and what is outstanding is either nothing
-- or more than one euro, and then just the host's share less what was matched.
pub evaluate_portal_balance-IsExact :
    (rule : PortalPaymentRule) (p : BalanceParams)
    → let e = evaluate_portal_balance rule p in
      (e.host_required ≤ pos_part (or_zero p.total_price)) × IsExact (or_zero p.matched_paid) e
unfolding evaluate_portal_balance
evaluate_portal_balance-IsExact rule p =
    let total = or_zero p.total_price in
    let matched = or_zero p.matched_paid in
    elim (Option-cases rule.treat_as_paid_until_days_after_departure) [
      | inl e ↦ rw e (ground (arith, host_share-IsExact rule total matched p.days_until_arrival))
      | inr (days, e) ↦
          let since = or_else p.days_since_departure (negsuc 0) in
          rw e (ground (arith, payout-IsExact rule days total matched since))
    ]
