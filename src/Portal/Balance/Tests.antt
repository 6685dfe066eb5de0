-- ===== src/Portal/Balance/Tests.antt =====
-- Runs of the balance evaluation under rules that are shipped, and its theorems at concrete inputs.
use fonio_middleware.Base.Int.{◌<ℤ◌, ◌+ℤ◌, ◌-ℤ◌, negsuc, pos, ℤ}
use fonio_middleware.Portal.Balance.{
  portal_net_settlement_received, is_true, overdue, due_window, payout_percent, evaluate_payout,
  evaluate_host_share, BalanceParams, evaluate_portal_balance,
}
use fonio_middleware.Portal.Defaults.{hometogo, travanto}
use fonio_middleware.Base.{refl, false, true, ◌≡◌, arith, ◌≤◌, none, some}
use fonio_middleware.Portal.Rule.{share, clamp_percent}
use fonio_middleware.Portal.Balance.Antitone.{evaluate_portal_balance_antitone}
use fonio_middleware.Portal.Balance.Bounds.{evaluate_portal_balance-IsExact, IsExact}
use fonio_middleware.Portal.Balance.Reminders.{evaluate_portal_balance-IsDue, IsDue}
use fonio_middleware.Portal.Balance.Time.{evaluate_portal_balance_mono}

-- A stay of 1000.00 of which 100.00 is matched.
abbrev stay : ℤ → BalanceParams
stay days = record {
  total_price = some (pos 100_000);
  matched_paid = some (pos 10_000);
  is_paid = none;
  days_until_arrival = days;
  days_since_departure = none;
}

travanto_overdue :
    let e = evaluate_portal_balance travanto (stay (pos 14)) in
    (e.outstanding ≡ 60_000) × (e.reason ≡ overdue) × (e.should_request_inbox ≡ true)
unfolding evaluate_portal_balance evaluate_host_share due_window clamp_percent share ◌-ℤ◌
travanto_overdue = (refl, refl, refl)

-- A stay with HomeToGo, ten days after checkout, of which 700.00 of 1000.00 came in.
abbrev settled_stay : BalanceParams
settled_stay = record {
  total_price = some (pos 100_000);
  matched_paid = some (pos 70_000);
  is_paid = none;
  days_until_arrival = negsuc 16;
  days_since_departure = some (pos 10);
}

net_settlement :
    let e = evaluate_portal_balance hometogo settled_stay in
    (e.outstanding ≡ 0) × (e.reason ≡ portal_net_settlement_received)
unfolding evaluate_portal_balance evaluate_payout payout_percent clamp_percent share ◌-ℤ◌ ◌+ℤ◌
net_settlement = (refl, refl)

evaluate_portal_balance-IsExact_example :
    let e = evaluate_portal_balance travanto (stay (pos 14)) in
    (e.host_required ≤ 100_000) × IsExact (pos 10_000) e
evaluate_portal_balance-IsExact_example = evaluate_portal_balance-IsExact travanto (stay (pos 14))

evaluate_portal_balance_antitone_example :
    (evaluate_portal_balance travanto
      (record (stay (pos 14)) { matched_paid = some (pos 20_000) })).outstanding
    ≤ (evaluate_portal_balance travanto
        (record (stay (pos 14)) { matched_paid = some (pos 10_000) })).outstanding
evaluate_portal_balance_antitone_example =
    evaluate_portal_balance_antitone travanto (stay (pos 14)) (pos 10_000) (pos 20_000)
      (omega arith)

evaluate_portal_balance-IsDue_example :
    IsDue travanto (evaluate_portal_balance travanto (stay (pos 14)))
    × (is_true none ≡ false)
    × (pos 0 <ℤ pos 100_000)
unfolding evaluate_portal_balance evaluate_host_share due_window clamp_percent share ◌-ℤ◌
evaluate_portal_balance-IsDue_example = evaluate_portal_balance-IsDue travanto (stay (pos 14)) refl

evaluate_portal_balance_mono_example :
    (evaluate_portal_balance travanto (record (stay (pos 14)) {
      days_until_arrival = pos 2;
      days_since_departure = some (negsuc 5);
    })).should_office_remind
    ≡ true
unfolding evaluate_portal_balance evaluate_host_share due_window clamp_percent share ◌-ℤ◌
evaluate_portal_balance_mono_example =
    evaluate_portal_balance_mono travanto (stay (pos 14)) (pos 14) (pos 2) (negsuc 17) (negsuc 5)
      (omega arith) (omega arith) refl
