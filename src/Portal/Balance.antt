-- ===== src/Portal/Balance.antt =====
-- How much is still outstanding for a reservation under a portal's rule, and whether the office or
-- the guest is to hear of it: `evaluatePortalBalance` of src/automation/portal-payment-rules.util.ts.
-- Amounts are cents, so that the source's 1 is 100 here.
mod Antitone
mod Bounds
mod Reminders
mod Time
mod Tests
use fonio_middleware.Base.{
  ℕ, zero, Bool, true, false, ◌&&◌, ◌||◌, Option, none, some, ltb, leb, or_else, if◌then◌else◌,
}
use fonio_middleware.Base.Int.{ℤ, pos, negsuc, ◌+ℤ◌, ◌-ℤ◌, ltb_ℤ, leb_ℤ, or_zero}
use fonio_middleware.Base.Text.{Text}
use fonio_middleware.Portal.Rule.{PortalPaymentRule, clamp_percent, share, round_money}

pub data BalanceReason : Type 0 where
  hostaway_fully_paid no_total : BalanceReason
  payout_unverified_before_checkout payout_unverified_after_checkout : BalanceReason
  portal_net_settlement_received payout_received portal_skip_reminder : BalanceReason
  payout_awaiting_after_checkout payout_overdue_after_checkout : BalanceReason
  payout_due_after_checkout paid_unverified host_share_covered outstanding : BalanceReason
  outstanding_default_28 not_yet_due overdue due_awaiting_payment : BalanceReason
  provider_payout_missing host_share_due : BalanceReason

-- The arguments beside the rule. `none` is NaN for an amount, and a value left out elsewhere.
pub record BalanceParams : Type 0 where
  pub total_price : Option ℤ
  pub matched_paid : Option ℤ
  pub is_paid : Option Bool
  pub days_until_arrival : ℤ
  pub days_since_departure : Option ℤ

pub record PortalBalanceEvaluation : Type 0 where
  pub portal_key : Text
  pub display_name : Text
  pub outstanding : ℕ
  pub host_required : ℕ
  pub assumed_portal_paid : ℤ
  pub matched_paid : ℕ
  pub paid_unverified : Bool
  pub should_office_remind : Bool
  pub should_request_inbox : Bool
  pub reason : BalanceReason

-- `{ ...base, … }`
abbrev verdict :
    PortalPaymentRule → ℤ → ℕ → ℕ → ℤ → Bool → Bool → Bool → BalanceReason → PortalBalanceEvaluation
verdict rule matched missing required assumed unverified remind inbox reason = record {
  portal_key = rule.portal_key;
  display_name = rule.display_name;
  outstanding = missing;
  host_required = required;
  assumed_portal_paid = assumed;
  matched_paid = round_money matched;
  paid_unverified = unverified;
  should_office_remind = remind;
  should_request_inbox = inbox;
  reason = reason;
}

-- A verdict that asks nobody for anything.
abbrev quiet : PortalPaymentRule → ℤ → ℕ → ℕ → ℤ → Bool → BalanceReason → PortalBalanceEvaluation
quiet rule matched missing required assumed unverified reason =
    verdict rule matched missing required assumed unverified false false reason

-- `rule.hostDuePercent === 0 || rule.hostDuePercent == null ? 100 : rule.hostDuePercent`; the
-- column is never null.
payout_percent : ℤ → ℤ
payout_percent (pos zero) = pos 100
payout_percent p = p

-- Whether the office is reminded of a payout that is missing after checkout, and why.
abbrev payout_reminder : PortalPaymentRule → ℤ → Bool × BalanceReason
payout_reminder rule days_since_departure = elim rule.host_due_by_days_after_departure [
  | none ↦ (true, payout_due_after_checkout)
  | some due_by ↦
      if ltb_ℤ due_by days_since_departure
      then (true, payout_overdue_after_checkout)
      else (false, payout_awaiting_after_checkout)
]

-- The branch of a portal that pays out after checkout, as HomeToGo; `days` is the value of
-- `treatAsPaidUntilDaysAfterDeparture`.
evaluate_payout : PortalPaymentRule → ℤ → ℤ → ℤ → ℤ → PortalBalanceEvaluation
unfolding payout_percent
evaluate_payout rule days total matched days_since_departure =
    let assumed = share total (clamp_percent rule.portal_assumed_paid_percent) in
    let required = share total (clamp_percent (payout_percent rule.host_due_percent)) in
    let net_floor = share total 70 in
    let missing = round_money (pos required -ℤ matched) in
    let (remind, reason) = payout_reminder rule days_since_departure in
    if ltb_ℤ days_since_departure (pos 0)
    then quiet rule matched 0 required (pos assumed) true payout_unverified_before_checkout
    else if leb_ℤ days_since_departure days
    then quiet rule matched 0 required (pos assumed) true payout_unverified_after_checkout
    else if leb_ℤ (pos net_floor) (matched +ℤ pos 100) && leb_ℤ matched (total +ℤ pos 100)
    then quiet rule matched 0 required (pos assumed) false portal_net_settlement_received
    else if leb missing 100
    then quiet rule matched 0 required (pos assumed) false payout_received
    else if rule.skip_unpaid_reminder
    then quiet rule matched missing required (pos assumed) false portal_skip_reminder
    else verdict rule matched missing required (pos assumed) false remind false reason

-- Who is asked for an outstanding host share, `days` before arrival: the office, the inbox, and why.
due_window : PortalPaymentRule → ℤ → Bool × Bool × BalanceReason
due_window rule days = elim rule.host_due_by_days_before_arrival [
  | none ↦
      if leb_ℤ days (pos 28)
      then (true, false, outstanding_default_28)
      else (false, false, BalanceReason.outstanding)
  | some due_by ↦
      if ltb_ℤ due_by days then (false, false, not_yet_due) else elim rule.overdue_grace_days [
        | some grace ↦
            if leb_ℤ days (due_by -ℤ grace)
            then (true, rule.auto_request_inbox, overdue)
            else (false, rule.auto_request_inbox, due_awaiting_payment)
        | none ↦ elim rule.treat_as_paid_until_days_before_arrival [
          | some until ↦ (true, rule.auto_request_inbox, provider_payout_missing)
          | none ↦ (true, rule.auto_request_inbox, host_share_due)
        ]
      ]
]

-- `until != null && days > until`
abbrev is_unverified_before : Option ℤ → ℤ → Bool
is_unverified_before none days = false
is_unverified_before (some until) days = ltb_ℤ until days

-- The branch of every other portal.
evaluate_host_share : PortalPaymentRule → ℤ → ℤ → ℤ → PortalBalanceEvaluation
evaluate_host_share rule total matched days =
    let assumed = share total (clamp_percent rule.portal_assumed_paid_percent) in
    let required = share total (clamp_percent rule.host_due_percent) in
    let missing = round_money (pos required -ℤ matched) in
    let (remind, inbox, reason) = due_window rule days in
    if is_unverified_before rule.treat_as_paid_until_days_before_arrival days
    then quiet rule matched 0 0 total true paid_unverified
    else if rule.skip_unpaid_reminder
    then quiet rule matched (if leb missing 100 then 0 else missing) required (pos assumed) false
        portal_skip_reminder
    else if leb missing 100
    then quiet rule matched 0 required (pos assumed) false host_share_covered
    else verdict rule matched missing required (pos assumed) false remind inbox reason

-- `isPaid === true`
abbrev is_true : Option Bool → Bool
is_true none = false
is_true (some b) = b

pub evaluate_portal_balance : PortalPaymentRule → BalanceParams → PortalBalanceEvaluation
evaluate_portal_balance rule p =
    let total = or_zero p.total_price in
    let matched = or_zero p.matched_paid in
    let days_since_departure = or_else p.days_since_departure (negsuc 0) in
    if is_true p.is_paid
    then quiet rule matched 0 0 total false hostaway_fully_paid
    else if leb_ℤ total (pos 0)
    then quiet rule matched 0 0 (pos 0) false no_total
    else elim rule.treat_as_paid_until_days_after_departure [
      | some days ↦ evaluate_payout rule days total matched days_since_departure
      | none ↦ evaluate_host_share rule total matched p.days_until_arrival
    ]
