-- ===== src/Portal/Rule.antt =====
-- The rule of a portal (src/automation/portal-payment-rules.util.ts), and the rounding of money.
-- An amount is a whole number of cents; a percentage and a number of days is an integer, as the
-- columns of the database are.
use fonio_middleware.Base.{ℕ, ◌+◌, ◌*◌, ◌/◌, ◌≤◌, ◌≡◌, Bool, Option, List, ap, arith, min}
use fonio_middleware.Base.Int.{ℤ, pos, negsuc, pos_part}
use fonio_middleware.Base.Text.{Text}

-- What `JSON.parse` makes of the column `channelMatchersJson`: it throws, or the value is no array,
-- or it is an array, whose items are shown as `String(v)`, with `none` for null.
pub data MatchersJson : Type 0 where
  malformed not_array : MatchersJson
  array : List (Option Text) → MatchersJson

pub record PortalPaymentRule : Type 0 where
  pub portal_key : Text
  pub display_name : Text
  pub channel_matchers_json : MatchersJson
  pub is_fallback : Bool
  pub enabled : Bool
  pub portal_assumed_paid_percent : ℤ
  pub treat_as_paid_until_days_before_arrival : Option ℤ
  pub treat_as_paid_until_days_after_departure : Option ℤ
  pub host_due_percent : ℤ
  pub host_due_by_days_before_arrival : Option ℤ
  pub host_due_by_days_after_departure : Option ℤ
  pub overdue_grace_days : Option ℤ
  pub auto_request_inbox : Bool
  pub skip_unpaid_reminder : Bool
  pub deposit_due_percent : Option ℤ
  pub deposit_due_days_after_booking : Option ℤ
  pub auto_request_on_import : Bool
  pub payment_deadline_days : Option ℤ
  pub auto_send_guest_payment_link : Bool
  pub guest_reminder_days_before_deadline : Option ℤ
  pub auto_cancel_if_unpaid : Bool

-- `roundMoney` of a whole number of cents: negative amounts become 0.
abbrev pub round_money : ℤ → ℕ
round_money = pos_part

-- `clampPercent`: into 0..100. The columns are integers, so `Math.round` has nothing to do.
unfoldable pub clamp_percent : ℤ → ℕ
clamp_percent (pos n) = min 100 n
clamp_percent (negsuc n) = 0

-- `roundMoney((total * percent) / 100)`: the nearest cent, a half upwards, and 0 below 0.
unfoldable pub share : ℤ → ℕ → ℕ
share (pos total) percent = (total * percent + 50) / 100
share (negsuc n) percent = 0

pub clamp_percent-le : (p : ℤ) → clamp_percent p ≤ 100
unfolding clamp_percent
clamp_percent-le (pos n) = omega arith
clamp_percent-le (negsuc n) = omega arith

-- A share of at most 100% is at most the total.
pub share-le : (total : ℤ) (percent : ℕ) → percent ≤ 100 → share total percent ≤ pos_part total
unfolding share
share-le (pos t) p h = grind arith
share-le (negsuc t) p h = omega arith

-- The whole of a total is the total.
pub share-hundred : (total : ℤ) → share total 100 ≡ pos_part total
unfolding share
share-hundred (pos t) = omega arith
share-hundred (negsuc t) = omega arith

-- Two shares that make up 100% differ from the total by at most a cent of rounding.
pub share_complement :
    (total : ℤ) (p q : ℕ)
    → p + q ≡ 100
    → (pos_part total ≤ share total p + share total q)
      × (share total p + share total q ≤ pos_part total + 1)
unfolding share
share_complement (pos t) p q h = let e = ap (λ (n : ℕ). t * n) h in (omega arith, omega arith)
share_complement (negsuc t) p q h = omega arith
