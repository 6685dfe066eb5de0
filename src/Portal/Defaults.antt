-- ===== src/Portal/Defaults.antt =====
-- The rules that the middleware ships with: `automationDefaults` and
-- `DEFAULT_PORTAL_PAYMENT_RULES` of src/automation/portal-payment-rules.util.ts.
use fonio_middleware.Base.{Bool, true, false, Option, none, some, List, [], ◌∷◌, map}
use fonio_middleware.Base.Int.{ℤ, pos}
use fonio_middleware.Base.Text.{Text, lit}
use fonio_middleware.Portal.Rule.{PortalPaymentRule, array}

-- A rule with what `automationDefaults()` gives where nothing overrides it.
abbrev rule :
    Text
    → Text
    → List Text
    → Bool
    → ℤ
    → Option ℤ
    → ℤ
    → Option ℤ
    → Option ℤ
    → Bool
    → Bool
    → PortalPaymentRule
rule key name matchers fallback assumed until due_percent due_by grace inbox skip = record {
  portal_key = key;
  display_name = name;
  channel_matchers_json = array (map some matchers);
  is_fallback = fallback;
  enabled = true;
  portal_assumed_paid_percent = assumed;
  treat_as_paid_until_days_before_arrival = until;
  treat_as_paid_until_days_after_departure = none;
  host_due_percent = due_percent;
  host_due_by_days_before_arrival = due_by;
  host_due_by_days_after_departure = none;
  overdue_grace_days = grace;
  auto_request_inbox = inbox;
  skip_unpaid_reminder = skip;
  deposit_due_percent = none;
  deposit_due_days_after_booking = none;
  auto_request_on_import = false;
  payment_deadline_days = none;
  auto_send_guest_payment_link = false;
  guest_reminder_days_before_deadline = none;
  auto_cancel_if_unpaid = false;
}

-- A portal that collects the whole price and that the office is never reminded of.
abbrev collecting : Text → Text → List Text → PortalPaymentRule
collecting key name matchers =
    rule key name matchers false (pos 100) none (pos 0) none none false true

abbrev pub airbnb : PortalPaymentRule
airbnb = collecting (lit "airbnb") (lit "Airbnb") (lit "airbnb" ∷ [])

abbrev pub bookingcom : PortalPaymentRule
bookingcom =
    collecting (lit "bookingcom") (lit "Booking.com") (lit "bookingcom" ∷ lit "booking.com" ∷ [])

abbrev pub vrbo : PortalPaymentRule
vrbo = collecting (lit "vrbo") (lit "Vrbo / HomeAway") (lit "vrbo" ∷ lit "homeaway" ∷ [])

abbrev pub expedia : PortalPaymentRule
expedia = collecting (lit "expedia") (lit "Expedia") (lit "expedia" ∷ [])

abbrev pub agoda : PortalPaymentRule
agoda = collecting (lit "agoda") (lit "Agoda") (lit "agoda" ∷ [])

abbrev pub hometogo : PortalPaymentRule
hometogo =
    let base =
      rule (lit "hometogo") (lit "HomeToGo") (lit "hometogo" ∷ lit "home to go" ∷ []) false
        (pos 100) none (pos 100) none none false false in
    record base {
      treat_as_paid_until_days_after_departure = some (pos 7);
      host_due_by_days_after_departure = some (pos 14);
    }

abbrev pub interhome : PortalPaymentRule
interhome =
    rule (lit "interhome") (lit "Interhome") (lit "interhome" ∷ []) false (pos 100) (some (pos 7))
      (pos 100) (some (pos 3)) none false false

abbrev pub atraveo : PortalPaymentRule
atraveo =
    rule (lit "atraveo") (lit "Atraveo") (lit "atraveo" ∷ []) false (pos 100) (some (pos 7))
      (pos 100) (some (pos 3)) none false false

abbrev pub travanto : PortalPaymentRule
travanto =
    rule (lit "travanto") (lit "Travanto") (lit "travanto" ∷ []) false (pos 30) none (pos 70)
      (some (pos 21)) (some (pos 7)) true false

abbrev pub check24 : PortalPaymentRule
check24 =
    let base =
      rule (lit "check24") (lit "CHECK24") (lit "check24" ∷ lit "@check24.de" ∷ lit "[check24" ∷ [])
        false (pos 0) none (pos 100) (some (pos 28)) none false false in
    record base {
      auto_request_on_import = true;
      auto_send_guest_payment_link = true;
      payment_deadline_days = some (pos 7);
      guest_reminder_days_before_deadline = some (pos 2);
      auto_cancel_if_unpaid = true;
    }

abbrev pub direct : PortalPaymentRule
direct =
    let base =
      rule (lit "direct") (lit "Direct / other") [] true (pos 0) none (pos 70) (some (pos 28)) none
        false false in
    record base {
      deposit_due_percent = some (pos 30);
      deposit_due_days_after_booking = some (pos 7);
      auto_send_guest_payment_link = true;
    }

-- In the order of the source, which is also that of `sortOrder`.
abbrev pub default_portal_payment_rules : List PortalPaymentRule
default_portal_payment_rules =
    airbnb ∷ bookingcom ∷ vrbo ∷ expedia ∷ agoda ∷ hometogo ∷ interhome ∷ atraveo ∷ travanto
    ∷ check24 ∷ direct ∷ []
