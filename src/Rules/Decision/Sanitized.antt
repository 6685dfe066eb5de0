-- ===== src/Rules/Decision/Sanitized.antt =====
-- What cleaning the conditions does to the decision: `sanitizeConditions` against
-- `checkAutoConditions`.
use fonio_middleware.Base.{
  ap, true, false, ◌∙◌, if◌then◌else◌, or_else, inr, inl, ◌<◌, refl, Option-cases, ℕ, arith, some,
  none, ◌≢◌, ◌≡◌, Option,
}
use fonio_middleware.Rules.Conditions.{
  no_conditions, has_key, sanitize_conditions, clean_time, clean_limit, cancellation, late_checkout,
  early_checkin, default_latest_check_out, add_guest, default_standard_check_out, add_pet,
  default_earliest_check_in, default_standard_check_in, time_or, clean_conditions,
  ApprovalConditions, RequestType,
}
use fonio_middleware.Base.Text.{Text}
use fonio_middleware.Rules.Decision.{
  check_auto_conditions, AutoCheck, RuleEvaluationContext, check_late_check_out,
  check_early_check_in, check_add_guest, check_add_pet, check_type,
}
use fonio_middleware.Base.Int.{◌≤ℤ◌, ◌-ℤ◌, ◌<ℤ◌, pos, ℤ}
use fonio_middleware.Rules.Clock.{
  parse_time_to_minutes-format_minutes, parse_time_to_minutes-lt, format_minutes,
}

-- The conditions that cleaning keeps the meaning of: times that can be read, and a limit above 0.
abbrev pub IsClean : RequestType → ApprovalConditions → Type 0
IsClean add_guest c = (n : ℤ) → c.max_additional_guests ≡ some n → pos 0 <ℤ n
IsClean early_checkin c =
    (time_or default_standard_check_in c.standard_check_in_time ≢ none)
    × (time_or default_earliest_check_in c.earliest_allowed_check_in ≢ none)
IsClean late_checkout c =
    (time_or default_standard_check_out c.standard_check_out_time ≢ none)
    × (time_or default_latest_check_out c.latest_allowed_check_out ≢ none)
IsClean _ c = Unit {0}

time_or-format_minutes :
    (fallback : Text) (t : ℕ) → t < 1440 → time_or fallback (some (format_minutes t)) ≡ some t
unfolding time_or
time_or-format_minutes fallback t h = parse_time_to_minutes-format_minutes t h

time_or-lt : (fallback : Text) (v : Option Text) (t : ℕ) → time_or fallback v ≡ some t → t < 1440
unfolding time_or
time_or-lt fallback v t e = parse_time_to_minutes-lt _ t e

time_or-clean_time :
    (fallback : Text) (v : Option Text)
    → time_or fallback v ≢ none
    → time_or fallback (clean_time fallback v) ≡ time_or fallback v
time_or-clean_time fallback v h = elim (Option-cases (time_or fallback v)) [
  | inl e ↦ absurd (h e)
  | inr (t, e) ↦ rw e (time_or-format_minutes fallback t (time_or-lt fallback v t e))
]

clean_limit_keeps : (v : Option ℤ) → ((n : ℤ) → v ≡ some n → pos 0 <ℤ n) → clean_limit v ≡ v
clean_limit_keeps none h = refl
clean_limit_keeps (some n) h = ground (arith, h n refl)

-- Conditions with no key are stored as none, which is read as no conditions.
or_else_sanitized :
    (f : ApprovalConditions → AutoCheck) (out : ApprovalConditions)
    → f (or_else (if has_key out then some out else none) no_conditions) ≡ f out
or_else_sanitized f out = ap f (ground arith)

check_type-clean_conditions :
    (type : RequestType) (context : RuleEvaluationContext) (c : ApprovalConditions)
    → IsClean type c
    → check_type type context (clean_conditions type c) ≡ check_type type context c
unfolding check_type clean_conditions check_add_pet check_add_guest check_early_check_in
    check_late_check_out
check_type-clean_conditions add_pet context c h = ground arith
check_type-clean_conditions add_guest context c h = rw (clean_limit_keeps c.max_additional_guests h)
check_type-clean_conditions early_checkin context c h = ground (
  arith,
  time_or-clean_time default_standard_check_in c.standard_check_in_time h.0,
  time_or-clean_time default_earliest_check_in c.earliest_allowed_check_in h.1,
)
check_type-clean_conditions late_checkout context c h = ground (
  arith,
  time_or-clean_time default_standard_check_out c.standard_check_out_time h.0,
  time_or-clean_time default_latest_check_out c.latest_allowed_check_out h.1,
)
check_type-clean_conditions cancellation context c h = refl
check_type-clean_conditions _ context c h = refl

-- Cleaning the conditions of a rule when it is saved changes no decision, provided that their times
-- can be read and that the limit on guests, if there is one, is above 0.
pub check_auto_conditions-sanitize_conditions :
    (context : RuleEvaluationContext) (c : ApprovalConditions)
    → IsClean context.request_type c
    → check_auto_conditions context (sanitize_conditions context.request_type (some c))
      ≡ check_auto_conditions context (some c)
unfolding check_auto_conditions sanitize_conditions
check_auto_conditions-sanitize_conditions context c h =
    let type = context.request_type in
    or_else_sanitized (check_type type context) (clean_conditions type c)
    ∙ check_type-clean_conditions type context c h

-- A limit of no additional guests is lost by the cleaning: a request for more guests than there are,
-- within the capacity, was held back by the limit, and is approved once the rule has been saved.
pub sanitize_conditions_loses_limit :
    (context : RuleEvaluationContext) (c : ApprovalConditions) (current requested capacity : ℤ)
    → context.request_type ≡ add_guest
    → c.max_additional_guests ≡ some (pos 0)
    → context.current_guests ≡ some current
    → context.requested_guests ≡ some requested
    → context.listing_capacity ≡ some capacity
    → current <ℤ requested
    → requested ≤ℤ capacity
    → ((check_auto_conditions context (some c)).allowed ≡ false)
      × ((check_auto_conditions context (sanitize_conditions add_guest (some c))).allowed ≡ true)
unfolding check_auto_conditions sanitize_conditions clean_conditions check_type check_add_guest ◌-ℤ◌
sanitize_conditions_loses_limit context c current requested capacity t l e r k p q =
    (ground arith, ground arith)
