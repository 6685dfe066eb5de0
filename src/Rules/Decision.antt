-- ===== src/Rules/Decision.antt =====
-- The decision on a request: `RulesService` of src/rules/rules.service.ts. The query that loads the
-- active rules of the request's type, the highest priority first, is the database's: its result is
-- an argument.
pub mod Laws
pub mod Sanitized
use fonio_middleware.Base.{
  ltb, leb, find, not, or_else, some, if◌then◌else◌, ℕ, true, none, List, Option, false, Bool,
}
use fonio_middleware.Rules.Conditions.{
  cancellation, add_guest, add_pet, early_checkin, late_checkout, default_earliest_check_in,
  default_latest_check_out, default_standard_check_in, default_standard_check_out, time_or,
  sanitize_conditions, no_conditions, get_requested_time, RequestType, text, RequestDetails,
  ApprovalConditions,
}
use fonio_middleware.Base.Int.{◌-ℤ◌, pos, ltb_ℤ, ℤ}
use fonio_middleware.Base.Text.{is_empty, text_eq, Text}
use fonio_middleware.Rules.Clock.{parse_time_to_minutes}

pub data ApprovalMode : Type 0 where
  auto manual deny : ApprovalMode

-- `none` is the null of a rule for every listing.
pub record ApprovalRule : Type 0 where
  pub id : ℕ
  pub listing_id : Option Text
  pub mode : ApprovalMode
  pub conditions : Option ApprovalConditions

pub record RuleEvaluationContext : Type 0 where
  pub listing_id : Option Text
  pub request_type : RequestType
  pub current_guests : Option ℤ
  pub requested_guests : Option ℤ
  pub pets_requested : Option Bool
  pub listing_capacity : Option ℤ
  pub listing_allows_pets : Option Bool
  pub request_details : Option RequestDetails

pub data DecisionReason : Type 0 where
  denied_by_rule manual_by_rule auto_approved cancellations_manual exceeds_capacity : DecisionReason
  more_than : ℤ → DecisionReason
  pets_not_allowed pets_manual conditions_met : DecisionReason
  check_in_time_required invalid_check_in_time not_early too_early early_ok : DecisionReason
  check_out_time_required invalid_check_out_time not_late too_late late_ok : DecisionReason
  default_cancellation default_times default_manual : DecisionReason

pub record AutoCheck : Type 0 where
  pub allowed : Bool
  pub reason : DecisionReason

pub record RuleEvaluationResult : Type 0 where
  pub mode : ApprovalMode
  pub rule_id : Option ℕ
  pub reason : DecisionReason

abbrev refuse : DecisionReason → AutoCheck
refuse r = record { allowed = false; reason = r }

abbrev allow : DecisionReason → AutoCheck
allow r = record { allowed = true; reason = r }

-- `!requestedRaw` holds of the empty text too.
abbrev given : Option Text → Bool
given none = false
given (some s) = not (is_empty s)

unfoldable pub check_early_check_in : ApprovalConditions → Option RequestDetails → AutoCheck
check_early_check_in c details =
    let raw = get_requested_time details in
    let times : AutoCheck = elim (parse_time_to_minutes raw) [
      | none ↦ refuse invalid_check_in_time
      | some requested ↦ elim (time_or default_standard_check_in c.standard_check_in_time) [
        | none ↦ refuse invalid_check_in_time
        | some standard ↦ elim (time_or default_earliest_check_in c.earliest_allowed_check_in) [
          | none ↦ refuse invalid_check_in_time
          | some earliest ↦
              if leb standard requested
              then refuse not_early
              else if ltb requested earliest
              then refuse too_early
              else allow early_ok
        ]
      ]
    ] in
    if given raw then times else refuse check_in_time_required

unfoldable pub check_late_check_out : ApprovalConditions → Option RequestDetails → AutoCheck
check_late_check_out c details =
    let raw = get_requested_time details in
    let times : AutoCheck = elim (parse_time_to_minutes raw) [
      | none ↦ refuse invalid_check_out_time
      | some requested ↦ elim (time_or default_standard_check_out c.standard_check_out_time) [
        | none ↦ refuse invalid_check_out_time
        | some standard ↦ elim (time_or default_latest_check_out c.latest_allowed_check_out) [
          | none ↦ refuse invalid_check_out_time
          | some latest ↦
              if leb requested standard
              then refuse not_late
              else if ltb latest requested
              then refuse too_late
              else allow late_ok
        ]
      ]
    ] in
    if given raw then times else refuse check_out_time_required

-- The test of `maxAdditionalGuests`, after that of the capacity.
abbrev check_limit : Option ℤ → ℤ → AutoCheck
check_limit none additional = allow conditions_met
check_limit (some limit) additional =
    if ltb_ℤ limit additional then refuse (more_than limit) else allow conditions_met

unfoldable pub check_add_guest : ApprovalConditions → RuleEvaluationContext → AutoCheck
check_add_guest c context =
    let capacity = or_else context.listing_capacity (pos 0) in
    let requested = or_else context.requested_guests (or_else context.current_guests (pos 0)) in
    if ltb_ℤ capacity requested
    then refuse exceeds_capacity
    else check_limit c.max_additional_guests (requested -ℤ or_else context.current_guests requested)

unfoldable pub check_add_pet : ApprovalConditions → RuleEvaluationContext → AutoCheck
check_add_pet c context =
    if not (or_else context.listing_allows_pets false)
    then refuse pets_not_allowed
    else if or_else c.require_manual_for_pets false
    then refuse pets_manual
    else allow conditions_met

-- `checkAutoConditions`, by the type of the request.
unfoldable pub check_type : RequestType → RuleEvaluationContext → ApprovalConditions → AutoCheck
check_type cancellation context c = refuse cancellations_manual
check_type add_guest context c = check_add_guest c context
check_type add_pet context c = check_add_pet c context
check_type early_checkin context c = check_early_check_in c context.request_details
check_type late_checkout context c = check_late_check_out c context.request_details
check_type _ context c = allow conditions_met

unfoldable pub check_auto_conditions : RuleEvaluationContext → Option ApprovalConditions → AutoCheck
check_auto_conditions context conditions =
    check_type context.request_type context (or_else conditions no_conditions)

unfoldable pub default_for_request_type : RuleEvaluationContext → RuleEvaluationResult
default_for_request_type context =
    let result = λ (r : DecisionReason).
      let x : RuleEvaluationResult = record { mode = manual; rule_id = none; reason = r } in x in
    elim context.request_type [
      | cancellation ↦ result default_cancellation
      | early_checkin ↦ result default_times
      | late_checkout ↦ result default_times
      | _ ↦ result default_manual
    ]

-- `r.listingId === context.listingId`, where null and undefined differ.
abbrev pub is_specific : RuleEvaluationContext → ApprovalRule → Bool
is_specific context r = elim context.listing_id [
  | none ↦ false
  | some listing ↦ elim r.listing_id [ none ↦ false | some l ↦ text_eq l listing ]
]

-- `!r.listingId`
abbrev pub is_general : ApprovalRule → Bool
is_general r = elim r.listing_id [ none ↦ true | some l ↦ is_empty l ]

unfoldable pub choose_rule : RuleEvaluationContext → List ApprovalRule → Option ApprovalRule
choose_rule context rules = elim (find (is_specific context) rules) [
  | some r ↦ some r
  | none ↦ find is_general rules
]

unfoldable pub apply_rule : RuleEvaluationContext → ApprovalRule → RuleEvaluationResult
apply_rule context r =
    let check = check_auto_conditions context r.conditions in
    let automatic : RuleEvaluationResult =
      if check.allowed
      then record { mode = auto; rule_id = some r.id; reason = auto_approved }
      else record { mode = manual; rule_id = some r.id; reason = check.reason } in
    elim r.mode [
      | deny ↦ record { mode = deny; rule_id = some r.id; reason = denied_by_rule }
      | manual ↦ record { mode = manual; rule_id = some r.id; reason = manual_by_rule }
      | auto ↦ automatic
    ]

unfoldable pub evaluate : RuleEvaluationContext → List ApprovalRule → RuleEvaluationResult
evaluate context rules = elim (choose_rule context rules) [
  | none ↦ default_for_request_type context
  | some r ↦ apply_rule context r
]

-- `sanitizeRuleConditions`; a text that names no request type is `none`.
unfoldable pub sanitize_rule_conditions :
    Option RequestType → ApprovalMode → Option ApprovalConditions → Option ApprovalConditions
sanitize_rule_conditions none mode conditions = none
sanitize_rule_conditions (some cancellation) mode conditions = none
sanitize_rule_conditions (some type) auto conditions = sanitize_conditions type conditions
sanitize_rule_conditions (some type) _ conditions = none
