-- ===== src/Rules/Conditions.antt =====
-- The conditions of an approval rule and how they are cleaned when a rule is saved:
-- `sanitizeConditions` and `getRequestedTime` of src/rules/approval-conditions.ts.
use fonio_middleware.Base.{true, or_else, ◌||◌, if◌then◌else◌, is_some, ℕ, some, Option, none, Bool}
use fonio_middleware.Base.Text.{lit, Text}
use fonio_middleware.Base.Int.{pos, ltb_ℤ, ℤ}
use fonio_middleware.Rules.Clock.{format_minutes, parse_time_to_minutes}

pub data RequestType : Type 0 where
  add_guest add_pet cancellation modification early_checkin late_checkout : RequestType
  reservation_question other_request : RequestType

-- `ApprovalConditions`; `none` is a field that is left out, or null.
pub record ApprovalConditions : Type 0 where
  pub require_manual_for_pets : Option Bool
  pub max_additional_guests : Option ℤ
  pub standard_check_in_time : Option Text
  pub earliest_allowed_check_in : Option Text
  pub standard_check_out_time : Option Text
  pub latest_allowed_check_out : Option Text

abbrev pub no_conditions : ApprovalConditions
no_conditions = record {
  require_manual_for_pets = none;
  max_additional_guests = none;
  standard_check_in_time = none;
  earliest_allowed_check_in = none;
  standard_check_out_time = none;
  latest_allowed_check_out = none;
}

abbrev pub default_standard_check_in : Text
default_standard_check_in = lit "16:00"

abbrev pub default_standard_check_out : Text
default_standard_check_out = lit "11:00"

-- The fallbacks that stand in the calls as literals.
abbrev pub default_earliest_check_in : Text
default_earliest_check_in = lit "14:00"

abbrev pub default_latest_check_out : Text
default_latest_check_out = lit "13:00"

-- `parseTimeToMinutes(value ?? fallback)`
unfoldable pub time_or : Text → Option Text → Option ℕ
time_or fallback value = parse_time_to_minutes (some (or_else value fallback))

abbrev pub format_time : Option ℕ → Option Text
format_time none = none
format_time (some t) = some (format_minutes t)

-- A time is written again only if it was read.
abbrev pub clean_time : Text → Option Text → Option Text
clean_time fallback value = format_time (time_or fallback value)

-- The limit is kept only if it is positive. The numbers are whole, so `Math.floor` has nothing to do.
abbrev pub clean_limit : Option ℤ → Option ℤ
clean_limit none = none
clean_limit (some n) = if ltb_ℤ (pos 0) n then some n else none

abbrev clean_flag : Option Bool → Option Bool
clean_flag (some true) = some true
clean_flag _ = none

-- The object `out` before the test that it has a key.
unfoldable pub clean_conditions : RequestType → ApprovalConditions → ApprovalConditions
clean_conditions add_pet c = record no_conditions {
  require_manual_for_pets = clean_flag c.require_manual_for_pets;
}
clean_conditions add_guest c = record no_conditions {
  max_additional_guests = clean_limit c.max_additional_guests;
}
clean_conditions early_checkin c = record no_conditions {
  standard_check_in_time = clean_time default_standard_check_in c.standard_check_in_time;
  earliest_allowed_check_in = clean_time default_earliest_check_in c.earliest_allowed_check_in;
}
clean_conditions late_checkout c = record no_conditions {
  standard_check_out_time = clean_time default_standard_check_out c.standard_check_out_time;
  latest_allowed_check_out = clean_time default_latest_check_out c.latest_allowed_check_out;
}
clean_conditions _ c = no_conditions

-- `Object.keys(out).length > 0`
abbrev pub has_key : ApprovalConditions → Bool
has_key c =
    is_some c.require_manual_for_pets
    || (is_some c.max_additional_guests
        || (is_some c.standard_check_in_time
            || (is_some c.earliest_allowed_check_in
                || (is_some c.standard_check_out_time || is_some c.latest_allowed_check_out))))

unfoldable pub sanitize_conditions :
    RequestType → Option ApprovalConditions → Option ApprovalConditions
sanitize_conditions type none = none
sanitize_conditions type (some c) =
    let out = clean_conditions type c in if has_key out then some out else none

-- A value of `Record<string, unknown>` that is neither undefined nor null.
pub data Detail : Type 0 where
  text : Text → Detail
  not_text : Detail

pub record RequestDetails : Type 0 where
  pub requested_time : Option Detail
  pub check_in_time : Option Detail
  pub check_out_time : Option Detail
  pub time : Option Detail

-- `a ?? b`
abbrev first_some : Option Detail → Option Detail → Option Detail
first_some none b = b
first_some (some a) b = some a

abbrev text_of : Option Detail → Option Text
text_of (some (text s)) = some s
text_of _ = none

unfoldable pub get_requested_time : Option RequestDetails → Option Text
get_requested_time none = none
get_requested_time (some d) =
    text_of (
      first_some d.requested_time (first_some d.check_in_time (first_some d.check_out_time d.time)))
