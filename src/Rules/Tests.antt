-- ===== src/Rules/Tests.antt =====
-- Runs of the approval rules, and the theorems at concrete inputs.
use fonio_middleware.Rules.Decision.{
  is_general, is_specific, check_early_check_in, deny, check_type, check_auto_conditions, auto,
  apply_rule, evaluate, choose_rule, RuleEvaluationContext, ApprovalRule,
}
use fonio_middleware.Rules.Conditions.{
  get_requested_time, sanitize_conditions, add_guest, text, early_checkin, time_or, no_conditions,
}
use fonio_middleware.Rules.Clock.{
  parse_time_to_minutes-format_minutes, format_minutes, parse_time_to_minutes,
}
use fonio_middleware.Base.{
  All, ◌⊎◌, true, or_else, arith, IsFirst, ◌↔◌, refl, false, ◌≡◌, [], ◌∷◌, some, none,
}
use fonio_middleware.Base.Text.{lit, trim}
use fonio_middleware.Base.Int.{pos}
use fonio_middleware.Rules.Decision.Laws.{
  choose_rule-eq-some_iff, evaluate-IsApprovable, IsApprovable,
}
use fonio_middleware.Rules.Decision.Sanitized.{
  sanitize_conditions_loses_limit, check_auto_conditions-sanitize_conditions,
}

clock : parse_time_to_minutes (some (lit " 9:05 ")) ≡ some 545
unfolding parse_time_to_minutes trim
clock = refl

abbrev guests : RuleEvaluationContext
guests = record {
  listing_id = some (lit "a");
  request_type = add_guest;
  current_guests = some (pos 2);
  requested_guests = some (pos 3);
  pets_requested = none;
  listing_capacity = some (pos 4);
  listing_allows_pets = none;
  request_details = none;
}

abbrev early : RuleEvaluationContext
early = record guests {
  request_type = early_checkin;
  request_details = some (record {
    requested_time = some (text (lit "15:00"));
    check_in_time = none;
    check_out_time = none;
    time = none;
  });
}

abbrev general : ApprovalRule
general = record { id = 7; listing_id = none; mode = auto; conditions = none }

abbrev forbidding : ApprovalRule
forbidding = record { id = 8; listing_id = some (lit "a"); mode = deny; conditions = none }

early_approved : (evaluate early (general ∷ [])).mode ≡ auto
unfolding evaluate choose_rule apply_rule check_auto_conditions check_type check_early_check_in
    get_requested_time time_or parse_time_to_minutes trim
early_approved = refl

evaluate-IsApprovable_example :
    (r : ApprovalRule) × (choose_rule early (general ∷ []) ≡ some r)
    × (r.mode ≡ auto)
    × ((evaluate early (general ∷ [])).rule_id ≡ some r.id)
    × IsApprovable early_checkin early (or_else r.conditions no_conditions)
evaluate-IsApprovable_example = evaluate-IsApprovable early (general ∷ []) early_approved

choose_rule-eq-some_iff_example :
    (choose_rule guests (general ∷ forbidding ∷ []) ≡ some forbidding) ↔ (
      IsFirst (is_specific guests) (general ∷ forbidding ∷ []) forbidding
      ⊎ (All (λ x. is_specific guests x ≡ false) (general ∷ forbidding ∷ [])
          × IsFirst is_general (general ∷ forbidding ∷ []) forbidding))
choose_rule-eq-some_iff_example =
    choose_rule-eq-some_iff guests (general ∷ forbidding ∷ []) forbidding

check_auto_conditions-sanitize_conditions_example :
    check_auto_conditions early (sanitize_conditions early_checkin (some no_conditions))
    ≡ check_auto_conditions early (some no_conditions)
unfolding time_or parse_time_to_minutes trim
check_auto_conditions-sanitize_conditions_example =
    check_auto_conditions-sanitize_conditions early no_conditions (λ e. cc, λ e. cc)

sanitize_conditions_loses_limit_example :
    let c = record no_conditions { max_additional_guests = some (pos 0) } in
    ((check_auto_conditions guests (some c)).allowed ≡ false)
    × ((check_auto_conditions guests (sanitize_conditions add_guest (some c))).allowed ≡ true)
sanitize_conditions_loses_limit_example =
    sanitize_conditions_loses_limit guests
      (record no_conditions { max_additional_guests = some (pos 0) }) (pos 2) (pos 3) (pos 4) refl
      refl refl refl refl (omega arith) (omega arith)

parse_time_to_minutes-format_minutes_example :
    parse_time_to_minutes (some (format_minutes 545)) ≡ some 545
parse_time_to_minutes-format_minutes_example =
    parse_time_to_minutes-format_minutes 545 (omega arith)
