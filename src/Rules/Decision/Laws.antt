-- ===== src/Rules/Decision/Laws.antt =====
-- When `RulesService.evaluate` approves by itself.
use fonio_middleware.Rules.Conditions.{
  late_checkout, early_checkin, add_pet, add_guest, cancellation, default_earliest_check_in,
  default_latest_check_out, default_standard_check_in, default_standard_check_out, time_or,
  get_requested_time, RequestType, no_conditions, RequestDetails, ApprovalConditions,
}
use fonio_middleware.Rules.Decision.{
  is_general, is_specific, deny, choose_rule, ApprovalRule, auto, check_add_pet, apply_rule,
  check_add_guest, check_type, default_for_request_type, evaluate, check_early_check_in,
  check_late_check_out, check_auto_conditions, RuleEvaluationContext,
}
use fonio_middleware.Base.{
  find-eq-none_iff, find-eq-some_iff, false, All, ◌⊎◌, IsFirst, ◌↔◌, List, ◌≢◌, inr, arith, inl,
  Option-cases, ◌<◌, ◌≤◌, some, or_else, ℕ, true, ◌≡◌, Option,
}
use fonio_middleware.Rules.Clock.{parse_time_to_minutes}
use fonio_middleware.Base.Int.{◌≤ℤ◌, pos}

-- What an approval without a person rests on, by the type of the request.
abbrev pub IsApprovable : RequestType → RuleEvaluationContext → ApprovalConditions → Type 0
IsApprovable cancellation context c = ⊥
IsApprovable add_guest context c =
    or_else context.requested_guests (or_else context.current_guests (pos 0))
    ≤ℤ or_else context.listing_capacity (pos 0)
IsApprovable add_pet context c =
    (context.listing_allows_pets ≡ some true) × (c.require_manual_for_pets ≢ some true)
IsApprovable early_checkin context c =
    (t : ℕ) × (standard : ℕ) × (earliest : ℕ) × (parse_time_to_minutes
        (get_requested_time context.request_details)
      ≡ some t)
    × (time_or default_standard_check_in c.standard_check_in_time ≡ some standard)
    × (time_or default_earliest_check_in c.earliest_allowed_check_in ≡ some earliest)
    × (earliest ≤ t)
    × (t < standard)
IsApprovable late_checkout context c =
    (t : ℕ) × (standard : ℕ) × (latest : ℕ) × (parse_time_to_minutes
        (get_requested_time context.request_details)
      ≡ some t)
    × (time_or default_standard_check_out c.standard_check_out_time ≡ some standard)
    × (time_or default_latest_check_out c.latest_allowed_check_out ≡ some latest)
    × (standard < t)
    × (t ≤ latest)
IsApprovable _ context c = Unit {0}

module _ (c : ApprovalConditions) (details : Option RequestDetails) where
  check_early_check_in_sound :
      (check_early_check_in c details).allowed ≡ true
      → (t : ℕ) × (standard : ℕ) × (earliest : ℕ) × (parse_time_to_minutes
            (get_requested_time details)
          ≡ some t)
        × (time_or default_standard_check_in c.standard_check_in_time ≡ some standard)
        × (time_or default_earliest_check_in c.earliest_allowed_check_in ≡ some earliest)
        × (earliest ≤ t)
        × (t < standard)
  unfolding check_early_check_in
  check_early_check_in_sound h =
      elim (Option-cases (parse_time_to_minutes (get_requested_time details))) [
        | inl e ↦ absurd (ground arith)
        | inr (t, e) ↦
            elim (Option-cases (time_or default_standard_check_in c.standard_check_in_time)) [
              | inl f ↦ absurd (ground arith)
              | inr (standard, f) ↦
                  elim (Option-cases
                    (time_or default_earliest_check_in c.earliest_allowed_check_in)) [
                      | inl g ↦ absurd (ground arith)
                      | inr (earliest, g) ↦
                          (t, standard, earliest, e, f, g, ground arith, ground arith)
                    ]
            ]
      ]

  check_late_check_out_sound :
      (check_late_check_out c details).allowed ≡ true
      → (t : ℕ) × (standard : ℕ) × (latest : ℕ) × (parse_time_to_minutes
            (get_requested_time details)
          ≡ some t)
        × (time_or default_standard_check_out c.standard_check_out_time ≡ some standard)
        × (time_or default_latest_check_out c.latest_allowed_check_out ≡ some latest)
        × (standard < t)
        × (t ≤ latest)
  unfolding check_late_check_out
  check_late_check_out_sound h =
      elim (Option-cases (parse_time_to_minutes (get_requested_time details))) [
        | inl e ↦ absurd (ground arith)
        | inr (t, e) ↦
            elim (Option-cases (time_or default_standard_check_out c.standard_check_out_time)) [
              | inl f ↦ absurd (ground arith)
              | inr (standard, f) ↦
                  elim (Option-cases
                    (time_or default_latest_check_out c.latest_allowed_check_out)) [
                      | inl g ↦ absurd (ground arith)
                      | inr (latest, g) ↦ (t, standard, latest, e, f, g, ground arith, ground arith)
                    ]
            ]
      ]

check_type_sound :
    (type : RequestType) (context : RuleEvaluationContext) (c : ApprovalConditions)
    → (check_type type context c).allowed ≡ true
    → IsApprovable type context c
unfolding check_type check_add_guest check_add_pet
check_type_sound cancellation context c h = cc
check_type_sound add_guest context c h = ground arith
check_type_sound add_pet context c h = (ground arith, ground arith)
check_type_sound early_checkin context c h = check_early_check_in_sound c context.request_details h
check_type_sound late_checkout context c h = check_late_check_out_sound c context.request_details h
check_type_sound _ context c h = tt

default-ne-auto : (context : RuleEvaluationContext) → (default_for_request_type context).mode ≢ auto
unfolding default_for_request_type
default-ne-auto context h = ground arith

apply_rule_auto :
    (context : RuleEvaluationContext) (r : ApprovalRule)
    → (apply_rule context r).mode ≡ auto
    → (r.mode ≡ auto)
      × ((apply_rule context r).rule_id ≡ some r.id)
      × ((check_auto_conditions context r.conditions).allowed ≡ true)
unfolding apply_rule
apply_rule_auto context r h = (ground arith, ground arith, ground arith)

-- A request is approved without a person only under a chosen rule of mode AUTO whose id is reported,
-- and only if what its type asks for holds: never a cancellation; guests within the capacity; a pet
-- where pets are allowed and no manual check is wanted; a check-in or check-out time inside the
-- rule's window.
pub evaluate-IsApprovable :
    (context : RuleEvaluationContext) (rules : List ApprovalRule)
    → (evaluate context rules).mode ≡ auto
    → (r : ApprovalRule) × (choose_rule context rules ≡ some r)
      × (r.mode ≡ auto)
      × ((evaluate context rules).rule_id ≡ some r.id)
      × IsApprovable context.request_type context (or_else r.conditions no_conditions)
unfolding evaluate check_auto_conditions
evaluate-IsApprovable context rules h = elim (Option-cases (choose_rule context rules)) [
  | inl nothing_found ↦ absurd (default-ne-auto context (rw (nothing_found, evaluate) at h))
  | inr (r, e) ↦
      let (mode, id, check) = apply_rule_auto context r (rw (e, evaluate) at h) in
      (r, e, mode, rw (e, evaluate) id, check_type_sound context.request_type context _ check)
]

-- A request is denied exactly if the chosen rule has the mode DENY.
evaluate_denies_iff :
    (context : RuleEvaluationContext) (rules : List ApprovalRule)
    → ((evaluate context rules).mode ≡ deny)
      ↔ ((r : ApprovalRule) × (choose_rule context rules ≡ some r) × (r.mode ≡ deny))
unfolding evaluate apply_rule default_for_request_type
evaluate_denies_iff context rules = elim (Option-cases (choose_rule context rules)) [
  | inl nothing_found ↦ (λ h. absurd (ground arith), λ q. absurd (ground arith))
  | inr (r, e) ↦ (λ h. (r, e, ground arith), λ q. ground arith)
]

-- The chosen rule is the first for the request's own listing; only if there is none is it the first
-- rule for every listing.
pub choose_rule-eq-some_iff :
    (context : RuleEvaluationContext) (rules : List ApprovalRule) (r : ApprovalRule)
    → (choose_rule context rules ≡ some r) ↔ (
        IsFirst (is_specific context) rules r
        ⊎ (All (λ x. is_specific context x ≡ false) rules × IsFirst is_general rules r))
unfolding choose_rule
choose_rule-eq-some_iff context rules r = ground (
  arith,
  find-eq-some_iff (is_specific context) rules r,
  find-eq-none_iff (is_specific context) rules,
  find-eq-some_iff is_general rules r,
)
