-- ===== src/Portal/Matching.antt =====
-- Which portal's rule a reservation falls under: `parseChannelMatchers`, `buildMatchHaystack` and
-- `matchPortalRule` of src/automation/portal-payment-rules.util.ts.
mod Laws
mod Tests
use fonio_middleware.Base.{
  Bool, true, false, not, ◌&&◌, Option, none, some, List, [], ◌∷◌, map, or_else, any, keep, find,
}
use fonio_middleware.Base.Text.{Text, to_lower, trim, is_empty, includes, join_space}
use fonio_middleware.Portal.Rule.{PortalPaymentRule, MatchersJson, malformed, not_array, array}

-- The columns of a reservation that a portal may be recognised by; null is `none`.
pub record PortalMatchHints : Type 0 where
  pub host_note : Option Text
  pub guest_note : Option Text
  pub comment : Option Text
  pub guest_email : Option Text
  pub external_booking_ref : Option Text

abbrev pub no_hints : PortalMatchHints
no_hints = record {
  host_note = none;
  guest_note = none;
  comment = none;
  guest_email = none;
  external_booking_ref = none;
}

-- `String(v ?? '').trim().toLowerCase()`
abbrev clean_matcher : Option Text → Text
clean_matcher v = to_lower (trim (or_else v []))

unfoldable pub parse_channel_matchers : MatchersJson → List Text
parse_channel_matchers malformed = []
parse_channel_matchers not_array = []
parse_channel_matchers (array items) = keep (λ m. not (is_empty m)) (map clean_matcher items)

unfoldable pub build_match_haystack : Option Text → PortalMatchHints → Text
build_match_haystack channel_name hints = to_lower (
    join_space (
      or_else channel_name []
      ∷ or_else hints.host_note []
      ∷ or_else hints.guest_note []
      ∷ or_else hints.comment []
      ∷ or_else hints.guest_email []
      ∷ or_else hints.external_booking_ref []
      ∷ []))

-- The test of the loop: not the fallback, and one of its matchers occurs in the haystack.
unfoldable pub recognises : Text → PortalPaymentRule → Bool
recognises haystack rule =
    not rule.is_fallback
    && any (includes haystack) (parse_channel_matchers rule.channel_matchers_json)

unfoldable pub match_portal_rule :
    Option Text → List PortalPaymentRule → PortalMatchHints → Option PortalPaymentRule
match_portal_rule channel_name rules hints =
    let haystack = build_match_haystack channel_name hints in
    let enabled = keep (λ r. r.enabled) rules in
    elim (find (recognises haystack) enabled) [
      | some rule ↦ some rule
      | none ↦ find (λ r. r.is_fallback) enabled
    ]
