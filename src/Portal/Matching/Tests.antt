-- ===== src/Portal/Matching/Tests.antt =====
-- Runs of the rule matching on the rules that are shipped, and its theorems at concrete inputs.
use fonio_middleware.Portal.Matching.{
  [], ◌∷◌, no_hints, build_match_haystack, parse_channel_matchers, some, match_portal_rule,
  recognises,
}
use fonio_middleware.Base.Text.{join_space, includes, trim, lit}
use fonio_middleware.Portal.Defaults.{bookingcom, direct, default_portal_payment_rules}
use fonio_middleware.Base.{refl, All, ◌⊎◌, false, IsFirst, ◌↔◌, ◌≡◌}
use fonio_middleware.Portal.Matching.Laws.{
  match_portal_rule-eq-some_iff, is_enabled_fallback, is_recognised,
}

booking_channel :
    match_portal_rule (some (lit "Booking.com (XML)")) default_portal_payment_rules no_hints
    ≡ some bookingcom
unfolding match_portal_rule recognises parse_channel_matchers build_match_haystack trim includes
    join_space
booking_channel = refl

unknown_channel :
    match_portal_rule (some (lit "bookingengine")) default_portal_payment_rules no_hints
    ≡ some direct
unfolding match_portal_rule recognises parse_channel_matchers build_match_haystack trim includes
    join_space
unknown_channel = refl

match_portal_rule-eq-some_iff_example :
    (match_portal_rule (some (lit "x")) (direct ∷ []) no_hints ≡ some direct) ↔ (
      IsFirst (is_recognised (some (lit "x")) (direct ∷ []) no_hints) (direct ∷ []) direct
      ⊎ (All (λ r. is_recognised (some (lit "x")) (direct ∷ []) no_hints r ≡ false) (direct ∷ [])
          × IsFirst
              (is_enabled_fallback (some (lit "x")) (direct ∷ []) no_hints)
              (direct ∷ [])
              direct))
match_portal_rule-eq-some_iff_example =
    match_portal_rule-eq-some_iff (some (lit "x")) (direct ∷ []) no_hints direct
