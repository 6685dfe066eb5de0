-- ===== src/Portal/Matching/Laws.antt =====
-- What `matchPortalRule` returns: the first enabled rule that is recognised in the reservation's
-- texts, else the first enabled fallback.
use fonio_middleware.Base.{
  Bool, true, false, ◌&&◌, ◌≡◌, ◌≢◌, ◌↔◌, ◌⊎◌, Option, none, some, List, ◌++◌, All, IsFirst,
  find-keep, find-eq-some_iff, find-eq-none_iff, any_sound, arith,
}
use fonio_middleware.Base.Text.{Text, includes, includes_sound}
use fonio_middleware.Portal.Rule.{PortalPaymentRule}
use fonio_middleware.Portal.Defaults.{default_portal_payment_rules}
use fonio_middleware.Portal.Matching.{
  PortalMatchHints, match_portal_rule, recognises, build_match_haystack, parse_channel_matchers,
}

module _ (channel_name : Option Text) (rules : List PortalPaymentRule)
    (hints : PortalMatchHints) where
  -- An enabled rule that is recognised in the texts of the reservation.
  abbrev pub is_recognised : PortalPaymentRule → Bool
  is_recognised r = r.enabled && recognises (build_match_haystack channel_name hints) r

  abbrev pub is_enabled_fallback : PortalPaymentRule → Bool
  is_enabled_fallback r = r.enabled && r.is_fallback

  -- A rule is returned exactly if it is the first enabled one that is recognised, or none is
  -- recognised and it is the first enabled fallback.
  pub match_portal_rule-eq-some_iff :
      (r : PortalPaymentRule)
      → (match_portal_rule channel_name rules hints ≡ some r) ↔ (
          IsFirst is_recognised rules r
          ⊎ (All (λ x. is_recognised x ≡ false) rules × IsFirst is_enabled_fallback rules r))
  unfolding match_portal_rule
  match_portal_rule-eq-some_iff r =
      let haystack = build_match_haystack channel_name hints in
      ground (
        arith,
        find-keep (recognises haystack) (λ x. x.enabled) rules,
        find-keep (λ x. x.is_fallback) (λ x. x.enabled) rules,
        find-eq-some_iff is_recognised rules r,
        find-eq-none_iff is_recognised rules,
        find-eq-some_iff is_enabled_fallback rules r,
      )

  -- The text of a reservation in which a rule is recognised holds one of the rule's matchers.
  pub recognises_sound :
      (r : PortalPaymentRule)
      → recognises (build_match_haystack channel_name hints) r ≡ true
      → (m : Text) × (before : Text) × (behind : Text) × (build_match_haystack channel_name hints
          ≡ before ++ (m ++ behind))
        × (r.is_fallback ≡ false)
  unfolding recognises
  recognises_sound r h =
      let haystack = build_match_haystack channel_name hints in
      let (m, found) =
        any_sound (includes haystack) (parse_channel_matchers r.channel_matchers_json)
          (ground arith) in
      let (before, behind, e) = includes_sound haystack m found in
      (m, before, behind, e, ground arith)

-- With the rules that are shipped every reservation falls under some rule.
pub match_portal_rule-default :
    (channel_name : Option Text) (hints : PortalMatchHints)
    → match_portal_rule channel_name default_portal_payment_rules hints ≢ none
unfolding match_portal_rule recognises
match_portal_rule-default channel_name hints = ground arith
