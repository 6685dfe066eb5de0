-- ===== src/Matching/Evidence.antt =====
-- What `match` of src/automation/payment-matcher.service.ts reads of a payment and of the scored
-- reservations, which of them stay, and in what order.
use fonio_middleware.Base.{
  map, ◌++◌, ◌==◌, ◌&&◌, not, [], ◌∷◌, ◌||◌, or_else, ltb, leb, keep, if◌then◌else◌, any, ℕ, Option,
  List, Bool, false, some, none,
}
use fonio_middleware.Base.Text.{trim, is_empty, join_space, includes, to_lower, lit, Text}
use fonio_middleware.Base.Int.{or_zero, ltb_ℤ, pos, ℤ, leb_ℤ}
use fonio_middleware.Base.Sort.{sort_with}

-- `PaymentMatchCandidate`; the text of a day is the number of that day, and amounts are whole cents.
pub record PaymentMatchCandidate : Type 0 where
  pub reservation_id : ℕ
  pub hostaway_id : ℕ
  pub guest_name : Option Text
  pub listing_name : Text
  pub arrival_date : ℕ
  pub departure_date : ℕ
  pub portal_collected : Bool
  pub total_price : Option ℤ
  pub balance_due : Option ℤ
  pub score : ℕ
  pub reasons : List Text

-- The payment, the two settings, the reservation numbers that were read in its text, and the
-- reservations as `scoreReservation` has scored them.
pub record Survey : Type 0 where
  pub payer_name : Option Text
  pub reference : Option Text
  pub amount : ℤ
  pub payout_senders : Option Text
  pub settlement_senders : Option Text
  pub ids_in_reference : List ℕ
  pub scored : List PaymentMatchCandidate

-- `split(',')`
unfoldable pub split_comma : Text → List Text
split_comma [] = [] ∷ []
split_comma (c ∷ s) =
    let rest = split_comma s in
    if c == b',' then [] ∷ rest else elim rest [ [] ↦ (c ∷ []) ∷ [] | w ∷ ws ↦ (c ∷ w) ∷ ws ]

-- `split(',').map((p) => p.trim().toLowerCase()).filter(Boolean)`
unfoldable pub patterns_of : Text → List Text
unfolding split_comma
patterns_of setting =
    keep (λ p. not (is_empty p)) (map (λ p. to_lower (trim p)) (split_comma setting))

-- The name of the payer, if it is a platform that pays out.
unfoldable pub detect_platform_payout : Survey → Option Text
detect_platform_payout s =
    let payer = or_else s.payer_name [] in
    if is_empty payer
    then none
    else if any (includes (to_lower payer)) (patterns_of (or_else s.payout_senders (lit "airbnb")))
    then some payer
    else none

abbrev pub default_settlement_senders : Text
default_settlement_senders =
    lit
      "hometogo,home to go,check24,booking.com,bookingcom,vrbo,homeaway,expedia,agoda,interhome,travanto,atraveo"

unfoldable pub detect_portal_settlement_payment : Survey → Bool
detect_portal_settlement_payment s =
    let hay = to_lower (or_else s.payer_name [] ++ (32 ∷ or_else s.reference [])) in
    not (is_empty (trim hay))
    && any (includes hay) (patterns_of (or_else s.settlement_senders default_settlement_senders))

-- `reservationIdsInReference.includes(id)`
unfoldable pub is_numbered : Survey → PaymentMatchCandidate → Bool
is_numbered s c = any (λ id. id == c.hostaway_id) s.ids_in_reference

-- `/external booking (ref|reference|code)/i.test(r)`
unfoldable pub is_external_ref : Text → Bool
is_external_ref r =
    includes (to_lower r) (lit "external booking ref")
    || includes (to_lower r) (lit "external booking code")

-- `strongLink`: the number or the code of the booking stands in the payment.
unfoldable pub is_linked : Survey → PaymentMatchCandidate → Bool
is_linked s c = is_numbered s c || any is_external_ref c.reasons

-- `reasons.join(' ').toLowerCase()`
unfoldable pub evidence : PaymentMatchCandidate → Text
evidence c = to_lower (join_space c.reasons)

unfoldable pub is_paid_up : PaymentMatchCandidate → Bool
is_paid_up c = elim c.balance_due [
  | none ↦ false
  | some due ↦ leb_ℤ due (pos 1) && ltb_ℤ (pos 0) (or_zero c.total_price)
]

unfoldable pub is_soft_guess : PaymentMatchCandidate → Bool
is_soft_guess c =
    leb c.score 10
    && includes (evidence c) (lit "soft amount guess")
    && not (
        any (includes (evidence c))
          (lit "guest" ∷ lit "email" ∷ lit "reservation #" ∷ lit "external booking" ∷ []))

-- A portal's transfer is for stays that a portal collects for, a guest's is for the others.
unfoldable pub fits_source : Survey → PaymentMatchCandidate → Bool
fits_source s c =
    if detect_portal_settlement_payment s
    then c.portal_collected || is_linked s c
    else not (c.portal_collected && not (is_linked s c))

-- The filter of `match`.
unfoldable pub stays_in : Survey → PaymentMatchCandidate → Bool
stays_in s c =
    ltb 0 c.score
    && not (is_paid_up c && not (is_linked s c))
    && not (is_soft_guess c)
    && fits_source s c

-- The comparison of `match` lets the first stand before the second.
unfoldable pub stands_before : Survey → PaymentMatchCandidate → PaymentMatchCandidate → Bool
stands_before s a b =
    if a.score == b.score
    then (if detect_portal_settlement_payment s
        then a.portal_collected || not b.portal_collected
        else b.portal_collected || not a.portal_collected)
    else ltb b.score a.score

unfoldable pub ranked : Survey → List PaymentMatchCandidate
ranked s = sort_with (stands_before s) (keep (stays_in s) s.scored)
