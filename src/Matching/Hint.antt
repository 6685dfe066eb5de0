-- ===== src/Matching/Hint.antt =====
-- The hint that a payment is a combined deposit for two bookings of one guest
-- (src/automation/payment-split-hint.util.ts: detectCombinedDepositHint, staysOverlapOrSame).
use fonio_middleware.Base.{
  ltb, not, keep, [], ◌∷◌, ◌&&◌, take, if◌then◌else◌, leb, Option, List, ℕ, Bool, some, none,
}
use fonio_middleware.Matching.Evidence.{PaymentMatchCandidate}
use fonio_middleware.Base.Text.{text_eq, is_empty, trim, to_lower, Text}
use fonio_middleware.Split.Names.{guests_likely_same}
use fonio_middleware.Split.Amounts.{Candidate, suggest_split_amounts}

-- `CombinedDepositHint`, less its texts.
pub record Hint : Type 0 where
  pub reservations : ℕ × ℕ
  pub suggested_amounts : ℕ × ℕ

unfoldable pub stays_overlap_or_same : PaymentMatchCandidate → PaymentMatchCandidate → Bool
stays_overlap_or_same a b =
    leb a.arrival_date b.departure_date && leb b.arrival_date a.departure_date

unfoldable pub same_listing : PaymentMatchCandidate → PaymentMatchCandidate → Bool
same_listing a b =
    let left = to_lower (trim a.listing_name) in
    let right = to_lower (trim b.listing_name) in
    not (is_empty left) && not (is_empty right) && text_eq left right

abbrev pub amounts_of : PaymentMatchCandidate → Candidate
amounts_of c = record { total_price = c.total_price; balance_due = c.balance_due }

module _ (nfd : Text → Text) where
  -- One round of the inner loop: the hint, or nothing at `continue`.
  unfoldable pub hint_of : ℕ → PaymentMatchCandidate → PaymentMatchCandidate → Option Hint
  hint_of payment a b =
      if not (guests_likely_same nfd a.guest_name b.guest_name)
      then none
      else if not (stays_overlap_or_same a b)
      then none
      else if same_listing a b
      then none
      else elim (suggest_split_amounts payment (amounts_of a) (amounts_of b)) [
        | none ↦ none
        | some parts ↦
            some
              (record { reservations = (a.hostaway_id, b.hostaway_id); suggested_amounts = parts })
      ]

  unfoldable pub first_with : ℕ → PaymentMatchCandidate → List PaymentMatchCandidate → Option Hint
  first_with payment a [] = none
  first_with payment a (b ∷ bs) =
      let later = first_with payment a bs in
      elim (hint_of payment a b) [ some h ↦ some h | none ↦ later ]

  unfoldable pub first_hint : ℕ → List PaymentMatchCandidate → Option Hint
  first_hint payment [] = none
  first_hint payment (a ∷ rest) =
      let later = first_hint payment rest in
      elim (first_with payment a rest) [ some h ↦ some h | none ↦ later ]

  unfoldable pub detect_combined_deposit_hint : ℕ → List PaymentMatchCandidate → Option Hint
  detect_combined_deposit_hint payment candidates =
      first_hint payment (take 8 (keep (λ c. ltb 0 c.hostaway_id) candidates))
