-- ===== src/Payments/Review.antt =====
-- src/automation/payment-reconciliation.service.ts: `confirmReview` and `skipReview`.
use fonio_middleware.Base.{
  ◌%◌, ◌+◌, ◌/◌, ltb, length, not, ◌&&◌, ◌||◌, ◌==◌, zero, map, ◌++◌, suc, any, [], ◌∷◌, none,
  if◌then◌else◌, false, some, Bool, Option, List, ℕ,
}
use fonio_middleware.Payments.Program.{modify, err, pure, ok, catch, Result, Program, ◌>>=◌}
use fonio_middleware.Payments.Desk.{
  inquiry_booking, split_not_equal, not_in_review, skipped, line_too_small, update_payment,
  reservation_twice, reservation_not_found, payment_not_found, no_reservation_selected,
  line_without_reservation, internal, on_books, find_payment, manually_applied, DeskError, Desk,
  ExternalPayment, Allocation,
}
use fonio_middleware.Payments.Apply.{
  is_fonio_offer_reservation, is_inquiry_reservation_status, apply_to_reservation,
  cancel_guest_charge, ApplyParams, External,
}
use fonio_middleware.Payments.Books.{
  total_of, plan_applied, without_charge, is_listing_offline, by_hostaway_id, by_id, Books,
  Reservation,
}
use fonio_middleware.Base.Int.{◌-ℤ◌, pos, ltb_ℤ, ℤ}
use fonio_middleware.Base.Text.{trim, lit, is_empty, Text}
use fonio_middleware.Payments.Filing.{looks_like_archived_listing_api_error, is_pending}

-- A line of the reviewer; the reservation is its Hostaway id.
pub record Line : Type 0 where
  pub reservation_hostaway_id : Option ℕ
  pub amount : ℤ
  pub note : Option Text

-- A line that was applied.
pub record AppliedLine : Type 0 where
  pub reservation_id : ℕ
  pub line_hostaway_id : ℕ
  pub amount : ℤ
  pub charge : Option ℕ

-- A line with its reservation.
pub record Target : Type 0 where
  pub reservation : Reservation
  pub amount : ℤ
  pub note : Option Text

-- `lines`: the allocations, or one line with the whole amount.
unfoldable pub lines_of : ExternalPayment → List Line → Option ℕ → Option Text → List Line
lines_of p [] reservation remark =
    record { reservation_hostaway_id = reservation; amount = p.amount; note = remark } ∷ []
lines_of p (l ∷ ls) reservation remark = l ∷ ls

-- A number that is not 0.
abbrev positive_id : Option ℕ → Option ℕ
positive_id none = none
positive_id (some zero) = none
positive_id (some (suc n)) = some (suc n)

-- The reservation that the payment was matched with stands in for the one that a single line lacks.
unfoldable pub fall_back : ExternalPayment → List Line → Books → Result DeskError (List Line)
fall_back p (l ∷ []) b = elim (positive_id l.reservation_hostaway_id) [
  | some id ↦ ok (l ∷ [])
  | none ↦ elim p.matched_reservation_id [
    | none ↦ err no_reservation_selected
    | some matched ↦ elim (by_id matched b) [
      | none ↦ err reservation_not_found
      | some r ↦ ok (record l { reservation_hostaway_id = some r.hostaway_id } ∷ [])
    ]
  ]
]
fall_back p ls b = ok ls

-- `line.note?.trim() || note`
abbrev note_of : Option Text → Option Text → Option Text
note_of none remark = remark
note_of (some t) remark = if is_empty (trim t) then remark else some (trim t)

-- The test of a line: a reservation and at least one cent.
unfoldable pub check_lines : Option Text → List Line → Result DeskError (List (ℕ × Line))
check_lines remark [] = ok []
check_lines remark (l ∷ ls) = elim (positive_id l.reservation_hostaway_id) [
  | none ↦ err line_without_reservation
  | some id ↦ if ltb_ℤ l.amount (pos 1) then err line_too_small else elim (check_lines remark ls) [
    | ok rest ↦ ok ((id, record l { note = note_of l.note remark }) ∷ rest)
    | err e ↦ err e
  ]
]

-- `uniqueIds.size !== normalized.length`
unfoldable pub has_twice : List (ℕ × Line) → Bool
has_twice [] = false
has_twice ((id, l) ∷ ls) = any (λ other. other.0 == id) ls || has_twice ls

-- `Math.abs(sum - payment.amount) > 0.01`
unfoldable pub differs_by_cents : ℤ → ℤ → Bool
differs_by_cents a b = ltb_ℤ (pos 1) (a -ℤ b) || ltb_ℤ (pos 1) (b -ℤ a)

-- The reservations of the lines, of which none is an inquiry that is no offer of Fonio.
unfoldable pub targets : List (ℕ × Line) → Books → Result DeskError (List Target)
targets [] b = ok []
targets ((id, l) ∷ ls) b = elim (by_hostaway_id id b) [
  | none ↦ err reservation_not_found
  | some r ↦
      if is_inquiry_reservation_status r.status && not (is_fonio_offer_reservation r)
      then err inquiry_booking
      else elim (targets ls b) [
        | ok rest ↦ ok (record { reservation = r; amount = l.amount; note = l.note } ∷ rest)
        | err e ↦ err e
      ]
]

abbrev then_result :
    {A B : Type 0} → Result DeskError A → (A → Result DeskError B) → Result DeskError B
then_result (ok a) f = f a
then_result (err e) f = err e

-- The tests of the lines together.
unfoldable pub checked_targets :
    ExternalPayment → List (ℕ × Line) → Books → Result DeskError (List Target)
checked_targets p checked b =
    if has_twice checked
    then err reservation_twice
    else if differs_by_cents (total_of (map (λ l. l.1.amount) checked)) p.amount
    then err split_not_equal
    else targets checked b

-- All tests of `confirmReview` before the first line is applied.
unfoldable pub plan_lines :
    ExternalPayment → List Line → Option ℕ → Option Text → Books → Result DeskError (List Target)
plan_lines p allocations reservation remark b =
    then_result (fall_back p (lines_of p allocations reservation remark) b)
      λ ls. then_result (check_lines remark ls) λ checked. checked_targets p checked b

abbrev pub allocation_row : AppliedLine → Allocation
allocation_row l = record {
  reservation_id = l.reservation_id;
  amount = l.amount;
  charge = l.charge;
}

unfoldable pub confirmed_row : List AppliedLine → ExternalPayment → ExternalPayment
confirmed_row done q = record q {
  status = manually_applied;
  matched_reservation_id = elim done [ [] ↦ none | l ∷ ls ↦ some l.reservation_id ];
  hostaway_charge_id = elim done [ [] ↦ none | l ∷ ls ↦ l.charge ];
  error = none;
  allocations = q.allocations ++ map allocation_row done;
}

-- `String(n)`, on fuel: a number has fewer digits than it counts.
decimal_from : ℕ → ℕ → Text → Text
decimal_from zero n rest = rest
decimal_from (suc fuel) n rest =
    let more = decimal_from fuel (n / 10) ((b'0' + n % 10) ∷ rest) in
    if ltb n 10 then (b'0' + n) ∷ rest else more

unfoldable pub decimal : ℕ → Text
unfolding decimal_from
decimal n = decimal_from (suc n) n []

-- `line.note || (several ? part of the split : undefined)`, for the line after `before` others.
unfoldable pub line_description : ℕ → ℕ → Option Text → Option Text
line_description before count line_note =
    let part : Option Text =
      if ltb 1 count
      then some (lit "Teilzahlung " ++ (decimal (before + 1) ++ (lit "/" ++ decimal count)))
      else none in
    elim line_note [ none ↦ part | some t ↦ if is_empty t then part else some t ]

module _ (env : External) where
  abbrev pub applied_line : Target → Option ℕ → AppliedLine
  applied_line t charge = record {
    reservation_id = t.reservation.id;
    line_hostaway_id = t.reservation.hostaway_id;
    amount = t.amount;
    charge = charge;
  }

  abbrev pub line_params : ExternalPayment → ℕ → ℕ → Target → ApplyParams
  line_params p before count t = record {
    reservation_hostaway_id = t.reservation.hostaway_id;
    amount = t.amount;
    source = p.source;
    reference = p.reference;
    description_override = line_description before count t.note;
  }

  -- `isListingOffline(...) || looksLikeArchivedListingApiError(...)` after a line has failed.
  abbrev pub line_is_offline : Target → Text → Books → Bool
  line_is_offline t message b =
      elim (by_id t.reservation.id b) [ none ↦ false | some r ↦ is_listing_offline r.listing ]
      || looks_like_archived_listing_api_error message

  -- The loop over the lines, with those that are applied; an error keeps them for the rollback.
  unfoldable pub apply_lines :
      ExternalPayment
      → List Target
      → List AppliedLine
      → Program Books (Text × List AppliedLine) (List AppliedLine)
  apply_lines p [] done = pure done
  apply_lines p (t ∷ ts) done =
      let go_on = λ (charge : Option ℕ). apply_lines p ts (done ++ applied_line t charge ∷ []) in
      catch
        (apply_to_reservation env (line_params p (length done) (length done + length (t ∷ ts)) t))
        (λ message b.
          if line_is_offline t message b
          then go_on none (plan_applied env.today t.reservation.id t.amount b)
          else (err (message, done), b))
        (λ applied. go_on applied.applied_charge)

  -- A charge that was made is cancelled, whatever Hostaway answers, and its row deleted.
  abbrev pub take_back : ℕ → ℕ → Books → Books
  take_back hostaway_id id b =
      let after = (cancel_guest_charge env hostaway_id id b).1 in
      record after { notified = without_charge id after.notified }

  unfoldable pub roll_back : List AppliedLine → Books → Books
  roll_back [] b = b
  roll_back (l ∷ ls) b = elim l.charge [
    | none ↦ roll_back ls b
    | some id ↦ roll_back ls (take_back l.line_hostaway_id id b)
  ]

  -- The lines with the rollback.
  unfoldable pub apply_all :
      ExternalPayment → List Target → Program Books DeskError (List AppliedLine)
  apply_all p ts =
      catch (apply_lines p ts []) (λ failure b. (err (internal failure.0), roll_back failure.1 b))
        pure

  unfoldable pub confirm_pending : ExternalPayment → List Target → Program Desk DeskError (Unit {0})
  confirm_pending p ts = do
    done ← on_books (apply_all p ts)
    modify (update_payment p.id (confirmed_row done))

  unfoldable pub confirm_review :
      ℕ → List Line → Option ℕ → Option Text → Program Desk DeskError (Unit {0})
  confirm_review id allocations reservation remark d = elim (find_payment id d) [
    | none ↦ (err payment_not_found, d)
    | some p ↦
        if is_pending p.status
        then elim (plan_lines p allocations reservation remark d.books) [
          | ok ts ↦ confirm_pending p ts d
          | err e ↦ (err e, d)
        ]
        else (err not_in_review, d)
  ]

unfoldable pub skip_review : ℕ → Program Desk DeskError (Unit {0})
skip_review id d = elim (find_payment id d) [
  | none ↦ (err payment_not_found, d)
  | some p ↦ (ok tt, update_payment id (λ q. record q { status = skipped }) d)
]
