-- ===== src/Payments/Tests.antt =====
-- Runs of the payment services, and the theorems at concrete inputs.
use fonio_middleware.Base.{
  ◌∙◌, ap, ◌++◌, ◌-◌, some, refl, ltb, false, ◌≡◌, ◌∷◌, ◌+◌, true, none, length, if◌then◌else◌, [],
  List, ℕ, arith,
}
use fonio_middleware.Payments.Taken.{TakesAll, IsBooked, is_offline_stay}
use fonio_middleware.Payments.Desk.{
  refund, unambiguous, find_payment, auto_applied, received, pending_review, Match, internal,
  Matcher, ExternalPaymentStatus, ExternalPayment, Best, Desk,
}
use fonio_middleware.Payments.Consistency.{AllConsistent}
use fonio_middleware.Payments.Books.{plan_applied, live, is_listing_offline, Reservation, Books}
use fonio_middleware.Payments.Apply.{
  cancel_guest_charge, is_partial, is_fonio_offer_reservation, confirm_fonio_inquiry,
  record_notified_charge, settled, is_inquiry_reservation_status, notify_payment_received,
  create_offline_charge, charge_and_notify, apply_online, qonto, apply_to_reservation, External,
}
use fonio_middleware.Payments.Undoing.{undo_application-IsOpenWith, IsOpenWith}
use fonio_middleware.Payments.Rollback.{confirm_review_rolls_back, IsReliable}
use fonio_middleware.Payments.Review.{
  roll_back, decimal, line_description, apply_lines, apply_all, confirm_pending, targets,
  differs_by_cents, has_twice, checked_targets, check_lines, lines_of, fall_back, skip_review,
  plan_lines, Line, confirm_review,
}
use fonio_middleware.Payments.Filing.{
  allocation_of, applied_row, prior_apply_failed, looks_like_archived_listing_api_error,
}
use fonio_middleware.Payments.Reconcile.{ingest_and_reconcile, auto_params, reconcile}
use fonio_middleware.Payments.Outcome.{
  skip_review_rebooks, reconcile_applies, skipped_row, IsCertain,
}
use fonio_middleware.Base.Text.{trim, starts_with, Text, lit, includes}
use fonio_middleware.Payments.Program.{err, Result, ok}
use fonio_middleware.Base.Int.{◌+ℤ◌, ◌-ℤ◌, ◌<ℤ◌, pos, ltb_ℤ}
use fonio_middleware.Payments.Undo.{undo_application}
use fonio_middleware.Payments.Invariant.{ingests, here, next, Reach-AllConsistent}
use fonio_middleware.Payments.Table.{update_where}
use fonio_middleware.Plan.Ledger.{record_payment_applied}

abbrev room : ℕ → Reservation
room id = record {
  id = id;
  hostaway_id = id + 100;
  status = lit "new";
  host_note = none;
  guest_email = none;
  is_paid = none;
  payment_phase = none;
  total_price = some (pos 90_000);
  listing = some (record { status = live; is_bookable = true });
  payment_plan = none;
}

abbrev books : Books
books = record { reservations = room 1 ∷ room 2 ∷ []; notified = []; charges = []; calls = [] }

abbrev transfer : ExternalPaymentStatus → ExternalPayment
transfer status = record {
  id = 5;
  source = qonto;
  external_id = lit "tx-1";
  amount = pos 30_000;
  reference = none;
  status = status;
  match_decision = none;
  match_score = none;
  matched_reservation_id = none;
  hostaway_charge_id = none;
  error = none;
  allocations = [];
}

abbrev desk : ExternalPaymentStatus → Desk
desk status = record { payments = transfer status ∷ []; books = books }

-- Hostaway takes four calls, and then no charge any more.
abbrev tired : External
tired = record {
  create_answer =
      λ cs. if ltb 4 (length cs) then err (lit "status code 500") else ok (length cs - 1);
  inbox_answer = λ cs. ok none;
  cancel_answer = λ cs. ok tt;
  status_answer = λ cs. ok tt;
  portal_rules = [];
  today = record { year = 2026; month = 4; day = 1; clock = 0 };
}

-- Hostaway takes the charge 77 and no message.
abbrev mute : External
mute = record tired {
  create_answer = λ cs. ok 77;
  inbox_answer = λ cs. err (lit "status code 502");
}

abbrev first : Best
first = record { reservation_id = 1; hostaway_id = 101; score = 90 }

abbrev match_of : ExternalPayment → Match
match_of p = record {
  decision = if ltb_ℤ (pos 0) p.amount then unambiguous else refund;
  best = some first;
}

match_of_positive :
    (p : ExternalPayment) (b : Books) (m : Match)
    → ◌≡◌ {A = Result Text Match} (ok (match_of p)) (ok m)
    → m.decision ≡ unambiguous
    → pos 0 <ℤ p.amount
match_of_positive p b m e certain =
    let same : match_of p ≡ m = cc in
    let decided : (match_of p).decision ≡ unambiguous = ap (λ x. x.decision) same ∙ certain in
    ground (arith, decided)

abbrev to_first : Matcher
to_first = record { find_match = λ p b. ok (match_of p); unambiguous_positive = match_of_positive }

Reach-AllConsistent_example :
    AllConsistent
      (ingest_and_reconcile tired to_first 5
        (transfer received)
        (record { payments = []; books = books })).1
Reach-AllConsistent_example = Reach-AllConsistent (
    next here
      (ingests tired to_first 5 (transfer received) (record { payments = []; books = books })))

tired-IsReliable : IsReliable tired
tired-IsReliable = record {
  bound = length;
  bound_mono = λ c cs. omega arith;
  new_id = λ c cs id e. (ground (arith, e), ground (arith, e));
  cancels = λ cs. refl;
  takes_messages = λ cs e refused. cc;
}

abbrev halves : List Line
halves =
    record { reservation_hostaway_id = some 101; amount = pos 10_000; note = none }
    ∷ record { reservation_hostaway_id = some 102; amount = pos 20_000; note = none }
    ∷ []

refused :
    (confirm_review tired 5 halves none none (desk pending_review)).0
    ≡ err (internal (lit "status code 500"))
unfolding confirm_review plan_lines fall_back lines_of check_lines checked_targets has_twice
    differs_by_cents ◌-ℤ◌ ◌+ℤ◌ targets is_inquiry_reservation_status starts_with trim
    confirm_pending apply_all apply_lines apply_to_reservation is_listing_offline apply_online
    charge_and_notify create_offline_charge notify_payment_received settled record_notified_charge
    plan_applied update_where record_payment_applied confirm_fonio_inquiry
    is_fonio_offer_reservation includes is_partial line_description decimal
    looks_like_archived_listing_api_error roll_back cancel_guest_charge
refused = refl

confirm_review_rolls_back_example :
    let after : Desk = (confirm_review tired 5 halves none none (desk pending_review)).1 in
    (after.payments ≡ (desk pending_review).payments) × (after.books.charges ≡ [])
confirm_review_rolls_back_example =
    confirm_review_rolls_back tired tired-IsReliable 5 halves none none (desk pending_review)
      (internal (lit "status code 500")) tt refused

certain :
    IsCertain to_first 5
      (transfer pending_review)
      (match_of (transfer pending_review))
      first
      (desk pending_review)
unfolding prior_apply_failed
certain = record {
  found = refl;
  is_open = refl;
  matched = refl;
  certain = refl;
  candidate = refl;
  untried = refl;
}

taken : apply_to_reservation tired (auto_params (transfer pending_review) first) books ≡ (
  ok (record { applied_charge = some 0; is_offline = false }),
  (apply_to_reservation tired (auto_params (transfer pending_review) first) books).1,
)
unfolding apply_to_reservation is_listing_offline apply_online charge_and_notify
    create_offline_charge notify_payment_received
taken = refl

-- Hostaway takes every call.
abbrev willing : External
willing = record tired { create_answer = λ cs. ok (length cs) }

willing-TakesAll : TakesAll willing
willing-TakesAll = ((λ cs. (length cs, refl)), (λ cs. (none, refl)))

reconcile_applies_example :
    let after : Desk = (reconcile willing to_first true false 5 (desk pending_review)).1 in
    ((reconcile willing to_first true false 5 (desk pending_review)).0 ≡ ok auto_applied)
    × (row : ExternalPayment) × (find_payment 5 after ≡ some row)
    × (row.status ≡ auto_applied)
    × (row.error ≡ none)
    × (row.allocations
        ≡ record { reservation_id = 1; amount = pos 30_000; charge = row.hostaway_charge_id } ∷ [])
    × IsBooked
        (is_offline_stay 101 books)
        (auto_params (transfer pending_review) first)
        row.hostaway_charge_id
        []
        after.books.charges
reconcile_applies_example =
    reconcile_applies willing to_first 5 (transfer pending_review)
      (match_of (transfer pending_review)) first (desk pending_review) certain willing-TakesAll

abbrev booked : ExternalPayment
booked = record (transfer auto_applied) {
  allocations = record { reservation_id = 1; amount = pos 30_000; charge = some 9 } ∷ [];
}

abbrev booked_desk : Desk
booked_desk = record { payments = booked ∷ []; books = books }

abbrev booked_again : ExternalPayment
booked_again =
    applied_row (skipped_row booked) (match_of booked) first (some 0) (skipped_row booked)

skip_review_rebooks_example :
    (find_payment 5 (reconcile tired to_first true false 5 (skip_review 5 booked_desk).1).1
      ≡ some booked_again)
    × (booked_again.status ≡ auto_applied)
    × (booked_again.allocations ≡ booked.allocations ++ allocation_of first booked (some 0) ∷ [])
skip_review_rebooks_example =
    skip_review_rebooks tired to_first 5 booked (match_of booked) first booked_desk
      (record { applied_charge = some 0; is_offline = false }) _ refl refl refl refl refl refl taken

undo_application-IsOpenWith_example :
    IsOpenWith 5 [] (undo_application tired to_first 5 booked_desk).1
undo_application-IsOpenWith_example =
    undo_application-IsOpenWith tired to_first 5 booked booked_desk refl refl
