-- ===== src/Check24/Bookings/Cancel.antt =====
-- Cancellations in both directions: `cancelImportedReservation` and `propagateHostawayCancellation` of
-- src/check24/check24-booking.service.ts.
use fonio_middleware.Base.{
  find, or_else, not, ◌∷◌, ◌==◌, if◌then◌else◌, [], Bool, ℕ, Option, List, false, true, some, none,
}
use fonio_middleware.Check24.Bookings.{
  hostaway_cancel_failed, already_terminal, cancel_failed, not_check24_booking, check24_refused,
  check24_not_configured, check24_cancel_failed, cancelled_on_check24, cancelled_in_hostaway,
  already_cancelled, ignored_terminal_status, cancel_reservation, cancel_booking, Propagated,
  ForceOpenStay, BookingStore, BookingRow, BookingOutcome, BookingError, BookingConfig, Outside,
  Booking,
}
use fonio_middleware.Payments.Program.{err, ok, Result}
use fonio_middleware.Base.Text.{lit, Text}
use fonio_middleware.Check24.Bookings.Store.{
  is_terminal_status, sync_single_reservation, mark_cancelled, update_row, is_hostaway_cancelled,
  push_property, linked, find_reservation, call_out,
}

-- The row after a terminal status has been dealt with.
abbrev pub settled_row : Booking → Option BookingError → BookingRow → BookingRow
settled_row b e r = record r { is_processed = true; last_error = e; status = b.status }

abbrev pub stay_of : Booking → List ℕ → ForceOpenStay
stay_of b excluded = record {
  date_from = b.date_from;
  date_to = b.date_to;
  excluded_reservations = excluded;
}

-- `isHostawayCancelled(local?.status)`
abbrev pub is_locally_cancelled : ℕ → BookingStore → Bool
is_locally_cancelled id s = elim (find_reservation id s) [
  | none ↦ false
  | some r ↦ is_hostaway_cancelled r.status
]

-- The open dates of the stay go to CHECK24 last, in each branch.
abbrev pub reopen : Booking → List ℕ → BookingOutcome → BookingStore → BookingOutcome × BookingStore
reopen b excluded o s = (o, push_property b.property_id (some (stay_of b excluded)) s)

-- The two ends of the `try`, by the answer of `cancelReservation`.
unfoldable pub cancel_answered :
    Outside → Booking → ℕ → Result Text (Unit {0}) → BookingStore → BookingOutcome × BookingStore
cancel_answered env b id (ok done) s =
    reopen b (id ∷ []) (cancelled_in_hostaway b.status id)
      (mark_cancelled id (sync_single_reservation env id (mark_cancelled id s)))
cancel_answered env b id (err e) s = reopen b (id ∷ []) (cancel_failed b.status id e) (
    update_row b.booking_id (settled_row b (some (hostaway_cancel_failed e))) (mark_cancelled id s))

-- The row is settled before Hostaway is asked.
unfoldable pub cancel_at_hostaway :
    Outside → Booking → ℕ → BookingStore → BookingOutcome × BookingStore
cancel_at_hostaway env b id s =
    let asked = call_out (cancel_reservation id) (update_row b.booking_id (settled_row b none) s) in
    cancel_answered env b id (env.cancel_answer asked.calls) asked

unfoldable pub cancel_linked :
    Outside → Booking → Option ℕ → BookingStore → BookingOutcome × BookingStore
cancel_linked env b none s =
    reopen b [] (ignored_terminal_status b.status) (update_row b.booking_id (settled_row b none) s)
cancel_linked env b (some id) s =
    if is_locally_cancelled id s
    then reopen b (id ∷ []) (already_cancelled b.status id)
        (update_row b.booking_id (settled_row b none) s)
    else cancel_at_hostaway env b id s

-- `cancelImportedReservation`
unfoldable pub cancel_imported_reservation :
    Outside → Booking → Option BookingRow → BookingStore → BookingOutcome × BookingStore
cancel_imported_reservation env b existing s = cancel_linked env b (linked existing) s

-- `stayDatesForHostawayReservation`
unfoldable pub stay_dates : ℕ → BookingStore → Option ForceOpenStay
stay_dates id s = elim (find_reservation id s) [
  | none ↦ none
  | some r ↦ some (record {
    date_from = r.arrival_date;
    date_to = r.departure_date;
    excluded_reservations = id ∷ [];
  })
]

abbrev pub is_linked_to : ℕ → BookingRow → Bool
is_linked_to id r = elim r.hostaway_reservation_id [ none ↦ false | some other ↦ other == id ]

abbrev pub cancelled_row : Result Text (Unit {0}) → BookingRow → BookingRow
cancelled_row answer r = record r {
  status = elim answer [ ok done ↦ lit "cancelled" | err e ↦ r.status ];
  is_processed = elim answer [ ok done ↦ true | err e ↦ r.is_processed ];
  last_error = elim answer [ ok done ↦ none | err e ↦ some (check24_cancel_failed e) ];
}

-- The reason and the message of the cancelling.
unfoldable pub cancel_at_check24 :
    Outside → Option Text → Option Text → ℕ → BookingRow → BookingStore → Propagated × BookingStore
cancel_at_check24 env reason message id row s =
    let asked =
      call_out
        (cancel_booking row.booking_id (or_else reason (lit "providerOther"))
          (or_else message (lit "Cancelled by property management system")))
        s in
    let answer = env.cancel_booking_answer asked.calls in
    let noted = update_row row.booking_id (cancelled_row answer) asked in
    (
      elim answer [
        | ok done ↦ cancelled_on_check24 row.booking_id
        | err e ↦ check24_refused row.booking_id e
      ],
      push_property row.property_id (stay_dates id noted) noted,
    )

unfoldable pub propagate_to :
    Outside
    → Option Text
    → Option Text
    → ℕ
    → Option BookingRow
    → BookingStore
    → Propagated × BookingStore
propagate_to env reason message id none s = (not_check24_booking, s)
propagate_to env reason message id (some row) s =
    if is_terminal_status row.status
    then (already_terminal row.booking_id, push_property row.property_id (stay_dates id s) s)
    else cancel_at_check24 env reason message id row s

-- `propagateHostawayCancellation`
unfoldable pub propagate_hostaway_cancellation :
    Outside
    → BookingConfig
    → Option Text
    → Option Text
    → ℕ
    → BookingStore
    → Propagated × BookingStore
propagate_hostaway_cancellation env cfg reason message id s =
    if not cfg.is_configured
    then (check24_not_configured, s)
    else propagate_to env reason message id (find (is_linked_to id) s.bookings) s
