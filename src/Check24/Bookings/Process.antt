-- ===== src/Check24/Bookings/Process.antt =====
-- `processBooking`, and the two ways in: the webhook and the poll of
-- src/check24/check24-booking.service.ts.
use fonio_middleware.Base.{
  Option, suc, [], not, if◌then◌else◌, ◌∷◌, ◌||◌, ℕ, List, Bool, some, none,
}
use fonio_middleware.Check24.Bookings.{
  unsupported_status, already_imported, missing_booking_id, is_processed_outcome, list_bookings,
  get_booking, BookingOutcome, BookingStore, BookingConfig, Outside, Booking,
}
use fonio_middleware.Base.Text.{is_empty, trim, lit, text_eq, Text}
use fonio_middleware.Payments.Program.{Result, ok, err, Program}
use fonio_middleware.Check24.Bookings.Store.{
  linked, is_terminal_status, upsert_row, find_row, call_out,
}
use fonio_middleware.Check24.Bookings.Cancel.{cancel_imported_reservation}
use fonio_middleware.Check24.Bookings.Import.{import_booking}

abbrev pub is_importable : Text → Bool
is_importable status = text_eq status (lit "requested") || text_eq status (lit "booked")

module _ (env : Outside) (cfg : BookingConfig) where
  -- Behind the terminal statuses.
  unfoldable pub process_open : Booking → Option ℕ → Program BookingStore Text BookingOutcome
  process_open b (some id) s = (ok (already_imported id), s)
  process_open b none s =
      if not (is_importable b.status)
      then (ok (unsupported_status b.status), s)
      else import_booking env cfg b s

  unfoldable pub process_booking : Booking → Program BookingStore Text BookingOutcome
  process_booking b s =
      let existing = find_row b.booking_id s.bookings in
      let saved = upsert_row b s in
      let cancelled = cancel_imported_reservation env b existing saved in
      if is_terminal_status b.status
      then (ok cancelled.0, cancelled.1)
      else process_open b (linked existing) saved

  -- By the answer of `getBooking`.
  unfoldable pub webhook_answered : Result Text Booking → Program BookingStore Text BookingOutcome
  webhook_answered (err e) s = (err e, s)
  webhook_answered (ok b) s = process_booking b s

  unfoldable pub handle_webhook_notification : Text → Program BookingStore Text BookingOutcome
  handle_webhook_notification booking_id s =
      let id = trim booking_id in
      let asked = call_out (get_booking id) s in
      if is_empty id
      then (ok missing_booking_id, s)
      else webhook_answered (env.booking_answer asked.calls) asked

  -- The loop of `pollRecentBookings`: how many were processed, and the bookings that threw.
  unfoldable pub process_each : List Booking → BookingStore → (ℕ × List Text) × BookingStore
  process_each [] s = ((0, []), s)
  process_each (b ∷ bs) s =
      let (answer, after) = process_booking b s in
      let (counts, last) = process_each bs after in
      (
        elim answer [
          | err e ↦ (counts.0, b.booking_id ∷ counts.1)
          | ok o ↦ ((if is_processed_outcome o then suc counts.0 else counts.0), counts.1)
        ],
        last,
      )

  -- By the answer of `listBookings`.
  unfoldable pub poll_answered :
      Result Text (List Booking) → Program BookingStore Text (ℕ × List Text)
  poll_answered (err e) s = (err e, s)
  poll_answered (ok bs) s = (ok (process_each bs s).0, (process_each bs s).1)

  unfoldable pub poll_recent_bookings : Program BookingStore Text (ℕ × List Text)
  poll_recent_bookings s =
      let asked = call_out list_bookings s in
      if not cfg.is_configured
      then (ok (0, []), s)
      else poll_answered (env.bookings_answer asked.calls) asked
