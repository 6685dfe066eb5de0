-- ===== src/Check24/Bookings/History.antt =====
-- Histories of calls of src/check24/check24-booking.service.ts, from empty tables.
use fonio_middleware.Base.{
  ◌≡◌, or_else, ◌∷◌, find, ap, ◌∙◌, sym, if◌then◌else◌, not, inr, refl, Option, inl, [], ℕ, List,
  false, true, some, none,
}
use fonio_middleware.Check24.Bookings.{
  missing_booking_id, list_bookings, get_booking, cancel_booking, already_terminal,
  check24_not_configured, BookingRow, BookingConfig, Outside, BookingStore, Booking,
}
use fonio_middleware.Base.Text.{is_empty, trim, lit, text_eq, Text}
use fonio_middleware.Check24.Bookings.Store.{
  is_row, linked, call_out, is_terminal_status, find_row, push_property, upsert_row,
}
use fonio_middleware.Check24.Bookings.Refinement.{
  update_row-IsSame, made_for, imports, stays, IsSame-trans, Refines-Imports, Refines-Agrees,
  IsNumbering, Imports, Refines, IsSame, Agrees,
}
use fonio_middleware.Check24.Bookings.Links.{upsert_row-is_some, link_of-upsert_row}
use fonio_middleware.Check24.Bookings.Cancel.{
  cancelled_row, stay_dates, is_linked_to, cancel_imported_reservation, cancel_at_check24,
  propagate_to, propagate_hostaway_cancellation,
}
use fonio_middleware.Check24.Bookings.Process.{
  webhook_answered, process_each, poll_recent_bookings, poll_answered, handle_webhook_notification,
  process_open, process_booking,
}
use fonio_middleware.Payments.Program.{err, Result, ok}
use fonio_middleware.Check24.Bookings.Once.{process_open-Refines, cancel_linked-IsSame}

-- No booking has two reservations.
abbrev pub NoneTwice : List (Text × ℕ) → Type 0
NoneTwice [] = Unit
NoneTwice ((k, id) ∷ made) = (made_for k made ≡ none) × NoneTwice made

abbrev pub IsOnce : BookingStore → Type 0
IsOnce s = Agrees s × NoneTwice s.created

Imports-NoneTwice :
    (made next : List (Text × ℕ)) → Imports made next → NoneTwice made → NoneTwice next
Imports-NoneTwice made next (stays e) h = rw e h
Imports-NoneTwice made next (imports k id new e) h = rw e (new, h)

Refines-IsOnce : (k : Text) (s s' : BookingStore) → Refines k s s' → IsOnce s → IsOnce s'
Refines-IsOnce k s s' step h = (
  Refines-Agrees k s s' step h.0,
  Imports-NoneTwice s.created s'.created (Refines-Imports k s s' step h.0) h.1,
)

IsSame-IsOnce : (s s' : BookingStore) → IsSame s s' → IsOnce s → IsOnce s'
IsSame-IsOnce s s' same h = Refines-IsOnce [] s s' (inl same) h

same_then_Refines : (k : Text) (s t u : BookingStore) → IsSame s t → Refines k t u → Refines k s u
same_then_Refines k s t u same (inl later) = inl (IsSame-trans s t u same later)
same_then_Refines k s t u same (inr (id, new, links, made)) = inr (
  id,
  sym (same.0 k) ∙ new,
  (λ k'. links k' ∙ ap (λ o. if text_eq k' k then some id else o) (same.0 k')),
  made ∙ ap (◌∷◌ (k, id)) same.1,
)

upsert_row-IsSame : (b : Booking) (s : BookingStore) → IsSame s (upsert_row b s)
unfolding upsert_row
upsert_row-IsSame b s = ((λ k. link_of-upsert_row k b s), refl)

module _ (env : Outside) (cfg : BookingConfig) where
  propagate_to-IsSame :
      (reason message : Option Text) (id : ℕ) (o : Option BookingRow) (s : BookingStore)
      → IsSame s (propagate_to env reason message id o s).1
  unfolding propagate_to push_property cancel_at_check24
  propagate_to-IsSame reason message id none s = ((λ k. refl), refl)
  propagate_to-IsSame reason message id (some row) s =
      elim (is_terminal_status row.status)
        as (λ t.
          IsSame s
            (if t
              then (
                already_terminal row.booking_id,
                push_property row.property_id (stay_dates id s) s,
              )
              else cancel_at_check24 env reason message id row s).1) [
                | true ↦ ((λ k. refl), refl)
                | false ↦
                    let asked : BookingStore =
                      call_out
                        (cancel_booking row.booking_id (or_else reason (lit "providerOther"))
                          (or_else message (lit "Cancelled by property management system")))
                        s in
                    update_row-IsSame row.booking_id
                      (cancelled_row (env.cancel_booking_answer asked.calls)) asked (λ r. refl)
                      (λ r. refl)
              ]

  pub propagate_hostaway_cancellation-IsSame :
      (reason message : Option Text) (id : ℕ) (s : BookingStore)
      → IsSame s (propagate_hostaway_cancellation env cfg reason message id s).1
  unfolding propagate_hostaway_cancellation
  propagate_hostaway_cancellation-IsSame reason message id s =
      elim (not cfg.is_configured)
        as (λ t.
          IsSame s
            (if t
              then (check24_not_configured, s)
              else propagate_to env reason message id (find (is_linked_to id) s.bookings) s).1) [
                | true ↦ ((λ k. refl), refl)
                | false ↦
                    propagate_to-IsSame reason message id (find (is_linked_to id) s.bookings) s
              ]

module _ (env : Outside) (cfg : BookingConfig) (numbering : IsNumbering env) where
  process_booking-Refines-with_label :
      (b : Booking) (s : BookingStore) → Refines b.booking_id s (process_booking env cfg b s).1
  unfolding process_booking find_row cancel_imported_reservation
  process_booking-Refines-with_label b s =
      let saved : BookingStore = upsert_row b s in
      let existing : Option BookingRow = find_row b.booking_id s.bookings in
      let seen = upsert_row-IsSame b s in
      same_then_Refines b.booking_id s saved (process_booking env cfg b s).1 seen
        (elim (is_terminal_status b.status)
          as (λ t.
            Refines b.booking_id saved
              (if t
                then (
                  ok (cancel_imported_reservation env b existing saved).0,
                  (cancel_imported_reservation env b existing saved).1,
                )
                else process_open env cfg b (linked existing) saved).1) [
                  | true ↦ inl (cancel_linked-IsSame env cfg numbering b (linked existing) saved)
                  | false ↦
                      process_open-Refines env cfg numbering b (linked existing) saved
                        (upsert_row-is_some b s) (link_of-upsert_row b.booking_id b s)
                ])

  -- Processing a booking, whatever is answered and however it ends, is a step of the view for that
  -- booking: either all links and all reservations made at Hostaway are as before, or the booking had
  -- no link, and it has a new reservation and is linked with it, and no other link has changed. The
  -- rows go on to agree with the reservations that were made, if they did.
  pub process_booking-Refines :
      (b : Booking) (s : BookingStore)
      → Agrees s
      → Refines b.booking_id s (process_booking env cfg b s).1
        × Agrees (process_booking env cfg b s).1
        × Imports s.created (process_booking env cfg b s).1.created
  process_booking-Refines b s agrees =
      let step = process_booking-Refines-with_label b s in
      (
        step,
        Refines-Agrees b.booking_id s (process_booking env cfg b s).1 step agrees,
        Refines-Imports b.booking_id s (process_booking env cfg b s).1 step agrees,
      )

  process_booking-IsOnce :
      (b : Booking) (s : BookingStore) → IsOnce s → IsOnce (process_booking env cfg b s).1
  process_booking-IsOnce b s =
      Refines-IsOnce b.booking_id s (process_booking env cfg b s).1
        (process_booking-Refines-with_label b s)

  webhook_answered-IsOnce :
      (r : Result Text Booking) (s : BookingStore)
      → IsOnce s
      → IsOnce (webhook_answered env cfg r s).1
  unfolding webhook_answered
  webhook_answered-IsOnce (err e) s h = h
  webhook_answered-IsOnce (ok b) s h = process_booking-IsOnce b s h

  pub handle_webhook-IsOnce :
      (id : Text) (s : BookingStore)
      → IsOnce s
      → IsOnce (handle_webhook_notification env cfg id s).1
  unfolding handle_webhook_notification
  handle_webhook-IsOnce id s h =
      let asked : BookingStore = call_out (get_booking (trim id)) s in
      elim (is_empty (trim id))
        as (λ t.
          IsOnce
            (if t
              then (ok missing_booking_id, s)
              else webhook_answered env cfg (env.booking_answer asked.calls) asked).1) [
                | true ↦ h
                | false ↦ webhook_answered-IsOnce (env.booking_answer asked.calls) asked h
              ]

  process_each-IsOnce :
      (bs : List Booking) (s : BookingStore) → IsOnce s → IsOnce (process_each env cfg bs s).1
  unfolding process_each
  process_each-IsOnce [] s h = h
  process_each-IsOnce (b ∷ bs) s h =
      process_each-IsOnce bs (process_booking env cfg b s).1 (process_booking-IsOnce b s h)

  poll_answered-IsOnce :
      (r : Result Text (List Booking)) (s : BookingStore)
      → IsOnce s
      → IsOnce (poll_answered env cfg r s).1
  unfolding poll_answered
  poll_answered-IsOnce (err e) s h = h
  poll_answered-IsOnce (ok bs) s h = process_each-IsOnce bs s h

  pub poll_recent_bookings-IsOnce :
      (s : BookingStore) → IsOnce s → IsOnce (poll_recent_bookings env cfg s).1
  unfolding poll_recent_bookings
  poll_recent_bookings-IsOnce s h =
      let asked : BookingStore = call_out list_bookings s in
      elim (not cfg.is_configured)
        as (λ t.
          IsOnce
            (if t
              then (ok (0, []), s)
              else poll_answered env cfg (env.bookings_answer asked.calls) asked).1) [
                | true ↦ h
                | false ↦ poll_answered-IsOnce (env.bookings_answer asked.calls) asked h
              ]

-- A call of the service, or a change of other tables by the rest of the program.
pub data BookingStep : BookingStore → BookingStore → Type 0 where
  notified :
      (env : Outside) (cfg : BookingConfig) (numbering : IsNumbering env) (id : Text)
      (s : BookingStore)
      → BookingStep s (handle_webhook_notification env cfg id s).1
  polled :
      (env : Outside) (cfg : BookingConfig) (numbering : IsNumbering env) (s : BookingStore)
      → BookingStep s (poll_recent_bookings env cfg s).1
  propagated :
      (env : Outside) (cfg : BookingConfig) (reason message : Option Text) (id : ℕ)
      (s : BookingStore)
      → BookingStep s (propagate_hostaway_cancellation env cfg reason message id s).1
  elsewhere :
      (s s' : BookingStore)
      → (s'.bookings ≡ s.bookings) × (s'.created ≡ s.created)
      → BookingStep s s'

pub data BookingHistory : BookingStore → Type 0 where
  starts : (s : BookingStore) → (s.bookings ≡ []) × (s.created ≡ []) → BookingHistory s
  then_call : {s s' : BookingStore} → BookingHistory s → BookingStep s s' → BookingHistory s'

BookingStep-IsOnce : (s s' : BookingStore) → BookingStep s s' → IsOnce s → IsOnce s'
BookingStep-IsOnce s s' (notified env cfg numbering id _) h =
    handle_webhook-IsOnce env cfg numbering id s h
BookingStep-IsOnce s s' (polled env cfg numbering _) h =
    poll_recent_bookings-IsOnce env cfg numbering s h
BookingStep-IsOnce s s' (propagated env cfg reason message id _) h =
    IsSame-IsOnce s (propagate_hostaway_cancellation env cfg reason message id s).1
      (propagate_hostaway_cancellation-IsSame env cfg reason message id s) h
BookingStep-IsOnce s s' (elsewhere _ _ same) h =
    IsSame-IsOnce s s' ((λ k. ap (λ rows. linked (find (is_row k) rows)) same.0), same.1) h

-- After any history of webhook notifications, polls and cancellations, from empty tables, one call
-- after the other, no booking has two reservations at Hostaway, and the rows link each booking with
-- the reservation that was made for it, and with none if none was made. The other systems may answer
-- and refuse as they like, if Hostaway numbers its reservations from 1 on.
pub BookingHistory-IsOnce : (s : BookingStore) → BookingHistory s → IsOnce s
BookingHistory-IsOnce s (starts _ e) = ((λ k. rw (e.0, e.1) refl), rw e.1 tt)
BookingHistory-IsOnce s (then_call {s = before} history step) =
    BookingStep-IsOnce before s step (BookingHistory-IsOnce before history)
