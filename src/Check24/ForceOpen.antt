-- ===== src/Check24/ForceOpen.antt =====
-- Nights that are opened again in the local calendar after a cancellation:
-- `forceOpenCalendarRange` and `applyRecentCancelForceOpens` of
-- src/check24/check24-sync.service.ts.
pub mod Blockers
pub mod Opened
pub mod Reopened
mod Tests
use fonio_middleware.Base.{
  any, keep, ◌==◌, ◌&&◌, ◌||◌, ◌∷◌, ◌++◌, ◌+◌, ◌*◌, ltb, leb, not, if◌then◌else◌, find, map, take,
  [], List, Bool, ℕ, Option, false, true, some, none,
}
use fonio_middleware.Base.Text.{to_lower, text_eq, lit, starts_with, Text}
use fonio_middleware.Base.Sort.{sort_with}
use fonio_middleware.Availability.{CalendarDay}
use fonio_middleware.Availability.Calendar.{is_day}
use fonio_middleware.Check24.Calendar.{each_night_ymd}
use fonio_middleware.Payments.Table.{update_where}

-- What is read of a row of `reservation`; both dates are days.
pub record CalendarStay : Type 0 where
  pub listing_id : ℕ
  pub hostaway_id : ℕ
  pub arrival_date : ℕ
  pub departure_date : ℕ
  pub status : Text

-- What is read of a row of `check24Booking`, with the two days of its payload.
pub record CancelRow : Type 0 where
  pub property_id : Text
  pub status : Text
  pub hostaway_reservation_id : Option ℕ
  pub processed_at : Option ℕ
  pub updated_at : ℕ
  pub date_from : Option ℕ
  pub date_to : Option ℕ

-- The condition of the query for terminal bookings; it compares the status as it is stored.
unfoldable pub is_terminal_row : CancelRow → Bool
is_terminal_row row =
    any (text_eq row.status) (lit "cancelled" ∷ lit "canceled" ∷ lit "declined" ∷ lit "failed" ∷ [])

-- The ids above 0 of `excludeHostawayReservationIds`.
abbrev pub excluded_by_caller : List ℕ → List ℕ
excluded_by_caller ids = keep (ltb 0) ids

-- `excludeIds.add` for every terminal row whose id is set.
abbrev pub linked_ids : List CancelRow → List ℕ
linked_ids [] = []
linked_ids (row ∷ rows) = elim row.hostaway_reservation_id [
  | none ↦ linked_ids rows
  | some id ↦ if id == 0 then linked_ids rows else id ∷ linked_ids rows
]

abbrev pub is_overlapping : ℕ → ℕ → ℕ → CalendarStay → Bool
is_overlapping listing_id from to r =
    listing_id == r.listing_id && (ltb r.arrival_date to && ltb from r.departure_date)

abbrev pub contains_id : List ℕ → ℕ → Bool
contains_id ids id = any (λ other. id == other) ids

abbrev pub is_terminal_of : List ℕ → CancelRow → Bool
is_terminal_of ids row =
    elim row.hostaway_reservation_id [ none ↦ false | some id ↦ contains_id ids id ]
    && is_terminal_row row

-- `excludeIds`, once it is filled.
unfoldable pub exclude_ids : List ℕ → List CalendarStay → List CancelRow → List ℕ
exclude_ids ids overlapping bookings =
    excluded_by_caller ids
    ++ linked_ids (keep (is_terminal_of (map (λ r. r.hostaway_id) overlapping)) bookings)

-- `cancelledStatuses` and the inquiries.
unfoldable pub is_inactive_status : Text → Bool
is_inactive_status status =
    let s = to_lower status in
    any (text_eq s) (
      lit "cancelled"
      ∷ lit "canceled"
      ∷ lit "declined"
      ∷ lit "expired"
      ∷ lit "inquirydenied"
      ∷ lit "inquirytimedout"
      ∷ lit "inquirynotpossible"
      ∷ [])
    || starts_with s (lit "inquiry")

abbrev pub is_blocker : List ℕ → CalendarStay → Bool
is_blocker exclude r = not (contains_id exclude r.hostaway_id) && not (is_inactive_status r.status)

abbrev pub blocked_nights : List CalendarStay → List ℕ
blocked_nights [] = []
blocked_nights (r ∷ rs) = each_night_ymd r.arrival_date r.departure_date ++ blocked_nights rs

abbrev pub opened_day : ℕ → ℕ → ℕ → CalendarDay
opened_day now listing_id night = record {
  listing_id = listing_id;
  date = night;
  is_available = true;
  min_nights = none;
  price = none;
  synced_at = now;
}

abbrev pub reopened : ℕ → CalendarDay → CalendarDay
reopened now d = record d { is_available = true; synced_at = now }

-- One night of the loop, by the row that `findUnique` has found.
unfoldable pub open_found : ℕ → ℕ → ℕ → List CalendarDay → Option CalendarDay → ℕ × List CalendarDay
open_found now listing_id night table none = (1, opened_day now listing_id night ∷ table)
open_found now listing_id night table (some existing) =
    if not existing.is_available
    then (1, update_where (is_day listing_id night) (reopened now) table)
    else (0, table)

abbrev pub open_night : ℕ → ℕ → List ℕ → ℕ → List CalendarDay → ℕ × List CalendarDay
open_night now listing_id blocked night table =
    if contains_id blocked night
    then (0, table)
    else open_found now listing_id night table (find (is_day listing_id night) table)

-- The loop over the nights, with `touched`.
unfoldable pub open_nights : ℕ → ℕ → List ℕ → List ℕ → List CalendarDay → ℕ × List CalendarDay
open_nights now listing_id blocked [] table = (0, table)
open_nights now listing_id blocked (night ∷ nights) table =
    let step = open_night now listing_id blocked night table in
    let rest = open_nights now listing_id blocked nights step.1 in (step.0 + rest.0, rest.1)

-- The tables that the two operations read, and the time.
pub record SyncTables : Type 0 where
  pub now : ℕ
  pub stays : List CalendarStay
  pub bookings : List CancelRow

-- `blockedNights`
unfoldable pub blocked_in : SyncTables → ℕ → ℕ → ℕ → List ℕ → List ℕ
blocked_in t listing_id date_from date_to ids =
    let overlapping = keep (is_overlapping listing_id date_from date_to) t.stays in
    let exclude = exclude_ids ids overlapping t.bookings in
    blocked_nights (keep (is_blocker exclude) overlapping)

-- Without a night the loop makes no round, as after the early return.
unfoldable pub force_open_calendar_range :
    SyncTables → ℕ → ℕ → ℕ → List ℕ → List CalendarDay → ℕ × List CalendarDay
force_open_calendar_range t listing_id date_from date_to ids table =
    open_nights t.now listing_id (blocked_in t listing_id date_from date_to ids)
      (each_night_ymd date_from date_to) table

-- `{ processedAt: { gte: since } }`
abbrev is_since : ℕ → ℕ → Option ℕ → Bool
is_since now hold_ms none = false
is_since now hold_ms (some at) = leb now (at + hold_ms)

-- The condition of the query for recent cancellations, held for a number of hours.
unfoldable pub is_recent_cancel : ℕ → ℕ → Text → CancelRow → Bool
is_recent_cancel now hold_hours property_id row =
    let hold_ms = hold_hours * 3600000 in
    text_eq property_id row.property_id
    && (is_terminal_row row
        && (is_since now hold_ms row.processed_at || leb now (row.updated_at + hold_ms)))

-- The newest hundred of them; the order of rows of one time is left to the database.
unfoldable pub recent_cancels : ℕ → ℕ → Text → List CancelRow → List CancelRow
recent_cancels now hold_hours property_id rows = take 100 (
    sort_with (λ a b. leb b.updated_at a.updated_at)
      (keep (is_recent_cancel now hold_hours property_id) rows))

abbrev pub own_id : CancelRow → List ℕ
own_id row = elim row.hostaway_reservation_id [
  | none ↦ []
  | some id ↦ if id == 0 then [] else id ∷ []
]

-- One row of the loop, by the two days of its payload.
unfoldable pub reopen_stay :
    SyncTables → ℕ → CancelRow → Option ℕ → Option ℕ → List CalendarDay → ℕ × List CalendarDay
reopen_stay t listing_id row (some from) (some to) table =
    force_open_calendar_range t listing_id from to (own_id row) table
reopen_stay t listing_id row (some from) none table = (0, table)
reopen_stay t listing_id row none to table = (0, table)

-- The loop, with `total`.
unfoldable pub reopen_each :
    SyncTables → ℕ → List CancelRow → List CalendarDay → ℕ × List CalendarDay
reopen_each t listing_id [] table = (0, table)
reopen_each t listing_id (row ∷ rows) table =
    let step = reopen_stay t listing_id row row.date_from row.date_to table in
    let rest = reopen_each t listing_id rows step.1 in (step.0 + rest.0, rest.1)

unfoldable pub apply_recent_cancel_force_opens :
    SyncTables → ℕ → ℕ → Text → List CalendarDay → ℕ × List CalendarDay
apply_recent_cancel_force_opens t hold_hours listing_id property_id table =
    if hold_hours == 0
    then (0, table)
    else reopen_each t listing_id (recent_cancels t.now hold_hours property_id t.bookings) table
