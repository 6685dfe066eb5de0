-- ===== src/Check24/ForceOpen/Tests.antt =====
-- Runs of the opening of nights, and the theorems at concrete inputs.
use fonio_middleware.Check24.ForceOpen.{
  is_inactive_status, is_terminal_row, open_found, open_nights, exclude_ids, blocked_in,
  recent_cancels, force_open_calendar_range, apply_recent_cancel_force_opens, CalendarStay,
  SyncTables, CancelRow,
}
use fonio_middleware.Base.{
  refl, ◌-◌, arith, not, ltb, leb, any, ◌&&◌, ◌==◌, ◌||◌, none, ◌≡◌, some, false, [], ◌∷◌, ℕ, List,
}
use fonio_middleware.Check24.ForceOpen.Opened.{is_open}
use fonio_middleware.Check24.ForceOpen.Blockers.{is_held}
use fonio_middleware.Availability.{CalendarDay}
use fonio_middleware.Base.Text.{starts_with, lit}
use fonio_middleware.Check24.ForceOpen.Reopened.{
  force_open_calendar_range_opens, apply_recent_cancel_force_opens_opens, gives_back,
}
use fonio_middleware.Base.Count.{count}
use fonio_middleware.Check24.Calendar.Nights.{span}
use fonio_middleware.Check24.Calendar.{each_night_ymd, nights_from}
use fonio_middleware.Payments.Table.{update_where}

abbrev stay : ℕ → ℕ → ℕ → CalendarStay
stay id from to = record {
  listing_id = 7;
  hostaway_id = id;
  arrival_date = from;
  departure_date = to;
  status = lit "modified";
}

-- Reservation 11 belongs to the cancelled booking, reservation 12 to another guest.
abbrev cancelled_stay : CancelRow
cancelled_stay = record {
  property_id = lit "P1";
  status = lit "cancelled";
  hostaway_reservation_id = some 11;
  processed_at = none;
  updated_at = 1000;
  date_from = some 20;
  date_to = some 24;
}

abbrev tables : SyncTables
tables = record {
  now = 2000;
  stays = stay 11 20 24 ∷ stay 12 22 23 ∷ [];
  bookings = cancelled_stay ∷ [];
}

abbrev closed_day : ℕ → CalendarDay
closed_day n = record {
  listing_id = 7;
  date = n;
  is_available = false;
  min_nights = some 2;
  price = none;
  synced_at = 0;
}

abbrev closed : List CalendarDay
closed = closed_day 20 ∷ closed_day 22 ∷ closed_day 23 ∷ []

-- Night 21 has no row and gets one; night 22 is another guest's.
opens_three : (force_open_calendar_range tables 7 20 24 [] closed).0 ≡ 3
unfolding force_open_calendar_range blocked_in exclude_ids open_nights open_found is_terminal_row
    is_inactive_status update_where starts_with each_night_ymd nights_from
opens_three = refl

force_open_calendar_range_opens_example :
    ((k n : ℕ)
      → is_open k n (force_open_calendar_range tables 7 20 24 [] closed).1
        ≡ is_open k n closed || (k == 7 && ((leb 20 n && ltb n 24) && not (is_held tables [] 7 n))))
    × ((force_open_calendar_range tables 7 20 24 [] closed).0
        ≡ count (λ n. not (is_held tables [] 7 n) && not (is_open 7 n closed)) (span 20 (24 - 20)))
force_open_calendar_range_opens_example = force_open_calendar_range_opens tables 7 20 24 [] closed

apply_recent_cancel_force_opens_opens_example :
    is_open 7 23 (apply_recent_cancel_force_opens tables 24 7 (lit "P1") closed).1
    ≡ is_open 7 23 closed
      || (7 == 7
          && any (gives_back tables 7 23) (recent_cancels 2000 24 (lit "P1") (cancelled_stay ∷ [])))
apply_recent_cancel_force_opens_opens_example =
    apply_recent_cancel_force_opens_opens tables 24 7 (lit "P1") closed (omega arith) 7 23
