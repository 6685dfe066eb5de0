-- ===== src/Availability/Calendar.antt =====
-- The rows of the calendar: `upsertCalendarDays` and `syncListingCalendar` of
-- src/hostaway/hostaway-sync.service.ts, which keep one row for each listing and day.
use fonio_middleware.Base.{
  ◌∙◌, refl, inr, arith, ◌≡◌, ◌&&◌, inl, ◌==◌, if◌then◌else◌, any, [], Bool-cases, ◌∷◌, Bool, ℕ,
  List, false,
}
use fonio_middleware.Availability.{HostawayCalendarDay, CalendarDay}
use fonio_middleware.Payments.Table.{update_where}

abbrev pub is_day : ℕ → ℕ → CalendarDay → Bool
is_day listing_id date d = listing_id == d.listing_id && date == d.date

abbrev pub refreshed : ℕ → HostawayCalendarDay → CalendarDay → CalendarDay
refreshed now day d = record d {
  is_available = day.is_available == 1;
  min_nights = day.minimum_stay;
  price = day.price;
  synced_at = now;
}

abbrev pub new_day : ℕ → ℕ → HostawayCalendarDay → CalendarDay
new_day now listing_id day = record {
  listing_id = listing_id;
  date = day.date;
  is_available = day.is_available == 1;
  min_nights = day.minimum_stay;
  price = day.price;
  synced_at = now;
}

unfoldable pub upsert_calendar_day :
    ℕ → ℕ → HostawayCalendarDay → List CalendarDay → List CalendarDay
upsert_calendar_day now listing_id day table =
    if any (is_day listing_id day.date) table
    then update_where (is_day listing_id day.date) (refreshed now day) table
    else new_day now listing_id day ∷ table

unfoldable pub upsert_calendar_days :
    ℕ → ℕ → List HostawayCalendarDay → List CalendarDay → List CalendarDay
upsert_calendar_days now listing_id [] table = table
upsert_calendar_days now listing_id (day ∷ days) table =
    upsert_calendar_days now listing_id days (upsert_calendar_day now listing_id day table)

-- One row for each listing and day.
abbrev pub IsUnique : List CalendarDay → Type 0
IsUnique [] = Unit
IsUnique (d ∷ table) = (any (is_day d.listing_id d.date) table ≡ false) × IsUnique table

update_where_days :
    (now l k : ℕ) (day : HostawayCalendarDay) (a b : ℕ) (table : List CalendarDay)
    → any (is_day a b) (update_where (is_day l k) (refreshed now day) table)
      ≡ any (is_day a b) table
unfolding update_where
update_where_days now l k day a b [] = refl
update_where_days now l k day a b (d ∷ table) =
    ground (arith, update_where_days now l k day a b table)

update_where-IsUnique :
    (now l k : ℕ) (day : HostawayCalendarDay) (table : List CalendarDay)
    → IsUnique table
    → IsUnique (update_where (is_day l k) (refreshed now day) table)
unfolding update_where
update_where-IsUnique now l k day [] h = tt
update_where-IsUnique now l k day (d ∷ table) h = elim (Bool-cases (is_day l k d)) [
  | inl here ↦ rw here h
  | inr later ↦ rw later (
    update_where_days now l k day d.listing_id d.date table ∙ h.0,
    update_where-IsUnique now l k day table h.1,
  )
]

pub upsert_calendar_day-IsUnique :
    (now l : ℕ) (day : HostawayCalendarDay) (table : List CalendarDay)
    → IsUnique table
    → IsUnique (upsert_calendar_day now l day table)
unfolding upsert_calendar_day
upsert_calendar_day-IsUnique now l day table h = elim (Bool-cases (any (is_day l day.date) table)) [
  | inl old ↦ rw old (update_where-IsUnique now l day.date day table h)
  | inr new ↦ rw new (new, h)
]

pub upsert_calendar_days-IsUnique :
    (now l : ℕ) (days : List HostawayCalendarDay) (table : List CalendarDay)
    → IsUnique table
    → IsUnique (upsert_calendar_days now l days table)
unfolding upsert_calendar_days
upsert_calendar_days-IsUnique now l [] table h = h
upsert_calendar_days-IsUnique now l (day ∷ days) table h =
    upsert_calendar_days-IsUnique now l days (upsert_calendar_day now l day table)
      (upsert_calendar_day-IsUnique now l day table h)
