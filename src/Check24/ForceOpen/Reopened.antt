-- ===== src/Check24/ForceOpen/Reopened.antt =====
-- `forceOpenCalendarRange` and `applyRecentCancelForceOpens` against the nights that no reservation
-- takes.
use fonio_middleware.Check24.ForceOpen.{
  own_id, recent_cancels, reopen_stay, reopen_each, apply_recent_cancel_force_opens, CancelRow,
  blocked_in, contains_id, open_night, SyncTables, open_nights, open_found,
  force_open_calendar_range,
}
use fonio_middleware.Base.{
  none, some, any, refl, false, [], ◌∷◌, ap, true, Option, ◌∙◌, find, ◌-◌, Option-cases, inr, ltb,
  inl, zero, leb, Bool-cases, ◌&&◌, arith, ◌==◌, suc, not, ◌||◌, ◌≡◌, ◌+◌, ◌<◌, ◌≤◌, List, Bool, ℕ,
}
use fonio_middleware.Availability.{CalendarDay}
use fonio_middleware.Check24.ForceOpen.Opened.{is_open_step, is_open-open_nights, is_open}
use fonio_middleware.Check24.ForceOpen.Blockers.{
  is_held, contains_id-each_night_ymd, blocked-is_held,
}
use fonio_middleware.Check24.Calendar.Nights.{each_night_ymd-eq-span, span}
use fonio_middleware.Base.Count.{count, bit}
use fonio_middleware.Availability.Calendar.{is_day}
use fonio_middleware.Check24.Calendar.{each_night_ymd}
use fonio_middleware.Base.Text.{Text}

open_night_touched :
    (now l m : ℕ) (blocked : List ℕ) (table : List CalendarDay)
    → (open_night now l blocked m table).0
      ≡ bit (not (contains_id blocked m) && not (is_open l m table))
unfolding open_found
open_night_touched now l m blocked table = elim (Bool-cases (contains_id blocked m)) [
  | inl held ↦ rw held refl
  | inr free ↦ elim (Option-cases (find (is_day l m) table)) [
    | inl missing ↦ rw (free, missing) refl
    | inr (d, found) ↦
        rw (free, found)
          (elim (Bool-cases d.is_available) [
            | inl available ↦ rw available refl
            | inr closed ↦ rw closed refl
          ])
  ]
]

count-span_cong :
    (p q : ℕ → Bool) (day n : ℕ)
    → ((m : ℕ) → day ≤ m → m < day + n → p m ≡ q m)
    → count p (span day n) ≡ count q (span day n)
count-span_cong p q day zero h = refl
count-span_cong p q day (suc n) h =
    let here : p day ≡ q day = h day (omega arith) (omega arith) in
    let rest =
      count-span_cong p q (day + 1) n
        (λ m above below. h m (omega (arith, above)) (omega (arith, below))) in
    ground (arith, here, rest)

-- The nights are different, so that each is counted by what the calendar said before the loop.
open_nights_touched :
    (now l : ℕ) (blocked : List ℕ) (day n : ℕ) (table : List CalendarDay)
    → (open_nights now l blocked (span day n) table).0
      ≡ count (λ m. not (contains_id blocked m) && not (is_open l m table)) (span day n)
unfolding open_nights
open_nights_touched now l blocked day zero table = refl
open_nights_touched now l blocked day (suc n) table =
    let later : List CalendarDay = (open_night now l blocked day table).1 in
    let first = open_night_touched now l day blocked table in
    let rest = open_nights_touched now l blocked (day + 1) n later in
    let same =
      count-span_cong (λ m. not (contains_id blocked m) && not (is_open l m later))
        (λ m. not (contains_id blocked m) && not (is_open l m table)) (day + 1) n
        (λ m above below. ground (arith, above, is_open_step now l m l day blocked table)) in
    omega (arith, first, rest, same)

-- After `forceOpenCalendarRange` a night of a listing is open exactly if it was open before, or if it
-- is one of the listing's nights from the first day on and before the last day that no
-- reservation holds: none that stays over that night, whose status is active, which the caller does not
-- exclude and which no terminal CHECK24 booking is linked with. All other nights are as before. The
-- number returned is that of the nights that were opened.
pub force_open_calendar_range_opens :
    (t : SyncTables) (l from to : ℕ) (ids : List ℕ) (table : List CalendarDay)
    → ((k n : ℕ)
        → is_open k n (force_open_calendar_range t l from to ids table).1
          ≡ is_open k n table || (k == l && ((leb from n && ltb n to) && not (is_held t ids l n))))
      × ((force_open_calendar_range t l from to ids table).0
          ≡ count (λ n. not (is_held t ids l n) && not (is_open l n table)) (span from (to - from)))
unfolding force_open_calendar_range
force_open_calendar_range_opens t l from to ids table =
    let blocked : List ℕ = blocked_in t l from to ids in
    (
      (λ k n.
          is_open-open_nights t.now k n l blocked (each_night_ymd from to) table
          ∙ ground
              (arith, contains_id-each_night_ymd from to n, blocked-is_held t l from to ids n)),
      rw (each_night_ymd-eq-span from to) (
          open_nights_touched t.now l blocked from (to - from) table
          ∙ count-span_cong (λ m. not (contains_id blocked m) && not (is_open l m table))
              (λ m. not (is_held t ids l m) && not (is_open l m table)) from (to - from)
              (λ m above below.
                let inside : leb from m && ltb m to ≡ true = ground (arith, above, below) in
                ap (λ b. not b && not (is_open l m table))
                  (blocked-is_held t l from to ids m inside))),
    )

-- A cancellation gives a night back: it names both its days, the night lies between them, and
-- no reservation but its own holds it.
abbrev pub gives_back : SyncTables → ℕ → ℕ → CancelRow → Bool
gives_back t listing_id night row = elim row.date_from [
  | none ↦ false
  | some from ↦ elim row.date_to [
    | none ↦ false
    | some to ↦ (leb from night && ltb night to) && not (is_held t (own_id row) listing_id night)
  ]
]

is_open-reopen_stay :
    (t : SyncTables) (l : ℕ) (row : CancelRow) (o p : Option ℕ) (table : List CalendarDay) (k n : ℕ)
    → row.date_from ≡ o
    → row.date_to ≡ p
    → is_open k n (reopen_stay t l row o p table).1
      ≡ is_open k n table || (k == l && gives_back t l n row)
unfolding reopen_stay
is_open-reopen_stay t l row (some from) (some to) table k n e f =
    rw (e, f) ((force_open_calendar_range_opens t l from to (own_id row) table).0 k n)
is_open-reopen_stay t l row (some from) none table k n e f = rw (e, f) (ground arith)
is_open-reopen_stay t l row none to table k n e f = rw e (ground arith)

is_open-reopen_each :
    (t : SyncTables) (l : ℕ) (rows : List CancelRow) (table : List CalendarDay) (k n : ℕ)
    → is_open k n (reopen_each t l rows table).1
      ≡ is_open k n table || (k == l && any (gives_back t l n) rows)
unfolding reopen_each
is_open-reopen_each t l [] table k n = ground arith
is_open-reopen_each t l (row ∷ rows) table k n =
    let first = is_open-reopen_stay t l row row.date_from row.date_to table k n refl refl in
    is_open-reopen_each t l rows (reopen_stay t l row row.date_from row.date_to table).1 k n
    ∙ ground (arith, first)

-- After `applyRecentCancelForceOpens`, with a hold of some hours, a night of a listing is open exactly
-- if it was open before, or if it is a night of the listing that one of the newest hundred
-- recent cancellations of the property gives back: the night lies between the two days of that
-- cancellation, and no reservation but its own holds it whose status is active and whose CHECK24
-- booking has not ended.
pub apply_recent_cancel_force_opens_opens :
    (t : SyncTables) (hold_hours l : ℕ) (property_id : Text) (table : List CalendarDay)
    → 0 < hold_hours
    → (k n : ℕ)
    → is_open k n (apply_recent_cancel_force_opens t hold_hours l property_id table).1
      ≡ is_open k n table
        || (k == l
            && any (gives_back t l n) (recent_cancels t.now hold_hours property_id t.bookings))
unfolding apply_recent_cancel_force_opens
apply_recent_cancel_force_opens_opens t hold_hours l property_id table some_hours k n =
    let asked : hold_hours == 0 ≡ false = ground (arith, some_hours) in
    rw asked
      (is_open-reopen_each t l (recent_cancels t.now hold_hours property_id t.bookings) table k n)
