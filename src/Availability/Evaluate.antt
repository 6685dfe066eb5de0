-- ===== src/Availability/Evaluate.antt =====
-- Whether a stay is free at a listing: `enumerateDates`, `loadCandidates`, `indexCalendarDays`,
-- `loadCalendarForRange`, `evaluateListings` and `isStayAvailable` of
-- src/fonio/fonio-availability.service.ts.
use fonio_middleware.Base.{
  is_some, zero, ltb, if◌then◌else◌, ◌||◌, ◌+◌, or_else, leb, all, ◌==◌, ◌&&◌, take, suc, not, max,
  length, any, ◌∷◌, ◌-◌, keep, [], Bool, ℕ, Option, List, false, true, some, none,
}
use fonio_middleware.Availability.{
  parent_only, children_only, both, HostawayCalendarDay, AvailabilityItem, BookableListing,
  AvailabilityQuery, CalendarDay,
}
use fonio_middleware.Payments.Program.{continue, ok, Program, Result}
use fonio_middleware.Base.Text.{to_lower, text_eq, includes, is_empty, Text}
use fonio_middleware.Availability.Calendar.{upsert_calendar_days}

-- The loop of `enumerateDates`, which makes one round for each day between.
unfoldable pub dates_from : ℕ → ℕ → ℕ → List ℕ
dates_from zero current last = []
dates_from (suc rounds) current last =
    let rest = dates_from rounds (current + 1) last in
    if ltb current last then current ∷ rest else []

unfoldable pub enumerate_dates : ℕ → ℕ → List ℕ
unfolding dates_from
enumerate_dates check_in check_out = dates_from (check_out - check_in) check_in check_out

-- `nightKeys.has`
abbrev pub is_night : List ℕ → ℕ → Bool
is_night nights date = any (λ night. night == date) nights

abbrev pub required_min : List CalendarDay → ℕ
required_min [] = 1
required_min (d ∷ days) = max (or_else d.min_nights 1) (required_min days)

unfoldable pub is_stay_available : List CalendarDay → ℕ → Bool
is_stay_available days stay_nights =
    length days == stay_nights
    && (all (λ d. d.is_available) days && leb (required_min days) stay_nights)

-- The rows of the listing for the nights, as they are read and grouped.
abbrev pub days_of : List CalendarDay → List ℕ → ℕ → List CalendarDay
days_of table nights listing_id =
    keep (λ d. listing_id == d.listing_id && is_night nights d.date) table

unfoldable pub evaluate_listing :
    List CalendarDay → List ℕ → Bool → BookableListing → AvailabilityItem
evaluate_listing table nights live l =
    let days = days_of table nights l.id in
    let cache_complete = leb (length nights) (length days) in
    record {
      listing_hostaway_id = l.hostaway_id;
      name = l.name;
      city = l.city;
      max_guests = l.person_capacity;
      bedrooms = l.bedrooms_number;
      room_type = l.room_type;
      pets_allowed = l.pets_allowed;
      available = cache_complete && is_stay_available days (length nights);
      availability_unknown = not live && not cache_complete;
      group_name = elim l.listing_group [ none ↦ none | some g ↦ some g.group_name ];
      lat = l.lat;
      lng = l.lng;
    }

-- `isVisibleForGroupMode`
unfoldable pub is_visible_for_group_mode : BookableListing → Bool
is_visible_for_group_mode l = elim l.listing_group [
  | none ↦ true
  | some g ↦ elim g.availability_mode [
    | parent_only ↦ l.hostaway_id == g.hostaway_parent_id
    | children_only ↦ is_some l.parent_hostaway_id && not (l.hostaway_id == g.hostaway_parent_id)
    | both ↦ true
  ]
]

-- `contains` of a query, `insensitive`; a text that is not asked for, or empty, is no condition.
abbrev pub contains_wanted : Option Text → Option Text → Bool
contains_wanted none have = true
contains_wanted (some t) have =
    is_empty t || elim have [ none ↦ false | some h ↦ includes (to_lower h) (to_lower t) ]

abbrev pub has_bedrooms : Option ℕ → Option ℕ → Bool
has_bedrooms none have = true
has_bedrooms (some n) have = n == 0 || elim have [ none ↦ false | some h ↦ leb n h ]

abbrev pub has_room_type : Option Text → Option Text → Bool
has_room_type none have = true
has_room_type (some t) have = is_empty t || elim have [ none ↦ false | some h ↦ text_eq h t ]

-- `where` of `loadCandidates`
unfoldable pub fits_query : AvailabilityQuery → BookableListing → Bool
fits_query q l =
    l.is_bookable
    && leb q.guests l.person_capacity
    && contains_wanted q.city l.city
    && contains_wanted q.region l.region
    && (not q.pets || l.pets_allowed)
    && has_bedrooms q.bedrooms l.bedrooms_number
    && has_room_type q.room_type l.room_type

unfoldable pub load_candidates : AvailabilityQuery → List BookableListing → List BookableListing
load_candidates q listings =
    keep is_visible_for_group_mode (take 100 (keep (fits_query q) listings))

-- The time of the last synchronisation of a listing, among the rows that were read.
abbrev pub latest_sync : List CalendarDay → Option ℕ
latest_sync [] = none
latest_sync (d ∷ days) = elim (latest_sync days) [
  | none ↦ some d.synced_at
  | some t ↦ some (max d.synced_at t)
]

-- `cacheMaxAgeMs`
abbrev pub cache_max_age : ℕ
cache_max_age = 21_600_000

-- `staleListings`
unfoldable pub is_stale : ℕ → List CalendarDay → List ℕ → BookableListing → Bool
is_stale now table nights l =
    let days = days_of table nights l.id in
    not (leb (length nights) (length days))
    || elim (latest_sync days) [ none ↦ true | some t ↦ leb (t + cache_max_age) now ]

-- `syncListingCalendar` for each listing; what Hostaway answers is an argument, and an error ends the
-- search.
unfoldable pub sync_listings :
    ℕ
    → (ℕ → Result Text (List HostawayCalendarDay))
    → List BookableListing
    → Program (List CalendarDay) Text (Unit {0})
sync_listings now answer [] table = (ok tt, table)
sync_listings now answer (l ∷ ls) table =
    continue (λ days t. sync_listings now answer ls (upsert_calendar_days now l.id days t))
      (answer l.hostaway_id, table)

-- `loadCalendarForRange`
unfoldable pub load_calendar :
    ℕ
    → (ℕ → Result Text (List HostawayCalendarDay))
    → List BookableListing
    → List ℕ
    → Bool
    → Program (List CalendarDay) Text (Unit {0})
load_calendar now answer candidates nights live table =
    sync_listings now answer (if live then keep (is_stale now table nights) candidates else [])
      table
