-- ===== src/Availability/Tests.antt =====
-- Runs of the searches, and the theorems at concrete inputs.
use fonio_middleware.Base.{
  ◌≤◌, ◌+◌, arith, refl, ap, ◌↔◌, map, [], ◌≡◌, ◌∷◌, Bool, ℕ, List, All, false, true, some, none,
}
use fonio_middleware.Availability.{
  HostawayCalendarDay, BookableListing, AvailabilityQuery, CalendarDay,
}
use fonio_middleware.Availability.Search.{
  working_results, search_among, search_result, search_listings, SearchResult,
}
use fonio_middleware.Base.Text.{includes, lit, Text}
use fonio_middleware.Availability.Weekends.{
  year_start, weekend_of, month_start, fridays, fridays_of_month, enumerate_weekends,
}
use fonio_middleware.Availability.Evaluate.{
  is_visible_for_group_mode, fits_query, load_candidates, sync_listings, is_stay_available,
  load_calendar, enumerate_dates, evaluate_listing,
}
use fonio_middleware.Availability.Offers.{search_offers, IsOffer}
use fonio_middleware.Availability.Regions.{sort_by_nearby_regions, Point}
use fonio_middleware.Payments.Program.{ok, err, Result}
use fonio_middleware.Availability.Complete.{evaluate_listing_iff, is_open_for, has_night}
use fonio_middleware.Availability.Weekly.{
  enumerate_weekends-eq-every_week, until_friday, fridays_in, every_week,
}
use fonio_middleware.Plan.Calendar.{month_length}
use fonio_middleware.Base.Sort.{sort_with}

abbrev loft : BookableListing
loft = record {
  id = 1;
  hostaway_id = 70;
  parent_hostaway_id = none;
  name = lit "Loft";
  city = some (lit "Norden");
  region = none;
  is_bookable = true;
  person_capacity = 4;
  bedrooms_number = some 2;
  room_type = none;
  pets_allowed = false;
  lat = none;
  lng = none;
  listing_group = none;
}

abbrev row : ℕ → CalendarDay
row date = record {
  listing_id = 1;
  date = date;
  is_available = true;
  min_nights = some 2;
  price = none;
  synced_at = 0;
}

abbrev two_rows : List CalendarDay
two_rows = row 20001 ∷ row 20000 ∷ []

abbrev two_nights : AvailabilityQuery
two_nights = record {
  check_in = 20000;
  check_out = 20002;
  city = some (lit "norden");
  region = none;
  guests = 2;
  pets = false;
  bedrooms = none;
  room_type = none;
  available_only = false;
  nearby = false;
  live_refresh = false;
}

abbrev no_distance : List Point → List Point → ℕ
no_distance a b = 0

abbrev any_order : Text → Text → Bool
any_order a b = true

abbrev no_answer : ℕ → Result Text (List HostawayCalendarDay)
no_answer id = err (lit "down")

-- October 2026: the first weekend is that of the 2nd, the last that of the 30th.
october :
    enumerate_weekends 2026 (some 10) 2
    ≡ map (weekend_of 2) (20728 ∷ 20735 ∷ 20742 ∷ 20749 ∷ 20756 ∷ [])
unfolding enumerate_weekends fridays_of_month fridays month_start month_length
october = refl

evaluate_listing_iff_example :
    (((evaluate_listing two_rows (enumerate_dates 20000 20002) false loft).available ≡ true)
      ↔ All (λ night. has_night two_rows 1 (is_open_for 2) night ≡ true) (20000 ∷ 20001 ∷ []))
    × (((evaluate_listing two_rows (enumerate_dates 20000 20002) false loft).availability_unknown
          ≡ false)
        ↔ All (λ night. has_night two_rows 1 (λ d. true) night ≡ true) (20000 ∷ 20001 ∷ []))
evaluate_listing_iff_example =
    evaluate_listing_iff two_rows 20000 20002 false loft (refl, (refl, tt)) (omega arith)

abbrev found : SearchResult
found =
    search_result no_distance any_order two_nights false (loft ∷ []) (20000 ∷ 20001 ∷ []) two_rows

runs :
    (search_listings no_distance any_order 0 false no_answer (loft ∷ []) two_nights two_rows)
    ≡ (ok found, two_rows)
unfolding search_listings search_among load_calendar sync_listings load_candidates fits_query
    is_visible_for_group_mode enumerate_dates includes
runs = refl

-- The search names the loft as free.
finds_one : found.available_count ≡ 1
unfolding search_result working_results sort_by_nearby_regions evaluate_listing is_stay_available
    sort_with
finds_one = refl

search_offers_example :
    All
      (IsOffer two_nights
        (loft ∷ [])
        (search_listings no_distance any_order 0 false no_answer (loft ∷ []) two_nights two_rows).1)
      found.results
search_offers_example =
    search_offers no_distance any_order 0 no_answer two_nights false (loft ∷ []) two_rows found
      (refl, (refl, tt)) (ap (λ x. x.0) runs)

enumerate_weekends-eq-every_week_example :
    (enumerate_weekends 2026 none 2
      ≡ map
          (weekend_of 2)
          (every_week (fridays_in 2026) (year_start 2026 + until_friday (year_start 2026))))
    × (52 ≤ fridays_in 2026)
    × (fridays_in 2026 ≤ 53)
enumerate_weekends-eq-every_week_example = enumerate_weekends-eq-every_week 2026 2
