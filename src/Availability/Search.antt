-- ===== src/Availability/Search.antt =====
-- `search` of src/fonio/fonio-availability.service.ts, less its German summary.
use fonio_middleware.Base.{
  ◌==◌, length, ◌++◌, or_else, map, is_some, ◌∷◌, ◌&&◌, [], not, keep, ◌||◌, ℕ, if◌then◌else◌,
  Option, List, Bool, false, some, none,
}
use fonio_middleware.Availability.{
  HostawayCalendarDay, CalendarDay, BookableListing, AvailabilityQuery, AvailabilityItem,
}
use fonio_middleware.Availability.Regions.{
  sort_by_nearby_regions, group_nearby_regions, points_of, same_city, NearbyRegion, Point,
}
use fonio_middleware.Base.Sort.{sort_with}
use fonio_middleware.Base.Text.{lit, is_empty, trim, Text}
use fonio_middleware.Payments.Program.{continue, ok, err, Program, Result}
use fonio_middleware.Availability.Evaluate.{
  load_calendar, load_candidates, enumerate_dates, evaluate_listing,
}

-- `AvailabilitySearchResult`
pub record SearchResult : Type 0 where
  pub results : List AvailabilityItem
  pub available_count : ℕ
  pub nearby_regions : List NearbyRegion
  pub is_live : Bool
  pub cache_incomplete : ℕ

-- `city?.trim() || undefined`
abbrev pub origin_city_of : AvailabilityQuery → Option Text
origin_city_of q = let t = trim (or_else q.city []) in if is_empty t then none else some t

-- `candidateQuery`
abbrev pub candidate_query : AvailabilityQuery → AvailabilityQuery
candidate_query q = if q.nearby then record q { city = none; region = none } else q

-- The points of `originFromCandidates`.
unfoldable pub origin_from_candidates : List BookableListing → Option Text → List Point
origin_from_candidates [] city = []
origin_from_candidates (l ∷ ls) city =
    (if is_some city && not (same_city l.city city) then [] else points_of l.lat l.lng)
    ++ origin_from_candidates ls city

-- Free listings first, otherwise in the order of the candidates.
abbrev pub free_first : AvailabilityItem → AvailabilityItem → Bool
free_first a b = a.available || not b.available

-- What is left of the evaluated candidates.
unfoldable pub working_results : AvailabilityQuery → List AvailabilityItem → List AvailabilityItem
working_results q items =
    let here = sort_with free_first items in
    let away = keep (λ i. i.available && not (same_city i.city (origin_city_of q))) items in
    let working = if q.nearby then away else here in
    if q.available_only then keep (λ i. i.available) working else working

module _ (distance : List Point → List Point → ℕ) (collate : Text → Text → Bool) where
  unfoldable pub search_result :
      AvailabilityQuery → Bool → List BookableListing → List ℕ → List CalendarDay → SearchResult
  search_result q live candidates nights table =
      let items = map (evaluate_listing table nights live) candidates in
      let origin = origin_from_candidates candidates (origin_city_of q) in
      let regions : List NearbyRegion =
        if q.nearby
        then group_nearby_regions distance collate items origin (origin_city_of q)
        else [] in
      let working = sort_by_nearby_regions distance collate (working_results q items) regions in
      record {
        results = working;
        available_count = length (keep (λ i. i.available) working);
        nearby_regions = regions;
        is_live = live;
        cache_incomplete = length (keep (λ i. i.availability_unknown) items);
      }

  abbrev pub no_results : SearchResult
  no_results = record {
    results = [];
    available_count = 0;
    nearby_regions = [];
    is_live = false;
    cache_incomplete = 0;
  }

  -- With a candidate: the calendar is loaded, and then evaluated.
  unfoldable pub search_among :
      ℕ
      → Bool
      → (ℕ → Result Text (List HostawayCalendarDay))
      → List BookableListing
      → List ℕ
      → AvailabilityQuery
      → Program (List CalendarDay) Text SearchResult
  search_among now live answer candidates nights q table =
      continue (λ done table. (ok (search_result q live candidates nights table), table))
        (load_calendar now answer candidates nights live table)

  -- `search`: the time, the setting for live refreshes, the answers of Hostaway, and the listings.
  unfoldable pub search_listings :
      ℕ
      → Bool
      → (ℕ → Result Text (List HostawayCalendarDay))
      → List BookableListing
      → AvailabilityQuery
      → Program (List CalendarDay) Text SearchResult
  search_listings now live_default answer listings q table =
      let nights = enumerate_dates q.check_in q.check_out in
      let candidates = load_candidates (candidate_query q) listings in
      if length nights == 0
      then (err (lit "checkOut must be after checkIn"), table)
      else if length candidates == 0
      then (ok no_results, table)
      else search_among now (q.live_refresh || live_default) answer candidates nights q table
