-- ===== src/Availability/WeekendSearch.antt =====
-- `searchWeekends` of src/fonio/fonio-availability.service.ts, less its labels and its German summary.
use fonio_middleware.Base.{
  take, ltb, keep, ◌||◌, map, ◌==◌, not, ◌&&◌, or_else, any, ◌++◌, if◌then◌else◌, [], Bool, ◌∷◌,
  length, Option, ℕ, List, false,
}
use fonio_middleware.Availability.{
  HostawayCalendarDay, CalendarDay, BookableListing, AvailabilityQuery, AvailabilityItem,
}
use fonio_middleware.Availability.Weekends.{enumerate_weekends, Weekend}
use fonio_middleware.Availability.Regions.{group_nearby_regions, same_city, Point, NearbyRegion}
use fonio_middleware.Base.Text.{lit, text_eq, is_empty, trim, Text}
use fonio_middleware.Availability.Evaluate.{
  load_calendar, load_candidates, evaluate_listing, is_night, enumerate_dates,
}
use fonio_middleware.Payments.Program.{err, ok, continue, Program, Result}
use fonio_middleware.Availability.Search.{candidate_query, origin_city_of, origin_from_candidates}
use fonio_middleware.Base.Sort.{sort_with}

-- `WeekendAvailabilitySlot`
pub record WeekendSlot : Type 0 where
  pub weekend : Weekend
  pub available_count : ℕ
  pub listing_names : List Text
  pub slot_listings : List AvailabilityItem

-- What a weekend search asks for beside the filter, whose dates are not read, and whose `available_only`
-- holds unless the query says no.
pub record WeekendQuery : Type 0 where
  pub filter : AvailabilityQuery
  pub year : ℕ
  pub month : Option ℕ
  pub nights : Option ℕ
  pub limit : Option ℕ

-- `WeekendAvailabilitySearchResult`
pub record WeekendResult : Type 0 where
  pub weekends_checked : ℕ
  pub weekends_with_availability : ℕ
  pub weekends : List WeekendSlot
  pub nearby_regions : List NearbyRegion
  pub is_truncated : Bool
  pub cache_incomplete : ℕ

abbrev pub nights_of : Weekend → List ℕ
nights_of w = enumerate_dates w.check_in w.check_out

-- `uniqueDates`
unfoldable pub unique_dates : List ℕ → List ℕ → List ℕ
unique_dates seen [] = []
unique_dates seen (d ∷ days) =
    let known = unique_dates seen days in
    let new = unique_dates (d ∷ seen) days in if is_night seen d then known else d ∷ new

abbrev pub all_nights : List Weekend → List ℕ
all_nights [] = []
all_nights (w ∷ ws) = nights_of w ++ all_nights ws

-- The cities of the free listings, each once, in the order in which they come.
unfoldable pub city_names : List Text → List AvailabilityItem → List Text
city_names seen [] = []
city_names seen (i ∷ items) =
    let city = trim (or_else i.city []) in
    let known = city_names seen items in
    let new = city_names (city ∷ seen) items in
    if is_empty city || any (text_eq city) seen then known else city ∷ new

-- `availableAnywhere`
unfoldable pub add_missing : List AvailabilityItem → List AvailabilityItem → List AvailabilityItem
add_missing known [] = known
add_missing known (i ∷ items) =
    add_missing
      (if any (λ k. k.listing_hostaway_id == i.listing_hostaway_id) known
        then known
        else known ++ i ∷ [])
      items

-- `unknownListingIds`
unfoldable pub add_unknown : List ℕ → List AvailabilityItem → List ℕ
add_unknown ids [] = ids
add_unknown ids (i ∷ items) =
    add_unknown
      (if i.availability_unknown && not (any (λ id. id == i.listing_hostaway_id) ids)
        then i.listing_hostaway_id ∷ ids
        else ids)
      items

-- `collate` is the German order of texts, and `by_name` that of the default locale.
module _ (distance : List Point → List Point → ℕ) (collate by_name : Text → Text → Bool)
    (q : AvailabilityQuery) (live : Bool) (candidates : List BookableListing)
    (table : List CalendarDay) where
  unfoldable pub weekend_items : Weekend → List AvailabilityItem
  weekend_items w = map (evaluate_listing table (nights_of w) live) candidates

  -- The free listings of a weekend, by their names.
  unfoldable pub free_items : Weekend → List AvailabilityItem
  free_items w =
      sort_with (λ a b. by_name a.name b.name)
        (keep (λ i. not q.nearby || not (same_city i.city (origin_city_of q)))
          (keep (λ i. i.available) (weekend_items w)))

  unfoldable pub slot_of : Weekend → WeekendSlot
  slot_of w = record {
    weekend = w;
    available_count = length (free_items w);
    listing_names =
        if q.nearby then city_names [] (free_items w) else map (λ i. i.name) (free_items w);
    slot_listings = if q.available_only then free_items w else weekend_items w;
  }

  -- The loop over the weekends; those without a free listing are left out if only free ones are wanted.
  unfoldable pub slots_of : List Weekend → List WeekendSlot
  slots_of [] = []
  slots_of (w ∷ ws) =
      let others = slots_of ws in
      if q.available_only && length (free_items w) == 0 then others else slot_of w ∷ others

  abbrev pub free_anywhere : List Weekend → List AvailabilityItem → List AvailabilityItem
  free_anywhere [] known = known
  free_anywhere (w ∷ ws) known = free_anywhere ws (add_missing known (free_items w))

  abbrev pub unknown_ids : List Weekend → List ℕ → List ℕ
  unknown_ids [] ids = ids
  unknown_ids (w ∷ ws) ids = unknown_ids ws (add_unknown ids (weekend_items w))

  unfoldable pub weekend_result : List Weekend → Option ℕ → WeekendResult
  weekend_result ws limit =
      let slots = slots_of ws in
      let most = or_else limit 8 in
      let origin = origin_from_candidates candidates (origin_city_of q) in
      record {
        weekends_checked = length ws;
        weekends_with_availability = length (keep (λ s. ltb 0 s.available_count) slots);
        weekends = take most slots;
        nearby_regions =
            if q.nearby
            then group_nearby_regions distance collate (free_anywhere ws []) origin
                (origin_city_of q)
            else [];
        is_truncated = ltb most (length slots);
        cache_incomplete = length (unknown_ids ws []);
      }

abbrev pub no_weekends : List Weekend → WeekendResult
no_weekends ws = record {
  weekends_checked = length ws;
  weekends_with_availability = 0;
  weekends = [];
  nearby_regions = [];
  is_truncated = false;
  cache_incomplete = 0;
}

module _ (distance : List Point → List Point → ℕ) (collate by_name : Text → Text → Bool) where
  unfoldable pub weekends_among :
      ℕ
      → Bool
      → (ℕ → Result Text (List HostawayCalendarDay))
      → List BookableListing
      → List Weekend
      → WeekendQuery
      → Program (List CalendarDay) Text WeekendResult
  weekends_among now live answer candidates ws w table =
      continue
        (λ done table. (
          ok (weekend_result distance collate by_name w.filter live candidates table ws w.limit),
          table,
        ))
        (load_calendar now answer candidates (unique_dates [] (all_nights ws)) live table)

  -- `searchWeekends`
  unfoldable pub search_weekends :
      ℕ
      → Bool
      → (ℕ → Result Text (List HostawayCalendarDay))
      → List BookableListing
      → WeekendQuery
      → Program (List CalendarDay) Text WeekendResult
  search_weekends now live_default answer listings w table =
      let ws = enumerate_weekends w.year w.month (or_else w.nights 2) in
      let candidates = load_candidates (candidate_query w.filter) listings in
      if length ws == 0
      then (err (lit "No weekends found for the given year/month"), table)
      else if length candidates == 0
      then (ok (no_weekends ws), table)
      else weekends_among now (w.filter.live_refresh || live_default) answer candidates ws w table
