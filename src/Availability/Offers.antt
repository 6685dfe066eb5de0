-- ===== src/Availability/Offers.antt =====
-- What a caller is told: every listing that a search names as free fits the query and is free.
use fonio_middleware.Base.{
  ◌||◌, ltb, ◌==◌, length, subst, if◌then◌else◌, not, ◌&&◌, refl, All-mono, sym, ap, ◌-◌, ◌<◌, ◌↔◌,
  inr, arith, inl, All-keep, [], Bool-cases, ◌≡◌, ◌∷◌, take, map, keep, All, ℕ, List, Bool, false,
  true,
}
use fonio_middleware.Base.Every.{All-map, All-take, All-kept, All-both, All-Mem, All-if}
use mathlib.Core.List.{Mem}
use fonio_middleware.Availability.{
  HostawayCalendarDay, CalendarDay, BookableListing, AvailabilityQuery, AvailabilityItem,
}
use fonio_middleware.Availability.Evaluate.{
  is_stale, load_calendar, sync_listings, enumerate_dates, evaluate_listing,
  is_visible_for_group_mode, fits_query, load_candidates,
}
use fonio_middleware.Availability.Search.{
  search_listings, search_result, search_among, SearchResult, free_first, origin_city_of,
  working_results, candidate_query,
}
use fonio_middleware.Availability.Calendar.{
  upsert_calendar_days-IsUnique, upsert_calendar_days, IsUnique,
}
use fonio_middleware.Availability.Complete.{evaluate_listing_iff, is_open_for, has_night}
use fonio_middleware.Payments.Program.{ok, continue_keeps, Result}
use fonio_middleware.Base.Text.{Text}
use fonio_middleware.Check24.Calendar.Nights.{span}
use fonio_middleware.Availability.Regions.{
  region_before, same_city, NearbyRegion, Point, sort_by_nearby_regions,
}
use fonio_middleware.Base.Sort.{sort_with, All-sort_with}

-- Each night of the stay has a row that is available and wants no longer stay.
abbrev pub IsOpenStay : AvailabilityQuery → List CalendarDay → BookableListing → Type 0
IsOpenStay q table l =
    All (λ night. has_night table l.id (is_open_for (q.check_out - q.check_in)) night ≡ true)
      (span q.check_in (q.check_out - q.check_in))

-- The item is one of the listings, which fits the query, is shown in its group, and is named free
-- exactly if it is.
abbrev pub IsOffer :
    AvailabilityQuery → List BookableListing → List CalendarDay → AvailabilityItem → Type 0
IsOffer q listings table i =
    (l : BookableListing) × Mem l listings
    × (fits_query (candidate_query q) l ≡ true)
    × (is_visible_for_group_mode l ≡ true)
    × (i.listing_hostaway_id ≡ l.hostaway_id)
    × ((i.available ≡ true) ↔ IsOpenStay q table l)

-- The candidates are listings that fit the query and are shown.
abbrev IsCandidate : AvailabilityQuery → List BookableListing → BookableListing → Type 0
IsCandidate q listings l =
    Mem l listings × (fits_query q l ≡ true) × (is_visible_for_group_mode l ≡ true)

load_candidates-IsCandidate :
    (q : AvailabilityQuery) (listings : List BookableListing)
    → All (IsCandidate q listings) (load_candidates q listings)
unfolding load_candidates
load_candidates-IsCandidate q listings =
    let Fits : BookableListing → Type 0 = λ l. Mem l listings × (fits_query q l ≡ true) in
    let fitting : List BookableListing = take 100 (keep (fits_query q) listings) in
    let fits : All Fits fitting = All-take Fits 100 (keep (fits_query q) listings) (
      All-both (λ l. Mem l listings) (λ l. fits_query q l ≡ true) (keep (fits_query q) listings)
        (All-kept (λ l. Mem l listings) (fits_query q) listings (All-Mem listings))
        (All-keep (fits_query q) listings)) in
    All-mono (λ l h. (h.0.0, h.0.1, h.1)) (keep is_visible_for_group_mode fitting)
      (All-both Fits (λ l. is_visible_for_group_mode l ≡ true)
        (keep is_visible_for_group_mode fitting)
        (All-kept Fits is_visible_for_group_mode fitting fits)
        (All-keep is_visible_for_group_mode fitting))

sync_listings-IsUnique :
    (now : ℕ) (answer : ℕ → Result Text (List HostawayCalendarDay)) (ls : List BookableListing)
    (table : List CalendarDay)
    → IsUnique table
    → IsUnique (sync_listings now answer ls table).1
unfolding sync_listings
sync_listings-IsUnique now answer [] table h = h
sync_listings-IsUnique now answer (l ∷ ls) table h =
    continue_keeps (λ x. IsUnique x.1)
      (λ days t. sync_listings now answer ls (upsert_calendar_days now l.id days t))
      (answer l.hostaway_id, table)
      (λ days t e.
        let same : t ≡ table = ap (λ x. x.1) (sym e) in
        sync_listings-IsUnique now answer ls (upsert_calendar_days now l.id days t)
          (upsert_calendar_days-IsUnique now l.id days t (rw same h)))
      (λ message t e. let same : t ≡ table = ap (λ x. x.1) (sym e) in rw same h)

module _ (q : AvailabilityQuery) (listings : List BookableListing) (live : Bool)
    (table : List CalendarDay) (unique : IsUnique table) (later : q.check_in < q.check_out) where
  evaluate_listing-IsOffer :
      (l : BookableListing)
      → IsCandidate (candidate_query q) listings l
      → IsOffer q listings table
          (evaluate_listing table (enumerate_dates q.check_in q.check_out) live l)
  unfolding evaluate_listing
  evaluate_listing-IsOffer l h = (
    l,
    h.0,
    h.1,
    h.2,
    refl,
    (evaluate_listing_iff table q.check_in q.check_out live l unique later).0,
  )

  evaluated-IsOffer :
      (ls : List BookableListing)
      → All (IsCandidate (candidate_query q) listings) ls
      → All
          (IsOffer q listings table)
          (map (evaluate_listing table (enumerate_dates q.check_in q.check_out) live) ls)
  evaluated-IsOffer ls h =
      All-map (IsOffer q listings table)
        (evaluate_listing table (enumerate_dates q.check_in q.check_out) live) ls
        (All-mono evaluate_listing-IsOffer ls h)

-- Sorting and filtering bring nothing in.
working_results-All {κ} :
    (q : AvailabilityQuery) (P : AvailabilityItem → Type κ) (items : List AvailabilityItem)
    → All P items
    → All P (working_results q items)
unfolding working_results
working_results-All q P items h =
    let away : AvailabilityItem → Bool =
      λ i. i.available && not (same_city i.city (origin_city_of q)) in
    let here : All P (sort_with free_first items) = All-sort_with free_first P items h in
    let there : All P (keep away items) = All-kept P away items h in
    let shown : All P (if q.nearby then keep away items else sort_with free_first items) =
      All-if P q.nearby (keep away items) (sort_with free_first items) there here in
    All-if P q.available_only
      (keep (λ i. i.available) (if q.nearby then keep away items else sort_with free_first items))
      (if q.nearby then keep away items else sort_with free_first items)
      (All-kept P (λ i. i.available)
        (if q.nearby then keep away items else sort_with free_first items) shown)
      shown

sort_by_nearby_regions-All {κ} :
    (distance : List Point → List Point → ℕ) (collate : Text → Text → Bool)
    (P : AvailabilityItem → Type κ) (items : List AvailabilityItem) (regions : List NearbyRegion)
    → All P items
    → All P (sort_by_nearby_regions distance collate items regions)
unfolding sort_by_nearby_regions
sort_by_nearby_regions-All distance collate P items [] h = h
sort_by_nearby_regions-All distance collate P items (r ∷ rs) h =
    All-sort_with (region_before distance collate (r ∷ rs)) P items h

-- What a search returns, with the calendar that it leaves, are offers.
abbrev MakesOffers :
    AvailabilityQuery → List BookableListing → Result Text SearchResult × List CalendarDay → Type 0
MakesOffers q listings x = (r : SearchResult) → x.0 ≡ ok r → All (IsOffer q listings x.1) r.results

ok_inj : {E A : Type 0} {a b : A} → ◌≡◌ {A = Result E A} (ok a) (ok b) → a ≡ b
ok_inj e = cc

-- A stay with nights ends after it begins.
nights_later :
    (q : AvailabilityQuery)
    → (length (enumerate_dates q.check_in q.check_out) == 0) ≡ false
    → q.check_in < q.check_out
unfolding enumerate_dates
nights_later q some_left = elim (Bool-cases (ltb q.check_in q.check_out)) [
  | inl later ↦ ground (arith, later)
  | inr not_later ↦
      let rounds : q.check_out - q.check_in ≡ 0 = ground (arith, not_later) in
      absurd (ground (arith, some_left, rounds))
]

module _ (distance : List Point → List Point → ℕ) (collate : Text → Text → Bool) (now : ℕ)
    (answer : ℕ → Result Text (List HostawayCalendarDay)) (q : AvailabilityQuery) where
  search_result-IsOffer :
      (listings : List BookableListing) (live : Bool) (candidates : List BookableListing)
      (table : List CalendarDay)
      → IsUnique table
      → q.check_in < q.check_out
      → All (IsCandidate (candidate_query q) listings) candidates
      → All
          (IsOffer q listings table)
          (search_result distance collate q live candidates
            (enumerate_dates q.check_in q.check_out)
            table).results
  unfolding search_result
  search_result-IsOffer listings live candidates table unique later h =
      sort_by_nearby_regions-All distance collate (IsOffer q listings table) _ _ (
        working_results-All q (IsOffer q listings table) _
          (evaluated-IsOffer q listings live table unique later candidates h))

  search_among-MakesOffers :
      (listings : List BookableListing) (live : Bool) (candidates : List BookableListing)
      (table : List CalendarDay)
      → IsUnique table
      → q.check_in < q.check_out
      → All (IsCandidate (candidate_query q) listings) candidates
      → MakesOffers q listings (
          search_among distance collate now live answer candidates
            (enumerate_dates q.check_in q.check_out)
            q
            table)
  unfolding search_among load_calendar
  search_among-MakesOffers listings live candidates table unique later h =
      let nights : List ℕ = enumerate_dates q.check_in q.check_out in
      let stale : List BookableListing =
        if live then keep (is_stale now table nights) candidates else [] in
      let fresh = sync_listings-IsUnique now answer stale table unique in
      continue_keeps (MakesOffers q listings)
        (λ done t. (ok (search_result distance collate q live candidates nights t), t))
        (sync_listings now answer stale table)
        (λ done t e r made.
          let unique_now : IsUnique t = subst (λ x. IsUnique x.1) e fresh in
          let result : search_result distance collate q live candidates nights t ≡ r = cc in
          subst (λ (x : SearchResult). All (IsOffer q listings t) x.results) result
            (search_result-IsOffer listings live candidates t unique_now later h))
        (λ message t e r made. absurd (cc))

  search_listings-MakesOffers :
      (live_default : Bool) (listings : List BookableListing) (table : List CalendarDay)
      → IsUnique table
      → MakesOffers q listings
          (search_listings distance collate now live_default answer listings q table)
  unfolding search_listings
  search_listings-MakesOffers live_default listings table unique =
      let nights : List ℕ = enumerate_dates q.check_in q.check_out in
      let candidates : List BookableListing = load_candidates (candidate_query q) listings in
      elim (Bool-cases (length nights == 0)) [
        | inl none_left ↦ rw none_left (λ r e. absurd (cc))
        | inr some_left ↦ elim (Bool-cases (length candidates == 0)) [
          | inl nobody ↦
              rw (some_left, nobody)
                (λ r e.
                  subst (λ (x : SearchResult). All (IsOffer q listings table) x.results) (ok_inj e)
                    tt)
          | inr somebody ↦
              rw (some_left, somebody)
                (search_among-MakesOffers listings (q.live_refresh || live_default) candidates table
                  unique (nights_later q some_left)
                  (load_candidates-IsCandidate (candidate_query q) listings))
        ]
      ]

  -- Every item that a search returns is one of the listings, which fits the query and is shown in its
  -- group, and it is named free exactly if the calendar that the search leaves has an open row for each night of the stay, none of
  -- which wants a longer stay. The calendar had one row for each listing and day; Hostaway may
  -- answer the refresh as it likes.
  pub search_offers :
      (live_default : Bool) (listings : List BookableListing) (table : List CalendarDay)
      (r : SearchResult)
      → IsUnique table
      → (search_listings distance collate now live_default answer listings q table).0 ≡ ok r
      → All
          (IsOffer q listings
            (search_listings distance collate now live_default answer listings q table).1)
          r.results
  search_offers live_default listings table r unique =
      search_listings-MakesOffers live_default listings table unique r
