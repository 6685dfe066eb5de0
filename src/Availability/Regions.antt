-- ===== src/Availability/Regions.antt =====
-- Other regions with free listings, nearest first: `groupNearbyRegions` and `sameCity` of
-- src/common/utils/geo.util.ts, and `sortByNearbyRegions` of src/fonio/fonio-availability.service.ts.
-- The rounded distance in km of two centroids and the order of the German collation are parameters.
use fonio_middleware.Base.{
  ◌||◌, ◌++◌, ltb, ◌==◌, map, is_some, ◌+◌, ◌&&◌, or_else, not, length, if◌then◌else◌, ◌∷◌, ℕ, [],
  Bool, Option, List, false, true, some, none,
}
use fonio_middleware.Availability.{AvailabilityItem}
use fonio_middleware.Base.Text.{lit, text_eq, is_empty, trim, to_lower, Text}
use fonio_middleware.Base.Int.{ℤ}
use fonio_middleware.Base.Sort.{sort_with}

abbrev pub Point : Type 0
Point = ℤ × ℤ

-- `NearbyRegion`
pub record NearbyRegion : Type 0 where
  pub city : Text
  pub available_count : ℕ
  pub distance_km : Option ℕ
  pub listing_ids : List ℕ

pub record RegionGroup : Type 0 where
  pub city : Text
  pub listing_ids : List ℕ
  pub points : List Point

abbrev pub city_key : Option Text → Text
city_key c = to_lower (trim (or_else c []))

unfoldable pub same_city : Option Text → Option Text → Bool
same_city a b =
    not (is_empty (city_key a)) && not (is_empty (city_key b)) && text_eq (city_key a) (city_key b)

-- `city?.trim() || 'andere Orte'`
abbrev pub region_name : Option Text → Text
region_name c = let t = trim (or_else c []) in if is_empty t then lit "andere Orte" else t

abbrev pub points_of : Option ℤ → Option ℤ → List Point
points_of none lng = []
points_of (some lat) none = []
points_of (some lat) (some lng) = (lat, lng) ∷ []

-- A `Map` keeps its keys in the order in which they came.
unfoldable pub add_to_groups : AvailabilityItem → List RegionGroup → List RegionGroup
add_to_groups i [] =
    record {
      city = region_name i.city;
      listing_ids = i.listing_hostaway_id ∷ [];
      points = points_of i.lat i.lng;
    }
    ∷ []
add_to_groups i (g ∷ gs) =
    let others = add_to_groups i gs in
    if text_eq g.city (region_name i.city)
    then record g {
      listing_ids = g.listing_ids ++ i.listing_hostaway_id ∷ [];
      points = g.points ++ points_of i.lat i.lng;
    }
      ∷ gs
    else g ∷ others

-- The listings that are counted: free ones, outside the city that is left out.
abbrev pub is_counted : Option Text → AvailabilityItem → Bool
is_counted exclude i = i.available && not (is_some exclude && same_city i.city exclude)

unfoldable pub groups_of : Option Text → List AvailabilityItem → List RegionGroup → List RegionGroup
groups_of exclude [] groups = groups
groups_of exclude (i ∷ items) groups =
    groups_of exclude items (if is_counted exclude i then add_to_groups i groups else groups)

module _ (distance : List Point → List Point → ℕ) (collate : Text → Text → Bool) where
  abbrev pub region_of : List Point → RegionGroup → NearbyRegion
  region_of origin g = record {
    city = g.city;
    available_count = length g.listing_ids;
    distance_km =
        if length origin == 0 || length g.points == 0
        then none
        else some (distance origin g.points);
    listing_ids = g.listing_ids;
  }

  -- The comparison of regions lets the first stand before the second.
  unfoldable pub nearer : NearbyRegion → NearbyRegion → Bool
  nearer a b = elim a.distance_km [
    | none ↦ elim b.distance_km [ none ↦ collate a.city b.city | some e ↦ false ]
    | some d ↦ elim b.distance_km [
      | none ↦ true
      | some e ↦ if d == e then collate a.city b.city else ltb d e
    ]
  ]

  unfoldable pub group_nearby_regions :
      List AvailabilityItem → List Point → Option Text → List NearbyRegion
  group_nearby_regions items origin exclude =
      sort_with nearer (map (region_of origin) (groups_of exclude items []))

  -- The last region of that name counts, as in a `Map` made of pairs; 999 stands for none.
  unfoldable pub region_index : Text → List NearbyRegion → ℕ → Option ℕ
  region_index city [] i = none
  region_index city (r ∷ rs) i =
      let later = region_index city rs (i + 1) in
      elim later [
        | some j ↦ some j
        | none ↦ if text_eq (to_lower r.city) city then some i else none
      ]

  unfoldable pub region_before : List NearbyRegion → AvailabilityItem → AvailabilityItem → Bool
  region_before regions a b =
      let ai = or_else (region_index (city_key a.city) regions 0) 999 in
      let bi = or_else (region_index (city_key b.city) regions 0) 999 in
      if ai == bi then collate a.name b.name else ltb ai bi

  unfoldable pub sort_by_nearby_regions :
      List AvailabilityItem → List NearbyRegion → List AvailabilityItem
  sort_by_nearby_regions items [] = items
  sort_by_nearby_regions items (r ∷ rs) = sort_with (region_before (r ∷ rs)) items
