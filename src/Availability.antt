-- ===== src/Availability.antt =====
-- Which listings are free for a caller's dates (src/fonio/fonio-availability.service.ts), over the
-- calendar that is kept for them (src/hostaway/hostaway-sync.service.ts: syncListingCalendar). The text
-- of a day is the number of that day.
pub mod Calendar
pub mod Evaluate
pub mod Regions
pub mod Search
pub mod Complete
pub mod Offers
pub mod Weekends
pub mod Weekly
pub mod WeekendSearch
mod Tests
use fonio_middleware.Base.{ℕ, Option, List, Bool}
use fonio_middleware.Base.Text.{Text}
use fonio_middleware.Base.Int.{ℤ}

-- A row of `calendarDay`; there is one for each listing and day.
pub record CalendarDay : Type 0 where
  pub listing_id : ℕ
  pub date : ℕ
  pub is_available : Bool
  pub min_nights : Option ℕ
  pub price : Option ℤ
  pub synced_at : ℕ

pub data AvailabilityMode : Type 0 where
  parent_only children_only both : AvailabilityMode

pub record ListingGroup : Type 0 where
  pub group_name : Text
  pub hostaway_parent_id : ℕ
  pub availability_mode : AvailabilityMode

-- Coordinates are whole millionths of a degree.
pub record BookableListing : Type 0 where
  pub id : ℕ
  pub hostaway_id : ℕ
  pub parent_hostaway_id : Option ℕ
  pub name : Text
  pub city : Option Text
  pub region : Option Text
  pub is_bookable : Bool
  pub person_capacity : ℕ
  pub bedrooms_number : Option ℕ
  pub room_type : Option Text
  pub pets_allowed : Bool
  pub lat : Option ℤ
  pub lng : Option ℤ
  pub listing_group : Option ListingGroup

-- `AvailabilityResultItem`
pub record AvailabilityItem : Type 0 where
  pub listing_hostaway_id : ℕ
  pub name : Text
  pub city : Option Text
  pub max_guests : ℕ
  pub bedrooms : Option ℕ
  pub room_type : Option Text
  pub pets_allowed : Bool
  pub available : Bool
  pub availability_unknown : Bool
  pub group_name : Option Text
  pub lat : Option ℤ
  pub lng : Option ℤ

-- `AvailabilityQueryDto`
pub record AvailabilityQuery : Type 0 where
  pub check_in : ℕ
  pub check_out : ℕ
  pub city : Option Text
  pub region : Option Text
  pub guests : ℕ
  pub pets : Bool
  pub bedrooms : Option ℕ
  pub room_type : Option Text
  pub available_only : Bool
  pub nearby : Bool
  pub live_refresh : Bool

-- A day as Hostaway has it.
pub record HostawayCalendarDay : Type 0 where
  pub date : ℕ
  pub is_available : ℕ
  pub minimum_stay : Option ℕ
  pub price : Option ℤ
