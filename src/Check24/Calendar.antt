-- ===== src/Check24/Calendar.antt =====
-- src/check24/check24-calendar.util.ts: the local calendar of a listing as the date ranges that
-- CHECK24 takes. A `Date` is its number of milliseconds since 1970, and the text `ymd(date)` of a
-- day is the number of that day, which it names one to one.
pub mod Nights
pub mod Ranges
pub mod Maximal
mod Tests
use fonio_middleware.Base.{
  some, false, none, zero, suc, ◌-◌, zero, ltb, ◌==◌, suc, keep, if◌then◌else◌, ◌∷◌, ◌/◌, ◌+◌, ◌*◌,
  ◌&&◌, or_else, not, [], ℕ, true, Option, List, Bool,
}
use fonio_middleware.Base.Int.{ltb_ℤ, pos, leb_ℤ, ℤ}
use fonio_middleware.Base.Sort.{sort_by}

abbrev pub day_ms : ℕ
day_ms = 86_400_000

pub record LocalCalendarDay : Type 0 where
  pub date : ℕ
  pub is_available : Bool
  pub min_nights : Option ℕ
  pub price : Option ℤ

pub record Check24Availability : Type 0 where
  pub date_from : ℕ
  pub date_to : ℕ
  pub open_for_booking : Bool
  pub min_stay : Option ℕ
  pub checkin_possible : Bool
  pub checkout_possible : Bool

pub record Check24StandardPricing : Type 0 where
  pub date_from : ℕ
  pub date_to : ℕ
  pub daily_price : ℤ

abbrev pub ymd : ℕ → ℕ
ymd date = date / day_ms

abbrev pub add_days : ℕ → ℕ → ℕ
add_days date days = date + days * day_ms

-- The loop of `eachNightYmd` from `d`, on fuel.
unfoldable pub nights_from : ℕ → ℕ → ℕ → List ℕ
nights_from zero d to = []
nights_from (suc fuel) d to =
    let rest = nights_from fuel (add_days d 1) to in if ltb d to then ymd d ∷ rest else []

-- `eachNightYmd`: both texts name days, so that the loop makes one round for each day between.
unfoldable pub each_night_ymd : ℕ → ℕ → List ℕ
each_night_ymd date_from date_to =
    let from = date_from * day_ms in
    let to = date_to * day_ms in
    if ltb from to then nights_from (date_to - date_from) from to else []

-- `start`, `end`, `open` and `minStay` of the loop in `buildAvailabilityRanges`.
pub record Run : Type 0 where
  pub start : LocalCalendarDay
  pub end_day : LocalCalendarDay
  pub is_open : Bool
  pub min_stay : Option ℕ

abbrev pub run_of : LocalCalendarDay → Run
run_of day = record {
  start = day;
  end_day = day;
  is_open = day.is_available;
  min_stay = day.min_nights;
}

-- `flush`
abbrev pub flush : Run → Check24Availability
flush r = record {
  date_from = ymd r.start.date;
  date_to = ymd r.end_day.date;
  open_for_booking = r.is_open;
  min_stay = r.min_stay;
  checkin_possible = r.is_open;
  checkout_possible = true;
}

abbrev pub bool_eq : Bool → Bool → Bool
bool_eq true b = b
bool_eq false b = not b

abbrev pub option_eq : Option ℕ → Option ℕ → Bool
option_eq none none = true
option_eq none (some b) = false
option_eq (some a) none = false
option_eq (some a) (some b) = a == b

-- `same`: the day carries the run on.
pub continues : Run → LocalCalendarDay → Bool
continues r day =
    bool_eq day.is_available r.is_open
    && (option_eq day.min_nights r.min_stay && ymd day.date == ymd (add_days r.end_day.date 1))

-- The loop over the sorted days behind the first, with the last `flush`.
pub ranges_from : Run → List LocalCalendarDay → List Check24Availability
ranges_from r [] = flush r ∷ []
ranges_from r (day ∷ days) =
    let same = ranges_from (record r { end_day = day }) days in
    let fresh = flush r ∷ ranges_from (run_of day) days in if continues r day then same else fresh

pub ranges_of_sorted : List LocalCalendarDay → List Check24Availability
ranges_of_sorted [] = []
ranges_of_sorted (day ∷ days) = ranges_from (run_of day) days

pub build_availability_ranges : List LocalCalendarDay → List Check24Availability
build_availability_ranges days = ranges_of_sorted (sort_by (λ d. d.date) days)

-- `d.price != null && d.price > 0`
abbrev is_priced : LocalCalendarDay → Bool
is_priced d = elim d.price [ none ↦ false | some p ↦ ltb_ℤ (pos 0) p ]

-- `price as number`; the days that are left have one.
abbrev price_of : LocalCalendarDay → ℤ
price_of d = or_else d.price (pos 0)

abbrev int_eq : ℤ → ℤ → Bool
int_eq a b = leb_ℤ a b && leb_ℤ b a

abbrev price_range : LocalCalendarDay → LocalCalendarDay → ℤ → Check24StandardPricing
price_range start end_day price = record {
  date_from = ymd start.date;
  date_to = ymd end_day.date;
  daily_price = price;
}

pub pricing_from :
    LocalCalendarDay → LocalCalendarDay → ℤ → List LocalCalendarDay → List Check24StandardPricing
pricing_from start end_day price [] = price_range start end_day price ∷ []
pricing_from start end_day price (day ∷ days) =
    let same = pricing_from start day price days in
    let fresh = price_range start end_day price ∷ pricing_from day day (price_of day) days in
    if int_eq (price_of day) price && ymd day.date == ymd (add_days end_day.date 1)
    then same
    else fresh

pub pricing_of_sorted : List LocalCalendarDay → List Check24StandardPricing
pricing_of_sorted [] = []
pricing_of_sorted (day ∷ days) = pricing_from day day (price_of day) days

pub build_standard_pricing_ranges : List LocalCalendarDay → List Check24StandardPricing
build_standard_pricing_ranges days = pricing_of_sorted (sort_by (λ d. d.date) (keep is_priced days))
